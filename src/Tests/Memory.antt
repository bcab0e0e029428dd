-- ===== src/Tests/Memory.antt =====
-- Runs of the theorems on kernel/src/libk/string.c's block operations.
use goofyos.Base.{◌≡◌}
use goofyos.Libk.Memory.{memmove, memset}
use goofyos.Libk.Memory.Copy.{memmove_lem}
use goofyos.Libk.Memory.Fill.{memset_lem}
use goofyos.Tests.Data.{abc, abc-IsBytes}

memmove_example : memmove 101 100 3 abc 102 ≡ b'b'
memmove_example = memmove_lem 101 100 3 abc 102 abc-IsBytes

memset_example : memset 96 b'x' 11 abc 102 ≡ b'x'
memset_example = memset_lem 96 b'x' 11 abc 102
