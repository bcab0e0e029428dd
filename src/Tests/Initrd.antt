-- ===== src/Tests/Initrd.antt =====
-- A run of the theorem on kernel/src/fs/initrd.c.
use goofyos.Base.{ℕ, if◌then◌else◌, ◌==◌}
use goofyos.Fs.Vfs.{Vfs}

-- One header, of the directory "a" and of size 0.
abbrev archive : ℕ → ℕ
archive a = if a == 0 then 97 else if a == 156 then 53 else 48
