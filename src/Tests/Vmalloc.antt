-- ===== src/Tests/Vmalloc.antt =====
-- Runs of the theorems on kernel/src/mm/vmalloc.c.
use goofyos.Base.{refl, arith}
use goofyos.Mm.Vmalloc.{vmalloc_init, vmalloc_map_range}
use goofyos.Mm.Vmalloc.Reserve.{Tiles, Outcome, vmalloc_map_range-Outcome}

vmalloc_init-Tiles : Tiles 0xffffd00000000000 0xffffe00000000000 vmalloc_init
unfolding vmalloc_init
vmalloc_init-Tiles = (refl, omega arith, refl)

vmalloc_map_range_example :
    Outcome 0xffffd00000000000 0xffffe00000000000 8192 vmalloc_init
      (vmalloc_map_range 8192 vmalloc_init)
vmalloc_map_range_example =
    vmalloc_map_range-Outcome 0xffffd00000000000 0xffffe00000000000 8192 vmalloc_init (omega arith)
      refl vmalloc_init-Tiles
