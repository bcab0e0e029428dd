-- ===== src/Tests/Mapper.antt =====
-- Runs of the theorems on kernel/src/mm/mapper.c.
use Prim.Native.Nat.{bit_or}
use goofyos.Base.{ℕ, ◌/◌, ◌≡◌, ◌≢◌, refl, true, false, [], ◌∷◌, if◌then◌else◌, ◌==◌, arith}
use goofyos.Base.Int.{pos}
use goofyos.Mm.Mapper.{
  Tables, ok, Mapped, bad_flags, descend, enter, map_page, add_table, get_index, is_mapped,
  virt_to_pfn,
}
use goofyos.Mm.Mapper.Tree.{Labels, IsTree}
use goofyos.Mm.Mapper.Map.{Maps, page_of, map_page-Maps}
use goofyos.Mm.Mapper.Walk.{walk-map_page}

-- An empty root at 4096 and three fresh pages.
abbrev tables : Tables
tables = record { entry = λ t i. 0; fresh = 8192 ∷ 12288 ∷ 16384 ∷ []; locked = false }

abbrev labels : Labels
labels = record { level = λ t. if t == 4096 then 3 else 4; path = λ t. [] }

tables-IsTree : IsTree 4096 labels tables
tables-IsTree = record {
  root_level = refl;
  root_path = refl;
  child = λ t i k at h e. absurd (false-true e);
  small = λ t i k at. refl;
  spare = (
    (refl, (omega arith, omega arith)),
    ((refl, (omega arith, omega arith)), ((refl, (omega arith, omega arith)), tt)),
  );
  distinct = (refl, (refl, (refl, tt)));
}
  where
    false-true : false ≡ true → ⊥
    false-true x = cc

allowed : bad_flags 2 ≡ false
unfolding bad_flags
allowed = refl

map_page_example :
    Maps 4096 tables 0x7000 (bit_or (bit_or 0x5000 2) 1) (map_page 4096 0x5000 0x7000 2 tables)
map_page_example = map_page-Maps 4096 labels tables 0x5000 0x7000 2 tables-IsTree refl allowed

abbrev tables_of : Mapped Tables → Tables
tables_of (ok s) = s
tables_of r = tables

-- The tables with 0x7000 mapped to 0x5000.
abbrev one_mapping : Tables
one_mapping = tables_of (map_page 4096 0x5000 0x7000 2 tables)

one_mapping-mapped : map_page 4096 0x5000 0x7000 2 tables ≡ ok one_mapping
unfolding map_page descend add_table get_index bad_flags enter
one_mapping-mapped = refl

walk_example :
    (is_mapped 4096 0x7000 one_mapping ≡ ok true)
    × (virt_to_pfn 4096 0x7000 one_mapping ≡ pos (0x5000 / 4096))
    × ((v : ℕ)
        → page_of v ≢ page_of 0x7000
        → is_mapped 4096 v one_mapping ≡ is_mapped 4096 v tables)
walk_example =
    walk-map_page 4096 labels tables one_mapping 0x5000 0x7000 2 tables-IsTree refl allowed
      (omega arith) refl (omega arith) one_mapping-mapped
