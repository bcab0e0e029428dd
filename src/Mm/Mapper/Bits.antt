-- ===== src/Mm/Mapper/Bits.antt =====
-- The bits of an entry of kernel/src/mm/mapper.c.
use Prim.Native.Nat.{bit_or}
use goofyos.Base.{ℕ, ◌+◌, ◌*◌, ◌/◌, ◌%◌, ◌^◌, ◌<◌, ◌≡◌, refl, ◌∙◌, arith, true, false}
use goofyos.Base.Bits.{bit_or-add, bit_or-zero, bit_or_step}
use goofyos.Mm.Mapper.{present, is_large, frame, get_index}

-- The address of a page that an entry can name.
abbrev pub IsFrame : ℕ → Type 0
IsFrame p = (p % 4096 ≡ 0) × (p < 2 ^ 63)

table_entry : (p : ℕ) → IsFrame p → bit_or (bit_or p 1) 2 ≡ p + 3
table_entry p f =
    let k : ℕ = p / 4 in
    let whole : p ≡ k * 2 * 2 ^ 1 = omega (arith, f.0) in
    let one : bit_or p 1 ≡ p + 1 = rw whole (bit_or-add 1 (k * 2) 1 (omega arith)) in
    let half : (p + 1) / 2 ≡ k * 2 ^ 1 = omega (arith, f.0) in
    rw one (bit_or_step (p + 1) 2 ∙ rw (half, bit_or-add 1 k 1 (omega arith)) (omega (arith, f.0)))

pub table_entry-present : (p : ℕ) → IsFrame p → present (bit_or (bit_or p 1) 2) ≡ true
table_entry-present p f = rw (table_entry p f) (ground (arith, f.0))

pub table_entry-is_large : (p : ℕ) → IsFrame p → is_large (bit_or (bit_or p 1) 2) ≡ false
table_entry-is_large p f = rw (table_entry p f) (ground (arith, f.0))

pub table_entry-frame : (p : ℕ) → IsFrame p → frame (bit_or (bit_or p 1) 2) ≡ p
table_entry-frame p f = rw (table_entry p f) (omega (arith, f.0, f.1))

-- The page number of an address of 48 bits, from the four indices.
pub page_number :
    (v w : ℕ)
    → get_index 3 v ≡ get_index 3 w
    → get_index 2 v ≡ get_index 2 w
    → get_index 1 v ≡ get_index 1 w
    → get_index 0 v ≡ get_index 0 w
    → v / 4096 % 2 ^ 36 ≡ w / 4096 % 2 ^ 36
unfolding get_index
page_number v w a b c d = omega arith

pub present_or-one : (x : ℕ) → present (bit_or x 1) ≡ true
present_or-one x =
    let step = bit_or_step x 1 in let low : bit_or x 1 % 2 ≡ 1 = omega arith in rw low refl

-- An aligned physical address with flags below bit 7 keeps its page number in an entry.
pub or_frame :
    (phys flags : ℕ)
    → IsFrame phys
    → flags < 128
    → bit_or (bit_or phys flags) 1 / 4096 % 2 ^ 51 ≡ phys / 4096
or_frame phys flags f h =
    let whole : phys ≡ phys / 128 * 2 ^ 7 = omega (arith, f.0) in
    let sum : bit_or phys flags ≡ phys + flags =
      rw whole (bit_or-add 7 (phys / 128) flags (omega arith)) in
    let step = bit_or_step (phys + flags) 1 in
    let high = bit_or-zero ((phys + flags) / 2) in rw sum (omega (arith, f.0, f.1))
