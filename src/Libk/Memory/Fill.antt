-- ===== src/Libk/Memory/Fill.antt =====
-- memset of kernel/src/libk/string.c: which bytes it sets.
use goofyos.Base.{
  ℕ, zero, suc, ◌+◌, ◌-◌, ◌*◌, ◌/◌, ◌%◌, ◌≤◌, ◌<◌, ◌≡◌, refl, arith, if◌then◌else◌, ◌==◌, ==→eq,
  Bool-cases, leb→le, leb, inl, inr, ◌||◌, ◌∙◌, ◌⊎◌, ◌≢◌, true, passed_below, passed_below_at,
}
use goofyos.Libk.Memory.{
  Mem, write, write64, within, pattern_of, fill_words, words_left, fill_bytes, memset,
}

fill_bytes_lem :
    (n b c : ℕ) (m : Mem) (a : ℕ) → fill_bytes n b c m a ≡ (if within b n a then c % 256 else m a)
unfolding fill_bytes
fill_bytes_lem zero b c m a = ground arith
fill_bytes_lem (suc n) b c m a = ground (arith, fill_bytes_lem n (b + 1) c (write m b c) a)

pattern_table : passed_below (λ c. pattern_of c == c * 0x0101010101010101) 256 ≡ true
unfolding passed_below pattern_of
pattern_table = refl

mod_twice : (c : ℕ) → c % 256 % 256 ≡ c % 256
mod_twice c = omega arith

pattern_of_lem : (c : ℕ) → pattern_of c ≡ (c % 256) * 0x0101010101010101
pattern_of_lem c = low ∙ ==→eq _ _ (passed_below_at _ 256 (c % 256) (omega arith) pattern_table)
  where
    low : pattern_of c ≡ pattern_of (c % 256)
    low = unfold pattern_of in rw (mod_twice c)

write64_lem :
    (m : Mem) (q w c a : ℕ)
    → w ≡ c % 256 * 0x0101010101010101
    → write64 m q w a ≡ (if within q 8 a then c % 256 else m a)
unfolding write64
write64_lem m q w c a h = ground arith

words_left_lem : (fuel count : ℕ) → count ≤ fuel → words_left fuel count ≡ count % 8
unfolding words_left
words_left_lem zero count h = omega arith
words_left_lem (suc fuel) count h = ground (arith, words_left_lem fuel (count - 8))

fill_words_lem :
    (fuel q c count : ℕ) (m : Mem) (a : ℕ)
    → count ≤ fuel
    → fill_words fuel q (pattern_of c) count m a
      ≡ (if within q (count / 8 * 8) a then c % 256 else m a)
unfolding fill_words
fill_words_lem zero q c count m a h = ground arith
fill_words_lem (suc fuel) q c count m a h = elim (Bool-cases (leb 8 count)) [
  | inl more ↦
      let rest =
        fill_words_lem fuel (q + 8) c (count - 8) (write64 m q (pattern_of c)) a
          (omega (arith, leb→le 8 count more)) in
      rw (more, rest) (ground (arith, write64_lem m q (pattern_of c) c a (pattern_of_lem c)))
  | inr done ↦ rw done (ground arith)
]

-- memset sets the first `count / 8 * 8` bytes and, from the start again, the first `count % 8`
-- bytes to the low byte of `c`, and changes no other byte.
pub memset_lem :
    (dest c count : ℕ) (m : Mem) (a : ℕ)
    → memset dest c count m a
      ≡ (if within dest (count / 8 * 8) a || within dest (count % 8) a then c % 256 else m a)
unfolding memset
memset_lem dest c count m a = ground (
  arith,
  words_left_lem count count,
  fill_words_lem count dest c count m a,
  fill_bytes_lem (words_left count count) dest c (fill_words count dest (pattern_of c) count m) a,
)

-- When `count` is a multiple of 8, or below 8, memset sets the `count` bytes at `dest` to the low
-- byte of `c` and changes no other byte.
pub memset_whole :
    (dest c count : ℕ) (m : Mem) (a : ℕ)
    → (count % 8 ≡ 0) ⊎ (count < 8)
    → memset dest c count m a ≡ (if within dest count a then c % 256 else m a)
memset_whole dest c count m a h = ground (arith, memset_lem dest c count m a)

-- When `count` is above 8 and no multiple of 8, memset leaves the byte at `dest + count - 1`, the
-- last one of the range, as it was.
pub memset_tail :
    (dest c count : ℕ) (m : Mem)
    → 8 < count
    → count % 8 ≢ 0
    → memset dest c count m (dest + count - 1) ≡ m (dest + count - 1)
memset_tail dest c count m h k = ground (arith, memset_lem dest c count m (dest + count - 1))
