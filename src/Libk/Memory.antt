-- ===== src/Libk/Memory.antt =====
-- The block operations of kernel/src/libk/string.c over a byte-addressed memory. A pointer is an
-- address, a byte a number below 256. An address does not wrap round.
pub mod Copy
pub mod Fill
use Prim.Native.Nat.{bit_or}
use goofyos.Base.{
  ℕ, zero, suc, ◌+◌, ◌-◌, ◌*◌, ◌/◌, ◌%◌, ◌^◌, Bool, ◌&&◌, if◌then◌else◌, ltb, leb, ◌==◌,
}

abbrev pub Mem : Type 0
Mem = ℕ → ℕ

-- `*(uint8_t *)a = v`
abbrev pub write : Mem → ℕ → ℕ → Mem
write m a v b = if a == b then v % 256 else m b

-- Whether `b` is one of the `n` addresses from `a`.
abbrev pub within : ℕ → ℕ → ℕ → Bool
within a n b = leb a b && ltb b (a + n)

-- `while (count--) *tmp++ = *src++;`
unfoldable pub copy_up : ℕ → ℕ → ℕ → Mem → Mem
copy_up zero dest src m = m
copy_up (suc count) dest src m = copy_up count (dest + 1) (src + 1) (write m dest (m src))

unfoldable pub memcpy : ℕ → ℕ → ℕ → Mem → Mem
memcpy dest src count m = copy_up count dest src m

-- `for (i = size; i != 0; i--) dst[i - 1] = src[i - 1];`
unfoldable pub copy_down : ℕ → ℕ → ℕ → Mem → Mem
copy_down zero dst src m = m
copy_down (suc i) dst src m = copy_down i dst src (write m (dst + i) (m (src + i)))

-- The loop of the forward branch indexes from the start of both ranges.
unfoldable pub copy_index : ℕ → ℕ → ℕ → ℕ → Mem → Mem
copy_index zero i dst src m = m
copy_index (suc left) i dst src m =
    copy_index left (i + 1) dst src (write m (dst + i) (m (src + i)))

unfoldable pub memmove : ℕ → ℕ → ℕ → Mem → Mem
memmove dst src size m =
    if ltb dst src then copy_index size 0 dst src m else copy_down size dst src m

-- `*(uint64_t *)a = w`, little endian.
unfoldable pub write64 : Mem → ℕ → ℕ → Mem
write64 m a w =
    write
      (write
        (write
          (write
            (write (write (write (write m a w) (a + 1) (w / 2 ^ 8)) (a + 2) (w / 2 ^ 16)) (a + 3)
              (w / 2 ^ 24))
            (a + 4) (w / 2 ^ 32))
          (a + 5) (w / 2 ^ 40))
        (a + 6) (w / 2 ^ 48))
      (a + 7) (w / 2 ^ 56)

-- `pattern |= pattern << k` on a uint64_t.
unfoldable pub spread : ℕ → ℕ → ℕ
spread k p = bit_or p ((p * 2 ^ k) % 2 ^ 64)

unfoldable pub pattern_of : ℕ → ℕ
unfolding spread
pattern_of c = spread 32 (spread 16 (spread 8 (c % 256)))

-- `while (count >= 8) { *q_ptr++ = pattern; count -= 8; }`, on fuel.
unfoldable pub fill_words : ℕ → ℕ → ℕ → ℕ → Mem → Mem
fill_words zero q pattern count m = m
fill_words (suc fuel) q pattern count m =
    let rest = fill_words fuel (q + 8) pattern (count - 8) (write64 m q pattern) in
    if leb 8 count then rest else m

-- The value of `count` when that loop ends.
unfoldable pub words_left : ℕ → ℕ → ℕ
words_left zero count = count
words_left (suc fuel) count =
    let rest = words_left fuel (count - 8) in if leb 8 count then rest else count

-- `while (count--) *b_ptr++ = (uint8_t)c;`
unfoldable pub fill_bytes : ℕ → ℕ → ℕ → Mem → Mem
fill_bytes zero b c m = m
fill_bytes (suc count) b c m = fill_bytes count (b + 1) c (write m b c)

-- `c` is the bit pattern of the `int` argument. Both loops start at `dest`.
unfoldable pub memset : ℕ → ℕ → ℕ → Mem → Mem
memset dest c count m =
    fill_bytes (words_left count count) dest c (fill_words count dest (pattern_of c) count m)
