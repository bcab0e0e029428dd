-- ===== src/Libk/Memory/Copy.antt =====
-- memcpy and memmove of kernel/src/libk/string.c: which bytes change, and to what.
use goofyos.Base.{
  ℕ, zero, suc, ◌+◌, ◌-◌, ◌≤◌, ◌<◌, ◌≡◌, ◌⊎◌, inl, inr, arith, if◌then◌else◌, ltb, Bool-cases,
  ltb→lt, ltb→le,
}
use goofyos.Libk.Memory.{Mem, write, within, copy_up, copy_down, copy_index, memcpy, memmove}

-- Every byte of the memory is a byte.
abbrev pub IsBytes : Mem → Type 0
IsBytes m = (a : ℕ) → m a < 256

pub write-IsBytes : (m : Mem) (a v : ℕ) → IsBytes m → IsBytes (write m a v)
write-IsBytes m a v h b = ground (arith, h b)

-- The forward copy reads each source byte before it writes there, if it starts at or below.
copy_up_lem :
    (n dest src : ℕ) (m : Mem) (b : ℕ)
    → IsBytes m
    → (dest ≤ src) ⊎ (src + n ≤ dest)
    → copy_up n dest src m b ≡ (if within dest n b then m (src + (b - dest)) else m b)
unfolding copy_up
copy_up_lem zero dest src m b h d = ground arith
copy_up_lem (suc n) dest src m b h d = ground (
  arith,
  h src,
  copy_up_lem n (dest + 1) (src + 1) (write m dest (m src)) b (write-IsBytes m dest (m src) h)
      (ground arith),
)

copy_index_lem :
    (n i dst src : ℕ) (m : Mem) (b : ℕ)
    → IsBytes m
    → dst ≤ src
    → copy_index n i dst src m b ≡ (if within (dst + i) n b then m (src + (b - dst)) else m b)
unfolding copy_index
copy_index_lem zero i dst src m b h d = ground arith
copy_index_lem (suc n) i dst src m b h d = ground (
  arith,
  h (src + i),
  copy_index_lem n (i + 1) dst src (write m (dst + i) (m (src + i))) b
      (write-IsBytes m (dst + i) (m (src + i)) h) d,
)

copy_down_lem :
    (n dst src : ℕ) (m : Mem) (b : ℕ)
    → IsBytes m
    → src ≤ dst
    → copy_down n dst src m b ≡ (if within dst n b then m (src + (b - dst)) else m b)
unfolding copy_down
copy_down_lem zero dst src m b h d = ground arith
copy_down_lem (suc n) dst src m b h d = ground (
  arith,
  h (src + n),
  copy_down_lem n dst src (write m (dst + n) (m (src + n))) b
      (write-IsBytes m (dst + n) (m (src + n)) h) d,
)

-- memcpy to a destination that starts at or below the source, or above its last byte, copies the
-- source's bytes as they were and changes no other byte.
pub memcpy_lem :
    (dest src count : ℕ) (m : Mem) (b : ℕ)
    → IsBytes m
    → (dest ≤ src) ⊎ (src + count ≤ dest)
    → memcpy dest src count m b ≡ (if within dest count b then m (src + (b - dest)) else m b)
unfolding memcpy
memcpy_lem dest src count m b h d = copy_up_lem count dest src m b h d

-- memmove copies the source's bytes as they were before the call and changes no other byte,
-- however the two ranges overlap.
pub memmove_lem :
    (dst src size : ℕ) (m : Mem) (b : ℕ)
    → IsBytes m
    → memmove dst src size m b ≡ (if within dst size b then m (src + (b - dst)) else m b)
unfolding memmove
memmove_lem dst src size m b h = elim (Bool-cases (ltb dst src)) [
  | inl lt ↦
      rw lt (ground (arith, copy_index_lem size 0 dst src m b h (omega (arith, ltb→lt dst src lt))))
  | inr ge ↦ rw ge (copy_down_lem size dst src m b h (ltb→le dst src ge))
]
