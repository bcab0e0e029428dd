-- ===== src/Libk/Printk/Reverse.antt =====
-- The in-place reversal of kernel/src/libk/printk.c.
use mathlib.Core.List
use goofyos.Base.{
  ℕ, zero, suc, ◌+◌, ◌-◌, ◌≤◌, ◌<◌, ◌≡◌, ◌∙◌, sym, Bool, false, ◌&&◌, List, arith, inl, inr, length,
  Bool-cases, if◌then◌else◌, ltb, leb, ◌==◌, ltb→lt,
}
use goofyos.Libk.Memory.{Mem, write, within}
use goofyos.Libk.Memory.Copy.{IsBytes, write-IsBytes}
use goofyos.Libk.Bytes.{Bytes, Bytes-get_or, Bytes-of_get_or, length-reverse, get_or-reverse}
use goofyos.Libk.Printk.{reverse_loop, reverse}

-- The swap of two bytes.
abbrev swap : ℕ → ℕ → ℕ → Mem → Mem
swap str start end m = write (write m (str + start) (m (str + end))) (str + end) (m (str + start))

swap_lem :
    (str start end : ℕ) (m : Mem) (b : ℕ)
    → IsBytes m
    → swap str start end m b ≡ (
        if b == str + end then m (str + start) else if b == str + start then m (str + end) else m b)
swap_lem str start end m b h = ground (arith, h (str + start), h (str + end))

swap-IsBytes : (str start end : ℕ) (m : Mem) → IsBytes m → IsBytes (swap str start end m)
swap-IsBytes str start end m h =
    write-IsBytes _ (str + end) (m (str + start)) (write-IsBytes m (str + start) (m (str + end)) h)

-- The address that `b` is exchanged with.
abbrev mirror : ℕ → ℕ → ℕ → ℕ → ℕ
mirror str start end b = (str + start) + (str + end) - b

abbrev inner : ℕ → ℕ → ℕ → ℕ → Bool
inner str start end b = leb (str + start) b && leb b (str + end)

mirror_step :
    (str start end b : ℕ) (m : Mem)
    → IsBytes m
    → start < end
    → (if ltb (start + 1) (end - 1) && inner str (start + 1) (end - 1) b
        then swap str start end m (mirror str (start + 1) (end - 1) b)
        else swap str start end m b)
      ≡ (if inner str start end b then m (mirror str start end b) else m b)
mirror_step str start end b m h lt = ground (
  arith,
  swap_lem str start end m b h,
  swap_lem str start end m (mirror str (start + 1) (end - 1) b) h,
)

reverse_loop_lem :
    (fuel str start end : ℕ) (m : Mem) (b : ℕ)
    → IsBytes m
    → end - start ≤ fuel
    → reverse_loop fuel str start end m b
      ≡ (if ltb start end && inner str start end b then m (mirror str start end b) else m b)
unfolding reverse_loop
reverse_loop_lem zero str start end m b h f = ground arith
reverse_loop_lem (suc fuel) str start end m b h f = elim (Bool-cases (ltb start end)) [
  | inr done ↦ rw done
  | inl more ↦ rw more (
      reverse_loop_lem fuel str (start + 1) (end - 1) (swap str start end m) b
        (swap-IsBytes str start end m h) (omega arith)
      ∙ mirror_step str start end b m h (ltb→lt start end more))
]

-- `reverse` reverses the bytes of a string in place and changes no other byte.
pub reverse_lem :
    (str : ℕ) (xs : List ℕ) (m : Mem)
    → IsBytes m
    → Bytes m str xs
    → Bytes (reverse str (length xs) m) str (List.reverse xs)
      × ((b : ℕ) → within str (length xs) b ≡ false → reverse str (length xs) m b ≡ m b)
unfolding reverse
reverse_lem str xs m h c = (
  Bytes-of_get_or _ str (List.reverse xs) (λ j k.
      let k' : j < length xs = omega (arith, length-reverse xs) in
      moved j k'
      ∙ (Bytes-get_or m str (length xs - 1 - j) xs c (omega arith) ∙ sym (get_or-reverse xs j k'))),
  λ b out. reverse_loop_lem (length xs) str 0 (length xs - 1) m b h (omega arith) ∙ ground arith,
)
  where
    moved :
        (j : ℕ)
        → j < length xs
        → reverse_loop (length xs) str 0 (length xs - 1) m (str + j) ≡ m (str + (length xs - 1 - j))
    moved j k =
        reverse_loop_lem (length xs) str 0 (length xs - 1) m (str + j) h (omega arith)
        ∙ ground arith
