-- ===== src/Fs/Tmpfs/Bytes.antt =====
-- The bytes at an offset of a block, and what memcpy leaves of them, in kernel/src/fs/tmpfs.c.
use Prim.Native.Nat.{max}
use goofyos.Base.{
  ℕ, zero, suc, ◌+◌, ◌-◌, ◌≡◌, ◌∙◌, ◌<◌, ◌≤◌, refl, ap, true, List, [], ◌∷◌, ◌++◌, ltb, leb, length,
  get_or, arith,
}
use goofyos.Fs.Tmpfs.{bytes_at, overwrite}

pub bytes_at-add :
    (f : ℕ → ℕ) (s a b : ℕ) → bytes_at f s (a + b) ≡ bytes_at f s a ++ bytes_at f (s + a) b
unfolding bytes_at
bytes_at-add f s zero b =
    let none_more : 0 + b ≡ b = omega arith in
    let here : s + 0 ≡ s = omega arith in rw (none_more, here) refl
bytes_at-add f s (suc a) b =
    let more : suc a + b ≡ suc (a + b) = omega arith in
    let place : suc s + a ≡ s + suc a = omega arith in
    let rest = bytes_at-add f (suc s) a b in rw more (ap (λ l. f s ∷ l) (rw place at rest))

pub bytes_at-ext :
    (f g : ℕ → ℕ) (s n : ℕ)
    → ((i : ℕ) → s ≤ i → i < s + n → f i ≡ g i)
    → bytes_at f s n ≡ bytes_at g s n
unfolding bytes_at
bytes_at-ext f g s zero same = refl
bytes_at-ext f g s (suc n) same =
    rw (same s (omega arith) (omega arith))
      (ap (λ l. g s ∷ l) (bytes_at-ext f g (suc s) n (λ i p q. same i (omega arith) (omega arith))))

-- Bytes that are read off a list, at the places from `s` on, are the list.
pub bytes_at-get :
    (f : ℕ → ℕ) (s : ℕ) (buf : List ℕ)
    → ((j : ℕ) → j < length buf → f (s + j) ≡ get_or buf j 0)
    → bytes_at f s (length buf) ≡ buf
unfolding bytes_at
bytes_at-get f s [] same = refl
bytes_at-get f s (c ∷ buf) same =
    let first : f s ≡ c = ap f (omega arith) ∙ same 0 (omega arith) in
    rw first (
      ap (λ l. c ∷ l)
        (bytes_at-get f (suc s) buf (λ j p. ap f (omega arith) ∙ same (suc j) (omega arith))))

pub overwrite_before :
    (f : ℕ → ℕ) (off : ℕ) (buf : List ℕ) (i : ℕ) → i < off → overwrite f off buf i ≡ f i
overwrite_before f off buf i p = ground arith

pub overwrite_after :
    (f : ℕ → ℕ) (off : ℕ) (buf : List ℕ) (i : ℕ)
    → off + length buf ≤ i
    → overwrite f off buf i ≡ f i
overwrite_after f off buf i p = ground arith

pub overwrite_inside :
    (f : ℕ → ℕ) (off : ℕ) (buf : List ℕ) (j : ℕ)
    → j < length buf
    → overwrite f off buf (off + j) ≡ get_or buf j 0
overwrite_inside f off buf j p =
    let place : off + j - off ≡ j = omega arith in
    let low : leb off (off + j) ≡ true = ground arith in
    let high : ltb (off + j) (off + length buf) ≡ true = ground arith in rw (low, high, place) refl

-- The bytes of a file after a write that starts inside it, or at its end.
pub overwrite-contents :
    (f : ℕ → ℕ) (off len : ℕ) (buf : List ℕ)
    → off ≤ len
    → bytes_at (overwrite f off buf) 0 (max len (off + length buf))
      ≡ bytes_at f 0 off ++ (buf ++ bytes_at f (off + length buf) (len - (off + length buf)))
overwrite-contents f off len buf p =
    let n : ℕ = length buf in
    let g : ℕ → ℕ = overwrite f off buf in
    let rest : ℕ = len - (off + n) in
    let whole : max len (off + n) ≡ off + (n + rest) = ground arith in
    let before : bytes_at g 0 off ≡ bytes_at f 0 off =
      bytes_at-ext g f 0 off (λ i p q. overwrite_before f off buf i (omega arith)) in
    let inside : bytes_at g off n ≡ buf = bytes_at-get g off buf (overwrite_inside f off buf) in
    let after : bytes_at g (off + n) rest ≡ bytes_at f (off + n) rest =
      bytes_at-ext g f (off + n) rest (λ i p q. overwrite_after f off buf i p) in
    let inner : bytes_at g (0 + off) (n + rest) ≡ buf ++ bytes_at f (off + n) rest =
      let start : 0 + off ≡ off = omega arith in
      rw start (bytes_at-add g off n rest ∙ rw (inside, after) refl) in
    rw whole (bytes_at-add g 0 off (n + rest) ∙ rw (before, inner) refl)
