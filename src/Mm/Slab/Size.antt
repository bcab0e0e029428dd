-- ===== src/Mm/Slab/Size.antt =====
-- The size classes of kmalloc in kernel/src/include/goofy-os/slab.h, with the caches of slab_init in
-- kernel/src/mm/slab.c.
use goofyos.Base.{ℕ, ◌-◌, ◌≡◌, ◌⊎◌, ◌<◌, ◌≤◌, refl, true, false, inl, inr, arith, Bool-cases, leb}
use goofyos.Mm.Slab.{
  Cache, kmalloc_idx, kmalloc_sizes, kmalloc_orders, init_caches, n_objects, slab_size,
}

leb_le : (a b : ℕ) → leb a b ≡ true → a ≤ b
leb_le a b e = ground arith

leb-false : (a b : ℕ) → leb a b ≡ false → b < a
leb-false a b e = ground arith

leb-true : (a b : ℕ) → a ≤ b → leb a b ≡ true
leb-true a b e = ground arith

-- What holds of each index in its range of sizes holds of the index that is chosen.
kmalloc_idx_cases :
    (P : ℕ → Type 0) (size : ℕ)
    → size ≤ 8192
    → (size ≤ 8 → P 0)
    → (8 < size → size ≤ 16 → P 1)
    → (16 < size → size ≤ 32 → P 2)
    → (32 < size → size ≤ 64 → P 3)
    → (64 < size → size ≤ 128 → P 4)
    → (128 < size → size ≤ 192 → P 5)
    → (192 < size → size ≤ 256 → P 6)
    → (256 < size → size ≤ 512 → P 7)
    → (512 < size → size ≤ 1024 → P 8)
    → (1024 < size → size ≤ 2048 → P 9)
    → (2048 < size → size ≤ 4096 → P 10)
    → (4096 < size → size ≤ 8192 → P 11)
    → P (kmalloc_idx size)
unfolding kmalloc_idx
kmalloc_idx_cases P size le h0 h1 h2 h3 h4 h5 h6 h7 h8 h9 h10 h11 = elim (Bool-cases (leb size 8)) [
  | inl e ↦ rw e (h0 (leb_le size 8 e))
  | inr e0 ↦ rw e0 (elim (Bool-cases (leb size 16)) [
    | inl e ↦ rw e (h1 (leb-false size 8 e0) (leb_le size 16 e))
    | inr e1 ↦ rw e1 (elim (Bool-cases (leb size 32)) [
      | inl e ↦ rw e (h2 (leb-false size 16 e1) (leb_le size 32 e))
      | inr e2 ↦ rw e2 (elim (Bool-cases (leb size 64)) [
        | inl e ↦ rw e (h3 (leb-false size 32 e2) (leb_le size 64 e))
        | inr e3 ↦ rw e3 (elim (Bool-cases (leb size 128)) [
          | inl e ↦ rw e (h4 (leb-false size 64 e3) (leb_le size 128 e))
          | inr e4 ↦ rw e4 (elim (Bool-cases (leb size 192)) [
            | inl e ↦ rw e (h5 (leb-false size 128 e4) (leb_le size 192 e))
            | inr e5 ↦ rw e5 (elim (Bool-cases (leb size 256)) [
              | inl e ↦ rw e (h6 (leb-false size 192 e5) (leb_le size 256 e))
              | inr e6 ↦ rw e6 (elim (Bool-cases (leb size 512)) [
                | inl e ↦ rw e (h7 (leb-false size 256 e6) (leb_le size 512 e))
                | inr e7 ↦ rw e7 (elim (Bool-cases (leb size 1024)) [
                  | inl e ↦ rw e (h8 (leb-false size 512 e7) (leb_le size 1024 e))
                  | inr e8 ↦ rw e8 (elim (Bool-cases (leb size 2048)) [
                    | inl e ↦ rw e (h9 (leb-false size 1024 e8) (leb_le size 2048 e))
                    | inr e9 ↦ rw e9 (elim (Bool-cases (leb size 4096)) [
                      | inl e ↦ rw e (h10 (leb-false size 2048 e9) (leb_le size 4096 e))
                      | inr e10 ↦
                          rw e10 (rw (leb-true size 8192 le) (h11 (leb-false size 4096 e10) le))
                    ])
                  ])
                ])
              ])
            ])
          ])
        ])
      ])
    ])
  ])
]

-- The cache of kmalloc with the index `i`, behind slab_init.
abbrev kmalloc_cache : (ℕ → Cache) → ℕ → Cache
kmalloc_cache caches i = init_caches kmalloc_sizes kmalloc_orders 0 caches i

abbrev pub Fits : (ℕ → Cache) → ℕ → ℕ → Type 0
Fits caches size i =
    (i < 12)
    × (size ≤ (kmalloc_cache caches i).size)
    × ((i ≡ 0) ⊎ ((kmalloc_cache caches (i - 1)).size < size))
    × (3 < n_objects (kmalloc_cache caches i))

-- For a size of at most 8192 bytes, kmalloc_idx is the index of one of the 12 caches that slab_init sets
-- up. The objects of that cache are large enough, those of the cache before it are not, and a slab of
-- the cache has at least 4 objects.
pub kmalloc_idx-Fits :
    (caches : ℕ → Cache) (size : ℕ) → size ≤ 8192 → Fits caches size (kmalloc_idx size)
unfolding init_caches n_objects slab_size
kmalloc_idx-Fits caches size le =
    kmalloc_idx_cases (Fits caches size) size le (λ u. (omega arith, u, inl refl, omega arith))
      (λ l u. (omega arith, u, inr l, omega arith)) (λ l u. (omega arith, u, inr l, omega arith))
      (λ l u. (omega arith, u, inr l, omega arith)) (λ l u. (omega arith, u, inr l, omega arith))
      (λ l u. (omega arith, u, inr l, omega arith)) (λ l u. (omega arith, u, inr l, omega arith))
      (λ l u. (omega arith, u, inr l, omega arith)) (λ l u. (omega arith, u, inr l, omega arith))
      (λ l u. (omega arith, u, inr l, omega arith)) (λ l u. (omega arith, u, inr l, omega arith))
      (λ l u. (omega arith, u, inr l, omega arith))
