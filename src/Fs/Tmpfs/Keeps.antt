-- ===== src/Fs/Tmpfs/Keeps.antt =====
-- The file system that tmpfs_write of kernel/src/fs/tmpfs.c leaves is well formed.
use goofyos.Base.{
  ℕ, ◌≡◌, ◌≤◌, All, ==_self, ◌∙◌, ◌<◌, sym, true, List, ◌==◌, Bool-cases, inl, inr, ==→eq,
}
use goofyos.Fs.Tmpfs.{Inode, Tmpfs, Vnode, tmpfs_write, place_inode, is_regular}
use goofyos.Fs.Tmpfs.Data.{IsRoomy, written_inode-Writes}
use goofyos.Fs.Tmpfs.Children.{IsTmpfs}

placed :
    (p : ℕ) (i : Inode) (fs : Tmpfs) (P : ℕ → Inode → Type 0)
    → P p i
    → ((q : ℕ) → q < fs.allocated → P q (fs.inodes q))
    → (q : ℕ) → q < fs.allocated
    → P q (place_inode fs.inodes p i q)
placed p i fs P new old q h = elim (Bool-cases (p == q)) [
  | inl e ↦ let here = ==→eq p q e in rw (sym here, ==_self p) new
  | inr e ↦ rw e (old q h)
]

-- A write to a regular file, starting inside it or at its end, keeps the file system well formed.
pub tmpfs_write-IsTmpfs :
    (fresh : ℕ → ℕ) (node : Vnode) (buf : List ℕ) (off : ℕ) (fs : Tmpfs)
    → IsTmpfs fs
    → is_regular node.mode ≡ true
    → node.private_data < fs.allocated
    → off ≤ (fs.inodes node.private_data).length
    → IsTmpfs (tmpfs_write fresh node buf off fs).fs
unfolding tmpfs_write
tmpfs_write-IsTmpfs fresh node buf off fs good regular here inside =
    let p : ℕ = node.private_data in
    let writes = written_inode-Writes fresh buf off (fs.inodes p) (good.roomy p here) inside in
    rw regular (record {
      counted = good.counted;
      unlocked = good.unlocked;
      numbered =
          placed p _ fs (λ q i. i.number ≡ q) (writes.numbered ∙ good.numbered p here)
            good.numbered;
      family =
          placed p _ fs (λ q i. All (λ c. c < fs.allocated) i.children)
            (rw writes.family (good.family p here)) good.family;
      roomy = placed p _ fs (λ q i. IsRoomy i) writes.roomy good.roomy;
      cache = good.cache;
      found = good.found;
    })
