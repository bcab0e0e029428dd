-- ===== src/Fs/Tmpfs/Calls.antt =====
-- What the calls of kernel/src/fs/tmpfs.c return, and that they keep the file system well formed.
use goofyos.Base.{
  ℕ, suc, ◌^◌, ◌≡◌, ◌≢◌, ◌∙◌, ◌<◌, refl, ap, true, false, List, Option, none, some, ltb,
  if◌then◌else◌, arith, inl, inr, lt→ltb, Option-cases,
}
use goofyos.Dsa.Hashmap.{same_key}
use goofyos.Dsa.Hashmap.Lookup.{or_else, hmap_add-Adds}
use goofyos.Fs.Tmpfs.{
  Inode, Tmpfs, Vnode, done, spinning, Result, ok, failed, eexist, enoent, find_name,
  tmpfs_has_file, long_bytes, child_inode, new_child, make_child, tmpfs_lookup, node_of,
  tmpfs_create_node,
}
use goofyos.Fs.Tmpfs.Names.{
  find_name-ext, find_name-append, new_child-new, new_child-parent, new_child-other, new_child-name,
}
use goofyos.Fs.Tmpfs.Children.{IsTmpfs, grown, grown-IsTmpfs, grown-found, find_name-All}

-- The inode of a name in a directory.
abbrev pub child_named : Tmpfs → ℕ → List ℕ → Option ℕ
child_named fs p name = let t : Inode = fs.inodes p in find_name fs.inodes t.children name

-- What making a child does: the result, the state kept, and the names, in the directory, in the others
-- and in the child.
pub record Makes (kind : ℕ) (node : Vnode) (name : List ℕ) (flags : ℕ) (fs new : Tmpfs)
    : Type 0 where
  pub result :
      make_child kind node name flags fs ≡ done (record { code = ok 0; node = node; fs = new })
  pub kept : IsTmpfs new
  pub named :
      (other : List ℕ)
      → child_named new node.private_data other
        ≡ or_else
            (child_named fs node.private_data other)
            (if same_key name other then some fs.allocated else none)
  pub elsewhere :
      (q : ℕ) (other : List ℕ)
      → q < fs.allocated
      → q ≢ node.private_data
      → child_named new q other ≡ child_named fs q other
  pub childless : (other : List ℕ) → child_named new fs.allocated other ≡ none
  pub opened :
      tmpfs_create_node fs.allocated new
      ≡ node_of (λ q. child_inode kind name flags fs.allocated) fs.allocated (some fs.allocated)

node_of-same : (f g : ℕ → Inode) (n : ℕ) → f n ≡ g n → node_of f n (some n) ≡ node_of g n (some n)
node_of-same f g n e = rw e refl

module _ (kind : ℕ) (node : Vnode) (name : List ℕ) (flags : ℕ) (fs : Tmpfs) where
  make_child_result :
      IsTmpfs fs
      → node.lock ≡ false
      → child_named fs node.private_data name ≡ none
      → make_child kind node name flags fs
        ≡ done
            (record { code = ok 0; node = node; fs = grown kind node.private_data name flags fs })
  unfolding make_child tmpfs_has_file
  make_child_result good unlocked absent =
      let free = good.unlocked in
      let added =
        hmap_add-Adds (long_bytes 8 fs.current_inode) fs.allocated fs.tnode_cache good.cache in
      rw (unlocked, absent, free, added.added) refl

  make_child_named :
      IsTmpfs fs
      → node.private_data < fs.allocated
      → (other : List ℕ)
      → child_named (grown kind node.private_data name flags fs) node.private_data other
        ≡ or_else
            (child_named fs node.private_data other)
            (if same_key name other then some fs.allocated else none)
  make_child_named good here other =
      let p : ℕ = node.private_data in
      let cs : List ℕ = (fs.inodes p).children in
      let f : ℕ → Inode = (new_child kind p name flags fs).inodes in
      let kids = ap (λ (i : Inode). i.children) (new_child-parent kind p name flags fs here) in
      let own : (f fs.allocated).name ≡ name =
        ap (λ i. i.name) (new_child-new kind p name flags fs here) in
      let old =
        find_name-ext f fs.inodes fs.allocated cs other (new_child-name kind p name flags fs here)
          (good.family p here) in
      ap (λ l. find_name f l other) kids
      ∙ find_name-append f cs fs.allocated other
      ∙ rw (old, own) refl

  make_child_elsewhere :
      IsTmpfs fs
      → node.private_data < fs.allocated
      → (q : ℕ) (other : List ℕ) → q < fs.allocated
      → q ≢ node.private_data
      → child_named (grown kind node.private_data name flags fs) q other ≡ child_named fs q other
  make_child_elsewhere good here q other below d =
      let p : ℕ = node.private_data in
      let f : ℕ → Inode = (new_child kind p name flags fs).inodes in
      ap (λ (i : Inode). find_name f i.children other)
        (new_child-other kind p name flags fs q below d)
      ∙ find_name-ext f fs.inodes fs.allocated (fs.inodes q).children other
          (new_child-name kind p name flags fs here) (good.family q below)

  make_child_childless :
      node.private_data < fs.allocated
      → (other : List ℕ)
      → child_named (grown kind node.private_data name flags fs) fs.allocated other ≡ none
  unfolding find_name
  make_child_childless here other =
      ap
        (λ (i : Inode).
          find_name (new_child kind node.private_data name flags fs).inodes i.children other)
        (new_child-new kind node.private_data name flags fs here)

  make_child_opened :
      IsTmpfs fs
      → node.private_data < fs.allocated
      → fs.allocated < 256 ^ 8
      → tmpfs_create_node fs.allocated (grown kind node.private_data name flags fs)
        ≡ node_of (λ q. child_inode kind name flags fs.allocated) fs.allocated (some fs.allocated)
  unfolding tmpfs_create_node
  make_child_opened good here few =
      let p : ℕ = node.private_data in
      let f : ℕ → Inode = (new_child kind p name flags fs).inodes in
      let into : ltb fs.allocated (suc fs.allocated) ≡ true = lt→ltb _ _ (omega arith) in
      let hit = grown-found kind p name flags fs good here few fs.allocated few in
      let new = new_child-new kind p name flags fs here in
      ap (node_of f fs.allocated) {y = some fs.allocated} (hit ∙ rw into refl)
      ∙ node_of-same f (λ q. child_inode kind name flags fs.allocated) fs.allocated
          (new ∙ ap (child_inode kind name flags) good.counted)

  -- On an unlocked directory of a well-formed file system with fewer than 2 ^ 64 inodes, making a child
  -- (tmpfs_mkdir, tmpfs_create) under a name that is not there succeeds and keeps the file system well
  -- formed; from then on that name in that directory is the new inode and every other name what it was,
  -- the names in other directories stay, the child has none, and tmpfs_create_node gives its vnode,
  -- unlocked, of length 0 and with the mode asked for.
  pub make_child-Makes :
      IsTmpfs fs
      → node.private_data < fs.allocated
      → fs.allocated < 256 ^ 8
      → node.lock ≡ false
      → child_named fs node.private_data name ≡ none
      → Makes kind node name flags fs (grown kind node.private_data name flags fs)
  make_child-Makes good here few unlocked absent = record {
    result = make_child_result good unlocked absent;
    kept = grown-IsTmpfs kind node.private_data name flags fs good here few;
    named = make_child_named good here;
    elsewhere = make_child_elsewhere good here;
    childless = make_child_childless here;
    opened = make_child_opened good here few;
  }

-- An inode, as the number that a lookup returns.
abbrev pub number_or_enoent : Option ℕ → Result ℕ
number_or_enoent none = failed enoent
number_or_enoent (some c) = ok c

-- On a well-formed file system tmpfs_lookup in an unlocked directory returns the number of the inode
-- that has the name there, and ENOENT when there is none.
pub tmpfs_lookup_lem :
    (node : Vnode) (name : List ℕ) (fs : Tmpfs)
    → IsTmpfs fs
    → node.private_data < fs.allocated
    → node.lock ≡ false
    → tmpfs_lookup node name fs ≡ done (number_or_enoent (child_named fs node.private_data name))
unfolding tmpfs_lookup
tmpfs_lookup_lem node name fs good here unlocked =
    let t : Inode = fs.inodes node.private_data in
    elim (Option-cases (find_name fs.inodes t.children name)) [
      | inl e ↦ rw (unlocked, e) refl
      | inr (c, e) ↦
          let below =
            find_name-All (λ c. c < fs.allocated) fs.inodes t.children name c
              (good.family node.private_data here) e in
          rw (unlocked, e, good.numbered c below) refl
    ]

-- A call that makes a child under a name that is there returns EEXIST with nothing changed but the
-- directory's lock, which stays held: every later making or looking up of a child in it waits for ever.
pub make_child-exists :
    (kind : ℕ) (node : Vnode) (name : List ℕ) (flags : ℕ) (fs : Tmpfs) (c : ℕ)
    → node.lock ≡ false
    → child_named fs node.private_data name ≡ some c
    → (after : Vnode) × (make_child kind node name flags fs
        ≡ done (record { code = failed eexist; node = after; fs = fs }))
      × ((other_kind : ℕ) (other : List ℕ) (other_flags : ℕ) (later : Tmpfs)
          → make_child other_kind after other other_flags later ≡ spinning)
      × ((other : List ℕ) (later : Tmpfs) → tmpfs_lookup after other later ≡ spinning)
unfolding make_child tmpfs_has_file tmpfs_lookup
make_child-exists kind node name flags fs c unlocked present =
    (record node { lock = true }, rw (unlocked, present) refl, λ k o f l. refl, λ o l. refl)

-- tmpfs_create_node gives a vnode of exactly the numbers given out so far, and ENOENT for any other.
pub tmpfs_create_node_lem :
    (n : ℕ) (fs : Tmpfs)
    → IsTmpfs fs
    → n < 256 ^ 8
    → tmpfs_create_node n fs ≡ node_of fs.inodes n (if ltb n fs.allocated then some n else none)
unfolding tmpfs_create_node
tmpfs_create_node_lem n fs good h = ap (node_of fs.inodes n) (good.found n h)
