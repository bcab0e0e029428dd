-- ===== src/Fs/Vfs/Create.antt =====
-- The making of files and directories of kernel/src/fs/vfs.c over a mounted tmpfs.
use goofyos.Base.{
  ℕ, suc, ◌+◌, ◌^◌, ◌≡◌, ◌∙◌, ◌<◌, ◌≤◌, refl, ap, true, false, List, [], ◌∷◌, ◌++◌, none, some, All,
  ◌==◌, if◌then◌else◌, ◌||◌, ◌&&◌, length, arith, Bool-cases, Option-cases, inl, inr, ==→eq,
  ==_self,
}
use goofyos.Dsa.Hashmap.{same_key}
use goofyos.Dsa.Hashmap.Lookup.{same_key_self}
use goofyos.Fs.Tmpfs.{Tmpfs, Vnode, Outcome, done, new_child, ok, make_child}
use goofyos.Fs.Tmpfs.Children.{IsTmpfs, grown, find_name-All, grown-every}
use goofyos.Fs.Tmpfs.Calls.{child_named, Makes, make_child-Makes}
use goofyos.Fs.Vfs.{Dentry, Vfs, Returned, tmpfs_operations, dot, vfs_parse_path}
use goofyos.Fs.Vfs.Calls.{
  vnode_of, make_parsed, make_at, vfs_find_dentry, start_of, files_to_find, last_file,
}
use goofyos.Fs.Vfs.Walk.{walk, IsEntry, IsVfs}
use goofyos.Fs.Vfs.Search.{find_child_named, vfs_find_dentry-Reaches}

-- The state with the child made in the directory of the dentry `d`.
abbrev pub with_made : ℕ → ℕ → List ℕ → ℕ → Vfs → Vfs
with_made kind d name flags s =
    let entry : Dentry = s.dentries d in
    record s {
      vnodes = λ q. if entry.vnode == q then s.vnodes entry.vnode else s.vnodes q;
      fs = grown kind (vnode_of s d).private_data name flags s.fs;
    }

same_vnode : (vnodes : ℕ → Vnode) (v q : ℕ) → (if v == q then vnodes v else vnodes q) ≡ vnodes q
same_vnode vnodes v q = elim (Bool-cases (v == q)) [
  | inl e ↦ let here = ==→eq v q e in rw (here, ==_self q) refl
  | inr e ↦ rw e refl
]

grown_count :
    (kind p : ℕ) (name : List ℕ) (flags : ℕ) (fs : Tmpfs)
    → (new_child kind p name flags fs).allocated ≡ suc fs.allocated
unfolding new_child
grown_count kind p name flags fs = refl

positive_last :
    (n : ℕ) (cs : List ℕ) → 0 < n → All (λ c. 0 < c) cs → All (λ c. 0 < c) (cs ++ n ∷ [])
positive_last n [] p h = (p, tt)
positive_last n (c ∷ cs) p h = (h.0, positive_last n cs p h.1)

module _ (kind d : ℕ) (name : List ℕ) (flags : ℕ) (s : Vfs) (good : IsVfs s) (positive : 0 < d)
    (below : d < s.next_dentry) where
  more_inodes : (q : ℕ) → q < s.fs.allocated → q < (with_made kind d name flags s).fs.allocated
  more_inodes q h =
      let count = grown_count kind (vnode_of s d).private_data name flags s.fs in omega arith

  with_made-IsEntry : (e : ℕ) → IsEntry s e → IsEntry (with_made kind d name flags s) e
  with_made-IsEntry e i =
      let same = same_vnode s.vnodes (s.dentries d).vnode (s.dentries e).vnode in
      record {
        node = i.node;
        unlocked = rw same i.unlocked;
        inode = rw same (more_inodes (vnode_of s e).private_data i.inode);
      }

  with_made-IsVfs :
      s.fs.allocated < 256 ^ 8
      → IsTmpfs (grown kind (vnode_of s d).private_data name flags s.fs)
      → IsVfs (with_made kind d name flags s)
  with_made-IsVfs room kept =
      let entry = good.entries d positive below in
      let p : ℕ = (vnode_of s d).private_data in
      let in_use = entry.inode in
      let count = grown_count kind p name flags s.fs in
      record {
        fs = kept;
        few = omega arith;
        entries = λ e p h. with_made-IsEntry e (good.entries e p h);
        dentry_uncached = good.dentry_uncached;
        vnode_uncached = good.vnode_uncached;
        rootless = λ q h.
            grown-every kind p name flags s.fs good.fs in_use room
              (λ q i. All (λ c. 0 < c) i.children) tt
              (positive_last s.fs.allocated (s.fs.inodes p).children (omega arith)
                (good.rootless p in_use))
              good.rootless q (omega arith);
      }

-- What vfs_mkdir and vfs_create leave when they make a child: it is the inode that the path leads to.
pub record Created (kind : ℕ) (call : Outcome (Returned ℕ)) (p start : ℕ) (front : List (List ℕ))
    (child : List ℕ) (flags : ℕ) (s : Vfs) : Type 0 where
  pub result : Returned ℕ
  pub returned : call ≡ done result
  pub code : result.code ≡ ok 0
  pub good : IsVfs result.state
  pub made : result.state.fs ≡ grown kind p child flags s.fs
  pub leads : walk result.state.fs start (front ++ child ∷ []) ≡ some s.fs.allocated

module _ {kind : ℕ} {node : Vnode} {name : List ℕ} {flags : ℕ} {fs new : Tmpfs}
    (makes : Makes kind node name flags fs new) (good : IsTmpfs fs) where
  child_stays :
      (q : ℕ) (file : List ℕ) (c : ℕ)
      → q < fs.allocated
      → child_named fs q file ≡ some c
      → child_named new q file ≡ some c
  child_stays q file c h e = elim (Bool-cases (q == node.private_data)) [
    | inl g ↦
        let here = ==→eq q node.private_data g in
        let old : child_named fs node.private_data file ≡ some c = rw here at e in
        rw here (makes.named file ∙ rw old refl)
    | inr g ↦ makes.elsewhere q file h (ground arith) ∙ e
  ]

  -- The way to a directory stays when a name is added to it, and goes on to the new inode.
  walk-made :
      (start : ℕ) (front : List (List ℕ))
      → start < fs.allocated
      → walk fs start front ≡ some node.private_data
      → (same_key name dot) ≡ false
      → child_named fs node.private_data name ≡ none
      → walk new start (front ++ name ∷ []) ≡ some fs.allocated
  unfolding walk
  walk-made start [] here way other absent =
      let arrived : start ≡ node.private_data = some_same way in
      let last : child_named new node.private_data name ≡ some fs.allocated =
        makes.named name ∙ rw (absent, same_key_self name) refl in
      rw (other, arrived, last) refl
    where
      some_same : some start ≡ some node.private_data → start ≡ node.private_data
      some_same x = cc
  walk-made start (file ∷ front) here way other absent = elim (Bool-cases (same_key file dot)) [
    | inl e ↦ rw e (walk-made start front here (rw e at way) other absent)
    | inr e ↦ elim (Option-cases (child_named fs start file)) [
      | inl g ↦ absurd (none_some (rw (e, g) at way))
      | inr (c, g) ↦
          let below =
            find_name-All (λ c. c < fs.allocated) fs.inodes (fs.inodes start).children file c
              (good.family start here) g in
          rw (e, child_stays start file c here g)
            (walk-made c front below (rw (e, g) at way) other absent)
    ]
  ]
    where
      none_some : none ≡ some node.private_data → ⊥
      none_some x = cc

module _ (fresh : ℕ → ℕ) where
  -- The directory is known: the child is looked for, and made.
  make_parsed-done :
      (kind d : ℕ) (flags : ℕ) (files : List (List ℕ)) (s : Vfs)
      → IsVfs s
      → 0 < d
      → d < s.next_dentry
      → s.next_dentry ≤ 256 ^ 8
      → s.fs.allocated < 256 ^ 8
      → (same_key (last_file files) dot) ≡ false
      → child_named s.fs (vnode_of s d).private_data (last_file files) ≡ none
      → make_parsed (tmpfs_operations fresh) (make_child kind) d flags (some files) s
        ≡ done (record { code = ok 0; state = with_made kind d (last_file files) flags s })
  make_parsed-done kind d flags files s good positive below room few other absent =
      let entry = good.entries d positive below in
      let child : List ℕ = last_file files in
      let missing = find_child_named fresh d child s good positive below room other in
      let makes =
        make_child-Makes kind (vnode_of s d) child flags s.fs good.fs entry.inode few entry.unlocked
          absent in
      rw (missing, absent, makes.result) refl

  make_at-found :
      (kind : ℕ) (path : List ℕ) (files : List (List ℕ)) (rel flags d : ℕ) (s : Vfs)
      (r : Returned ℕ)
      → vfs_find_dentry (tmpfs_operations fresh) path rel true s ≡ done r
      → r.code ≡ ok d
      → vfs_parse_path path ≡ some files
      → make_at (tmpfs_operations fresh) (some (make_child kind)) path rel flags s
        ≡ make_parsed (tmpfs_operations fresh) (make_child kind) d flags (some files) r.state
  unfolding make_at
  make_at-found kind path files rel flags d s r e code parsed = rw (e, code, parsed) refl

  -- vfs_mkdir (kind S_IFDIR) and vfs_create (kind S_IFREG), in a well-formed state with room for a
  -- dentry for each file and for an inode, with a start in use and a path that parses into two files
  -- or more of which the last is not the dot, where the others lead from the start to a directory
  -- without a child of that name, return 0 and leave a well-formed state whose file system has that one
  -- new inode, to which the others and the last then lead.
  pub make_at-Created :
      (kind : ℕ) (path : List ℕ) (files : List (List ℕ)) (rel flags p : ℕ) (s : Vfs)
      → IsVfs s
      → vfs_parse_path path ≡ some files
      → ((length files == 0) || ((length files == 1) && true)) ≡ false
      → 0 < start_of path rel s
      → start_of path rel s < s.next_dentry
      → s.next_dentry + length (files_to_find path true files) ≤ 256 ^ 8
      → s.fs.allocated < 256 ^ 8
      → walk s.fs (vnode_of s (start_of path rel s)).private_data (files_to_find path true files)
        ≡ some p
      → same_key (last_file files) dot ≡ false
      → child_named s.fs p (last_file files) ≡ none
      → Created kind
          (make_at (tmpfs_operations fresh) (some (make_child kind)) path rel flags s)
          p
          (vnode_of s (start_of path rel s)).private_data
          (files_to_find path true files)
          (last_file files)
          flags
          s
  make_at-Created kind path files rel flags p s good parsed enough positive below room few way other
        absent =
      let search =
        vfs_find_dentry-Reaches fresh path files rel true s good parsed enough positive below
          room in
      let found = rw way at search.at in
      let t : Vfs = search.result.state in
      let d : ℕ = found.0 in
      let at_p = found.4 in
      let same = search.same_fs in
      let entry = search.good.entries d found.2 found.3 in
      let child : List ℕ = last_file files in
      let few_t : t.fs.allocated < 256 ^ 8 = rw same few in
      let absent_t : child_named t.fs (vnode_of t d).private_data child ≡ none =
        rw (same, at_p) absent in
      let grew = search.grew in
      let start : ℕ = (vnode_of s (start_of path rel s)).private_data in
      let started = good.entries (start_of path rel s) positive below in
      let start_in : start < t.fs.allocated = rw same started.inode in
      let step =
        make_parsed-done kind d flags files t search.good found.2 found.3 (omega arith) few_t other
          absent_t in
      let makes =
        make_child-Makes kind (vnode_of t d) child flags t.fs search.good.fs entry.inode few_t
          entry.unlocked absent_t in
      record {
        result = record { code = ok 0; state = with_made kind d child flags t };
        returned =
            make_at-found kind path files rel flags d s search.result search.returned found.1 parsed
            ∙ step;
        code = refl;
        good = with_made-IsVfs kind d child flags t search.good found.2 found.3 few_t makes.kept;
        made = rw (at_p, same) refl;
        leads =
            walk-made makes search.good.fs start (files_to_find path true files) start_in
              (rw (same, at_p) way) other absent_t
            ∙ ap (λ (f : Tmpfs). some f.allocated) same;
      }
