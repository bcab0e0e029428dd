-- ===== src/Fs/Vfs/Search.antt =====
-- The search of kernel/src/fs/vfs.c for a child, for files and for a path, over a mounted tmpfs.
use goofyos.Base.{
  ℕ, ◌+◌, ◌^◌, ◌≡◌, ◌∙◌, ◌<◌, ◌≤◌, refl, ap, Bool, true, false, List, [], ◌∷◌, some, ltb, ◌==◌,
  ◌||◌, ◌&&◌, length, arith, Bool-cases, Option-cases, inl, inr, lt→ltb,
}
use goofyos.Dsa.Hashmap.{same_key}
use goofyos.Fs.Tmpfs.{Vnode, done, ok, failed, enoent}
use goofyos.Fs.Tmpfs.Children.{find_name-All}
use goofyos.Fs.Tmpfs.Calls.{child_named, number_or_enoent, tmpfs_lookup_lem, tmpfs_create_node_lem}
use goofyos.Fs.Vfs.{
  Vfs, Returned, tmpfs_operations, vfs_find_vnode, looked_up, dot, vfs_find_child, vfs_parse_path,
  find_files, alloc_vnode,
}
use goofyos.Fs.Vfs.Calls.{vnode_of, vfs_find_dentry, start_of, files_to_find}
use goofyos.Fs.Vfs.Walk.{walk, IsVfs, Reaches, entered, entered-new, entered-IsVfs, node_for}

module _ (fresh : ℕ → ℕ) where
  -- A new vnode for the child found.
  vfs_find_vnode_new :
      (c : ℕ) (s : Vfs)
      → IsVfs s
      → 0 < c
      → c < s.fs.allocated
      → vfs_find_vnode (tmpfs_operations fresh) c s ≡ alloc_vnode (node_for s.fs c) s
  unfolding vfs_find_vnode
  vfs_find_vnode_new c s good positive below =
      let few = good.few in
      let uncached = good.vnode_uncached c positive (omega arith) in
      let given = tmpfs_create_node_lem c s.fs good.fs (omega arith) in
      let into : ltb c s.fs.allocated ≡ true = lt→ltb _ _ below in rw (uncached, given, into) refl

  -- The child of a name that is not the dot.
  pub find_child_named :
      (dent : ℕ) (name : List ℕ) (s : Vfs)
      → IsVfs s
      → 0 < dent
      → dent < s.next_dentry
      → s.next_dentry ≤ 256 ^ 8
      → (same_key name dot) ≡ false
      → vfs_find_child (tmpfs_operations fresh) dent name s
        ≡ looked_up
            (tmpfs_operations fresh)
            dent
            name
            (done (number_or_enoent (child_named s.fs (vnode_of s dent).private_data name)))
            s
  unfolding vfs_find_child
  find_child_named dent name s good positive below room other =
      let uncached = good.dentry_uncached dent name positive (omega arith) in
      let entry = good.entries dent positive below in
      let found = tmpfs_lookup_lem (vnode_of s dent) name s.fs good.fs entry.inode entry.unlocked in
      rw (other, uncached, found) refl

  find_child-Reaches :
      (dent : ℕ) (name : List ℕ) (s : Vfs)
      → IsVfs s
      → 0 < dent
      → dent < s.next_dentry
      → s.next_dentry ≤ 256 ^ 8
      → (same_key name dot) ≡ false
      → Reaches
          (vfs_find_child (tmpfs_operations fresh) dent name s)
          (child_named s.fs (vnode_of s dent).private_data name)
          s
          1
  find_child-Reaches dent name s good positive below room other =
      let step = find_child_named dent name s good positive below room other in
      let p : ℕ = (vnode_of s dent).private_data in
      let entry = good.entries dent positive below in
      elim (Option-cases (child_named s.fs p name)) [
        | inl e ↦
            rw (step, e)
              (record {
                result = record { code = failed enoent; state = s };
                returned = refl;
                at = refl;
                good = good;
                same_fs = refl;
                grew = omega arith;
              })
        | inr (c, e) ↦
            let below_all =
              find_name-All (λ c. c < s.fs.allocated) s.fs.inodes (s.fs.inodes p).children name c
                (good.fs.family p entry.inode) e in
            let not_root =
              find_name-All (λ c. 0 < c) s.fs.inodes (s.fs.inodes p).children name c
                (good.rootless p entry.inode) e in
            let v : Vnode = node_for s.fs c in
            let new = entered dent name v s in
            rw (step, e, vfs_find_vnode_new c s good not_root below_all)
              (record {
                result = record { code = ok s.next_dentry; state = new };
                returned = refl;
                at = (
                  s.next_dentry,
                  refl,
                  omega arith,
                  omega arith,
                  ap (λ (w : Vnode). w.private_data) (entered-new dent name v s),
                );
                good = entered-IsVfs dent name v s good refl below_all;
                same_fs = refl;
                grew = omega arith;
              })
      ]

  find_files-nil :
      (dent : ℕ) (s : Vfs)
      → find_files (tmpfs_operations fresh) dent [] s ≡ done (record { code = ok dent; state = s })
  unfolding find_files
  find_files-nil dent s = refl

  find_files-dot :
      (dent : ℕ) (file : List ℕ) (files : List (List ℕ)) (s : Vfs)
      → same_key file dot ≡ true
      → find_files (tmpfs_operations fresh) dent (file ∷ files) s
        ≡ find_files (tmpfs_operations fresh) dent files s
  unfolding find_files vfs_find_child
  find_files-dot dent file files s e = rw e refl

  find_files-next :
      (dent : ℕ) (file : List ℕ) (files : List (List ℕ)) (s : Vfs) (d : ℕ) (r : Returned ℕ)
      → vfs_find_child (tmpfs_operations fresh) dent file s ≡ done r
      → r.code ≡ ok d
      → find_files (tmpfs_operations fresh) dent (file ∷ files) s
        ≡ find_files (tmpfs_operations fresh) d files r.state
  unfolding find_files
  find_files-next dent file files s d r e code = rw (e, code) refl

  find_files-stop :
      (dent : ℕ) (file : List ℕ) (files : List (List ℕ)) (s : Vfs) (r : Returned ℕ)
      → vfs_find_child (tmpfs_operations fresh) dent file s ≡ done r
      → r.code ≡ failed enoent
      → find_files (tmpfs_operations fresh) dent (file ∷ files) s
        ≡ done (record { code = failed enoent; state = r.state })
  unfolding find_files
  find_files-stop dent file files s r e code = rw (e, code) refl

  -- From a dentry in use of a well-formed state with room for a dentry for each file, the search of
  -- vfs_find_dentry for a list of files ends. It returns a dentry whose vnode is for the inode that the
  -- names lead to one after the other, the dot staying where it is, and ENOENT where a name is missing;
  -- the state stays well formed and the file system what it was.
  pub find_files-Reaches :
      (dent : ℕ) (files : List (List ℕ)) (s : Vfs)
      → IsVfs s
      → 0 < dent
      → dent < s.next_dentry
      → s.next_dentry + length files ≤ 256 ^ 8
      → Reaches
          (find_files (tmpfs_operations fresh) dent files s)
          (walk s.fs (vnode_of s dent).private_data files)
          s
          (length files)
  unfolding walk
  find_files-Reaches dent [] s good positive below room = record {
    result = record { code = ok dent; state = s };
    returned = find_files-nil dent s;
    at = (dent, refl, positive, below, refl);
    good = good;
    same_fs = refl;
    grew = omega arith;
  }
  find_files-Reaches dent (file ∷ files) s good positive below room =
      elim (Bool-cases (same_key file dot)) [
        | inl e ↦
            let rest = find_files-Reaches dent files s good positive below (omega arith) in
            let more = rest.grew in
            rw (find_files-dot dent file files s e, e)
              (record {
                result = rest.result;
                returned = rest.returned;
                at = rest.at;
                good = rest.good;
                same_fs = rest.same_fs;
                grew = omega arith;
              })
        | inr other ↦
            let step = find_child-Reaches dent file s good positive below (omega arith) other in
            elim (Option-cases (child_named s.fs (vnode_of s dent).private_data file)) [
              | inl e ↦
                  let stop =
                    find_files-stop dent file files s step.result step.returned (rw e at step.at) in
                  let more = step.grew in
                  rw (stop, other, e)
                    (record {
                      result = record { code = failed enoent; state = step.result.state };
                      returned = refl;
                      at = refl;
                      good = step.good;
                      same_fs = step.same_fs;
                      grew = omega arith;
                    })
              | inr (c, e) ↦
                  let found = rw e at step.at in
                  let d : ℕ = found.0 in
                  let next =
                    find_files-next dent file files s d step.result step.returned found.1 in
                  let more = step.grew in
                  let rest =
                    find_files-Reaches d files step.result.state step.good found.2 found.3
                      (omega arith) in
                  let most = rest.grew in
                  let inode = found.4 in
                  let same = step.same_fs in
                  let rest_at = rw (inode, same) at rest.at in
                  rw (next, other, e)
                    (record {
                      result = rest.result;
                      returned = rest.returned;
                      at = rest_at;
                      good = rest.good;
                      same_fs = rest.same_fs ∙ same;
                      grew = omega arith;
                    })
            ]
      ]

  -- The search of vfs_find_dentry for a path that parses into files, not none and not one whose parent
  -- is asked for, from a start in use of a well-formed state with room, ends with what the files that
  -- remain (not the root's own, nor the last when the parent is asked for) lead to from the start.
  pub vfs_find_dentry-Reaches :
      (path : List ℕ) (files : List (List ℕ)) (rel : ℕ) (parent : Bool) (s : Vfs)
      → IsVfs s
      → vfs_parse_path path ≡ some files
      → ((length files == 0) || ((length files == 1) && parent)) ≡ false
      → 0 < start_of path rel s
      → start_of path rel s < s.next_dentry
      → s.next_dentry + length (files_to_find path parent files) ≤ 256 ^ 8
      → Reaches
          (vfs_find_dentry (tmpfs_operations fresh) path rel parent s)
          (walk s.fs
            (vnode_of s (start_of path rel s)).private_data
            (files_to_find path parent files))
          s
          (length (files_to_find path parent files))
  unfolding vfs_find_dentry
  vfs_find_dentry-Reaches path files rel parent s good parsed enough positive below room =
      rw (parsed, enough)
        (find_files-Reaches (start_of path rel s) (files_to_find path parent files) s good positive
          below room)
