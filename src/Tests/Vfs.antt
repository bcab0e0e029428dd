-- ===== src/Tests/Vfs.antt =====
-- Runs of the theorems on kernel/src/fs/vfs.c.
use goofyos.Base.{
  ◌+◌, ◌^◌, ◌≤◌, none, length, ℕ, ◌≡◌, ◌⊎◌, ◌++◌, refl, true, false, List, [], ◌∷◌, some, drop, All,
  arith,
}
use goofyos.Fs.Tmpfs.{s_ifreg, make_child, find_name}
use goofyos.Fs.Tmpfs.Mount.{mounted}
use goofyos.Dsa.Hashmap.{same_key}
use goofyos.Fs.Tmpfs.Calls.{child_named}
use goofyos.Fs.Vfs.{dot, tmpfs_operations, split_path, vfs_parse_path, slash}
use goofyos.Fs.Vfs.Calls.{but_last, last_file, files_to_find, make_at, vfs_find_dentry}
use goofyos.Fs.Vfs.Paths.{joined, IsClean, vfs_parse_path_lem}
use goofyos.Fs.Vfs.Walk.{Reaches, walk}
use goofyos.Fs.Vfs.Search.{vfs_find_dentry-Reaches}
use goofyos.Fs.Vfs.Create.{Created, make_at-Created}
use goofyos.Fs.Vfs.Init.{started, vfs_init-IsVfs}

-- "/./a"
abbrev path : List ℕ
path = slash ∷ 46 ∷ slash ∷ 97 ∷ []

path_files : vfs_parse_path path ≡ some ((slash ∷ []) ∷ (46 ∷ []) ∷ (97 ∷ []) ∷ [])
unfolding vfs_parse_path split_path
path_files = refl

vfs_parse_path_example :
    (files : List (List ℕ)) × (vfs_parse_path path ≡ some files)
    × ((joined files ≡ slash ∷ path) ⊎ (joined files ≡ slash ∷ path ++ slash ∷ []))
    × (((slash ∷ []) ∷ drop 1 files ≡ files) × All IsClean (drop 1 files))
vfs_parse_path_example = vfs_parse_path_lem path (omega arith)

vfs_find_dentry_example :
    Reaches
      (vfs_find_dentry (tmpfs_operations (λ i. i)) path 0 false (started 5))
      (walk (mounted (slash ∷ [])) 0 ((46 ∷ []) ∷ (97 ∷ []) ∷ []))
      (started 5)
      2
vfs_find_dentry_example =
    vfs_find_dentry-Reaches (λ i. i) path ((slash ∷ []) ∷ (46 ∷ []) ∷ (97 ∷ []) ∷ []) 0 false
      (started 5) ((vfs_init-IsVfs 5).1) path_files refl (omega arith) (omega arith) (omega arith)

-- "/a"
abbrev new_path : List ℕ
new_path = slash ∷ 97 ∷ []

new_files : vfs_parse_path new_path ≡ some ((slash ∷ []) ∷ (97 ∷ []) ∷ [])
unfolding vfs_parse_path split_path
new_files = refl

abbrev two_files : List (List ℕ)
two_files = (slash ∷ []) ∷ (97 ∷ []) ∷ []

room : 2 + length (files_to_find new_path true two_files) ≤ 256 ^ 8
unfolding but_last
room = omega arith

way : walk (mounted (slash ∷ [])) 0 (files_to_find new_path true two_files) ≡ some 0
unfolding but_last walk
way = refl

not_dot : same_key (last_file two_files) dot ≡ false
unfolding last_file same_key
not_dot = refl

no_child : child_named (mounted (slash ∷ [])) 0 (last_file two_files) ≡ none
unfolding find_name
no_child = refl

make_at_example :
    Created s_ifreg
      (make_at (tmpfs_operations (λ i. i)) (some (make_child s_ifreg)) new_path 0 0 (started 5))
      0
      0
      (files_to_find new_path true two_files)
      (last_file two_files)
      0
      (started 5)
make_at_example =
    make_at-Created (λ i. i) s_ifreg new_path two_files 0 0 0 (started 5) ((vfs_init-IsVfs 5).1)
      new_files refl (omega arith) (omega arith) room (omega arith) way not_dot no_child
