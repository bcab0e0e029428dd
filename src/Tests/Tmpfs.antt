-- ===== src/Tests/Tmpfs.antt =====
-- Runs of the theorems on kernel/src/fs/tmpfs.c.
use goofyos.Base.{ℕ, ◌≡◌, ◌<◌, refl, true, false, List, [], ◌∷◌, none, arith}
use goofyos.Fs.Tmpfs.{
  Tmpfs, Vnode, s_ifreg, root_vnode, tmpfs_write, new_child, find_name, is_regular,
}
use goofyos.Fs.Tmpfs.Data.{Stores, tmpfs_write-Stores}
use goofyos.Fs.Tmpfs.Children.{IsTmpfs, grown}
use goofyos.Fs.Tmpfs.Calls.{Makes, child_named, make_child-Makes}
use goofyos.Fs.Tmpfs.Mount.{mounted, mounted-IsTmpfs}

abbrev root_name : List ℕ
root_name = 47 ∷ []

abbrev hello : List ℕ
hello = 104 ∷ 105 ∷ []

no_children : child_named (mounted root_name) 0 hello ≡ none
unfolding find_name
no_children = refl

make_child_example :
    Makes s_ifreg root_vnode hello 0
      (mounted root_name)
      (grown s_ifreg 0 hello 0 (mounted root_name))
make_child_example =
    make_child-Makes s_ifreg root_vnode hello 0 (mounted root_name) (mounted-IsTmpfs root_name)
      (omega arith) (omega arith) refl no_children

-- A tmpfs with one file, and the file's vnode.
abbrev one_file : Tmpfs
one_file = grown s_ifreg 0 hello 0 (mounted root_name)

abbrev file_vnode : Vnode
file_vnode = record {
  lock = false;
  mode = s_ifreg;
  size = 0;
  number = 1;
  refcount = 1;
  private_data = 1;
}

one_file-IsTmpfs : IsTmpfs one_file
one_file-IsTmpfs =
    (make_child-Makes s_ifreg root_vnode hello 0 (mounted root_name) (mounted-IsTmpfs root_name)
      (omega arith) (omega arith) refl no_children).kept

two_inodes : 1 < one_file.allocated
unfolding new_child
two_inodes = omega arith

regular : is_regular s_ifreg ≡ true
unfolding is_regular
regular = refl

tmpfs_write_example :
    Stores file_vnode hello 0 one_file (tmpfs_write (λ i. i) file_vnode hello 0 one_file)
tmpfs_write_example =
    tmpfs_write-Stores (λ i. i) file_vnode hello 0 one_file regular
      (one_file-IsTmpfs.roomy 1 two_inodes) (omega arith)
