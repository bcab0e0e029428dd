-- ===== src/Tests/Exec.antt =====
-- A run of the theorem on kernel/src/fs/exec: a file of 100 zero bytes, read from its start.
use goofyos.Base.{◌≡◌, refl, [], true}
use goofyos.Fs.Tmpfs.{Inode, Tmpfs, ok, is_regular, s_ifreg}
use goofyos.Fs.Vfs.{Vfs, File, tmpfs_operations}
use goofyos.Fs.Vfs.Init.{started}
use goofyos.Fs.Vfs.Calls.{vfs_size}
use goofyos.Fs.Exec.{exec_file}
use goofyos.Fs.Exec.Accepts.{exec_file_lem}

abbrev zeros : Inode
zeros = record {
  name = [];
  children = [];
  bytes = λ i. 0;
  number = 1;
  length = 100;
  effective_length = 4096;
  mode = s_ifreg;
}

abbrev with_zeros : Vfs
with_zeros =
    let s : Vfs = started 5 in
    let fs : Tmpfs = s.fs in
    record s {
      vnodes = λ i. record {
        lock = true;
        mode = s_ifreg;
        size = 100;
        number = 1;
        refcount = 1;
        private_data = 1;
      };
      fs = record fs { inodes = λ i. zeros };
    }

abbrev opened : File
opened = record { entry = 0; pos = 0; flags = 0 }

regular_file : is_regular s_ifreg ≡ true
unfolding is_regular
regular_file = refl

exec_file_example : exec_file (tmpfs_operations (λ i. i)) opened with_zeros ≡ ok 0
unfolding vfs_size
exec_file_example = exec_file_lem (λ i. i) opened with_zeros regular_file
