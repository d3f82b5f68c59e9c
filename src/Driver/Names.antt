-- ===== src/Driver/Names.antt =====
-- src/driver.c: the functions that take the name of a file or a directory, xipfs_unlink, xipfs_mkdir,
-- xipfs_rmdir, xipfs_stat and xipfs_new_file.
pub mod Create
mod Tests
use xipfs.Base.{
  ℕ, ◌-◌, ◌/◌, Bool, not, ◌&&◌, ◌||◌, Option, none, some, Bytes, strnlen, strncmp_eq, ◌==◌,
  if◌then◌else◌,
}
use xipfs.Errno.{Errno, enospace, efull, einvalidsize}
use xipfs.Posix.{Posix}
use xipfs.State.{Mount, done, fail, M, pure, throw, refuse_if, or_fail, ◌>>=◌, ◌>>◌}
use xipfs.Flash.{Nvm, nvm_page_size}
use xipfs.File.{path_max, file_path, file_reserved, file_get_size_raw}
use xipfs.Fs.{fs_new_file}
use xipfs.Path.{
  XipfsPath, PathInfo, path_exists_as_file, path_exists_as_empty_dir, path_exists_as_nonempty_dir,
  path_invalid_because_not_dirs, path_invalid_because_not_found, path_creatable, path_undefined,
  is_root, add_slash,
}
use xipfs.Driver.Checks.{strcmp_eq, with_mount, lookup_path, not_null, sync_remove_file}
use xipfs.Driver.Files.{Stat, s_ifreg, created}

-- S_IFDIR
abbrev pub s_ifdir : ℕ
s_ifdir = 0x4000

-- What the functions test of a name; the root has an error of its own in each.
abbrev pub check_name : Posix → Bytes → M Posix (Unit {0})
check_name root name = do
  refuse_if (name 0 == 0) Posix.enoent
  refuse_if (is_root name) root
  refuse_if (strnlen name path_max == path_max) Posix.enametoolong

-- The switch on what a path is: no error, or the one that the function returns.
abbrev pub accept : Option Posix → M Posix (Unit {0})
accept none w = done tt w
accept (some e) w = fail e w

abbrev pub unlink_error : PathInfo → Option Posix
unlink_error path_exists_as_file = none
unlink_error path_exists_as_empty_dir = some Posix.eisdir
unlink_error path_exists_as_nonempty_dir = some Posix.eisdir
unlink_error path_invalid_because_not_dirs = some Posix.enotdir
unlink_error path_invalid_because_not_found = some Posix.enoent
unlink_error path_creatable = some Posix.enoent
unlink_error path_undefined = some Posix.eio

abbrev pub mkdir_error : PathInfo → Option Posix
mkdir_error path_exists_as_file = some Posix.eexist
mkdir_error path_exists_as_empty_dir = some Posix.eexist
mkdir_error path_exists_as_nonempty_dir = some Posix.eexist
mkdir_error path_invalid_because_not_dirs = some Posix.enotdir
mkdir_error path_invalid_because_not_found = some Posix.enoent
mkdir_error path_creatable = none
mkdir_error path_undefined = some Posix.eio

abbrev pub rmdir_error : PathInfo → Option Posix
rmdir_error path_exists_as_file = some Posix.enotdir
rmdir_error path_exists_as_empty_dir = none
rmdir_error path_exists_as_nonempty_dir = some Posix.enotempty
rmdir_error path_invalid_because_not_dirs = some Posix.enotdir
rmdir_error path_invalid_because_not_found = some Posix.enoent
rmdir_error path_creatable = some Posix.enoent
rmdir_error path_undefined = some Posix.eio

abbrev pub stat_error : PathInfo → Option Posix
stat_error path_exists_as_file = none
stat_error path_exists_as_empty_dir = none
stat_error path_exists_as_nonempty_dir = none
stat_error path_invalid_because_not_dirs = some Posix.enotdir
stat_error path_invalid_because_not_found = some Posix.enoent
stat_error path_creatable = some Posix.enoent
stat_error path_undefined = some Posix.eio

abbrev pub new_file_path_error : PathInfo → Option Posix
new_file_path_error path_exists_as_file = some Posix.eexist
new_file_path_error path_exists_as_empty_dir = some Posix.eisdir
new_file_path_error path_exists_as_nonempty_dir = some Posix.eisdir
new_file_path_error path_invalid_because_not_dirs = some Posix.enotdir
new_file_path_error path_invalid_because_not_found = some Posix.enoent
new_file_path_error path_creatable = none
new_file_path_error path_undefined = some Posix.eio

-- The error of xipfs_new_file where xipfs_fs_new_file failed.
abbrev pub new_file_failure : Errno → Posix
new_file_failure enospace = Posix.edquot
new_file_failure efull = Posix.edquot
new_file_failure einvalidsize = Posix.einval
new_file_failure _ = Posix.eio

-- The type of what the name stands for, by its last character.
abbrev pub mode_of : Bytes → ℕ → ℕ
mode_of path len = if path (len - 1) == b'/' then s_ifdir else s_ifreg

module _ (nvm : Nvm) where
  -- A file of one page that stands for an empty directory.
  abbrev pub put_dir : Mount → Bytes → M Posix (Unit {0})
  put_dir mp dirname =
      created (λ _. Posix.eio) (fs_new_file nvm mp dirname nvm_page_size 0) >>= λ _. pure tt

  unfoldable pub stat : Option Mount → Option Bytes → Bool → M Posix Stat
  stat omp oname has_buf = with_mount nvm omp λ mp. not_null oname λ name. do
    refuse_if (not has_buf) Posix.efault
    refuse_if (name 0 == 0) Posix.enoent
    refuse_if (strnlen name path_max == path_max) Posix.enametoolong
    x ← lookup_path mp name
    accept (stat_error x.info)
    let len = strnlen name path_max
    λ w. refuse_if (not (strncmp_eq (file_path w.mem x.witness) x.path len)) Posix.enoent w
    size ← or_fail Posix.eio (file_get_size_raw nvm x.witness)
    λ w.
        done
          (record {
            st_ino = x.witness;
            st_mode = mode_of name len;
            st_nlink = 1;
            st_size = size;
            st_blksize = nvm_page_size;
            st_blocks = file_reserved w.mem x.witness / nvm_page_size;
          })
          w

module _ (nvm : Nvm) (infos : ℕ) where
  -- The end of xipfs_unlink and of xipfs_rmdir: where the last file of a directory goes, a file for
  -- the empty directory comes.
  unfoldable pub remove_path : Mount → XipfsPath → M Posix (Unit {0})
  remove_path mp x = do
    or_fail Posix.eio (sync_remove_file nvm infos mp x.witness)
    if x.parent == 1 && not (is_root x.dirname) then put_dir nvm mp x.dirname else pure tt

  -- Where a file stands for the empty directory `x.dirname`, it goes.
  abbrev pub drop_witness : Mount → XipfsPath → M Posix (Unit {0})
  drop_witness mp x w =
      if not (x.witness == 0) && strcmp_eq (file_path w.mem x.witness) x.dirname
      then or_fail Posix.eio (sync_remove_file nvm infos mp x.witness) w
      else done tt w

  unfoldable pub unlink : Option Mount → Option Bytes → M Posix (Unit {0})
  unfolding remove_path
  unlink omp oname = with_mount nvm omp λ mp. not_null oname λ name. do
    check_name Posix.eisdir name
    x ← lookup_path mp name
    accept (unlink_error x.info)
    remove_path mp x

  unfoldable pub mkdir : Option Mount → Option Bytes → M Posix (Unit {0})
  mkdir omp oname = with_mount nvm omp λ mp. not_null oname λ name. do
    check_name Posix.eexist name
    x ← lookup_path mp name
    accept (mkdir_error x.info)
    elim (add_slash x) [
      | none ↦ throw Posix.enametoolong
      | some y ↦ drop_witness mp y >> put_dir nvm mp y.path
    ]

  unfoldable pub rmdir : Option Mount → Option Bytes → M Posix (Unit {0})
  unfolding remove_path
  rmdir omp oname = with_mount nvm omp λ mp. not_null oname λ name. do
    check_name Posix.ebusy name
    refuse_if (name (strnlen name path_max - 1) == b'.') Posix.einval
    x ← lookup_path mp name
    accept (rmdir_error x.info)
    remove_path mp x

  unfoldable pub new_file : Option Mount → Option Bytes → ℕ → ℕ → M Posix (Unit {0})
  new_file omp opath size exec = with_mount nvm omp λ mp. not_null opath λ path. do
    check_name Posix.eisdir path
    refuse_if (not (exec == 0 || exec == 1)) Posix.einval
    x ← lookup_path mp path
    accept (new_file_path_error x.info)
    refuse_if (x.path (x.len - 1) == b'/') Posix.eisdir
    if is_root x.dirname then pure tt else drop_witness mp x
    filp ← created new_file_failure (fs_new_file nvm mp path size exec)
    pure tt
