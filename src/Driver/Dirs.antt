-- ===== src/Driver/Dirs.antt =====
-- src/driver.c: the functions on open directories.
pub mod Component
pub mod Listing
mod Tests
use xipfs.Base.{
  ℕ, zero, suc, ◌+◌, ◌-◌, true, false, not, ◌&&◌, Option, none, some, Bytes, update, strnlen, leb,
  ◌==◌, if◌then◌else◌,
}
use xipfs.Errno.{xipfs_ok}
use xipfs.Posix.{Posix}
use xipfs.State.{
  World, Mount, DirDesc, done, fail, M, pure, throw, refuse_if, set_errno, ◌>>=◌, ◌>>◌,
}
use xipfs.Flash.{Nvm}
use xipfs.Desc.{dir_desc_tracked, dir_desc_track, dir_desc_untrack}
use xipfs.File.{path_max, file_path}
use xipfs.Fs.{fs_head, fs_next, is_ok, walk_fuel}
use xipfs.Path.{
  XipfsPath, PathInfo, path_exists_as_file, path_exists_as_empty_dir, path_exists_as_nonempty_dir,
  path_invalid_because_not_dirs, path_invalid_because_not_found, path_creatable, path_undefined,
  is_root,
}
use xipfs.Driver.Checks.{with_mount, lookup_path, not_null}

abbrev pub set_dir : ℕ → DirDesc → M Posix (Unit {0})
set_dir descp d w = done tt (record w { dir_descs = update w.dir_descs descp d })

-- The path of a directory that exists, or the error of xipfs_opendir.
abbrev pub dir_error : PathInfo → Option Posix
dir_error path_exists_as_file = some Posix.enotdir
dir_error path_invalid_because_not_dirs = some Posix.enotdir
dir_error path_exists_as_empty_dir = none
dir_error path_exists_as_nonempty_dir = none
dir_error path_invalid_because_not_found = some Posix.enoent
dir_error path_creatable = some Posix.enoent
dir_error path_undefined = some Posix.enoent

-- `strcpy(old, name)`, of a name of fewer than XIPFS_PATH_MAX characters.
abbrev pub strcpy : Bytes → Bytes → Bytes
strcpy old name i = if leb i (strnlen name path_max) then name i else old i

-- A null pointer to a file is 0.
abbrev pub address : Option ℕ → ℕ
address none = 0
address (some p) = p

-- The end of xipfs_opendir: the slash, at the length that xipfs_path_new left.
unfoldable pub end_with_slash : ℕ → ℕ → M Posix (Unit {0})
end_with_slash descp len w =
    let d = w.dir_descs descp in
    if d.dirname (len - 1) == b'/'
    then done tt w
    else if len + 1 == path_max
    then fail Posix.enametoolong w
    else set_dir descp (record d { dirname = update (update d.dirname len b'/') (len + 1) 0 }) w

unfoldable pub open_found : ℕ → Bytes → Option ℕ → XipfsPath → M Posix (Unit {0})
unfolding end_with_slash
open_found descp name head x = do
  elim (dir_error x.info) [ some e ↦ throw e | none ↦ pure tt ]
  dir_desc_track descp
  λ w.
      set_dir descp
        (record { filp = address head; dirname = strcpy (w.dir_descs descp).dirname name }) w
  end_with_slash descp x.len

unfoldable pub opendir_head : Mount → ℕ → Bytes → Option ℕ → M Posix (Unit {0})
unfolding open_found
opendir_head mp descp name head =
    if (elim head [ none ↦ true | some _ ↦ false ]) && is_root name
    then (dir_desc_track descp >> λ w.
        set_dir descp
          (record { filp = 0; dirname = update (update (w.dir_descs descp).dirname 0 b'/') 1 0 }) w)
    else (lookup_path mp name >>= open_found descp name head)

-- The characters that a path and a name have in common from index `i` on; `k` rounds are left.
unfoldable pub match_loop : ℕ → Bytes → Bytes → ℕ → ℕ
match_loop zero path name i = i
match_loop (suc k) path name i =
    let rest = match_loop k path name (i + 1) in
    if not (path i == name i) then i else if name i == 0 then i else if path i == 0 then i else rest

-- The component of `path` from `i` on, at index `j` of it; `k` rounds are left. `none` if the path
-- goes on to XIPFS_PATH_MAX.
unfoldable pub entry_loop : ℕ → Bytes → ℕ → ℕ → Bytes → Option Bytes
entry_loop zero path i j out = none
entry_loop (suc k) path i j out =
    let rest = entry_loop k path i (j + 1) (update out (j - i) (path j)) in
    if path j == 0
    then some (update out (j - i) 0)
    else if path j == b'/'
    then some (update (update out (j - i) b'/') (j - i + 1) 0)
    else rest

-- What one file of the list gives for the directory `name`: no entry, an entry, or a failure.
pub data Entry : Type 0 where
  no_entry too_long : Entry
  an_entry : Bytes → Entry

unfoldable pub entry_of : Bytes → Bytes → Bytes → Entry
unfolding match_loop entry_loop
entry_of path name out =
    let i = match_loop path_max path name 0 in
    if i == path_max
    then too_long
    else if name i == 0
    then (let from = if path i == b'/' then i + 1 else i in
        elim (entry_loop (path_max - from) path from from out) [
          | some o ↦ an_entry o
          | none ↦ too_long
        ])
    else no_entry

-- `descp->filp = next`
abbrev pub set_dir_filp : ℕ → Option ℕ → World → World
set_dir_filp descp next w = record w {
  dir_descs = update w.dir_descs descp (record (w.dir_descs descp) { filp = address next });
}

-- One step to the next file.
abbrev pub dir_next : ℕ → World → World
dir_next descp w = let (next, w') = fs_next (w.dir_descs descp).filp w in set_dir_filp descp next w'

-- The walk of xipfs_readdir: the entry, or `none` at the end of the directory. When the fuel is out,
-- it stops with an error.
unfoldable pub readdir_loop : ℕ → ℕ → Bytes → M Posix (Option Bytes)
readdir_loop zero descp out w = fail Posix.eio w
readdir_loop (suc k) descp out w =
    let rest = readdir_loop k descp out (dir_next descp w) in
    if (w.dir_descs descp).filp == 0
    then (if is_ok w.errno then done none w else fail Posix.eio w)
    else elim (entry_of (file_path w.mem (w.dir_descs descp).filp) (w.dir_descs descp).dirname
        out) [
          | too_long ↦ fail Posix.enametoolong w
          | no_entry ↦ rest
          | an_entry o ↦
              let u = dir_next descp w in
              if (u.dir_descs descp).filp == 0 && not (is_ok u.errno)
              then fail Posix.eio u
              else done (some o) u
        ]

module _ (nvm : Nvm) where
  unfoldable pub opendir : Option Mount → ℕ → Option Bytes → M Posix (Unit {0})
  unfolding opendir_head
  opendir omp descp oname = with_mount nvm omp λ mp. do
    refuse_if (descp == 0) Posix.efault
    not_null oname λ name. do
      refuse_if (name 0 == 0) Posix.enoent
      refuse_if (strnlen name path_max == path_max) Posix.enametoolong
      λ w.
          let (head, u) = fs_head mp (record w { errno = xipfs_ok }) in
          if is_ok u.errno then opendir_head mp descp name head u else fail Posix.eio u

  unfoldable pub readdir : Option Mount → ℕ → Option Bytes → M Posix (Option Bytes)
  unfolding readdir_loop
  readdir omp descp oout = with_mount nvm omp λ mp. do
    refuse_if (descp == 0) Posix.efault
    not_null oout
        λ out. do dir_desc_tracked descp; set_errno xipfs_ok; readdir_loop (walk_fuel + 1) descp out

  unfoldable pub closedir : Option Mount → ℕ → M Posix (Unit {0})
  closedir omp descp = with_mount nvm omp λ mp. do
    refuse_if (descp == 0) Posix.efault
    dir_desc_tracked descp
    set_dir descp (record { filp = 0; dirname = λ _. 0 })
    dir_desc_untrack descp
