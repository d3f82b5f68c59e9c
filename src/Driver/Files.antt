-- ===== src/Driver/Files.antt =====
-- src/driver.c: the functions on open files.
pub mod Access
pub mod Ready
pub mod Write
pub mod Read
pub mod Seek
mod Tests
use Prim.Native.Nat.{bit_and}
use xipfs.Base.{
  ℕ, zero, suc, ◌+◌, ◌-◌, ◌*◌, ◌/◌, max, ℤ, pos, negsuc, Bool, true, false, not, ◌&&◌, ◌||◌, Option,
  none, some, List, [], ◌∷◌, Bytes, update, strnlen, strncmp_eq, of_list, u32, int_max, ltb, leb,
  ◌==◌, if◌then◌else◌,
}
use xipfs.Errno.{Errno, enospace, efull}
use xipfs.Posix
use xipfs.Posix.{Posix}
use xipfs.State.{
  World, Mount, FileDesc, Outcome, done, fail, M, Internal, pure, throw, refuse_if, or_fail, ◌>>=◌,
  ◌>>◌,
}
use xipfs.Flash.{Nvm, nvm_page_size}
use xipfs.Desc.{file_desc_tracked, file_desc_track, file_desc_untrack}
use xipfs.File.{
  path_max, file_path, file_get_size, file_set_size, file_get_max_pos, file_get_reserved,
  file_read_8, file_write_8,
}
use xipfs.Fs.{fs_new_file}
use xipfs.Path.{
  XipfsPath, PathInfo, path_exists_as_file, path_exists_as_empty_dir, path_exists_as_nonempty_dir,
  path_invalid_because_not_dirs, path_invalid_because_not_found, path_creatable, path_undefined,
  is_root,
}
use xipfs.Driver.Checks.{
  o_wronly, o_rdwr, o_append, o_creat, o_excl, o_accmode, has, basename, strcmp_eq, with_mount,
  file_desc_error, refuse, lookup_path, not_null, sync_remove_file,
}

-- The descriptor at `descp`, and an assignment to it.
abbrev pub desc : ℕ → World → FileDesc
desc descp w = w.file_descs descp

abbrev pub set_desc : ℕ → FileDesc → M Posix (Unit {0})
set_desc descp d w = done tt (record w { file_descs = update w.file_descs descp d })

-- `descp->pos = pos`
abbrev pub set_pos : ℕ → ℕ → M Posix (Unit {0})
set_pos descp p w = set_desc descp (record (w.file_descs descp) { pos = p }) w

-- The fields of `struct stat` that are set, less `st_dev`, the address of the mount point.
pub record Stat : Type 0 where
  pub st_ino : ℕ
  pub st_mode : ℕ
  pub st_nlink : ℕ
  pub st_size : ℕ
  pub st_blksize : ℕ
  pub st_blocks : ℕ

abbrev pub s_ifreg : ℕ
s_ifreg = 0x8000

-- `sizeof(xipfs_mount_t)`
abbrev pub sizeof_mount : ℕ
sizeof_mount = 24

-- The new position of xipfs_lseek for an offset and a `whence`; `none` is refused. The file has
-- `size` bytes, the position is `p`.
unfoldable pub seek : ℕ → ℕ → ℕ → ℤ → ℕ → Option ℕ
seek max_pos size p (pos off) whence =
    if whence == 0
    then (if leb max_pos off then none else some off)
    else if whence == 1
    then (if ltb max_pos (p + off) then none else some (p + off))
    else if whence == 2
    then (if ltb 0 off then none else some (max p size + off))
    else none
seek max_pos size p (negsuc k) whence =
    if whence == 0
    then none
    else if whence == 1
    then (if ltb p (k + 1) then none else some (p - (k + 1)))
    else if whence == 2
    then (if ltb (max p size) (k + 1) then none else some (max p size - (k + 1)))
    else none

-- The access modes are 0, 1 and 2; the other bits are refused only where none of the supported ones
-- is set.
abbrev pub supported_flags : ℕ
supported_flags = 2568

unfoldable pub flags_refused : ℕ → Bool
flags_refused flags =
    let acc_mode = bit_and flags o_accmode in
    let others = bit_and flags (4294967295 - o_accmode) in
    if leb acc_mode 2
    then not (bit_and others (4294967295 - supported_flags) == 0)
      && bit_and others supported_flags == 0
    else true

-- ".xipfs_infos"
abbrev pub infos_name : Bytes
infos_name =
    of_list (b'.' ∷ b'x' ∷ b'i' ∷ b'p' ∷ b'f' ∷ b's' ∷ b'_' ∷ b'i' ∷ b'n' ∷ b'f' ∷ b'o' ∷ b's' ∷ [])

-- The error of xipfs_open where xipfs_fs_new_file failed.
abbrev pub new_file_error : Errno → Posix
new_file_error enospace = Posix.edquot
new_file_error efull = Posix.edquot
new_file_error _ = Posix.eio

-- `xipfs_fs_new_file(..) == NULL`
unfoldable pub created : (Errno → Posix) → Internal ℕ → M Posix ℕ
created error m w = elim (m w) [ done p w' ↦ done p w' | fail _ w' ↦ fail (error w'.errno) w' ]

module _ (nvm : Nvm) (infos : ℕ) where
  -- What most functions on an open file begin with; `untracked` maps the error of the last check.
  abbrev pub checked_desc : Mount → ℕ → (Posix → Posix) → M Posix (Unit {0})
  checked_desc mp descp untracked = refuse (file_desc_error mp descp) >> λ w.
      elim (file_desc_tracked descp w) [
        | done _ w' ↦ done tt w'
        | fail e w' ↦ fail (untracked e) w'
      ]

  -- `descp` is read before it is checked.
  unfoldable pub close : Option Mount → ℕ → M Posix (Unit {0})
  close omp descp = with_mount nvm omp λ mp w.
      if (desc descp w).filp == infos
      then done tt w
      else (do
        checked_desc mp descp (λ e. e)
        size ← λ u. or_fail Posix.eio (file_get_size nvm (desc descp u).filp) u
        λ u.
            if ltb size (desc descp u).pos
            then or_fail Posix.eio (file_set_size nvm (desc descp u).filp (desc descp u).pos) u
            else done tt u
        file_desc_untrack descp)
          w

  unfoldable pub fstat : Option Mount → ℕ → Bool → M Posix Stat
  fstat omp descp has_buf =
      refuse_if (not has_buf) Posix.efault
      >> with_mount nvm omp λ mp. do
        λ w. refuse_if (not (descp == 0) && (desc descp w).filp == infos) Posix.ebadf w
        checked_desc mp descp (λ e. e)
        size ← λ w. or_fail Posix.eio (file_get_size nvm (desc descp w).filp) w
        reserved ← λ w. or_fail Posix.eio (file_get_reserved (desc descp w).filp) w
        λ w.
            done
              (record {
                st_ino = (desc descp w).filp;
                st_mode = s_ifreg;
                st_nlink = 1;
                st_size = max size (desc descp w).pos;
                st_blksize = nvm_page_size;
                st_blocks = reserved / nvm_page_size;
              })
              w

  -- The largest position and the size of the open file.
  unfoldable pub limits : ℕ → M Posix (ℕ × ℕ)
  limits filp = if filp == infos then pure (sizeof_mount, sizeof_mount) else do
    max_pos ← or_fail Posix.eio (file_get_max_pos filp)
    size ← or_fail Posix.eio (file_get_size nvm filp)
    pure (max_pos, size)

  unfoldable pub lseek : Option Mount → ℕ → ℤ → ℕ → M Posix ℕ
  lseek omp descp off whence = with_mount nvm omp λ mp. do
    checked_desc mp descp (λ _. Posix.ebadf)
    (max_pos, size) ← λ w. limits (desc descp w).filp w
    λ w. elim (seek max_pos size (desc descp w).pos off whence) [
      | none ↦ fail Posix.einval w
      | some new_pos ↦
          (do
            λ u.
                if ltb size (desc descp u).pos && ltb new_pos (desc descp u).pos
                then or_fail Posix.eio (file_set_size nvm (desc descp u).filp (desc descp u).pos) u
                else done tt u
            set_pos descp new_pos
            pure new_pos)
            w
    ]

  -- The file that a path which can be created gets: the witness that stood for the empty directory
  -- goes first.
  unfoldable pub create : Mount → Bytes → XipfsPath → M Posix ℕ
  create mp name x = do
    refuse_if (x.path (x.len - 1) == b'/') Posix.eisdir
    λ w.
        if not (x.witness == 0)
          && not (is_root x.dirname)
          && strcmp_eq (file_path w.mem x.witness) x.dirname
        then or_fail Posix.eio (sync_remove_file nvm infos mp x.witness) w
        else done tt w
    created new_file_error (fs_new_file nvm mp name 0 0)

  -- The file that xipfs_open opens.
  unfoldable pub open_path : Mount → Bytes → ℕ → XipfsPath → M Posix ℕ
  unfolding create
  open_path mp name flags x = elim (x.info) [
    | path_exists_as_file ↦
        refuse_if (has flags o_creat && has flags o_excl) Posix.eexist >> pure (x.witness)
    | path_exists_as_empty_dir ↦ throw Posix.eisdir
    | path_exists_as_nonempty_dir ↦ throw Posix.eisdir
    | path_invalid_because_not_dirs ↦ throw Posix.enotdir
    | path_invalid_because_not_found ↦ throw Posix.enoent
    | path_creatable ↦ refuse_if (not (has flags o_creat)) Posix.enoent >> create mp name x
    | path_undefined ↦ throw Posix.eio
  ]

  -- The virtual file.
  unfoldable pub open_infos : ℕ → ℕ → M Posix (Unit {0})
  open_infos descp flags = do
    refuse_if (has flags o_creat && has flags o_excl) Posix.eexist
    refuse_if (has flags o_wronly || (has flags o_append || has flags o_rdwr)) Posix.eacces
    set_desc descp (record { filp = infos; pos = 0; flags = flags })

  unfoldable pub open_file : Mount → ℕ → Bytes → ℕ → M Posix (Unit {0})
  open_file mp descp name flags = do
    x ← lookup_path mp name
    filp ← open_path mp name flags x
    p ← if has flags o_append then or_fail Posix.eio (file_get_size nvm filp) else pure 0
    file_desc_track descp
    set_desc descp (record { filp = filp; pos = p; flags = flags })

  -- `xipfs_open`; the mode is not used.
  unfoldable pub open_ : Option Mount → ℕ → Option Bytes → ℕ → M Posix (Unit {0})
  unfolding open_infos open_file basename
  open_ omp descp oname flags = with_mount nvm omp λ mp. do
    refuse_if (descp == 0) Posix.efault
    not_null oname λ name. do
      refuse_if (flags_refused flags) Posix.einval
      refuse_if (strnlen name path_max == path_max) Posix.enametoolong
      (if strncmp_eq (basename name) infos_name path_max
          then open_infos descp flags
          else open_file mp descp name flags)

  -- The loop of xipfs_read; `k` rounds are left, and `i` bytes are read into `dest`.
  unfoldable pub read_loop : ℕ → ℕ → ℕ → ℕ → Bytes → M Posix (ℕ × Bytes)
  read_loop descp size zero i dest = pure (i, dest)
  read_loop descp size (suc k) i dest = λ w.
      if ltb (desc descp w).pos size
      then (do
        byte ← or_fail Posix.eio (file_read_8 nvm (desc descp w).filp (desc descp w).pos)
        λ u. set_pos descp ((desc descp u).pos + 1) u
        read_loop descp size k (i + 1) (update dest i byte))
          w
      else done (i, dest) w

  -- The virtual file holds the structure of the mount point, whose bytes are `bytes`.
  unfoldable pub read_infos : Bytes → ℕ → Bytes → ℕ → M Posix (ℕ × Bytes)
  read_infos bytes descp dest nbytes = do
    refuse_if (not (nbytes == sizeof_mount)) Posix.einval
    λ w. refuse_if (ltb 0 nbytes && leb sizeof_mount (desc descp w).pos) Posix.eio w
    set_pos descp sizeof_mount
    pure (nbytes, λ i. if ltb i nbytes then bytes i else dest i)

  -- The result is the number of bytes read, and the array with them. A position of the virtual file
  -- is 0 or `sizeof_mount`; the source does not test the array for null there, and must not be given
  -- a null one.
  unfoldable pub read : Bytes → Option Mount → ℕ → Option Bytes → ℕ → M Posix (ℕ × Bytes)
  unfolding read_infos read_loop
  read bytes omp descp odest nbytes w =
      if not (descp == 0) && (desc descp w).filp == infos
      then not_null odest (λ dest. read_infos bytes descp dest nbytes) w
      else (with_mount nvm omp λ mp. do
        checked_desc mp descp (λ e. e)
        not_null odest λ dest. do
          refuse_if (ltb int_max nbytes) Posix.einval
          λ u.
              refuse_if
                (let mode = bit_and (desc descp u).flags o_accmode in
                  not (mode == 0 || mode == o_rdwr))
                Posix.eacces u
          size ← λ u. or_fail Posix.eio (file_get_size nvm (desc descp u).filp) u
          λ u. refuse_if (ltb 0 nbytes && leb size (desc descp u).pos) Posix.eio u
          read_loop descp size nbytes 0 dest)
          w

  -- The loop of xipfs_write.
  unfoldable pub write_loop : ℕ → ℕ → Bytes → ℕ → ℕ → M Posix ℕ
  write_loop descp max_pos src zero i = pure i
  write_loop descp max_pos src (suc k) i = λ w.
      if ltb (desc descp w).pos max_pos
      then (do
        or_fail Posix.eio (file_write_8 nvm (desc descp w).filp (desc descp w).pos (src i))
        λ u. set_pos descp ((desc descp u).pos + 1) u
        write_loop descp max_pos src k (i + 1))
          w
      else done i w

  -- The descriptor is open for writing.
  abbrev pub check_writable : ℕ → M Posix (Unit {0})
  check_writable descp w =
      refuse_if (not (has (desc descp w).flags o_wronly) && not (has (desc descp w).flags o_rdwr))
        Posix.eacces w

  unfoldable pub write : Option Mount → ℕ → Option Bytes → ℕ → M Posix ℕ
  unfolding write_loop
  write omp descp osrc nbytes = with_mount nvm omp λ mp. do
    checked_desc mp descp (λ _. Posix.ebadf)
    not_null osrc λ src. do
      refuse_if (ltb int_max nbytes) Posix.einval
      check_writable descp
      λ w. refuse_if ((desc descp w).filp == infos) Posix.ebadf w
      max_pos ← λ w. or_fail Posix.eio (file_get_max_pos (desc descp w).filp) w
      λ w. refuse_if (ltb 0 nbytes && leb max_pos (desc descp w).pos) Posix.edquot w
      write_loop descp max_pos src nbytes 0

  unfoldable pub fsync : Option Mount → ℕ → ℤ → M Posix (Unit {0})
  fsync omp descp p = with_mount nvm omp λ mp. do
    checked_desc mp descp (λ e. e)
    check_writable descp
    elim p [
      | negsuc n ↦ throw Posix.einval
      | pos n ↦ do
        refuse_if (ltb int_max n) Posix.einval
        λ w. or_fail Posix.eio (file_set_size nvm (desc descp w).filp n) w
    ]
