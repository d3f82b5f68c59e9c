-- ===== src/Driver/Rename.antt =====
-- src/driver.c: xipfs_rename.
use xipfs.Base.{
  ℕ, ◌-◌, not, ◌&&◌, Option, none, some, List, [], ◌∷◌, Bytes, strnlen, strncmp_eq, ◌==◌,
  if◌then◌else◌,
}
use xipfs.Posix.{Posix}
use xipfs.State.{World, Mount, Outcome, done, fail, M, pure, throw, refuse_if, or_fail, ◌>>=◌, ◌>>◌}
use xipfs.Flash.{Nvm}
use xipfs.File.{path_max, file_rename}
use xipfs.Fs.{fs_rename_all}
use xipfs.Path.{
  XipfsPath, path_exists_as_file, path_exists_as_empty_dir, path_exists_as_nonempty_dir,
  path_invalid_because_not_dirs, path_invalid_because_not_found, path_creatable, path_undefined,
  is_root, add_slash, path_new_n,
}
use xipfs.Driver.Checks.{strcmp_eq, with_mount, not_null}
use xipfs.Driver.Names.{put_dir, drop_witness}

-- xipfs_path_new_n on two paths.
abbrev pub first_two : List XipfsPath → World → Outcome Posix (XipfsPath × XipfsPath)
first_two (x ∷ y ∷ xs) w = done (x, y) w
first_two (x ∷ []) w = fail Posix.eio w
first_two [] w = fail Posix.eio w

unfoldable pub lookup_two : Mount → Bytes → Bytes → M Posix (XipfsPath × XipfsPath)
lookup_two mp from to w = elim (path_new_n mp (from ∷ to ∷ []) w) [
  | done xs w' ↦ first_two xs w'
  | fail e w' ↦ fail Posix.eio w'
]

-- The new path of a directory, which must not lie in the directory itself.
abbrev pub check_outside : XipfsPath → XipfsPath → M Posix (Unit {0})
check_outside x y = refuse_if (strncmp_eq x.path y.path x.len) Posix.einval

abbrev pub as_new_dir : XipfsPath → XipfsPath → M Posix XipfsPath
as_new_dir x y = elim (add_slash y) [
  | none ↦ throw Posix.enametoolong
  | some z ↦ check_outside x z >> pure z
]

module _ (nvm : Nvm) where
  -- The result of a move is the number of files renamed, or `none` where there is nothing to do.
  abbrev pub move_one : XipfsPath → XipfsPath → M Posix (Option ℕ)
  move_one x y = or_fail Posix.eio (file_rename nvm x.witness y.path) >> pure (some 1)

  abbrev pub move_onto : XipfsPath → XipfsPath → M Posix (Option ℕ)
  move_onto x y = if x.witness == y.witness then pure none else move_one x y

  abbrev pub move_all : Mount → XipfsPath → XipfsPath → M Posix (Option ℕ)
  move_all mp x y = or_fail Posix.eio (fs_rename_all nvm mp x.path y.path) >>= λ n. pure (some n)

  unfoldable pub from_file : XipfsPath → XipfsPath → M Posix (Option ℕ)
  from_file x y = elim (y.info) [
    | path_exists_as_file ↦ move_onto x y
    | path_exists_as_empty_dir ↦ throw Posix.eisdir
    | path_exists_as_nonempty_dir ↦ throw Posix.eisdir
    | path_invalid_because_not_dirs ↦ throw Posix.enotdir
    | path_invalid_because_not_found ↦ throw Posix.enoent
    | path_creatable ↦ refuse_if (y.path (y.len - 1) == b'/') Posix.enotdir >> move_one x y
    | path_undefined ↦ throw Posix.eio
  ]

  unfoldable pub from_empty_dir : XipfsPath → XipfsPath → M Posix (Option ℕ)
  from_empty_dir x y = elim (y.info) [
    | path_exists_as_file ↦ throw Posix.enotdir
    | path_exists_as_empty_dir ↦ move_onto x y
    | path_exists_as_nonempty_dir ↦ throw Posix.enotempty
    | path_invalid_because_not_dirs ↦ throw Posix.enotdir
    | path_invalid_because_not_found ↦ throw Posix.enoent
    | path_creatable ↦ as_new_dir x y >>= move_one x
    | path_undefined ↦ throw Posix.eio
  ]

  unfoldable pub from_nonempty_dir : Mount → XipfsPath → XipfsPath → M Posix (Option ℕ)
  from_nonempty_dir mp x y = elim (y.info) [
    | path_exists_as_file ↦ throw Posix.enotdir
    | path_exists_as_empty_dir ↦ check_outside x y >> move_all mp x y
    | path_exists_as_nonempty_dir ↦ throw Posix.enotempty
    | path_invalid_because_not_dirs ↦ throw Posix.enotdir
    | path_invalid_because_not_found ↦ throw Posix.enoent
    | path_creatable ↦ as_new_dir x y >>= move_all mp x
    | path_undefined ↦ throw Posix.eio
  ]

  -- The two switches.
  unfoldable pub move : Mount → XipfsPath → XipfsPath → M Posix (Option ℕ)
  unfolding from_file from_empty_dir from_nonempty_dir
  move mp x y = elim (x.info) [
    | path_exists_as_file ↦ from_file x y
    | path_exists_as_empty_dir ↦ from_empty_dir x y
    | path_exists_as_nonempty_dir ↦ from_nonempty_dir mp x y
    | path_invalid_because_not_dirs ↦ throw Posix.enotdir
    | path_invalid_because_not_found ↦ throw Posix.enoent
    | path_creatable ↦ throw Posix.enoent
    | path_undefined ↦ throw Posix.eio
  ]

module _ (nvm : Nvm) (infos : ℕ) where
  -- What follows the switches: a file for the old directory where it has become empty, and the file
  -- for the new directory, if it was empty, goes.
  unfoldable pub after_move : Mount → XipfsPath → XipfsPath → Option ℕ → M Posix (Unit {0})
  after_move mp x y none = pure tt
  after_move mp x y (some renamed) = do
    (if x.parent == renamed && not (is_root x.dirname) && not (strcmp_eq x.dirname y.dirname)
        then put_dir nvm mp x.dirname
        else pure tt)
    drop_witness nvm infos mp y

  unfoldable pub rename : Option Mount → Option Bytes → Option Bytes → M Posix (Unit {0})
  unfolding move after_move lookup_two
  rename omp ofrom oto = with_mount nvm omp λ mp. not_null ofrom λ from. not_null oto λ to. do
    refuse_if (from 0 == 0) Posix.enoent
    refuse_if (to 0 == 0) Posix.enoent
    refuse_if (strnlen from path_max == path_max) Posix.enametoolong
    refuse_if (strnlen to path_max == path_max) Posix.enametoolong
    (x, y) ← lookup_two mp from to
    r ← move nvm mp x y
    after_move mp x y r
