-- ===== src/Path.antt =====
-- src/path.c: what a path refers to, found out by comparing it with the path of every file.
mod Strings
unfoldable pub use Strings.*
pub mod Compare
pub mod Identify
pub mod Walk
mod Tests
use xipfs.Base.{
  ℕ, zero, suc, ◌+◌, ◌-◌, Bool, true, false, not, ◌&&◌, ◌||◌, Option, none, some, List, [], ◌∷◌,
  Bytes, update, strncmp_eq, of_list, ltb, leb, ◌==◌, if◌then◌else◌,
}
use xipfs.Errno.{xipfs_ok}
use xipfs.State.{World, Mount, Outcome, done, fail, M, pure, throw, ◌>>=◌}
use xipfs.File.{path_max, file_path}
use xipfs.Fs.{fs_head, fs_next, is_ok, walk_fuel}

-- The last slash with a character behind it, and the length; `k` rounds are left.
unfoldable pub scan_loop : ℕ → Bytes → ℕ → ℕ → ℕ × ℕ
scan_loop zero path len last_slash = (last_slash, len)
scan_loop (suc k) path len last_slash =
    let rest =
      scan_loop k path (len + 1)
        (if is_slash (path len) && not (is_end (path (len + 1))) then len else last_slash) in
    if is_end (path len) then (last_slash, len) else rest

-- The path is shorter than XIPFS_PATH_MAX, so the rounds are enough.
unfoldable pub path_init : Bytes → XipfsPath
unfolding scan_loop path_basename path_dirname
path_init path =
    let (last_slash, len) = if is_root path then (0, 1) else scan_loop path_max path 0 0 in
    path_dirname (
      path_basename (record {
        path = cut path len;
        dirname = λ _. 0;
        basename = λ _. 0;
        len = len;
        last_slash = last_slash;
        parent = 0;
        witness = 0;
        info = path_undefined;
      }))

-- A slash is appended to the path of a directory.
unfoldable pub add_slash : XipfsPath → Option XipfsPath
add_slash x =
    if is_slash (x.path (x.len - 1))
    then some x
    else if x.len == path_max - 1
    then none
    else some
        (record x { path = update (update x.path (x.len) b'/') (x.len + 1) 0; len = x.len + 1 })

abbrev pub is_open : PathInfo → Bool
is_open path_undefined = true
is_open path_creatable = true
is_open _ = false

abbrev pub identified : XipfsPath → PathInfo → ℕ → XipfsPath
identified x info filp = record x { info = info; witness = filp }

-- A path that was found to be a directory.
abbrev pub as_dir : XipfsPath → PathInfo → ℕ → M PathFailure XipfsPath
as_dir x info filp = elim (add_slash x) [
  | some y ↦ pure (identified y info filp)
  | none ↦ throw name_too_long
]

-- The chain of tests, with the index of the first difference.
unfoldable pub classify : ℕ → Bytes → XipfsPath → ℕ → M PathFailure XipfsPath
classify filp file_name x i =
    if exists_as_file file_name x.path i
    then pure (identified x path_exists_as_file filp)
    else if exists_as_empty_dir file_name x.path i
    then as_dir x path_exists_as_empty_dir filp
    else if exists_as_nonempty_dir file_name x.path i
    then as_dir x path_exists_as_nonempty_dir filp
    else if invalid_because_not_dirs file_name x.path i
    then pure (identified x path_invalid_because_not_dirs filp)
    else if creatable file_name x.path (x.last_slash + 1)
    then pure (identified x path_creatable filp)
    else pure x

-- One path against one file.
unfoldable pub identify : ℕ → Bytes → XipfsPath → M PathFailure XipfsPath
unfolding compare_paths classify
identify filp file_name x =
    let y = record x {
      parent = if strncmp_eq x.path file_name (x.last_slash) then x.parent + 1 else x.parent;
    } in
    if is_open y.info
    then (let i = compare_paths file_name y.path in
        if i == path_max then throw failed else classify filp file_name y i)
    else pure y

-- All paths against one file.
unfoldable pub identify_all : ℕ → Bytes → List XipfsPath → M PathFailure (List XipfsPath)
identify_all filp file_name [] = pure []
identify_all filp file_name (x ∷ xs) = do
  y ← identify filp file_name x
  ys ← identify_all filp file_name xs
  pure (y ∷ ys)

-- The walk over the files; xipfs_errno is not looked at where it ends.
unfoldable pub path_loop : ℕ → ℕ → List XipfsPath → M PathFailure (List XipfsPath)
path_loop zero filp xs = throw failed
path_loop (suc k) filp xs = (λ w. identify_all filp (file_path w.mem filp) xs w) >>= λ ys w.
    let (next, w') = fs_next filp w in
    elim next [ some p ↦ path_loop k p ys w' | none ↦ done ys w' ]

-- The paths where there is no file.
unfoldable pub without_files : List XipfsPath → List XipfsPath
without_files [] = []
without_files (x ∷ xs) =
    (if creatable (of_list (b'/' ∷ [])) x.path (if ltb 0 x.last_slash then x.last_slash - 1 else 0)
      then identified x path_creatable 0
      else x)
    ∷ without_files xs

-- A path that is still undefined was not found.
abbrev pub settle : XipfsPath → XipfsPath
settle x = elim (x.info) [
  | path_undefined ↦ identified x path_invalid_because_not_found 0
  | path_creatable ↦ x
  | path_exists_as_file ↦ x
  | path_exists_as_empty_dir ↦ x
  | path_exists_as_nonempty_dir ↦ x
  | path_invalid_because_not_dirs ↦ x
  | path_invalid_because_not_found ↦ x
]

unfoldable pub settle_all : List XipfsPath → List XipfsPath
settle_all [] = []
settle_all (x ∷ xs) = settle x ∷ settle_all xs

-- The first loop: every path must start with a slash.
unfoldable pub init_all : List Bytes → M PathFailure (List XipfsPath)
init_all [] = pure []
init_all (p ∷ ps) =
    if is_end (p 0)
    then throw failed
    else if not (is_slash (p 0))
    then throw failed
    else (init_all ps >>= λ xs. pure (path_init p ∷ xs))

unfoldable pub path_new_n : Mount → List Bytes → M PathFailure (List XipfsPath)
unfolding init_all path_loop without_files settle_all
path_new_n mp paths = init_all paths >>= λ xs w.
    let (head, w') = fs_head mp (record w { errno = xipfs_ok }) in
    elim head [
      | some h ↦ (path_loop walk_fuel h xs >>= λ ys. pure (settle_all ys)) w'
      | none ↦ if is_ok w'.errno then done (settle_all (without_files xs)) w' else fail failed w'
    ]

unfoldable pub path_new : Mount → Bytes → M PathFailure (List XipfsPath)
unfolding path_new_n
path_new mp path = path_new_n mp (path ∷ [])
