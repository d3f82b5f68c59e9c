-- ===== src/Path/Strings.antt =====
-- src/path.c: the path structure, and the functions on the characters of paths.
use xipfs.Base.{
  ℕ, zero, suc, ◌+◌, ◌-◌, Bool, not, ◌&&◌, ◌||◌, [], ◌∷◌, Bytes, strncmp_eq, of_list, ltb, ◌==◌,
  if◌then◌else◌,
}
use xipfs.File.{path_max}

-- The values of `info`, XIPFS_PATH_UNDEFINED and so on.
pub data PathInfo : Type 0 where
  path_undefined path_creatable path_exists_as_file path_exists_as_empty_dir : PathInfo
  path_exists_as_nonempty_dir path_invalid_because_not_dirs : PathInfo
  path_invalid_because_not_found : PathInfo

-- `xipfs_path_t`; the witness is an address, the null pointer 0.
pub record XipfsPath : Type 0 where
  pub path : Bytes
  pub dirname : Bytes
  pub basename : Bytes
  pub len : ℕ
  pub last_slash : ℕ
  pub parent : ℕ
  pub witness : ℕ
  pub info : PathInfo

-- The failures: -1, and -ENAMETOOLONG.
pub data PathFailure : Type 0 where
  failed name_too_long : PathFailure

-- `k` rounds are left at index `i`.
unfoldable pub compare_loop : ℕ → Bytes → Bytes → ℕ → ℕ
compare_loop zero path_1 path_2 i = i
compare_loop (suc k) path_1 path_2 i =
    let rest = compare_loop k path_1 path_2 (i + 1) in
    if not (path_1 i == path_2 i)
    then i
    else if path_1 i == 0
    then i
    else if path_2 i == 0
    then i
    else rest

unfoldable pub compare_paths : Bytes → Bytes → ℕ
unfolding compare_loop
compare_paths path_1 path_2 = compare_loop path_max path_1 path_2 0

-- The tests on a character.
abbrev pub is_slash : ℕ → Bool
is_slash c = c == b'/'

abbrev pub is_end : ℕ → Bool
is_end c = c == 0

-- `c != '/' & c != '\0'`
abbrev pub is_other : ℕ → Bool
is_other c = not (is_slash c) && not (is_end c)

unfoldable pub exists_as_file : Bytes → Bytes → ℕ → Bool
exists_as_file path_1 path_2 i =
    ltb 0 i
    && (is_other (path_1 (i - 1))
        && is_end (path_1 i)
        && (is_other (path_2 (i - 1)) && is_end (path_2 i)))

unfoldable pub exists_as_empty_dir : Bytes → Bytes → ℕ → Bool
exists_as_empty_dir path_1 path_2 i =
    ltb 0 i
      && (is_slash (path_1 (i - 1))
          && is_end (path_1 i)
          && (is_slash (path_2 (i - 1)) && is_end (path_2 i)))
    || (ltb 0 i && ltb i (path_max - 1))
      && (is_other (path_1 (i - 1))
          && is_slash (path_1 i)
          && is_end (path_1 (i + 1))
          && (is_other (path_2 (i - 1)) && is_end (path_2 i)))

unfoldable pub exists_as_nonempty_dir : Bytes → Bytes → ℕ → Bool
exists_as_nonempty_dir path_1 path_2 i =
    ltb 0 i
      && (is_slash (path_1 (i - 1))
          && is_other (path_1 i)
          && (is_slash (path_2 (i - 1)) && is_end (path_2 i)))
    || (ltb 0 i && ltb i (path_max - 1))
      && (is_other (path_1 (i - 1))
          && is_slash (path_1 i)
          && is_other (path_1 (i + 1))
          && (is_other (path_2 (i - 1)) && is_end (path_2 i)))

unfoldable pub invalid_because_not_dirs : Bytes → Bytes → ℕ → Bool
invalid_because_not_dirs path_1 path_2 i =
    (ltb 0 i && ltb i (path_max - 1))
    && (is_other (path_1 (i - 1))
        && is_end (path_1 i)
        && (is_other (path_2 (i - 1)) && is_slash (path_2 i) && is_other (path_2 (i + 1))))

unfoldable pub creatable : Bytes → Bytes → ℕ → Bool
creatable path_1 dirname_2 dirname_2_len = strncmp_eq path_1 dirname_2 dirname_2_len

-- `path` is "/".
abbrev pub is_root : Bytes → Bool
is_root path = is_slash (path 0) && is_end (path 1)

-- The first `n` characters, ended by a null.
abbrev pub cut : Bytes → ℕ → Bytes
cut s n i = if ltb i n then s i else 0

unfoldable pub path_dirname : XipfsPath → XipfsPath
path_dirname x = record x {
  dirname = if is_root x.path then of_list (b'/' ∷ []) else cut x.path (x.last_slash + 1);
}

-- The characters up to a slash or the end; `k` rounds are left.
unfoldable pub component_len : ℕ → Bytes → ℕ
component_len zero src = 0
component_len (suc k) src =
    let rest = component_len k (λ i. src (i + 1)) in if is_other (src 0) then suc rest else 0

unfoldable pub path_basename : XipfsPath → XipfsPath
unfolding component_len
path_basename x =
    let src = λ (i : ℕ). x.path (x.last_slash + 1 + i) in
    record x {
      basename =
          if is_root x.path then of_list (b'/' ∷ []) else cut src (component_len path_max src);
    }
