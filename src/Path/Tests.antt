-- ===== src/Path/Tests.antt =====
-- Examples for src/path.c: "/a" against the paths of a file system with "/a/b".
use xipfs.Base.{◌≡◌, ◌↔◌, refl, true, [], ◌∷◌, Bytes, of_list, arith}
use xipfs.Errno.{xipfs_ok}
use xipfs.State.{Ensures, ◌>>=◌, ◌>>◌, set_errno, pure}
use xipfs.Fs.Sample.{mount, world, two_files-HasFiles}
use xipfs.Path.{
  XipfsPath, compare_paths, exists_as_file, exists_as_empty_dir, exists_as_nonempty_dir,
  invalid_because_not_dirs, path_init, path_new_n, init_all, settle_all, without_files, identified,
  path_creatable,
}
use xipfs.Path.Compare.{
  IsSameFile, IsInside, Nothing, Something, exists_as_file_iff, exists_as_empty_dir_iff,
  exists_as_nonempty_dir_iff,
}
use xipfs.Path.Identify.{SettledAt, path_new_n-AllSettled, without_files_lem}
use xipfs.Path.Walk.{visit, path_new_n-visit}

abbrev dir : Bytes
dir = of_list (b'/' ∷ b'a' ∷ [])

abbrev inner : Bytes
inner = of_list (b'/' ∷ b'a' ∷ b'/' ∷ b'b' ∷ [])

compare_runs : compare_paths inner dir ≡ 2
unfolding compare_paths xipfs.Path.compare_loop
compare_runs = refl

exists_as_file_iff_example :
    (exists_as_file dir dir (compare_paths dir dir) ≡ true) ↔ IsSameFile dir dir
exists_as_file_iff_example = exists_as_file_iff dir dir

exists_as_empty_dir_iff_example :
    (exists_as_empty_dir inner dir (compare_paths inner dir) ≡ true) ↔ IsInside Nothing inner dir
exists_as_empty_dir_iff_example = exists_as_empty_dir_iff inner dir

exists_as_nonempty_dir_iff_example :
    (exists_as_nonempty_dir inner dir (compare_paths inner dir) ≡ true)
    ↔ IsInside Something inner dir
exists_as_nonempty_dir_iff_example = exists_as_nonempty_dir_iff inner dir

path_new_n-AllSettled_example :
    Ensures (SettledAt 2) (λ _ _. Unit {0}) (path_new_n mount (dir ∷ inner ∷ []) world)
path_new_n-AllSettled_example = path_new_n-AllSettled mount (dir ∷ inner ∷ []) world

path_new_n-visit_example :
    path_new_n mount (dir ∷ inner ∷ []) world
    ≡ (init_all (dir ∷ inner ∷ []) >>= λ xs.
          set_errno xipfs_ok >> (visit (40960 ∷ 45056 ∷ []) xs >>= λ ys. pure (settle_all ys)))
        world
path_new_n-visit_example =
    path_new_n-visit mount (45056 ∷ []) (dir ∷ inner ∷ []) world two_files-HasFiles

abbrev inner_path : XipfsPath
inner_path = record {
  path = inner;
  dirname = dir;
  basename = dir;
  len = 4;
  last_slash = 2;
  parent = 0;
  witness = 0;
  info = xipfs.Path.path_undefined;
}

-- "/a/b" counts as creatable although there is no "/a".
without_files_lem_example :
    without_files (inner_path ∷ []) ≡ identified inner_path path_creatable 0 ∷ without_files []
without_files_lem_example = without_files_lem inner_path [] refl (λ h. omega (arith, h))
