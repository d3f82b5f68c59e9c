-- ===== src/Driver/Dirs/Tests.antt =====
-- Examples for the functions on open directories.
use xipfs.Base.{
  ℕ, zero, suc, ◌+◌, ◌≤◌, ◌<◌, ◌≡◌, ◌≢◌, refl, ap, arith, Option, none, some, List, [], ◌∷◌, Bytes,
  of_list, overlay,
}
use xipfs.Posix.{Posix}
use xipfs.State.{
  World, Outcome, done, fail, pure, ◌>>=◌, ◌>>◌, Ensures, DescEntry, desc_dir, desc_free,
}
use xipfs.Flash.Device.{device, device-IsNvm}
use xipfs.Desc.{dir_desc_tracked}
use xipfs.Fs.{new_header}
use xipfs.Fs.Sample.{two_files, two_files-HasFiles, world}
use xipfs.Driver.Sample.{mount_point, mount_point-IsMount}
use xipfs.Driver.Dirs.{opendir, readdir}
use xipfs.Driver.Dirs.Component.{IsName}
use xipfs.Driver.Dirs.Listing.{AllShort, Listed, readdir_lem}

abbrev one_dir : ℕ → DescEntry
one_dir zero = record { type = desc_dir; addr = 7 }
one_dir (suc i) = record { type = desc_free; addr = 0 }

-- The root, open at the first file.
abbrev root : Bytes
root = of_list (b'/' ∷ [])

abbrev opened : World
opened = record world {
  open_desc = one_dir;
  dir_descs = λ _. record { filp = 40960; dirname = root };
}

root-IsName : IsName root 1
root-IsName = record { bound = omega arith; nul = refl; chars = only_slash }
  where
    only_slash : (i : ℕ) → i < 1 → root i ≢ 0
    only_slash zero lt z = omega (arith, z)
    only_slash (suc i) lt z = absurd (omega (arith, lt))

are_short : AllShort two_files (40960 ∷ 45056 ∷ [])
unfolding new_header xipfs.Base.strnlen
are_short = (
  record { end = 2; bound = omega arith; nul = refl },
  (record { end = 2; bound = omega arith; nul = refl }, tt),
)

is_tracked : dir_desc_tracked 7 opened ≡ done tt opened
unfolding dir_desc_tracked xipfs.Desc.find_loop
is_tracked = refl

readdir_lem_example :
    Ensures
      (λ e u. Listed 7 root 1 (40960 ∷ 45056 ∷ []) opened e u × (dir_desc_tracked 7 u ≡ done tt u))
      (λ _ _. ⊥)
      (readdir device (some mount_point) 7 (some (λ _. 0)) opened)
readdir_lem_example =
    readdir_lem 7 root 1 root-IsName device-IsNvm mount_point (40960 ∷ 45056 ∷ []) (λ _. 0) opened
      mount_point-IsMount (λ h. omega (arith, h)) is_tracked refl refl
      (two_files-HasFiles.1, omega arith) are_short

-- The files "/a/x" and "/ab".
abbrev shared_prefix : Bytes
shared_prefix =
    overlay
      (overlay (λ _. 255) 40960 (new_header (of_list (b'/' ∷ b'a' ∷ b'/' ∷ b'x' ∷ [])) 45056 4096 0)
        420)
      45056 (new_header (of_list (b'/' ∷ b'a' ∷ b'b' ∷ [])) 49152 4096 1) 420

abbrev first_two : Option Bytes → List ℕ
first_two none = []
first_two (some o) = o 0 ∷ o 1 ∷ []

-- The first two characters of the entries that xipfs_readdir gives for "/a".
abbrev entries : Outcome Posix (List (List ℕ)) → List (List ℕ)
entries (done l u) = l
entries (fail e u) = []

-- The directory "/a" is opened without the slash behind its name, so that "/ab" gives an entry.
lists :
    entries (
      (do
        opendir device (some mount_point) 7 (some (of_list (b'/' ∷ b'a' ∷ [])))
        a ← readdir device (some mount_point) 7 (some (λ _. 0))
        b ← readdir device (some mount_point) 7 (some (λ _. 0))
        pure (first_two a ∷ first_two b ∷ []))
        (record world { mem = shared_prefix }))
    ≡ (b'x' ∷ 0 ∷ []) ∷ (b'b' ∷ 0 ∷ []) ∷ []
unfolding opendir readdir xipfs.Driver.Checks.with_mount xipfs.Driver.Checks.mp_error
    xipfs.Flash.flash_in xipfs.Base.strnlen xipfs.Fs.fs_head xipfs.Base.read_32 new_header
    xipfs.Base.byte_of xipfs.File.filp_error xipfs.Flash.flash_page_aligned xipfs.File.link_error
    xipfs.File.path_error xipfs.File.path_loop xipfs.File.path_charset_check
    xipfs.Driver.Checks.lookup_path xipfs.Path.path_new xipfs.Path.identify_all xipfs.Base.len_from
    xipfs.Base.same_from xipfs.Base.strncmp_eq xipfs.Desc.desc_track xipfs.Desc.desc_tracked
    xipfs.Desc.dir_desc_track dir_desc_tracked xipfs.Desc.find_loop xipfs.Desc.track_loop
    xipfs.Driver.Dirs.end_with_slash xipfs.Driver.Dirs.entry_loop xipfs.Driver.Dirs.entry_of
    xipfs.Driver.Dirs.match_loop xipfs.Driver.Dirs.open_found xipfs.Driver.Dirs.opendir_head
    xipfs.Driver.Dirs.readdir_loop xipfs.Flash.flash_end_addr xipfs.Fs.fs_next
    xipfs.Path.compare_loop xipfs.Path.compare_paths xipfs.Path.component_len xipfs.Path.creatable
    xipfs.Path.exists_as_empty_dir xipfs.Path.exists_as_file xipfs.Path.exists_as_nonempty_dir
    xipfs.Path.invalid_because_not_dirs xipfs.Path.path_basename xipfs.Path.path_dirname
    xipfs.Path.add_slash xipfs.Path.classify xipfs.Path.identify xipfs.Path.init_all
    xipfs.Path.path_init xipfs.Path.path_new_n xipfs.Path.scan_loop xipfs.Path.settle_all
    xipfs.Path.without_files
lists = refl
