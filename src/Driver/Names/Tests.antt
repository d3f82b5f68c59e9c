-- ===== src/Driver/Names/Tests.antt =====
-- An example for xipfs_new_file: a second file in a directory that is known by its first file.
use xipfs.Base.{
  ℕ, zero, suc, ◌+◌, ◌*◌, ◌-◌, ◌≤◌, ◌<◌, ◌≡◌, ◌≢◌, inl, inr, refl, arith, true, false, some, [],
  ◌∷◌, Bytes, of_list, overlay, overlay-outside,
}
use xipfs.Errno.{xipfs_ok}
use xipfs.State.{World, done, Ensures}
use xipfs.Flash.{nvm_erase_state}
use xipfs.Flash.Device.{device, device-IsNvm}
use xipfs.Buffer.View.{IsCoherent, IsReliable}
use xipfs.File.{path_charset_check, file_path, filp_error}
use xipfs.File.Paths.{IsPath}
use xipfs.File.Check.{filp_error_iff}
use xipfs.Fs.{new_header}
use xipfs.Fs.Sample.{world}
use xipfs.Fs.Tail.{HasFiles}
use xipfs.Fs.Catalogue.{Catalogue, IsNamed, Filled, Represents, some_files}
use xipfs.Path.{XipfsPath, path_init, path_creatable}
use xipfs.Driver.Sample.{mount_point, mount_point-IsMount}
use xipfs.Driver.Checks.{lookup_path, strcmp_eq}
use xipfs.Driver.Names.{new_file}
use xipfs.Driver.Names.Create.{new_file-Represents}

-- A name in the directory "/a".
abbrev name_in : ℕ → Bytes
name_in c = of_list (b'/' ∷ b'a' ∷ b'/' ∷ c ∷ [])

abbrev one_file : Bytes
one_file = overlay (λ _. 255) 40960 (new_header (name_in b'x') 45056 4096 0) 420

abbrev before : Catalogue
before = record { names = name_in b'x' ∷ []; free = 7 }

abbrev after : Catalogue
after = record { names = name_in b'x' ∷ name_in b'y' ∷ []; free = 6 }

name_charset :
    (c : ℕ)
    → path_charset_check c ≡ true
    → (j : ℕ) → j < 4
    → path_charset_check (name_in c j) ≡ true
unfolding path_charset_check
name_charset c h zero lt = refl
name_charset c h (suc zero) lt = refl
name_charset c h (suc (suc zero)) lt = refl
name_charset c h (suc (suc (suc zero))) lt = h
name_charset c h (suc (suc (suc (suc j)))) lt = absurd (omega arith)

name-IsPath : (c : ℕ) → path_charset_check c ≡ true → IsPath (name_in c)
name-IsPath c h = record {
  not_empty = λ z. omega (arith, z);
  len = 4;
  bound = omega arith;
  ends = record { from = omega arith; nul = refl; charset = λ j le lt. name_charset c h j lt };
}

same_name : (i : ℕ) → i ≤ 4 → file_path one_file 40960 i ≡ name_in b'x' i
unfolding new_header xipfs.Base.strnlen
same_name zero le = refl
same_name (suc zero) le = refl
same_name (suc (suc zero)) le = refl
same_name (suc (suc (suc zero))) le = refl
same_name (suc (suc (suc (suc zero)))) le = refl
same_name (suc (suc (suc (suc (suc i))))) le = absurd (omega arith)

has_file : HasFiles one_file mount_point []
unfolding filp_error new_header xipfs.Flash.flash_page_aligned xipfs.Flash.flash_in
    xipfs.Base.read_32 xipfs.Base.byte_of xipfs.File.link_error xipfs.File.path_error
    xipfs.Base.strnlen xipfs.File.path_loop path_charset_check
has_file = (
  λ h. omega (arith, h),
  ((filp_error_iff one_file 40960).0 refl, inr (λ h. omega (arith, h), refl)),
  omega arith,
)

before-Filled : Filled one_file mount_point [] before
unfolding new_header xipfs.Base.read_32 xipfs.Base.byte_of name-IsPath path_charset_check
before-Filled = record {
  files = has_file;
  names = record { path = name-IsPath b'x' refl; same = same_name };
  space = refl;
  open_end = λ n h. omega (arith, h);
  blank = λ b lo hi.
      overlay-outside (λ _. 255) (new_header (name_in b'x') 45056 4096 0) 40960 420 b
        (inr (omega (arith, lo)));
}

abbrev started : World
started = record world { mem = one_file }

started-IsCoherent : IsCoherent started
started-IsCoherent = record { loaded = λ h. cc; clean = λ h. cc }

abbrev looked_up : XipfsPath
looked_up = record (path_init (name_in b'y')) { parent = 1; info = path_creatable; witness = 40960 }

is_found :
    lookup_path mount_point (name_in b'y') started
    ≡ done looked_up (record started { errno = xipfs_ok })
unfolding lookup_path xipfs.Path.path_new xipfs.Fs.fs_head xipfs.Base.read_32 new_header
    xipfs.Base.byte_of filp_error xipfs.Flash.flash_page_aligned xipfs.Flash.flash_in
    xipfs.File.link_error xipfs.File.path_error xipfs.Base.strnlen xipfs.File.path_loop
    path_charset_check xipfs.Path.identify_all xipfs.Path.identify path_init
    xipfs.Path.exists_as_file xipfs.Base.strncmp_eq xipfs.Flash.flash_end_addr xipfs.Fs.fs_next
    xipfs.Path.compare_loop xipfs.Path.compare_paths xipfs.Path.component_len xipfs.Path.creatable
    xipfs.Path.exists_as_empty_dir xipfs.Path.exists_as_nonempty_dir
    xipfs.Path.invalid_because_not_dirs xipfs.Path.path_basename xipfs.Path.path_dirname
    xipfs.Path.add_slash xipfs.Path.classify xipfs.Path.init_all xipfs.Path.path_loop
    xipfs.Path.path_new_n xipfs.Path.scan_loop xipfs.Path.settle_all xipfs.Path.without_files
is_found = refl

-- The file "/a/x" does not stand for the empty directory "/a/".
other_name : strcmp_eq (file_path one_file 40960) looked_up.dirname ≡ false
unfolding path_init xipfs.Path.scan_loop xipfs.Path.path_basename xipfs.Path.path_dirname new_header
    xipfs.Base.strnlen xipfs.Base.strncmp_eq
other_name = refl

new_file-Represents_example :
    Ensures
      (λ _ u. Represents u.mem mount_point (40960 ∷ 45056 ∷ []) after)
      (λ _ _. IsReliable device → ⊥)
      (new_file device 0 (some mount_point) (some (name_in b'y')) 100 1 started)
unfolding new_header xipfs.Base.read_32 xipfs.Base.byte_of xipfs.Fs.reserved_for xipfs.Fs.round_page
    xipfs.Base.strnlen path_init xipfs.Path.scan_loop xipfs.Path.path_basename
    xipfs.Path.path_dirname xipfs.Flash.flash_end_addr xipfs.Fs.Catalogue.add_file
    path_charset_check name-IsPath
new_file-Represents_example =
    new_file-Represents mount_point (40960 ∷ []) before (name_in b'y') 100 1 started
      (some_files before-Filled) (name-IsPath b'y' refl) (omega arith) (inr refl) (omega arith) refl
      (omega arith) device-IsNvm 0 looked_up mount_point-IsMount started-IsCoherent (λ h. cc) refl
      is_found refl (λ h. omega (arith, h)) (inr (inr other_name))
