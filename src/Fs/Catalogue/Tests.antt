-- ===== src/Fs/Catalogue/Tests.antt =====
-- An example for the catalogue of the files: the two files of Fs/Sample.antt and a third one.
use xipfs.Base.{
  ℕ, zero, suc, ◌+◌, ◌*◌, ◌/◌, ◌-◌, ◌≤◌, ◌<◌, ◌≡◌, ◌≢◌, ◌⊎◌, inl, inr, refl, ◌∙◌, ap, arith, true,
  some, [], ◌∷◌, List, Bytes, of_list, overlay, overlay-outside,
}
use xipfs.State.{World, Ensures}
use xipfs.Flash.{nvm_erase_state}
use xipfs.Flash.Device.{device, device-IsNvm}
use xipfs.Buffer.View.{IsCoherent, IsReliable}
use xipfs.File.{path_charset_check}
use xipfs.Fs.{new_header, fs_new_file, reserved_for, round_page}
use xipfs.Fs.Sample.{two_files, mount, world}
use xipfs.Fs.Catalogue.{
  some_files, no_files, total_of, Represents, Catalogue, Catalogue, IsNamed, Represents,
}
use xipfs.Fs.Catalogue.Create.{fs_new_file-Represents}
use xipfs.Fs.Catalogue.Sample.{name_of, before, after, name-IsPath, len-name, before-Filled}

world-IsCoherent : IsCoherent world
world-IsCoherent = record { loaded = λ h. cc; clean = λ h. cc }

fs_new_file-Represents_example :
    Ensures
      (λ p u.
        (p ≡ 40960 + total_of two_files (40960 ∷ 45056 ∷ []))
        × Represents u.mem mount (40960 ∷ 45056 ∷ p ∷ []) after)
      (λ _ _. IsReliable device → ⊥)
      (fs_new_file device mount (name_of b'c') 100 1 world)
unfolding reserved_for round_page xipfs.Flash.flash_end_addr xipfs.Fs.Catalogue.add_file
    xipfs.File.path_charset_check
fs_new_file-Represents_example =
    fs_new_file-Represents mount (name_of b'c') 100 1 world (name-IsPath b'c' refl)
      (omega (arith, len-name b'c' refl)) (inr refl) (omega arith) refl (omega arith) device-IsNvm
      world-IsCoherent (λ h. cc) (40960 ∷ 45056 ∷ []) before (some_files before-Filled)

-- A mount point without files.
abbrev empty_world : World
empty_world = record world { mem = λ _. 255 }

-- The first file.
first_file :
    Ensures
      (λ p u.
        (p ≡ 40960)
        × Represents u.mem mount (p ∷ []) (record { names = name_of b'c' ∷ []; free = 7 }))
      (λ _ _. IsReliable device → ⊥)
      (fs_new_file device mount (name_of b'c') 100 1 empty_world)
unfolding reserved_for round_page xipfs.Flash.flash_end_addr xipfs.Fs.Catalogue.add_file
    xipfs.Base.read_32 xipfs.File.path_charset_check
first_file =
    fs_new_file-Represents mount (name_of b'c') 100 1 empty_world (name-IsPath b'c' refl)
      (omega (arith, len-name b'c' refl)) (inr refl) (omega arith) refl (omega arith) device-IsNvm
      (record { loaded = λ h. cc; clean = λ h. cc }) (λ h. cc) [] (record { names = []; free = 8 })
      (no_files (λ h. omega (arith, h)) refl (λ b lo hi. refl))
