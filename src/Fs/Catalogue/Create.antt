-- ===== src/Fs/Catalogue/Create.antt =====
-- xipfs_fs_new_file, as seen in the catalogue of the files.
use xipfs.Base.{
  ℕ, ◌+◌, ◌-◌, ◌*◌, ◌/◌, ◌%◌, ◌≤◌, ◌<◌, ◌≡◌, ◌≢◌, ◌⊎◌, inl, inr, refl, sym, subst, arith, leb,
  Bool-cases, Option, none, some, List, [], ◌∷◌, ◌++◌, Bytes, int_max,
}
use xipfs.Errno.{efull, enospace}
use xipfs.State.{World, Mount, Outcome, Ensures, Ensures-mono, buffer_dirty}
use xipfs.Flash.{Nvm, nvm_page_size, nvm_erase_state, flash_erase_state, flash_end_addr}
use xipfs.Flash.Laws.{IsNvm}
use xipfs.Buffer.View.{IsCoherent, IsReliable}
use xipfs.Desc.{sizeof_file}
use xipfs.File.{file_next}
use xipfs.File.Paths.{IsPath}
use xipfs.Fs.{fs_new_file, reserved_for}
use xipfs.Fs.Catalogue.{Catalogue, add_file, Filled, Represents, no_files, some_files, total_of}
use xipfs.Fs.Catalogue.First.{first_created, first_refused}
use xipfs.Fs.Catalogue.Next.{CreatedNext, fs_new_file-Filled}

-- What is to be expected of a new file: the view with the new file, which lies behind the others, or
-- a refusal that changes nothing.
abbrev pub Created : Nvm → Mount → List ℕ → World → Option Catalogue → Outcome (Unit {0}) ℕ → Type 0
Created nvm mp fs w none o =
    Ensures (λ _ _. ⊥) (λ _ u. (u.mem ≡ w.mem) × ((u.errno ≡ efull) ⊎ (u.errno ≡ enospace))) o
Created nvm mp fs w (some c') o =
    Ensures
      (λ p u. (p ≡ mp.page_addr + total_of w.mem fs) × Represents u.mem mp (fs ++ (p ∷ [])) c')
      (λ _ _. IsReliable nvm → ⊥) o

module _ (mp : Mount) (path : Bytes) (size exec : ℕ) (w : World) (q : IsPath path)
    (short : q.len < 63) (right : (exec ≡ 0) ⊎ (exec ≡ 1))
    (fits : size + sizeof_file + nvm_page_size ≤ int_max)
    (aligned : mp.page_addr % nvm_page_size ≡ 0)
    (within : mp.page_addr + mp.page_num * nvm_page_size ≤ flash_end_addr) {nvm : Nvm}
    (laws : IsNvm nvm) (coherent : IsCoherent w) (clean : w.buffer.state ≢ buffer_dirty) where
  next-Created :
      (l : List ℕ) (c : Catalogue) (rep : Filled w.mem mp l c) (r : Option Catalogue)
      (o : Outcome (Unit {0}) ℕ)
      → CreatedNext mp l c path size exec w rep q short right fits aligned within nvm r o
      → Created nvm mp (mp.page_addr ∷ l) w r o
  next-Created l c rep none o h = h
  next-Created l c rep (some c') o h =
      Ensures-mono o h (λ p u (e, f). (e, some_files f)) (λ _ u b. b)

  first-Created :
      mp.page_addr ≢ 0
      → file_next w.mem mp.page_addr ≡ flash_erase_state
      → ((b : ℕ)
          → mp.page_addr ≤ b
          → b < mp.page_addr + mp.page_num * nvm_page_size
          → w.mem b ≡ nvm_erase_state)
      → Created nvm mp [] w
          (add_file path size (record { names = []; free = mp.page_num }))
          (fs_new_file nvm mp path size exec w)
  unfolding add_file
  first-Created some_page erased blank =
      elim (Bool-cases (leb (reserved_for size / nvm_page_size) mp.page_num)) [
        | inl e ↦
            let room : reserved_for size / nvm_page_size ≤ mp.page_num = ground arith in
            rw e (
              Ensures-mono (fs_new_file nvm mp path size exec w)
                (first_created mp path size exec w some_page erased blank q short right fits aligned
                  within room laws coherent clean)
                (λ p u (at, f). (
                  omega (arith, at),
                  subst
                      (λ a. Represents u.mem mp (a ∷ []) (record {
                        names = path ∷ [];
                        free = mp.page_num - reserved_for size / nvm_page_size;
                      }))
                      (sym at) (some_files f),
                ))
                (λ _ u b. b))
        | inr n ↦
            rw
              (
                n,
                first_refused mp path size exec w some_page erased blank q short right fits aligned
                    within nvm (ground arith),
              )
              (refl, inr refl)
      ]

  -- xipfs_fs_new_file on a mount point whose memory holds a catalogue, with or without files, with a
  -- clean and coherent buffer, a valid path of 62 characters at most, an execution right of 0 or 1, a
  -- size that leaves room for the structure and a page in an `int` and a mount point on whole pages of
  -- the flash, does what `add_file` does to the catalogue: if the free pages suffice, it returns the
  -- place behind the last file, or the first page, and the memory holds the catalogue with the name at
  -- its end and the free pages less those of the file, unless the device is at fault; if they do not,
  -- it fails with XIPFS_EFULL or XIPFS_ENOSPACE and the memory is as it was.
  pub fs_new_file-Represents :
      (fs : List ℕ) (c : Catalogue)
      → Represents w.mem mp fs c
      → Created nvm mp fs w (add_file path size c) (fs_new_file nvm mp path size exec w)
  fs_new_file-Represents fs c (no_files some_page erased blank) =
      first-Created some_page erased blank
  fs_new_file-Represents fs c (some_files {l} f) =
      next-Created l c f (add_file path size c) (fs_new_file nvm mp path size exec w) (
        fs_new_file-Filled mp l c path size exec w f q short right fits aligned within laws coherent
          clean)
