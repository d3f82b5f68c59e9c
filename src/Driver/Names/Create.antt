-- ===== src/Driver/Names/Create.antt =====
-- src/driver.c: xipfs_new_file, as seen in the catalogue of the files.
use xipfs.Base.{
  ◌&&◌, ℕ, ◌+◌, ◌*◌, ◌%◌, ◌≤◌, ◌<◌, ◌≡◌, ◌≢◌, ◌⊎◌, inl, inr, refl, ◌∙◌, ap, sym, subst, arith,
  Bool-cases, true, false, not, ◌||◌, ◌==◌, if◌then◌else◌, Option, none, some, List, ◌∷◌, [], ◌++◌,
  Bytes, ◌-◌, int_max,
}
use xipfs.Errno.{xipfs_ok}
use xipfs.Posix.{Posix}
use xipfs.State.{
  World, Mount, Outcome, done, fail, pure, refuse_if, bind_done, Ensures, buffer_dirty,
}
use xipfs.Flash.{Nvm, nvm_page_size, flash_end_addr}
use xipfs.Flash.Laws.{IsNvm}
use xipfs.Buffer.View.{IsCoherent, IsReliable}
use xipfs.Desc.{sizeof_file}
use xipfs.File.Paths.{IsPath}
use xipfs.File.{file_path}
use xipfs.Fs.{fs_new_file}
use xipfs.Fs.Catalogue.{total_of, Catalogue, add_file, Represents}
use xipfs.Fs.Catalogue.Create.{Created, fs_new_file-Represents}
use xipfs.Path.{XipfsPath, path_creatable, is_root}
use xipfs.Driver.Checks.{lookup_path, strcmp_eq}
use xipfs.Driver.Files.{created}
use xipfs.Driver.Volume.Check.{IsMount, with_mount-none}
use xipfs.Driver.Names.{
  new_file, check_name, accept, new_file_failure, new_file_path_error, drop_witness,
}

-- No file stands for the directory of the path: it is the root, no file is known to lie in it, or the
-- one that is known has another path than the directory.
abbrev pub NoFileForDir : Bytes → XipfsPath → Type 0
NoFileForDir m x =
    (is_root x.dirname ≡ true)
    ⊎ ((x.witness ≡ 0) ⊎ (strcmp_eq (file_path m x.witness) x.dirname ≡ false))

module _ (mp : Mount) (fs : List ℕ) (c : Catalogue) (path : Bytes) (size exec : ℕ) (w : World)
    (rep : Represents w.mem mp fs c) (q : IsPath path) (short : q.len < 63)
    (right : (exec ≡ 0) ⊎ (exec ≡ 1)) (fits : size + sizeof_file + nvm_page_size ≤ int_max)
    (aligned : mp.page_addr % nvm_page_size ≡ 0)
    (within : mp.page_addr + mp.page_num * nvm_page_size ≤ flash_end_addr) where
  abbrev cleared : World
  cleared = record w { errno = xipfs_ok }

  -- What the users of the driver see.
  abbrev pub Answers : Nvm → Option Catalogue → Outcome Posix (Unit {0}) → Type 0
  Answers nvm none o = Ensures (λ _ _. ⊥) (λ e u. (e ≡ Posix.edquot) × (u.mem ≡ w.mem)) o
  Answers nvm (some c') o =
      Ensures (λ _ u. Represents u.mem mp (fs ++ ((mp.page_addr + total_of w.mem fs) ∷ [])) c')
        (λ _ _. IsReliable nvm → ⊥) o

  abbrev answer : Outcome (Unit {0}) ℕ → Outcome Posix (Unit {0})
  answer o = elim (created new_file_failure (λ _. o) w) [
    | done a u ↦ done tt u
    | fail e u ↦ fail e u
  ]

  Answers-Created :
      (nvm : Nvm) (r : Option Catalogue) (o : Outcome (Unit {0}) ℕ)
      → Created nvm mp fs cleared r o
      → Answers nvm r (answer o)
  unfolding created
  Answers-Created nvm none (done p u) h = absurd h
  Answers-Created nvm none (fail e u) (same, inl full) = (ap new_file_failure full, same)
  Answers-Created nvm none (fail e u) (same, inr lack) = (ap new_file_failure lack, same)
  Answers-Created nvm (some c') (done p u) (at, h) =
      subst (λ a. Represents u.mem mp (fs ++ (a ∷ [])) c') at h
  Answers-Created nvm (some c') (fail e u) h = h

  -- No file is removed.
  keeps :
      (nvm : Nvm) (infos : ℕ) (x : XipfsPath)
      → NoFileForDir w.mem x
      → (if is_root x.dirname then pure tt else drop_witness nvm infos mp x) cleared
        ≡ done tt cleared
  keeps nvm infos x (inl r) = rw r refl
  keeps nvm infos x (inr z) = elim (Bool-cases (is_root x.dirname)) [
    | inl r ↦ rw r refl
    | inr n ↦
        let none_dropped : (not (x.witness == 0) && strcmp_eq (file_path w.mem x.witness) x.dirname)
            ≡ false =
          ground (arith, z) in
        rw (n, none_dropped) refl
  ]

  -- xipfs_new_file on a mount point that passes its check and whose memory holds a catalogue, with a
  -- clean and coherent buffer, a name that passes the checks of names and is a valid path of 62
  -- characters at most, an execution right of 0 or 1, a size that leaves room for the structure and a
  -- page in an `int` and a mount point on whole pages of the flash, where the name is found to be one that can be
  -- created, does not end in a slash and no file stands for its directory
  -- (`NoFileForDir`): if the free pages suffice,
  -- the memory holds the catalogue with the name at its end and the free pages less those of the
  -- file, unless the device is at fault; if they do not, the error is EDQUOT and the memory is as it
  -- was.
  pub new_file-Represents :
      {nvm : Nvm} (laws : IsNvm nvm) (infos : ℕ) (x : XipfsPath)
      → IsMount mp
      → IsCoherent w
      → w.buffer.state ≢ buffer_dirty
      → check_name Posix.eisdir path w ≡ done tt w
      → lookup_path mp path w ≡ done x cleared
      → x.info ≡ path_creatable
      → x.path (x.len - 1) ≢ b'/'
      → NoFileForDir w.mem x
      → Answers nvm (add_file path size c) (new_file nvm infos (some mp) (some path) size exec w)
  unfolding new_file created
  new_file-Represents {nvm} laws infos x v coherent clean named found free no_slash no_witness =
      let refused : not (exec == 0 || exec == 1) ≡ false = ground (arith, right) in
      let slash : (x.path (x.len - 1) == b'/') ≡ false = ground arith in
      subst (λ o. Answers nvm (add_file path size c) o)
        (sym (
          with_mount-none laws mp _ w v
          ∙ bind_done (check_name Posix.eisdir path w) tt w _ named
          ∙ bind_done (refuse_if (not (exec == 0 || exec == 1)) Posix.einval w) tt w _
              (ap (λ b. refuse_if b Posix.einval w) refused)
          ∙ bind_done (lookup_path mp path w) x cleared _ found
          ∙ bind_done (accept (new_file_path_error x.info) cleared) tt cleared _
              (ap (λ i. accept (new_file_path_error i) cleared) free)
          ∙ bind_done (refuse_if (x.path (x.len - 1) == b'/') Posix.eisdir cleared) tt cleared _
              (ap (λ b. refuse_if b Posix.eisdir cleared) slash)
          ∙ bind_done ((if is_root x.dirname then pure tt else drop_witness nvm infos mp x) cleared)
              tt cleared _ (keeps nvm infos x no_witness)))
        (Answers-Created nvm (add_file path size c) (fs_new_file nvm mp path size exec cleared) (
          fs_new_file-Represents mp path size exec cleared q short right fits aligned within laws
            (record { loaded = coherent.loaded; clean = coherent.clean }) clean fs c rep))
