-- ===== src/File/Sizes/RoundTrip.antt =====
-- xipfs_file_set_size, and then xipfs_file_get_size.
use xipfs.Base.{ℕ, ◌+◌, ◌≤◌, ◌<◌, ◌≡◌, ◌⊎◌, inl, inr, ◌∙◌, arith, int_max}
use xipfs.State.{World, Ensures, Ensures-bind, Ensures-mono, bind_done, ◌>>◌}
use xipfs.Flash.{Nvm}
use xipfs.Flash.Laws.{IsNvm}
use xipfs.Buffer.View.{view, IsCoherent, IsReliable}
use xipfs.File.{file_reserved, file_filp_check, file_get_size_raw, file_get_size, file_set_size}
use xipfs.File.Check.{IsFile, file_filp_check-IsFile}
use xipfs.File.Same.{same-IsFile}
use xipfs.File.Sizes.{HasSlots}
use xipfs.File.Sizes.Get.{file_get_size_raw_lem}
use xipfs.File.Sizes.Set.{Resized, file_set_size_lem}

-- The buffer holds no change to the fields of the file that has not reached the flash.
abbrev pub FieldsWritten : World → ℕ → Type 0
FieldsWritten w filp =
    (i : ℕ) → (i < 72) ⊎ ((416 ≤ i) × (i < 420)) → view w (filp + i) ≡ w.mem (filp + i)

module _ {nvm : Nvm} (laws : IsNvm nvm) (filp size : ℕ) (le : size ≤ int_max) (w : World)
    (f : IsFile w.mem filp) (fields : FieldsWritten w filp) where
  -- The file passes the check after its size was set.
  Resized-IsFile : (u : World) → Resized laws filp size w u → IsFile u.mem filp
  Resized-IsFile u r =
      same-IsFile w.mem u.mem filp
        (λ i o. r.flash (filp + i) ∙ r.outside (filp + i) (ground (arith, o)) ∙ fields i o) f

  get_size :
      (u : World)
      → Resized laws filp size w u
      → Ensures (λ x _. x ≡ size) (λ _ _. IsReliable nvm → ⊥) (file_get_size nvm filp u)
  unfolding file_get_size
  get_size u r =
      let (n, h, e) = r.slots in
      rw
        (bind_done (file_filp_check filp u) tt u (λ _. file_get_size_raw nvm filp)
          (file_filp_check-IsFile filp u (Resized-IsFile u r)))
        (Ensures-mono {P' = λ x _. x ≡ size} {Q' = λ _ _. IsReliable nvm → ⊥}
          (file_get_size_raw nvm filp u) (file_get_size_raw_lem laws filp n u r.coherent h)
          (λ x v (k, g). g ∙ e)
          (λ _ v o. elim o [ inl g ↦ g.at_fault | inr (k, g) ↦ absurd (omega (arith, g, e, le)) ]))

  -- On a file that passes the check, whose fields have reached the flash and whose slots in use come
  -- first, with a coherent buffer and a size from 0 to the reserved size: the size that
  -- xipfs_file_get_size returns after xipfs_file_set_size is the one that was set. If one of the two
  -- fails, the device is at fault.
  pub file_set_size-file_get_size :
      (n : ℕ)
      → IsCoherent w
      → HasSlots (view w) filp n
      → size ≤ file_reserved w.mem filp
      → Ensures
          (λ x _. x ≡ size)
          (λ _ _. IsReliable nvm → ⊥)
          ((file_set_size nvm filp size >> file_get_size nvm filp) w)
  file_set_size-file_get_size n c h fit =
      Ensures-bind _ _ (file_set_size nvm filp size w) (λ _. file_get_size nvm filp)
        (file_set_size_lem laws filp size le n w c f h fit) (λ _ u r. get_size u r) (λ _ u f. f)
