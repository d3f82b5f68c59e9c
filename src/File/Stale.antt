-- ===== src/File/Stale.antt =====
-- The erase of a page by src/file.c and src/fs.c, and the I/O buffer.
use xipfs.Base.{ℕ, ◌<◌, ◌≡◌, ◌≢◌, ◌∙◌, inl, inr, Bool-cases}
use xipfs.State.{World, Ensures, buffer_ok}
use xipfs.Flash.{Nvm, nvm_page_size, nvm_erase_state, flash_erase_page}
use xipfs.Flash.Laws.{IsNvm}
use xipfs.Flash.Erase.{flash_erase_page_lem, flash_erase_page_ok}
use xipfs.Buffer.View.{IsCoherent, IsReliable}
use xipfs.File.{erase_page}

-- Erasing the page that the buffer holds, in the state XIPFS_BUFFER_OK and with some byte that is
-- not erased, leaves a buffer that is no copy of the flash: the erase does not discard it. If the
-- erase fails, the device is at fault.
pub erase_page-IsCoherent :
    {nvm : Nvm} (laws : IsNvm nvm) (w : World) (i : ℕ)
    → w.buffer.state ≡ buffer_ok
    → i < nvm_page_size
    → w.buffer.buf i ≢ nvm_erase_state
    → Ensures
        (λ _ w'. (IsCoherent w' → ⊥))
        (λ _ _. IsReliable nvm → ⊥)
        (erase_page nvm w.buffer.page_num w)
unfolding erase_page
erase_page-IsCoherent {nvm} laws w i s lt ne =
    elim (Bool-cases (flash_erase_page nvm w.buffer.page_num w.mem).0) [
      | inl ok ↦ rw ok (λ c.
          let erased = (flash_erase_page_lem laws w.buffer.page_num w.mem).0 ok in
          ne (c.clean s i lt ∙ erased i lt))
      | inr bad ↦ rw bad (λ rel.
          let h =
            flash_erase_page_ok laws w.buffer.page_num w.mem
              (λ j lj. rel.erases w.buffer.page_num w.mem j lj) in
          cc)
    ]
