-- ===== src/Fs/Format.antt =====
-- xipfs_fs_format: the pages of the mount point are erased, and no others.
use xipfs.Base.{
  ℕ, zero, suc, ◌+◌, ◌-◌, ◌*◌, ◌/◌, ◌%◌, ◌≤◌, ◌<◌, ◌≡◌, ◌⊎◌, inl, inr, refl, ◌∙◌, ap, sym, arith,
  Bool-cases, u32_mod, u32,
}
use xipfs.Errno.{envmc}
use xipfs.State.{World, Mount, Ensures, Ensures-bind, Ensures-mono}
use xipfs.Flash.{Nvm, nvm_page_size, nvm_erase_state, flash_erase_page}
use xipfs.Flash.Laws.{IsNvm}
use xipfs.Flash.Erase.{flash_erase_page_lem, flash_erase_page_ok, flash_erase_page_outside}
use xipfs.Buffer.View.{IsReliable}
use xipfs.File.{erase_page}
use xipfs.Fs.{format_loop, fs_format}

-- The bytes of the `k` pages from `page` on are erased, and all others are as before.
pub record PagesErased (page k : ℕ) (w u : World) : Type 0 where
  pub inside :
      (a : ℕ) → page ≤ a / nvm_page_size → a / nvm_page_size < page + k → u.mem a ≡ nvm_erase_state
  pub outside :
      (a : ℕ) → (a / nvm_page_size < page) ⊎ (page + k ≤ a / nvm_page_size) → u.mem a ≡ w.mem a
  pub same_errno : u.errno ≡ w.errno

-- An erase that failed: the error number says so, the device is at fault, and nothing outside of the
-- pages changed.
pub record EraseFailed (nvm : Nvm) (page k : ℕ) (w u : World) : Type 0 where
  pub unharmed :
      (a : ℕ) → (a / nvm_page_size < page) ⊎ (page + k ≤ a / nvm_page_size) → u.mem a ≡ w.mem a
  pub error : u.errno ≡ envmc
  pub at_fault : IsReliable nvm → ⊥

module _ {nvm : Nvm} (laws : IsNvm nvm) where
  erase_page-PagesErased :
      (page : ℕ) (w : World)
      → Ensures
          (λ _ u. PagesErased page 1 w u)
          (λ _ u. EraseFailed nvm page 1 w u)
          (erase_page nvm page w)
  unfolding erase_page
  erase_page-PagesErased page w = elim (Bool-cases (flash_erase_page nvm page w.mem).0) [
    | inl ok ↦ rw ok (record {
      inside = λ a le lt.
          let e : page * nvm_page_size + a % nvm_page_size ≡ a = omega arith in
          let h = (flash_erase_page_lem laws page w.mem).0 ok (a % nvm_page_size) (omega arith) in
          ap (flash_erase_page nvm page w.mem).1 (sym e) ∙ h;
      outside = λ a o. flash_erase_page_outside laws page w.mem a (λ e. omega (arith, o, e));
      same_errno = refl;
    })
    | inr bad ↦ rw bad (record {
      unharmed = λ a o. flash_erase_page_outside laws page w.mem a (λ e. omega (arith, o, e));
      error = refl;
      at_fault = λ rel.
          let h = flash_erase_page_ok laws page w.mem (λ j lj. rel.erases page w.mem j lj) in cc;
    })
  ]

  format_loop-PagesErased :
      (k page : ℕ) (w : World)
      → Ensures
          (λ _ u. PagesErased page k w u)
          (λ _ u. EraseFailed nvm page k w u)
          (format_loop nvm k page w)
  unfolding format_loop
  format_loop-PagesErased zero page w = record {
    inside = λ a le lt. absurd (omega arith);
    outside = λ a o. refl;
    same_errno = refl;
  }
  format_loop-PagesErased (suc k) page w =
      Ensures-bind _ _ (erase_page nvm page w) (λ _. format_loop nvm k (page + 1))
        (erase_page-PagesErased page w)
        (λ _ u p.
          Ensures-mono {P' = λ _ v. PagesErased page (suc k) w v}
            {Q' = λ _ v. EraseFailed nvm page (suc k) w v} (format_loop nvm k (page + 1) u)
            (format_loop-PagesErased k (page + 1) u)
            (λ _ v q. record {
              inside = λ a le lt. ground (arith, q.inside a, q.outside a, p.inside a);
              outside = λ a o. ground (arith, o, q.outside a, p.outside a);
              same_errno = q.same_errno ∙ p.same_errno;
            })
            (λ _ v q. record {
              unharmed = λ a o. ground (arith, o, q.unharmed a, p.outside a);
              error = q.error;
              at_fault = q.at_fault;
            }))
        (λ _ u f. record {
          unharmed = λ a o. f.unharmed a (ground (arith, o));
          error = f.error;
          at_fault = f.at_fault;
        })

  -- For a mount point on whole pages whose end is an address, xipfs_fs_format erases every byte of
  -- its pages and no other; if it fails, the error number is XIPFS_ENVMC, the device is at fault,
  -- and nothing outside of the mount point has changed.
  pub fs_format_lem :
      (mp : Mount) (w : World)
      → mp.page_addr % nvm_page_size ≡ 0
      → mp.page_addr + mp.page_num * nvm_page_size < u32_mod
      → Ensures
          (λ _ u. PagesErased (mp.page_addr / nvm_page_size) mp.page_num w u)
          (λ _ u. EraseFailed nvm (mp.page_addr / nvm_page_size) mp.page_num w u)
          (fs_format nvm mp w)
  unfolding fs_format
  fs_format_lem mp w al fits =
      let start : nvm.nvm_page mp.page_addr ≡ mp.page_addr / nvm_page_size =
        laws.page_lem mp.page_addr in
      let count : nvm.nvm_page (u32 (mp.page_addr + u32 (mp.page_num * nvm_page_size)))
            - mp.page_addr / nvm_page_size
          ≡ mp.page_num =
        omega (arith, laws.page_lem (u32 (mp.page_addr + u32 (mp.page_num * nvm_page_size)))) in
      rw (start, count) (format_loop-PagesErased mp.page_num (mp.page_addr / nvm_page_size) w)
