-- ===== src/Driver/Volume/Check.antt =====
-- src/driver.c: xipfs_mp_check, and the state in which every function is called.
use xipfs.Base.{◌+◌, ◌/◌, ◌≤◌, ◌≡◌, ◌≢◌, ◌↔◌, ap, arith, false, none, some}
use xipfs.Posix.{Posix}
use xipfs.State.{World, Mount, M, throw}
use xipfs.Flash.{Nvm, nvm_page_size, nvm_numof, flash_in, flash_end_addr}
use xipfs.Flash.Laws.{IsNvm}
use xipfs.Driver.Checks.{xipfs_magic, no_mount_path, mp_error, with_mount}

-- A mount point as the functions of the driver require it: its pages are pages of the flash.
pub record IsMount (mp : Mount) : Type 0 where
  pub magic : mp.magic ≡ xipfs_magic
  pub mount_path : no_mount_path mp.mount_path ≡ false
  pub some_page : mp.page_num ≢ 0
  pub in_flash : mp.page_addr / nvm_page_size + mp.page_num ≤ nvm_numof
  pub mutexes : (mp.mutex ≢ 0) × (mp.execution_mutex ≢ 0)

module _ {nvm : Nvm} (laws : IsNvm nvm) (mp : Mount) where
  -- xipfs_mp_check accepts a mount point just if its magic number, path and mutexes are set, and it
  -- has pages, all of which lie in the flash.
  pub mp_error_iff : (mp_error nvm mp ≡ none) ↔ IsMount mp
  unfolding mp_error flash_in flash_end_addr
  mp_error_iff = (
    λ h. ground (arith, h, laws.page_lem mp.page_addr),
    λ v. ground (
      arith,
      v.magic,
      v.mount_path,
      v.some_page,
      v.in_flash,
      v.mutexes,
      laws.page_lem mp.page_addr,
    ),
  )

  pub with_mount-none :
      {A : Type 0} (k : Mount → M Posix A) (w : World)
      → IsMount mp
      → with_mount nvm (some mp) k w ≡ k mp w
  unfolding with_mount
  with_mount-none k w v =
      let e = mp_error_iff.1 v in
      ap (λ r. (elim r as (λ _. M Posix _) [ some e ↦ throw e | none ↦ k mp ]) w) e
