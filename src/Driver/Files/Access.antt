-- ===== src/Driver/Files/Access.antt =====
-- src/driver.c: the checks of an open file that its functions begin with.
use xipfs.Base.{ℕ, ◌≤◌, ◌<◌, ◌≡◌, ◌≢◌, ◌↔◌, refl, ap, ◌∙◌, arith, true, none, int_max, bit_and-zero}
use xipfs.Posix.{Posix}
use xipfs.State.{World, Mount, Outcome, done, fail, bind_done}
use xipfs.Flash.{Nvm}
use xipfs.Desc.{mount_end, file_desc_tracked}
use xipfs.Driver.Checks.{has, file_desc_error, refuse}
use xipfs.Driver.Files.{checked_desc}

-- The descriptor is there, and refers to a file of the mount point and to a position from 0 on.
pub record IsDesc (mp : Mount) (descp : ℕ) (w : World) : Type 0 where
  pub some_desc : descp ≢ 0
  pub some_file : (w.file_descs descp).filp ≢ 0
  pub in_mount :
      (mp.page_addr ≤ (w.file_descs descp).filp) × ((w.file_descs descp).filp < mount_end mp)
  pub pos : (w.file_descs descp).pos ≤ int_max

-- O_RDONLY is 0, so the test for it holds of all flags.
has_zero : (flags : ℕ) → has flags 0 ≡ true
has_zero flags = let e = bit_and-zero flags flags (omega arith) in ground (arith, e)

module _ (mp : Mount) (descp : ℕ) (w : World) where
  -- xipfs_file_desc_check accepts a descriptor just if it is not null, its file is not null and lies
  -- in the mount point, and its position is not negative. Its flags are never refused.
  pub file_desc_error_iff : (file_desc_error mp descp w ≡ none) ↔ IsDesc mp descp w
  unfolding file_desc_error
  file_desc_error_iff =
      let h = has_zero (w.file_descs descp).flags in
      (
        λ x. ground (arith, h, x),
        λ v. ground (arith, h, v.some_desc, v.some_file, v.in_mount, v.pos),
      )

  -- The checks pass for a descriptor that is tracked.
  pub checked_desc-IsDesc :
      (nvm : Nvm) (infos : ℕ) (untracked : Posix → Posix)
      → IsDesc mp descp w
      → file_desc_tracked descp w ≡ done tt w
      → checked_desc nvm infos mp descp untracked w ≡ done tt w
  checked_desc-IsDesc nvm infos untracked v t =
      bind_done (refuse (file_desc_error mp descp) w) tt w _ passed
      ∙ ap
          (λ o. elim o as (λ _. Outcome Posix (Unit {0})) [
            | done _ u ↦ done tt u
            | fail e u ↦ fail (untracked e) u
          ])
          t
    where
      passed : refuse (file_desc_error mp descp) w ≡ done tt w
      passed = let e = file_desc_error_iff.1 v in rw (e, refuse) refl
