-- ===== src/Driver/Volume/Stats.antt =====
-- src/driver.c: xipfs_statvfs counts the pages of the mount point.
use xipfs.Base.{
  ℕ, ◌≤◌, ◌-◌, ◌/◌, ◌≡◌, inl, inr, refl, ap, ◌∙◌, arith, true, false, ltb, if◌then◌else◌,
  Bool-cases, some, List, int_max,
}
use xipfs.Errno.{xipfs_ok}
use xipfs.Posix.{Posix}
use xipfs.State.{World, Mount, Outcome, done, fail, bind_done, refuse_if, or_fail, pure, ◌>>=◌}
use xipfs.Flash.{Nvm, nvm_page_size}
use xipfs.Flash.Laws.{IsNvm}
use xipfs.Fs.{fs_get_page_number}
use xipfs.Fs.Tail.{HasFiles, total_reserved, fs_free_pages_lem}
use xipfs.Driver.Volume.{Statvfs, statvfs}
use xipfs.Driver.Volume.Check.{IsMount, with_mount-none}

module _ (w : World) (mp : Mount) (l : List ℕ) where
  abbrev pub used_pages : ℕ
  used_pages = total_reserved w.mem mp.page_addr l / nvm_page_size

  abbrev cleared : World
  cleared = record w { errno = xipfs_ok }

  abbrev pub counted : Statvfs
  counted = record {
    f_bsize = 4096;
    f_frsize = 4096;
    f_blocks = mp.page_num;
    f_bfree = mp.page_num - used_pages;
    f_bavail = mp.page_num - used_pages;
    f_flag = 2;
    f_namemax = 64;
  }

  abbrev reported : Outcome (Unit {0}) ℕ → Outcome Posix Statvfs
  reported o =
      (or_fail Posix.eio (λ _. o) >>= λ n. pure (record counted { f_bfree = n; f_bavail = n })) w

  module _ {nvm : Nvm} (laws : IsNvm nvm) where
    -- For a mount point that xipfs_mp_check accepts and whose files form a list in the flash, with
    -- reserved sizes that an `int` can add up, xipfs_statvfs with a buffer reports all pages as the blocks and the pages that no file has
    -- reserved as the free ones; it fails with -EIO if the files have reserved more pages than there
    -- are. The memory stays as it was.
    pub statvfs-HasFiles :
        IsMount mp
        → HasFiles w.mem mp l
        → total_reserved w.mem mp.page_addr l ≤ int_max
        → statvfs nvm (some mp) true w
          ≡ (if ltb mp.page_num used_pages then fail Posix.eio cleared else done counted cleared)
    unfolding statvfs fs_get_page_number
    statvfs-HasFiles v files sum =
        let small : ltb int_max mp.page_num ≡ false = ground (arith, v.in_flash) in
        let pages = fs_free_pages_lem w mp l files (omega (arith, v.in_flash)) sum in
        with_mount-none laws mp _ w v
        ∙ bind_done (refuse_if (ltb int_max mp.page_num) Posix.eio w) tt w _
            (ap (λ b. refuse_if b Posix.eio w) small)
        ∙ ap reported pages
        ∙ elim (Bool-cases (ltb mp.page_num used_pages)) [ inl e ↦ rw e refl | inr e ↦ rw e refl ]
