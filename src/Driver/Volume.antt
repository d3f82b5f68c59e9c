-- ===== src/Driver/Volume.antt =====
-- src/driver.c: the functions on a mounted file system, xipfs_format, xipfs_mount, xipfs_umount and
-- xipfs_statvfs.
pub mod Check
pub mod Mounts
pub mod Formats
pub mod Stats
mod Tests
use xipfs.Base.{
  ℕ, zero, suc, ◌+◌, ◌-◌, ◌/◌, Bool, true, false, not, Option, none, some, Bytes, read_32, int_max,
  ltb, ◌==◌, if◌then◌else◌,
}
use xipfs.Errno.{xipfs_ok}
use xipfs.Posix
use xipfs.Posix.{Posix}
use xipfs.State.{World, Mount, done, fail, M, pure, refuse_if, or_fail, set_errno, ◌>>=◌, ◌>>◌}
use xipfs.Flash.{Nvm, nvm_page_size, flash_erase_state}
use xipfs.Desc.{mount_end, desc_untrack_all}
use xipfs.File.{path_max}
use xipfs.Fs.{Lookup, fs_tail, fs_tail_next, is_ok, fs_format, fs_free_pages, fs_get_page_number}
use xipfs.Driver.Checks.{with_mount}

-- The fields of `struct xipfs_statvfs` that are set.
pub record Statvfs : Type 0 where
  pub f_bsize : ℕ
  pub f_frsize : ℕ
  pub f_blocks : ℕ
  pub f_bfree : ℕ
  pub f_bavail : ℕ
  pub f_flag : ℕ
  pub f_namemax : ℕ

-- ST_NOSUID
abbrev pub st_nosuid : ℕ
st_nosuid = 2

-- A null pointer, which is 0, is an error only where `xipfs_errno` is set.
abbrev pub or_null : Lookup → M Posix ℕ
or_null l w =
    let (o, u) = l w in
    elim o [ some p ↦ done p u | none ↦ if is_ok u.errno then done 0 u else fail Posix.eio u ]

-- The loop of xipfs_mount: whether the `k` words from the address `a` on are erased.
unfoldable pub erased_words : ℕ → Bytes → ℕ → Bool
erased_words zero m a = true
erased_words (suc k) m a =
    let rest = erased_words k m (a + 4) in if read_32 m a == flash_erase_state then rest else false

module _ (nvm : Nvm) where
  unfoldable pub mount : Option Mount → M Posix (Unit {0})
  unfolding erased_words
  mount omp = with_mount nvm omp λ mp. do
    set_errno xipfs_ok
    t ← or_null (fs_tail mp)
    start ← or_null (fs_tail_next mp)
    λ w. refuse_if (not (erased_words ((mount_end mp + 3 - start) / 4) w.mem start)) Posix.eio w

  unfoldable pub statvfs : Option Mount → Bool → M Posix Statvfs
  statvfs omp has_buf = with_mount nvm omp λ mp. do
    refuse_if (not has_buf) Posix.efault
    refuse_if (ltb int_max (fs_get_page_number mp)) Posix.eio
    free_pages ← or_fail Posix.eio (fs_free_pages mp)
    pure (record {
      f_bsize = nvm_page_size;
      f_frsize = nvm_page_size;
      f_blocks = fs_get_page_number mp;
      f_bfree = free_pages;
      f_bavail = free_pages;
      f_flag = st_nosuid;
      f_namemax = path_max;
    })

module _ (nvm : Nvm) (infos : ℕ) where
  unfoldable pub format : Option Mount → M Posix (Unit {0})
  format omp =
      with_mount nvm omp λ mp. or_fail Posix.eio (fs_format nvm mp) >> desc_untrack_all infos mp

  unfoldable pub umount : Option Mount → M Posix (Unit {0})
  umount omp = with_mount nvm omp λ mp. desc_untrack_all infos mp
