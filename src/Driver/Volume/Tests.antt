-- ===== src/Driver/Volume/Tests.antt =====
-- Examples for the functions on a mounted file system.
use xipfs.Base.{◌≡◌, ◌↔◌, ltb, if◌then◌else◌, none, some, true, arith, [], ◌∷◌}
use xipfs.Errno.{xipfs_ok}
use xipfs.Posix.{Posix}
use xipfs.State.{World, done, fail, Ensures}
use xipfs.Flash.Device.{device, device-IsNvm}
use xipfs.Buffer.View.{IsReliable}
use xipfs.Fs.Sample.{two_files, two_files-HasFiles, world}
use xipfs.Driver.Checks.{mp_error}
use xipfs.Fs.{new_header}
use xipfs.Driver.Sample.{mount_point, mount_point-IsMount, two_files-IsBytes}
use xipfs.Driver.Volume.{format, mount, umount, statvfs}
use xipfs.Driver.Volume.Check.{IsMount, mp_error_iff}
use xipfs.Driver.Volume.Mounts.{Mounts, mount-HasFiles}
use xipfs.Driver.Volume.Formats.{AllClosed, Formatted, SameOutside, umount_lem, format_lem}
use xipfs.Driver.Volume.Stats.{used_pages, counted, statvfs-HasFiles}

mp_error_iff_example : (mp_error device mount_point ≡ none) ↔ IsMount mount_point
mp_error_iff_example = mp_error_iff device-IsNvm mount_point

mount-HasFiles_example :
    Mounts world mount_point (45056 ∷ []) (mount device (some mount_point) world)
mount-HasFiles_example =
    mount-HasFiles world mount_point (45056 ∷ []) device-IsNvm mount_point-IsMount
      two_files-HasFiles two_files-IsBytes (omega arith)

format_lem_example :
    Ensures
      (λ _ u. Formatted 0 mount_point device-IsNvm world mount_point-IsMount u)
      (λ e u.
        (e ≡ Posix.eio)
        × (IsReliable device → ⊥)
        × SameOutside 0 mount_point device-IsNvm world mount_point-IsMount u)
      (format device 0 (some mount_point) world)
format_lem_example = format_lem 0 mount_point device-IsNvm world mount_point-IsMount (omega arith)

umount_lem_example :
    (w' : World) × (umount device 0 (some mount_point) world ≡ done tt w')
    × AllClosed 0 mount_point w'
    × (w'.mem ≡ two_files)
umount_lem_example = umount_lem 0 mount_point device-IsNvm world mount_point-IsMount

statvfs-HasFiles_example : statvfs device (some mount_point) true world ≡ (
    if ltb 8 (used_pages world mount_point (45056 ∷ []))
    then fail Posix.eio (record world { errno = xipfs_ok })
    else done (counted world mount_point (45056 ∷ [])) (record world { errno = xipfs_ok }))
unfolding new_header xipfs.Base.read_32 xipfs.Base.byte_of
statvfs-HasFiles_example =
    statvfs-HasFiles world mount_point (45056 ∷ []) device-IsNvm mount_point-IsMount
      two_files-HasFiles (omega arith)
