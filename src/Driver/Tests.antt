-- ===== src/Driver/Tests.antt =====
-- An example for the check before a start: the file "/b" of Fs/Sample.antt, which has the execution
-- right, with the magic number of a relocatable binary as its only word.
use xipfs.Base.{
  ℕ, zero, suc, ◌+◌, ◌*◌, ◌≤◌, ◌<◌, ◌≡◌, ◌≢◌, refl, ap, arith, Bool, true, false, inl, inr, ◌∙◌,
  some, Bytes, of_list, overlay, overlay-outside, byte_of, read_32, strncmp_eq, [], ◌∷◌,
}
use xipfs.Posix.{Posix}
use xipfs.Errno.{Errno}
use xipfs.State.{World, Outcome, done, fail, Ensures}
use xipfs.Flash.{flash_erase_state}
use xipfs.Flash.Device.{device, device-IsNvm}
use xipfs.Buffer.View.{view}
use xipfs.Desc.Table.{IsTable}
use xipfs.File.{filp_error, path_max}
use xipfs.File.Check.{filp_error_iff}
use xipfs.File.Sizes.{HasSlots, size_of, slot_value}
use xipfs.Fs.{new_header}
use xipfs.Fs.Sample.{two_files, world}
use xipfs.Path.{XipfsPath, path_init, path_exists_as_file}
use xipfs.Driver.Sample.{mount_point, mount_point-IsMount}
use xipfs.Driver.Checks.{lookup_path, basename}
use xipfs.Driver.Files.{infos_name}
use xipfs.Driver.Files.Ready.{IsStored, IsReady, last_pos}
use xipfs.Driver.Exec.{crt0_magic, execv_check}
use xipfs.Driver.Exec.Safe.{IsStartable, execv_check_lem}

abbrev startable : World
startable = record world {
  mem = overlay (overlay two_files 45128 (byte_of 4) 4) 45476 (byte_of crt0_magic) 4;
}

abbrev name : Bytes
name = of_list (b'/' ∷ b'b' ∷ [])

abbrev succeeds : Outcome Posix XipfsPath → Bool
succeeds (done x u) = true
succeeds (fail e u) = false

starts :
    succeeds (
      execv_check device 0
        (λ _. 0)
        (λ _. 0)
        7
        (some mount_point)
        (some name)
        false
        (some (λ i. i + 1))
        startable)
    ≡ true
unfolding execv_check xipfs.Driver.Checks.with_mount xipfs.Driver.Checks.mp_error
    xipfs.Flash.flash_in xipfs.Base.strnlen xipfs.Driver.Checks.lookup_path xipfs.Path.path_new
    xipfs.Fs.fs_head xipfs.Base.read_32 xipfs.Fs.new_header byte_of xipfs.File.filp_error
    xipfs.Flash.flash_page_aligned xipfs.File.link_error xipfs.File.path_error xipfs.File.path_loop
    xipfs.File.path_charset_check xipfs.Path.identify_all xipfs.Path.identify xipfs.Path.path_init
    xipfs.Path.exists_as_file xipfs.Path.exists_as_empty_dir xipfs.Path.exists_as_nonempty_dir
    xipfs.Path.invalid_because_not_dirs xipfs.Path.creatable xipfs.Base.strncmp_eq xipfs.Fs.fs_next
    xipfs.Driver.Files.open_ xipfs.Driver.Files.flags_refused xipfs.Driver.Files.open_path
    xipfs.Desc.file_desc_track xipfs.Desc.track_loop xipfs.Driver.Files.lseek
    xipfs.Driver.Checks.file_desc_error xipfs.Desc.file_desc_tracked xipfs.Desc.find_loop
    xipfs.Driver.Files.limits xipfs.File.file_get_max_pos xipfs.File.file_get_size
    xipfs.File.file_get_size_raw xipfs.Buffer.buffer_read_32 xipfs.Buffer.buffer_read
    xipfs.Buffer.read_loop xipfs.Buffer.buffer_enter xipfs.Buffer.buffer_load
    xipfs.Buffer.buffer_page_changed xipfs.Driver.Files.seek xipfs.Driver.Files.read
    xipfs.File.file_read_8 xipfs.Buffer.buffer_read_8 xipfs.Driver.Files.close
    xipfs.Desc.file_desc_untrack
starts = refl

is_stored : IsStored startable.mem 45056
unfolding filp_error new_header xipfs.Flash.flash_page_aligned xipfs.Flash.flash_in read_32 byte_of
    xipfs.File.link_error xipfs.File.path_error xipfs.File.path_loop xipfs.File.path_charset_check
    xipfs.Base.strnlen
is_stored = record { file = (filp_error_iff startable.mem 45056).0 refl; roomy = omega arith }

is_ready : IsReady startable.mem 45056 is_stored startable
unfolding view
is_ready = record {
  coherent = record { loaded = λ h. cc; clean = λ h. cc };
  shown = λ a s. refl;
  held = λ a s. refl;
}

no_table : IsTable startable.open_desc
no_table = record {
  unique = λ i j li lj e n. absurd (n refl);
  free = λ i li e. refl;
  used = λ i li e. refl;
}

-- The slots behind the first one are erased.
blank_two : (b : ℕ) → 45128 ≤ b → b < 45472 → two_files b ≡ 255
unfolding new_header
blank_two b le lt = ground arith

blank : (b : ℕ) → 45132 ≤ b → b < 45472 → startable.mem b ≡ 255
blank b le lt =
    overlay-outside (overlay two_files 45128 (byte_of 4) 4) (byte_of crt0_magic) 45476 4 b
      (inl (omega arith))
    ∙ overlay-outside two_files (byte_of 4) 45128 4 b (inr (omega arith))
    ∙ blank_two b (omega arith) lt

blank_slot : (j : ℕ) → 1 ≤ j → j < 86 → slot_value startable.mem 45056 j ≡ flash_erase_state
unfolding read_32
blank_slot j le lt = omega (
  arith,
  blank (45128 + 4 * j) (omega arith) (omega arith),
  blank (45128 + 4 * j + 1) (omega arith) (omega arith),
  blank (45128 + 4 * j + 2) (omega arith) (omega arith),
  blank (45128 + 4 * j + 3) (omega arith) (omega arith),
)

four_bytes : size_of (view startable) 45056 1 ≡ 4
unfolding view read_32 byte_of
four_bytes = refl

one_slot : HasSlots (view startable) 45056 1
unfolding view
one_slot = record {
  used = λ j lt e.
      let at = ap (slot_value startable.mem 45056) {x = j} {y = 0} (omega arith) in
      omega (arith, at, e, four_bytes);
  free = λ j le lt. blank_slot j le lt;
  most = omega arith;
}

max_pos_bytes : last_pos startable.mem 45056 ≡ 3676
unfolding new_header read_32 byte_of
max_pos_bytes = refl

abbrev path_of : Outcome Posix XipfsPath → XipfsPath → XipfsPath
path_of (done x u) y = x
path_of (fail e u) y = y

abbrev errno_of : Outcome Posix XipfsPath → Errno
errno_of (done x u) = u.errno
errno_of (fail e u) = u.errno

abbrev found : XipfsPath
found = path_of (lookup_path mount_point name startable) (path_init name)

lookup :
    (e : Errno)
    → (e' : Errno) × (lookup_path mount_point name (record startable { errno = e })
        ≡ done found (record startable { errno = e' }))
unfolding lookup_path xipfs.Path.path_new xipfs.Fs.fs_head read_32 new_header byte_of filp_error
    xipfs.Flash.flash_page_aligned xipfs.Flash.flash_in xipfs.File.link_error xipfs.File.path_error
    xipfs.File.path_loop xipfs.File.path_charset_check xipfs.Base.strnlen xipfs.Path.identify_all
    xipfs.Path.identify path_init xipfs.Path.exists_as_file xipfs.Path.exists_as_empty_dir
    xipfs.Path.exists_as_nonempty_dir xipfs.Path.invalid_because_not_dirs xipfs.Path.creatable
    xipfs.Base.strncmp_eq xipfs.Fs.fs_next
lookup e = (errno_of (lookup_path mount_point name startable), refl)

other_name : strncmp_eq (basename name) infos_name path_max ≡ false
unfolding basename xipfs.Base.strnlen strncmp_eq xipfs.Driver.Checks.back_to_slash
other_name = refl

is_found : found.info ≡ path_exists_as_file
unfolding lookup_path xipfs.Path.path_new xipfs.Fs.fs_head read_32 new_header byte_of filp_error
    xipfs.Flash.flash_page_aligned xipfs.Flash.flash_in xipfs.File.link_error xipfs.File.path_error
    xipfs.File.path_loop xipfs.File.path_charset_check xipfs.Base.strnlen xipfs.Path.identify_all
    xipfs.Path.identify path_init xipfs.Path.exists_as_file xipfs.Path.exists_as_empty_dir
    xipfs.Path.exists_as_nonempty_dir xipfs.Path.invalid_because_not_dirs xipfs.Path.creatable
    xipfs.Base.strncmp_eq xipfs.Fs.fs_next
is_found = refl

at_file : found.witness ≡ 45056
unfolding lookup_path xipfs.Path.path_new xipfs.Fs.fs_head read_32 new_header byte_of filp_error
    xipfs.Flash.flash_page_aligned xipfs.Flash.flash_in xipfs.File.link_error xipfs.File.path_error
    xipfs.File.path_loop xipfs.File.path_charset_check xipfs.Base.strnlen xipfs.Path.identify_all
    xipfs.Path.identify path_init xipfs.Path.exists_as_file xipfs.Path.exists_as_empty_dir
    xipfs.Path.exists_as_nonempty_dir xipfs.Path.invalid_because_not_dirs xipfs.Path.creatable
    xipfs.Base.strncmp_eq xipfs.Fs.fs_next
at_file = refl

execv_check_lem_example :
    Ensures
      (λ y _. (y ≡ found) × IsStartable 45056 1 startable (λ i. i + 1))
      (λ _ _. Unit {0})
      (execv_check device 0
        (λ _. 0)
        (λ _. 0)
        7
        (some mount_point)
        (some name)
        false
        (some (λ i. i + 1))
        startable)
execv_check_lem_example =
    execv_check_lem device-IsNvm 0 startable.mem 45056 is_stored 7 mount_point mount_point-IsMount
      name 1 startable (λ i. i + 1) (omega (arith, four_bytes))
      (omega (arith, four_bytes, max_pos_bytes)) one_slot (λ h. omega (arith, h))
      (omega arith, omega arith) (λ h. omega (arith, h)) no_table is_ready other_name found lookup
      is_found at_file (λ _. 0) (λ _. 0) false
