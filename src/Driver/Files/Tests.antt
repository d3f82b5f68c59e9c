-- ===== src/Driver/Files/Tests.antt =====
-- Examples for the functions on open files: the file "/a" of Fs/Sample.antt, open at its first byte
-- for reading and writing through the descriptor at the address 1.
use xipfs.Base.{
  ℕ, zero, suc, ◌+◌, ◌≤◌, ◌<◌, ◌≡◌, ◌≢◌, ◌⊎◌, ◌↔◌, refl, arith, negsuc, none, some, true, Bytes,
  overlay, overlay-outside, inl, inr, ap, ◌∙◌, ◌*◌, read_32, read_32-byte_of, of_list, [], ◌∷◌,
  byte_of,
}
use xipfs.Posix.{Posix}
use xipfs.State.{World, done, Ensures, ◌>>◌, DescEntry, desc_file, desc_free}
use xipfs.Flash.{flash_erase_state}
use xipfs.Flash.Device.{device, device-IsNvm}
use xipfs.Buffer.View.{view, IsReliable}
use xipfs.Desc.{file_desc_tracked}
use xipfs.File.{filp_error}
use xipfs.File.Check.{filp_error_iff}
use xipfs.File.Sizes.{HasSlots, size_of, slot_value}
use xipfs.File.{file_set_size, file_get_size}
use xipfs.File.Sizes.RoundTrip.{FieldsWritten, file_set_size-file_get_size}
use xipfs.Fs.{new_header}
use xipfs.Fs.Sample.{two_files, world}
use xipfs.Driver.Checks.{file_desc_error}
use xipfs.Driver.Sample.{mount_point, mount_point-IsMount}
use xipfs.Driver.Files.{write, read, lseek}
use xipfs.Driver.Files.Access.{IsDesc, file_desc_error_iff}
use xipfs.Driver.Files.Ready.{IsStored, IsReady, last_pos}
use xipfs.Driver.Files.Write.{Written, Refused, write_lem}
use xipfs.Driver.Files.Read.{HasRead, read_lem}
use xipfs.Driver.Files.Seek.{Sought, Lost, lseek_lem}

abbrev one_entry : ℕ → DescEntry
one_entry zero = record { type = desc_file; addr = 1 }
one_entry (suc i) = record { type = desc_free; addr = 0 }

-- The file with the two bytes "hi" and their number in its first slot.
abbrev sized : Bytes
sized = overlay (overlay two_files 41032 (byte_of 2) 4) 41380 (of_list (b'h' ∷ b'i' ∷ [])) 2

abbrev opened : World
opened = record world {
  mem = sized;
  open_desc = one_entry;
  file_descs = λ _. record { filp = 40960; pos = 0; flags = 2 };
}

opened-IsDesc : IsDesc mount_point 1 opened
opened-IsDesc = record {
  some_desc = λ h. omega (arith, h);
  some_file = λ h. omega (arith, h);
  in_mount = (omega arith, omega arith);
  pos = omega arith;
}

is_tracked : file_desc_tracked 1 opened ≡ done tt opened
unfolding file_desc_tracked xipfs.Desc.find_loop
is_tracked = refl

is_stored : IsStored sized 40960
unfolding filp_error new_header xipfs.Flash.flash_page_aligned xipfs.Flash.flash_in read_32 byte_of
    xipfs.File.link_error xipfs.File.path_error xipfs.File.path_loop xipfs.File.path_charset_check
    xipfs.Base.strnlen
is_stored = record { file = (filp_error_iff sized 40960).0 refl; roomy = omega arith }

is_ready : IsReady sized 40960 is_stored opened
unfolding view
is_ready = record {
  coherent = record { loaded = λ h. cc; clean = λ h. cc };
  shown = λ a s. refl;
  held = λ a s. refl;
}

-- The slots behind the first one are erased.
blank_two : (b : ℕ) → 41032 ≤ b → b < 41376 → two_files b ≡ 255
unfolding new_header
blank_two b le lt = ground arith

blank : (b : ℕ) → 41036 ≤ b → b < 41376 → sized b ≡ 255
blank b le lt =
    overlay-outside (overlay two_files 41032 (byte_of 2) 4) (of_list (b'h' ∷ b'i' ∷ [])) 41380 2 b
      (inl (omega arith))
    ∙ overlay-outside two_files (byte_of 2) 41032 4 b (inr (omega arith))
    ∙ blank_two b (omega arith) lt

blank_slot : (j : ℕ) → 1 ≤ j → j < 86 → slot_value sized 40960 j ≡ flash_erase_state
unfolding read_32
blank_slot j le lt = omega (
  arith,
  blank (41032 + 4 * j) (omega arith) (omega arith),
  blank (41032 + 4 * j + 1) (omega arith) (omega arith),
  blank (41032 + 4 * j + 2) (omega arith) (omega arith),
  blank (41032 + 4 * j + 3) (omega arith) (omega arith),
)

two_bytes : size_of (view opened) 40960 1 ≡ 2
unfolding view read_32 byte_of
two_bytes = refl

one_slot : HasSlots (view opened) 40960 1
unfolding view
one_slot = record {
  used = λ j lt e.
      let at = ap (slot_value sized 40960) {x = j} {y = 0} (omega arith) in
      omega (arith, at, e, two_bytes);
  free = λ j le lt. blank_slot j le lt;
  most = omega arith;
}

max_pos_bytes : last_pos sized 40960 ≡ 3676
unfolding new_header read_32 byte_of
max_pos_bytes = refl

fields_written : FieldsWritten opened 40960
unfolding view
fields_written i o = refl

file_desc_error_iff_example :
    (file_desc_error mount_point 1 opened ≡ none) ↔ IsDesc mount_point 1 opened
file_desc_error_iff_example = file_desc_error_iff mount_point 1 opened

abbrev hello : Bytes
hello = of_list (b'h' ∷ b'i' ∷ [])

write_lem_example :
    Ensures
      (λ r u.
        ((◌≡◌ {A = ℕ} 2 0) ⊎ (0 < last_pos sized 40960))
        × Written device-IsNvm 0 sized 40960 is_stored 1 hello 2 0 opened r u)
      (λ e u. Refused device-IsNvm 0 sized 40960 is_stored 1 hello 2 opened e u)
      (write device 0 (some mount_point) 1 (some hello) 2 opened)
write_lem_example =
    write_lem device-IsNvm 0 sized 40960 is_stored 1 hello mount_point mount_point-IsMount opened
      opened-IsDesc is_tracked refl is_ready (λ h. omega (arith, h)) refl 2 (omega arith)

read_lem_example :
    Ensures
      (λ r u.
        ((◌≡◌ {A = ℕ} 9 0) ⊎ (0 < size_of (view opened) 40960 1))
        × HasRead device-IsNvm 0 sized 40960 is_stored 1
            (size_of (view opened) 40960 1)
            9
            0
            (λ _. 0)
            opened
            r
            u)
      (λ e u.
        (e ≡ Posix.eio)
        × (((0 < 9) × (size_of (view opened) 40960 1 ≤ 0)) ⊎ (IsReliable device → ⊥)))
      (read device 0 (λ _. 0) (some mount_point) 1 (some (λ _. 0)) 9 opened)
read_lem_example =
    read_lem device-IsNvm 0 sized 40960 is_stored 1 mount_point mount_point-IsMount opened
      opened-IsDesc is_tracked refl is_ready (λ h. omega (arith, h)) refl 9 (omega arith) 1 one_slot
      (omega (arith, two_bytes, max_pos_bytes)) (λ _. 0) (λ _. 0)

lseek_lem_example :
    Ensures
      (λ x u. Sought device-IsNvm 0 sized 40960 is_stored 1 1 (negsuc 0) 2 opened x u)
      (λ e u. Lost device-IsNvm 0 sized 40960 is_stored 1 1 (negsuc 0) 2 opened e u)
      (lseek device 0 (some mount_point) 1 (negsuc 0) 2 opened)
lseek_lem_example =
    lseek_lem device-IsNvm 0 sized 40960 is_stored 1 1 (negsuc 0) 2 opened mount_point
      mount_point-IsMount opened-IsDesc is_tracked refl is_ready (λ h. omega (arith, h)) one_slot
      (omega (arith, two_bytes, max_pos_bytes)) (omega arith)

file_set_size-file_get_size_example :
    Ensures
      (λ x _. x ≡ 7)
      (λ _ _. IsReliable device → ⊥)
      ((file_set_size device 40960 7 >> file_get_size device 40960) opened)
file_set_size-file_get_size_example =
    file_set_size-file_get_size device-IsNvm 40960 7 (omega arith) opened is_stored.file
      fields_written 1 is_ready.coherent one_slot (omega (arith, is_stored.roomy))
