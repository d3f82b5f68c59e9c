-- ===== src/File/Tests.antt =====
-- Examples for src/file.c: a file "/a" of one page at page 10, and the one behind it.
use xipfs.Base.{
  ℕ, zero, suc, ◌+◌, ◌≤◌, ◌<◌, ◌≡◌, ◌≢◌, ◌↔◌, ◌*◌, refl, inl, inr, Option, none, some, [], ◌∷◌,
  Bytes, of_list, arith, u32_mod, read_32, u32, if◌then◌else◌, ◌==◌,
}
use xipfs.Flash.{nvm_page_size}
use xipfs.Desc.{sizeof_file}
use xipfs.File.{
  file_next, file_reserved, filp_error, path_error, path_loop, path_charset_check, link_error,
  erase_page,
}
use xipfs.File.Paths.{IsPath, path_error_iff}
use xipfs.Errno.{xipfs_ok}
use xipfs.State.{World, Ensures, buffer_ok, desc_free}
use xipfs.Flash.Device.{device, device-IsNvm}
use xipfs.Buffer.View.{IsCoherent, IsReliable}
use xipfs.Buffer.View.{view}
use xipfs.Buffer.Flush.{Failed}
use xipfs.Buffer.Words.{Got}
use xipfs.File.Contents.{refused, file_read_8_lem}
use xipfs.Base.{◌-◌, ◌⊎◌}
use xipfs.File.{file_buf, file_read_8}
use xipfs.File.Stale.{erase_page-IsCoherent}
use xipfs.File.Check.{IsFile, filp_error_iff}

-- The bytes of the fields, from the address 40960 on: the link 0x0000b000, the path, the reserved
-- size 0x00001000 and the execution right 0.
abbrev memory : Bytes
memory a =
    if a == 40961
    then 0xb0
    else if a == 40964
    then b'/'
    else if a == 40965
    then b'a'
    else if a == 41029
    then 0x10
    else 0

memory-IsFile : IsFile memory 40960
unfolding filp_error link_error path_error path_loop path_charset_check xipfs.Base.read_32
    xipfs.Flash.flash_page_aligned xipfs.Flash.flash_in
memory-IsFile = (filp_error_iff memory 40960).0 refl

path_error_iff_example :
    (path_error (some (of_list (b'/' ∷ b'a' ∷ []))) ≡ none) ↔ IsPath (of_list (b'/' ∷ b'a' ∷ []))
path_error_iff_example = path_error_iff (of_list (b'/' ∷ b'a' ∷ []))

filp_error_iff_example : (filp_error memory 40960 ≡ none) ↔ IsFile memory 40960
filp_error_iff_example = filp_error_iff memory 40960

memory_links : file_next memory 40960 ≢ 40960
unfolding xipfs.Base.read_32
memory_links h = omega (arith, h)

memory_roomy : sizeof_file ≤ file_reserved memory 40960
unfolding xipfs.Base.read_32
memory_roomy = omega arith

-- The page of the file is in the buffer.
abbrev loaded : World
loaded = record {
  mem = memory;
  buffer = record {
    state = buffer_ok;
    buf = λ i. memory (40960 + i);
    page_num = 10;
    page_addr = 40960;
  };
  errno = xipfs_ok;
  open_desc = λ _. record { type = desc_free; addr = 0 };
  file_descs = λ _. record { filp = 0; pos = 0; flags = 0 };
  dir_descs = λ _. record { filp = 0; dirname = λ _. 0 };
}

erase_page-IsCoherent_example :
    Ensures
      (λ _ w'. (IsCoherent w' → ⊥))
      (λ _ _. IsReliable device → ⊥)
      (erase_page device 10 loaded)
erase_page-IsCoherent_example =
    erase_page-IsCoherent device-IsNvm loaded 1 refl (omega arith) (λ h. omega (arith, h))

abbrev loaded-IsCoherent : IsCoherent loaded
loaded-IsCoherent = record { loaded = λ _. refl; clean = λ _ i lt. refl }

abbrev most : ℕ
most = file_reserved memory 40960 - sizeof_file

file_read_8_lem_example :
    Ensures
      (λ byte u. (7 ≤ most) × Got (view loaded (file_buf 40960 7)) byte loaded u)
      (λ _ u. ((7 ≤ most) × Failed device loaded u) ⊎ ((most < 7) × (u ≡ refused loaded)))
      (file_read_8 device 40960 7 loaded)
file_read_8_lem_example =
    file_read_8_lem 40960 7 loaded (omega arith) memory-IsFile memory_roomy device-IsNvm
      loaded-IsCoherent
