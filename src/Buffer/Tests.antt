-- ===== src/Buffer/Tests.antt =====
-- Examples for src/buffer.c, with a dirty buffer on page 10.
use xipfs.Base.{◌≡◌, refl, [], ◌∷◌, Bytes, of_list, arith}
use xipfs.Errno.{xipfs_ok}
use xipfs.State.{World, buffer_dirty, Ensures, desc_free, ◌>>◌}
use xipfs.Flash.Device.{device, device-IsNvm}
use xipfs.Buffer.{buffer_flush, buffer_write, buffer_commit}
use xipfs.Buffer.View.{IsCoherent}
use xipfs.Buffer.Flush.{Flushed, Failed, buffer_flush_lem}
use xipfs.Buffer.Write.{WritesAll, buffer_write_lem}
use xipfs.Buffer.Words.{Committed, Broken, write-flush}
use xipfs.Buffer.Erase.{flush_without_erase}

abbrev dirty : World
dirty = record {
  mem = λ _. 255;
  buffer = record { state = buffer_dirty; buf = λ _. 255; page_num = 10; page_addr = 40960 };
  errno = xipfs_ok;
  open_desc = λ _. record { type = desc_free; addr = 0 };
  file_descs = λ _. record { filp = 0; pos = 0; flags = 0 };
  dir_descs = λ _. record { filp = 0; dirname = λ _. 0 };
}

dirty-IsCoherent : IsCoherent dirty
dirty-IsCoherent = record { loaded = λ _. refl; clean = λ h. absurd (cc) }

abbrev five : Bytes
five = of_list (5 ∷ 6 ∷ 7 ∷ 8 ∷ 9 ∷ [])

buffer_flush_lem_example :
    Ensures (λ _ w'. Flushed dirty w') (λ _ w'. Failed device dirty w') (buffer_flush device dirty)
buffer_flush_lem_example = buffer_flush_lem device-IsNvm dirty dirty-IsCoherent

buffer_write_lem_example :
    WritesAll device 45054 0 five 5 dirty (buffer_write device 45054 five 5 dirty)
buffer_write_lem_example =
    buffer_write_lem device-IsNvm 45054 five 5 dirty dirty-IsCoherent (λ h. omega (arith, h))

write-flush_example :
    Ensures
      (λ _ w'. Committed 45054 five 5 dirty w')
      (λ _ w'. Broken device 45054 five 5 dirty w')
      ((buffer_write device 45054 five 5 >> buffer_flush device) dirty)
write-flush_example =
    write-flush device-IsNvm 45054 five 5 dirty dirty-IsCoherent (λ h. omega (arith, h))

flush_without_erase_example : buffer_flush device dirty ≡ buffer_commit device dirty
flush_without_erase_example = flush_without_erase device dirty refl (λ i lt. (refl, omega arith))
