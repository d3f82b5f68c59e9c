-- ===== src/Flash/Tests.antt =====
-- Examples for src/flash.c.
use xipfs.Base.{◌≡◌, refl, Bytes, arith, of_list, [], ◌∷◌}
use xipfs.Flash.{flash_write_unaligned, put_byte}
use xipfs.Flash.Write.{SameOutside, flash_write_unaligned-SameOutside}
use xipfs.Flash.Device.{device, device-IsNvm}

abbrev blank : Bytes
blank _ = 255

-- `~(0xff << 8)` and `5 << 8` on a word.
put_byte_runs : put_byte 0xaabbccdd 1 5 ≡ 0xaabb05dd
unfolding put_byte
put_byte_runs = refl

abbrev three : Bytes
three i = of_list (7 ∷ 8 ∷ 9 ∷ []) i

flash_write_unaligned-SameOutside_example :
    SameOutside 4096 8 blank (flash_write_unaligned device 4099 (λ _. three) 3 blank).1
flash_write_unaligned-SameOutside_example =
    flash_write_unaligned-SameOutside device-IsNvm 4099 3 (λ _. three) (omega arith) blank
