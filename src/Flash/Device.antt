-- ===== src/Flash/Device.antt =====
-- A flash device that behaves: the parameters of src/flash.c at concrete functions, for examples.
use xipfs.Base.{◌*◌, ◌/◌, refl, true, overlay, overlay-inside, overlay-outside, arith}
use xipfs.Flash.{Nvm}
use xipfs.Flash.Laws.{IsNvm}

abbrev pub device : Nvm
device = record {
  nvm_addr = λ p. p * 4096;
  nvm_page = λ a. a / 4096;
  nvm_erase = λ p m. overlay m (p * 4096) (λ _. 255) 4096;
  nvm_write = λ a d n m. overlay m a d n;
  write_and_verify = λ p d m. (true, overlay m (p * 4096) d 4096);
}

pub device-IsNvm : IsNvm device
device-IsNvm = record {
  page_lem = λ a. refl;
  addr_lem = λ p. refl;
  write_outside = λ a d n m b h. overlay-outside m d a n b h;
  erase_outside = λ p m a ne. ground arith;
  verify_outside = λ p d m a ne. ground arith;
  verify_inside = λ p d m i lt ok. overlay-inside m d (p * 4096) 4096 i lt;
}
