-- ===== src/Flash.antt =====
-- src/flash.c: addresses, erasing and unaligned writes of the flash memory.
-- The functions of the flash driver (include/xipfs.h, lines 355 to 417, and RIOT's
-- flashpage_write_and_verify) are the parameter `Nvm`; what is relied on of them is `IsNvm`.
-- The configuration is that of boards/dwm1001/xipfs_config.h.
pub mod Laws
pub mod Write
pub mod Erase
pub mod Device
mod Tests
use xipfs.Base.{
  ℕ, zero, suc, ◌+◌, ◌-◌, ◌*◌, ◌/◌, ◌%◌, ◌^◌, Bool, true, false, not, Bytes, read_32, byte_of, u32,
  ltb, leb, ◌==◌, if◌then◌else◌,
}

abbrev pub nvm_base : ℕ
nvm_base = 0

abbrev pub nvm_numof : ℕ
nvm_numof = 128

abbrev pub nvm_page_size : ℕ
nvm_page_size = 4096

abbrev pub nvm_erase_state : ℕ
nvm_erase_state = 255

-- The erased word, `XIPFS_FLASH_ERASE_STATE`.
abbrev pub flash_erase_state : ℕ
flash_erase_state = 4294967295

-- The driver: each function that writes takes the memory and returns it.
pub record Nvm : Type 0 where
  pub nvm_addr : ℕ → ℕ
  pub nvm_page : ℕ → ℕ
  pub nvm_erase : ℕ → Bytes → Bytes
  pub nvm_write : ℕ → Bytes → ℕ → Bytes → Bytes
  pub write_and_verify : ℕ → Bytes → Bytes → Bool × Bytes

unfoldable pub flash_base_addr : ℕ
flash_base_addr = nvm_base

unfoldable pub flash_end_addr : ℕ
flash_end_addr = nvm_base + nvm_numof * nvm_page_size

-- The lower bound stands under `#if XIPFS_CPU_FLASH_BASE > 0`, a macro that nothing defines.
unfoldable pub flash_in : ℕ → Bool
unfolding flash_end_addr
flash_in addr = ltb addr flash_end_addr

unfoldable pub flash_page_aligned : ℕ → Bool
flash_page_aligned addr = addr % nvm_page_size == 0

unfoldable pub flash_overflow : ℕ → ℕ → Bool
unfolding flash_in
flash_overflow addr n = not (flash_in (u32 (addr + n)))

unfoldable pub flash_page_overflow : ℕ → ℕ → Bool
flash_page_overflow addr n = not (leb (u32 (addr % nvm_page_size + n)) nvm_page_size)

-- `val4 &= ~(0xff << shift); val4 |= byte << shift` at the byte number `modulus`: the byte is cleared,
-- and the new one added where it stood.
unfoldable pub put_byte : ℕ → ℕ → ℕ → ℕ
put_byte val4 modulus byte =
    let shift = 2 ^ (8 * modulus) in val4 - val4 / shift % 256 * shift + byte * shift

-- `erased_from k ptr i`: the `k` bytes from `ptr[i]` on are in the erase state.
unfoldable pub erased_from : ℕ → Bytes → ℕ → Bool
erased_from zero ptr i = true
erased_from (suc k) ptr i =
    let rest = erased_from k ptr (i + 1) in if ptr i == nvm_erase_state then rest else false

module _ (nvm : Nvm) where
  open nvm use {nvm_addr, nvm_erase, nvm_write}

  -- One round of the loop: the memory after the word was written, and whether the byte reads back.
  unfoldable pub write_byte : ℕ → ℕ → Bytes → Bool × Bytes
  unfolding put_byte read_32 byte_of
  write_byte addr byte m =
      let modulus = addr % 4 in
      let addr4 = addr - modulus in
      let val4 = read_32 m addr4 in
      let m' = nvm_write addr4 (byte_of (put_byte val4 modulus byte)) 4 m in (m' addr == byte, m')

  -- `src` reads the source bytes from the memory as it then is; the first number counts the rounds
  -- left, `i` those done.
  unfoldable pub write_loop : ℕ → ℕ → (Bytes → Bytes) → ℕ → Bytes → Bool × Bytes
  write_loop zero dest src i m = (true, m)
  write_loop (suc k) dest src i m =
      let r = write_byte (u32 (dest + i)) (src m i) m in
      let rest = write_loop k dest src (i + 1) r.1 in if r.0 then rest else (false, r.1)

  unfoldable pub flash_write_unaligned : ℕ → (Bytes → Bytes) → ℕ → Bytes → Bool × Bytes
  unfolding write_loop write_byte
  flash_write_unaligned dest src n m = write_loop n dest src 0 m

  unfoldable pub flash_is_erased_page : ℕ → Bytes → Bool
  flash_is_erased_page page m = erased_from nvm_page_size (λ i. m (nvm_addr page + i)) 0

  -- Whether the page is erased afterwards. The failure sets `xipfs_errno` to XIPFS_ENVMC, which the
  -- callers do in this model.
  unfoldable pub flash_erase_page : ℕ → Bytes → Bool × Bytes
  flash_erase_page page m =
      let m' = nvm_erase page m in
      if flash_is_erased_page page m
      then (true, m)
      else if flash_is_erased_page page m'
      then (true, m')
      else (false, m')
