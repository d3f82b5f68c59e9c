-- ===== src/Flash/Laws.antt =====
-- What is relied on of the flash driver. xipfs_nvm_addr and xipfs_nvm_page translate between pages
-- and addresses; a write stays inside its bytes; an erase stays inside its page; a page write that
-- verifies has written the page. That an erase succeeds is no part of this: src/flash.c checks it.
-- include/xipfs.h promises the translations for pages and addresses of the flash. The sources also
-- translate others: the test of addresses in src/buffer.c never refuses one, and xipfs_fs_format asks
-- for the page of the end of a mount point. There the translation is taken to be the same arithmetic.
use xipfs.Base.{ℕ, ◌+◌, ◌*◌, ◌/◌, ◌%◌, ◌≤◌, ◌<◌, ◌≡◌, ◌≢◌, ◌⊎◌, true, Bytes}
use xipfs.Flash.{Nvm, nvm_page_size, nvm_erase_state}

pub record IsNvm (nvm : Nvm) : Type 0 where
  pub page_lem : (a : ℕ) → nvm.nvm_page a ≡ a / nvm_page_size
  pub addr_lem : (p : ℕ) → nvm.nvm_addr p ≡ p * nvm_page_size
  pub write_outside :
      (a : ℕ) (d : Bytes) (n : ℕ) (m : Bytes) (b : ℕ)
      → (b < a) ⊎ (a + n ≤ b)
      → nvm.nvm_write a d n m b ≡ m b
  pub erase_outside :
      (p : ℕ) (m : Bytes) (a : ℕ) → a / nvm_page_size ≢ p → nvm.nvm_erase p m a ≡ m a
  pub verify_outside :
      (p : ℕ) (d m : Bytes) (a : ℕ) → a / nvm_page_size ≢ p → (nvm.write_and_verify p d m).1 a ≡ m a
  pub verify_inside :
      (p : ℕ) (d m : Bytes) (i : ℕ)
      → i < nvm_page_size
      → (nvm.write_and_verify p d m).0 ≡ true
      → (nvm.write_and_verify p d m).1 (p * nvm_page_size + i) ≡ d i

-- A write to an aligned address takes effect on bytes that are erased or have the new value already.
-- include/xipfs.h promises that of erased bytes only, so this stands apart: xipfs_flash_write_unaligned
-- needs it, which writes a word again for each of its bytes.
abbrev pub Rewrites : Nvm → Type 0
Rewrites nvm =
    (a : ℕ) (d : Bytes) (n : ℕ) (m : Bytes) (i : ℕ)
    → a % 4 ≡ 0
    → i < n
    → (m (a + i) ≡ nvm_erase_state) ⊎ (m (a + i) ≡ d i)
    → nvm.nvm_write a d n m (a + i) ≡ d i

-- Every byte of the memory is below 256.
abbrev pub IsBytes : Bytes → Type 0
IsBytes m = (a : ℕ) → m a < 256
