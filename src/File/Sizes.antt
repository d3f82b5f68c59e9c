-- ===== src/File/Sizes.antt =====
-- The slots of the size of a file: a new size goes to the first slot that is still erased, and the
-- size is that of the last slot before it.
pub mod Get
pub mod Set
pub mod RoundTrip
use xipfs.Base.{ℕ, zero, suc, ◌-◌, ◌≤◌, ◌<◌, ◌≡◌, ◌≢◌, ◌∙◌, Bytes, read_32, ◌==◌, if◌then◌else◌}
use xipfs.State.{World}
use xipfs.Flash.{flash_erase_state}
use xipfs.Buffer.View.{view}
use xipfs.File.{file_slot}

-- The number in a slot.
abbrev pub slot_value : Bytes → ℕ → ℕ → ℕ
slot_value m filp i = read_32 m (file_slot filp i)

-- The first `n` slots are in use, and no others.
pub record HasSlots (m : Bytes) (filp n : ℕ) : Type 0 where
  pub used : (j : ℕ) → j < n → slot_value m filp j ≢ flash_erase_state
  pub free : (j : ℕ) → n ≤ j → j < 86 → slot_value m filp j ≡ flash_erase_state
  pub most : n ≤ 86

-- The size that `n` slots in use stand for.
abbrev pub size_of : Bytes → ℕ → ℕ → ℕ
size_of m filp n = if n == 0 then 0 else slot_value m filp (n - 1)
