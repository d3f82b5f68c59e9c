-- ===== src/Mpu.antt =====
-- src/mpu_driver.c and include/mpu_driver.h: the check of a region of the memory protection unit and
-- its attributes, as built with XIPFS_ENABLE_SAFE_EXEC_SUPPORT. The enumerations are their numbers.
-- RIOT's mpu_configure (include/mpu_driver.h, `extern`) is a parameter that takes the state of the
-- unit and returns it with its result.
pub mod Region
mod Tests
use Prim.Native.Nat.{bit_and, bit_or}
use xipfs.Base.{
  ℕ, zero, suc, ◌+◌, ◌-◌, ◌*◌, ◌%◌, ◌^◌, Bool, true, false, not, ◌&&◌, ◌||◌, ℤ, pos, negsuc, ltb,
  ◌==◌, if◌then◌else◌,
}

abbrev pub region_first : ℕ
region_first = 2

abbrev pub region_last : ℕ
region_last = 7

abbrev pub exc_last : ℕ
exc_last = 1

abbrev pub ap_reserved : ℕ
ap_reserved = 4

abbrev pub ap_last : ℕ
ap_last = 6

-- `v && !(v & (v - 1))`
unfoldable pub is_power_of_two : ℕ → Bool
is_power_of_two v = not (v == 0) && bit_and v (v - 1) == 0

-- `((v & mask) != 0) << shift`
abbrev pub mask_bit : ℕ → ℕ → ℕ → ℕ
mask_bit v mask shift = if bit_and v mask == 0 then 0 else 2 ^ shift

unfoldable pub log2_integer : ℕ → ℕ
log2_integer v =
    bit_or
      (bit_or
        (bit_or (bit_or (mask_bit v 0xaaaaaaaa 0) (mask_bit v 0xffff0000 4))
          (mask_bit v 0xff00ff00 3))
        (mask_bit v 0xf0f0f0f0 2))
      (mask_bit v 0xcccccccc 1)

-- The attributes of the register MPU_RASR; `n << k` is `n * 2 ^ k`.
unfoldable pub region_attributes : ℕ → ℕ → ℕ → ℕ
region_attributes log2_size xn ap =
    bit_or
      (bit_or
        (bit_or (bit_or (bit_or (bit_or (xn * 2 ^ 28) (ap * 2 ^ 24)) (0 * 2 ^ 19)) (1 * 2 ^ 18))
          (0 * 2 ^ 17))
        (1 * 2 ^ 16))
      (log2_size * 2)

module _ {S : Type 0} (mpu_configure : ℕ → ℕ → ℕ → S → ℤ × S) where
  unfoldable pub configure_region : ℕ → ℕ → ℕ → ℕ → ℕ → S → ℤ × S
  unfolding is_power_of_two log2_integer region_attributes
  configure_region mpu_region address size xn ap s =
      if ltb mpu_region region_first || ltb region_last mpu_region
      then (negsuc 0, s)
      else if ltb exc_last xn
      then (negsuc 0, s)
      else if ltb ap_last ap || ap == ap_reserved
      then (negsuc 0, s)
      else if ltb size 32 || not (is_power_of_two size)
      then (negsuc 0, s)
      else if not (address % size == 0)
      then (negsuc 0, s)
      else mpu_configure mpu_region address (region_attributes (log2_integer size - 1) xn ap) s
