-- ===== src/Mpu/Tests.antt =====
-- Examples for src/mpu_driver.c: a region of 4096 bytes for the text segment.
use xipfs.Base.{ℕ, ◌≡◌, ◌⊎◌, arith, ℤ, pos, negsuc}
use xipfs.Mpu.{configure_region}
use xipfs.Mpu.Region.{IsRegion, Accepted, configure_region_lem}

-- A unit that keeps the last attributes.
abbrev unit : ℕ → ℕ → ℕ → ℕ → ℤ × ℕ
unit mpu_region address attributes s = (pos 0, attributes)

configure_region_lem_example :
    (IsRegion 2 40960 4096 0 6
      × Accepted unit 2 40960 4096 0 6 0 (configure_region unit 2 40960 4096 0 6 0))
    ⊎ ((IsRegion 2 40960 4096 0 6 → ⊥) × (configure_region unit 2 40960 4096 0 6 0 ≡ (negsuc 0, 0)))
configure_region_lem_example = configure_region_lem unit 2 40960 4096 0 6 0 (omega arith)
