-- ===== src/Mpu/Region.antt =====
-- src/mpu_driver.c: the regions that are accepted, and what their attributes say.
use native.Mathlib.Nat.{pow-suc, one-le-pow}
use native.Mathlib.Decide.{ℕ_discrete, dec_lt}
use Prim.Native.Nat.{bit_and}
use xipfs.Base.{
  ℕ, zero, suc, ◌+◌, ◌-◌, ◌*◌, ◌/◌, ◌%◌, ◌^◌, ◌≤◌, ◌<◌, ◌≡◌, ◌≢◌, ◌↔◌, ◌⊎◌, inl, inr, refl, ap, sym,
  subst, ◌∙◌, arith, Bool, true, false, not, ◌&&◌, ◌||◌, ltb, ◌==◌, ==_iff, Bool-cases, ℤ, negsuc,
  u32_mod, bit_and-halves, every_below, every_below_lem,
}
use xipfs.Mpu.{is_power_of_two, log2_integer, region_attributes, configure_region}

-- The digits of a number that is a power of two are its top one, by halving.
bit_and-zero_only : (n v : ℕ) → v ≤ n → bit_and v v ≡ 0 → v ≡ 0
bit_and-zero_only zero v le e = omega arith
bit_and-zero_only (suc n) v le e =
    let h = bit_and-halves v v in
    elim (ℕ_discrete v 0) [
      | yes z ↦ z
      | no nz ↦ omega (arith, h, bit_and-zero_only n (v / 2) (omega arith) (omega (arith, h)))
    ]

power_fuel : (n v : ℕ) → v ≤ n → v ≢ 0 → bit_and v (v - 1) ≡ 0 → (k : ℕ) × (v ≡ 2 ^ k)
power_fuel zero v le ne e = absurd (ne (omega arith))
power_fuel (suc n) v le ne e = elim (ℕ_discrete (v % 2) 0) [
  | yes even ↦
      let prev : (v - 1) / 2 ≡ v / 2 - 1 = omega arith in
      let h : bit_and (v / 2) (v / 2 - 1) ≡ 0 =
        omega (arith, bit_and-halves v (v - 1), ap (bit_and (v / 2)) prev) in
      let (k, p) = power_fuel n (v / 2) (omega arith) (omega arith) h in
      (suc k, omega (arith, p, pow-suc 2 k))
  | no odd ↦
      let prev : (v - 1) / 2 ≡ v / 2 = omega arith in
      let h : bit_and (v / 2) (v / 2) ≡ 0 =
        omega (arith, bit_and-halves v (v - 1), ap (bit_and (v / 2)) prev) in
      (0, omega (arith, bit_and-zero_only (v / 2) (v / 2) (omega arith) h))
]

power_digits : (k : ℕ) → bit_and (2 ^ k) (2 ^ k - 1) ≡ 0
power_digits zero = refl
power_digits (suc k) =
    let p = pow-suc 2 k in
    let l = one-le-pow k 2 in
    let half : 2 ^ suc k / 2 ≡ 2 ^ k = omega (arith, p) in
    let prev : (2 ^ suc k - 1) / 2 ≡ 2 ^ k - 1 = omega (arith, p, l) in
    let same : bit_and (2 ^ suc k / 2) ((2 ^ suc k - 1) / 2) ≡ bit_and (2 ^ k) (2 ^ k - 1) =
      ap (λ a. bit_and a ((2 ^ suc k - 1) / 2)) half ∙ ap (bit_and (2 ^ k)) prev in
    omega (arith, bit_and-halves (2 ^ suc k) (2 ^ suc k - 1), same, p, power_digits k)

-- is_power_of_two holds of the powers of two, and of no other number.
pub is_power_of_two_lem : (v : ℕ) → (is_power_of_two v ≡ true) ↔ ((k : ℕ) × (v ≡ 2 ^ k))
unfolding is_power_of_two
is_power_of_two_lem v = (
  λ h. power_fuel v v (omega arith) (ground arith) (ground arith),
  λ (k, p).
      let e : bit_and v (v - 1) ≡ bit_and (2 ^ k) (2 ^ k - 1) = ap (λ a. bit_and a (a - 1)) p in
      ground (arith, p, one-le-pow k 2, e, power_digits k),
)

log2_test : ℕ → Bool
unfolding log2_integer
log2_test k = log2_integer (2 ^ k) == k

log2_table : every_below 32 log2_test ≡ true
unfolding every_below log2_test log2_integer
log2_table = refl

-- log2_integer of a power of two of 32 bits is its exponent.
pub log2_integer_lem : (k : ℕ) → k < 32 → log2_integer (2 ^ k) ≡ k
unfolding log2_test
log2_integer_lem k lt = (==_iff _ k).0 (every_below_lem 32 log2_test log2_table k lt)

power_eq : (j k : ℕ) → j ≡ k → 2 ^ j ≡ 2 ^ k
power_eq j k e = ap (λ (i : ℕ). 2 ^ i) e

power_mono : (j k : ℕ) → 2 ^ k ≤ 2 ^ (j + k)
power_mono zero k = omega (arith, power_eq (0 + k) k (omega arith))
power_mono (suc j) k =
    omega
      (arith, power_eq (suc j + k) (suc (j + k)) (omega arith), pow-suc 2 (j + k), power_mono j k)

exponent_bounds : (k : ℕ) → 2 ^ k < u32_mod → 32 ≤ 2 ^ k → (5 ≤ k) × (k < 32)
exponent_bounds k lt le = (
  elim (dec_lt k 5) [
    | yes l ↦
        let m = power_mono (4 - k) k in
        let e = power_eq (4 - k + k) 4 (omega arith) in omega (arith, m, e)
    | no l ↦ omega arith
  ],
  elim (dec_lt k 32) [
    | yes l ↦ l
    | no l ↦
        let m = power_mono (k - 32) 32 in
        let e = power_eq (k - 32 + 32) k (omega arith) in omega (arith, m, e)
  ],
)

-- What the attributes say of a region: its size, the access permission and whether it may be
-- executed, with the memory attributes of internal RAM, no subregion disabled, and the bit that
-- enables the region left to mpu_configure.
pub record Attributes (attributes size xn acc : ℕ) : Type 0 where
  pub size_field : 2 ^ (attributes / 2 % 32 + 1) ≡ size
  pub subregions : attributes / 64 % 1024 ≡ 0
  pub memory : attributes / 65536 % 256 ≡ 5
  pub permission : attributes / 16777216 % 16 ≡ acc
  pub never : attributes / 268435456 ≡ xn
  pub enable : attributes % 2 ≡ 0

attributes_test : ℕ → Bool
attributes_test n =
    let a = region_attributes (n % 32) (n / 256) (n / 32 % 8) in
    a / 2 % 32 == n % 32
    && (a / 64 % 1024 == 0
        && (a / 65536 % 256 == 5
            && (a / 16777216 % 16 == n / 32 % 8 && (a / 268435456 == n / 256 && a % 2 == 0))))

attributes_table : every_below 512 attributes_test ≡ true
unfolding every_below attributes_test region_attributes
attributes_table = refl

region_attributes-Attributes :
    (k xn acc : ℕ)
    → k < 31
    → xn ≤ 1
    → acc ≤ 6
    → Attributes (region_attributes k xn acc) (2 ^ (k + 1)) xn acc
unfolding attributes_test
region_attributes-Attributes k xn acc lk lx la =
    let n = xn * 256 + acc * 32 + k in
    let h = every_below_lem 512 attributes_test attributes_table n (omega arith) in
    let a0 = region_attributes (n % 32) (n / 256) (n / 32 % 8) in
    let e0 : n % 32 ≡ k = omega arith in
    let e1 : n / 256 ≡ xn = omega arith in
    let e2 : n / 32 % 8 ≡ acc = omega arith in
    let a : a0 ≡ region_attributes k xn acc = rw (e0, e1, e2) refl in
    record {
      size_field =
          power_eq (region_attributes k xn acc / 2 % 32 + 1) (k + 1) (ground (arith, h, a, e0));
      subregions = ground (arith, h, a);
      memory = ground (arith, h, a);
      permission = ground (arith, h, a, e2);
      never = ground (arith, h, a, e1);
      enable = ground (arith, h, a);
    }

-- The arguments that xipfs_mpu_configure_region is documented to take.
pub record IsRegion (mpu_region address size xn acc : ℕ) : Type 0 where
  pub region : (2 ≤ mpu_region) × (mpu_region ≤ 7)
  pub execute : xn ≤ 1
  pub access : (acc ≤ 6) × (acc ≢ 4)
  pub power : (k : ℕ) × (size ≡ 2 ^ k) × (5 ≤ k)
  pub aligned : address % size ≡ 0

-- The five tests at once.
accepts : ℕ → ℕ → ℕ → ℕ → ℕ → Bool
accepts mpu_region address size xn acc =
    not (ltb mpu_region 2 || ltb 7 mpu_region)
    && (not (ltb 1 xn)
        && (not (ltb 6 acc || acc == 4)
            && (not (ltb size 32 || not (is_power_of_two size)) && address % size == 0)))

small_power : (k : ℕ) → k < 5 → 2 ^ k < 32
small_power k lt =
    let m = power_mono (4 - k) k in
    let e = power_eq (4 - k + k) 4 (omega arith) in omega (arith, m, e)

accepts-IsRegion :
    (mpu_region address size xn acc : ℕ)
    → accepts mpu_region address size xn acc ≡ true
    → IsRegion mpu_region address size xn acc
unfolding accepts
accepts-IsRegion mpu_region address size xn acc h =
    let (k, e) = (is_power_of_two_lem size).0 (ground (arith, h)) in
    record {
      region = ground (arith, h);
      execute = ground (arith, h);
      access = ground (arith, h);
      power = (
        k,
        e,
        elim (dec_lt k 5) [
          | yes l ↦ absurd (ground (arith, h, e, small_power k l))
          | no l ↦ omega arith
        ],
      );
      aligned = ground (arith, h);
    }

IsRegion-accepts :
    (mpu_region address size xn acc : ℕ)
    → IsRegion mpu_region address size xn acc
    → accepts mpu_region address size xn acc ≡ true
unfolding accepts
IsRegion-accepts mpu_region address size xn acc v =
    let (k, e, le) = v.power in
    let p = (is_power_of_two_lem size).1 (k, e) in
    let big = power_mono (k - 5) 5 in
    let same = power_eq (k - 5 + 5) k (omega arith) in
    ground (arith, v.region, v.execute, v.access, v.aligned, p, e, big, same)

module _ {S : Type 0} (mpu_configure : ℕ → ℕ → ℕ → S → ℤ × S) where
  -- A region that is accepted reaches the unit with attributes that describe it.
  pub record Accepted (mpu_region address size xn acc : ℕ) (s : S) (r : ℤ × S) : Type 0 where
    pub attributes : ℕ
    pub describes : Attributes attributes size xn acc
    pub result : r ≡ mpu_configure mpu_region address attributes s

  configure_accepts :
      (mpu_region address size xn acc : ℕ) (s : S)
      → size < u32_mod
      → IsRegion mpu_region address size xn acc
      → Accepted mpu_region address size xn acc s
          (configure_region mpu_configure mpu_region address size xn acc s)
  unfolding configure_region
  configure_accepts mpu_region address size xn acc s lt v =
      let (k, e, le) = v.power in
      let p = (is_power_of_two_lem size).1 (k, e) in
      let big = power_mono (k - 5) 5 in
      let same = power_eq (k - 5 + 5) k (omega arith) in
      let bounds = exponent_bounds k (omega (arith, e)) (omega (arith, big, same)) in
      let log : log2_integer size ≡ k = ap log2_integer e ∙ log2_integer_lem k bounds.1 in
      let back = power_eq (k - 1 + 1) k (omega arith) in
      let d =
        region_attributes-Attributes (k - 1) xn acc (omega (arith, bounds)) v.execute v.access.0 in
      let t1 : (ltb mpu_region 2 || ltb 7 mpu_region) ≡ false = ground (arith, v.region) in
      let t2 : ltb 1 xn ≡ false = ground (arith, v.execute) in
      let t3 : (ltb 6 acc || acc == 4) ≡ false = ground (arith, v.access) in
      let t4 : (ltb size 32 || not (is_power_of_two size)) ≡ false =
        ground (arith, p, e, big, same) in
      let t5 : (address % size == 0) ≡ true = ground (arith, v.aligned) in
      record {
        attributes = region_attributes (k - 1) xn acc;
        describes =
            subst (λ z. Attributes (region_attributes (k - 1) xn acc) z xn acc) (back ∙ sym e) d;
        result = rw (t1, t2, t3, t4, t5, log) refl;
      }

  configure_refuses :
      (mpu_region address size xn acc : ℕ) (s : S)
      → accepts mpu_region address size xn acc ≡ false
      → configure_region mpu_configure mpu_region address size xn acc s ≡ (negsuc 0, s)
  unfolding accepts configure_region
  configure_refuses mpu_region address size xn acc s h = ground arith

  -- xipfs_mpu_configure_region either hands a region that satisfies the documented conditions to the
  -- unit, with attributes that describe it, or returns -1 and leaves the unit as it was; the second
  -- happens just where the conditions do not hold.
  pub configure_region_lem :
      (mpu_region address size xn acc : ℕ) (s : S)
      → size < u32_mod
      → let r = configure_region mpu_configure mpu_region address size xn acc s in
        (IsRegion mpu_region address size xn acc × Accepted mpu_region address size xn acc s r)
        ⊎ ((IsRegion mpu_region address size xn acc → ⊥) × (r ≡ (negsuc 0, s)))
  configure_region_lem mpu_region address size xn acc s lt =
      elim (Bool-cases (accepts mpu_region address size xn acc)) [
        | inl yes_ ↦
            let v = accepts-IsRegion mpu_region address size xn acc yes_ in
            inl (v, configure_accepts mpu_region address size xn acc s lt v)
        | inr no_ ↦ inr (
          λ v. absurd (ground (arith, no_, IsRegion-accepts mpu_region address size xn acc v)),
          configure_refuses mpu_region address size xn acc s no_,
        )
      ]
