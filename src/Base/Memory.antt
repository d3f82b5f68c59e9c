-- ===== src/Base/Memory.antt =====
-- Byte-addressed memory and C strings as functions of an index, and little-endian 32-bit words.
use Prim.Native.Nat.{ℕ, zero, suc, ◌+◌, ◌-◌, ◌*◌, ◌/◌, ◌%◌, ◌≤◌, ◌<◌}
use mathlib.Core.Path.{◌≡◌, ap, ◌∙◌}
use mathlib.Core.Logic.{◌⊎◌}
use mathlib.Core.Bool.{◌&&◌}
use mathlib.Core.List.{List}
use native.Mathlib.Decide.{dec_lt}
use native.Mathlib.Omega.{arith}
use xipfs.Base.Tests.{ltb, leb, ◌==◌, if◌then◌else◌}
use xipfs.Base.Lists.{get_or}

-- The byte at each address; a C array or string is such a function of the index.
abbrev pub Bytes : Type 0
Bytes = ℕ → ℕ

-- The C string or array of the given bytes, zero behind them.
abbrev pub of_list : List ℕ → Bytes
of_list xs i = get_or xs i 0

abbrev pub update {ℓ} : {A : Type ℓ} → (ℕ → A) → ℕ → A → ℕ → A
update f a v b = if b == a then v else f b

-- `src` copied over the `n` bytes of `m` from `dest` on.
abbrev pub overlay : Bytes → ℕ → Bytes → ℕ → Bytes
overlay m dest src n a = if leb dest a && ltb a (dest + n) then src (a - dest) else m a

-- Arithmetic of `uint32_t`, `size_t` and `uintptr_t` on the 32-bit target.
abbrev pub u32_mod : ℕ
u32_mod = 4294967296

abbrev pub u32 : ℕ → ℕ
u32 n = n % 4294967296

-- The largest `int` and `int32_t`.
abbrev pub int_max : ℕ
int_max = 2147483647

-- A little-endian word in memory.
unfoldable pub read_32 : Bytes → ℕ → ℕ
read_32 m a = m a + 256 * m (a + 1) + 65536 * m (a + 2) + 16777216 * m (a + 3)

-- Byte `k` of a word.
unfoldable pub byte_of : ℕ → Bytes
byte_of w zero = w % 256
byte_of w (suc k) = byte_of (w / 256) k

pub read_32-ext :
    (m m' : Bytes) (a b : ℕ)
    → ((i : ℕ) → i < 4 → m' (b + i) ≡ m (a + i))
    → read_32 m' b ≡ read_32 m a
unfolding read_32
read_32-ext m m' a b h =
    let e : m' b ≡ m a = ap m' (omega arith) ∙ h 0 (omega arith) ∙ ap m (omega arith) in
    omega (arith, e, h 1 (omega arith), h 2 (omega arith), h 3 (omega arith))

-- A word whose four bytes are in memory.
pub read_32-byte_of :
    (m : Bytes) (a v : ℕ)
    → v < u32_mod
    → ((i : ℕ) → i < 4 → m (a + i) ≡ byte_of v i)
    → read_32 m a ≡ v
unfolding read_32 byte_of
read_32-byte_of m a v lt h =
    let e : m a ≡ m (a + 0) = ap m (omega arith) in
    omega (arith, e, h 0 (omega arith), h 1 (omega arith), h 2 (omega arith), h 3 (omega arith))

-- One byte written, then the rest of them, is all of them written.
pub overlay-suc :
    (m m' : Bytes) (dest k i : ℕ) (s : Bytes) (a : ℕ)
    → m' a ≡ update m (dest + i) (s i) a
    → overlay m' (dest + (i + 1)) (λ j. s (i + 1 + j)) k a
      ≡ overlay m (dest + i) (λ j. s (i + j)) (suc k) a
overlay-suc m m' dest k i s a h = elim (dec_lt (dest + i) a) [
  | yes p ↦
      let e : s (i + 1 + (a - (dest + (i + 1)))) ≡ s (i + (a - (dest + i))) = ap s (omega arith) in
      ground (arith, e, h)
  | no n ↦
      let e : a ≡ dest + i → s (i + (a - (dest + i))) ≡ s i = λ p. ap s (omega arith) in
      ground (arith, e, h)
]

pub overlay-cong :
    (m s t : Bytes) (dest k a : ℕ)
    → ((j : ℕ) → j < k → s j ≡ t j)
    → overlay m dest s k a ≡ overlay m dest t k a
overlay-cong m s t dest k a h = ground (arith, h (a - dest))

pub overlay-zero_base :
    (m s : Bytes) (dest n a : ℕ) → overlay m (dest + 0) (λ j. s (0 + j)) n a ≡ overlay m dest s n a
overlay-zero_base m s dest n a =
    let e : s (0 + (a - (dest + 0))) ≡ s (a - dest) = ap s (omega arith) in ground (arith, e)

pub overlay-inside : (m d : Bytes) (a n i : ℕ) → i < n → overlay m a d n (a + i) ≡ d i
overlay-inside m d a n i h = let e : d (a + i - a) ≡ d i = ap d (omega arith) in ground (arith, e)

pub overlay-outside : (m d : Bytes) (a n b : ℕ) → (b < a) ⊎ (a + n ≤ b) → overlay m a d n b ≡ m b
overlay-outside m d a n b h = ground arith
