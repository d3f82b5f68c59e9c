-- ===== src/Flash/Write.antt =====
-- xipfs_flash_write_unaligned writes exactly its bytes.
use native.Mathlib.Decide.{dec_lt, ℕ_discrete}
use xipfs.Base.{
  ◌*◌, ◌/◌, Bool-cases, ℕ, zero, suc, ◌+◌, ◌-◌, ◌%◌, ◌≤◌, ◌<◌, ◌≡◌, refl, ◌⊎◌, inl, inr, true,
  Bytes, Bool, overlay, update, ap, read_32, byte_of, u32, u32_mod, ◌∙◌, overlay-suc,
  overlay-zero_base, arith, ◌==◌, if◌then◌else◌,
}
use xipfs.Flash.{Nvm, nvm_erase_state, put_byte, write_byte, write_loop, flash_write_unaligned}
use xipfs.Flash.Laws.{IsNvm, IsBytes, Rewrites}

-- The four bytes of a word agree with `g`.
abbrev Word : ℕ → Bytes → Type 0
Word w g = (byte_of w 0 ≡ g 0) × (byte_of w 1 ≡ g 1) × (byte_of w 2 ≡ g 2) × (byte_of w 3 ≡ g 3)

module _ (m : Bytes) (a : ℕ) (byte : ℕ) (h : IsBytes m) (bb : byte < 256) where
  -- omega takes `m (a + 0)` and `m a` for two unknowns.
  e0 : m (a + 0) ≡ m a
  e0 = ap m (omega arith)

  put_byte-Word :
      (k : ℕ)
      → k < 4
      → Word (put_byte (read_32 m a) k byte) (λ j. if j == k then byte else m (a + j))
  unfolding byte_of put_byte read_32
  put_byte-Word zero kb = omega (arith, h a, h (a + 1), h (a + 2), h (a + 3), e0)
  put_byte-Word (suc zero) kb = omega (arith, h a, h (a + 1), h (a + 2), h (a + 3), e0)
  put_byte-Word (suc (suc zero)) kb = omega (arith, h a, h (a + 1), h (a + 2), h (a + 3), e0)
  put_byte-Word (suc (suc (suc zero))) kb = omega (arith, h a, h (a + 1), h (a + 2), h (a + 3), e0)
  put_byte-Word (suc (suc (suc (suc k)))) kb = absurd (omega arith)

  byte_of-put_byte :
      (k j : ℕ)
      → k < 4
      → j < 4
      → byte_of (put_byte (read_32 m a) k byte) j ≡ (if j == k then byte else m (a + j))
  byte_of-put_byte k zero kb jb = (put_byte-Word k kb).0
  byte_of-put_byte k (suc zero) kb jb = (put_byte-Word k kb).1
  byte_of-put_byte k (suc (suc zero)) kb jb = (put_byte-Word k kb).2
  byte_of-put_byte k (suc (suc (suc zero))) kb jb = (put_byte-Word k kb).3
  byte_of-put_byte k (suc (suc (suc (suc j)))) kb jb = absurd (omega arith)

module _ {nvm : Nvm} (laws : IsNvm nvm) (again : Rewrites nvm) (m : Bytes) (a : ℕ) (byte : ℕ)
    (h : IsBytes m) (bb : byte < 256) (free : (m a ≡ nvm_erase_state) ⊎ (m a ≡ byte)) where
  aligned : a - a % 4 + a % 4 ≡ a
  aligned = omega arith

  write_byte_inside :
      (j : ℕ)
      → j < 4
      → (write_byte nvm a byte m).1 (a - a % 4 + j) ≡ update m a byte (a - a % 4 + j)
  unfolding write_byte
  write_byte_inside j jb =
      let base = a - a % 4 in
      let v = put_byte (read_32 m base) (a % 4) byte in
      let e = byte_of-put_byte m base byte h bb (a % 4) j (omega arith) jb in
      let w = again base (byte_of v) 4 m j (omega arith) jb in
      elim (ℕ_discrete j (a % 4)) [
        | yes p ↦
            let q : base + j ≡ a = omega arith in
            let same : m (base + j) ≡ m a = ap m q in ground (arith, e, w, free)
        | no n ↦ ground (arith, e, w)
      ]

  write_byte_outside :
      (c : ℕ)
      → (c < a - a % 4) ⊎ (a - a % 4 + 4 ≤ c)
      → (write_byte nvm a byte m).1 c ≡ update m a byte c
  unfolding write_byte
  write_byte_outside c o =
      let base = a - a % 4 in
      let v = put_byte (read_32 m base) (a % 4) byte in
      ground (arith, laws.write_outside base (byte_of v) 4 m c o)

  -- Writing the word back changes the one byte.
  write_byte_lem : (c : ℕ) → (write_byte nvm a byte m).1 c ≡ update m a byte c
  write_byte_lem c = elim (dec_lt c (a - a % 4)) [
    | yes below ↦ write_byte_outside c (inl below)
    | no above ↦ elim (dec_lt c (a - a % 4 + 4)) [
      | yes within ↦
          let q : a - a % 4 + (c - (a - a % 4)) ≡ c = omega arith in
          rw q at (write_byte_inside (c - (a - a % 4)) (omega arith))
      | no past ↦ write_byte_outside c (inr (omega arith))
    ]
  ]

  write_byte-true : (write_byte nvm a byte m).0 ≡ true
  unfolding write_byte
  write_byte-true = ground (arith, write_byte_lem a)

-- `m'` agrees with `m` outside the `n` bytes from `dest` on.
abbrev pub SameOutside : ℕ → ℕ → Bytes → Bytes → Type 0
SameOutside dest n m m' = (a : ℕ) → (a < dest) ⊎ (dest + n ≤ a) → m' a ≡ m a

-- The `n` bytes from `dest` on are erased or hold the source already.
abbrev pub Writable : ℕ → ℕ → Bytes → Bytes → Type 0
Writable dest n s m = (j : ℕ) → j < n → (m (dest + j) ≡ nvm_erase_state) ⊎ (m (dest + j) ≡ s j)

module _ {nvm : Nvm} (laws : IsNvm nvm) (again : Rewrites nvm) (dest n : ℕ) (src : Bytes → Bytes)
    (s : Bytes) (m₀ : Bytes) (sb : IsBytes s) (fits : dest + n ≤ u32_mod)
    (stable : (m : Bytes) → SameOutside dest n m₀ m → (j : ℕ) → j < n → src m j ≡ s j) where
  -- What the loop has done when it stops, started at `m` with `i` bytes written.
  abbrev Wrote : ℕ → ℕ → Bytes → Bool × Bytes → Type 0
  Wrote k i m out = (out.0 ≡ true) × ((a : ℕ) → out.1 a ≡ overlay m (dest + i) (λ j. s (i + j)) k a)

  write_loop-Wrote :
      (k i : ℕ) (m : Bytes)
      → i + k ≡ n
      → IsBytes m
      → SameOutside dest n m₀ m
      → ((j : ℕ) → i ≤ j → j < n → (m (dest + j) ≡ nvm_erase_state) ⊎ (m (dest + j) ≡ s j))
      → Wrote k i m (write_loop nvm k dest src i m)
  unfolding write_loop
  write_loop-Wrote zero i m e mb same free = (refl, λ a. ground arith)
  write_loop-Wrote (suc k) i m e mb same free =
      let addr : u32 (dest + i) ≡ dest + i = omega arith in
      let now : src m i ≡ s i = stable m same i (omega arith) in
      let one =
        write_byte_lem laws again m (dest + i) (s i) mb (sb i)
          (free i (omega arith) (omega arith)) in
      let done =
        write_byte-true laws again m (dest + i) (s i) mb (sb i)
          (free i (omega arith) (omega arith)) in
      let m' = (write_byte nvm (dest + i) (s i) m).1 in
      let rest =
        write_loop-Wrote k (i + 1) m' (omega arith) (λ c. ground (arith, one c, mb c, sb i))
          (λ c o. ground (arith, one c, same c o))
          (λ j le lt. ground (arith, one (dest + j), free j)) in
      rw (addr, now, done) (rest.0, λ a. rest.1 a ∙ overlay-suc m m' dest k i s a (one a))

  -- On a memory of bytes, with a driver that can write a word again, which its documentation does not
  -- promise, for a source of bytes that the write does not change, and a destination that does not
  -- wrap round, each byte of which is erased or has the value to be written:
  -- xipfs_flash_write_unaligned succeeds, the destination holds the source, and no other byte has
  -- changed.
  pub flash_write_unaligned_lem :
      IsBytes m₀
      → Writable dest n s m₀
      → (flash_write_unaligned nvm dest src n m₀).0 ≡ true
        × ((a : ℕ) → (flash_write_unaligned nvm dest src n m₀).1 a ≡ overlay m₀ dest s n a)
  unfolding flash_write_unaligned
  flash_write_unaligned_lem mb free =
      let w = write_loop-Wrote n 0 m₀ (omega arith) mb (λ a o. refl) (λ j le lt. free j lt) in
      (w.0, λ a. w.1 a ∙ overlay-zero_base m₀ s dest n a)

module _ {nvm : Nvm} (laws : IsNvm nvm) (dest n : ℕ) (src : Bytes → Bytes)
    (fits : dest + n ≤ u32_mod) where
  -- A byte before the first word or behind the last one.
  abbrev Apart : ℕ → Type 0
  Apart a = (a < dest - dest % 4) ⊎ ((dest + n + 3) / 4 * 4 ≤ a)

  write_byte-Apart :
      (i byte a : ℕ) (m : Bytes)
      → i < n
      → Apart a
      → (write_byte nvm (u32 (dest + i)) byte m).1 a ≡ m a
  unfolding write_byte
  write_byte-Apart i byte a m lt o =
      let addr = u32 (dest + i) in
      let base = addr - addr % 4 in
      let in_range : addr ≡ dest + i = omega arith in
      laws.write_outside base (byte_of (put_byte (read_32 m base) (addr % 4) byte)) 4 m a
        (ground (arith, o, in_range, lt))

  write_loop-Apart :
      (k i a : ℕ) (m : Bytes) → i + k ≡ n → Apart a → (write_loop nvm k dest src i m).1 a ≡ m a
  unfolding write_loop
  write_loop-Apart zero i a m e o = refl
  write_loop-Apart (suc k) i a m e o =
      let r = write_byte nvm (u32 (dest + i)) (src m i) m in
      let one = write_byte-Apart i (src m i) a m (omega arith) o in
      elim (Bool-cases r.0) [
        | inl t ↦ rw t (write_loop-Apart k (i + 1) a r.1 (omega arith) o ∙ one)
        | inr f ↦ rw f one
      ]

  -- Whatever the memory and the source hold and whether it succeeds or not, where the destination does
  -- not wrap round, xipfs_flash_write_unaligned changes no byte outside of the words of 4 bytes in
  -- which the destination lies.
  pub flash_write_unaligned-SameOutside :
      (m : Bytes)
      → SameOutside
          (dest - dest % 4)
          ((dest + n + 3) / 4 * 4 - (dest - dest % 4))
          m
          (flash_write_unaligned nvm dest src n m).1
  unfolding flash_write_unaligned
  flash_write_unaligned-SameOutside m a o =
      write_loop-Apart n 0 a m (omega arith) (ground (arith, o))
