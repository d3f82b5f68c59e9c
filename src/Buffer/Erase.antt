-- ===== src/Buffer/Erase.antt =====
-- The test of xipfs_buffer_flush for the need of an erase.
use Prim.Native.Nat.{bit_and}
use native.Mathlib.Decide.{ℕ_discrete}
use xipfs.Base.{
  ℕ, zero, suc, ◌+◌, ◌-◌, ◌/◌, ◌≤◌, ◌<◌, ◌≡◌, refl, true, false, Bool, Bytes, arith, ◌==◌,
  if◌then◌else◌,
}
use xipfs.State.{World, buffer_dirty}
use xipfs.Flash.{Nvm, nvm_page_size}
use xipfs.Buffer.{needs_erase, buffer_flush, buffer_commit}

-- The test of every number from `n` down.
every_to : (ℕ → Bool) → ℕ → Bool
every_to p zero = p zero
every_to p (suc n) = let rest = every_to p n in if p (suc n) then rest else false

every_to_lem : (p : ℕ → Bool) (n : ℕ) → every_to p n ≡ true → (x : ℕ) → x ≤ n → p x ≡ true
unfolding every_to
every_to_lem p zero h zero le = h
every_to_lem p zero h (suc x) le = absurd (omega arith)
every_to_lem p (suc n) h x le = elim (ℕ_discrete x (suc n)) [
  | yes e ↦ rw e (ground arith)
  | no ne ↦ every_to_lem p n (ground arith) x (omega arith)
]

-- No byte has a bit in common with its complement.
disjoint_bytes : every_to (λ x. bit_and (255 - x) x == 0) 255 ≡ true
unfolding every_to
disjoint_bytes = refl

bit_and-complement : (x : ℕ) → x < 256 → (bit_and (255 - x) x == 0) ≡ true
bit_and-complement x h =
    every_to_lem (λ y. bit_and (255 - y) y == 0) 255 disjoint_bytes x (omega arith)

needs_erase-false :
    (k : ℕ) (page buf : Bytes) (i : ℕ)
    → ((j : ℕ) → i ≤ j → j < i + k → (buf j ≡ page j) × (page j < 256))
    → needs_erase k page buf i ≡ false
unfolding needs_erase
needs_erase-false zero page buf i h = refl
needs_erase-false (suc k) page buf i h =
    let (e, b) = h i (omega arith) (omega arith) in
    let rest = needs_erase-false k page buf (i + 1) (λ j le lt. h j (omega arith) (omega arith)) in
    rw e (rw (bit_and-complement (page i) b) rest)

-- The flush of a dirty buffer goes without the erase whenever the buffer and the flash agree on
-- the first quarter of the page, and that holds bytes; nothing is asked of the other three
-- quarters.
pub flush_without_erase :
    (nvm : Nvm) (w : World)
    → w.buffer.state ≡ buffer_dirty
    → ((i : ℕ)
        → i < nvm_page_size / 4
        → (w.buffer.buf i ≡ w.mem (w.buffer.page_addr + i))
          × (w.mem (w.buffer.page_addr + i) < 256))
    → buffer_flush nvm w ≡ buffer_commit nvm w
unfolding buffer_flush
flush_without_erase nvm w d h =
    let e =
      needs_erase-false (nvm_page_size / 4) (λ i. w.mem (w.buffer.page_addr + i)) w.buffer.buf 0
        (λ j le lt. h j lt) in
    rw (d, e)
