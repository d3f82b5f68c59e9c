-- ===== src/File/Sizes/Get.antt =====
-- xipfs_file_get_size_ and the search for a free slot.
use native.Mathlib.Decide.{ℕ_discrete}
use xipfs.Base.{
  ℕ, zero, suc, ◌+◌, ◌-◌, ◌≤◌, ◌<◌, ◌≡◌, ◌≢◌, ◌⊎◌, inl, inr, refl, ap, sym, ◌∙◌, arith, true, false,
  Bool-cases, Option, none, some, Bytes, read_32-ext, ltb, ◌==◌, if◌then◌else◌, int_max,
}
use xipfs.State.{World, Ensures, Ensures-bind, Ensures-mono, pure}
use xipfs.Flash.{Nvm, flash_erase_state}
use xipfs.Flash.Laws.{IsNvm}
use xipfs.Buffer.{buffer_read_32}
use xipfs.Buffer.View.{view, IsCoherent, Kept, Kept-trans, Kept-refl}
use xipfs.Buffer.Flush.{Failed, Failed-trans}
use xipfs.Buffer.Settle.{Settled, buffer_read_32-Settled}
use xipfs.Buffer.Words.{buffer_read_32_lem}
use xipfs.File.{file_slot, position, size_loop, slot_loop, file_get_size_raw}
use xipfs.File.Sizes.{slot_value, HasSlots, size_of}

module _ {nvm : Nvm} (laws : IsNvm nvm) (filp n : ℕ) where
  -- What a search in the slots of `w` leaves.
  abbrev Search : World → Option ℕ → World → Type 0
  Search w o u = Kept w u × (o ≡ (if ltb n 86 then some n else none))

  pub same_slot :
      (w u : World) → Kept w u → (j : ℕ) → slot_value (view u) filp j ≡ slot_value (view w) filp j
  same_slot w u k j =
      read_32-ext (view w) (view u) (file_slot filp j) (file_slot filp j)
        (λ i lt. k.same_view (file_slot filp j + i))

  pub Kept-HasSlots : (w u : World) → Kept w u → HasSlots (view w) filp n → HasSlots (view u) filp n
  Kept-HasSlots w u k h = record {
    used = λ j lt e. h.used j lt (sym (same_slot w u k j) ∙ e);
    free = λ j le lt. same_slot w u k j ∙ h.free j le lt;
    most = h.most;
  }

  -- An erased slot is the first one that is not in use.
  first_free :
      (w : World) (i : ℕ)
      → HasSlots (view w) filp n
      → i ≤ n
      → slot_value (view w) filp i ≡ flash_erase_state
      → i ≡ n
  first_free w i h le e = elim (ℕ_discrete i n) [
    | yes p ↦ p
    | no ne ↦ absurd (h.used i (omega arith) e)
  ]

  pub slot_loop_lem :
      (k i : ℕ) (w : World)
      → IsCoherent w
      → HasSlots (view w) filp n
      → i + k ≡ 86
      → i ≤ n
      → Ensures (λ o u. Search w o u) (λ _ u. Failed nvm w u) (slot_loop nvm filp k i w)
  unfolding slot_loop
  slot_loop_lem zero i w c h e le = (Kept-refl w c, ground (arith, h.most))
  slot_loop_lem (suc k) i w c h e le =
      Ensures-bind _ _ (buffer_read_32 nvm (file_slot filp i) w)
        (λ value.
          if value == flash_erase_state then pure (some i) else slot_loop nvm filp k (i + 1))
        (buffer_read_32_lem laws (file_slot filp i) (omega arith) w c)
        (λ value u g. elim (ℕ_discrete value flash_erase_state) [
          | yes erased ↦
              let t : (value == flash_erase_state) ≡ true = ground arith in
              let at : i ≡ n = first_free w i h le (sym g.value ∙ erased) in
              rw t (g.kept, ground arith)
          | no ne ↦
              let t : (value == flash_erase_state) ≡ false = ground arith in
              let past : i ≢ n = λ p. ne (g.value ∙ h.free i (omega arith) (omega arith)) in
              rw t (
                Ensures-mono {P' = λ o v. Search w o v} {Q' = λ _ v. Failed nvm w v}
                  (slot_loop nvm filp k (i + 1) u)
                  (slot_loop_lem k (i + 1) u g.kept.coherent (Kept-HasSlots w u g.kept h)
                    (omega arith) (omega arith))
                  (λ o v (kept, found). (Kept-trans w u v g.kept kept, found))
                  (λ _ v f. Failed-trans w u v g.kept f))
        ])
        (λ _ u f. f)

  -- What the search for the last size leaves.
  abbrev pub Sized : World → ℕ → World → Type 0
  Sized w x u = Kept w u × (x ≡ size_of (view w) filp n)

  abbrev pub Unsized : World → World → Type 0
  Unsized w u = Failed nvm w u ⊎ (Kept w u × (int_max < size_of (view w) filp n))

  position_lem :
      (w u : World) (x : ℕ)
      → Kept w u
      → x ≡ size_of (view w) filp n
      → Ensures (λ y v. Sized w y v) (λ _ v. Unsized w v) (position x u)
  position_lem w u x k e = elim (Bool-cases (ltb int_max x)) [
    | inl t ↦ rw t (inr (k, ground (arith, e)))
    | inr t ↦ rw t (k, e)
  ]

  size_loop_lem :
      (k i last : ℕ) (w u : World)
      → Kept w u
      → HasSlots (view w) filp n
      → i + k ≡ 86
      → i ≤ n
      → 1 ≤ i
      → last ≡ slot_value (view w) filp (i - 1)
      → Ensures (λ x v. Sized w x v) (λ _ v. Unsized w v) (size_loop nvm filp k i last u)
  unfolding size_loop
  size_loop_lem zero i last w u kept h e le one l = position_lem w u last kept (
      let at : i - 1 ≡ n - 1 = omega (arith, h.most) in
      ground (arith, l, ap (slot_value (view w) filp) at))
  size_loop_lem (suc k) i last w u kept h e le one l =
      Ensures-bind _ _ (buffer_read_32 nvm (file_slot filp i) u)
        (λ size.
          if size == flash_erase_state then position last else size_loop nvm filp k (i + 1) size)
        (buffer_read_32_lem laws (file_slot filp i) (omega arith) u kept.coherent)
        (λ size v g.
          let both = Kept-trans w u v kept g.kept in
          let value : size ≡ slot_value (view w) filp i = g.value ∙ same_slot w u kept i in
          elim (ℕ_discrete size flash_erase_state) [
            | yes erased ↦
                let t : (size == flash_erase_state) ≡ true = ground arith in
                let at : i ≡ n = first_free w i h le (sym value ∙ erased) in
                let end : slot_value (view w) filp (i - 1) ≡ slot_value (view w) filp (n - 1) =
                  ap (slot_value (view w) filp) (omega (arith, at)) in
                rw t (position_lem w v last both (ground (arith, l, end)))
            | no ne ↦
                let t : (size == flash_erase_state) ≡ false = ground arith in
                let past : i ≢ n = λ p. ne (value ∙ h.free i (omega arith) (omega arith)) in
                let back : slot_value (view w) filp i ≡ slot_value (view w) filp (i + 1 - 1) =
                  ap (slot_value (view w) filp) (omega arith) in
                rw t (
                  size_loop_lem k (i + 1) size w v both h (omega arith) (omega arith) (omega arith)
                    (value ∙ back))
          ])
        (λ _ v f. inl (Failed-trans w u v kept f))

  -- On a coherent buffer, if the first `n` slots of a file are in use and the others erased,
  -- xipfs_file_get_size_ returns the number in the last slot in use, or 0 if there is none, and
  -- changes no byte of the view. It fails if the device does, or if that number is negative as a
  -- position.
  pub file_get_size_raw_lem :
      (w : World)
      → IsCoherent w
      → HasSlots (view w) filp n
      → Ensures (λ x v. Sized w x v) (λ _ v. Unsized w v) (file_get_size_raw nvm filp w)
  unfolding file_get_size_raw
  file_get_size_raw_lem w c h =
      Ensures-bind _ _ (buffer_read_32 nvm (file_slot filp 0) w)
        (λ size. if size == flash_erase_state then pure 0 else size_loop nvm filp 85 1 size)
        (buffer_read_32_lem laws (file_slot filp 0) (omega arith) w c)
        (λ size v g. elim (ℕ_discrete size flash_erase_state) [
          | yes erased ↦
              let t : (size == flash_erase_state) ≡ true = ground arith in
              let at : 0 ≡ n = first_free w 0 h (omega arith) (sym g.value ∙ erased) in
              rw t (g.kept, ground (arith, at))
          | no ne ↦
              let t : (size == flash_erase_state) ≡ false = ground arith in
              let past : 0 ≢ n = λ p. ne (g.value ∙ h.free 0 (omega arith) (omega arith)) in
              rw t (size_loop_lem 85 1 size w v g.kept h refl (omega arith) (omega arith) g.value)
        ])
        (λ _ v f. inl f)

  module _ (s : ℕ → Type 0) (m : Bytes) where
    position-Settled :
        (n : ℕ) (w : World)
        → Settled s m w
        → Ensures (λ _ u. Settled s m u) (λ _ _. Unit {0}) (position n w)
    position-Settled n w h = elim (Bool-cases (ltb int_max n)) [ inl t ↦ rw t tt | inr t ↦ rw t h ]

    size_loop-Settled :
        (k i last : ℕ) (w : World)
        → Settled s m w
        → Ensures (λ _ u. Settled s m u) (λ _ _. Unit {0}) (size_loop nvm filp k i last w)
    unfolding size_loop
    size_loop-Settled zero i last w h = position-Settled last w h
    size_loop-Settled (suc k) i last w h =
        Ensures-bind _ _ (buffer_read_32 nvm (file_slot filp i) w)
          (λ size.
            if size == flash_erase_state then position last else size_loop nvm filp k (i + 1) size)
          (buffer_read_32-Settled laws s m (file_slot filp i) w (omega arith) h)
          (λ size u g. elim (Bool-cases (size == flash_erase_state)) [
            | inl t ↦ rw t (position-Settled last u g)
            | inr t ↦ rw t (size_loop-Settled k (i + 1) size u g)
          ])
          (λ _ _ _. tt)

    -- Reading the size leaves settled bytes settled.
    pub file_get_size_raw-Settled :
        (w : World)
        → Settled s m w
        → Ensures (λ _ u. Settled s m u) (λ _ _. Unit {0}) (file_get_size_raw nvm filp w)
    unfolding file_get_size_raw
    file_get_size_raw-Settled w h =
        Ensures-bind _ _ (buffer_read_32 nvm (file_slot filp 0) w)
          (λ size. if size == flash_erase_state then pure 0 else size_loop nvm filp 85 1 size)
          (buffer_read_32-Settled laws s m (file_slot filp 0) w (omega arith) h)
          (λ size u g. elim (Bool-cases (size == flash_erase_state)) [
            | inl t ↦ rw t g
            | inr t ↦ rw t (size_loop-Settled 85 1 size u g)
          ])
          (λ _ _ _. tt)
