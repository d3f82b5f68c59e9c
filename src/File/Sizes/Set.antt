-- ===== src/File/Sizes/Set.antt =====
-- xipfs_file_set_size, and the size that it leaves.
use native.Mathlib.Decide.{ℕ_discrete}
use xipfs.Base.{
  ℕ, zero, suc, ◌+◌, ◌-◌, ◌*◌, ◌≤◌, ◌<◌, ◌≡◌, ◌⊎◌, inl, inr, refl, ap, sym, ◌∙◌, arith, false,
  Bool-cases, Option, none, some, Bytes, read_32, read_32-ext, read_32-byte_of, byte_of, overlay,
  overlay-outside, overlay-inside, overlay-zero_base, ltb, if◌then◌else◌, int_max,
}
use xipfs.State.{
  World, Ensures, Ensures-bind, Ensures-mono, Internal, bind_done, fail_if, ◌>>=◌, ◌>>◌,
}
use xipfs.Errno.{eoutnvm, einvalidsize}
use xipfs.Flash.{Nvm, flash_erase_state}
use xipfs.Flash.Laws.{IsNvm}
use xipfs.Buffer.{buffer_write, buffer_flush, buffer_write_32}
use xipfs.Buffer.View.{view, IsCoherent, SameTables, Kept, Kept-refl, IsReliable}
use xipfs.Buffer.Write.{buffer_write_lem}
use xipfs.Buffer.Words.{Committed, write-flush}
use xipfs.File.{
  file_reserved, file_slot, filesize_slot_max, slt, file_filp_check, clear_loop, write_size,
  slot_loop, file_set_size,
}
use xipfs.File.Check.{IsFile, file_filp_check-IsFile}
use xipfs.File.Sizes.{slot_value, HasSlots, size_of}
use xipfs.File.Sizes.Get.{slot_loop_lem}

-- The view has become `m`.
record Becomes (m : Bytes) (w u : World) : Type 0 where
  coherent : IsCoherent u
  tables : SameTables w u
  bytes : (a : ℕ) → view u a ≡ m a

pub SameTables-trans : (u v w : World) → SameTables u v → SameTables v w → SameTables u w
SameTables-trans u v w p q = record {
  open_desc = q.open_desc ∙ p.open_desc;
  file_descs = q.file_descs ∙ p.file_descs;
  dir_descs = q.dir_descs ∙ p.dir_descs;
}

module _ {nvm : Nvm} (laws : IsNvm nvm) (filp : ℕ) where
  erased_byte : (i : ℕ) → i < 4 → byte_of flash_erase_state i ≡ 255
  unfolding byte_of
  erased_byte zero lt = refl
  erased_byte (suc zero) lt = refl
  erased_byte (suc (suc zero)) lt = refl
  erased_byte (suc (suc (suc zero))) lt = refl
  erased_byte (suc (suc (suc (suc i)))) lt = absurd (omega arith)

  clear_step :
      (m m' : Bytes) (k i a : ℕ)
      → m' a ≡ overlay m (file_slot filp i) (byte_of flash_erase_state) 4 a
      → overlay m' (file_slot filp (i + 1)) (λ _. 255) (4 * k) a
        ≡ overlay m (file_slot filp i) (λ _. 255) (4 * suc k) a
  clear_step m m' k i a h = ground (arith, h, erased_byte (a - file_slot filp i))

  clear_loop_lem :
      (k i : ℕ) (w : World)
      → IsCoherent w
      → Ensures
          (λ _ u. Becomes (overlay (view w) (file_slot filp i) (λ _. 255) (4 * k)) w u)
          (λ _ _. IsReliable nvm → ⊥)
          (clear_loop nvm filp k i w)
  unfolding clear_loop buffer_write_32
  clear_loop_lem zero i w c = record {
    coherent = c;
    tables = (Kept-refl w c).tables;
    bytes = λ a. ground arith;
  }
  clear_loop_lem (suc k) i w c =
      Ensures-bind _ _ (buffer_write nvm (file_slot filp i) (byte_of flash_erase_state) 4 w)
        (λ _. clear_loop nvm filp k (i + 1))
        (buffer_write_lem laws (file_slot filp i) (byte_of flash_erase_state) 4 w c (omega arith))
        (λ _ u (p, _).
          Ensures-mono
            {P' = λ _ v. Becomes (overlay (view w) (file_slot filp i) (λ _. 255) (4 * suc k)) w v}
            {Q' = λ _ _. IsReliable nvm → ⊥} (clear_loop nvm filp k (i + 1) u)
            (clear_loop_lem k (i + 1) u p.coherent)
            (λ _ v q. record {
              coherent = q.coherent;
              tables = SameTables-trans w u v p.tables q.tables;
              bytes = λ a.
                  q.bytes a
                  ∙ clear_step (view w) (view u) k i a (
                      p.bytes a
                      ∙ overlay-zero_base (view w) (byte_of flash_erase_state) (file_slot filp i) 4
                          a);
            })
            (λ _ v f. f))
        (λ _ u (n, le, p, bad). bad)

  -- What a new size leaves: it is the one that the slots stand for, nothing but the slots has
  -- changed, and the flash holds what the view shows.
  pub record Resized (size : ℕ) (w u : World) : Type 0 where
    pub coherent : IsCoherent u
    pub tables : SameTables w u
    pub slots : (n : ℕ) × HasSlots (view u) filp n × (size_of (view u) filp n ≡ size)
    pub outside : (a : ℕ) → (a < filp + 72) ⊎ (filp + 416 ≤ a) → view u a ≡ view w a
    pub flash : (a : ℕ) → u.mem a ≡ view u a

  -- The slot that is written.
  written :
      (m : Bytes) (i size : ℕ)
      → size ≤ int_max
      → slot_value (overlay m (file_slot filp i) (byte_of size) 4) filp i ≡ size
  written m i size le =
      read_32-byte_of (overlay m (file_slot filp i) (byte_of size) 4) (file_slot filp i) size
        (omega arith) (λ j lt. overlay-inside m (byte_of size) (file_slot filp i) 4 j lt)

  -- Another slot.
  elsewhere :
      (m d : Bytes) (i j k : ℕ)
      → (j < i) ⊎ (i + k ≤ j)
      → slot_value (overlay m (file_slot filp i) d (4 * k)) filp j ≡ slot_value m filp j
  elsewhere m d i j k o =
      read_32-ext m (overlay m (file_slot filp i) d (4 * k)) (file_slot filp j) (file_slot filp j)
        (λ b lt.
          overlay-outside m d (file_slot filp i) (4 * k) (file_slot filp j + b) (ground (arith, o)))

  cleared :
      (m : Bytes) (j : ℕ)
      → 1 ≤ j
      → j < 86
      → slot_value (overlay m (file_slot filp 1) (λ _. 255) (4 * 85)) filp j ≡ flash_erase_state
  unfolding read_32
  cleared m j ge lt = ground arith

  -- A new size in the first free slot.
  next_slot :
      (m : Bytes) (n size : ℕ)
      → n < 86
      → size ≤ int_max
      → HasSlots m filp n
      → HasSlots (overlay m (file_slot filp n) (byte_of size) 4) filp (suc n)
  next_slot m n size lt le h = record {
    used = λ j jn. elim (ℕ_discrete j n) [
      | yes e ↦ λ z.
          let at = ap (slot_value (overlay m (file_slot filp n) (byte_of size) 4) filp) e in
          omega (arith, z, at, written m n size le, le)
      | no ne ↦ λ z.
          h.used j (omega arith) (sym (elsewhere m (byte_of size) n j 1 (inl (omega arith))) ∙ z)
    ];
    free =
        λ j ge jn. elsewhere m (byte_of size) n j 1 (inr (omega arith)) ∙ h.free j (omega arith) jn;
    most = omega arith;
  }

  -- A new size in the first slot, when the others are erased.
  first_slot :
      (m : Bytes) (size : ℕ)
      → size ≤ int_max
      → HasSlots
          (overlay
            (overlay m (file_slot filp 1) (λ _. 255) (4 * 85))
            (file_slot filp 0)
            (byte_of size)
            4)
          filp
          1
  first_slot m size le =
      let m' = overlay m (file_slot filp 1) (λ _. 255) (4 * 85) in
      record {
        used = λ j jn z.
            let at =
              ap (slot_value (overlay m' (file_slot filp 0) (byte_of size) 4) filp) {x = j} {y = 0}
                (omega arith) in
            omega (arith, z, at, written m' 0 size le, le);
        free = λ j ge jn. elsewhere m' (byte_of size) 0 j 1 (inr (omega arith)) ∙ cleared m j ge jn;
        most = omega arith;
      }

  -- The slots depend on the bytes only.
  HasSlots-ext :
      (m m' : Bytes) (n : ℕ) → ((a : ℕ) → m' a ≡ m a) → HasSlots m filp n → HasSlots m' filp n
  HasSlots-ext m m' n e h =
      let same = λ (j : ℕ).
        read_32-ext m m' (file_slot filp j) (file_slot filp j) (λ b lt. e (file_slot filp j + b)) in
      record {
        used = λ j lt z. h.used j lt (sym (same j) ∙ z);
        free = λ j le lt. same j ∙ h.free j le lt;
        most = h.most;
      }

  module _ (size : ℕ) (le : size ≤ int_max) where
    Resized-write :
        (n : ℕ) (w u v : World)
        → n < 86
        → SameTables w u
        → ((a : ℕ) → (a < filp + 72) ⊎ (filp + 416 ≤ a) → view u a ≡ view w a)
        → HasSlots (overlay (view u) (file_slot filp n) (byte_of size) 4) filp (suc n)
        → Committed (file_slot filp n) (byte_of size) 4 u v
        → Resized size w v
    Resized-write n w u v lt t same h q = record {
      coherent = q.coherent;
      tables = SameTables-trans w u v t q.tables;
      slots = (
        suc n,
        HasSlots-ext _ (view v) (suc n) q.bytes h,
        last
            ∙ read_32-ext _ (view v) (file_slot filp n) (file_slot filp n)
                (λ b l. q.bytes (file_slot filp n + b))
            ∙ written (view u) n size le,
      );
      outside = λ a o.
          q.bytes a
          ∙ overlay-outside (view u) (byte_of size) (file_slot filp n) 4 a (ground (arith, o, lt))
          ∙ same a o;
      flash = λ a. q.flash a ∙ sym (q.bytes a);
    }
      where
        last : size_of (view v) filp (suc n) ≡ slot_value (view v) filp n
        last =
            let e = ap (slot_value (view v) filp) {x = suc n - 1} {y = n} (omega arith) in
            ground (arith, e)

    write_size-Resized :
        (n : ℕ) (w u : World)
        → n < 86
        → IsCoherent u
        → SameTables w u
        → ((a : ℕ) → (a < filp + 72) ⊎ (filp + 416 ≤ a) → view u a ≡ view w a)
        → HasSlots (overlay (view u) (file_slot filp n) (byte_of size) 4) filp (suc n)
        → Ensures
            (λ _ v. Resized size w v)
            (λ _ _. IsReliable nvm → ⊥)
            (write_size nvm filp n size u)
    unfolding write_size buffer_write_32
    write_size-Resized n w u lt c t same h =
        Ensures-mono {P' = λ _ v. Resized size w v} {Q' = λ _ _. IsReliable nvm → ⊥}
          ((buffer_write nvm (file_slot filp n) (byte_of size) 4 >> buffer_flush nvm) u)
          (write-flush laws (file_slot filp n) (byte_of size) 4 u c (omega arith))
          (λ _ v q. Resized-write n w u v lt t same h q) (λ _ v b. b.at_fault)

    -- What follows the search for a free slot.
    abbrev store : Option ℕ → Internal (Unit {0})
    store (some i) = write_size nvm filp i size
    store none = clear_loop nvm filp (filesize_slot_max - 1) 1 >> write_size nvm filp 0 size

    overlay-over :
        (m m' d : Bytes) (a : ℕ)
        → m' a ≡ m a
        → overlay m' (file_slot filp 0) d 4 a ≡ overlay m (file_slot filp 0) d 4 a
    overlay-over m m' d a h = ground (arith, h)

    resize :
        (n : ℕ) (w u : World)
        → Kept w u
        → HasSlots (view w) filp n
        → Ensures
            (λ _ v. Resized size w v)
            (λ _ _. IsReliable nvm → ⊥)
            (store (if ltb n 86 then some n else none) u)
    resize n w u k h = elim (Bool-cases (ltb n 86)) [
      | inl t ↦ rw t (
          write_size-Resized n w u (ground (arith, t)) k.coherent k.tables (λ a o. k.same_view a)
            (next_slot (view u) n size (ground (arith, t)) le
              (HasSlots-ext (view w) (view u) n k.same_view h)))
      | inr t ↦ rw t (
          Ensures-bind _ _ (clear_loop nvm filp 85 1 u) (λ _. write_size nvm filp 0 size)
            (clear_loop_lem 85 1 u k.coherent)
            (λ _ v b.
              write_size-Resized 0 w v (omega arith) b.coherent
                (SameTables-trans w u v k.tables b.tables)
                (λ a o.
                  b.bytes a
                  ∙ overlay-outside (view u) (λ _. 255) (file_slot filp 1) (4 * 85) a
                      (ground (arith, o))
                  ∙ k.same_view a)
                (HasSlots-ext _ _ 1
                  (λ a.
                    overlay-over (overlay (view u) (file_slot filp 1) (λ _. 255) (4 * 85)) (view v)
                      (byte_of size) a (b.bytes a))
                  (first_slot (view u) size le)))
            (λ _ v f. f))
    ]

    -- The size passes the tests.
    found :
        (w : World)
        → IsFile w.mem filp
        → size ≤ file_reserved w.mem filp
        → file_set_size nvm filp size w ≡ (slot_loop nvm filp filesize_slot_max 0 >>= store) w
    unfolding file_set_size
    found w f fit =
        let t1 : slt (file_reserved w.mem filp) size ≡ false = ground (arith, f.reserved) in
        let t2 : ltb int_max size ≡ false = ground arith in
        bind_done (file_filp_check filp w) tt w _ (file_filp_check-IsFile filp w f)
        ∙ bind_done (fail_if (slt (file_reserved w.mem filp) size) eoutnvm w) tt w _
            (ap (λ b. fail_if b eoutnvm w) t1)
        ∙ bind_done (fail_if (ltb int_max size) einvalidsize w) tt w _
            (ap (λ b. fail_if b einvalidsize w) t2)

    -- On a file that passes the check and whose slots in use come first, with a coherent buffer and a
    -- size from 0 to the reserved size: xipfs_file_set_size leaves slots in use that come first
    -- and stand for the new size, whether it goes to the next slot or, where all are in use, to the
    -- first one; the flash holds the new size, and no byte but those of the slots has changed. If it
    -- fails, the device is at fault.
    pub file_set_size_lem :
        (n : ℕ) (w : World)
        → IsCoherent w
        → IsFile w.mem filp
        → HasSlots (view w) filp n
        → size ≤ file_reserved w.mem filp
        → Ensures
            (λ _ u. Resized size w u)
            (λ _ _. IsReliable nvm → ⊥)
            (file_set_size nvm filp size w)
    file_set_size_lem n w c f h fit = rw (found w f fit) (
        Ensures-bind _ _ (slot_loop nvm filp filesize_slot_max 0 w) store
          (slot_loop_lem laws filp n 86 0 w c h refl (omega arith))
          (λ o u (k, e). rw e (resize n w u k h)) (λ _ u g. g.at_fault))
