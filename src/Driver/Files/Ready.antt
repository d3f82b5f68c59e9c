-- ===== src/Driver/Files/Ready.antt =====
-- A file whose fields have reached the flash, through the reads and writes of its bytes.
use xipfs.Base.{
  ℕ, update, ◌==◌, ◌+◌, ◌-◌, ◌≤◌, ◌<◌, ◌≡◌, ◌≢◌, ◌⊎◌, inl, inr, ap, ◌∙◌, arith, true, false, Bytes,
  leb, if◌then◌else◌, int_max,
}
use xipfs.State.{World, FileDesc, done, bind_done, Ensures, Ensures-mono, Ensures-both}
use xipfs.Flash.{Nvm}
use xipfs.Flash.Laws.{IsNvm}
use xipfs.Desc.{sizeof_file}
use xipfs.Buffer.{buffer_read_8, buffer_write, buffer_write_8}
use xipfs.Buffer.View.{view, IsReliable, Kept, SameTables}
use xipfs.Buffer.Write.{Writes, buffer_write_lem}
use xipfs.Buffer.Words.{Got, buffer_read_8_lem}
use xipfs.Buffer.Settle.{Settled, buffer_read_8-Settled, buffer_write-Settled}
use xipfs.File.{
  file_reserved, file_buf, file_filp_check, file_get_max_pos, file_get_size_raw, file_get_size,
  file_read_8, file_write_8,
}
use xipfs.File.Check.{IsFile, file_filp_check-IsFile}
use xipfs.File.Same.{SameFile, same_word, same-IsFile}
use xipfs.File.Sizes.{HasSlots, size_of}
use xipfs.File.Sizes.Get.{file_get_size_raw_lem, file_get_size_raw-Settled}
use xipfs.File.Contents.{access, max_pos}

-- The addresses of the fields of the file, the sizes left out.
abbrev pub Fields : ℕ → ℕ → Type 0
Fields filp a = ((filp ≤ a) × (a < filp + 72)) ⊎ ((filp + 416 ≤ a) × (a < filp + 420))

-- The file at `filp` of the memory `m`, which passes the check and has room for its structure.
pub record IsStored (m : Bytes) (filp : ℕ) : Type 0 where
  pub file : IsFile m filp
  pub roomy : sizeof_file ≤ file_reserved m filp

-- The largest position of the file.
abbrev pub last_pos : Bytes → ℕ → ℕ
last_pos m filp = file_reserved m filp - sizeof_file

module _ (m : Bytes) (filp : ℕ) (st : IsStored m filp) where
  -- The fields of the file are as in `m`, in the flash and in what the buffer shows.
  abbrev pub IsReady : World → Type 0
  IsReady w = Settled (Fields filp) m w

  same_fields : (w : World) → IsReady w → SameFile m w.mem filp
  same_fields w r i o = r.held (filp + i) (ground (arith, o))

  pub ready-IsFile : (w : World) → IsReady w → IsFile w.mem filp
  ready-IsFile w r = same-IsFile m w.mem filp (same_fields w r) st.file

  pub ready-reserved : (w : World) → IsReady w → file_reserved w.mem filp ≡ file_reserved m filp
  ready-reserved w r = same_word m w.mem filp (same_fields w r) 68 (inl (omega arith))

  module _ {nvm : Nvm} (laws : IsNvm nvm) (w : World) (r : IsReady w) where
    pub ready-max_pos : file_get_max_pos filp w ≡ done (last_pos m filp) w
    ready-max_pos =
        let e = ready-reserved w r in
        max_pos filp 0 w (omega arith) (ready-IsFile w r) (omega (arith, e, st.roomy))
        ∙ ap (λ (n : ℕ). done (n - sizeof_file) w) e

    -- The bytes behind the structure are none of the fields.
    pub IsReady-write_8 :
        (p byte : ℕ)
        → p ≤ last_pos m filp
        → Ensures
            (λ _ u. IsReady u × Writes (file_buf filp p) 0 (λ _. byte) 1 w u)
            (λ _ _. IsReliable nvm → ⊥)
            (file_write_8 nvm filp p byte w)
    unfolding file_write_8 buffer_write_8
    IsReady-write_8 p byte le =
        let e = ready-reserved w r in
        let inside : leb p (file_reserved w.mem filp - sizeof_file) ≡ true =
          ground (arith, e, le) in
        rw
          (
            access filp p w (omega (arith, le, st.file.reserved)) (ready-IsFile w r)
                (omega (arith, e, st.roomy)) (buffer_write nvm (file_buf filp p) (λ _. byte) 1),
            inside,
          )
          (Ensures-mono {P' = λ _ u. IsReady u × Writes (file_buf filp p) 0 (λ _. byte) 1 w u}
            {Q' = λ _ _. IsReliable nvm → ⊥} (buffer_write nvm (file_buf filp p) (λ _. byte) 1 w)
            (Ensures-both _ _ _ _ (buffer_write nvm (file_buf filp p) (λ _. byte) 1 w)
              (buffer_write_lem laws (file_buf filp p) (λ _. byte) 1 w r.coherent (omega arith))
              (buffer_write-Settled laws (Fields filp) m (file_buf filp p) (λ _. byte) 1 w
                (omega arith) (λ a x. ground (arith, x)) r))
            (λ _ u ((wr, _), s). (s, wr)) (λ _ u ((n, le', wr, bad), _). bad))

    pub IsReady-read_8 :
        (p : ℕ)
        → p ≤ last_pos m filp
        → Ensures
            (λ byte u. IsReady u × Got (view w (file_buf filp p)) byte w u)
            (λ _ _. IsReliable nvm → ⊥)
            (file_read_8 nvm filp p w)
    unfolding file_read_8 buffer_read_8
    IsReady-read_8 p le =
        let e = ready-reserved w r in
        let inside : leb p (file_reserved w.mem filp - sizeof_file) ≡ true =
          ground (arith, e, le) in
        rw
          (
            access filp p w (omega (arith, le, st.file.reserved)) (ready-IsFile w r)
                (omega (arith, e, st.roomy)) (buffer_read_8 nvm (file_buf filp p)),
            inside,
          )
          (Ensures-mono {P' = λ byte u. IsReady u × Got (view w (file_buf filp p)) byte w u}
            {Q' = λ _ _. IsReliable nvm → ⊥} (buffer_read_8 nvm (file_buf filp p) w)
            (Ensures-both _ _ _ _ (buffer_read_8 nvm (file_buf filp p) w)
              (buffer_read_8_lem laws (file_buf filp p) (omega arith) w r.coherent)
              (buffer_read_8-Settled laws (Fields filp) m (file_buf filp p) w (omega arith) r))
            (λ _ u (g, s). (s, g)) (λ _ u (f, _). f.at_fault))

  -- What reading the size leaves, if the first `n` slots are in use.
  pub IsReady-get_size :
      {nvm : Nvm} (laws : IsNvm nvm) (n : ℕ) (w : World)
      → IsReady w
      → HasSlots (view w) filp n
      → size_of (view w) filp n ≤ int_max
      → Ensures
          (λ x u. IsReady u × Kept w u × (x ≡ size_of (view w) filp n))
          (λ _ _. IsReliable nvm → ⊥)
          (file_get_size nvm filp w)
  unfolding file_get_size
  IsReady-get_size {nvm} laws n w r h le =
      rw
        (bind_done (file_filp_check filp w) tt w (λ _. file_get_size_raw nvm filp)
          (file_filp_check-IsFile filp w (ready-IsFile w r)))
        (Ensures-mono {P' = λ x u. IsReady u × Kept w u × (x ≡ size_of (view w) filp n)}
          {Q' = λ _ _. IsReliable nvm → ⊥} (file_get_size_raw nvm filp w)
          (Ensures-both _ _ _ _ (file_get_size_raw nvm filp w)
            (file_get_size_raw_lem laws filp n w r.coherent h)
            (file_get_size_raw-Settled laws filp n (Fields filp) m w r))
          (λ x u ((k, e), s). (s, k, e))
          (λ _ u (o, _). elim o [
            | inl g ↦ g.at_fault
            | inr (k, g) ↦ absurd (omega (arith, g, le))
          ]))

  -- The descriptors have nothing to do with the file.
  pub IsReady-descs :
      (u : World) (f : ℕ → FileDesc) → IsReady u → IsReady (record u { file_descs = f })
  unfolding view
  IsReady-descs u f r = record {
    coherent = record { loaded = r.coherent.loaded; clean = r.coherent.clean };
    shown = r.shown;
    held = r.held;
  }

-- The descriptor at `descp` has moved to the position `p`, and no other descriptor has changed.
pub record Moved (descp p : ℕ) (w u : World) : Type 0 where
  pub at : u.file_descs descp ≡ record (w.file_descs descp) { pos = p }
  pub others : (d : ℕ) → d ≢ descp → u.file_descs d ≡ w.file_descs d
  pub table : u.open_desc ≡ w.open_desc

-- The state after `descp->pos = p`.
abbrev pub moved : ℕ → ℕ → World → World
moved descp p u = record u {
  file_descs = update u.file_descs descp (record (u.file_descs descp) { pos = p });
}

pub moved-Moved : (descp p : ℕ) (w u : World) → SameTables w u → Moved descp p w (moved descp p u)
moved-Moved descp p w u t =
    let h : (descp == descp) ≡ true = ground arith in
    let e = ap (λ (f : ℕ → FileDesc). f descp) t.file_descs in
    record {
      at =
          ap (λ b. if b then record (u.file_descs descp) { pos = p } else u.file_descs descp) h
          ∙ ap (λ (d : FileDesc). record d { pos = p }) e;
      others = λ d ne.
          let n : (d == descp) ≡ false = ground arith in
          ap (λ b. if b then record (u.file_descs descp) { pos = p } else u.file_descs d) n
          ∙ ap (λ (f : ℕ → FileDesc). f d) t.file_descs;
      table = t.open_desc;
    }

pub Moved-trans :
    (descp p q : ℕ) (u v w : World) → Moved descp p u v → Moved descp q v w → Moved descp q u w
Moved-trans descp p q u v w a b = record {
  at = b.at ∙ ap (λ (d : FileDesc). record d { pos = q }) a.at;
  others = λ d ne. b.others d ne ∙ a.others d ne;
  table = b.table ∙ a.table;
}
