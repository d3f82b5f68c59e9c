-- ===== src/Buffer/Flush.antt =====
-- xipfs_buffer_flush writes the buffered page back, and no failure loses what was written.
use native.Mathlib.Decide.{ℕ_discrete}
use xipfs.Base.{
  ℕ, ◌+◌, ◌*◌, ◌/◌, ◌%◌, ◌<◌, ◌≡◌, ◌≢◌, refl, inl, inr, Bytes, arith, ap, sym, ◌∙◌, if◌then◌else◌,
  Bool-cases,
}
use xipfs.Errno.{Errno}
use xipfs.State.{buffer_ok, buffer_dirty, World, Ensures, Ensures-bind, Ensures-mono, ◌>>◌}
use xipfs.Flash.{Nvm, nvm_page_size, flash_erase_page}
use xipfs.Flash.Laws.{IsNvm}
use xipfs.Flash.Erase.{flash_erase_page_outside, flash_erase_page_ok}
use xipfs.Buffer.{is_dirty, needs_erase, buffer_commit, buffer_erase, buffer_flush}
use xipfs.Buffer.View.{view, IsCoherent, Kept, IsReliable, Kept-trans, Kept-refl, view_clean}

-- What a flush leaves: the flash is the view, and the buffer is clean.
pub record Flushed (w w' : World) : Type 0 where
  pub kept : Kept w w'
  pub written : (a : ℕ) → w'.mem a ≡ view w a
  pub not_dirty : w'.buffer.state ≢ buffer_dirty
  pub same_errno : w'.errno ≡ w.errno
  pub same_page : w'.buffer.page_num ≡ w.buffer.page_num

-- What a failure leaves: every byte is still there, and the device is at fault.
pub record Failed (nvm : Nvm) (w w' : World) : Type 0 where
  pub kept : Kept w w'
  pub at_fault : IsReliable nvm → ⊥

pub Failed-trans : {nvm : Nvm} (u v w : World) → Kept u v → Failed nvm v w → Failed nvm u w
Failed-trans u v w k f = record { kept = Kept-trans u v w k f.kept; at_fault = f.at_fault }

-- While the buffer is dirty, what the flash holds in its page does not matter.
Kept-dirty :
    (w : World) (m' : Bytes) (e : Errno)
    → IsCoherent w
    → w.buffer.state ≡ buffer_dirty
    → ((a : ℕ) → a / nvm_page_size ≢ w.buffer.page_num → m' a ≡ w.mem a)
    → Kept w (record w { mem = m'; errno = e })
unfolding view
Kept-dirty w m' e c d same = record {
  coherent = record { loaded = c.loaded; clean = λ s. absurd (cc) };
  same_view = λ a. ground (arith, same a);
  tables = record { open_desc = refl; file_descs = refl; dir_descs = refl };
}

-- Once the page holds the buffer, the buffer is clean.
Flushed-dirty :
    (w : World) (m' : Bytes)
    → IsCoherent w
    → w.buffer.state ≡ buffer_dirty
    → ((a : ℕ) → a / nvm_page_size ≢ w.buffer.page_num → m' a ≡ w.mem a)
    → ((i : ℕ) → i < nvm_page_size → m' (w.buffer.page_num * nvm_page_size + i) ≡ w.buffer.buf i)
    → Flushed w (record w { mem = m'; buffer = record (w.buffer) { state = buffer_ok } })
unfolding view
Flushed-dirty w m' c d same inside = record {
  kept = record {
    coherent = record { loaded = λ _. c.loaded (rw d); clean = λ s i lt. sym (inside i lt) };
    same_view = λ a. ground (arith, same a);
    tables = record { open_desc = refl; file_descs = refl; dir_descs = refl };
  };
  written = λ a. elim (ℕ_discrete (a / nvm_page_size) w.buffer.page_num) [
    | yes p ↦
        let e : w.buffer.page_num * nvm_page_size + a % nvm_page_size ≡ a = omega arith in
        let h = inside (a % nvm_page_size) (omega arith) in ground (arith, ap m' e, h)
    | no n ↦ ground (arith, same a n)
  ];
  not_dirty = λ h. cc;
  same_errno = refl;
  same_page = refl;
}

module _ {nvm : Nvm} (laws : IsNvm nvm) where
  buffer_commit_lem :
      (w : World)
      → IsCoherent w
      → w.buffer.state ≡ buffer_dirty
      → Ensures (λ _ w'. Flushed w w') (λ _ w'. Failed nvm w w') (buffer_commit nvm w)
  unfolding buffer_commit
  buffer_commit_lem w c d =
      let b = w.buffer in
      let r = nvm.write_and_verify b.page_num b.buf w.mem in
      let same = λ (a : ℕ) (ne : a / nvm_page_size ≢ b.page_num).
        laws.verify_outside b.page_num b.buf w.mem a ne in
      elim (Bool-cases ((nvm.write_and_verify b.page_num b.buf w.mem).0)) [
        | inl ok ↦ rw ok (
            Flushed-dirty w r.1 c d same
              (λ i lt. laws.verify_inside b.page_num b.buf w.mem i lt ok))
        | inr bad ↦ rw bad (record {
          kept = Kept-dirty w r.1 w.errno c d same;
          at_fault = λ rel. let h = rel.verifies b.page_num b.buf w.mem in cc;
        })
      ]

  -- What the erase leaves: a dirty buffer over a flash that differs in its page alone.
  record Erased (w w' : World) : Type 0 where
    kept : Kept w w'
    dirty : w'.buffer.state ≡ buffer_dirty
    same_errno : w'.errno ≡ w.errno
    same_page : w'.buffer.page_num ≡ w.buffer.page_num

  buffer_erase_lem :
      (w : World)
      → IsCoherent w
      → w.buffer.state ≡ buffer_dirty
      → Ensures (λ _ w'. Erased w w') (λ _ w'. Failed nvm w w') (buffer_erase nvm w)
  unfolding buffer_erase
  buffer_erase_lem w c d =
      let p = w.buffer.page_num in
      let same =
        λ (a : ℕ) (ne : a / nvm_page_size ≢ p). flash_erase_page_outside laws p w.mem a ne in
      elim (Bool-cases ((flash_erase_page nvm p w.mem).0)) [
        | inl ok ↦ rw ok (record {
          kept = Kept-dirty w _ w.errno c d same;
          dirty = d;
          same_errno = refl;
          same_page = refl;
        })
        | inr bad ↦ rw bad (record {
          kept = Kept-dirty w _ _ c d same;
          at_fault = λ rel.
              let h = flash_erase_page_ok laws p w.mem (λ i lt. rel.erases p w.mem i lt) in cc;
        })
      ]

  -- On a coherent buffer, xipfs_buffer_flush returns with the flash equal to the view of before,
  -- byte for byte, and a buffer on the same page that is not dirty; the view, the error number and
  -- the tables stay. If it fails, the device is at fault and the view is the same, so that no
  -- write is lost.
  pub buffer_flush_lem :
      (w : World)
      → IsCoherent w
      → Ensures (λ _ w'. Flushed w w') (λ _ w'. Failed nvm w w') (buffer_flush nvm w)
  unfolding buffer_flush
  buffer_flush_lem w c = elim (Bool-cases (is_dirty w.buffer.state)) [
    | inl d ↦ rw d (dirty (ground arith))
    | inr n ↦ rw n (record {
      kept = Kept-refl w c;
      written = λ a. sym (view_clean w c (ground arith) a);
      not_dirty = ground arith;
      same_errno = refl;
      same_page = refl;
    })
  ]
    where
      erased :
          w.buffer.state ≡ buffer_dirty
          → (u : World) → Erased w u
          → Ensures (λ _ w'. Flushed w w') (λ _ w'. Failed nvm w w') (buffer_commit nvm u)
      erased d u e =
          Ensures-mono (buffer_commit nvm u) (buffer_commit_lem u e.kept.coherent e.dirty)
            (λ _ v f. record {
              kept = Kept-trans w u v e.kept f.kept;
              written = λ a. f.written a ∙ e.kept.same_view a;
              not_dirty = f.not_dirty;
              same_errno = f.same_errno ∙ e.same_errno;
              same_page = f.same_page ∙ e.same_page;
            })
            (λ _ v f. Failed-trans w u v e.kept f)

      dirty :
          w.buffer.state ≡ buffer_dirty
          → Ensures
              (λ _ w'. Flushed w w')
              (λ _ w'. Failed nvm w w')
              (if needs_erase
                  (nvm_page_size / 4)
                  (λ i. w.mem (w.buffer.page_addr + i))
                  w.buffer.buf
                  0
                then (buffer_erase nvm >> buffer_commit nvm) w
                else buffer_commit nvm w)
      dirty d =
          elim (Bool-cases (
            needs_erase (nvm_page_size / 4) (λ i. w.mem (w.buffer.page_addr + i)) w.buffer.buf 0)) [
              | inl e ↦ rw e (
                  Ensures-bind _ _ (buffer_erase nvm w) (λ _. buffer_commit nvm)
                    (buffer_erase_lem w c d) (λ _ u h. erased d u h) (λ _ u f. f))
              | inr n ↦ rw n (buffer_commit_lem w c d)
            ]
