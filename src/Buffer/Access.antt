-- ===== src/Buffer/Access.antt =====
-- xipfs_buffer_read and xipfs_buffer_write read and write the view.
use native.Mathlib.Decide.{ℕ_discrete}
use xipfs.Base.{
  ℕ, ◌+◌, ◌/◌, ◌%◌, ◌≡◌, ◌≢◌, refl, inl, inr, true, false, arith, ap, ◌∙◌, ◌==◌, if◌then◌else◌,
  Bool-cases, ltb,
}
use xipfs.State.{buffer_dirty, World, Outcome, Ensures, Ensures-bind, Ensures-mono, ◌>>◌}
use xipfs.Flash.{Nvm, nvm_page_size, flash_in}
use xipfs.Flash.Laws.{IsNvm}
use xipfs.Buffer.{of_bool, is_ko, buffer_flush, buffer_load, buffer_page_changed, buffer_enter}
use xipfs.Buffer.View.{view, IsCoherent, Kept, Kept-trans, Kept-refl, view_clean}
use xipfs.Buffer.Flush.{Failed, Failed-trans, buffer_flush_lem}

-- The page of `ptr` is in the buffer, and nothing else has changed.
pub record Entered (ptr : ℕ) (w w' : World) : Type 0 where
  pub kept : Kept w w'
  pub in_use : is_ko w'.buffer.state ≡ false
  pub page : w'.buffer.page_num ≡ ptr / nvm_page_size
  pub same_errno : w'.errno ≡ w.errno

module _ {nvm : Nvm} (laws : IsNvm nvm) (ptr : ℕ) where
  abbrev pub Enters : World → Outcome (Unit {0}) (Unit {0}) → Type 0
  Enters w = Ensures (λ _ w'. Entered ptr w w') (λ _ w'. Failed nvm w w')

  abbrev load_page : World → Outcome (Unit {0}) (Unit {0})
  load_page = buffer_load nvm (nvm.nvm_page ptr) (nvm.nvm_addr (nvm.nvm_page ptr))

  buffer_load_view :
      (w : World)
      → IsCoherent w
      → w.buffer.state ≢ buffer_dirty
      → (b : ℕ)
      → (if b / nvm_page_size == nvm.nvm_page ptr
          then (if ltb (b % nvm_page_size) nvm_page_size
              then w.mem (nvm.nvm_addr (nvm.nvm_page ptr) + b % nvm_page_size)
              else w.buffer.buf (b % nvm_page_size))
          else w.mem b)
        ≡ view w b
  buffer_load_view w c n b =
      let v = view_clean w c n b in
      let a = laws.addr_lem (nvm.nvm_page ptr) in
      let q : b / nvm_page_size ≡ nvm.nvm_page ptr
          → w.mem (nvm.nvm_addr (nvm.nvm_page ptr) + b % nvm_page_size) ≡ w.mem b =
        λ e. ap w.mem (omega (arith, a)) in
      ground (arith, v, q)

  buffer_load-Enters :
      (w : World) → IsCoherent w → w.buffer.state ≢ buffer_dirty → Enters w (load_page w)
  unfolding buffer_load view
  buffer_load-Enters w c n =
      let p = laws.page_lem ptr in
      let a = laws.addr_lem (nvm.nvm_page ptr) in
      record {
        kept = record {
          coherent = record {
            loaded = λ _. a;
            clean = λ _ i lt. ground (arith, ap (λ x. w.mem (x + i)) a);
          };
          same_view = λ b. buffer_load_view w c n b;
          tables = record { open_desc = refl; file_descs = refl; dir_descs = refl };
        };
        in_use = refl;
        page = p;
        same_errno = refl;
      }

  -- A changed page is flushed before the new one is loaded.
  change_page : (w : World) → IsCoherent w → Enters w ((buffer_flush nvm >> load_page) w)
  change_page w c =
      Ensures-bind _ _ (buffer_flush nvm w) (λ _. load_page) (buffer_flush_lem laws w c)
        (λ _ u f.
          Ensures-mono (load_page u) (buffer_load-Enters u f.kept.coherent f.not_dirty)
            (λ _ v e. record {
              kept = Kept-trans w u v f.kept e.kept;
              in_use = e.in_use;
              page = e.page;
              same_errno = e.same_errno ∙ f.same_errno;
            })
            (λ _ v e. Failed-trans w u v f.kept e))
        (λ _ u f. f)

  pub buffer_enter-Enters : (w : World) → IsCoherent w → Enters w (buffer_enter nvm ptr w)
  unfolding buffer_enter buffer_page_changed
  buffer_enter-Enters w c = rw never (elim (Bool-cases (is_ko w.buffer.state)) [
    | inl k ↦ rw k (buffer_load-Enters w c (ground arith))
    | inr k ↦ rw k (elim (ℕ_discrete w.buffer.page_num (nvm.nvm_page ptr)) [
      | yes e ↦ rw (same e) (record {
        kept = Kept-refl w c;
        in_use = k;
        page = e ∙ laws.page_lem ptr;
        same_errno = refl;
      })
      | no n ↦ rw (other n) (change_page w c)
    ])
  ])
    where
      never : ltb (of_bool (flash_in ptr)) 0 ≡ false
      never = ground arith

      same : w.buffer.page_num ≡ nvm.nvm_page ptr → (w.buffer.page_num == nvm.nvm_page ptr) ≡ true
      same e = ground arith

      other : w.buffer.page_num ≢ nvm.nvm_page ptr → (w.buffer.page_num == nvm.nvm_page ptr) ≡ false
      other e = ground arith
