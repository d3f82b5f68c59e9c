-- ===== src/Buffer/Settle.antt =====
-- Bytes whose value in the flash is the one that the buffer shows stay so, until they are written.
use xipfs.Base.{
  ℕ, zero, suc, ◌+◌, ◌%◌, ◌≤◌, ◌<◌, ◌≡◌, ◌≢◌, ◌⊎◌, ◌∙◌, arith, false, Bytes, update, Bool-cases,
  inl, inr, ltb, ◌==◌, read_32,
}
use xipfs.State.{World, Outcome, Ensures, Ensures-bind, Ensures-mono, Ensures-both, pure}
use xipfs.Flash.{Nvm, nvm_page_size, flash_in}
use xipfs.Flash.Laws.{IsNvm}
use xipfs.Buffer.{
  of_bool, is_ko, buffer_flush, buffer_load, buffer_page_changed, buffer_enter, buffer_put,
  read_loop, write_loop, buffer_read, buffer_read_8, buffer_read_32, buffer_write,
}
use xipfs.Buffer.View.{view, IsCoherent}
use xipfs.Buffer.Flush.{buffer_flush_lem}
use xipfs.Buffer.Access.{buffer_enter-Enters}
use xipfs.Buffer.Write.{put_next, put_next-Put}

-- At the addresses of `s`, the flash holds `m`, and so does what the buffer shows.
pub record Settled (s : ℕ → Type 0) (m : Bytes) (w : World) : Type 0 where
  pub coherent : IsCoherent w
  pub shown : (a : ℕ) → s a → view w a ≡ m a
  pub held : (a : ℕ) → s a → w.mem a ≡ m a

module _ {nvm : Nvm} (laws : IsNvm nvm) (s : ℕ → Type 0) (m : Bytes) where
  -- A call after which, if it succeeds, the bytes are settled still.
  abbrev Settles : {A : Type 0} → Outcome (Unit {0}) A → Type 0
  Settles o = Ensures (λ _ u. Settled s m u) (λ _ _. Unit {0}) o

  buffer_flush-Settled : (w : World) → Settled s m w → Settles (buffer_flush nvm w)
  buffer_flush-Settled w h =
      Ensures-mono {P' = λ _ u. Settled s m u} {Q' = λ _ _. Unit {0}} (buffer_flush nvm w)
        (buffer_flush_lem laws w h.coherent)
        (λ _ u f. record {
          coherent = f.kept.coherent;
          shown = λ a i. f.kept.same_view a ∙ h.shown a i;
          held = λ a i. f.written a ∙ h.shown a i;
        })
        (λ _ _ _. tt)

  -- A page that is brought in changes no byte of the flash, unless another one is flushed.
  buffer_enter-held :
      (ptr : ℕ) (w : World)
      → Settled s m w
      → Ensures (λ _ u. (a : ℕ) → s a → u.mem a ≡ m a) (λ _ _. Unit {0}) (buffer_enter nvm ptr w)
  unfolding buffer_enter buffer_load
  buffer_enter-held ptr w h = rw never (elim (Bool-cases (is_ko w.buffer.state)) [
    | inl k ↦ rw k h.held
    | inr k ↦ rw k (elim (Bool-cases (buffer_page_changed w.buffer (nvm.nvm_page ptr))) [
      | inl e ↦ rw e (
          Ensures-bind _ _ (buffer_flush nvm w)
            (λ _. buffer_load nvm (nvm.nvm_page ptr) (nvm.nvm_addr (nvm.nvm_page ptr)))
            (buffer_flush-Settled w h) (λ _ u g. g.held) (λ _ _ _. tt))
      | inr e ↦ rw e h.held
    ])
  ])
    where
      never : ltb (of_bool (flash_in ptr)) 0 ≡ false
      never = ground arith

  buffer_enter-Settled : (ptr : ℕ) (w : World) → Settled s m w → Settles (buffer_enter nvm ptr w)
  buffer_enter-Settled ptr w h =
      Ensures-mono {P' = λ _ u. Settled s m u} {Q' = λ _ _. Unit {0}} (buffer_enter nvm ptr w)
        (Ensures-both _ _ _ _ (buffer_enter nvm ptr w) (buffer_enter-Enters laws ptr w h.coherent)
          (buffer_enter-held ptr w h))
        (λ _ u (e, held). record {
          coherent = e.kept.coherent;
          shown = λ a i. e.kept.same_view a ∙ h.shown a i;
          held = held;
        })
        (λ _ _ _. tt)

  read_loop-Settled :
      (k src i : ℕ) (d : Bytes) (w : World) → Settled s m w → Settles (read_loop nvm k src i d w)
  unfolding read_loop
  read_loop-Settled zero src i d w h = h
  read_loop-Settled (suc k) src i d w h =
      Ensures-bind _ _ (buffer_enter nvm (src + i) w)
        (λ _ u.
          read_loop nvm k src (i + 1) (update d i (u.buffer.buf ((src + i) % nvm_page_size))) u)
        (buffer_enter-Settled (src + i) w h) (λ _ u g. read_loop-Settled k src (i + 1) _ u g)
        (λ _ _ _. tt)

  put_held :
      (dest : ℕ) (d : Bytes) (i : ℕ) (w : World)
      → Settled s m w
      → Ensures (λ _ u. (a : ℕ) → s a → u.mem a ≡ m a) (λ _ _. Unit {0}) (put_next laws dest d i w)
  unfolding buffer_put
  put_held dest d i w h =
      Ensures-bind _ _ (buffer_enter nvm (dest + i) w)
        (λ _. buffer_put ((dest + i) % nvm_page_size) (d i)) (buffer_enter-held (dest + i) w h)
        (λ _ u g. g) (λ _ _ _. tt)

  write_loop-Settled :
      (k dest i : ℕ) (d : Bytes) (w : World)
      → ((a : ℕ) → s a → (a < dest + i) ⊎ (dest + i + k ≤ a))
      → Settled s m w
      → Settles (write_loop nvm k dest d i w)
  unfolding write_loop
  write_loop-Settled zero dest i d w apart h = h
  write_loop-Settled (suc k) dest i d w apart h =
      Ensures-bind _ _ (put_next laws dest d i w) (λ _. write_loop nvm k dest d (i + 1))
        (Ensures-both _ _ _ _ (put_next laws dest d i w) (put_next-Put laws dest d i w h.coherent)
          (put_held dest d i w h))
        (λ _ u (p, held).
          write_loop-Settled k dest (i + 1) d u (λ a x. ground (arith, apart a x))
            (record {
              coherent = p.coherent;
              shown = λ a x. p.bytes a ∙ ground (arith, apart a x, h.shown a x);
              held = held;
            }))
        (λ _ _ _. tt)

  -- Reads and writes elsewhere leave the bytes settled.
  buffer_read-Settled :
      (d : Bytes) (src len : ℕ) (w : World)
      → src ≢ 0
      → Settled s m w
      → Settles (buffer_read nvm d src len w)
  unfolding buffer_read
  buffer_read-Settled d src len w ne h =
      let e : (src == 0) ≡ false = ground arith in rw e (read_loop-Settled len src 0 d w h)

  pub buffer_write-Settled :
      (dest : ℕ) (d : Bytes) (len : ℕ) (w : World)
      → dest ≢ 0
      → ((a : ℕ) → s a → (a < dest) ⊎ (dest + len ≤ a))
      → Settled s m w
      → Settles (buffer_write nvm dest d len w)
  unfolding buffer_write
  buffer_write-Settled dest d len w ne apart h =
      let e : (dest == 0) ≡ false = ground arith in
      rw e (write_loop-Settled len dest 0 d w (λ a x. ground (arith, apart a x)) h)

  pub buffer_read_8-Settled :
      (src : ℕ) (w : World) → src ≢ 0 → Settled s m w → Settles (buffer_read_8 nvm src w)
  unfolding buffer_read_8
  buffer_read_8-Settled src w ne h =
      Ensures-bind _ _ (buffer_read nvm (λ _. 0) src 1 w) (λ d. pure (d 0))
        (buffer_read-Settled (λ _. 0) src 1 w ne h) (λ _ u g. g) (λ _ _ _. tt)

  pub buffer_read_32-Settled :
      (src : ℕ) (w : World) → src ≢ 0 → Settled s m w → Settles (buffer_read_32 nvm src w)
  unfolding buffer_read_32
  buffer_read_32-Settled src w ne h =
      Ensures-bind _ _ (buffer_read nvm (λ _. 0) src 4 w) (λ d. pure (read_32 d 0))
        (buffer_read-Settled (λ _. 0) src 4 w ne h) (λ _ u g. g) (λ _ _ _. tt)
