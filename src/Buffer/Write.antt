-- ===== src/Buffer/Write.antt =====
-- xipfs_buffer_write writes the view.
use native.Mathlib.Decide.{ℕ_discrete}
use xipfs.Base.{
  ℕ, zero, suc, ◌+◌, ◌/◌, ◌%◌, ◌≤◌, ◌≡◌, ◌≢◌, refl, false, Bytes, update, arith, ◌∙◌, ◌==◌,
  if◌then◌else◌, overlay, overlay-suc,
}
use xipfs.State.{World, Outcome, Ensures, Ensures-bind, Ensures-mono, ◌>>◌}
use xipfs.Flash.{Nvm, nvm_page_size}
use xipfs.Flash.Laws.{IsNvm}
use xipfs.Buffer.{is_ko, buffer_enter, buffer_put, write_loop, buffer_write}
use xipfs.Buffer.View.{view, IsCoherent, SameTables, Kept, Kept-refl, IsReliable}
use xipfs.Buffer.Flush.{Failed}
use xipfs.Buffer.Access.{Entered, buffer_enter-Enters}

-- The first `n` of the bytes `s i`, `s (i + 1)`, … have gone to the view from `dest + i` on.
pub record Writes (dest i : ℕ) (s : Bytes) (n : ℕ) (w w' : World) : Type 0 where
  pub coherent : IsCoherent w'
  pub tables : SameTables w w'
  pub bytes : (a : ℕ) → view w' a ≡ overlay (view w) (dest + i) (λ j. s (i + j)) n a

-- A write of `k` bytes that failed: some first part of it was made, and the device is at fault.
abbrev pub Stops : Nvm → ℕ → ℕ → Bytes → ℕ → World → World → Type 0
Stops nvm dest i s k w w' = (n : ℕ) × (n ≤ k) × Writes dest i s n w w' × (IsReliable nvm → ⊥)

abbrev pub WritesAll : Nvm → ℕ → ℕ → Bytes → ℕ → World → Outcome (Unit {0}) (Unit {0}) → Type 0
WritesAll nvm dest i s k w =
    Ensures (λ _ w'. Writes dest i s k w w' × (w'.errno ≡ w.errno))
      (λ _ w'. Stops nvm dest i s k w w')

-- Nothing is written yet.
Writes-zero : (dest i : ℕ) (s : Bytes) (w w' : World) → Kept w w' → Writes dest i s 0 w w'
Writes-zero dest i s w w' k = record {
  coherent = k.coherent;
  tables = k.tables;
  bytes = λ a. ground (arith, k.same_view a);
}

-- One byte more in front.
Writes-suc :
    (dest i : ℕ) (s : Bytes) (n : ℕ) (w u v : World)
    → SameTables w u
    → ((a : ℕ) → view u a ≡ update (view w) (dest + i) (s i) a)
    → Writes dest (i + 1) s n u v
    → Writes dest i s (suc n) w v
Writes-suc dest i s n w u v t h r = record {
  coherent = r.coherent;
  tables = record {
    open_desc = r.tables.open_desc ∙ t.open_desc;
    file_descs = r.tables.file_descs ∙ t.file_descs;
    dir_descs = r.tables.dir_descs ∙ t.dir_descs;
  };
  bytes = λ a. r.bytes a ∙ overlay-suc (view w) (view u) dest n i s a (h a);
}

-- What a put leaves, once the page is in the buffer.
pub record Put (ptr byte : ℕ) (w w' : World) : Type 0 where
  pub coherent : IsCoherent w'
  pub tables : SameTables w w'
  pub bytes : (a : ℕ) → view w' a ≡ update (view w) ptr byte a
  pub same_errno : w'.errno ≡ w.errno

put_view :
    (ptr byte : ℕ) (u : World)
    → is_ko u.buffer.state ≡ false
    → u.buffer.page_num ≡ ptr / nvm_page_size
    → (a : ℕ)
    → (if a / nvm_page_size == u.buffer.page_num
        then update u.buffer.buf (ptr % nvm_page_size) byte (a % nvm_page_size)
        else u.mem a)
      ≡ update (view u) ptr byte a
unfolding view
put_view ptr byte u k p a = elim (ℕ_discrete a ptr) [ yes e ↦ ground arith | no n ↦ ground arith ]

update-cong : (m m' : Bytes) (p v a : ℕ) → m a ≡ m' a → update m p v a ≡ update m' p v a
update-cong m m' p v a e = ground arith

buffer_put-Put :
    (ptr byte : ℕ) (w u : World)
    → Entered ptr w u
    → Ensures (λ _ w'. Put ptr byte w w') (λ _ _. ⊥) (buffer_put (ptr % nvm_page_size) byte u)
unfolding buffer_put view
buffer_put-Put ptr byte w u e = record {
  coherent = record { loaded = λ _. e.kept.coherent.loaded e.in_use; clean = λ h. absurd (cc) };
  tables = record {
    open_desc = e.kept.tables.open_desc;
    file_descs = e.kept.tables.file_descs;
    dir_descs = e.kept.tables.dir_descs;
  };
  bytes = λ a.
      put_view ptr byte u e.in_use e.page a
      ∙ update-cong (view u) (view w) ptr byte a (e.kept.same_view a);
  same_errno = e.same_errno;
}

module _ {nvm : Nvm} (laws : IsNvm nvm) (dest : ℕ) (s : Bytes) where
  abbrev pub put_next : ℕ → World → Outcome (Unit {0}) (Unit {0})
  put_next i = buffer_enter nvm (dest + i) >> buffer_put ((dest + i) % nvm_page_size) (s i)

  pub put_next-Put :
      (i : ℕ) (w : World)
      → IsCoherent w
      → Ensures (λ _ w'. Put (dest + i) (s i) w w') (λ _ w'. Failed nvm w w') (put_next i w)
  put_next-Put i w c =
      Ensures-bind _ _ (buffer_enter nvm (dest + i) w)
        (λ _. buffer_put ((dest + i) % nvm_page_size) (s i))
        (buffer_enter-Enters laws (dest + i) w c)
        (λ _ u e.
          Ensures-mono {P' = λ _ w'. Put (dest + i) (s i) w w'} {Q' = λ _ w'. Failed nvm w w'} _
            (buffer_put-Put (dest + i) (s i) w u e) (λ _ v p. p) (λ _ v f. absurd f))
        (λ _ u f. f)

  write_loop-Writes :
      (k i : ℕ) (w : World)
      → IsCoherent w
      → WritesAll nvm dest i s k w (write_loop nvm k dest s i w)
  unfolding write_loop
  write_loop-Writes zero i w c = (Writes-zero dest i s w w (Kept-refl w c), refl)
  write_loop-Writes (suc k) i w c =
      Ensures-bind _ _ (put_next i w) (λ _. write_loop nvm k dest s (i + 1)) (put_next-Put i w c)
        (λ _ u p.
          Ensures-mono {P' = λ _ w'. Writes dest i s (suc k) w w' × (w'.errno ≡ w.errno)}
            {Q' = λ _ w'. Stops nvm dest i s (suc k) w w'} (write_loop nvm k dest s (i + 1) u)
            (write_loop-Writes k (i + 1) u p.coherent)
            (λ _ v (r, e). (Writes-suc dest i s k w u v p.tables p.bytes r, e ∙ p.same_errno))
            (λ _ v (n, le, r, bad).
              (suc n, omega arith, Writes-suc dest i s n w u v p.tables p.bytes r, bad)))
        (λ _ u f. (0, omega arith, Writes-zero dest i s w u f.kept, f.at_fault))

  -- On a coherent buffer, xipfs_buffer_write at a non-null address lays the `len` bytes over the
  -- view, changes no other byte of it, and keeps the error number; if it fails, the device is at
  -- fault and a first part of the bytes was laid. The buffer stays coherent.
  pub buffer_write_lem :
      (len : ℕ) (w : World)
      → IsCoherent w
      → dest ≢ 0
      → WritesAll nvm dest 0 s len w (buffer_write nvm dest s len w)
  unfolding buffer_write
  buffer_write_lem len w c ne =
      let e : (dest == 0) ≡ false = ground arith in rw e (write_loop-Writes len 0 w c)
