-- ===== src/Buffer/Read.antt =====
-- xipfs_buffer_read reads the view.
use xipfs.Base.{
  ℕ, zero, suc, ◌+◌, ◌/◌, ◌%◌, ◌≡◌, ◌≢◌, refl, false, ◌&&◌, Bytes, update, arith, ap, ◌∙◌, ◌==◌,
  if◌then◌else◌, ltb, leb,
}
use xipfs.State.{World, Outcome, Ensures, Ensures-bind, Ensures-mono}
use xipfs.Flash.{Nvm, nvm_page_size}
use xipfs.Flash.Laws.{IsNvm}
use xipfs.Buffer.{is_ko, buffer_enter, read_loop, buffer_read}
use xipfs.Buffer.View.{view, IsCoherent, Kept, Kept-trans, Kept-refl}
use xipfs.Buffer.Flush.{Failed, Failed-trans}
use xipfs.Buffer.Access.{Entered, buffer_enter-Enters}

-- A read of `k` bytes into `dest` from index `i` on.
pub record Reads (src k i : ℕ) (dest : Bytes) (w : World) (d : Bytes) (w' : World) : Type 0 where
  pub kept : Kept w w'
  pub same_errno : w'.errno ≡ w.errno
  pub bytes : (j : ℕ) → d j ≡ (if leb i j && ltb j (i + k) then view w (src + j) else dest j)

-- The byte at `ptr` of the buffer, once the page of `ptr` is in it.
in_buffer :
    (ptr : ℕ) (w : World)
    → is_ko w.buffer.state ≡ false
    → w.buffer.page_num ≡ ptr / nvm_page_size
    → w.buffer.buf (ptr % nvm_page_size) ≡ view w ptr
unfolding view
in_buffer ptr w k p = ground arith

pub Entered-byte :
    (ptr : ℕ) (w w' : World) → Entered ptr w w' → w'.buffer.buf (ptr % nvm_page_size) ≡ view w ptr
Entered-byte ptr w w' e = in_buffer ptr w' e.in_use e.page ∙ e.kept.same_view ptr

module _ {nvm : Nvm} (laws : IsNvm nvm) (src : ℕ) where
  -- The bytes from `i + 1` on, after byte `i`.
  step :
      (k i : ℕ) (dest v v' : Bytes) (byte : ℕ) (d : Bytes) (j : ℕ)
      → v' (src + j) ≡ v (src + j)
      → byte ≡ v (src + i)
      → d j ≡ (if leb (i + 1) j && ltb j (i + 1 + k) then v' (src + j) else update dest i byte j)
      → d j ≡ (if leb i j && ltb j (i + suc k) then v (src + j) else dest j)
  step k i dest v v' byte d j p q r =
      let e : i ≡ j → v (src + i) ≡ v (src + j) = λ h. ap (λ x. v (src + x)) h in ground (arith, e)

  read_loop-Reads :
      (k i : ℕ) (dest : Bytes) (w : World)
      → IsCoherent w
      → Ensures (Reads src k i dest w) (λ _ w'. Failed nvm w w') (read_loop nvm k src i dest w)
  unfolding read_loop
  read_loop-Reads zero i dest w c = record {
    kept = Kept-refl w c;
    same_errno = refl;
    bytes = λ j. ground arith;
  }
  read_loop-Reads (suc k) i dest w c =
      Ensures-bind _ _ (buffer_enter nvm (src + i) w) (λ _. next)
        (buffer_enter-Enters laws (src + i) w c)
        (λ _ u e.
          Ensures-mono {P' = Reads src (suc k) i dest w} {Q' = λ _ w'. Failed nvm w w'} (next u)
            (read_loop-Reads k (i + 1) (byte u) u e.kept.coherent)
            (λ d v r. record {
              kept = Kept-trans w u v e.kept r.kept;
              same_errno = r.same_errno ∙ e.same_errno;
              bytes = λ j.
                  step k i dest (view w) (view u) _ d j (e.kept.same_view (src + j))
                    (Entered-byte (src + i) w u e) (r.bytes j);
            })
            (λ _ v f. Failed-trans w u v e.kept f))
        (λ _ u f. f)
    where
      byte : World → Bytes
      byte u = update dest i (u.buffer.buf ((src + i) % nvm_page_size))

      next : World → Outcome (Unit {0}) Bytes
      next u = read_loop nvm k src (i + 1) (byte u) u

  -- On a coherent buffer, xipfs_buffer_read of a non-null address replaces the first `len` bytes
  -- of the array by those of the view, and changes neither the view nor the rest of the array; it
  -- fails only if the device does. Nothing is asked of the address beyond that it is not null.
  pub buffer_read_lem :
      (dest : Bytes) (len : ℕ) (w : World)
      → IsCoherent w
      → src ≢ 0
      → Ensures (Reads src len 0 dest w) (λ _ w'. Failed nvm w w') (buffer_read nvm dest src len w)
  unfolding buffer_read
  buffer_read_lem dest len w c ne =
      let e : (src == 0) ≡ false = ground arith in rw e (read_loop-Reads len 0 dest w c)
