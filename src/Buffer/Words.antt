-- ===== src/Buffer/Words.antt =====
-- The buffered accesses of one byte and of one word, and a write that is flushed.
use xipfs.Base.{
  ℕ, ◌+◌, ◌≤◌, ◌≡◌, ◌≢◌, ◌∙◌, Bytes, arith, ap, ◌&&◌, ltb, leb, if◌then◌else◌, read_32, read_32-ext,
  overlay, overlay-zero_base,
}
use xipfs.State.{World, Ensures, Ensures-bind, Ensures-mono, ◌>>◌, pure}
use xipfs.Flash.{Nvm}
use xipfs.Flash.Laws.{IsNvm}
use xipfs.Buffer.{buffer_read, buffer_read_8, buffer_read_32, buffer_write, buffer_flush}
use xipfs.Buffer.View.{view, IsCoherent, SameTables, Kept, IsReliable}
use xipfs.Buffer.Flush.{Failed, Flushed, buffer_flush_lem}
use xipfs.Buffer.Read.{buffer_read_lem}
use xipfs.Buffer.Write.{Writes, Stops, buffer_write_lem}

-- A read that returned `v`, and changed no byte of the view.
pub record Got (v x : ℕ) (w w' : World) : Type 0 where
  pub kept : Kept w w'
  pub same_errno : w'.errno ≡ w.errno
  pub value : x ≡ v

module _ {nvm : Nvm} (laws : IsNvm nvm) (a : ℕ) (ne : a ≢ 0) (w : World) (c : IsCoherent w) where
  -- xipfs_buffer_read_8 returns the byte of the view.
  pub buffer_read_8_lem :
      Ensures (λ x w'. Got (view w a) x w w') (λ _ w'. Failed nvm w w') (buffer_read_8 nvm a w)
  unfolding buffer_read_8
  buffer_read_8_lem =
      Ensures-bind _ _ (buffer_read nvm (λ _. 0) a 1 w) (λ d. pure (d 0))
        (buffer_read_lem laws a (λ _. 0) 1 w c ne)
        (λ d u r. record {
          kept = r.kept;
          same_errno = r.same_errno;
          value = r.bytes 0 ∙ ap (view w) (omega arith);
        })
        (λ _ u f. f)

  -- On a coherent buffer, xipfs_buffer_read_32 at a non-null address returns the little-endian
  -- word of the view, and changes no byte of the view; it fails only if the device does.
  pub buffer_read_32_lem :
      Ensures
        (λ x w'. Got (read_32 (view w) a) x w w')
        (λ _ w'. Failed nvm w w')
        (buffer_read_32 nvm a w)
  unfolding buffer_read_32
  buffer_read_32_lem =
      Ensures-bind _ _ (buffer_read nvm (λ _. 0) a 4 w) (λ d. pure (read_32 d 0))
        (buffer_read_lem laws a (λ _. 0) 4 w c ne)
        (λ d u r. record {
          kept = r.kept;
          same_errno = r.same_errno;
          value = word d (λ j. r.bytes j);
        })
        (λ _ u f. f)
    where
      word :
          (d : Bytes)
          → ((j : ℕ) → d j ≡ (if leb 0 j && ltb j (0 + 4) then view w (a + j) else 0))
          → read_32 d 0 ≡ read_32 (view w) a
      word d h = read_32-ext (view w) d a 0 λ j lt.
          let e : view w (a + (0 + j)) ≡ view w (a + j) = ap (view w) (omega arith) in
          ground (arith, h (0 + j), e)

-- A write that has reached the flash.
pub record Committed (dest : ℕ) (s : Bytes) (n : ℕ) (w w' : World) : Type 0 where
  pub coherent : IsCoherent w'
  pub tables : SameTables w w'
  pub same_errno : w'.errno ≡ w.errno
  pub bytes : (a : ℕ) → view w' a ≡ overlay (view w) dest s n a
  pub flash : (a : ℕ) → w'.mem a ≡ overlay (view w) dest s n a

-- A write, or the flush after it, that failed: the device is at fault, and at most a first part of
-- the bytes is in the view.
pub record Broken (nvm : Nvm) (dest : ℕ) (s : Bytes) (n : ℕ) (w w' : World) : Type 0 where
  pub coherent : IsCoherent w'
  pub tables : SameTables w w'
  pub at_fault : IsReliable nvm → ⊥
  pub part : (k : ℕ) × (k ≤ n) × ((a : ℕ) → view w' a ≡ overlay (view w) dest s k a)

module _ {nvm : Nvm} (laws : IsNvm nvm) (dest : ℕ) (s : Bytes) (n : ℕ) where
  Committed-Flushed :
      (w u v : World)
      → Writes dest 0 s n w u
      → u.errno ≡ w.errno
      → Flushed u v
      → Committed dest s n w v
  Committed-Flushed w u v r e f = record {
    coherent = f.kept.coherent;
    tables = record {
      open_desc = f.kept.tables.open_desc ∙ r.tables.open_desc;
      file_descs = f.kept.tables.file_descs ∙ r.tables.file_descs;
      dir_descs = f.kept.tables.dir_descs ∙ r.tables.dir_descs;
    };
    same_errno = f.same_errno ∙ e;
    bytes = λ a. f.kept.same_view a ∙ r.bytes a ∙ overlay-zero_base (view w) s dest n a;
    flash = λ a. f.written a ∙ r.bytes a ∙ overlay-zero_base (view w) s dest n a;
  }

  Broken-flush : (w u v : World) → Writes dest 0 s n w u → Failed nvm u v → Broken nvm dest s n w v
  Broken-flush w u v r f = record {
    coherent = f.kept.coherent;
    tables = record {
      open_desc = f.kept.tables.open_desc ∙ r.tables.open_desc;
      file_descs = f.kept.tables.file_descs ∙ r.tables.file_descs;
      dir_descs = f.kept.tables.dir_descs ∙ r.tables.dir_descs;
    };
    at_fault = f.at_fault;
    part = (
      n,
      omega arith,
      λ a. f.kept.same_view a ∙ r.bytes a ∙ overlay-zero_base (view w) s dest n a,
    );
  }

  Broken-write : (w u : World) → Stops nvm dest 0 s n w u → Broken nvm dest s n w u
  Broken-write w u (k, le, r, bad) = record {
    coherent = r.coherent;
    tables = r.tables;
    at_fault = bad;
    part = (k, le, λ a. r.bytes a ∙ overlay-zero_base (view w) s dest k a);
  }

  -- On a coherent buffer, xipfs_buffer_write at a non-null address followed by xipfs_buffer_flush
  -- leaves the bytes in the flash, and every other byte of the flash is what the view showed; the
  -- tables and the error number stay. If one of the two fails, the device is at fault, and the
  -- view is that of before with a first part of the bytes laid over it.
  pub write-flush :
      (w : World)
      → IsCoherent w
      → dest ≢ 0
      → Ensures
          (λ _ w'. Committed dest s n w w')
          (λ _ w'. Broken nvm dest s n w w')
          ((buffer_write nvm dest s n >> buffer_flush nvm) w)
  write-flush w c ne =
      Ensures-bind _ _ (buffer_write nvm dest s n w) (λ _. buffer_flush nvm)
        (buffer_write_lem laws dest s n w c ne)
        (λ _ u (r, e).
          Ensures-mono {P' = λ _ w'. Committed dest s n w w'}
            {Q' = λ _ w'. Broken nvm dest s n w w'} (buffer_flush nvm u)
            (buffer_flush_lem laws u r.coherent) (λ _ v f. Committed-Flushed w u v r e f)
            (λ _ v f. Broken-flush w u v r f))
        (λ _ u f. Broken-write w u f)
