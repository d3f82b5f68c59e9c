-- ===== src/Driver/Files/Read.antt =====
-- src/driver.c: what xipfs_read reads.
use Prim.Native.Nat.{bit_and}
use native.Mathlib.Decide.{dec_lt}
use xipfs.Base.{
  ℕ, zero, suc, ◌+◌, ◌-◌, ◌≤◌, ◌<◌, ◌≡◌, ◌≢◌, ◌⊎◌, min, refl, ap, sym, subst, ◌∙◌, arith, Bool,
  true, false, not, ◌&&◌, ◌||◌, some, Bytes, ltb, leb, ◌==◌, ltb-false, ltb→lt, if◌then◌else◌,
  update, Bool-cases, inl, inr, int_max,
}
use xipfs.Posix.{Posix}
use xipfs.State.{
  World, Mount, FileDesc, Outcome, done, M, or_fail, refuse_if, bind_done, Ensures, Ensures-mono,
  Ensures-bind, Ensures-or_fail, ◌>>=◌, ◌>>◌,
}
use xipfs.Flash.{Nvm}
use xipfs.Flash.Laws.{IsNvm}
use xipfs.Buffer.View.{view, IsReliable, Kept}
use xipfs.Buffer.Words.{Got}
use xipfs.Desc.{file_desc_tracked}
use xipfs.File.{file_buf, file_get_size, file_read_8}
use xipfs.File.Sizes.{HasSlots, size_of}
use xipfs.Driver.Checks.{o_accmode, o_rdwr}
use xipfs.Driver.Files.{checked_desc, read_loop, read, set_pos}
use xipfs.Driver.Files.Access.{IsDesc, checked_desc-IsDesc}
use xipfs.Driver.Volume.Check.{IsMount, with_mount-none}
use xipfs.Driver.Files.Ready.{
  IsStored, IsReady, last_pos, Moved, moved, moved-Moved, Moved-trans, IsReady-descs,
  IsReady-read_8, IsReady-get_size,
}

module _ {nvm : Nvm} (laws : IsNvm nvm) (infos : ℕ) (m : Bytes) (filp : ℕ) (st : IsStored m filp)
    (descp : ℕ) where
  -- `n` bytes of the file, from the position of the descriptor on, have gone to the array, from its
  -- index `i` on; nothing that the buffer shows has changed.
  pub record ReadInto (i n : ℕ) (dest : Bytes) (w : World) (d : Bytes) (u : World) : Type 0 where
    pub ready : IsReady m filp st u
    pub desc : Moved descp ((w.file_descs descp).pos + n) w u
    pub same_view : (a : ℕ) → view u a ≡ view w a
    pub bytes :
        (j : ℕ)
        → d j ≡ (
            if leb i j && ltb j (i + n)
            then view w (file_buf filp ((w.file_descs descp).pos + (j - i)))
            else dest j)

  Failing : Posix → World → Type 0
  Failing e u = (e ≡ Posix.eio) × (IsReliable nvm → ⊥)

  read_there :
      (w : World)
      → IsReady m filp st w
      → (w.file_descs descp).filp ≡ filp
      → (w.file_descs descp).pos ≤ last_pos m filp
      → Ensures
          (λ byte u.
            IsReady m filp st u × Got (view w (file_buf filp (w.file_descs descp).pos)) byte w u)
          (λ e u. Failing e u)
          (or_fail Posix.eio (file_read_8 nvm (w.file_descs descp).filp (w.file_descs descp).pos) w)
  unfolding Failing
  read_there w r hf le = rw hf (
      Ensures-or_fail _ _ Posix.eio (file_read_8 nvm filp (w.file_descs descp).pos w) w
        (IsReady-read_8 m filp st laws w r (w.file_descs descp).pos le))

  ReadInto-zero :
      (i : ℕ) (dest : Bytes) (w : World) → IsReady m filp st w → ReadInto i 0 dest w dest w
  ReadInto-zero i dest w r =
      let e : (w.file_descs descp).pos ≡ (w.file_descs descp).pos + 0 = omega arith in
      record {
        ready = r;
        desc = record {
          at = ap (λ (p : ℕ). record (w.file_descs descp) { pos = p }) e;
          others = λ d ne. refl;
          table = refl;
        };
        same_view = λ a. refl;
        bytes = λ j. ground arith;
      }

  -- One byte, and then the rest.
  step :
      (i n p p' byte : ℕ) (dest d v v' : Bytes) (j : ℕ)
      → p' ≡ p + 1
      → byte ≡ v (file_buf filp p)
      → ((a : ℕ) → v' a ≡ v a)
      → d j ≡ (
          if leb (i + 1) j && ltb j (i + 1 + n)
          then v' (file_buf filp (p' + (j - (i + 1))))
          else update dest i byte j)
      → d j ≡ (if leb i j && ltb j (i + suc n) then v (file_buf filp (p + (j - i))) else dest j)
  step i n p p' byte dest d v v' j e b same h = elim (dec_lt i j) [
    | yes l ↦
        let s : v' (file_buf filp (p' + (j - (i + 1)))) ≡ v (file_buf filp (p + (j - i))) =
          same _ ∙ ap (λ q. v (file_buf filp q)) (omega (arith, e, l)) in
        ground (arith, h, s, l)
    | no n0 ↦
        let s : i ≡ j → v (file_buf filp (p + (j - i))) ≡ v (file_buf filp p) =
          λ x. ap (λ q. v (file_buf filp q)) (omega (arith, x)) in
        ground (arith, h, s, b)
  ]

  -- What a read of `k` bytes below `size` returns and leaves.
  abbrev pub HasRead : ℕ → ℕ → ℕ → Bytes → World → ℕ × Bytes → World → Type 0
  HasRead size k i dest w r u =
      let n = min k (size - (w.file_descs descp).pos) in (r.0 ≡ i + n) × ReadInto i n dest w r.1 u

  ReadInto-suc :
      (i n byte : ℕ) (dest d : Bytes) (w u v : World)
      → Got (view w (file_buf filp (w.file_descs descp).pos)) byte w u
      → ReadInto (i + 1) n (update dest i byte) (moved descp ((u.file_descs descp).pos + 1) u) d v
      → ReadInto i (suc n) dest w d v
  unfolding view
  ReadInto-suc i n byte dest d w u v g q =
      let x = moved descp ((u.file_descs descp).pos + 1) u in
      let first =
        subst (λ p. Moved descp p w x)
          (ap (λ (f : ℕ → FileDesc). (f descp).pos + 1) g.kept.tables.file_descs)
          (moved-Moved descp ((u.file_descs descp).pos + 1) w u g.kept.tables) in
      let behind : (x.file_descs descp).pos ≡ (w.file_descs descp).pos + 1 =
        ap (λ (d : FileDesc). d.pos) first.at in
      let end : (x.file_descs descp).pos + n ≡ (w.file_descs descp).pos + suc n =
        omega (arith, behind) in
      record {
        ready = q.ready;
        desc = Moved-trans descp _ _ w x v first (subst (λ p. Moved descp p x v) end q.desc);
        same_view = λ a. q.same_view a ∙ g.kept.same_view a;
        bytes = λ j.
            step i n _ _ byte dest d (view w) (view x) j behind g.value (λ a. g.kept.same_view a)
              (q.bytes j);
      }

  read_loop_lem :
      (size k i : ℕ) (dest : Bytes) (w : World)
      → IsReady m filp st w
      → (w.file_descs descp).filp ≡ filp
      → size ≤ last_pos m filp + 1
      → Ensures
          (λ r u. HasRead size k i dest w r u)
          (λ e u. Failing e u)
          (read_loop nvm infos descp size k i dest w)
  unfolding read_loop
  read_loop_lem size zero i dest w r hf le = (
    omega arith,
    subst (λ n. ReadInto i n dest w dest w) {x = 0} (omega arith) (ReadInto-zero i dest w r),
  )
  read_loop_lem size (suc k) i dest w r hf le =
      elim (Bool-cases (ltb (w.file_descs descp).pos size)) [
        | inl t ↦ rw t (
            Ensures-bind _ _
              (or_fail Posix.eio
                (file_read_8 nvm (w.file_descs descp).filp (w.file_descs descp).pos) w)
              (λ byte.
                (λ u. set_pos descp ((u.file_descs descp).pos + 1) u)
                >> read_loop nvm infos descp size k (i + 1) (update dest i byte))
              (read_there w r hf (omega (arith, ltb→lt _ _ t, le)))
              (λ byte u (s, g).
                let v = moved descp ((u.file_descs descp).pos + 1) u in
                let at = (moved-Moved descp ((u.file_descs descp).pos + 1) w u g.kept.tables).at in
                let old : (u.file_descs descp).pos ≡ (w.file_descs descp).pos =
                  ap (λ (f : ℕ → FileDesc). (f descp).pos) g.kept.tables.file_descs in
                let behind : (v.file_descs descp).pos ≡ (u.file_descs descp).pos + 1 =
                  ap (λ (d : FileDesc). d.pos) at in
                let same : (v.file_descs descp).filp ≡ filp =
                  ap (λ (d : FileDesc). d.filp) at ∙ hf in
                let lt = ltb→lt _ _ t in
                let count : suc (min k (size - (v.file_descs descp).pos))
                    ≡ min (suc k) (size - (w.file_descs descp).pos) =
                  omega (arith, behind, old, lt) in
                Ensures-mono {P' = λ x y. HasRead size (suc k) i dest w x y}
                  {Q' = λ e y. Failing e y}
                  (read_loop nvm infos descp size k (i + 1) (update dest i byte) v)
                  (read_loop_lem size k (i + 1) (update dest i byte) v
                    (IsReady-descs m filp st u _ s) same le)
                  (λ x y (e, q). (
                    omega (arith, e, count),
                    subst (λ n. ReadInto i n dest w x.1 y) count
                        (ReadInto-suc i _ byte dest x.1 w u y g q),
                  ))
                  (λ e y f. f))
              (λ e u f. f))
        | inr t ↦ rw t (
          omega (arith, ltb-false _ _ t),
          subst (λ n. ReadInto i n dest w dest w) {x = 0} (omega (arith, ltb-false _ _ t))
              (ReadInto-zero i dest w r),
        )
      ]

  -- A read that begins in a state that shows the same.
  HasRead-Kept :
      (size k : ℕ) (dest : Bytes) (w u : World) (r : ℕ × Bytes) (v : World)
      → Kept w u
      → HasRead size k 0 dest u r v
      → HasRead size k 0 dest w r v
  HasRead-Kept size k dest w u r v kept (e, q) =
      let d = ap (λ (f : ℕ → FileDesc). f descp) kept.tables.file_descs in
      let old : (u.file_descs descp).pos ≡ (w.file_descs descp).pos =
        ap (λ (d : FileDesc). d.pos) d in
      let count : min k (size - (u.file_descs descp).pos)
          ≡ min k (size - (w.file_descs descp).pos) =
        omega (arith, old) in
      let end : (u.file_descs descp).pos + min k (size - (u.file_descs descp).pos)
          ≡ (w.file_descs descp).pos + min k (size - (w.file_descs descp).pos) =
        omega (arith, old, count) in
      (
        omega (arith, e, count),
        record {
          ready = q.ready;
          desc =
              subst (λ p. Moved descp p w v) end
                (record {
                  at =
                      q.desc.at
                      ∙ ap
                          (λ (f : FileDesc). record f {
                            pos =
                                (u.file_descs descp).pos + min k (size - (u.file_descs descp).pos);
                          })
                          d;
                  others = λ x ne.
                      q.desc.others x ne ∙ ap (λ (f : ℕ → FileDesc). f x) kept.tables.file_descs;
                  table = q.desc.table ∙ kept.tables.open_desc;
                });
          same_view = λ a. q.same_view a ∙ kept.same_view a;
          bytes = λ j.
              let s : view u (file_buf filp ((u.file_descs descp).pos + (j - 0)))
                  ≡ view w (file_buf filp ((w.file_descs descp).pos + (j - 0))) =
                kept.same_view _ ∙ ap (λ (p : ℕ). view w (file_buf filp (p + (j - 0)))) old in
              ground (arith, q.bytes j, s, count);
        },
      )

  module _ (mp : Mount) (v : IsMount mp) (w : World) (d : IsDesc mp descp w)
      (t : file_desc_tracked descp w ≡ done tt w) (hf : (w.file_descs descp).filp ≡ filp)
      (ready : IsReady m filp st w) (real : filp ≢ infos)
      (mode : (let acc = bit_and (w.file_descs descp).flags o_accmode in acc == 0 || acc == o_rdwr)
        ≡ true)
      (nbytes : ℕ) (small : nbytes ≤ int_max) (n : ℕ) (h : HasSlots (view w) filp n)
      (fits : size_of (view w) filp n ≤ last_pos m filp + 1) (dest : Bytes) where
    abbrev rest : ℕ → M Posix (ℕ × Bytes)
    rest size =
        (λ u. refuse_if (ltb 0 nbytes && leb size (u.file_descs descp).pos) Posix.eio u)
        >> read_loop nvm infos descp size nbytes 0 dest

    read-rest :
        (bytes : Bytes)
        → read nvm infos bytes (some mp) descp (some dest) nbytes w
          ≡ (or_fail Posix.eio (file_get_size nvm filp) >>= rest) w
    unfolding read
    read-rest bytes =
        let virtual : (not (descp == 0) && (w.file_descs descp).filp == infos) ≡ false =
          ground (arith, hf) in
        let s : ltb int_max nbytes ≡ false = ground arith in
        let a : not
              (let acc = bit_and (w.file_descs descp).flags o_accmode in acc == 0 || acc == o_rdwr)
            ≡ false =
          ap not mode in
        rw virtual (
          with_mount-none laws mp _ w v
          ∙ bind_done (checked_desc nvm infos mp descp (λ e. e) w) tt w _
              (checked_desc-IsDesc mp descp w nvm infos (λ e. e) d t)
          ∙ bind_done (refuse_if (ltb int_max nbytes) Posix.einval w) tt w _
              (ap (λ b. refuse_if b Posix.einval w) s)
          ∙ bind_done
              (refuse_if
                (not (
                  let acc = bit_and (w.file_descs descp).flags o_accmode in
                  acc == 0 || acc == o_rdwr))
                Posix.eacces w)
              tt w _ (ap (λ b. refuse_if b Posix.eacces w) a)
          ∙ ap (λ (p : ℕ). (or_fail Posix.eio (file_get_size nvm p) >>= rest) w) hf)

    -- Why a read fails.
    abbrev Unread : Posix → World → Type 0
    Unread e u =
        (e ≡ Posix.eio)
        × (((0 < nbytes) × (size_of (view w) filp n ≤ (w.file_descs descp).pos))
            ⊎ (IsReliable nvm → ⊥))

    -- What a read returns and leaves, and when it is possible.
    abbrev Readable : ℕ × Bytes → World → Type 0
    Readable r u =
        ((nbytes ≡ 0) ⊎ ((w.file_descs descp).pos < size_of (view w) filp n))
        × HasRead (size_of (view w) filp n) nbytes 0 dest w r u

    abbrev Reads : Outcome Posix (ℕ × Bytes) → Type 0
    Reads o = Ensures (λ r u. Readable r u) (λ e u. Unread e u) o

    abbrev tested : ℕ → World → Bool → Outcome Posix (ℕ × Bytes)
    tested size u b = (refuse_if b Posix.eio >> read_loop nvm infos descp size nbytes 0 dest) u

    rest_lem :
        (size : ℕ) (u : World)
        → IsReady m filp st u
        → Kept w u
        → (u.file_descs descp).filp ≡ filp
        → size ≡ size_of (view w) filp n
        → Reads (rest size u)
    unfolding Failing
    rest_lem size u s kept same e =
        let old : (u.file_descs descp).pos ≡ (w.file_descs descp).pos =
          ap (λ (f : ℕ → FileDesc). (f descp).pos) kept.tables.file_descs in
        elim (Bool-cases (ltb 0 nbytes && leb size (u.file_descs descp).pos)) [
          | inl b ↦
              subst Reads (sym (ap (tested size u) b))
                (refl, inl (ground arith, ground (arith, b, old, e)))
          | inr b ↦ subst Reads (sym (ap (tested size u) b)) (
              Ensures-mono {P' = λ r x. Readable r x} {Q' = λ e x. Unread e x}
                (read_loop nvm infos descp size nbytes 0 dest u)
                (read_loop_lem size nbytes 0 dest u s same (omega (arith, e, fits)))
                (λ r x q. (
                  ground (arith, b, old, e),
                  HasRead-Kept (size_of (view w) filp n) nbytes dest w u r x kept
                      (subst (λ z. HasRead z nbytes 0 dest u r x) e q),
                ))
                (λ e x f. (f.0, inr f.1)))
        ]

    -- On an open file of the mount point, through a tracked descriptor that is open for reading, if
    -- the file passes the check, its fields have reached the flash, its slots in use come first and
    -- its size is at most one more than its largest position, and the buffer is coherent:
    -- xipfs_read of `nbytes` bytes, which an `int` can count, reads as many of them as there are
    -- below the size, from the position of the descriptor on, moves the descriptor behind them and
    -- returns their number; they are what the buffer shows, which does not change, the rest of the
    -- array stays, and so do the other descriptors. It succeeds only if no byte is asked for or the
    -- position is below the size. It fails with -EIO only if bytes are asked for and the position is
    -- not below the size, or if the device is at fault.
    pub read_lem :
        (bytes : Bytes)
        → Ensures
            (λ r u. Readable r u)
            (λ e u. Unread e u)
            (read nvm infos bytes (some mp) descp (some dest) nbytes w)
    unfolding Failing
    read_lem bytes = rw (read-rest bytes) (
        Ensures-bind _ _ (or_fail Posix.eio (file_get_size nvm filp) w) rest
          (Ensures-or_fail _ _ Posix.eio (file_get_size nvm filp w) w
            (IsReady-get_size m filp st laws n w ready h (omega (arith, fits, st.file.reserved))))
          (λ size u (s, kept, e).
            let same : (u.file_descs descp).filp ≡ filp =
              ap (λ (f : ℕ → FileDesc). (f descp).filp) kept.tables.file_descs ∙ hf in
            rest_lem size u s kept same e)
          (λ e u (q, bad). (q, inr bad)))
