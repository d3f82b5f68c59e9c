-- ===== src/Driver/Files/Write.antt =====
-- src/driver.c: what xipfs_write writes.
use native.Mathlib.Decide.{ℕ_discrete, dec_lt}
use xipfs.Base.{
  ℕ, zero, suc, ◌+◌, ◌-◌, ◌≤◌, ◌<◌, ◌≡◌, ◌≢◌, min, refl, ap, subst, ◌∙◌, arith, true, false, Bytes,
  ltb, ltb-false, ltb→lt, overlay, Bool, Bool-cases, inl, inr, ◌⊎◌, some, not, ◌&&◌, ◌||◌, leb,
  ◌==◌, int_max,
}
use xipfs.Posix.{Posix}
use xipfs.State.{
  World, Mount, FileDesc, refuse_if, bind_done, done, or_fail, Ensures, Ensures-mono, Ensures-bind,
  Ensures-or_fail, ◌>>◌,
}
use xipfs.Flash.{Nvm}
use xipfs.Flash.Laws.{IsNvm}
use xipfs.Buffer.View.{view, IsReliable}
use xipfs.Buffer.Write.{Writes}
use xipfs.Desc.{file_desc_tracked}
use xipfs.File.{file_buf, file_get_max_pos, file_write_8}
use xipfs.Driver.Checks.{has, o_wronly, o_rdwr}
use xipfs.Driver.Files.{checked_desc, check_writable, write_loop, write, set_pos}
use xipfs.Driver.Files.Access.{IsDesc, checked_desc-IsDesc}
use xipfs.Driver.Volume.Check.{IsMount, with_mount-none}
use xipfs.Driver.Files.Ready.{
  IsStored, IsReady, last_pos, Moved, moved, moved-Moved, Moved-trans, IsReady-descs,
  IsReady-write_8, ready-max_pos,
}

module _ {nvm : Nvm} (laws : IsNvm nvm) (infos : ℕ) (m : Bytes) (filp : ℕ) (st : IsStored m filp)
    (descp : ℕ) (src : Bytes) where
  -- `n` bytes, from `src i` on, have gone to the file from the position of the descriptor on.
  pub record Wrote (i n : ℕ) (w u : World) : Type 0 where
    pub ready : IsReady m filp st u
    pub desc : Moved descp ((w.file_descs descp).pos + n) w u
    pub bytes :
        (a : ℕ)
        → view u a
          ≡ overlay (view w) (file_buf filp (w.file_descs descp).pos) (λ j. src (i + j)) n a

  Failing : Posix → World → Type 0
  Failing e u = (e ≡ Posix.eio) × (IsReliable nvm → ⊥)

  write_there :
      (i : ℕ) (w : World)
      → IsReady m filp st w
      → (w.file_descs descp).filp ≡ filp
      → (w.file_descs descp).pos < last_pos m filp
      → Ensures
          (λ _ u.
            IsReady m filp st u
            × Writes (file_buf filp (w.file_descs descp).pos) 0 (λ _. src i) 1 w u)
          (λ e u. Failing e u)
          (or_fail Posix.eio
            (file_write_8 nvm (w.file_descs descp).filp (w.file_descs descp).pos (src i))
            w)
  unfolding Failing
  write_there i w r hf lt = rw hf (
      Ensures-or_fail _ _ Posix.eio (file_write_8 nvm filp (w.file_descs descp).pos (src i) w) w
        (IsReady-write_8 m filp st laws w r (w.file_descs descp).pos (src i) (omega (arith, lt))))

  one_byte :
      (i p : ℕ) (v : Bytes) (a : ℕ)
      → overlay v (file_buf filp p + 0) (λ _. src i) 1 a
        ≡ overlay v (file_buf filp p) (λ j. src (i + j)) 1 a
  one_byte i p v a = elim (ℕ_discrete a (file_buf filp p)) [
    | yes e ↦
        let h : src (i + (a - file_buf filp p)) ≡ src i = ap src (omega arith) in
        ground (arith, e, h)
    | no n ↦ ground arith
  ]

  -- The position behind one byte.
  Wrote-one :
      (i : ℕ) (w u : World)
      → IsReady m filp st u
      → Writes (file_buf filp (w.file_descs descp).pos) 0 (λ _. src i) 1 w u
      → Wrote i 1 w (moved descp ((u.file_descs descp).pos + 1) u)
  unfolding view
  Wrote-one i w u s wr = record {
    ready = IsReady-descs m filp st u _ s;
    desc =
        subst (λ p. Moved descp p w (moved descp ((u.file_descs descp).pos + 1) u))
          (ap (λ (f : ℕ → FileDesc). (f descp).pos + 1) wr.tables.file_descs)
          (moved-Moved descp ((u.file_descs descp).pos + 1) w u wr.tables);
    bytes = λ a. wr.bytes a ∙ one_byte i (w.file_descs descp).pos (view w) a;
  }

  two_parts :
      (i n p p' : ℕ) (v v' : Bytes) (a : ℕ)
      → p' ≡ p + 1
      → v' a ≡ overlay v (file_buf filp p) (λ j. src (i + j)) 1 a
      → overlay v' (file_buf filp p') (λ j. src (i + 1 + j)) n a
        ≡ overlay v (file_buf filp p) (λ j. src (i + j)) (suc n) a
  two_parts i n p p' v v' a e h = elim (dec_lt (file_buf filp p) a) [
    | yes l ↦
        let same : src (i + 1 + (a - file_buf filp p')) ≡ src (i + (a - file_buf filp p)) =
          ap src (omega (arith, e, l)) in
        ground (arith, e, h, l, same)
    | no n ↦ ground (arith, e, h)
  ]

  -- The rest of a write.
  Wrote-suc : (i n : ℕ) (w u v : World) → Wrote i 1 w u → Wrote (i + 1) n u v → Wrote i (suc n) w v
  Wrote-suc i n w u v p q =
      let behind : (u.file_descs descp).pos ≡ (w.file_descs descp).pos + 1 =
        ap (λ (d : FileDesc). d.pos) p.desc.at in
      let end : (u.file_descs descp).pos + n ≡ (w.file_descs descp).pos + suc n =
        omega (arith, behind) in
      record {
        ready = q.ready;
        desc = Moved-trans descp _ _ w u v p.desc (subst (λ x. Moved descp x u v) end q.desc);
        bytes = λ a. q.bytes a ∙ two_parts i n _ _ (view w) (view u) a behind (p.bytes a);
      }

  Wrote-zero : (i : ℕ) (w : World) → IsReady m filp st w → Wrote i 0 w w
  Wrote-zero i w r =
      let e : (w.file_descs descp).pos ≡ (w.file_descs descp).pos + 0 = omega arith in
      record {
        ready = r;
        desc = record {
          at = ap (λ (p : ℕ). record (w.file_descs descp) { pos = p }) e;
          others = λ d ne. refl;
          table = refl;
        };
        bytes = λ a. ground arith;
      }

  -- What a write of `k` bytes returns and leaves.
  abbrev pub Written : ℕ → ℕ → World → ℕ → World → Type 0
  Written k i w r u =
      let n = min k (last_pos m filp - (w.file_descs descp).pos) in (r ≡ i + n) × Wrote i n w u

  write_loop_lem :
      (k i : ℕ) (w : World)
      → IsReady m filp st w
      → (w.file_descs descp).filp ≡ filp
      → Ensures
          (λ r u. Written k i w r u)
          (λ e u. Failing e u)
          (write_loop nvm infos descp (last_pos m filp) src k i w)
  unfolding write_loop
  write_loop_lem zero i w r hf =
      (omega arith, subst (λ n. Wrote i n w w) {x = 0} (omega arith) (Wrote-zero i w r))
  write_loop_lem (suc k) i w r hf =
      elim (Bool-cases (ltb (w.file_descs descp).pos (last_pos m filp))) [
        | inl t ↦ rw t (
            Ensures-bind _ _
              (or_fail Posix.eio
                (file_write_8 nvm (w.file_descs descp).filp (w.file_descs descp).pos (src i)) w)
              (λ _.
                (λ u. set_pos descp ((u.file_descs descp).pos + 1) u)
                >> write_loop nvm infos descp (last_pos m filp) src k (i + 1))
              (write_there i w r hf (ground (arith, t)))
              (λ _ u (s, wr).
                let v = moved descp ((u.file_descs descp).pos + 1) u in
                let p = Wrote-one i w u s wr in
                let behind : (v.file_descs descp).pos ≡ (w.file_descs descp).pos + 1 =
                  ap (λ (d : FileDesc). d.pos) p.desc.at in
                let same : (v.file_descs descp).filp ≡ filp =
                  ap (λ (d : FileDesc). d.filp) p.desc.at ∙ hf in
                let lt = ltb→lt _ _ t in
                let count : suc (min k (last_pos m filp - (v.file_descs descp).pos))
                    ≡ min (suc k) (last_pos m filp - (w.file_descs descp).pos) =
                  omega (arith, behind, lt) in
                Ensures-mono {P' = λ x y. Written (suc k) i w x y} {Q' = λ e y. Failing e y}
                  (write_loop nvm infos descp (last_pos m filp) src k (i + 1) v)
                  (write_loop_lem k (i + 1) v p.ready same)
                  (λ x y (e, q). (
                    omega (arith, e, count),
                    subst (λ n. Wrote i n w y) count (Wrote-suc i _ w v y p q),
                  ))
                  (λ e y f. f))
              (λ e u f. f))
        | inr t ↦ rw t (
          omega (arith, ltb-false _ _ t),
          subst (λ n. Wrote i n w w) {x = 0} (omega (arith, ltb-false _ _ t)) (Wrote-zero i w r),
        )
      ]

  -- Why a write fails.
  abbrev pub Refused : ℕ → World → Posix → World → Type 0
  Refused nbytes w e u =
      ((e ≡ Posix.edquot) × (u ≡ w) × (0 < nbytes) × (last_pos m filp ≤ (w.file_descs descp).pos))
      ⊎ ((e ≡ Posix.eio) × (IsReliable nvm → ⊥))

  module _ (mp : Mount) (v : IsMount mp) (w : World) (d : IsDesc mp descp w)
      (t : file_desc_tracked descp w ≡ done tt w) (hf : (w.file_descs descp).filp ≡ filp)
      (ready : IsReady m filp st w) (real : filp ≢ infos)
      (mode : (has (w.file_descs descp).flags o_wronly || has (w.file_descs descp).flags o_rdwr)
        ≡ true)
      (nbytes : ℕ) (small : nbytes ≤ int_max) where
    abbrev full : Bool
    full = ltb 0 nbytes && leb (last_pos m filp) (w.file_descs descp).pos

    write-write_loop :
        write nvm infos (some mp) descp (some src) nbytes w
        ≡ (refuse_if full Posix.edquot >> write_loop nvm infos descp (last_pos m filp) src nbytes 0)
            w
    unfolding write
    write-write_loop =
        let s : ltb int_max nbytes ≡ false = ground arith in
        let n : (not (has (w.file_descs descp).flags o_wronly)
              && not (has (w.file_descs descp).flags o_rdwr))
            ≡ false =
          ground arith in
        let f : ((w.file_descs descp).filp == infos) ≡ false = ground (arith, hf) in
        let max : or_fail Posix.eio (file_get_max_pos (w.file_descs descp).filp) w
            ≡ done (last_pos m filp) w =
          ap (λ (p : ℕ). or_fail Posix.eio (file_get_max_pos p) w) hf
          ∙ ap (λ o. or_fail Posix.eio (λ _. o) w) (ready-max_pos m filp st laws w ready) in
        with_mount-none laws mp _ w v
        ∙ bind_done (checked_desc nvm infos mp descp (λ _. Posix.ebadf) w) tt w _
            (checked_desc-IsDesc mp descp w nvm infos (λ _. Posix.ebadf) d t)
        ∙ bind_done (refuse_if (ltb int_max nbytes) Posix.einval w) tt w _
            (ap (λ b. refuse_if b Posix.einval w) s)
        ∙ bind_done (check_writable nvm infos descp w) tt w _
            (ap (λ b. refuse_if b Posix.eacces w) n)
        ∙ bind_done (refuse_if ((w.file_descs descp).filp == infos) Posix.ebadf w) tt w _
            (ap (λ b. refuse_if b Posix.ebadf w) f)
        ∙ bind_done (or_fail Posix.eio (file_get_max_pos (w.file_descs descp).filp) w)
            (last_pos m filp) w _ max

    -- On an open file of the mount point, through a tracked descriptor that is open for writing, if
    -- the file passes the check, its fields have reached the flash and the buffer is coherent:
    -- xipfs_write of `nbytes` bytes, which an `int` can count, writes as many of them as there are
    -- positions below the largest one, from the position of the descriptor on, moves the
    -- descriptor behind them and returns their number; no other byte that the buffer shows
    -- changes, nor another descriptor. It succeeds only if no byte is asked for or the position is
    -- below the largest one, and it refuses with -EDQUOT, in the state as it was, only if bytes are
    -- asked for and the position is not below it. If it fails otherwise, it is with -EIO, and the
    -- device is at fault.
    pub write_lem :
        Ensures
          (λ r u.
            ((nbytes ≡ 0) ⊎ ((w.file_descs descp).pos < last_pos m filp)) × Written nbytes 0 w r u)
          (λ e u. Refused nbytes w e u)
          (write nvm infos (some mp) descp (some src) nbytes w)
    unfolding Failing
    write_lem = rw write-write_loop (elim (Bool-cases full) [
      | inl b ↦ rw b (inl (refl, refl, ground arith, ground arith))
      | inr b ↦ rw b (
          Ensures-mono
            {P' = λ r u.
              ((nbytes ≡ 0) ⊎ ((w.file_descs descp).pos < last_pos m filp))
              × Written nbytes 0 w r u}
            {Q' = λ e u. Refused nbytes w e u}
            (write_loop nvm infos descp (last_pos m filp) src nbytes 0 w)
            (write_loop_lem nbytes 0 w ready hf) (λ r u p. (ground (arith, b), p)) (λ e u f. inr f))
    ])
