-- ===== src/Driver/Files/Seek.antt =====
-- src/driver.c: where xipfs_lseek goes.
use xipfs.Base.{
  ℕ, zero, suc, max, ◌+◌, ◌-◌, ◌≤◌, ◌<◌, ◌≡◌, ◌≢◌, ◌⊎◌, refl, ap, sym, subst, ◌∙◌, arith, Bool,
  false, ◌&&◌, ℤ, pos, negsuc, Option, none, some, Bytes, ltb, ◌==◌, if◌then◌else◌, Bool-cases,
  Option-cases, inl, inr, update,
}
use xipfs.Posix.{Posix}
use xipfs.State.{
  World, Mount, FileDesc, Outcome, done, fail, M, pure, or_fail, bind_done, Ensures, Ensures-mono,
  Ensures-bind, Ensures-or_fail, ◌>>=◌, ◌>>◌,
}
use xipfs.Flash.{Nvm}
use xipfs.Flash.Laws.{IsNvm}
use xipfs.Buffer.View.{view, IsReliable, Kept, SameTables}
use xipfs.Desc.{file_desc_tracked}
use xipfs.File.{file_get_max_pos, file_get_size, file_set_size}
use xipfs.File.Sizes.{HasSlots, size_of}
use xipfs.File.Sizes.Set.{SameTables-trans, file_set_size_lem}
use xipfs.File.Sizes.Get.{same_slot, Kept-HasSlots}
use xipfs.Driver.Files.{checked_desc, seek, limits, lseek, set_pos}
use xipfs.Driver.Files.Access.{IsDesc, checked_desc-IsDesc}
use xipfs.Driver.Volume.Check.{IsMount, with_mount-none}
use xipfs.Driver.Files.Ready.{
  IsStored, IsReady, last_pos, Moved, moved-Moved, ready-max_pos, IsReady-get_size, ready-IsFile,
  ready-reserved, IsReady-descs,
}

-- A file never gets a position beyond its largest one, and none before its first byte.
pub seek_bound :
    (most size p : ℕ) (off : ℤ) (whence x : ℕ)
    → p ≤ most
    → size ≤ most
    → seek most size p off whence ≡ some x
    → x ≤ most
unfolding seek
seek_bound most size p (pos off) whence x lp ls h = ground arith
seek_bound most size p (negsuc k) whence x lp ls h = ground arith

-- The positions that an offset leads to, for SEEK_SET (0), SEEK_CUR (1) and SEEK_END (2) in a file
-- of `size` bytes, from the position `p`; `most` is the largest position. From the start, the largest
-- position itself is not allowed; the end is behind the bytes that were written, whether the size
-- counts them yet or not, and nothing can be added to it.
pub data Leads (most size p : ℕ) : ℤ → ℕ → ℕ → Type 0 where
  from_start : (n : ℕ) → n < most → Leads most size p (pos n) 0 n
  forward : (n : ℕ) → p + n ≤ most → Leads most size p (pos n) 1 (p + n)
  back : (k x : ℕ) → x + k + 1 ≡ p → Leads most size p (negsuc k) 1 x
  to_end : Leads most size p (pos 0) 2 (max p size)
  before_end : (k x : ℕ) → x + k + 1 ≡ max p size → Leads most size p (negsuc k) 2 x

-- `seek` finds exactly these positions.
seek-Leads :
    (most size p : ℕ) (off : ℤ) (whence x : ℕ)
    → seek most size p off whence ≡ some x
    → Leads most size p off whence x
unfolding seek
seek-Leads most size p (pos n) zero x h =
    subst (Leads most size p (pos n) 0) (ground arith) (from_start n (ground arith))
seek-Leads most size p (pos n) (suc zero) x h =
    subst (Leads most size p (pos n) 1) (ground arith) (forward n (ground arith))
seek-Leads most size p (pos zero) (suc (suc zero)) x h =
    subst (Leads most size p (pos 0) 2) (ground arith) to_end
seek-Leads most size p (pos (suc n)) (suc (suc zero)) x h = absurd (ground arith)
seek-Leads most size p (pos n) (suc (suc (suc i))) x h = absurd (ground arith)
seek-Leads most size p (negsuc k) zero x h = absurd (ground arith)
seek-Leads most size p (negsuc k) (suc zero) x h = back k x (ground arith)
seek-Leads most size p (negsuc k) (suc (suc zero)) x h = before_end k x (ground arith)
seek-Leads most size p (negsuc k) (suc (suc (suc i))) x h = absurd (ground arith)

seek_complete :
    (most size p : ℕ) (off : ℤ) (whence x : ℕ)
    → Leads most size p off whence x
    → seek most size p off whence ≢ none
unfolding seek
seek_complete most size p off whence x (from_start n lt) h = ground arith
seek_complete most size p off whence x (forward n le) h = ground arith
seek_complete most size p off whence x (back k y e) h = ground arith
seek_complete most size p off whence x to_end h = ground arith
seek_complete most size p off whence x (before_end k y e) h = ground arith

module _ {nvm : Nvm} (laws : IsNvm nvm) (infos : ℕ) (m : Bytes) (filp : ℕ) (st : IsStored m filp)
    (descp : ℕ) (n : ℕ) (off : ℤ) (whence : ℕ) (w : World) where
  abbrev p : ℕ
  p = (w.file_descs descp).pos

  abbrev size : ℕ
  size = size_of (view w) filp n

  -- The size of the file after a move to `x`: if bytes were written behind the old size and the
  -- position goes back, they count.
  abbrev size_after : ℕ → ℕ
  size_after x = if ltb size p && ltb x p then p else size

  -- What a move leaves.
  pub record Sought (x : ℕ) (u : World) : Type 0 where
    pub target : Leads (last_pos m filp) size p off whence x
    pub in_file : x ≤ last_pos m filp
    pub desc : Moved descp x w u
    pub slots : (k : ℕ) × HasSlots (view u) filp k × (size_of (view u) filp k ≡ size_after x)
    pub contents : (a : ℕ) → (a < filp + 72) ⊎ (filp + 416 ≤ a) → view u a ≡ view w a
    -- Where the size has not changed, the fields of the file are as before.
    pub unsized : (ltb size p && ltb x p) ≡ false → IsReady m filp st u

  abbrev pub Lost : Posix → World → Type 0
  Lost e u =
      ((e ≡ Posix.einval) × ((x : ℕ) → Leads (last_pos m filp) size p off whence x → ⊥))
      ⊎ ((e ≡ Posix.eio) × (IsReliable nvm → ⊥))

  -- The last steps of xipfs_lseek.
  abbrev go_to : ℕ → ℕ → M Posix ℕ
  go_to size' x = do
    λ u.
        if ltb size' (u.file_descs descp).pos && ltb x (u.file_descs descp).pos
        then or_fail Posix.eio
            (file_set_size nvm (u.file_descs descp).filp (u.file_descs descp).pos) u
        else done tt u
    set_pos descp x
    pure x

  abbrev chosen : ℕ → Option ℕ → M Posix ℕ
  chosen size' o u = elim o [ none ↦ fail Posix.einval u | some x ↦ go_to size' x u ]

  abbrev after_limits : ℕ × ℕ → M Posix ℕ
  after_limits r u = chosen r.1 (seek r.0 r.1 (u.file_descs descp).pos off whence) u

  abbrev Seeks : Outcome Posix ℕ → Type 0
  Seeks o = Ensures (λ x u. Sought x u) (λ e u. Lost e u) o

  -- What has not been moved yet.
  record Resting (x : ℕ) (u : World) : Type 0 where
    tables : SameTables w u
    slots : (k : ℕ) × HasSlots (view u) filp k × (size_of (view u) filp k ≡ size_after x)
    contents : (a : ℕ) → (a < filp + 72) ⊎ (filp + 416 ≤ a) → view u a ≡ view w a
    unsized : (ltb size p && ltb x p) ≡ false → IsReady m filp st u

  module _ (mp : Mount) (v : IsMount mp) (d : IsDesc mp descp w)
      (t : file_desc_tracked descp w ≡ done tt w) (hf : (w.file_descs descp).filp ≡ filp)
      (ready : IsReady m filp st w) (real : filp ≢ infos) (h : HasSlots (view w) filp n)
      (fits : size ≤ last_pos m filp) (within : p ≤ last_pos m filp) where
    lseek-limits :
        lseek nvm infos (some mp) descp off whence w ≡ (limits nvm infos filp >>= after_limits) w
    unfolding lseek
    lseek-limits =
        with_mount-none laws mp _ w v
        ∙ bind_done (checked_desc nvm infos mp descp (λ _. Posix.ebadf) w) tt w _
            (checked_desc-IsDesc mp descp w nvm infos (λ _. Posix.ebadf) d t)
        ∙ ap (λ (q : ℕ). (limits nvm infos q >>= after_limits) w) hf

    limits_lem :
        Ensures
          (λ r u. (r ≡ (last_pos m filp, size)) × IsReady m filp st u × Kept w u)
          (λ e u. (e ≡ Posix.eio) × (IsReliable nvm → ⊥))
          (limits nvm infos filp w)
    unfolding limits
    limits_lem =
        let f : (filp == infos) ≡ false = ground arith in
        let eq : limits nvm infos filp w
            ≡ (or_fail Posix.eio (file_get_size nvm filp) >>= λ s. pure (last_pos m filp, s)) w =
          ap
            (λ (b : Bool).
              (if b
                  then pure (24, 24)
                  else (or_fail Posix.eio (file_get_max_pos filp) >>= λ most.
                      or_fail Posix.eio (file_get_size nvm filp) >>= λ s. pure (most, s)))
                w)
            f
          ∙ bind_done (or_fail Posix.eio (file_get_max_pos filp) w) (last_pos m filp) w _
              (ap (λ o. or_fail Posix.eio (λ _. o) w) (ready-max_pos m filp st laws w ready)) in
        rw eq (
          Ensures-bind _ _ (or_fail Posix.eio (file_get_size nvm filp) w)
            (λ s. pure (last_pos m filp, s))
            (Ensures-or_fail _ _ Posix.eio (file_get_size nvm filp w) w
              (IsReady-get_size m filp st laws n w ready h (omega (arith, fits, st.file.reserved))))
            (λ s u (r, kept, e). (ap (λ (z : ℕ). (last_pos m filp, z)) e, r, kept)) (λ e u f. f))

    abbrev Rests : ℕ → Outcome Posix (Unit {0}) → Type 0
    Rests x o = Ensures (λ _ y. Resting x y) (λ e y. (e ≡ Posix.eio) × (IsReliable nvm → ⊥)) o

    abbrev resized : ℕ → World → (ℕ → FileDesc) → Outcome Posix (Unit {0})
    resized x u f =
        if ltb size (f descp).pos && ltb x (f descp).pos
        then or_fail Posix.eio (file_set_size nvm (f descp).filp (f descp).pos) u
        else done tt u

    same_size : (u : World) → Kept w u → size_of (view u) filp n ≡ size
    same_size u k = let e = same_slot laws filp n w u k (n - 1) in ground (arith, e)

    update_size :
        (x : ℕ) (u : World) → IsReady m filp st u → Kept w u → Rests x (resized x u w.file_descs)
    update_size x u r k = elim (Bool-cases (ltb size p && ltb x p)) [
      | inl b ↦
          rw (b, hf)
            (Ensures-or_fail _ _ Posix.eio (file_set_size nvm filp p u) u (
              Ensures-mono {P' = λ _ y. Resting x y} {Q' = λ _ _. IsReliable nvm → ⊥}
                (file_set_size nvm filp p u)
                (file_set_size_lem laws filp p d.pos n u r.coherent (ready-IsFile m filp st u r)
                  (Kept-HasSlots laws filp n w u k h)
                  (omega (arith, within, ready-reserved m filp st u r)))
                (λ _ y z. record {
                  tables = SameTables-trans w u y k.tables z.tables;
                  slots = (z.slots.0, z.slots.1, ground (arith, z.slots.2, b));
                  contents = λ a o. z.outside a o ∙ k.same_view a;
                  unsized = λ q. absurd (ground (arith, b, q));
                })
                (λ _ _ bad. bad)))
      | inr b ↦ rw b (record {
        tables = k.tables;
        slots = (n, Kept-HasSlots laws filp n w u k h, ground (arith, same_size u k, b));
        contents = λ a o. k.same_view a;
        unsized = λ q. r;
      })
    ]

    go_to_lem :
        (x : ℕ) (u : World)
        → seek (last_pos m filp) size p off whence ≡ some x
        → IsReady m filp st u
        → Kept w u
        → Ensures (λ y z. (y ≡ x) × Sought x z) (λ e z. Lost e z) (go_to size x u)
    unfolding view
    go_to_lem x u target r k =
        let done_size : Rests x (resized x u u.file_descs) =
          subst (λ f. Rests x (resized x u f)) (sym k.tables.file_descs) (update_size x u r k) in
        Ensures-bind _ _ (resized x u u.file_descs) (λ _. set_pos descp x >> pure x) done_size
          (λ _ y z. (
            refl,
            record {
              target = seek-Leads (last_pos m filp) size p off whence x target;
              in_file = seek_bound (last_pos m filp) size p off whence x within fits target;
              desc = moved-Moved descp x w y z.tables;
              slots = z.slots;
              contents = z.contents;
              unsized = λ q.
                  IsReady-descs m filp st y
                    (update y.file_descs descp (record (y.file_descs descp) { pos = x }))
                    (z.unsized q);
            },
          ))
          (λ e y f. inr f)

    after_limits_lem :
        (u : World)
        → IsReady m filp st u
        → Kept w u
        → Seeks (after_limits (last_pos m filp, size) u)
    after_limits_lem u r k =
        let old : seek (last_pos m filp) size (u.file_descs descp).pos off whence
            ≡ seek (last_pos m filp) size p off whence =
          ap (λ (f : ℕ → FileDesc). seek (last_pos m filp) size (f descp).pos off whence)
            k.tables.file_descs in
        elim (Option-cases (seek (last_pos m filp) size p off whence)) [
          | inl e ↦
              subst (λ o. Seeks (chosen size o u)) (sym (old ∙ e))
                (inl (refl, λ x g. seek_complete (last_pos m filp) size p off whence x g e))
          | inr (x, e) ↦
              subst (λ o. Seeks (chosen size o u)) (sym (old ∙ e))
                (Ensures-mono {P' = λ y z. Sought y z} {Q' = λ c z. Lost c z} (go_to size x u)
                  (go_to_lem x u e r k) (λ y z (q, g). subst (λ a. Sought a z) (sym q) g)
                  (λ _ _ f. f))
        ]

    -- On an open file of the mount point, through a tracked descriptor whose position is in the file,
    -- if the file passes the check, its fields have reached the flash, its slots in use come first,
    -- its size is at most its largest position, and the buffer is coherent: xipfs_lseek goes to the
    -- position that the offset and `whence` lead to (`Leads`) and returns it; with -EINVAL it refuses
    -- exactly what leads nowhere: an offset before the file, beyond its largest position, from the
    -- start to the largest position or behind the end, and a `whence` that is none of the three. No
    -- position beyond the largest one is ever taken. Bytes that were written behind the size count in
    -- the size when the position goes back; nothing but the sizes of the file changes. If it fails
    -- otherwise, it is with -EIO, and the device is at fault.
    pub lseek_lem :
        Ensures (λ x u. Sought x u) (λ e u. Lost e u) (lseek nvm infos (some mp) descp off whence w)
    lseek_lem = rw lseek-limits (
        Ensures-bind _ _ (limits nvm infos filp w) after_limits limits_lem
          (λ r u (e, s, k). subst (λ q. Seeks (after_limits q u)) (sym e) (after_limits_lem u s k))
          (λ e u f. inr f))
