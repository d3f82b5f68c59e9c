-- ===== src/Desc/Update.antt =====
-- xipfs_desc_update, entry by entry.
use native.Mathlib.Decide.{ℕ_discrete}
use xipfs.Base.{
  ℕ, zero, suc, ◌+◌, ◌-◌, ◌≤◌, ◌<◌, ◌≡◌, ◌≢◌, refl, ◌∙◌, arith, Bool, ◌&&◌, ltb, u32_mod, int_max,
  ◌==◌, if◌then◌else◌,
}
use xipfs.State.{desc_free, desc_file, desc_dir, DescEntry, World, Mount, done}
use xipfs.Desc.{
  max_open_desc, free_entry, in_mount, entry_file, move_file, update_step, update_loop, desc_update,
}
use xipfs.Desc.Table.{IsTable}

module _ (infos : ℕ) (mp : Mount) (removed reserved : ℕ) where
  -- The entry refers to the removed file.
  abbrev pub is_gone : World → DescEntry → Bool
  is_gone w e = in_mount infos mp (entry_file infos mp w e) && (entry_file infos mp w e == removed)

  -- The entry refers to a file behind the removed one.
  abbrev pub is_behind : World → DescEntry → Bool
  is_behind w e =
      in_mount infos mp (entry_file infos mp w e) && ltb removed (entry_file infos mp w e)

  -- What the update makes of an entry and of its structure.
  pub record Updated (w w' : World) (j : ℕ) : Type 0 where
    pub entry : w'.open_desc j ≡ (if is_gone w (w.open_desc j) then free_entry else w.open_desc j)
    pub file :
        (w.open_desc j).type ≡ desc_file
        → w'.file_descs (w.open_desc j).addr ≡ (
            let d = w.file_descs (w.open_desc j).addr in
            if is_behind w (w.open_desc j)
            then record d { filp = move_file d.filp reserved }
            else d)
    pub dir :
        (w.open_desc j).type ≡ desc_dir
        → w'.dir_descs (w.open_desc j).addr ≡ (
            let d = w.dir_descs (w.open_desc j).addr in
            if is_behind w (w.open_desc j)
            then record d { filp = move_file d.filp reserved }
            else d)

  -- The entry `j` and the structures at `d` are as before.
  record Same (j d : ℕ) (w w' : World) : Type 0 where
    entry : w'.open_desc j ≡ w.open_desc j
    file : w'.file_descs d ≡ w.file_descs d
    dir : w'.dir_descs d ≡ w.dir_descs d

  abbrev step : ℕ → World → World
  step = update_step infos mp removed reserved

  step-Updated : (w : World) (i : ℕ) → Updated w (step i w) i
  unfolding update_step
  step-Updated w i = record {
    entry = ground arith;
    file = λ t. ground arith;
    dir = λ t. ground arith;
  }

  -- No used entry among the `k` from `i` on holds the structure at `d`.
  abbrev Apart : ℕ → ℕ → ℕ → World → Type 0
  Apart d k i w =
      (l : ℕ) → i ≤ l → l < i + k → (w.open_desc l).type ≢ desc_free → (w.open_desc l).addr ≢ d

  step_entry : (w : World) (i j : ℕ) → i ≢ j → (step i w).open_desc j ≡ w.open_desc j
  unfolding update_step
  step_entry w i j ne = ground arith

  step-Same :
      (w : World) (i j d : ℕ)
      → ((w.open_desc i).type ≢ desc_free → (w.open_desc i).addr ≢ d)
      → i ≢ j
      → Same j d w (step i w)
  unfolding update_step
  step-Same w i j d apart ne = record {
    entry = ground arith;
    file = ground arith;
    dir = ground arith;
  }

  step-IsTable : (w : World) (i : ℕ) → IsTable w.open_desc → IsTable (step i w).open_desc
  unfolding update_step
  step-IsTable w i ok = record {
    unique = λ a b la lb e n. ground (arith, ok.unique a b la lb);
    free = λ a la e. ground (arith, ok.free a la);
    used = λ a la e. ground (arith, ok.used a la);
  }

  Same-trans : (j d : ℕ) (u v w : World) → Same j d u v → Same j d v w → Same j d u w
  Same-trans j d u v w p q = record {
    entry = q.entry ∙ p.entry;
    file = q.file ∙ p.file;
    dir = q.dir ∙ p.dir;
  }

  Updated-then :
      (u v w : World) (j : ℕ) → Updated u v j → Same j (u.open_desc j).addr v w → Updated u w j
  Updated-then u v w j p q = record {
    entry = q.entry ∙ p.entry;
    file = λ t. q.file ∙ p.file t;
    dir = λ t. q.dir ∙ p.dir t;
  }

  Same-file :
      (u v : World) (j : ℕ)
      → Same j (u.open_desc j).addr u v
      → entry_file infos mp v (v.open_desc j) ≡ entry_file infos mp u (u.open_desc j)
  Same-file u v j p = ground (arith, p.entry, p.file, p.dir)

  Updated-before :
      (u v w : World) (j : ℕ) → Same j (u.open_desc j).addr u v → Updated v w j → Updated u w j
  Updated-before u v w j p q =
      let f = Same-file u v j p in
      record {
        entry = ground (arith, f, p.entry, q.entry);
        file = λ t. ground (arith, f, p.entry, p.file, q.file);
        dir = λ t. ground (arith, f, p.entry, p.dir, q.dir);
      }

  abbrev loop : ℕ → ℕ → World → World
  loop = update_loop infos mp removed reserved

  loop-Same : (k i j d : ℕ) (w : World) → Apart d k i w → j < i → Same j d w (loop k i w)
  unfolding update_loop
  loop-Same zero i j d w apart lt = record { entry = refl; file = refl; dir = refl }
  loop-Same (suc k) i j d w apart lt =
      Same-trans j d w (step i w) _
        (step-Same w i j d (apart i (omega arith) (omega arith)) (omega arith))
        (loop-Same k (i + 1) j d (step i w)
          (λ l le ll used at.
            let same = step_entry w i l (omega arith) in
            let a = apart l (omega arith) (omega arith) in a (rw (← same) used) (rw (← same) at))
          (omega arith))

  loop-Updated :
      (k i j : ℕ) (w : World)
      → IsTable w.open_desc
      → i + k ≤ max_open_desc
      → i ≤ j
      → j < i + k
      → Updated w (loop k i w) j
  unfolding update_loop
  loop-Updated zero i j w ok fits le lt = absurd (omega arith)
  loop-Updated (suc k) i j w ok fits le lt = elim (ℕ_discrete i j) [
    | yes e ↦ rw (← e) first
    | no n ↦
        Updated-before w (step i w) _ j
          (step-Same w i j (w.open_desc j).addr
            (λ used at. ground (arith, ok.unique i j, ok.free i)) n)
          (loop-Updated k (i + 1) j (step i w) (step-IsTable w i ok) (omega arith) (omega arith)
            (omega arith))
  ]
    where
      first : Updated w (loop k (i + 1) (step i w)) i
      first = Updated-then w (step i w) _ i (step-Updated w i) (
          loop-Same k (i + 1) i (w.open_desc i).addr (step i w)
            (λ l ge ll used at.
              let e = step_entry w i l (omega arith) in ground (arith, e, ok.unique l i, ok.free l))
            (omega arith))

  loop-IsTable : (k i : ℕ) (w : World) → IsTable w.open_desc → IsTable (loop k i w).open_desc
  unfolding update_loop
  loop-IsTable zero i w ok = ok
  loop-IsTable (suc k) i w ok = loop-IsTable k (i + 1) (step i w) (step-IsTable w i ok)

  -- On a table that keeps the invariant, for a removed file that is not null and a reserved size
  -- that is not negative: xipfs_desc_update frees exactly the entries of the mount point that
  -- refer to the removed file, gives every structure that refers to a file behind it the address
  -- `move_file`, and leaves every other entry, the other fields of the structures and the other
  -- structures of the table alone; the invariant of the table holds.
  pub desc_update_lem :
      (w : World)
      → IsTable w.open_desc
      → removed ≢ 0
      → reserved ≤ int_max
      → (w' : World) × (desc_update infos mp removed reserved w ≡ done tt w')
        × IsTable w'.open_desc
        × ((j : ℕ) → j < max_open_desc → Updated w w' j)
  unfolding desc_update
  desc_update_lem w ok ne le = (
    loop max_open_desc 0 w,
    ground arith,
    loop-IsTable max_open_desc 0 w ok,
    λ j lt. loop-Updated max_open_desc 0 j w ok (omega arith) (omega arith) (omega arith),
  )

-- For a file address of 32 bits and a reserved size from 1 to the address that is no negative
-- `int32_t`, the address that xipfs_desc_update computes is not the one that is lower by the
-- reserved size: the subtraction goes by structures and not by bytes.
pub move_file-ne :
    (filp reserved : ℕ)
    → filp < u32_mod
    → 0 < reserved
    → reserved ≤ int_max
    → reserved ≤ filp
    → move_file filp reserved ≢ filp - reserved
move_file-ne filp reserved a b c d = omega arith
