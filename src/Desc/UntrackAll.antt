-- ===== src/Desc/UntrackAll.antt =====
-- xipfs_desc_untrack_all, entry by entry.
use xipfs.Base.{
  ℕ, zero, suc, ◌+◌, ◌<◌, ◌≡◌, refl, ap, ◌∙◌, arith, Bool, ◌&&◌, ltb, leb, if◌then◌else◌,
}
use xipfs.State.{DescEntry, World, Mount, done}
use xipfs.Desc.{
  max_open_desc, free_entry, in_mount, entry_file, untrack_all_step, untrack_all_loop,
  desc_untrack_all,
}

module _ (infos : ℕ) (mp : Mount) where
  -- The entry refers to a file of the mount point.
  abbrev pub is_inside : World → DescEntry → Bool
  is_inside w e = in_mount infos mp (entry_file infos mp w e)

  -- The state after some entries of the table were freed.
  record Swept (k i : ℕ) (w w' : World) : Type 0 where
    entries :
        (j : ℕ)
        → w'.open_desc j ≡ (
            if leb i j && (ltb j (i + k) && is_inside w (w.open_desc j))
            then free_entry
            else w.open_desc j)
    files : w'.file_descs ≡ w.file_descs
    dirs : w'.dir_descs ≡ w.dir_descs
    mem : w'.mem ≡ w.mem

  step-Swept : (i : ℕ) (w : World) → Swept 1 i w (untrack_all_step infos mp i w)
  unfolding untrack_all_step
  step-Swept i w = record {
    entries = λ j. ground arith;
    files = ground arith;
    dirs = ground arith;
    mem = ground arith;
  }

  pub same_inside :
      (u v : World) (e : DescEntry)
      → v.file_descs ≡ u.file_descs
      → v.dir_descs ≡ u.dir_descs
      → entry_file infos mp v e ≡ entry_file infos mp u e
  same_inside u v e p q = ground (arith, ap (λ f. f e.addr) p, ap (λ f. f e.addr) q)

  Swept-trans :
      (k i : ℕ) (u v w : World) → Swept 1 i u v → Swept k (i + 1) v w → Swept (suc k) i u w
  Swept-trans k i u v w p q = record {
    entries = λ j. ground (
      arith,
      p.entries j,
      q.entries j,
      same_inside u v (u.open_desc j) p.files p.dirs,
      same_inside u v (v.open_desc j) p.files p.dirs,
    );
    files = q.files ∙ p.files;
    dirs = q.dirs ∙ p.dirs;
    mem = q.mem ∙ p.mem;
  }

  untrack_all_loop-Swept : (k i : ℕ) (w : World) → Swept k i w (untrack_all_loop infos mp k i w)
  unfolding untrack_all_loop
  untrack_all_loop-Swept zero i w = record {
    entries = λ j. ground arith;
    files = refl;
    dirs = refl;
    mem = refl;
  }
  untrack_all_loop-Swept (suc k) i w =
      Swept-trans k i w (untrack_all_step infos mp i w) _ (step-Swept i w)
        (untrack_all_loop-Swept k (i + 1) (untrack_all_step infos mp i w))

  -- xipfs_desc_untrack_all frees exactly the entries whose file lies in the mount point, and changes
  -- no other entry, no structure and no byte of the memory.
  pub desc_untrack_all_lem :
      (w : World)
      → (w' : World) × (desc_untrack_all infos mp w ≡ done tt w')
        × ((j : ℕ)
            → j < max_open_desc
            → w'.open_desc j ≡ (if is_inside w (w.open_desc j) then free_entry else w.open_desc j))
        × (w'.file_descs ≡ w.file_descs)
        × (w'.dir_descs ≡ w.dir_descs)
        × (w'.mem ≡ w.mem)
  unfolding desc_untrack_all
  desc_untrack_all_lem w =
      let r = untrack_all_loop-Swept max_open_desc 0 w in
      (
        untrack_all_loop infos mp max_open_desc 0 w,
        refl,
        λ j lt. ground (arith, r.entries j),
        r.files,
        r.dirs,
        r.mem,
      )
