-- ===== src/Desc/Track.antt =====
-- Tracking, untracking and the test, on every table that keeps the invariant.
use xipfs.Base.{
  ℕ, ◌<◌, ◌≡◌, ◌≢◌, ◌⊎◌, inl, inr, refl, ◌∙◌, ap, arith, none, some, if◌then◌else◌, Bool-cases,
  update,
}
use xipfs.Posix.{Posix}
use xipfs.State.{
  DescType, desc_free, desc_file, desc_dir, DescEntry, World, Outcome, done, fail, Ensures,
}
use xipfs.Desc.{
  Search, error, entry, max_open_desc, type_eq, track_loop, desc_track, desc_untrack, desc_tracked,
  find_loop, file_desc_tracked, dir_desc_tracked, free_entry,
}
use xipfs.Desc.Table.{
  IsTable, type_eq_lem, type_eq_refl, Absent, Tracks, track_loop-Tracks, search_entry, find_holds,
  find_none,
}

-- The structure at `d` is tracked, with the type `ty`.
abbrev pub IsTracked : (ℕ → DescEntry) → ℕ → DescType → Type 0
IsTracked t d ty = (i : ℕ) × (i < max_open_desc) × (t i ≡ record { type = ty; addr = d })

-- What tracking a new structure leaves.
pub record Tracked (d : ℕ) (ty : DescType) (w w' : World) : Type 0 where
  pub slot : ℕ
  pub bound : slot < max_open_desc
  pub was_free : w.open_desc slot ≡ free_entry
  pub was_absent : Absent w.open_desc d max_open_desc 0
  pub table : IsTable w'.open_desc
  pub after : w' ≡ record w { open_desc = update w.open_desc slot (record { type = ty; addr = d }) }

-- Why tracking refuses.
abbrev pub Refused : ℕ → World → Posix → World → Type 0
Refused d w e w' =
    (w' ≡ w)
    × (((e ≡ Posix.eio) × ((i : ℕ) × (i < max_open_desc) × ((w.open_desc i).addr ≡ d)))
        ⊎ ((e ≡ Posix.enfile)
            × Absent w.open_desc d max_open_desc 0
            × ((i : ℕ) → i < max_open_desc → (w.open_desc i).addr ≢ 0)))

update-IsTable :
    (t : ℕ → DescEntry) (s d : ℕ) (ty : DescType)
    → IsTable t
    → d ≢ 0
    → ty ≢ desc_free
    → Absent t d max_open_desc 0
    → IsTable (update t s (record { type = ty; addr = d }))
update-IsTable t s d ty ok ne nf a = record {
  unique = λ i j li lj e n. ground (arith, ok.unique i j li lj, a i, a j);
  free = λ i li e. ground (arith, ok.free i);
  used = λ i li e. ground (arith, ok.used i);
}

desc_track-done :
    (d : ℕ) (ty : DescType) (w : World) (e : ℕ)
    → IsTable w.open_desc
    → d ≢ 0
    → ty ≢ desc_free
    → Tracks w.open_desc d max_open_desc 0 none (entry (some e))
    → Tracked d ty w
        (record w { open_desc = update w.open_desc e (record { type = ty; addr = d }) })
desc_track-done d ty w e ok ne nf (a, inl h) = absurd (ground arith)
desc_track-done d ty w e ok ne nf (a, inr (_, le, lt, z)) = record {
  slot = e;
  bound = lt;
  was_free = ground (arith, ok.free e lt z);
  was_absent = a;
  table = update-IsTable w.open_desc e d ty ok ne nf a;
  after = refl;
}

-- On a table that keeps the invariant, for a non-null address and a type other than free: tracking
-- puts the structure in an entry that was free, and keeps the invariant; it refuses with EIO if
-- the structure is tracked already, with ENFILE if it is not and no entry is free, and then
-- changes nothing.
pub desc_track_lem :
    (d : ℕ) (ty : DescType) (w : World)
    → IsTable w.open_desc
    → d ≢ 0
    → ty ≢ desc_free
    → Ensures (λ _ w'. Tracked d ty w w') (Refused d w) (desc_track d ty w)
unfolding desc_track
desc_track_lem d ty w ok ne nf =
    by_scan (track_loop max_open_desc 0 none d w.open_desc)
      (track_loop-Tracks w.open_desc d max_open_desc 0 none)
  where
    by_scan :
        (s : Search)
        → Tracks w.open_desc d max_open_desc 0 none s
        → Ensures
            (λ _ w'. Tracked d ty w w')
            (Refused d w)
            (elim s [
              | error e ↦ fail e w
              | entry found ↦ elim found [
                | none ↦ fail Posix.enfile w
                | some e ↦
                    done tt (record w {
                      open_desc = update w.open_desc e (record { type = ty; addr = d });
                    })
              ]
            ])
    by_scan (error e) (p, (j, le, lt, h)) = (refl, inl (p, (j, lt, h)))
    by_scan (entry none) (a, p, f) = (refl, inr (refl, a, λ i lt. f i (omega arith) lt))
    by_scan (entry (some e)) p = desc_track-done d ty w e ok ne nf p

module _ (d : ℕ) (ty : DescType) (w : World) where
  desc_tracked-Absent :
      Absent w.open_desc d max_open_desc 0 → desc_tracked d ty w ≡ fail Posix.ebadf w
  unfolding desc_tracked
  desc_tracked-Absent a = rw (find_none w.open_desc d ty a, desc_tracked)

  desc_untrack-Absent :
      Absent w.open_desc d max_open_desc 0 → desc_untrack d ty w ≡ fail Posix.eio w
  unfolding desc_untrack
  desc_untrack-Absent a = rw (find_none w.open_desc d ty a, desc_untrack)

  module _ (ok : IsTable w.open_desc) (ne : d ≢ 0) (i : ℕ) (lt : i < max_open_desc)
      (e : (w.open_desc i).addr ≡ d) where
    pub desc_tracked_present :
        desc_tracked d ty w
        ≡ (if type_eq (w.open_desc i).type ty then done tt w else fail Posix.eio w)
    unfolding desc_tracked
    desc_tracked_present =
        rw (find_holds w.open_desc d ty i ok ne lt e, desc_tracked)
          (elim (Bool-cases (type_eq (w.open_desc i).type ty)) [ inl h ↦ rw h | inr h ↦ rw h ])

    desc_untrack_present : desc_untrack d ty w ≡ (
        if type_eq (w.open_desc i).type ty
        then done tt (record w { open_desc = update w.open_desc i free_entry })
        else fail Posix.eio w)
    unfolding desc_untrack
    desc_untrack_present =
        rw (find_holds w.open_desc d ty i ok ne lt e, desc_untrack)
          (elim (Bool-cases (type_eq (w.open_desc i).type ty)) [ inl h ↦ rw h | inr h ↦ rw h ])

-- On a table that keeps the invariant, for a non-null address, the state stays and the test
-- answers 0 for a structure that is tracked with the type, EBADF for one that no entry holds, and
-- EIO for one that is tracked with another type.
pub desc_tracked_lem :
    (d : ℕ) (ty : DescType) (w : World)
    → IsTable w.open_desc
    → d ≢ 0
    → ((desc_tracked d ty w ≡ done tt w) × IsTracked w.open_desc d ty)
      ⊎ ((desc_tracked d ty w ≡ fail Posix.ebadf w) × Absent w.open_desc d max_open_desc 0)
      ⊎ ((desc_tracked d ty w ≡ fail Posix.eio w)
          × ((i : ℕ) × (i < max_open_desc)
              × ((w.open_desc i).addr ≡ d)
              × ((w.open_desc i).type ≢ ty)))
desc_tracked_lem d ty w ok ne = elim (search_entry w.open_desc d max_open_desc 0) [
  | inl a ↦ inr (inl (desc_tracked-Absent d ty w a, a))
  | inr (i, le, lt, e) ↦
      let p = desc_tracked_present d ty w ok ne i lt e in
      elim (Bool-cases (type_eq (w.open_desc i).type ty)) [
        | inl h ↦
            let q = type_eq_lem (w.open_desc i).type ty h in
            inl (ground (arith, p), (i, lt, ground (arith, q, e)))
        | inr h ↦ inr (
            inr (
              ground (arith, p),
              (i, lt, e, λ q. let r = type_eq_refl ty in let h' = (rw q at h) in cc),
            ))
      ]
]

free-IsTable : (t : ℕ → DescEntry) (s : ℕ) → IsTable t → IsTable (update t s free_entry)
free-IsTable t s ok = record {
  unique = λ i j li lj e n. ground (arith, ok.unique i j li lj);
  free = λ i li e. ground (arith, ok.free i li);
  used = λ i li e. ground (arith, ok.used i li);
}

-- What untracking leaves: the entry is free, the structure is tracked no more.
pub record Untracked (d : ℕ) (ty : DescType) (w w' : World) : Type 0 where
  pub slot : ℕ
  pub bound : slot < max_open_desc
  pub was_tracked : w.open_desc slot ≡ record { type = ty; addr = d }
  pub table : IsTable w'.open_desc
  pub absent : Absent w'.open_desc d max_open_desc 0
  pub after : w' ≡ record w { open_desc = update w.open_desc slot free_entry }

desc_untrack-Untracked :
    (d : ℕ) (ty : DescType) (w : World) (i : ℕ)
    → IsTable w.open_desc
    → d ≢ 0
    → i < max_open_desc
    → w.open_desc i ≡ record { type = ty; addr = d }
    → Untracked d ty w (record w { open_desc = update w.open_desc i free_entry })
desc_untrack-Untracked d ty w i ok ne lt e = record {
  slot = i;
  bound = lt;
  was_tracked = e;
  table = free-IsTable w.open_desc i ok;
  absent = λ j le lj h. ground (arith, ok.unique j i lj lt, ap (λ x. x.addr) e);
  after = refl;
}

-- On a table that keeps the invariant, for a non-null address: untracking frees the one entry that
-- holds the structure with the type, and keeps the invariant; for any other structure it answers
-- EIO and changes nothing.
pub desc_untrack_lem :
    (d : ℕ) (ty : DescType) (w : World)
    → IsTable w.open_desc
    → d ≢ 0
    → Ensures
        (λ _ w'. Untracked d ty w w')
        (λ e w'. (w' ≡ w) × (e ≡ Posix.eio) × (IsTracked w.open_desc d ty → ⊥))
        (desc_untrack d ty w)
desc_untrack_lem d ty w ok ne = elim (search_entry w.open_desc d max_open_desc 0) [
  | inl a ↦
      rw (desc_untrack-Absent d ty w a)
        (refl, refl, λ (i, lt, e). a i (omega arith) lt (ap (λ x. x.addr) e))
  | inr (i, le, lt, e) ↦
      rw (desc_untrack_present d ty w ok ne i lt e)
        (elim (Bool-cases (type_eq (w.open_desc i).type ty)) [
          | inl h ↦
              let q = type_eq_lem (w.open_desc i).type ty h in
              rw h (desc_untrack-Untracked d ty w i ok ne lt (ground (arith, q, e)))
          | inr h ↦ rw h (
            refl,
            refl,
            λ (j, lj, f).
                let same = ok.unique i j lt lj in
                let a = ap (λ x. x.addr) f in
                let b = ap (λ x. x.type) f in ground (arith, same, a, b, type_eq_refl ty),
          )
        ])
]

-- On a table that keeps the invariant, a structure (not null, of a type other than free) that was
-- tracked just now can be untracked, and every entry of the table is then as before.
pub untrack-track :
    (d : ℕ) (ty : DescType) (w w' : World)
    → IsTable w.open_desc
    → d ≢ 0
    → ty ≢ desc_free
    → desc_track d ty w ≡ done tt w'
    → (w'' : World) × (desc_untrack d ty w' ≡ done tt w'')
      × ((i : ℕ) → w''.open_desc i ≡ w.open_desc i)
untrack-track d ty w w' ok ne nf h =
    let r : Tracked d ty w w' = rw h at (desc_track_lem d ty w ok ne nf) in
    let a : (i : ℕ)
        → w'.open_desc i ≡ update w.open_desc r.slot (record { type = ty; addr = d }) i =
      λ i. ap (λ x. x.open_desc i) r.after in
    let e : (w'.open_desc r.slot).addr ≡ d = ground (arith, a r.slot) in
    let f : (w'.open_desc r.slot).type ≡ ty = ground (arith, a r.slot) in
    let u = desc_untrack_present d ty w' r.table ne r.slot r.bound e in
    (
      record w' { open_desc = update w'.open_desc r.slot free_entry },
      ground (arith, u, f, type_eq_refl ty),
      λ i. ground (arith, a i, r.was_free),
    )

-- Whether a structure is registered is a matter of the table alone.
module _ (descp : ℕ) (w u : World) where
  abbrev registered : Search → World → Outcome Posix (Unit {0})
  registered r x = elim r [
    | error e ↦ fail e x
    | entry found ↦ elim found [ none ↦ fail Posix.ebadf x | some e ↦ done tt x ]
  ]

  same_answer : (r : Search) → registered r w ≡ done tt w → registered r u ≡ done tt u
  same_answer (error e) h = absurd cc
  same_answer (entry none) h = absurd cc
  same_answer (entry (some e)) h = refl

  pub tracked_by_table :
      u.open_desc ≡ w.open_desc
      → dir_desc_tracked descp w ≡ done tt w
      → dir_desc_tracked descp u ≡ done tt u
  unfolding dir_desc_tracked desc_tracked
  tracked_by_table same h =
      ap (λ t. registered (find_loop max_open_desc 0 none descp desc_dir t) u) same
      ∙ same_answer (find_loop max_open_desc 0 none descp desc_dir w.open_desc) h

  pub file_tracked_by_table :
      u.open_desc ≡ w.open_desc
      → file_desc_tracked descp w ≡ done tt w
      → file_desc_tracked descp u ≡ done tt u
  unfolding file_desc_tracked desc_tracked
  file_tracked_by_table same h =
      ap (λ t. registered (find_loop max_open_desc 0 none descp desc_file t) u) same
      ∙ same_answer (find_loop max_open_desc 0 none descp desc_file w.open_desc) h
