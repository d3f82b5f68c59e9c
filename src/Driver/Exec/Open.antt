-- ===== src/Driver/Exec/Open.antt =====
-- src/driver.c: how xipfs_execv_check opens a file.
use xipfs.Base.{
  ℕ, ◌<◌, ◌≡◌, ◌≢◌, refl, ap, sym, subst, ◌∙◌, arith, true, false, some, Bytes, strnlen, strncmp_eq,
  update, if◌then◌else◌, ◌==◌,
}
use xipfs.Errno.{Errno}
use xipfs.Posix.{Posix}
use xipfs.State.{
  World, Mount, FileDesc, DescEntry, desc_file, Outcome, done, fail, bind_done, Ensures,
  Ensures-mono, Ensures-bind,
}
use xipfs.Flash.{Nvm}
use xipfs.Flash.Laws.{IsNvm}
use xipfs.Buffer.View.{view}
use xipfs.Desc.{desc_track, file_desc_track, file_desc_tracked, type_eq}
use xipfs.Desc.Table.{IsTable}
use xipfs.Desc.Track.{Tracked, desc_track_lem, desc_tracked_present}
use xipfs.File.{path_max}
use xipfs.Path.{XipfsPath, path_exists_as_file}
use xipfs.Driver.Checks.{basename, lookup_path}
use xipfs.Driver.Files.{infos_name, open_, open_path, open_file, flags_refused}
use xipfs.Driver.Files.Ready.{IsStored, IsReady, IsReady-descs}
use xipfs.Driver.Exec.Success.{Succeeds, after_test, after_mount}

tracked_after :
    (d : ℕ) (y : World) (f : ℕ → FileDesc) (i : ℕ)
    → IsTable y.open_desc
    → d ≢ 0
    → i < 16
    → y.open_desc i ≡ record { type = desc_file; addr = d }
    → file_desc_tracked d (record y { file_descs = f }) ≡ done tt (record y { file_descs = f })
unfolding file_desc_tracked
tracked_after d y f i ok ne lt e =
    let p =
      desc_tracked_present d desc_file (record y { file_descs = f }) ok ne i lt
        (ap (λ x. x.addr) e) in
    let q : (y.open_desc i).type ≡ desc_file = ap (λ x. x.type) e in
    p
    ∙ ap
        (λ t.
          if type_eq t desc_file
          then done tt (record y { file_descs = f })
          else fail Posix.eio (record y { file_descs = f }))
        q

module _ {nvm : Nvm} (laws : IsNvm nvm) (infos : ℕ) (m : Bytes) (filp : ℕ) (st : IsStored m filp)
    (descp : ℕ) (mp : Mount) (path : Bytes) (w : World) where
  -- The file is open at its first byte.
  pub record Opened (u : World) : Type 0 where
    pub ready : IsReady m filp st u
    pub desc : u.file_descs descp ≡ record { filp = filp; pos = 0; flags = 0 }
    pub tracked : file_desc_tracked descp u ≡ done tt u
    pub some_desc : descp ≢ 0
    pub same_view : view u ≡ view w

  IsReady-table :
      (e : Errno) (t : ℕ → DescEntry)
      → IsReady m filp st w
      → IsReady m filp st (record w { errno = e; open_desc = t })
  unfolding view
  IsReady-table e t r = record {
    coherent = record { loaded = r.coherent.loaded; clean = r.coherent.clean };
    shown = r.shown;
    held = r.held;
  }

  view-table :
      (e : Errno) (t : ℕ → DescEntry) → view (record w { errno = e; open_desc = t }) ≡ view w
  unfolding view
  view-table e t = refl

  view-descs : (y : World) (f : ℕ → FileDesc) → view (record y { file_descs = f }) ≡ view y
  unfolding view
  view-descs y f = refl

  abbrev fresh : World → World
  fresh y = record y {
    file_descs = update y.file_descs descp (record { filp = filp; pos = 0; flags = 0 });
  }

  Tracked-Opened :
      (e : Errno) (y : World)
      → IsReady m filp st w
      → descp ≢ 0
      → Tracked descp desc_file (record w { errno = e }) y
      → Opened (fresh y)
  Tracked-Opened e y r ne t =
      let at : (t.slot == t.slot) ≡ true = ground arith in
      let same_slot =
        ap (λ b. if b then record { type = desc_file; addr = descp } else w.open_desc t.slot) at in
      let at_desc : (descp == descp) ≡ true = ground arith in
      let slot_holds : y.open_desc t.slot ≡ record { type = desc_file; addr = descp } =
        ap (λ (z : World). z.open_desc t.slot) t.after ∙ same_slot in
      record {
        ready =
            IsReady-descs m filp st y
              (update y.file_descs descp (record { filp = filp; pos = 0; flags = 0 }))
              (subst (λ z. IsReady m filp st z) (sym t.after) (IsReady-table e _ r));
        desc =
            ap (λ b. if b then record { filp = filp; pos = 0; flags = 0 } else y.file_descs descp)
              at_desc;
        tracked =
            tracked_after descp y
              (update y.file_descs descp (record { filp = filp; pos = 0; flags = 0 })) t.slot
              t.table ne t.bound slot_holds;
        some_desc = ne;
        same_view = view-descs y _ ∙ ap view t.after ∙ view-table e _;
      }

  abbrev Opens : Outcome Posix (Unit {0}) → Type 0
  Opens o = Succeeds (λ _ u. Opened u) o

  module _ (e : Errno) (table : IsTable w.open_desc) (ready : IsReady m filp st w)
      (other_name : strncmp_eq (basename path) infos_name path_max ≡ false) (x : XipfsPath)
      (e' : Errno)
      (found : lookup_path mp path (record w { errno = e }) ≡ done x (record w { errno = e' }))
      (file : x.info ≡ path_exists_as_file) (at : x.witness ≡ filp) where
    found_path :
        open_path nvm infos mp path 0 x (record w { errno = e' })
        ≡ done filp (record w { errno = e' })
    unfolding open_path
    found_path = rw (file, at) refl

    track_lem :
        descp ≢ 0
        → Ensures
            (λ _ y. Tracked descp desc_file (record w { errno = e' }) y)
            (λ _ _. Unit {0})
            (file_desc_track descp (record w { errno = e' }))
    unfolding file_desc_track
    track_lem ne =
        let d : (descp == 0) ≡ false = ground arith in
        rw (d, file_desc_track)
          (Ensures-mono {P' = λ _ y. Tracked descp desc_file (record w { errno = e' }) y}
            {Q' = λ _ _. Unit {0}} (desc_track descp desc_file (record w { errno = e' }))
            (desc_track_lem descp desc_file (record w { errno = e' }) table ne (λ q. cc))
            (λ _ _ t. t) (λ _ _ _. tt))

    open_file_lem : descp ≢ 0 → Opens (open_file nvm infos mp descp path 0 (record w { errno = e }))
    unfolding open_file
    open_file_lem ne =
        subst Opens
          (sym (
            bind_done (lookup_path mp path (record w { errno = e })) x (record w { errno = e' }) _
              found
            ∙ bind_done (open_path nvm infos mp path 0 x (record w { errno = e' })) filp
                (record w { errno = e' }) _ found_path))
          (Ensures-bind _ _ (file_desc_track descp (record w { errno = e' }))
            (λ _ y. done tt (fresh y)) (track_lem ne) (λ _ y t. Tracked-Opened e' y ready ne t)
            (λ _ _ _. tt))

    pub open_lem : Opens (open_ nvm infos (some mp) descp (some path) 0 (record w { errno = e }))
    unfolding open_
    open_lem =
        after_mount _ nvm mp _ (record w { errno = e })
          (λ _. after_test _ (descp == 0) Posix.efault _ _ (λ nz.
            after_test _ (flags_refused 0) Posix.einval _ _ (λ _.
              after_test _ (strnlen path path_max == path_max) Posix.enametoolong _ _
                (λ _. rw other_name (open_file_lem (ground (arith, nz)))))))
