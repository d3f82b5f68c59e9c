-- ===== src/Driver/Volume/Formats.antt =====
-- src/driver.c: xipfs_format gives a file system without files that can be mounted, and xipfs_umount
-- closes what is open.
use xipfs.Base.{
  ℕ, zero, suc, ◌+◌, ◌-◌, ◌*◌, ◌/◌, ◌%◌, ◌≤◌, ◌<◌, ◌≡◌, ◌⊎◌, inl, inr, refl, ap, ◌∙◌, arith, Bool,
  true, false, not, ◌==◌, if◌then◌else◌, Bool-cases, Option, none, some, Bytes, read_32,
}
use xipfs.Errno.{xipfs_ok, efull}
use xipfs.Posix.{Posix}
use xipfs.State.{
  World, Mount, DescEntry, Outcome, done, bind_done, refuse_if, or_fail, Ensures, Ensures-bind,
  Ensures-mono, Ensures-or_fail, ◌>>◌,
}
use xipfs.Flash.{Nvm, nvm_page_size, nvm_erase_state}
use xipfs.Flash.Laws.{IsNvm}
use xipfs.Buffer.View.{IsReliable}
use xipfs.Desc.{mount_end, max_open_desc, free_entry, in_mount, desc_untrack_all}
use xipfs.Desc.UntrackAll.{desc_untrack_all_lem, is_inside, same_inside}
use xipfs.File.{file_next}
use xipfs.Fs.{fs_format, fs_tail, fs_tail_next, is_ok}
use xipfs.Fs.Tail.{fs_tail-none}
use xipfs.Fs.Format.{PagesErased, fs_format_lem}
use xipfs.Driver.Volume.{or_null, erased_words, mount, format, umount}
use xipfs.Driver.Volume.Check.{IsMount, with_mount-none}

-- The loop of xipfs_mount on words that are erased.
words_erased :
    (k : ℕ) (m : Bytes) (a : ℕ)
    → ((i : ℕ) → i < 4 * k → m (a + i) ≡ nvm_erase_state)
    → erased_words k m a ≡ true
unfolding erased_words read_32
words_erased zero m a h = refl
words_erased (suc k) m a h =
    let ih = words_erased k m (a + 4) (λ i lt. ap m (omega arith) ∙ h (4 + i) (omega arith)) in
    let e : m a ≡ nvm_erase_state = ap m (omega arith) ∙ h 0 (omega arith) in
    ground (arith, ih, e, h 1 (omega arith), h 2 (omega arith), h 3 (omega arith))

module _ (mp : Mount) (u : World) where
  -- Every byte of the mount point is erased.
  abbrev pub IsEmpty : Type 0
  IsEmpty =
      (a : ℕ)
      → mp.page_addr ≤ a
      → a < mp.page_addr + mp.page_num * nvm_page_size
      → u.mem a ≡ nvm_erase_state

  abbrev cleared : World
  cleared = record u { errno = xipfs_ok }

  abbrev null_of : Option ℕ × World → Outcome Posix ℕ
  null_of r = or_null (λ _. r) u

  abbrev place_of : Option ℕ × World → Option ℕ × World
  place_of r = elim r.0 [
    | none ↦ if is_ok r.1.errno then (some (mp.page_addr), r.1) else (none, r.1)
    | some t ↦
        if file_next r.1.mem t == t
        then (none, record r.1 { errno = efull })
        else (some (file_next r.1.mem t), r.1)
  ]

  module _ {nvm : Nvm} (laws : IsNvm nvm) (v : IsMount mp) (al : mp.page_addr % nvm_page_size ≡ 0)
      (blank : IsEmpty) where
    no_tail : fs_tail mp cleared ≡ (none, cleared)
    unfolding read_32
    no_tail = fs_tail-none cleared mp (
        omega (
          arith,
          blank mp.page_addr (omega arith) (omega (arith, v.some_page)),
          blank (mp.page_addr + 1) (omega arith) (omega (arith, v.some_page)),
          blank (mp.page_addr + 2) (omega arith) (omega (arith, v.some_page)),
          blank (mp.page_addr + 3) (omega arith) (omega (arith, v.some_page)),
        ))

    first_place : fs_tail_next mp cleared ≡ (some mp.page_addr, cleared)
    unfolding fs_tail_next
    first_place = ap place_of no_tail

    words : erased_words ((mount_end mp + 3 - mp.page_addr) / 4) u.mem mp.page_addr ≡ true
    words =
        let end : mount_end mp ≡ mp.page_addr + mp.page_num * nvm_page_size =
          omega (arith, v.in_flash, al) in
        words_erased ((mount_end mp + 3 - mp.page_addr) / 4) u.mem mp.page_addr
          (λ i lt. blank (mp.page_addr + i) (omega arith) (omega (arith, end)))

    -- A file system without files can be mounted.
    mount-IsEmpty : mount nvm (some mp) u ≡ done tt cleared
    unfolding mount
    mount-IsEmpty =
        with_mount-none laws mp _ u v
        ∙ bind_done (or_null (fs_tail mp) cleared) 0 cleared _ (ap null_of no_tail)
        ∙ bind_done (or_null (fs_tail_next mp) cleared) mp.page_addr cleared _
            (ap null_of first_place)
        ∙ ap (λ b. refuse_if (not b) Posix.eio cleared) words

module _ (infos : ℕ) (mp : Mount) where
  -- No entry of the table refers to a file of the mount point.
  abbrev pub AllClosed : World → Type 0
  AllClosed u = (j : ℕ) → j < max_open_desc → is_inside infos mp u (u.open_desc j) ≡ false

  untrack_all-AllClosed :
      (w : World)
      → (w' : World) × (desc_untrack_all infos mp w ≡ done tt w') × AllClosed w' × (w'.mem ≡ w.mem)
  untrack_all-AllClosed w =
      let (w', e, entries, files, dirs, mem) = desc_untrack_all_lem infos mp w in
      (w', e, λ j lt. closed w' (w'.open_desc j) (w.open_desc j) (entries j lt) files dirs, mem)
    where
      closed :
          (w' : World) (d e : DescEntry)
          → d ≡ (if is_inside infos mp w e then free_entry else e)
          → w'.file_descs ≡ w.file_descs
          → w'.dir_descs ≡ w.dir_descs
          → is_inside infos mp w' d ≡ false
      closed w' d e h p q = elim (Bool-cases (is_inside infos mp w e)) [
        | inl t ↦
            let freed : d ≡ free_entry = h ∙ ap (λ (b : Bool). if b then free_entry else e) t in
            let outside : is_inside infos mp w' free_entry ≡ false = ground arith in
            ap (is_inside infos mp w') freed ∙ outside
        | inr f ↦
            let same : d ≡ e = h ∙ ap (λ (b : Bool). if b then free_entry else e) f in
            ap (is_inside infos mp w') same
            ∙ ap (in_mount infos mp) (same_inside infos mp w w' e p q)
            ∙ f
      ]

  module _ {nvm : Nvm} (laws : IsNvm nvm) (w : World) (v : IsMount mp) where
    -- For a mount point that xipfs_mp_check accepts, xipfs_umount closes every file and directory
    -- of it, and leaves the memory as it was.
    pub umount_lem :
        (w' : World) × (umount nvm infos (some mp) w ≡ done tt w') × AllClosed w' × (w'.mem ≡ w.mem)
    unfolding umount
    umount_lem =
        let (w', e, closed, mem) = untrack_all-AllClosed w in
        (w', with_mount-none laws mp _ w v ∙ e, closed, mem)

    -- No byte outside of the mount point has changed.
    abbrev pub SameOutside : World → Type 0
    SameOutside u =
        (a : ℕ)
        → (a < mp.page_addr) ⊎ (mp.page_addr + mp.page_num * nvm_page_size ≤ a)
        → u.mem a ≡ w.mem a

    abbrev pub Formatted : World → Type 0
    Formatted u =
        IsEmpty mp u
        × SameOutside u
        × AllClosed u
        × (mount nvm (some mp) u ≡ done tt (record u { errno = xipfs_ok }))

    module _ (al : mp.page_addr % nvm_page_size ≡ 0) where
      untrack_erased :
          (u : World)
          → PagesErased (mp.page_addr / nvm_page_size) mp.page_num w u
          → Ensures (λ _ x. Formatted x) (λ _ _. ⊥) (desc_untrack_all infos mp u)
      untrack_erased u p =
          let (x, e, closed, mem) = untrack_all-AllClosed u in
          let same = λ (a : ℕ). ap (λ (m : Bytes). m a) mem in
          let blank : IsEmpty mp x =
            λ a le lt. same a ∙ p.inside a (omega arith) (omega (arith, al)) in
          rw e (
            blank,
            λ a o. same a ∙ p.outside a (ground (arith, o, al)),
            closed,
            mount-IsEmpty mp x laws v al blank,
          )

      -- For a mount point that xipfs_mp_check accepts, on whole pages, a xipfs_format that succeeds
      -- leaves every byte of it erased, no byte outside of it changed, and none of its files or
      -- directories open, and xipfs_mount then succeeds. If xipfs_format fails, it is with -EIO, the
      -- device is at fault, and no byte outside of the mount point has changed.
      pub format_lem :
          Ensures
            (λ _ u. Formatted u)
            (λ e u. (e ≡ Posix.eio) × (IsReliable nvm → ⊥) × SameOutside u)
            (format nvm infos (some mp) w)
      unfolding format
      format_lem =
          rw
            (with_mount-none laws mp
              (λ mp'. or_fail Posix.eio (fs_format nvm mp') >> desc_untrack_all infos mp') w v)
            (Ensures-bind _ _ (or_fail Posix.eio (fs_format nvm mp) w)
              (λ _. desc_untrack_all infos mp)
              (Ensures-or_fail _ _ Posix.eio (fs_format nvm mp w) w
                (fs_format_lem laws mp w al (omega (arith, v.in_flash))))
              (λ _ u p.
                Ensures-mono {P' = λ _ x. Formatted x}
                  {Q' = λ e x. (e ≡ Posix.eio) × (IsReliable nvm → ⊥) × SameOutside x}
                  (desc_untrack_all infos mp u) (untrack_erased u p) (λ _ x f. f)
                  (λ _ _ z. absurd z))
              (λ e u (q, f). (q, f.at_fault, λ a o. f.unharmed a (ground (arith, o, al)))))
