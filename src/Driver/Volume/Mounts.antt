-- ===== src/Driver/Volume/Mounts.antt =====
-- src/driver.c: xipfs_mount accepts a file system whose files form a list, with erased pages behind
-- them; xipfs_statvfs counts its pages.
use native.Mathlib.Decide.{ℕ_discrete}
use xipfs.Base.{
  ℕ, zero, suc, ◌+◌, ◌-◌, ◌*◌, ◌/◌, ◌%◌, ◌≤◌, ◌<◌, ◌≡◌, ◌≢◌, ◌↔◌, inl, inr, refl, ap, sym, subst,
  ◌∙◌, arith, true, false, not, ◌==◌, Bool-cases, Option, none, some, Bytes, List, read_32,
}
use xipfs.Errno.{xipfs_ok, efull}
use xipfs.Posix.{Posix}
use xipfs.State.{World, Mount, Outcome, done, fail, bind_done, refuse_if}
use xipfs.Flash.{Nvm, nvm_page_size, nvm_erase_state, flash_erase_state}
use xipfs.Flash.Laws.{IsNvm, IsBytes}
use xipfs.Desc.{mount_end}
use xipfs.File.{file_next}
use xipfs.Fs.{fs_tail, fs_tail_next}
use xipfs.Fs.Chain.{last_of}
use xipfs.Fs.Tail.{
  HasFiles, total_reserved, fs_tail-HasFiles, fs_tail_next_lem, chain_last, chain_adjacent,
}
use xipfs.File.Check.{link_exact}
use xipfs.Driver.Volume.{or_null, erased_words, mount}
use xipfs.Driver.Volume.Check.{IsMount, with_mount-none}

-- The loop of xipfs_mount finds the words erased just if all their bytes are.
pub erased_words_iff :
    (k : ℕ) (m : Bytes) (a : ℕ)
    → IsBytes m
    → (erased_words k m a ≡ true) ↔ ((b : ℕ) → a ≤ b → b < a + 4 * k → m b ≡ nvm_erase_state)
unfolding erased_words read_32
erased_words_iff zero m a s = (λ _ b le lt. absurd (omega arith), λ _. refl)
erased_words_iff (suc k) m a s =
    let ih = erased_words_iff k m (a + 4) s in
    (
      λ h b le lt.
          let (e0, e1, e2, e3) = first (ground (arith, h)) in
          elim (ℕ_discrete b a) [
            | yes p ↦ ap m p ∙ e0
            | no n0 ↦ elim (ℕ_discrete b (a + 1)) [
              | yes p ↦ ap m p ∙ e1
              | no n1 ↦ elim (ℕ_discrete b (a + 2)) [
                | yes p ↦ ap m p ∙ e2
                | no n2 ↦ elim (ℕ_discrete b (a + 3)) [
                  | yes p ↦ ap m p ∙ e3
                  | no n3 ↦ ih.0 (ground (arith, h)) b (omega arith) (omega arith)
                ]
              ]
            ]
          ],
      λ h.
          let t = ih.1 (λ b le lt. h b (omega arith) (omega arith)) in
          ground (
            arith,
            t,
            h a (omega arith) (omega arith),
            h (a + 1) (omega arith) (omega arith),
            h (a + 2) (omega arith) (omega arith),
            h (a + 3) (omega arith) (omega arith),
          ),
    )
  where
    first :
        m a + 256 * m (a + 1) + 65536 * m (a + 2) + 16777216 * m (a + 3) ≡ flash_erase_state
        → (m a ≡ 255) × (m (a + 1) ≡ 255) × (m (a + 2) ≡ 255) × (m (a + 3) ≡ 255)
    first h = omega (arith, h, s a, s (a + 1), s (a + 2), s (a + 3))

module _ (w : World) (mp : Mount) (l : List ℕ) where
  abbrev last_file : ℕ
  last_file = last_of mp.page_addr l

  abbrev cleared : World
  cleared = record w { errno = xipfs_ok }

  -- Every byte of the mount point behind its files is erased.
  abbrev pub Blank : Type 0
  Blank =
      (b : ℕ)
      → mp.page_addr + total_reserved w.mem mp.page_addr l ≤ b
      → b < mp.page_addr + mp.page_num * nvm_page_size
      → w.mem b ≡ nvm_erase_state

  -- How xipfs_mount returns.
  pub data Mounts : Outcome Posix (Unit {0}) → Type 0 where
    accepted : file_next w.mem last_file ≢ last_file → Blank → Mounts (done tt cleared)
    not_blank :
        file_next w.mem last_file ≢ last_file → (Blank → ⊥) → Mounts (fail Posix.eio cleared)
    full :
        file_next w.mem last_file ≡ last_file → Mounts (fail Posix.eio (record w { errno = efull }))

  abbrev null_of : Option ℕ × World → Outcome Posix ℕ
  null_of r = or_null (λ _. r) w

  module _ {nvm : Nvm} (laws : IsNvm nvm) (v : IsMount mp) (files : HasFiles w.mem mp l) where
    abbrev behind : Outcome Posix ℕ → Outcome Posix (Unit {0})
    behind o = elim o [
      | done start u ↦
          refuse_if (not (erased_words ((mount_end mp + 3 - start) / 4) u.mem start)) Posix.eio u
      | fail e u ↦ fail e u
    ]

    mount-behind : mount nvm (some mp) w ≡ behind (or_null (fs_tail_next mp) cleared)
    unfolding mount
    mount-behind =
        with_mount-none laws mp _ w v
        ∙ bind_done (or_null (fs_tail mp) cleared) last_file cleared _
            (ap null_of (fs_tail-HasFiles cleared mp l files))

    abbrev start : ℕ
    start = mp.page_addr + total_reserved w.mem mp.page_addr l

    -- The bytes that the loop looks at are those behind the files.
    words_of :
        mp.page_addr % nvm_page_size ≡ 0
        → file_next w.mem last_file ≢ last_file
        → (start % 4 ≡ 0) × (mount_end mp ≡ mp.page_addr + mp.page_num * nvm_page_size)
    words_of al ne =
        let (n, c, h) = files in
        let (f, b) = chain_last w.mem mp.page_addr l c h in
        let adjacent = chain_adjacent w.mem mp.page_addr l c h in
        let exact = link_exact w.mem last_file (omega (arith, b)) f ne in
        let linked = f.linked ne in
        let place : file_next w.mem last_file ≡ start = omega (arith, exact, adjacent) in
        (omega (arith, linked.aligned, place), omega (arith, v.in_flash, al))

    mount-start :
        file_next w.mem last_file ≢ last_file
        → mount nvm (some mp) w
          ≡ refuse_if
              (not (erased_words ((mount_end mp + 3 - start) / 4) w.mem start))
              Posix.eio
              cleared
    mount-start ne =
        let h : (file_next w.mem last_file == last_file) ≡ false = ground arith in
        let t : fs_tail_next mp cleared ≡ (some start, cleared) =
          fs_tail_next_lem cleared mp l files ∙ (rw h refl) in
        mount-behind ∙ ap (λ r. behind (null_of r)) t

    -- For a mount point that xipfs_mp_check accepts, on whole pages, whose files form a list in the
    -- flash: xipfs_mount succeeds if the last file does not link to itself and every byte behind the
    -- files is erased. It fails with -EIO if one of those bytes is not erased, and also if the last
    -- file links to itself.
    pub mount-HasFiles :
        IsBytes w.mem → mp.page_addr % nvm_page_size ≡ 0 → Mounts (mount nvm (some mp) w)
    mount-HasFiles s al = elim (ℕ_discrete (file_next w.mem last_file) last_file) [
      | yes e ↦
          let h : (file_next w.mem last_file == last_file) ≡ true = ground arith in
          let t : fs_tail_next mp cleared ≡ (none, record w { errno = efull }) =
            fs_tail_next_lem cleared mp l files ∙ (rw h refl) in
          subst Mounts (sym (mount-behind ∙ ap (λ r. behind (null_of r)) t)) (full e)
      | no ne ↦
          let (four, end) = words_of al ne in
          let words = erased_words_iff ((mount_end mp + 3 - start) / 4) w.mem start s in
          elim (Bool-cases (erased_words ((mount_end mp + 3 - start) / 4) w.mem start)) [
            | inl yes_ ↦
                subst Mounts
                  (sym (mount-start ne ∙ ap (λ b. refuse_if (not b) Posix.eio cleared) yes_))
                  (accepted ne (λ b le lt. words.0 yes_ b le (omega (arith, end, four))))
            | inr no_ ↦
                subst Mounts
                  (sym (mount-start ne ∙ ap (λ b. refuse_if (not b) Posix.eio cleared) no_))
                  (not_blank ne (λ blank.
                    let t = words.1 (λ b le lt. blank b le (omega (arith, end, four, al))) in
                    absurd (ground (arith, t, no_))))
          ]
    ]
