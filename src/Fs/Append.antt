-- ===== src/Fs/Append.antt =====
-- xipfs_fs_new_file as a whole: the list of files grows by one at its end.
use xipfs.Base.{
  ℕ, ◌+◌, ◌-◌, ◌*◌, ◌/◌, ◌%◌, ◌≤◌, ◌<◌, ◌≡◌, ◌≢◌, ◌⊎◌, inl, refl, ◌∙◌, ap, sym, arith, false, some,
  Bytes, ltb, ◌==◌, List, [], ◌∷◌, ◌++◌, int_max, not, ◌||◌, read_32-ext,
}
use xipfs.Errno.{xipfs_ok, eperm, einvalidsize}
use xipfs.State.{World, Mount, done, Ensures, Ensures-mono, buffer_dirty, bind_done, fail_if}
use xipfs.Flash.{Nvm, nvm_page_size, flash_erase_state, flash_end_addr}
use xipfs.Flash.Laws.{IsNvm}
use xipfs.Buffer.View.{IsCoherent, IsReliable}
use xipfs.Desc.{sizeof_file}
use xipfs.File.{file_next, file_path, file_reserved, file_exec, file_path_check}
use xipfs.File.Paths.{IsPath}
use xipfs.File.Check.{link_exact}
use xipfs.Fs.{reserved_for, place_file, fs_new_file, fs_tail_next, fs_free_pages, found}
use xipfs.Fs.Chain.{last_of}
use xipfs.Fs.Placed.{IsPlaced, link_of, place_file-IsPlaced}
use xipfs.Fs.NewFile.{file_path_check-IsPath, IsChain-append, chain_before, reserved_for_lem}
use xipfs.Fs.Tail.{
  HasFiles, chain_last, chain_adjacent, total_reserved, fs_tail_next_lem, fs_free_pages_lem,
}

module _ (mp : Mount) (l : List ℕ) (path : Bytes) (size exec : ℕ) (w : World)
    (files : HasFiles w.mem mp l)
    (not_full : file_next w.mem (last_of mp.page_addr l) ≢ last_of mp.page_addr l) (q : IsPath path)
    (right : (exec ≡ 0) ⊎ (exec ≡ 1)) (fits : size + sizeof_file + nvm_page_size ≤ int_max)
    (aligned : mp.page_addr % nvm_page_size ≡ 0)
    (room : total_reserved w.mem mp.page_addr l + reserved_for size ≤ mp.page_num * nvm_page_size)
    (within : mp.page_addr + mp.page_num * nvm_page_size ≤ flash_end_addr) where
  abbrev pub place : ℕ
  place = mp.page_addr + total_reserved w.mem mp.page_addr l

  abbrev free : ℕ
  free = mp.page_num - total_reserved w.mem mp.page_addr l / nvm_page_size

  abbrev cleared : World
  cleared = record w { errno = xipfs_ok }

  tail_ok : found (fs_tail_next mp) w ≡ done place cleared
  tail_ok =
      let h : (file_next w.mem (last_of mp.page_addr l) == last_of mp.page_addr l) ≡ false =
        ground arith in
      let t : fs_tail_next mp w ≡ (some place, cleared) =
        fs_tail_next_lem w mp l files ∙ (rw h refl) in
      ap (λ r. found (λ _. r) w) t

  free_ok : fs_free_pages mp cleared ≡ done free cleared
  unfolding flash_end_addr
  free_ok =
      let h : ltb mp.page_num (total_reserved w.mem mp.page_addr l / nvm_page_size) ≡ false =
        ground arith in
      fs_free_pages_lem cleared mp l files (omega (arith, within)) (omega (arith, within, room))
      ∙ (rw h refl)

  new_file-place_file :
      (nvm : Nvm)
      → fs_new_file nvm mp path size exec w
        ≡ place_file nvm path exec place free (reserved_for size) cleared
  unfolding fs_new_file
  new_file-place_file nvm =
      let r : not (exec == 0 || exec == 1) ≡ false = ground (arith, right) in
      let s : ltb int_max size ≡ false = ground arith in
      bind_done (file_path_check (some path) w) tt w _ (file_path_check-IsPath path w q)
      ∙ bind_done (fail_if (not (exec == 0 || exec == 1)) eperm w) tt w _
          (ap (λ b. fail_if b eperm w) r)
      ∙ bind_done (found (fs_tail_next mp) w) place cleared _ tail_ok
      ∙ bind_done (fs_free_pages mp cleared) free cleared _ free_ok
      ∙ bind_done (fail_if (ltb int_max size) einvalidsize cleared) tt cleared _
          (ap (λ b. fail_if b einvalidsize cleared) s)

  -- The link of the new file.
  abbrev pub link : ℕ
  link = link_of place (reserved_for size) free

  -- The place of the new file.
  pub place_facts :
      (place % nvm_page_size ≡ 0)
      × (place ≢ 0)
      × (mp.page_addr ≤ place)
      × (file_next w.mem (last_of mp.page_addr l) ≡ place)
  place_facts =
      let (n, c, h) = files in
      let (f, b) = chain_last w.mem mp.page_addr l c h in
      let adjacent = chain_adjacent w.mem mp.page_addr l c h in
      let exact = link_exact w.mem (last_of mp.page_addr l) (omega (arith, b)) f not_full in
      let linked = f.linked not_full in
      let at : file_next w.mem (last_of mp.page_addr l) ≡ place = omega (arith, exact, adjacent) in
      (omega (arith, linked.aligned, at), λ e. f.next_ne_null (at ∙ e), omega arith, at)

  module _ (short : q.len < 63)
      (blank : reserved_for size / nvm_page_size < free
        → file_next w.mem (place + reserved_for size) ≡ flash_erase_state) where
    enough :
        (reserved_for size ≤ free * nvm_page_size) × (place + free * nvm_page_size ≤ flash_end_addr)
    enough =
        let (al, ne, le, at) = place_facts in
        (omega (arith, al, aligned, room), omega (arith, al, aligned, room, within))

    abbrev Placed : Bytes → Type 0
    Placed m =
        IsPlaced path size exec place free w.mem q short right fits place_facts.0 place_facts.1
          enough.0 enough.1 blank m

    chain_longer : (m : Bytes) → Placed m → HasFiles m mp (l ++ (place ∷ []))
    unfolding flash_end_addr
    chain_longer m p =
        let (n, c, h) = files in
        let r = reserved_for_lem size fits in
        let (al, ne, le, at) = place_facts in
        let low : link < flash_end_addr = ground (arith, within, room, r) in
        (
          λ e.
              let before = chain_before w.mem mp.page_addr l c h not_full in
              n (
                sym (
                  read_32-ext w.mem m mp.page_addr mp.page_addr
                    (λ i lt. p.outside (mp.page_addr + i) (inl (omega (arith, lt, before, at)))))
                ∙ e),
          IsChain-append w.mem m mp.page_addr l place c h not_full at (λ a lt. p.outside a (inl lt))
              (λ e. omega (arith, p.next, e, low)) (p.file, p.last),
          h,
        )

  -- xipfs_fs_new_file on a list of files that is not full, with a clean and coherent buffer, a valid
  -- path of 62 characters at most, an execution right of 0 or 1, a size that leaves room for the
  -- structure and a page in an `int`, a mount point on whole pages of the flash with enough free pages, and an
  -- erased page behind the new file unless it takes the last page: it returns the place behind the
  -- last file; the files of the mount point are those of before and, at the end, the new one, which
  -- has the path and the right that were given and the reserved size of the rounding, and links to
  -- the place behind it, or to itself where it takes the last page; no byte outside of the new
  -- structure has changed. If it fails, the device is at fault.
  pub fs_new_file-HasFiles :
      {nvm : Nvm} (laws : IsNvm nvm)
      → IsCoherent w
      → w.buffer.state ≢ buffer_dirty
      → q.len < 63
      → (reserved_for size / nvm_page_size < free
          → file_next w.mem (place + reserved_for size) ≡ flash_erase_state)
      → Ensures
          (λ a x.
            (a ≡ place)
            × HasFiles x.mem mp (l ++ (place ∷ []))
            × ((i : ℕ) → i ≤ q.len → file_path x.mem place i ≡ path i)
            × (file_reserved x.mem place ≡ reserved_for size)
            × (file_exec x.mem place ≡ exec)
            × (file_next x.mem place ≡ link)
            × ((b : ℕ) → (b < place) ⊎ (place + sizeof_file ≤ b) → x.mem b ≡ w.mem b))
          (λ _ _. IsReliable nvm → ⊥)
          (fs_new_file nvm mp path size exec w)
  fs_new_file-HasFiles {nvm} laws c clean short blank = rw (new_file-place_file nvm) (
      Ensures-mono (place_file nvm path exec place free (reserved_for size) cleared)
        (place_file-IsPlaced path size exec place free w.mem q short right fits place_facts.0
          place_facts.1 (enough short blank).0 (enough short blank).1 blank laws cleared refl
          (record { loaded = c.loaded; clean = c.clean }) clean)
        (λ a x (e, p). (
          e,
          chain_longer short blank x.mem p,
          p.name,
          p.size_field,
          p.right_bit,
          p.next,
          p.outside,
        ))
        (λ _ x b. b))
