-- ===== src/Fs/Catalogue/First.antt =====
-- xipfs_fs_new_file on an empty mount point, as seen in the catalogue of the files.
use xipfs.Base.{
  ℕ, ◌+◌, ◌-◌, ◌*◌, ◌/◌, ◌%◌, ◌≤◌, ◌<◌, ◌≡◌, ◌≢◌, ◌⊎◌, inr, refl, ap, ◌∙◌, arith, Bool, true, false,
  not, ◌||◌, ◌==◌, if◌then◌else◌, ltb, Option, none, some, [], ◌∷◌, Bytes, int_max,
}
use xipfs.Errno.{xipfs_ok, eperm, enospace, einvalidsize}
use xipfs.State.{World, Mount, done, fail, bind_done, fail_if, Ensures, Ensures-mono, buffer_dirty}
use xipfs.Flash.{Nvm, nvm_page_size, nvm_erase_state, flash_erase_state, flash_end_addr}
use xipfs.Flash.Laws.{IsNvm}
use xipfs.Buffer.View.{IsCoherent, IsReliable}
use xipfs.Desc.{sizeof_file}
use xipfs.File.{file_next, file_path_check}
use xipfs.File.Paths.{IsPath}
use xipfs.Fs.Tail.{free_of, place_of}
use xipfs.Fs.{
  fs_head, fs_tail, checked, tail_result, tail_loop, walk_fuel, count_result, fs_new_file,
  fs_tail_next, fs_free_pages, found, place_file, reserved_for,
}
use xipfs.Fs.NewFile.{reserved_for_lem, int_pages-reserved_for, file_path_check-IsPath}
use xipfs.Fs.Placed.{IsPlaced, place_file-IsPlaced}
use xipfs.Fs.Catalogue.{Catalogue, Filled}
use xipfs.Fs.Catalogue.Longer.{erased_word}

module _ (mp : Mount) (path : Bytes) (size exec : ℕ) (w : World) (some_page : mp.page_addr ≢ 0)
    (erased : file_next w.mem mp.page_addr ≡ flash_erase_state)
    (blank : (b : ℕ)
      → mp.page_addr ≤ b
      → b < mp.page_addr + mp.page_num * nvm_page_size
      → w.mem b ≡ nvm_erase_state)
    (q : IsPath path) (short : q.len < 63) (right : (exec ≡ 0) ⊎ (exec ≡ 1))
    (fits : size + sizeof_file + nvm_page_size ≤ int_max)
    (aligned : mp.page_addr % nvm_page_size ≡ 0)
    (within : mp.page_addr + mp.page_num * nvm_page_size ≤ flash_end_addr) where
  abbrev cleared : World
  cleared = record w { errno = xipfs_ok }

  no_head : (file_next w.mem mp.page_addr == flash_erase_state) ≡ true
  no_head = ground arith

  head_none : fs_head mp cleared ≡ (none, cleared)
  unfolding fs_head
  head_none = ap (λ (b : Bool). if b then (none, cleared) else checked mp.page_addr cleared) no_head

  tail_none : fs_tail mp cleared ≡ (none, cleared)
  unfolding fs_tail
  tail_none =
      ap
        (λ (r : Option ℕ × World).
          let (head, w') = r in
          elim head [ none ↦ (none, w') | some p ↦ tail_result w' (tail_loop walk_fuel p w') ])
        head_none

  tail_ok : found (fs_tail_next mp) w ≡ done mp.page_addr cleared
  unfolding fs_tail_next
  tail_ok = ap (λ r. found (λ _. place_of w mp [] r) w) tail_none

  free_ok : fs_free_pages mp cleared ≡ done mp.page_num cleared
  unfolding fs_free_pages count_result flash_end_addr
  free_ok =
      let few : ltb int_max mp.page_num ≡ false = ground (arith, within) in
      ap (free_of mp) head_none ∙ (rw few refl)

  new_file-place_file :
      (nvm : Nvm)
      → fs_new_file nvm mp path size exec w
        ≡ place_file nvm path exec mp.page_addr mp.page_num (reserved_for size) cleared
  unfolding fs_new_file
  new_file-place_file nvm =
      let r : not (exec == 0 || exec == 1) ≡ false = ground (arith, right) in
      let s : ltb int_max size ≡ false = ground arith in
      bind_done (file_path_check (some path) w) tt w _ (file_path_check-IsPath path w q)
      ∙ bind_done (fail_if (not (exec == 0 || exec == 1)) eperm w) tt w _
          (ap (λ b. fail_if b eperm w) r)
      ∙ bind_done (found (fs_tail_next mp) w) mp.page_addr cleared _ tail_ok
      ∙ bind_done (fs_free_pages mp cleared) mp.page_num cleared _ free_ok
      ∙ bind_done (fail_if (ltb int_max size) einvalidsize cleared) tt cleared _
          (ap (λ b. fail_if b einvalidsize cleared) s)

  module _ (room : reserved_for size / nvm_page_size ≤ mp.page_num) where
    enough : reserved_for size ≤ mp.page_num * nvm_page_size
    enough = let r = reserved_for_lem size fits in omega (arith, r, room)

    behind :
        reserved_for size / nvm_page_size < mp.page_num
        → file_next w.mem (mp.page_addr + reserved_for size) ≡ flash_erase_state
    behind lt =
        let r = reserved_for_lem size fits in
        erased_word w.mem (mp.page_addr + reserved_for size) (λ i li.
          blank (mp.page_addr + reserved_for size + i) (omega arith) (omega (arith, li, lt, r)))

    abbrev after : Catalogue
    after = record { names = path ∷ []; free = mp.page_num - reserved_for size / nvm_page_size }

    abbrev Placed : Bytes → Type 0
    Placed m =
        IsPlaced path size exec mp.page_addr mp.page_num w.mem q short right fits aligned some_page
          enough within behind m

    Placed-Filled : (m : Bytes) → Placed m → Filled m mp [] after
    unfolding flash_end_addr
    Placed-Filled m p =
        let r = reserved_for_lem size fits in
        record {
          files = (
            λ e. ground (arith, p.next, e, within, r, enough),
            (p.file, p.last),
            omega (arith, within, r, enough),
          );
          names = record { path = q; same = p.name };
          space = omega (arith, p.size_field, r, room);
          open_end = λ ne e. ground (arith, p.next, e, ne, within, r, enough, room);
          blank = λ b lo hi.
              p.outside b (inr (omega (arith, lo, p.size_field, r))) ∙ blank b (omega arith) hi;
        }

    pub first_created :
        {nvm : Nvm} (laws : IsNvm nvm)
        → IsCoherent w
        → w.buffer.state ≢ buffer_dirty
        → Ensures
            (λ a u. (a ≡ mp.page_addr) × Filled u.mem mp [] after)
            (λ _ _. IsReliable nvm → ⊥)
            (fs_new_file nvm mp path size exec w)
    first_created {nvm} laws c clean = rw (new_file-place_file nvm) (
        Ensures-mono (place_file nvm path exec mp.page_addr mp.page_num (reserved_for size) cleared)
          (place_file-IsPlaced path size exec mp.page_addr mp.page_num w.mem q short right fits
            aligned some_page enough within behind laws cleared refl
            (record { loaded = c.loaded; clean = c.clean }) clean)
          (λ a u (e, p). (e, Placed-Filled u.mem p)) (λ _ u b. b))

  pub first_refused :
      (nvm : Nvm)
      → mp.page_num < reserved_for size / nvm_page_size
      → fs_new_file nvm mp path size exec w ≡ fail tt (record w { errno = enospace })
  unfolding place_file
  first_refused nvm lack =
      let less : ltb (reserved_for size / nvm_page_size) mp.page_num ≡ false = ground arith in
      let other : (reserved_for size / nvm_page_size == mp.page_num) ≡ false = ground arith in
      new_file-place_file nvm ∙ rw (int_pages-reserved_for size fits, less, other) refl
