-- ===== src/Fs/Catalogue/Next.antt =====
-- xipfs_fs_new_file where there are files, as seen in the catalogue of the files.
use xipfs.Base.{
  ℕ, ◌+◌, ◌-◌, ◌*◌, ◌/◌, ◌%◌, ◌≤◌, ◌<◌, ◌≡◌, ◌≢◌, ◌⊎◌, inl, inr, refl, ap, sym, subst, ◌∙◌, arith,
  true, false, Bool-cases, Option, none, some, List, [], ◌∷◌, ◌++◌, Bytes, ltb, leb, ◌==◌,
  if◌then◌else◌, int_max,
}
use xipfs.State.{World, Mount, Ensures, Ensures-mono, buffer_dirty}
use xipfs.Flash.{Nvm, nvm_page_size, flash_erase_state, flash_end_addr}
use xipfs.Flash.Laws.{IsNvm}
use xipfs.Buffer.View.{IsCoherent, IsReliable}
use xipfs.Desc.{sizeof_file}
use xipfs.File.{file_next, file_path, file_reserved}
use xipfs.File.Paths.{IsPath}
use xipfs.Fs.{reserved_for, fs_new_file}
use xipfs.Fs.Chain.{last_of}
use xipfs.Fs.NewFile.{file_path_check-IsPath, int_pages-reserved_for, reserved_for_lem}
use xipfs.Fs.Tail.{HasFiles, total_reserved}
use xipfs.Fs.Append.{place_facts, link, fs_new_file-HasFiles}
use xipfs.Fs.Catalogue.{Catalogue, add_file, Filled}
use xipfs.State.{Outcome, done, fail, bind_done, bind_fail, fail_if}
use xipfs.Base.{Bool, not, ◌||◌}
use xipfs.Errno.{xipfs_ok, eperm, efull, enospace, einvalidsize}
use xipfs.File.{file_path_check}
use xipfs.Fs.{place_file, fs_free_pages, fs_tail_next, found}
use xipfs.Fs.Tail.{fs_free_pages_lem, fs_tail_next_lem}
use xipfs.Fs.Catalogue.Longer.{Names-append, total-append, last_of-append, erased_word}

module _ (mp : Mount) (l : List ℕ) (c : Catalogue) (path : Bytes) (size exec : ℕ) (w : World)
    (rep : Filled w.mem mp l c) (q : IsPath path) (short : q.len < 63)
    (right : (exec ≡ 0) ⊎ (exec ≡ 1)) (fits : size + sizeof_file + nvm_page_size ≤ int_max)
    (aligned : mp.page_addr % nvm_page_size ≡ 0)
    (within : mp.page_addr + mp.page_num * nvm_page_size ≤ flash_end_addr) where
  -- What is to be expected of a new file: the view with the new file, which lies behind the others,
  -- or a refusal that changes nothing.
  abbrev pub CreatedNext : Nvm → Option Catalogue → Outcome (Unit {0}) ℕ → Type 0
  CreatedNext nvm none o =
      Ensures (λ _ _. ⊥) (λ _ u. (u.mem ≡ w.mem) × ((u.errno ≡ efull) ⊎ (u.errno ≡ enospace))) o
  CreatedNext nvm (some c') o =
      Ensures
        (λ p u.
          (p ≡ mp.page_addr + total_reserved w.mem mp.page_addr l)
          × Filled u.mem mp (l ++ (p ∷ [])) c')
        (λ _ _. IsReliable nvm → ⊥) o

  module _ (room : reserved_for size / nvm_page_size ≤ c.free) where
    -- The place of the new file.
    abbrev start : ℕ
    start = mp.page_addr + total_reserved w.mem mp.page_addr l

    -- The view afterwards.
    abbrev after : Catalogue
    after = record {
      names = c.names ++ (path ∷ []);
      free = c.free - reserved_for size / nvm_page_size;
    }

    some_free : c.free ≢ 0
    some_free e = let r = reserved_for_lem size fits in omega (arith, room, r, e)

    pages_fit :
        total_reserved w.mem mp.page_addr l + reserved_for size ≤ mp.page_num * nvm_page_size
    pages_fit = let r = reserved_for_lem size fits in omega (arith, room, r, rep.space)

    Filled-new :
        (u : World)
        → HasFiles u.mem mp (l ++ (start ∷ []))
        → ((i : ℕ) → i ≤ q.len → file_path u.mem start i ≡ path i)
        → file_reserved u.mem start ≡ reserved_for size
        → (c.free ≢ reserved_for size / nvm_page_size → file_next u.mem start ≢ start)
        → ((b : ℕ) → (b < start) ⊎ (start + sizeof_file ≤ b) → u.mem b ≡ w.mem b)
        → Filled u.mem mp (l ++ (start ∷ [])) after
    Filled-new u files named res open_end outside =
        let (n, c0, h) = rep.files in
        let not_full = rep.open_end some_free in
        let facts =
          place_facts mp l path size exec w rep.files not_full q right fits aligned pages_fit
            within in
        let (_, _, _, at) = facts in
        let r = reserved_for_lem size fits in
        let below : (a : ℕ) → a < start → u.mem a ≡ w.mem a = λ a lt. outside a (inl lt) in
        let total = total-append w.mem u.mem start below mp.page_addr l c0 h not_full at in
        let last = last_of-append mp.page_addr l start in
        record {
          files = files;
          names =
              Names-append w.mem u.mem start below mp.page_addr l c.names path c0 h not_full at
                rep.names (record { path = q; same = named });
          space = omega (arith, r, room, total, res, rep.space);
          open_end = λ ne e.
              open_end (λ x. ground (arith, x, ne)) (sym (ap (file_next u.mem) last) ∙ e ∙ last);
          blank = λ b lo hi.
              outside b (inr (omega (arith, lo, total, res, r)))
              ∙ rep.blank b (omega (arith, lo, total, res)) hi;
        }

    blank_behind :
        reserved_for size / nvm_page_size
          < mp.page_num - total_reserved w.mem mp.page_addr l / nvm_page_size
        → file_next w.mem (start + reserved_for size) ≡ flash_erase_state
    blank_behind lt =
        let r = reserved_for_lem size fits in
        erased_word w.mem (start + reserved_for size) (λ i li.
          rep.blank (start + reserved_for size + i) (omega arith)
            (omega (arith, li, lt, r, rep.space, aligned)))

    open_after :
        (u : World)
        → file_next u.mem start
          ≡ link mp l path size exec w rep.files
              (rep.open_end some_free)
              q
              right
              fits
              aligned
              pages_fit
              within
        → c.free ≢ reserved_for size / nvm_page_size
        → file_next u.mem start ≢ start
    unfolding flash_end_addr
    open_after u next ne e =
        let r = reserved_for_lem size fits in
        let lt : ltb (reserved_for size / nvm_page_size)
              (mp.page_num - total_reserved w.mem mp.page_addr l / nvm_page_size)
            ≡ true =
          ground (arith, rep.space, room, ne) in
        ground (arith, lt, next, e, r, within, pages_fit)

    created :
        {nvm : Nvm} (laws : IsNvm nvm)
        → IsCoherent w
        → w.buffer.state ≢ buffer_dirty
        → CreatedNext nvm (some after) (fs_new_file nvm mp path size exec w)
    created {nvm} laws coherent clean =
        Ensures-mono (fs_new_file nvm mp path size exec w)
          (fs_new_file-HasFiles mp l path size exec w rep.files (rep.open_end some_free) q right
            fits aligned pages_fit within laws coherent clean short blank_behind)
          (λ p u (e, files, named, res, x, next, outside). (
            e,
            subst (λ a. Filled u.mem mp (l ++ (a ∷ [])) after) (sym e)
                (Filled-new u files named res (open_after u next) outside),
          ))
          (λ _ u b. b)

  -- The view where the pages do not suffice.
  module _ (lack : c.free < reserved_for size / nvm_page_size) where
    -- The pages are counted before the size is looked at.
    counted :
        (nvm : Nvm)
        → place_file nvm path exec
            (mp.page_addr + total_reserved w.mem mp.page_addr l)
            c.free
            (reserved_for size)
            (record w { errno = xipfs_ok })
          ≡ fail tt (record w { errno = enospace })
    unfolding place_file
    counted nvm =
        let less : ltb (reserved_for size / nvm_page_size) c.free ≡ false = ground arith in
        let other : (reserved_for size / nvm_page_size == c.free) ≡ false = ground arith in
        rw (int_pages-reserved_for size fits, less, other) refl

    free_ok :
        fs_free_pages mp (record w { errno = xipfs_ok })
        ≡ done c.free (record w { errno = xipfs_ok })
    unfolding flash_end_addr
    free_ok =
        let h : ltb mp.page_num (total_reserved w.mem mp.page_addr l / nvm_page_size) ≡ false =
          ground (arith, rep.space) in
        let e : mp.page_num - total_reserved w.mem mp.page_addr l / nvm_page_size ≡ c.free =
          omega (arith, rep.space) in
        fs_free_pages_lem (record w { errno = xipfs_ok }) mp l rep.files (omega (arith, within))
          (omega (arith, within, rep.space))
        ∙ rw (h, e) refl

    abbrev full : Bool
    full = file_next w.mem (last_of mp.page_addr l) == last_of mp.page_addr l

    tail_full : full ≡ true → found (fs_tail_next mp) w ≡ fail tt (record w { errno = efull })
    tail_full e =
        let t : fs_tail_next mp w ≡ (none, record w { errno = efull }) =
          fs_tail_next_lem w mp l rep.files ∙ (rw e refl) in
        ap (λ r. found (λ _. r) w) t

    tail_open :
        full ≡ false
        → found (fs_tail_next mp) w
          ≡ done
              (mp.page_addr + total_reserved w.mem mp.page_addr l)
              (record w { errno = xipfs_ok })
    tail_open n =
        let t : fs_tail_next mp w ≡ (
          some (mp.page_addr + total_reserved w.mem mp.page_addr l),
          record w { errno = xipfs_ok },
        ) =
          fs_tail_next_lem w mp l rep.files ∙ (rw n refl) in
        ap (λ r. found (λ _. r) w) t

    refused :
        (nvm : Nvm)
        → fs_new_file nvm mp path size exec w
          ≡ fail tt (record w { errno = if full then efull else enospace })
    unfolding fs_new_file
    refused nvm =
        let r : not (exec == 0 || exec == 1) ≡ false = ground (arith, right) in
        let s : ltb int_max size ≡ false = ground arith in
        bind_done (file_path_check (some path) w) tt w _ (file_path_check-IsPath path w q)
        ∙ bind_done (fail_if (not (exec == 0 || exec == 1)) eperm w) tt w _
            (ap (λ b. fail_if b eperm w) r)
        ∙ elim (Bool-cases full) [
          | inl e ↦
              bind_fail (found (fs_tail_next mp) w) tt (record w { errno = efull }) _ (tail_full e)
              ∙ rw e refl
          | inr n ↦
              bind_done (found (fs_tail_next mp) w)
                (mp.page_addr + total_reserved w.mem mp.page_addr l) (record w { errno = xipfs_ok })
                _ (tail_open n)
              ∙ bind_done (fs_free_pages mp (record w { errno = xipfs_ok })) c.free
                  (record w { errno = xipfs_ok }) _ free_ok
              ∙ bind_done (fail_if (ltb int_max size) einvalidsize (record w { errno = xipfs_ok }))
                  tt (record w { errno = xipfs_ok }) _
                  (ap (λ b. fail_if b einvalidsize (record w { errno = xipfs_ok })) s)
              ∙ counted nvm
              ∙ rw n refl
        ]

    lacking : (nvm : Nvm) → CreatedNext nvm none (fs_new_file nvm mp path size exec w)
    lacking nvm = rw (refused nvm) (
      refl,
      elim (Bool-cases full) [
        | inl e ↦ inl (ap (λ b. if b then efull else enospace) e)
        | inr n ↦ inr (ap (λ b. if b then efull else enospace) n)
      ],
    )

  -- The two cases together.
  pub fs_new_file-Filled :
      {nvm : Nvm} (laws : IsNvm nvm)
      → IsCoherent w
      → w.buffer.state ≢ buffer_dirty
      → CreatedNext nvm (add_file path size c) (fs_new_file nvm mp path size exec w)
  unfolding add_file
  fs_new_file-Filled {nvm} laws coherent clean =
      elim (Bool-cases (leb (reserved_for size / nvm_page_size) c.free)) [
        | inl e ↦
            let room : reserved_for size / nvm_page_size ≤ c.free = ground arith in
            subst (λ o. CreatedNext nvm o (fs_new_file nvm mp path size exec w))
              (sym (ap (λ b. if b then some (after room) else none) e))
              (created room laws coherent clean)
        | inr n ↦
            let lack : c.free < reserved_for size / nvm_page_size = ground arith in
            subst (λ o. CreatedNext nvm o (fs_new_file nvm mp path size exec w))
              (sym (
                ap
                  (λ b.
                    if b
                    then some (record {
                      names = c.names ++ (path ∷ []);
                      free = c.free - reserved_for size / nvm_page_size;
                    })
                    else none)
                  n))
              (lacking lack nvm)
      ]
