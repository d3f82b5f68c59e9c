-- ===== src/Fs/Tail.antt =====
-- xipfs_fs_tail, xipfs_fs_tail_next and xipfs_fs_free_pages on the list of files.
use native.Mathlib.Decide.{ℕ_discrete}
use xipfs.Base.{
  ℕ, ◌≤◌, int_max, Bool-cases, ◌+◌, ◌-◌, ◌/◌, ◌<◌, ◌≡◌, ◌≢◌, inl, inr, refl, ap, sym, subst, ◌∙◌,
  arith, true, false, Option, none, some, List, [], ◌∷◌, Bytes, ◌==◌, if◌then◌else◌, Option-cases,
  u32, u32_mod, ltb,
}
use xipfs.Errno.{Errno, xipfs_ok, efull}
use xipfs.State.{World, Mount, Outcome, done, fail, ◌>>=◌}
use xipfs.Flash.{nvm_page_size, nvm_numof, flash_erase_state}
use xipfs.File.{file_next, file_reserved, filp_error}
use xipfs.File.Check.{IsFile, filp_error_iff, filp_error_ne, link_exact}
use xipfs.Fs.{
  fs_head, fs_tail, tail_loop, walk_fuel, tail_result, is_ok, checked, fs_tail_next, fs_free_pages,
  free_count, found, count_result, pages_less, int_pages,
}
use xipfs.Fs.Chain.{
  IsChain, chain_head, last_of, Walked, whole, broken, tail_loop-Walked, tail_loop-chain,
  chain_length, next_page,
}

-- A mount point with files: the one at its first page, and those of `l` behind it.
abbrev pub HasFiles : Bytes → Mount → List ℕ → Type 0
HasFiles m mp l =
    (file_next m mp.page_addr ≢ flash_erase_state)
    × IsChain m mp.page_addr l
    × (mp.page_addr / nvm_page_size < nvm_numof)

-- The ways in which xipfs_fs_tail returns.
pub data Tail (w : World) (mp : Mount) : Option ℕ × World → Type 0 where
  no_file : file_next w.mem mp.page_addr ≡ flash_erase_state → Tail w mp (none, w)
  tail :
      (l : List ℕ)
      → file_next w.mem mp.page_addr ≢ flash_erase_state
      → IsChain w.mem mp.page_addr l
      → Tail w mp (some (last_of mp.page_addr l), record w { errno = xipfs_ok })
  bad_file : (e : Errno) → e ≢ xipfs_ok → Tail w mp (none, record w { errno = e })

is_ok_ne : (e : Errno) → e ≢ xipfs_ok → is_ok e ≡ false
is_ok_ne e n = ground arith

module _ (w : World) (mp : Mount) where
  head_none : file_next w.mem mp.page_addr ≡ flash_erase_state → fs_head mp w ≡ (none, w)
  unfolding fs_head
  head_none e =
      let h : (file_next w.mem mp.page_addr == flash_erase_state) ≡ true = ground arith in rw h refl

  pub head_some :
      file_next w.mem mp.page_addr ≢ flash_erase_state
      → filp_error w.mem mp.page_addr ≡ none
      → fs_head mp w ≡ (some mp.page_addr, w)
  unfolding fs_head
  head_some n ok =
      let good : checked mp.page_addr w ≡ (some mp.page_addr, w) = rw (ok, checked) refl in
      let h : (file_next w.mem mp.page_addr == flash_erase_state) ≡ false = ground arith in
      rw h good

  head_bad :
      (e : Errno)
      → file_next w.mem mp.page_addr ≢ flash_erase_state
      → filp_error w.mem mp.page_addr ≡ some e
      → fs_head mp w ≡ (none, record w { errno = e })
  unfolding fs_head
  head_bad e n bad =
      let good : checked mp.page_addr w ≡ (none, record w { errno = e }) = rw (bad, checked) refl in
      let h : (file_next w.mem mp.page_addr == flash_erase_state) ≡ false = ground arith in
      rw h good

  abbrev rest_of : Option ℕ × World → Option ℕ × World
  rest_of r = elim r.0 [ none ↦ (none, r.1) | some p ↦ tail_result r.1 (tail_loop walk_fuel p r.1) ]

  tail_rest : fs_tail mp w ≡ rest_of (fs_head mp w)
  unfolding fs_tail
  tail_rest = refl

  pub fs_tail-none : file_next w.mem mp.page_addr ≡ flash_erase_state → fs_tail mp w ≡ (none, w)
  fs_tail-none e = tail_rest ∙ ap rest_of (head_none e)

  Walked-Tail :
      (r : Option (ℕ × World))
      → file_next w.mem mp.page_addr ≢ flash_erase_state
      → Walked w mp.page_addr r
      → Tail w mp (tail_result w r)
  Walked-Tail r n (whole l c) = tail l n c
  Walked-Tail r n (broken t e bad) = rw (is_ok_ne e bad) (bad_file e bad)

  -- From any memory, xipfs_fs_tail returns: it finds no file, with the error number left as it was,
  -- if the link of the first page is erased; the last file of the list that starts at the first
  -- page, every file of which passes the check, with the error number cleared; or no file with an
  -- error number set.
  pub fs_tail_lem : Tail w mp (fs_tail mp w)
  fs_tail_lem = elim (ℕ_discrete (file_next w.mem mp.page_addr) flash_erase_state) [
    | yes e ↦ subst (Tail w mp) (sym (tail_rest ∙ ap rest_of (head_none e))) (no_file e)
    | no n ↦ elim (Option-cases (filp_error w.mem mp.page_addr)) [
      | inl ok ↦ subst (Tail w mp) (sym (tail_rest ∙ ap rest_of (head_some n ok))) (
          Walked-Tail (tail_loop walk_fuel mp.page_addr w) n
            (tail_loop-Walked walk_fuel mp.page_addr w (omega arith) (omega arith)))
      | inr (e, bad) ↦
          subst (Tail w mp) (sym (tail_rest ∙ ap rest_of (head_bad e n bad)))
            (bad_file e (λ h. filp_error_ne w.mem mp.page_addr (bad ∙ ap some h)))
    ]
  ]

  -- If the files of the mount point form a list in the flash, xipfs_fs_tail finds its last file
  -- and clears the error number.
  pub fs_tail-HasFiles :
      (l : List ℕ)
      → HasFiles w.mem mp l
      → fs_tail mp w ≡ (some (last_of mp.page_addr l), record w { errno = xipfs_ok })
  fs_tail-HasFiles l (n, c, h) =
      let bound = chain_length w.mem mp.page_addr l c h in
      tail_rest
      ∙ ap rest_of
          (head_some n ((filp_error_iff w.mem mp.page_addr).1 (chain_head w.mem mp.page_addr l c)))
      ∙ ap (tail_result w) (tail_loop-chain walk_fuel mp.page_addr l w c (omega (arith, bound)))

-- The bytes that the files of a list take up.
abbrev pub total_reserved : Bytes → ℕ → List ℕ → ℕ
total_reserved m p [] = file_reserved m p
total_reserved m p (q ∷ l) = file_reserved m p + total_reserved m q l

pub chain_last :
    (m : Bytes) (p : ℕ) (l : List ℕ)
    → IsChain m p l
    → p / nvm_page_size < nvm_numof
    → IsFile m (last_of p l) × (last_of p l / nvm_page_size < nvm_numof)
chain_last m p [] c h = (c.0, h)
chain_last m p (q ∷ l) (f, e, ne, used, c) h =
    let later = next_page m p f (λ x. ne (sym e ∙ x)) in
    chain_last m q l c (omega (arith, later, e))

-- The files stand one behind the other, with no gap.
pub chain_adjacent :
    (m : Bytes) (p : ℕ) (l : List ℕ)
    → IsChain m p l
    → p / nvm_page_size < nvm_numof
    → last_of p l + file_reserved m (last_of p l) ≡ p + total_reserved m p l
chain_adjacent m p [] c h = refl
chain_adjacent m p (q ∷ l) (f, e, ne, used, c) h =
    let n : file_next m p ≢ p = λ x. ne (sym e ∙ x) in
    let link = link_exact m p (omega arith) f n in
    let later = next_page m p f n in
    omega (arith, chain_adjacent m q l c (omega (arith, later, e)), link, e)

-- What xipfs_fs_free_pages makes of the head and of the tail.
abbrev pub free_of : Mount → Option ℕ × World → Outcome (Unit {0}) ℕ
free_of mp r = elim r.0 [
  | none ↦ if is_ok r.1.errno then count_result mp.page_num r.1 else fail tt r.1
  | some h ↦ (found (fs_tail mp) >>= λ t. free_count mp h t) r.1
]

abbrev free_between : Mount → ℕ → Option ℕ × World → Outcome (Unit {0}) ℕ
free_between mp h r = (found (λ _. r) >>= λ t. free_count mp h t) r.1

-- The bytes from the head to the end of the tail are those of the files.
used_total :
    (m : Bytes) (mp : Mount) (l : List ℕ)
    → HasFiles m mp l
    → u32
        (last_of mp.page_addr l + file_reserved m (last_of mp.page_addr l) + u32_mod - mp.page_addr)
      ≡ total_reserved m mp.page_addr l
used_total m mp l (n, c, h) =
    let adjacent = chain_adjacent m mp.page_addr l c h in
    let (f, b) = chain_last m mp.page_addr l c h in omega (arith, adjacent, f.reserved, b)

-- The subtraction, where the numbers are those of an `int`.
free_count-small :
    (n v : ℕ) (w : World)
    → n ≤ int_max
    → v ≤ int_max
    → count_result (pages_less n (int_pages v)) w
      ≡ (if ltb n (v / nvm_page_size) then fail tt w else done (n - v / nvm_page_size) w)
unfolding count_result pages_less int_pages
free_count-small n v w ln lv =
    let small : ltb int_max v ≡ false = ground arith in
    elim (Bool-cases (ltb n (v / nvm_page_size))) [
      | inl e ↦
          let over : ltb int_max (u32 (n + u32_mod - v / nvm_page_size)) ≡ true = ground arith in
          rw (small, e, over) refl
      | inr e ↦
          let same : u32 (n + u32_mod - v / nvm_page_size) ≡ n - v / nvm_page_size = ground arith in
          let fits : ltb int_max (n - v / nvm_page_size) ≡ false = ground arith in
          rw (small, e, same, fits) refl
    ]

module _ (w : World) (mp : Mount) (l : List ℕ) where
  -- On a list of files in the flash whose reserved sizes, and the pages of the mount point, an `int`
  -- can count, xipfs_fs_free_pages returns the pages of the mount point less the pages that the
  -- reserved sizes of all its files add up to, and fails if those are more; the memory is left as it
  -- was and the error number is cleared.
  pub fs_free_pages_lem :
      HasFiles w.mem mp l
      → mp.page_num ≤ int_max
      → total_reserved w.mem mp.page_addr l ≤ int_max
      → fs_free_pages mp w ≡ (
          let used = total_reserved w.mem mp.page_addr l / nvm_page_size in
          let u : World = record w { errno = xipfs_ok } in
          if ltb mp.page_num used then fail tt u else done (mp.page_num - used) u)
  unfolding fs_free_pages free_count
  fs_free_pages_lem f few small =
      let (n, c, h) = f in
      let u : World = record w { errno = xipfs_ok } in
      let ok = (filp_error_iff w.mem mp.page_addr).1 (chain_head w.mem mp.page_addr l c) in
      ap (free_of mp) (head_some u mp n ok)
      ∙ ap (free_between mp mp.page_addr) (fs_tail-HasFiles u mp l f)
      ∙ ap (λ used. count_result (pages_less mp.page_num (int_pages used)) u)
          (used_total w.mem mp l f)
      ∙ free_count-small mp.page_num (total_reserved w.mem mp.page_addr l) u few small

  abbrev pub place_of : Option ℕ × World → Option ℕ × World
  place_of r = elim r.0 [
    | none ↦ if is_ok r.1.errno then (some (mp.page_addr), r.1) else (none, r.1)
    | some t ↦
        if file_next r.1.mem t == t
        then (none, record r.1 { errno = efull })
        else (some (file_next r.1.mem t), r.1)
  ]

  -- On a list of files in the flash, xipfs_fs_tail_next reports a full file system if the last file
  -- links to itself; otherwise it returns the address just behind the reserved bytes of all the
  -- files.
  pub fs_tail_next_lem :
      HasFiles w.mem mp l
      → fs_tail_next mp w ≡ (
          let t = last_of mp.page_addr l in
          if file_next w.mem t == t then (none, record w { errno = efull }) else (
            some (mp.page_addr + total_reserved w.mem mp.page_addr l),
            record w { errno = xipfs_ok },
          ))
  unfolding fs_tail_next
  fs_tail_next_lem f =
      let (n, c, h) = f in
      let t = last_of mp.page_addr l in
      let (g, b) = chain_last w.mem mp.page_addr l c h in
      let adjacent = chain_adjacent w.mem mp.page_addr l c h in
      ap place_of (fs_tail-HasFiles (record w { errno = xipfs_ok }) mp l f)
      ∙ elim (ℕ_discrete (file_next w.mem t) t) [
        | yes e ↦ let eq : (file_next w.mem t == t) ≡ true = ground arith in rw eq refl
        | no ne ↦
            let eq : (file_next w.mem t == t) ≡ false = ground arith in
            let link = link_exact w.mem t (omega (arith, b)) g ne in
            let place : file_next w.mem t ≡ mp.page_addr + total_reserved w.mem mp.page_addr l =
              omega (arith, link, adjacent) in
            rw (eq, place) refl
      ]
