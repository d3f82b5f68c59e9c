-- ===== src/Fs/Chain.antt =====
-- The walk along the links: what it finds, and that it ends on every memory.
use native.Mathlib.Decide.{ℕ_discrete}
use xipfs.Base.{
  ℕ, zero, suc, ◌+◌, ◌/◌, ◌<◌, ◌≡◌, ◌≢◌, ◌⊎◌, inl, inr, refl, ap, sym, ◌∙◌, arith, true, false,
  Option, none, some, List, [], ◌∷◌, length, Bytes, ◌==◌, Option-cases,
}
use xipfs.Errno.{Errno, xipfs_ok}
use xipfs.State.{World}
use xipfs.Flash.{nvm_page_size, nvm_numof, flash_erase_state, flash_end_addr}
use xipfs.File.{file_next, filp_error}
use xipfs.File.Check.{IsFile, filp_error_iff, filp_error_ne}
use xipfs.Fs.{fs_next, tail_loop, next_of, checked}

module _ (m : Bytes) where
  -- `l` are the files behind the file `p`, in order; the last one links to itself, or to a place
  -- that is still erased.
  abbrev pub IsChain : ℕ → List ℕ → Type 0
  IsChain p [] =
      IsFile m p
      × ((file_next m p ≡ p)
          ⊎ ((file_next m p ≢ p) × (file_next m (file_next m p) ≡ flash_erase_state)))
  IsChain p (q ∷ l) =
      IsFile m p × (file_next m p ≡ q) × (q ≢ p) × (file_next m q ≢ flash_erase_state) × IsChain q l

pub chain_head : (m : Bytes) (p : ℕ) (l : List ℕ) → IsChain m p l → IsFile m p
chain_head m p [] c = c.0
chain_head m p (q ∷ l) c = c.0

abbrev pub last_of : ℕ → List ℕ → ℕ
last_of p [] = p
last_of p (q ∷ l) = last_of q l

-- A link leads to a later page of the flash.
pub next_page :
    (m : Bytes) (p : ℕ)
    → IsFile m p
    → file_next m p ≢ p
    → (p / nvm_page_size < file_next m p / nvm_page_size)
      × (file_next m p / nvm_page_size < nvm_numof)
unfolding flash_end_addr
next_page m p f ne = let l = f.linked ne in omega (arith, l)

-- What xipfs_fs_next answers, by the fields of the file.
module _ (w : World) (p : ℕ) where
  next_bad :
      (e : Errno) → filp_error w.mem p ≡ some e → fs_next p w ≡ (none, record w { errno = e })
  unfolding fs_next
  next_bad e h = rw (h, fs_next)

  next_good : filp_error w.mem p ≡ none → fs_next p w ≡ next_of p w
  unfolding fs_next
  next_good h = rw (h, fs_next)

-- The three answers of xipfs_fs_next: the end of the list, a file, or an error.
pub data Next (w : World) (p : ℕ) : Option ℕ × World → Type 0 where
  at_end : IsChain w.mem p [] → Next w p (none, w)
  at_file :
      {q : ℕ}
      → IsFile w.mem p
      → file_next w.mem p ≡ q
      → q ≢ p
      → file_next w.mem q ≢ flash_erase_state
      → IsFile w.mem q
      → Next w p (some q, w)
  at_error : (e : Errno) → e ≢ xipfs_ok → Next w p (none, record w { errno = e })

module _ (w : World) (p : ℕ) where
  checked-Next :
      (q : ℕ)
      → IsFile w.mem p
      → file_next w.mem p ≡ q
      → q ≢ p
      → file_next w.mem q ≢ flash_erase_state
      → Next w p (checked q w)
  checked-Next q f e ne used = elim (Option-cases (filp_error w.mem q)) [
    | inl ok ↦ rw (ok, checked) (at_file f e ne used ((filp_error_iff w.mem q).0 ok))
    | inr (e, bad) ↦ rw (bad, checked) (at_error e (λ h. filp_error_ne w.mem q (bad ∙ ap some h)))
  ]

  -- The last file of a list has no next file.
  last_file : IsChain w.mem p [] → next_of p w ≡ (none, w)
  last_file c = ground arith

  -- A file that another one links to is its next file.
  next_file :
      (q : ℕ)
      → file_next w.mem p ≡ q
      → q ≢ p
      → file_next w.mem q ≢ flash_erase_state
      → filp_error w.mem q ≡ none
      → next_of p w ≡ (some q, w)
  next_file q e ne used ok =
      let good : checked q w ≡ (some q, w) = rw (ok, checked) refl in
      let n1 : (file_next w.mem p == p) ≡ false = ground arith in
      let n2 : (file_next w.mem q == flash_erase_state) ≡ false = ground arith in
      rw (n1, e, n2) good

  next_of-Next : IsFile w.mem p → Next w p (next_of p w)
  next_of-Next f = elim (ℕ_discrete (file_next w.mem p) p) [
    | yes e ↦ let h : (file_next w.mem p == p) ≡ true = ground arith in rw h (at_end (f, inl e))
    | no n ↦
        let h : (file_next w.mem p == p) ≡ false = ground arith in
        rw h (elim (ℕ_discrete (file_next w.mem (file_next w.mem p)) flash_erase_state) [
          | yes e ↦
              let g : (file_next w.mem (file_next w.mem p) == flash_erase_state) ≡ true =
                ground arith in
              rw g (at_end (f, inr (n, e)))
          | no used ↦
              let g : (file_next w.mem (file_next w.mem p) == flash_erase_state) ≡ false =
                ground arith in
              rw g (checked-Next (file_next w.mem p) f refl n used)
        ])
  ]

  pub fs_next-Next : Next w p (fs_next p w)
  fs_next-Next = elim (Option-cases (filp_error w.mem p)) [
    | inl ok ↦ rw (next_good w p ok) (next_of-Next ((filp_error_iff w.mem p).0 ok))
    | inr (e, bad) ↦
        rw (next_bad w p e bad) (at_error e (λ h. filp_error_ne w.mem p (bad ∙ ap some h)))
  ]

-- The walk from `p` on ends at `t`: either it is the last file of the list, or a file behind it
-- failed the check, and the error number says which test.
pub data Walked (w : World) (p : ℕ) : Option (ℕ × World) → Type 0 where
  whole :
      (l : List ℕ)
      → IsChain w.mem p l
      → Walked w p (some (last_of p l, record w { errno = xipfs_ok }))
  broken : (t : ℕ) (e : Errno) → e ≢ xipfs_ok → Walked w p (some (t, record w { errno = e }))

Walked-cons :
    (w : World) (p q : ℕ) (r : Option (ℕ × World))
    → IsFile w.mem p
    → file_next w.mem p ≡ q
    → q ≢ p
    → file_next w.mem q ≢ flash_erase_state
    → Walked (record w { errno = xipfs_ok }) q r
    → Walked w p r
Walked-cons w p q r f e ne used (whole l c) = whole (q ∷ l) (f, e, ne, used, c)
Walked-cons w p q r f e ne used (broken t b bad) = broken t b bad

-- One step of the walk, with what the rest of it finds.
walk_step :
    (k p : ℕ) (w : World) (r : Option ℕ × World)
    → Next (record w { errno = xipfs_ok }) p r
    → nvm_numof < suc k + p / nvm_page_size
    → ((q : ℕ)
        → nvm_numof < k + q / nvm_page_size
        → 0 < k
        → Walked (record w { errno = xipfs_ok }) q (tail_loop k q (record w { errno = xipfs_ok })))
    → Walked w p (elim r.0 [ some q ↦ tail_loop k q r.1 | none ↦ some (p, r.1) ])
walk_step k p w r (at_end c) fuel ih = whole [] c
walk_step k p w r (at_file {q} f e ne used g) fuel ih =
    let later = next_page w.mem p f (λ h. ne (sym e ∙ h)) in
    Walked-cons w p q _ f e ne used (ih q (omega (arith, later, e)) (omega (arith, later, e)))
walk_step k p w r (at_error e bad) fuel ih = broken p e bad

-- With fuel for the pages that are left, the walk always ends.
pub tail_loop-Walked :
    (k p : ℕ) (w : World) → nvm_numof < k + p / nvm_page_size → 0 < k → Walked w p (tail_loop k p w)
unfolding tail_loop
tail_loop-Walked zero p w fuel pos = absurd (omega arith)
tail_loop-Walked (suc k) p w fuel pos =
    let u : World = record w { errno = xipfs_ok } in
    walk_step k p w (fs_next p u) (fs_next-Next u p) fuel (λ q f ps. tail_loop-Walked k q u f ps)

-- A list of files that starts at `p` fits in the pages behind `p`.
pub chain_length :
    (m : Bytes) (p : ℕ) (l : List ℕ)
    → IsChain m p l
    → p / nvm_page_size < nvm_numof
    → length l + p / nvm_page_size < nvm_numof
chain_length m p [] c h = ground arith
chain_length m p (q ∷ l) (f, e, ne, used, c) h =
    let later = next_page m p f (λ x. ne (sym e ∙ x)) in
    let rest = chain_length m q l c (omega (arith, later, e)) in ground (arith, rest, later)

-- What xipfs_fs_next answers on a list of files.
pub next_chain_end : (w : World) (p : ℕ) → IsChain w.mem p [] → fs_next p w ≡ (none, w)
next_chain_end w p c = next_good w p ((filp_error_iff w.mem p).1 c.0) ∙ last_file w p c

pub next_chain :
    (w : World) (p q : ℕ) (l : List ℕ) → IsChain w.mem p (q ∷ l) → fs_next p w ≡ (some q, w)
next_chain w p q l (f, e, ne, used, c) =
    next_good w p ((filp_error_iff w.mem p).1 f)
    ∙ next_file w p q e ne used ((filp_error_iff w.mem q).1 (chain_head w.mem q l c))

-- On a list of files, the walk finds the last one.
pub tail_loop-chain :
    (k p : ℕ) (l : List ℕ) (w : World)
    → IsChain w.mem p l
    → length l < k
    → tail_loop k p w ≡ some (last_of p l, record w { errno = xipfs_ok })
unfolding tail_loop
tail_loop-chain zero p l w c h = absurd (omega arith)
tail_loop-chain (suc k) p [] w c h =
    let u : World = record w { errno = xipfs_ok } in
    ap (λ r. elim r.0 [ some q ↦ tail_loop k q r.1 | none ↦ some (p, r.1) ]) (next_chain_end u p c)
tail_loop-chain (suc k) p (q ∷ l) w c h =
    let u : World = record w { errno = xipfs_ok } in
    let (f, e, ne, used, rest) = c in
    ap (λ r. elim r.0 [ some t ↦ tail_loop k t r.1 | none ↦ some (p, r.1) ]) (next_chain u p q l c)
    ∙ tail_loop-chain k q l u rest (ground arith)
