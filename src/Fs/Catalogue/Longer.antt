-- ===== src/Fs/Catalogue/Longer.antt =====
-- What a list of files that is longer by one file holds, for xipfs_fs_new_file.
use xipfs.Base.{
  ℕ, ◌+◌, ◌/◌, ◌≤◌, ◌<◌, ◌≡◌, ◌≢◌, inl, refl, ap, sym, ◌∙◌, arith, List, [], ◌∷◌, ◌++◌, Bytes,
}
use xipfs.Flash.{nvm_page_size, nvm_numof, nvm_erase_state, flash_erase_state}
use xipfs.Desc.{sizeof_file}
use xipfs.File.{file_next, file_reserved}
use xipfs.File.Check.{IsFile}
use xipfs.File.Same.{SameFile, same_word}
use xipfs.Fs.Chain.{IsChain, last_of, next_page}
use xipfs.Fs.NewFile.{chain_before}
use xipfs.Fs.Tail.{total_reserved}
use xipfs.Fs.Catalogue.{IsNamed, Names}
use xipfs.Base.{read_32}

next_inside :
    (m : Bytes) (p q : ℕ)
    → IsFile m p
    → file_next m p ≡ q
    → q ≢ p
    → p / nvm_page_size < nvm_numof
    → q / nvm_page_size < nvm_numof
next_inside m p q f e d h =
    let later = next_page m p f (λ x. d (sym e ∙ x)) in omega (arith, later, e)

module _ (m m' : Bytes) (place : ℕ) (same : (a : ℕ) → a < place → m' a ≡ m a) where
  keeps_fields : (p : ℕ) → p + sizeof_file ≤ place → SameFile m m' p
  keeps_fields p le i o = same (p + i) (ground (arith, le, o))

  keeps_name : (p : ℕ) (n : Bytes) → p + sizeof_file ≤ place → IsNamed m p n → IsNamed m' p n
  keeps_name p n le h = record {
    path = h.path;
    same = λ i li. same (p + 4 + i) (omega (arith, li, h.path.bound, le)) ∙ h.same i li;
  }

  -- The names of a list that is longer by one file.
  pub Names-append :
      (p : ℕ) (l : List ℕ) (ns : List Bytes) (path : Bytes)
      → IsChain m p l
      → p / nvm_page_size < nvm_numof
      → file_next m (last_of p l) ≢ last_of p l
      → file_next m (last_of p l) ≡ place
      → Names m p l ns
      → IsNamed m' place path
      → Names m' p (l ++ (place ∷ [])) (ns ++ (path ∷ []))
  Names-append p [] [] path c h ne at ns new = absurd ns
  Names-append p [] (n ∷ []) path c h ne at ns new =
      (keeps_name p n (omega (arith, chain_before m p [] c h ne, at)) ns, new)
  Names-append p [] (n ∷ n' ∷ ns') path c h ne at ns new = absurd ns
  Names-append p (q ∷ l) [] path c h ne at ns new = absurd ns
  Names-append p (q ∷ l) (n ∷ ns') path (f, e, d, u, c) h ne at ns new =
      let hq = next_inside m p q f e d h in
      (
        keeps_name p n (omega (arith, chain_before m p (q ∷ l) (f, e, d, u, c) h ne, at)) ns.0,
        Names-append q l ns' path c hq ne at ns.1 new,
      )

  pub total-append :
      (p : ℕ) (l : List ℕ)
      → IsChain m p l
      → p / nvm_page_size < nvm_numof
      → file_next m (last_of p l) ≢ last_of p l
      → file_next m (last_of p l) ≡ place
      → total_reserved m' p (l ++ (place ∷ [])) ≡ total_reserved m p l + file_reserved m' place
  total-append p [] c h ne at =
      let before = chain_before m p [] c h ne in
      omega (
        arith,
        same_word m m' p (keeps_fields p (omega (arith, before, at))) 68 (inl (omega arith)),
      )
  total-append p (q ∷ l) (f, e, d, u, c) h ne at =
      let before = chain_before m p (q ∷ l) (f, e, d, u, c) h ne in
      omega (
        arith,
        same_word m m' p (keeps_fields p (omega (arith, before, at))) 68 (inl (omega arith)),
        total-append q l c (next_inside m p q f e d h) ne at,
      )

add_zero : (a : ℕ) → a ≡ a + 0
add_zero a = omega arith

pub erased_word :
    (m : Bytes) (a : ℕ)
    → ((i : ℕ) → i < 4 → m (a + i) ≡ nvm_erase_state)
    → read_32 m a ≡ flash_erase_state
unfolding read_32
erased_word m a h =
    let first : m a ≡ nvm_erase_state = ap m (add_zero a) ∙ h 0 (omega arith) in
    omega (arith, first, h 1 (omega arith), h 2 (omega arith), h 3 (omega arith))

pub last_of-append : (p : ℕ) (l : List ℕ) (q : ℕ) → last_of p (l ++ (q ∷ [])) ≡ q
last_of-append p [] q = refl
last_of-append p (r ∷ l) q = last_of-append r l q
