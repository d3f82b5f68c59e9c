-- ===== src/Fs/NewFile.antt =====
-- xipfs_fs_new_file puts a file behind the last one.
use xipfs.Base.{
  ℕ, some, pos, ltb, false, ◌+◌, ◌/◌, ◌%◌, ◌≤◌, ◌<◌, ◌≡◌, ◌≢◌, refl, ◌∙◌, sym, arith, Bytes, List,
  [], ◌∷◌, ◌++◌, int_max,
}
use xipfs.State.{World, Outcome, done, fail, Ensures, Internal, pure, ◌>>◌}
use xipfs.Flash.{Nvm, nvm_page_size, nvm_numof, flash_erase_state}
use xipfs.Flash.Laws.{IsNvm}
use xipfs.Buffer.View.{IsCoherent}
use xipfs.Buffer.Words.{Committed, Broken, write-flush}
use xipfs.Buffer.{buffer_write, buffer_flush}
use xipfs.Desc.{sizeof_file}
use xipfs.File.{file_path_check, file_next}
use xipfs.File.Paths.{IsPath, path_error_iff}
use xipfs.File.Check.{link_exact}
use xipfs.File.Same.{SameFile, same_next, same-IsFile}
use xipfs.Fs.{int_pages, reserved_for, round_page, put_header}
use xipfs.Fs.Chain.{IsChain, last_of, next_page}

-- Every file of a list ends before the place behind the last one.
pub chain_before :
    (m : Bytes) (p : ℕ) (l : List ℕ)
    → IsChain m p l
    → p / nvm_page_size < nvm_numof
    → file_next m (last_of p l) ≢ last_of p l
    → p + sizeof_file ≤ file_next m (last_of p l)
chain_before m p [] c h ne = let link = link_exact m p (omega arith) c.0 ne in omega (arith, link)
chain_before m p (q ∷ l) (f, e, n, used, c) h ne =
    let other : file_next m p ≢ p = λ x. n (sym e ∙ x) in
    let link = link_exact m p (omega arith) f other in
    let later = next_page m p f other in
    omega (arith, link, e, chain_before m q l c (omega (arith, later, e)) ne)

-- A file put behind the last one makes the list longer.
pub IsChain-append :
    (m m' : Bytes) (p : ℕ) (l : List ℕ) (place : ℕ)
    → IsChain m p l
    → p / nvm_page_size < nvm_numof
    → file_next m (last_of p l) ≢ last_of p l
    → file_next m (last_of p l) ≡ place
    → ((a : ℕ) → a < place → m' a ≡ m a)
    → file_next m' place ≢ flash_erase_state
    → IsChain m' place []
    → IsChain m' p (l ++ (place ∷ []))
IsChain-append m m' p [] place (f, o) h ne e same used end =
    let before = chain_before m p [] (f, o) h ne in
    let s : SameFile m m' p = λ i o. same (p + i) (ground (arith, before, e, o)) in
    (same-IsFile m m' p s f, same_next m m' p s ∙ e, λ x. ne (e ∙ x), used, end)
IsChain-append m m' p (q ∷ l) place (f, e, n, u, c) h ne at same used end =
    let other : file_next m p ≢ p = λ x. n (sym e ∙ x) in
    let later = next_page m p f other in
    let hq : q / nvm_page_size < nvm_numof = omega (arith, later, e) in
    let before = chain_before m p (q ∷ l) (f, e, n, u, c) h ne in
    let s : SameFile m m' p = λ i o. same (p + i) (ground (arith, before, at, o)) in
    let before_q = chain_before m q l c hq ne in
    let sq : SameFile m m' q = λ i o. same (q + i) (ground (arith, before_q, at, o)) in
    (
      same-IsFile m m' p s f,
      same_next m m' p s ∙ e,
      n,
      λ x. u (sym (same_next m m' q sq) ∙ x),
      IsChain-append m m' q l place c hq ne at same used end,
    )

-- What a file takes up: whole pages, for the structure and the size.
pub reserved_for_lem :
    (size : ℕ)
    → size + sizeof_file + nvm_page_size ≤ int_max
    → (reserved_for size % nvm_page_size ≡ 0)
      × (size + sizeof_file ≤ reserved_for size)
      × (reserved_for size < size + sizeof_file + nvm_page_size)
unfolding reserved_for round_page
reserved_for_lem size h = (ground arith, ground arith, ground arith)

-- A valid path passes.
pub file_path_check-IsPath :
    (path : Bytes) (w : World) → IsPath path → file_path_check (some path) w ≡ done tt w
unfolding file_path_check
file_path_check-IsPath path w q = let e = (path_error_iff path).1 q in rw e refl

-- As an `int` it is not negative.
pub int_pages-reserved_for :
    (size : ℕ)
    → size + sizeof_file + nvm_page_size ≤ int_max
    → int_pages (reserved_for size) ≡ pos (reserved_for size / nvm_page_size)
unfolding int_pages
int_pages-reserved_for size h =
    let r = reserved_for_lem size h in
    let small : ltb int_max (reserved_for size) ≡ false = ground (arith, r, h) in rw small refl

module _ {nvm : Nvm} (laws : IsNvm nvm) where
  finished :
      (P : World → Type 0) (Q : Unit {0} → World → Type 0) (filp : ℕ)
      (o : Outcome (Unit {0}) (Unit {0}))
      → Ensures (λ _ x. P x) Q o
      → Ensures
          (λ a x. (a ≡ filp) × P x)
          Q
          (elim o [ done _ x ↦ done filp x | fail e x ↦ fail e x ])
  finished P Q filp (done a x) h = (refl, h)
  finished P Q filp (fail e x) h = h

  finished_after :
      (P : World → Type 0) (Q : Unit {0} → World → Type 0) (filp : ℕ)
      (o : Outcome (Unit {0}) (Unit {0})) (k : Internal (Unit {0}))
      → Ensures
          (λ _ x. P x)
          Q
          (elim o as (λ _. Outcome (Unit {0}) (Unit {0})) [ done _ v ↦ k v | fail e v ↦ fail e v ])
      → Ensures
          (λ a x. (a ≡ filp) × P x)
          Q
          (elim o as (λ _. Outcome (Unit {0}) ℕ) [
            | done _ v ↦ (k >> pure filp) v
            | fail e v ↦ fail e v
          ])
  finished_after P Q filp (done a v) k h = finished P Q filp (k v) h
  finished_after P Q filp (fail e v) k h = h

  pub put_header-Committed :
      (filp : ℕ) (header : Bytes) (w : World)
      → IsCoherent w
      → filp ≢ 0
      → Ensures
          (λ a x. (a ≡ filp) × Committed filp header sizeof_file w x)
          (λ _ x. Broken nvm filp header sizeof_file w x)
          (put_header nvm filp header w)
  unfolding put_header
  put_header-Committed filp header w c ne =
      finished_after _ _ filp (buffer_write nvm filp header sizeof_file w) (buffer_flush nvm)
        (write-flush laws filp header sizeof_file w c ne)
