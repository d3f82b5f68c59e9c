-- ===== src/Path/Walk.antt =====
-- xipfs_path_new_n visits the files of the list, each of them once and in order.
use xipfs.Base.{
  ℕ, zero, suc, ◌+◌, ◌<◌, ◌≡◌, refl, ap, ◌∙◌, arith, true, false, some, List, [], ◌∷◌, length,
  Bytes, not, Option-cases, Option, none, Bool, inl, inr, if◌then◌else◌, ◌==◌,
}
use xipfs.Errno.{xipfs_ok}
use xipfs.State.{
  World, Mount, Outcome, done, fail, Ensures, Ensures-bind, ◌>>=◌, ◌>>◌, set_errno, M, pure,
}
use xipfs.File.{path_max, file_path}
use xipfs.Fs.{is_ok, walk_fuel}
use xipfs.Fs.Chain.{IsChain, next_chain, next_chain_end, chain_length, chain_head}
use xipfs.Fs.Tail.{HasFiles, head_some}
use xipfs.File.Check.{filp_error_iff}
use xipfs.Path.{
  failed, without_files, XipfsPath, PathInfo, PathFailure, as_dir, identify, identify_all,
  path_loop, settle_all, init_all, path_new_n, is_open, compare_paths, classify, exists_as_file,
  exists_as_empty_dir, exists_as_nonempty_dir, invalid_because_not_dirs, creatable, add_slash,
  is_end, is_slash,
}

-- The paths compared with the files of a list, one file after the other.
unfoldable pub visit : List ℕ → List XipfsPath → M PathFailure (List XipfsPath)
visit [] xs = pure xs
visit (p ∷ l) xs = (λ w. identify_all p (file_path w.mem p) xs w) >>= λ ys. visit l ys

-- A call that leaves the state as it was.
abbrev Quiet : {A : Type 0} → World → Outcome PathFailure A → Type 0
Quiet w o = Ensures (λ _ u. u ≡ w) (λ _ u. u ≡ w) o

Quiet-if :
    {A : Type 0} (b : Bool) (w : World) (m n : M PathFailure A)
    → Quiet w (m w)
    → Quiet w (n w)
    → Quiet w ((if b then m else n) w)
Quiet-if true w m n p q = p
Quiet-if false w m n p q = q

as_dir-Quiet : (x : XipfsPath) (i : PathInfo) (p : ℕ) (w : World) → Quiet w (as_dir x i p w)
as_dir-Quiet x i p w = elim (Option-cases (add_slash x)) [
  | inl e ↦ rw (e, as_dir) refl
  | inr (y, e) ↦ rw (e, as_dir) refl
]

classify-Quiet :
    (p : ℕ) (s : Bytes) (x : XipfsPath) (i : ℕ) (w : World) → Quiet w (classify p s x i w)
unfolding classify
classify-Quiet p s x i w = Quiet-if (exists_as_file s x.path i) w _ _ refl (
    Quiet-if (exists_as_empty_dir s x.path i) w _ _ (as_dir-Quiet x _ p w) (
      Quiet-if (exists_as_nonempty_dir s x.path i) w _ _ (as_dir-Quiet x _ p w) (
        Quiet-if (invalid_because_not_dirs s x.path i) w _ _ refl
          (Quiet-if (creatable s x.path (x.last_slash + 1)) w _ _ refl refl))))

identify-Quiet : (p : ℕ) (s : Bytes) (x : XipfsPath) (w : World) → Quiet w (identify p s x w)
unfolding identify
identify-Quiet p s x w =
    Quiet-if (is_open x.info) w _ _
      (Quiet-if (compare_paths s x.path == path_max) w _ _ refl (classify-Quiet p s _ _ w)) refl

identify_all-Quiet :
    (p : ℕ) (s : Bytes) (xs : List XipfsPath) (w : World) → Quiet w (identify_all p s xs w)
unfolding identify_all
identify_all-Quiet p s [] w = refl
identify_all-Quiet p s (x ∷ xs) w =
    Ensures-bind _ _ (identify p s x w) _ (identify-Quiet p s x w)
      (λ y u h.
        Ensures-bind _ _ (identify_all p s xs u) _ (identify_all-Quiet p s xs u) (λ ys v g. g ∙ h)
          (λ e v g. g ∙ h))
      (λ e u h. h)

init_all-Quiet : (ps : List Bytes) (w : World) → Quiet w (init_all ps w)
unfolding init_all
init_all-Quiet [] w = refl
init_all-Quiet (p ∷ ps) w = Quiet-if (is_end (p 0)) w _ _ refl (
    Quiet-if (not (is_slash (p 0))) w _ _ refl
      (Ensures-bind _ _ (init_all ps w) _ (init_all-Quiet ps w) (λ xs u h. h) (λ e u h. h)))

-- Behind a call that leaves the state, only what happens in that state matters.
Quiet-bind :
    {A B : Type 0} (o : Outcome PathFailure A) (w : World) (f g : A → M PathFailure B)
    → Quiet w o
    → ((a : A) → f a w ≡ g a w)
    → elim o as (λ _. Outcome PathFailure B) [ done a u ↦ f a u | fail e u ↦ fail e u ]
      ≡ elim o as (λ _. Outcome PathFailure B) [ done a u ↦ g a u | fail e u ↦ fail e u ]
Quiet-bind (done a u) w f g q h = rw q (h a)
Quiet-bind (fail e u) w f g q h = refl

-- What follows the files of `p`, by the answer of xipfs_fs_next.
abbrev onward : ℕ → List XipfsPath → Option ℕ × World → Outcome PathFailure (List XipfsPath)
onward k ys r = elim r.0 [ some p ↦ path_loop k p ys r.1 | none ↦ done ys r.1 ]

path_loop-visit :
    (k p : ℕ) (l : List ℕ) (xs : List XipfsPath) (w : World)
    → IsChain w.mem p l
    → length l < k
    → path_loop k p xs w ≡ visit (p ∷ l) xs w
unfolding path_loop visit
path_loop-visit zero p l xs w c h = absurd (omega arith)
path_loop-visit (suc k) p [] xs w c h =
    Quiet-bind (identify_all p (file_path w.mem p) xs w) w _ _ (identify_all-Quiet p _ xs w)
      (λ ys. ap (onward k ys) (next_chain_end w p c))
path_loop-visit (suc k) p (q ∷ l) xs w c h =
    let (f, e, ne, used, rest) = c in
    Quiet-bind (identify_all p (file_path w.mem p) xs w) w _ _ (identify_all-Quiet p _ xs w) (λ ys.
      ap (onward k ys) (next_chain w p q l c) ∙ path_loop-visit k q l ys w rest (ground arith))

-- If the files of the mount point form a list in the flash, xipfs_path_new_n sets up the paths,
-- clears the error number, compares every path with every file of the list, once and in the order
-- of the list, and settles the paths that are still undefined. The walk does not end early.
pub path_new_n-visit :
    (mp : Mount) (l : List ℕ) (paths : List Bytes) (w : World)
    → HasFiles w.mem mp l
    → path_new_n mp paths w
      ≡ (init_all paths >>= λ xs.
            set_errno xipfs_ok >> (visit (mp.page_addr ∷ l) xs >>= λ ys. pure (settle_all ys)))
          w
unfolding path_new_n
path_new_n-visit mp l paths w files =
    let (n, c, h) = files in
    let u : World = record w { errno = xipfs_ok } in
    let ok = (filp_error_iff w.mem mp.page_addr).1 (chain_head w.mem mp.page_addr l c) in
    let bound = chain_length w.mem mp.page_addr l c h in
    Quiet-bind (init_all paths w) w _ _ (init_all-Quiet paths w) (λ xs.
      ap (from_head xs) (head_some u mp n ok)
      ∙ ap settled (path_loop-visit walk_fuel mp.page_addr l xs u c (omega (arith, bound))))
  where
    settled : Outcome PathFailure (List XipfsPath) → Outcome PathFailure (List XipfsPath)
    settled o = elim o [ done ys v ↦ done (settle_all ys) v | fail e v ↦ fail e v ]

    from_head : List XipfsPath → Option ℕ × World → Outcome PathFailure (List XipfsPath)
    from_head xs r = elim r.0 [
      | some q ↦ settled (path_loop walk_fuel q xs r.1)
      | none ↦ if is_ok r.1.errno then done (settle_all (without_files xs)) r.1 else fail failed r.1
    ]
