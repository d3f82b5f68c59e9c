-- ===== src/Path/Identify.antt =====
-- xipfs_path_new_n: what it leaves in the path structures.
use xipfs.Base.{
  ℕ, zero, suc, ◌-◌, ◌≡◌, ◌≢◌, refl, ap, ◌∙◌, arith, List, [], ◌∷◌, length, Bytes, of_list,
  strncmp_eq, same_from, ltb, leb, if◌then◌else◌, not, Bool-cases, Option-cases, inl, inr,
}
use xipfs.Errno.{xipfs_ok}
use xipfs.State.{World, Mount, Outcome, done, fail, Ensures, Ensures-bind}
use xipfs.File.{file_path}
use xipfs.Fs.{fs_head, fs_next, is_ok, walk_fuel}
use xipfs.Path.{
  path_undefined, path_creatable, XipfsPath, PathFailure, is_end, is_slash, identified, identify,
  identify_all, path_loop, without_files, settle, settle_all, init_all, path_new_n, creatable,
}

abbrev pub AllSettled : List XipfsPath → Type 0
AllSettled [] = Unit {0}
AllSettled (x ∷ xs) = (x.info ≢ path_undefined) × AllSettled xs

settle_info : (x : XipfsPath) → (settle x).info ≢ path_undefined
settle_info x h = ground arith

settle_all-AllSettled : (xs : List XipfsPath) → AllSettled (settle_all xs)
unfolding settle_all
settle_all-AllSettled [] = tt
settle_all-AllSettled (x ∷ xs) = (settle_info x, settle_all-AllSettled xs)

length-settle_all : (xs : List XipfsPath) → length (settle_all xs) ≡ length xs
unfolding settle_all
length-settle_all [] = refl
length-settle_all (x ∷ xs) = ap suc (length-settle_all xs)

length-without_files : (xs : List XipfsPath) → length (without_files xs) ≡ length xs
unfolding without_files
length-without_files [] = refl
length-without_files (x ∷ xs) = ap suc (length-without_files xs)

-- A call that returns a list of the length `n`, if it returns one.
abbrev Sized : ℕ → Outcome PathFailure (List XipfsPath) → Type 0
Sized n o = Ensures (λ xs _. length xs ≡ n) (λ _ _. Unit {0}) o

any_path : (o : Outcome PathFailure XipfsPath) → Ensures (λ _ _. Unit {0}) (λ _ _. Unit {0}) o
any_path (done x w) = tt
any_path (fail e w) = tt

identify_all-Sized :
    (filp : ℕ) (s : Bytes) (xs : List XipfsPath) (w : World)
    → Sized (length xs) (identify_all filp s xs w)
unfolding identify_all
identify_all-Sized filp s [] w = refl
identify_all-Sized filp s (x ∷ xs) w =
    Ensures-bind _ _ (identify filp s x w) _ (any_path (identify filp s x w))
      (λ y u _.
        Ensures-bind _ _ (identify_all filp s xs u) _ (identify_all-Sized filp s xs u)
          (λ ys v h. ap suc h) (λ e v _. tt))
      (λ e v _. tt)

path_loop-Sized :
    (k filp n : ℕ) (xs : List XipfsPath) (w : World)
    → length xs ≡ n
    → Sized n (path_loop k filp xs w)
unfolding path_loop
path_loop-Sized zero filp n xs w h = tt
path_loop-Sized (suc k) filp n xs w h =
    Ensures-bind _ _ (identify_all filp (file_path w.mem filp) xs w) _
      (identify_all-Sized filp (file_path w.mem filp) xs w)
      (λ ys u e. elim (Option-cases (fs_next filp u).0) [
        | inl end ↦ rw end (e ∙ h)
        | inr (q, more) ↦ rw more (path_loop-Sized k q n ys _ (e ∙ h))
      ])
      (λ e v _. tt)

init_all-Sized : (ps : List Bytes) (w : World) → Sized (length ps) (init_all ps w)
unfolding init_all
init_all-Sized [] w = refl
init_all-Sized (p ∷ ps) w = elim (Bool-cases (is_end (p 0))) [
  | inl e ↦ rw e tt
  | inr n ↦ rw n (elim (Bool-cases (not (is_slash (p 0)))) [
    | inl e ↦ rw e tt
    | inr m ↦ rw m (
        Ensures-bind _ _ (init_all ps w) _ (init_all-Sized ps w) (λ xs u h. ap suc h) (λ e u _. tt))
  ])
]

-- Every path is settled, and there are `n` of them.
abbrev pub SettledAt : ℕ → List XipfsPath → World → Type 0
SettledAt n xs w = AllSettled xs × (length xs ≡ n)

settle_all-SettledAt :
    (n : ℕ) (o : Outcome PathFailure (List XipfsPath))
    → Sized n o
    → Ensures
        (SettledAt n)
        (λ _ _. Unit {0})
        (elim o [ done ys w ↦ done (settle_all ys) w | fail e w ↦ fail e w ])
settle_all-SettledAt n (done ys w) h = (settle_all-AllSettled ys, length-settle_all ys ∙ h)
settle_all-SettledAt n (fail e w) h = tt

-- xipfs_path_new_n, if it succeeds, fills in one structure for each path, and none of them is left
-- undefined.
pub path_new_n-AllSettled :
    (mp : Mount) (paths : List Bytes) (w : World)
    → Ensures (SettledAt (length paths)) (λ _ _. Unit {0}) (path_new_n mp paths w)
unfolding path_new_n
path_new_n-AllSettled mp paths w =
    Ensures-bind _ _ (init_all paths w) _ (init_all-Sized paths w)
      (λ xs u h. elim (Option-cases (fs_head mp (record u { errno = xipfs_ok })).0) [
        | inr (q, e) ↦
            let v = (fs_head mp (record u { errno = xipfs_ok })).1 in
            rw e (
              settle_all-SettledAt (length paths) (path_loop walk_fuel q xs v)
                (path_loop-Sized walk_fuel q (length paths) xs v h))
        | inl e ↦
            rw e (elim (Bool-cases (is_ok (fs_head mp (record u { errno = xipfs_ok })).1.errno)) [
              | inl ok ↦ rw ok (
                settle_all-AllSettled (without_files xs),
                length-settle_all (without_files xs) ∙ length-without_files xs ∙ h,
              )
              | inr bad ↦ rw bad tt
            ])
      ])
      (λ e u _. tt)

-- How far "/" agrees with a path that goes on behind its slash.
same-root :
    (p : Bytes) (n : ℕ) → p 0 ≡ b'/' → p 1 ≢ 0 → strncmp_eq (of_list (b'/' ∷ [])) p n ≡ leb n 1
unfolding strncmp_eq same_from
same-root p zero s n = refl
same-root p (suc zero) s n = ground (arith, s)
same-root p (suc (suc k)) s n = ground (arith, s)

-- In a file system with no file, a path that starts with a slash and goes on is found creatable if
-- its last slash stands at index 2 at the latest, whatever the directory before it, and is left as
-- it was otherwise.
pub without_files_lem :
    (x : XipfsPath) (xs : List XipfsPath)
    → x.path 0 ≡ b'/'
    → x.path 1 ≢ 0
    → without_files (x ∷ xs)
      ≡ (if leb x.last_slash 2 then identified x path_creatable 0 else x) ∷ without_files xs
unfolding without_files creatable
without_files_lem x xs s n =
    let last = x.last_slash in
    let e = same-root x.path (if ltb 0 last then last - 1 else 0) s n in
    let f : leb (if ltb 0 last then last - 1 else 0) 1 ≡ leb last 2 = ground arith in
    ap (λ b. (if b then identified x path_creatable 0 else x) ∷ without_files xs) (e ∙ f)
