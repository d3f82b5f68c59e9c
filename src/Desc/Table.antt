-- ===== src/Desc/Table.antt =====
-- The invariant of the table of src/desc.c, and what its scans find.
use native.Mathlib.Decide.{ℕ_discrete}
use xipfs.Base.{
  ℕ, zero, suc, ◌+◌, ◌≤◌, ◌<◌, ◌≡◌, ◌≢◌, ◌⊎◌, inl, inr, refl, ap, sym, ◌∙◌, arith, true, false,
  Option, none, some, ◌==◌, if◌then◌else◌,
}
use xipfs.Posix
use xipfs.State.{DescType, desc_free, desc_file, desc_dir, DescEntry}
use xipfs.Desc.{Search, error, entry, max_open_desc, first_free, type_eq, track_loop, find_loop}

-- No structure is tracked twice, and exactly the entries with no address are free.
pub record IsTable (t : ℕ → DescEntry) : Type 0 where
  pub unique :
      (i j : ℕ)
      → i < max_open_desc
      → j < max_open_desc
      → (t i).addr ≡ (t j).addr
      → (t i).addr ≢ 0
      → i ≡ j
  pub free : (i : ℕ) → i < max_open_desc → (t i).addr ≡ 0 → (t i).type ≡ desc_free
  pub used : (i : ℕ) → i < max_open_desc → (t i).type ≡ desc_free → (t i).addr ≡ 0

-- The structure at `d` is tracked by entry `i`.
pub record Holds (t : ℕ → DescEntry) (d i : ℕ) : Type 0 where
  pub bound : i < max_open_desc
  pub at : (t i).addr ≡ d

pub type_eq_lem : (a b : DescType) → type_eq a b ≡ true → a ≡ b
type_eq_lem desc_free desc_free h = refl
type_eq_lem desc_file desc_file h = refl
type_eq_lem desc_dir desc_dir h = refl
type_eq_lem desc_free desc_file h = cc
type_eq_lem desc_free desc_dir h = cc
type_eq_lem desc_file desc_free h = cc
type_eq_lem desc_file desc_dir h = cc
type_eq_lem desc_dir desc_free h = cc
type_eq_lem desc_dir desc_file h = cc

pub type_eq_refl : (a : DescType) → type_eq a a ≡ true
type_eq_refl desc_free = refl
type_eq_refl desc_file = refl
type_eq_refl desc_dir = refl

-- A fact of `i` and of the `k` numbers behind it.
widen {ℓ} :
    (P : ℕ → Type ℓ) (k i : ℕ)
    → P i
    → ((j : ℕ) → i + 1 ≤ j → j < i + 1 + k → P j)
    → (j : ℕ) → i ≤ j
    → j < i + suc k
    → P j
widen P k i h rest j le lt = elim (ℕ_discrete i j) [
  | yes e ↦ rw (← e) h
  | no n ↦ rest j (omega arith) (omega arith)
]

module _ (t : ℕ → DescEntry) (d : ℕ) where
  -- Nothing at `d` among the `k` entries from `i` on.
  abbrev pub Absent : ℕ → ℕ → Type 0
  Absent k i = (j : ℕ) → i ≤ j → j < i + k → (t j).addr ≢ d

  -- How the scan for tracking ends.
  abbrev pub Tracks : ℕ → ℕ → Option ℕ → Search → Type 0
  Tracks k i found (error e) =
      (e ≡ Posix.eio) × ((j : ℕ) × (i ≤ j) × (j < i + k) × ((t j).addr ≡ d))
  Tracks k i found (entry none) =
      Absent k i × (found ≡ none) × ((j : ℕ) → i ≤ j → j < i + k → (t j).addr ≢ 0)
  Tracks k i found (entry (some e)) =
      Absent k i × ((found ≡ some e) ⊎ ((found ≡ none) × (i ≤ e) × (e < i + k) × ((t e).addr ≡ 0)))

  Tracks-suc :
      (k i : ℕ) (found : Option ℕ) (s : Search)
      → (t i).addr ≢ d
      → Tracks k (i + 1) (if (t i).addr == 0 then first_free found i else found) s
      → Tracks (suc k) i found s
  Tracks-suc k i found (error e) ne (p, (j, le, lt, h)) = (p, (j, omega arith, omega arith, h))
  Tracks-suc k i none (entry none) ne (a, p, f) =
      (widen (λ j. (t j).addr ≢ d) k i ne a, refl, widen (λ j. (t j).addr ≢ 0) k i (ground arith) f)
  Tracks-suc k i (some e) (entry none) ne (a, p, f) = absurd (ground arith)
  Tracks-suc k i none (entry (some e)) ne (a, p) =
      (widen (λ j. (t j).addr ≢ d) k i ne a, inr (refl, ground arith, ground arith, ground arith))
  Tracks-suc k i (some f) (entry (some e)) ne (a, p) =
      (widen (λ j. (t j).addr ≢ d) k i ne a, ground arith)

  pub track_loop-Tracks : (k i : ℕ) (found : Option ℕ) → Tracks k i found (track_loop k i found d t)
  unfolding track_loop
  track_loop-Tracks zero i none =
      ((λ j le lt. absurd (omega arith)), refl, λ j le lt. absurd (omega arith))
  track_loop-Tracks zero i (some e) = ((λ j le lt. absurd (omega arith)), inl refl)
  track_loop-Tracks (suc k) i found = elim (ℕ_discrete ((t i).addr) d) [
    | yes e ↦
        let h : ((t i).addr == d) ≡ true = ground arith in
        rw h (refl, (i, omega arith, omega arith, e))
    | no n ↦
        let h : ((t i).addr == d) ≡ false = ground arith in
        rw h (Tracks-suc k i found _ n (track_loop-Tracks k (i + 1) _))
  ]

  find-Absent :
      (ty : DescType) (k i : ℕ) (found : Option ℕ)
      → Absent k i
      → find_loop k i found d ty t ≡ entry found
  unfolding find_loop
  find-Absent ty zero i found a = refl
  find-Absent ty (suc k) i found a =
      let h : ((t i).addr == d) ≡ false = ground (arith, a i) in
      rw h (find-Absent ty k (i + 1) found (λ j le lt. a j (omega arith) (omega arith)))

  -- Where one entry alone stands at `d`, the scan compares its type.
  find_present :
      (ty : DescType) (k i j : ℕ)
      → i ≤ j
      → j < i + k
      → (t j).addr ≡ d
      → ((l : ℕ) → i ≤ l → l < i + k → (t l).addr ≡ d → l ≡ j)
      → find_loop k i none d ty t
        ≡ (if type_eq (t j).type ty then entry (some j) else error Posix.eio)
  unfolding find_loop
  find_present ty zero i j le lt e u = absurd (omega arith)
  find_present ty (suc k) i j le lt e u = elim (ℕ_discrete i j) [
    | yes p ↦
        let h : ((t i).addr == d) ≡ true = ground (arith, ap (λ x. (t x).addr) p) in
        let rest =
          find-Absent ty k (i + 1) (some i)
            (λ l ge lt h. absurd (omega (arith, u l (omega arith) (omega arith) h))) in
        rw (h, rest, p)
    | no n ↦
        let h : ((t i).addr == d) ≡ false = ground (arith, u i) in
        rw h (
          find_present ty k (i + 1) j (omega arith) (omega arith) e
            (λ l ge lt. u l (omega arith) (omega arith)))
  ]

  pub search_entry : (k i : ℕ) → Absent k i ⊎ ((j : ℕ) × (i ≤ j) × (j < i + k) × ((t j).addr ≡ d))
  search_entry zero i = inl (λ j le lt. absurd (omega arith))
  search_entry (suc k) i = elim (ℕ_discrete ((t i).addr) d) [
    | yes e ↦ inr (i, omega arith, omega arith, e)
    | no n ↦ elim (search_entry k (i + 1)) [
      | inl a ↦ inl (widen (λ j. (t j).addr ≢ d) k i n a)
      | inr (j, le, lt, h) ↦ inr (j, omega arith, omega arith, h)
    ]
  ]

  -- The scan of the whole table.
  pub find_holds :
      (ty : DescType) (i : ℕ)
      → IsTable t
      → d ≢ 0
      → i < max_open_desc
      → (t i).addr ≡ d
      → find_loop max_open_desc 0 none d ty t
        ≡ (if type_eq (t i).type ty then entry (some i) else error Posix.eio)
  find_holds ty i ok ne lt e =
      find_present ty max_open_desc 0 i (omega arith) (omega arith) e
        (λ l ge lt' h. ok.unique l i lt' lt (h ∙ sym e) (λ z. ne (sym h ∙ z)))

  pub find_none :
      (ty : DescType) → Absent max_open_desc 0 → find_loop max_open_desc 0 none d ty t ≡ entry none
  find_none ty a = find-Absent ty max_open_desc 0 none a
