-- ===== src/Path/Compare.antt =====
-- compare_paths of src/path.c, and what the tests on its result say of the two strings.
use native.Mathlib.Decide.{ℕ_discrete, dec_lt}
use xipfs.Base.{
  ℕ, zero, suc, ◌+◌, ◌-◌, ◌≤◌, ◌<◌, ◌≡◌, ◌≢◌, ◌↔◌, ◌⊎◌, inl, inr, sym, ◌∙◌, arith, true, false,
  Bytes, ◌==◌,
}
use xipfs.File.{path_max}
use xipfs.Path.{
  compare_loop, compare_paths, exists_as_file, exists_as_empty_dir, exists_as_nonempty_dir,
  invalid_because_not_dirs,
}

-- Both strings have the same characters from `i` to `n`, and no end among them.
abbrev pub Agree : Bytes → Bytes → ℕ → ℕ → Type 0
Agree p q i n = (j : ℕ) → i ≤ j → j < n → (p j ≡ q j) × (p j ≢ 0)

-- The place where a comparison of `k` characters from `i` on stops.
pub record Compared (p q : Bytes) (k i r : ℕ) : Type 0 where
  pub from : i ≤ r
  pub to : r ≤ i + k
  pub same : Agree p q i r
  pub stop : r < i + k → (p r ≢ q r) ⊎ ((p r ≡ 0) × (q r ≡ 0))

Compared-suc :
    (p q : Bytes) (k i r : ℕ)
    → p i ≡ q i
    → p i ≢ 0
    → Compared p q k (i + 1) r
    → Compared p q (suc k) i r
Compared-suc p q k i r e n c = record {
  from = omega (arith, c.from);
  to = omega (arith, c.to);
  same = λ j le lt. elim (ℕ_discrete i j) [
    | yes h ↦ rw (← h) (e, n)
    | no ne ↦ c.same j (omega arith) lt
  ];
  stop = λ lt. c.stop (omega arith);
}

compare_loop-Compared : (k i : ℕ) (p q : Bytes) → Compared p q k i (compare_loop k p q i)
unfolding compare_loop
compare_loop-Compared zero i p q = record {
  from = omega arith;
  to = omega arith;
  same = λ j le lt. absurd (omega arith);
  stop = λ lt. absurd (omega arith);
}
compare_loop-Compared (suc k) i p q = elim (ℕ_discrete (p i) (q i)) [
  | no n ↦
      let e : (p i == q i) ≡ false = ground arith in
      rw e (record {
        from = omega arith;
        to = omega arith;
        same = λ j le lt. absurd (omega arith);
        stop = λ lt. inl n;
      })
  | yes e ↦
      let t : (p i == q i) ≡ true = ground arith in
      rw t (elim (ℕ_discrete (p i) 0) [
        | yes z ↦
            let h : (p i == 0) ≡ true = ground arith in
            rw h (record {
              from = omega arith;
              to = omega arith;
              same = λ j le lt. absurd (omega arith);
              stop = λ lt. inr (z, sym e ∙ z);
            })
        | no n ↦
            let h : (p i == 0) ≡ false = ground arith in
            let g : (q i == 0) ≡ false = ground arith in
            rw (h, g) (Compared-suc p q k i _ e n (compare_loop-Compared k (i + 1) p q))
      ])
]

-- compare_paths returns the first index at which the two paths differ or both end, or 64 if there is
-- none below it; the characters before it are the same, and no null is among them.
pub compare_paths_lem : (p q : Bytes) → Compared p q path_max 0 (compare_paths p q)
unfolding compare_paths
compare_paths_lem p q = compare_loop-Compared path_max 0 p q

-- Where the strings agree up to `n` and one of them ends there, or they differ there, the
-- comparison stops at `n`.
compare_paths_at :
    (p q : Bytes) (n : ℕ)
    → n ≤ path_max
    → Agree p q 0 n
    → (p n ≢ q n) ⊎ (p n ≡ 0)
    → compare_paths p q ≡ n
compare_paths_at p q n le a s =
    let c = compare_paths_lem p q in
    let r = compare_paths p q in
    elim (dec_lt r n) [
      | yes lt ↦ let (e, z) = a r (omega arith) lt in absurd (ground (arith, c.stop (omega arith)))
      | no ge ↦ elim (dec_lt n r) [
        | yes lt ↦ let (e, z) = c.same n (omega arith) lt in absurd (ground arith)
        | no ge' ↦ omega arith
      ]
    ]

-- The strings are the same, and are not that of a directory.
pub record IsSameFile (p q : Bytes) : Type 0 where
  pub len : ℕ
  pub positive : 0 < len
  pub bound : len ≤ path_max
  pub agree : Agree p q 0 len
  pub end_1 : p len ≡ 0
  pub end_2 : q len ≡ 0
  pub last : p (len - 1) ≢ b'/'

-- `p` is `q`, followed by a slash unless `q` ends in one, followed by a character of the class `R`.
pub record IsInside (R : ℕ → Type 0) (p q : Bytes) : Type 0 where
  pub len : ℕ
  pub positive : 0 < len
  pub bound : len ≤ path_max
  pub agree : Agree p q 0 len
  pub end : q len ≡ 0
  pub rest :
      ((p (len - 1) ≡ b'/') × R (p len))
      ⊎ ((p (len - 1) ≢ b'/') × (len < path_max - 1) × (p len ≡ b'/') × R (p (len + 1)))

abbrev pub Nothing : ℕ → Type 0
Nothing c = c ≡ 0

abbrev pub Something : ℕ → Type 0
Something c = (c ≢ 0) × (c ≢ b'/')

-- exists_as_file, at the index that compare_paths returns, succeeds exactly if the two strings are
-- equal, not empty, end at index 64 at the latest, and do not end in a slash.
pub exists_as_file_iff :
    (p q : Bytes) → (exists_as_file p q (compare_paths p q) ≡ true) ↔ IsSameFile p q
unfolding exists_as_file
exists_as_file_iff p q = (
  λ h.
      let c = compare_paths_lem p q in
      record {
        len = compare_paths p q;
        positive = ground arith;
        bound = omega (arith, c.to);
        agree = c.same;
        end_1 = ground arith;
        end_2 = ground arith;
        last = ground arith;
      },
  λ s.
      let e = compare_paths_at p q s.len s.bound s.agree (inr s.end_1) in
      let a = s.agree (s.len - 1) (omega arith) (omega (arith, s.positive)) in
      rw e (ground (arith, s.positive, a, s.end_1, s.end_2, s.last)),
)

-- exists_as_empty_dir, at the index that compare_paths returns, succeeds exactly if the first
-- string is the second one with a slash appended, unless it ends in one already; the second one is
-- not empty and ends at index 64 at the latest, at index 62 if the slash is appended.
pub exists_as_empty_dir_iff :
    (p q : Bytes) → (exists_as_empty_dir p q (compare_paths p q) ≡ true) ↔ IsInside Nothing p q
unfolding exists_as_empty_dir
exists_as_empty_dir_iff p q = (
  λ h.
      let c = compare_paths_lem p q in
      record {
        len = compare_paths p q;
        positive = ground arith;
        bound = omega (arith, c.to);
        agree = c.same;
        end = ground arith;
        rest = ground arith;
      },
  λ s.
      let stop : (p s.len ≢ q s.len) ⊎ (p s.len ≡ 0) = ground (arith, s.rest, s.end) in
      let e = compare_paths_at p q s.len s.bound s.agree stop in
      let a = s.agree (s.len - 1) (omega arith) (omega (arith, s.positive)) in
      rw e (ground (arith, s.positive, a, s.end, s.rest)),
)

-- exists_as_nonempty_dir, at the index that compare_paths returns, succeeds exactly if the first
-- string is the second one with a slash appended, unless it ends in one already, and a character
-- behind it that is neither a slash nor the end; the second one is not empty and ends at index 64
-- at the latest, at index 62 if the slash is appended.
pub exists_as_nonempty_dir_iff :
    (p q : Bytes) → (exists_as_nonempty_dir p q (compare_paths p q) ≡ true) ↔ IsInside Something p q
unfolding exists_as_nonempty_dir
exists_as_nonempty_dir_iff p q = (
  λ h.
      let c = compare_paths_lem p q in
      record {
        len = compare_paths p q;
        positive = ground arith;
        bound = omega (arith, c.to);
        agree = c.same;
        end = ground arith;
        rest = ground arith;
      },
  λ s.
      let stop : (p s.len ≢ q s.len) ⊎ (p s.len ≡ 0) = ground (arith, s.rest, s.end) in
      let e = compare_paths_at p q s.len s.bound s.agree stop in
      let a = s.agree (s.len - 1) (omega arith) (omega (arith, s.positive)) in
      rw e (ground (arith, s.positive, a, s.end, s.rest)),
)

-- At most one of exists_as_file, exists_as_empty_dir, exists_as_nonempty_dir and
-- invalid_because_not_dirs succeeds, whatever the two strings and the index.
pub tests_exclusive :
    (p q : Bytes) (i : ℕ)
    → (exists_as_file p q i ≡ true
        → (exists_as_empty_dir p q i ≡ false)
          × (exists_as_nonempty_dir p q i ≡ false)
          × (invalid_because_not_dirs p q i ≡ false))
      × (exists_as_empty_dir p q i ≡ true
          → (exists_as_nonempty_dir p q i ≡ false) × (invalid_because_not_dirs p q i ≡ false))
      × (exists_as_nonempty_dir p q i ≡ true → invalid_because_not_dirs p q i ≡ false)
unfolding exists_as_file exists_as_empty_dir exists_as_nonempty_dir invalid_because_not_dirs
tests_exclusive p q i = (
  λ h. (ground arith, ground arith, ground arith),
  λ h. (ground arith, ground arith),
  λ h. ground arith,
)
