-- ===== src/Driver/Dirs/Component.antt =====
-- src/driver.c: what one file of the list gives for an open directory.
use native.Mathlib.Decide.{ℕ_discrete}
use xipfs.Base.{
  ℕ, zero, suc, ◌+◌, ◌-◌, ◌≤◌, ◌<◌, ◌≡◌, ◌≢◌, ◌⊎◌, inl, inr, refl, ◌∙◌, ap, sym, subst, arith, true,
  false, Option, none, some, Bytes, update, if◌then◌else◌, ◌==◌,
}
use xipfs.File.{path_max}
use xipfs.Driver.Dirs.{match_loop, entry_loop, Entry, no_entry, too_long, an_entry, entry_of}

-- The string ends inside of an array of XIPFS_PATH_MAX characters.
pub record IsShort (c : Bytes) : Type 0 where
  pub end : ℕ
  pub bound : end < path_max
  pub nul : c end ≡ 0

-- The name of a directory, of `n` characters.
pub record IsName (c : Bytes) (n : ℕ) : Type 0 where
  pub bound : n < path_max
  pub nul : c n ≡ 0
  pub chars : (i : ℕ) → i < n → c i ≢ 0

-- `o` is the component of `path` from `from` on, with the slash behind it if there is one.
pub record IsComponent (path : Bytes) (from : ℕ) (o : Bytes) : Type 0 where
  pub end : ℕ
  pub start : from ≤ end
  pub chars :
      (j : ℕ) → from ≤ j → j < end → (path j ≢ 0) × (path j ≢ b'/') × (o (j - from) ≡ path j)
  pub last :
      ((path end ≡ 0) × (o (end - from) ≡ 0))
      ⊎ ((path end ≡ b'/') × (o (end - from) ≡ b'/') × (o (end - from + 1) ≡ 0))

-- Where a component starts behind a name of `n` characters: a slash is skipped.
abbrev pub behind : Bytes → ℕ → ℕ
behind path n = if path n == b'/' then n + 1 else n

-- The path starts with the name, or it does not.
pub data IsEntry (path name : Bytes) (n : ℕ) : Entry → Type 0 where
  outside : (i : ℕ) → i < n → path i ≢ name i → IsEntry path name n no_entry
  inside :
      (o : Bytes)
      → ((i : ℕ) → i < n → path i ≡ name i)
      → IsComponent path (behind path n) o
      → IsEntry path name n (an_entry o)

-- The first index at which the two differ, or at which the name ends.
record Matches (path name : Bytes) (i n i' : ℕ) : Type 0 where
  from : i ≤ i'
  to : i' ≤ n
  same : (j : ℕ) → i ≤ j → j < i' → path j ≡ name j
  stop : (i' ≡ n) ⊎ (path i' ≢ name i')

Matches-cons :
    (path name : Bytes) (i n i' : ℕ)
    → path i ≡ name i
    → Matches path name (i + 1) n i'
    → Matches path name i n i'
Matches-cons path name i n i' e h = record {
  from = omega (arith, h.from);
  to = h.to;
  same = λ j lo hi. elim (ℕ_discrete j i) [
    | yes at ↦ ap path at ∙ e ∙ sym (ap name at)
    | no ne ↦ h.same j (omega arith) hi
  ];
  stop = h.stop;
}

match_loop-Matches :
    (k i n : ℕ) (path name : Bytes)
    → IsName name n
    → i ≤ n
    → n < i + k
    → Matches path name i n (match_loop k path name i)
unfolding match_loop
match_loop-Matches zero i n path name d le lt = absurd (omega arith)
match_loop-Matches (suc k) i n path name d le lt = elim (ℕ_discrete (path i) (name i)) [
  | yes e ↦ elim (ℕ_discrete i n) [
    | yes at ↦
        let same : (path i == name i) ≡ true = ground arith in
        let z = ap name at in
        let over : (name i == 0) ≡ true = ground (arith, z, d.nul) in
        rw (same, over)
          (record {
            from = omega arith;
            to = le;
            same = λ j lo hi. absurd (omega arith);
            stop = inl at;
          })
    | no ne ↦
        let same : (path i == name i) ≡ true = ground arith in
        let more = d.chars i (omega arith) in
        let not_over : (name i == 0) ≡ false = ground arith in
        let not_short : (path i == 0) ≡ false = ground arith in
        let rest = match_loop-Matches k (i + 1) n path name d (omega arith) (omega arith) in
        rw (same, not_over, not_short) (Matches-cons path name i n _ e rest)
  ]
  | no ne ↦
      let differ : (path i == name i) ≡ false = ground arith in
      rw differ (record {
        from = omega arith;
        to = le;
        same = λ j lo hi. absurd (omega arith);
        stop = inr ne;
      })
]

ended :
    (from j : ℕ) (path out o : Bytes)
    → from ≤ j
    → ((i : ℕ) → from ≤ i → i < j → (path i ≢ 0) × (path i ≢ b'/') × (out (i - from) ≡ path i))
    → ((i : ℕ) → i < j - from → o i ≡ out i)
    → ((path j ≡ 0) × (o (j - from) ≡ 0))
      ⊎ ((path j ≡ b'/') × (o (j - from) ≡ b'/') × (o (j - from + 1) ≡ 0))
    → IsComponent path from o
ended from j path out o le done kept last = record {
  end = j;
  start = le;
  chars = λ i lo hi. let (a, b, c) = done i lo hi in (a, b, kept (i - from) (omega arith) ∙ c);
  last = last;
}

longer :
    (from j : ℕ) (path out : Bytes)
    → from ≤ j
    → ((i : ℕ) → from ≤ i → i < j → (path i ≢ 0) × (path i ≢ b'/') × (out (i - from) ≡ path i))
    → path j ≢ 0
    → path j ≢ b'/'
    → (i : ℕ) → from ≤ i
    → i < j + 1
    → (path i ≢ 0) × (path i ≢ b'/') × (update out (j - from) (path j) (i - from) ≡ path i)
longer from j path out le done ne ns i lo hi = elim (ℕ_discrete i j) [
  | yes e ↦ let at = ap path e in (λ z. ne (sym at ∙ z), λ z. ns (sym at ∙ z), ground (arith, at))
  | no other ↦
      let (a, b, c) = done i lo (omega arith) in
      let elsewhere : update out (j - from) (path j) (i - from) ≡ out (i - from) = ground arith in
      (a, b, elsewhere ∙ c)
]

-- The loop from index `j` on has written the characters before it.
entry_loop-IsComponent :
    (k from j : ℕ) (path out : Bytes)
    → from ≤ j
    → (s : IsShort path) → j ≤ s.end
    → path_max ≤ j + k
    → ((i : ℕ) → from ≤ i → i < j → (path i ≢ 0) × (path i ≢ b'/') × (out (i - from) ≡ path i))
    → (o : Bytes) × (entry_loop k path from j out ≡ some o) × IsComponent path from o
unfolding entry_loop
entry_loop-IsComponent zero from j path out le s short fuel done = absurd (omega (arith, s.bound))
entry_loop-IsComponent (suc k) from j path out le s short fuel done = elim (ℕ_discrete (path j) 0) [
  | yes z ↦
      let over : (path j == 0) ≡ true = ground arith in
      (
        update out (j - from) 0,
        rw over refl,
        ended from j path out (update out (j - from) 0) le done (λ i ne. ground arith)
            (inl (z, ground arith)),
      )
  | no ne ↦ elim (ℕ_discrete (path j) b'/') [
    | yes z ↦
        let more : (path j == 0) ≡ false = ground arith in
        let over : (path j == b'/') ≡ true = ground arith in
        (
          update (update out (j - from) b'/') (j - from + 1) 0,
          rw (more, over) refl,
          ended from j path out (update (update out (j - from) b'/') (j - from + 1) 0) le done
              (λ i ne. ground arith) (inr (z, ground arith, ground arith)),
        )
    | no ns ↦
        let more : (path j == 0) ≡ false = ground arith in
        let same : (path j == b'/') ≡ false = ground arith in
        let at_end : j ≢ s.end = λ e. ne (ap path e ∙ s.nul) in
        let (o, e, c) =
          entry_loop-IsComponent k from (j + 1) path (update out (j - from) (path j)) (omega arith)
            s (omega (arith, at_end, short)) (omega arith) (longer from j path out le done ne ns) in
        (o, rw (more, same) e, c)
  ]
]

-- The characters in which a path agrees with a name, and the next one unless it is the end, stand
-- before the end of the path.
behind_end :
    (path name : Bytes) (n : ℕ)
    → IsName name n
    → (s : IsShort path) → ((i : ℕ) → i < n → path i ≡ name i)
    → behind path n ≤ s.end
behind_end path name n d s same =
    let le : n ≤ s.end =
      ground (arith, λ (lt : s.end < n). d.chars s.end lt (sym (same s.end lt) ∙ s.nul)) in
    elim (ℕ_discrete n s.end) [
      | yes e ↦ let z = ap path e in ground (arith, z, s.nul)
      | no ne ↦ ground (arith, le)
    ]

abbrev entry_or_long : Option Bytes → Entry
entry_or_long o = elim o [ some c ↦ an_entry c | none ↦ too_long ]

-- What comes of the first difference.
abbrev answer : Bytes → Bytes → Bytes → ℕ → Entry
answer path name out i =
    if i == path_max
    then too_long
    else if name i == 0
    then entry_or_long
        (entry_loop (path_max - behind path i) path (behind path i) (behind path i) out)
    else no_entry

answer_inside :
    (path name out : Bytes) (n : ℕ)
    → IsName name n
    → IsShort path
    → ((i : ℕ) → i < n → path i ≡ name i)
    → IsEntry path name n (answer path name out n)
answer_inside path name out n d s same =
    let room : (n == path_max) ≡ false = ground (arith, d.bound) in
    let over : (name n == 0) ≡ true = ground (arith, d.nul) in
    let (o, e, c) =
      entry_loop-IsComponent (path_max - behind path n) (behind path n) (behind path n) path out
        (omega arith) s (behind_end path name n d s same) (omega arith)
        (λ i lo hi. absurd (omega (arith, lo, hi))) in
    rw (room, over, e) (inside o same c)

answer-IsEntry :
    (path name out : Bytes) (n i : ℕ)
    → IsName name n
    → IsShort path
    → Matches path name 0 n i
    → IsEntry path name n (answer path name out i)
answer-IsEntry path name out n i d s m = elim (ℕ_discrete i n) [
  | yes e ↦
      subst (λ x. IsEntry path name n (answer path name out x)) (sym e)
        (answer_inside path name out n d s (λ j lt. m.same j (omega arith) (omega arith)))
  | no ne ↦
      let room : (i == path_max) ≡ false = ground (arith, m.to, d.bound) in
      let lt : i < n = omega (arith, m.to) in
      let more = d.chars i lt in
      let other : (name i == 0) ≡ false = ground arith in
      let differ : path i ≢ name i = ground (arith, m.stop) in
      rw (room, other) (outside i lt differ)
]

-- xipfs_readdir on one file, for a path that ends in its array.
pub entry_of-IsEntry :
    (path name out : Bytes) (n : ℕ)
    → IsName name n
    → IsShort path
    → IsEntry path name n (entry_of path name out)
unfolding entry_of
entry_of-IsEntry path name out n d s =
    answer-IsEntry path name out n (match_loop path_max path name 0) d s
      (match_loop-Matches path_max 0 n path name d (omega arith) (omega (arith, d.bound)))
