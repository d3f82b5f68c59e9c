-- ===== src/File/Paths.antt =====
-- xipfs_file_path_check accepts exactly the paths over the character set that end in time.
use native.Mathlib.Decide.{ℕ_discrete}
use xipfs.Base.{ℕ, zero, suc, ◌+◌, ◌≤◌, ◌<◌, ◌≡◌, ◌≢◌, ◌↔◌, ap, arith, true, none, some, Bytes}
use xipfs.File.{path_max, path_charset_check, path_loop, path_error}

-- The string ends at `n`, and every character before it is in the set.
pub record Ends (c : Bytes) (i n : ℕ) : Type 0 where
  pub from : i ≤ n
  pub nul : c n ≡ 0
  pub charset : (j : ℕ) → i ≤ j → j < n → path_charset_check (c j) ≡ true

-- A path that passes: not empty, and ended by a null at index 64 at the latest, which is one behind
-- the array.
pub record IsPath (c : Bytes) : Type 0 where
  pub not_empty : c 0 ≢ 0
  pub len : ℕ
  pub bound : len ≤ path_max
  pub ends : Ends c 0 len

path_loop_sound :
    (k i : ℕ) (c : Bytes) → path_loop k i c ≡ none → (n : ℕ) × (n ≤ i + k) × Ends c i n
unfolding path_loop
path_loop_sound zero i c h = (
  i,
  omega arith,
  record { from = omega arith; nul = ground arith; charset = λ j le lt. absurd (omega arith) },
)
path_loop_sound (suc k) i c h = elim (ℕ_discrete (c i) 0) [
  | yes e ↦ (
    i,
    omega arith,
    record { from = omega arith; nul = e; charset = λ j le lt. absurd (omega arith) },
  )
  | no ne ↦
      let good : path_charset_check (c i) ≡ true = ground arith in
      let (n, le, r) = path_loop_sound k (i + 1) c (ground arith) in
      (
        n,
        omega arith,
        record {
          from = omega (arith, r.from);
          nul = r.nul;
          charset = λ j ge lt. elim (ℕ_discrete i j) [
            | yes e ↦ rw (← e) good
            | no n' ↦ r.charset j (omega arith) lt
          ];
        },
      )
]

path_loop_complete : (k i n : ℕ) (c : Bytes) → n ≤ i + k → Ends c i n → path_loop k i c ≡ none
unfolding path_loop
path_loop_complete zero i n c le r =
    let e : c n ≡ c i = ap c (omega (arith, r.from)) in ground (arith, e, r.nul)
path_loop_complete (suc k) i n c le r = elim (ℕ_discrete i n) [
  | yes e ↦ ground (arith, ap c e, r.nul)
  | no ne ↦
      let rest = path_loop_complete k (i + 1) n c (omega arith) (record {
        from = omega (arith, r.from);
        nul = r.nul;
        charset = λ j ge lt. r.charset j (omega arith) lt;
      }) in
      ground (arith, rest, r.charset i (omega arith) (omega (arith, r.from)))
]

-- xipfs_file_path_check succeeds exactly for the paths that are not empty, hold characters of the
-- set alone, and end at index 64 at the latest.
pub path_error_iff : (c : Bytes) → (path_error (some c) ≡ none) ↔ IsPath c
unfolding path_error
path_error_iff c = (
  λ h.
      let ne : c 0 ≢ 0 = ground arith in
      let (n, le, r) = path_loop_sound path_max 0 c (ground arith) in
      record { not_empty = ne; len = n; bound = le; ends = r },
  λ p. ground (arith, path_loop_complete path_max 0 p.len c p.bound p.ends, p.not_empty),
)
