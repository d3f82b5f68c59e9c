-- ===== src/File/Same.antt =====
-- The check of a file depends on its fields only, and not on the sizes.
use xipfs.Base.{
  ℕ, ◌+◌, ◌≤◌, ◌<◌, ◌≡◌, ◌⊎◌, inl, inr, refl, ◌∙◌, ap, sym, arith, Bytes, read_32, read_32-ext,
}
use xipfs.File.{file_next, file_path, path_charset_check}
use xipfs.File.Check.{IsFile}

-- The fields of the structure at `p`, the sizes left out, are the same in both memories.
abbrev pub SameFile : Bytes → Bytes → ℕ → Type 0
SameFile m m' p = (i : ℕ) → (i < 72) ⊎ ((416 ≤ i) × (i < 420)) → m' (p + i) ≡ m (p + i)

module _ (m m' : Bytes) (p : ℕ) (h : SameFile m m' p) where
  pub same_word : (k : ℕ) → (k + 4 ≤ 72) ⊎ (k ≡ 416) → read_32 m' (p + k) ≡ read_32 m (p + k)
  same_word k o = read_32-ext m m' (p + k) (p + k) (λ i lt.
      let e : p + k + i ≡ p + (k + i) = omega arith in
      ap m' e ∙ h (k + i) (ground (arith, o)) ∙ sym (ap m e))

  pub same_next : file_next m' p ≡ file_next m p
  same_next = read_32-ext m m' p p (λ i lt. h i (inl (omega arith)))

  same_path : (i : ℕ) → i ≤ 64 → file_path m' p i ≡ file_path m p i
  same_path i le =
      let e : p + 4 + i ≡ p + (4 + i) = omega arith in
      ap m' e ∙ h (4 + i) (inl (omega arith)) ∙ sym (ap m e)

  pub same-IsFile : IsFile m p → IsFile m' p
  same-IsFile f =
      let n = same_next in
      let r = same_word 68 (inl (omega arith)) in
      let x = same_word 416 (inr refl) in
      record {
        ne_null = f.ne_null;
        next_ne_null = ground (arith, n, f.next_ne_null);
        linked = λ ne.
            let l = f.linked (λ e. ne (n ∙ e)) in
            record {
              aligned = ground (arith, n, l);
              inside = ground (arith, n, l);
              forward = ground (arith, n, l);
              by_reserved = ground (arith, n, r, l);
              roomy = ground (arith, r, l);
            };
        reserved = omega (arith, r, f.reserved);
        path = record {
          not_empty = ground (arith, same_path 0 (omega arith), f.path.not_empty);
          len = f.path.len;
          bound = f.path.bound;
          ends = record {
            from = omega arith;
            nul = same_path f.path.len f.path.bound ∙ f.path.ends.nul;
            charset = λ j le lt.
                ap path_charset_check (same_path j (omega (arith, f.path.bound)))
                ∙ f.path.ends.charset j le lt;
          };
        };
        exec = ground (arith, x, f.exec);
      }
