-- ===== src/Fs/Header.antt =====
-- The structure that xipfs_fs_new_file writes, and how the check reads it.
use native.Mathlib.Decide.{ℕ_discrete, dec_lt}
use xipfs.Base.{
  ℕ, zero, suc, ◌+◌, ◌-◌, ◌%◌, ◌≤◌, ◌<◌, ◌≡◌, ◌≢◌, ◌⊎◌, refl, ◌∙◌, ap, sym, arith, true, false,
  none, Bytes, u32_mod, if◌then◌else◌, ltb, strnlen, len_from, byte_of, read_32-byte_of, int_max,
}
use xipfs.Flash.{nvm_page_size, flash_end_addr}
use xipfs.Desc.{sizeof_file}
use xipfs.File.{
  path_charset_check, file_next, file_path, file_reserved, file_exec, path_max, filp_error,
}
use xipfs.File.Paths.{IsPath, Ends}
use xipfs.File.Check.{IsFile, filp_error_iff}
use xipfs.Fs.{new_header}

-- The memory holds a new structure at `p`.
abbrev pub HoldsHeader : Bytes → ℕ → Bytes → ℕ → ℕ → ℕ → Type 0
HoldsHeader m p path next reserved exec =
    (i : ℕ) → i < sizeof_file → m (p + i) ≡ new_header path next reserved exec i

charset-zero : (c : ℕ) → path_charset_check c ≡ true → c ≢ 0
unfolding path_charset_check
charset-zero c h e = ground arith

refuses : path_charset_check 255 ≢ true
unfolding path_charset_check
refuses h = cc

-- The length of a path that ends, or the bound.
len_from-Ends :
    (k i n : ℕ) (c : Bytes) → Ends c i n → len_from k c i ≡ (if ltb (n - i) k then n - i else k)
unfolding len_from
len_from-Ends zero i n c r = ground arith
len_from-Ends (suc k) i n c r = elim (ℕ_discrete i n) [
  | yes e ↦ let z = ap c e in ground (arith, z, r.nul)
  | no ne ↦
      let nz = charset-zero (c i) (r.charset i (omega arith) (omega (arith, r.from))) in
      let rest = len_from-Ends k (i + 1) n c (record {
        from = omega (arith, r.from);
        nul = r.nul;
        charset = λ j ge lt. r.charset j (omega arith) lt;
      }) in
      ground (arith, nz, rest, r.from)
]

strnlen-IsPath : (c : Bytes) (q : IsPath c) → strnlen c 63 ≡ (if ltb q.len 63 then q.len else 63)
unfolding strnlen
strnlen-IsPath c q =
    let e : q.len - 0 ≡ q.len = omega arith in
    len_from-Ends 63 0 q.len c q.ends ∙ ap (λ n. if ltb n 63 then n else 63) e

-- The bytes of the path.
new_header_path :
    (path : Bytes) (next reserved exec i : ℕ)
    → i < path_max
    → new_header path next reserved exec (4 + i)
      ≡ (if ltb i 63 then (if ltb i (strnlen path 63) then path i else 0) else 255)
unfolding new_header
new_header_path path next reserved exec i lt =
    let e : path (4 + i - 4) ≡ path i = ap path (omega arith) in
    let k : 4 + i - 4 ≡ i = omega arith in
    let a : ltb (4 + i) 4 ≡ false = ground arith in
    let b : ltb (4 + i) 68 ≡ true = ground arith in
    let c : ltb (4 + i) 67 ≡ ltb i 63 = ground arith in rw (a, b, c, k) refl

module _ (m : Bytes) (p : ℕ) (path : Bytes) (next reserved exec : ℕ)
    (h : HoldsHeader m p path next reserved exec) where
  header_at :
      (k i : ℕ) → k + i < sizeof_file → m (p + k + i) ≡ new_header path next reserved exec (k + i)
  header_at k i lt =
      let e : m (p + k + i) ≡ m (p + (k + i)) = ap m (omega arith) in e ∙ h (k + i) lt

  header_next : next < u32_mod → file_next m p ≡ next
  unfolding new_header
  header_next lt = read_32-byte_of m p next lt (λ i l. h i (omega arith) ∙ ground arith)

  header_reserved : reserved < u32_mod → file_reserved m p ≡ reserved
  unfolding new_header
  header_reserved lt = read_32-byte_of m (p + 68) reserved lt (λ i l.
      let e : byte_of reserved (68 + i - 68) ≡ byte_of reserved i =
        ap (byte_of reserved) (omega arith) in
      header_at 68 i (omega arith) ∙ ground (arith, e))

  header_exec : exec < u32_mod → file_exec m p ≡ exec
  unfolding new_header
  header_exec lt = read_32-byte_of m (p + 416) exec lt (λ i l.
      let e : byte_of exec (416 + i - 416) ≡ byte_of exec i = ap (byte_of exec) (omega arith) in
      header_at 416 i (omega arith) ∙ ground (arith, e))

  module _ (q : IsPath path) where
    -- The path has 63 characters at most, zeros behind them, and an erased byte at the end.
    pub header_path :
        (i : ℕ)
        → i < path_max
        → file_path m p i ≡ (if ltb i 63 then (if ltb i q.len then path i else 0) else 255)
    header_path i lt =
        let n = strnlen-IsPath path q in
        header_at 4 i (omega arith)
        ∙ new_header_path path next reserved exec i lt
        ∙ ground (arith, n, q.bound)

    header_IsPath : q.len < 63 → IsPath (file_path m p)
    header_IsPath short = record {
      not_empty =
          λ e. let a = header_path 0 (omega arith) in ground (arith, a, e, q.not_empty, q.ends.nul);
      len = q.len;
      bound = q.bound;
      ends = record {
        from = omega arith;
        nul = let a = header_path q.len (omega arith) in ground (arith, a);
        charset = λ j le lt.
            let e : file_path m p j ≡ path j = header_path j (omega arith) ∙ ground arith in
            ap path_charset_check e ∙ q.ends.charset j le lt;
      };
    }

    -- A new structure with a valid path passes the check of the files if its path has 62
    -- characters at most, its address is not null, its reserved size is no negative number, its
    -- execution right is 0 or 1, and its link leads to itself or to the page behind its reserved
    -- bytes, in the flash and behind the structure; the link, the reserved size and the right are
    -- read back as they were given.
    pub new_header-IsFile :
        q.len < 63
        → p ≢ 0
        → p < u32_mod
        → reserved ≤ int_max
        → (exec ≡ 0) ⊎ (exec ≡ 1)
        → (next ≡ p)
          ⊎ ((next ≡ p + reserved)
              × (next % nvm_page_size ≡ 0)
              × (next < flash_end_addr)
              × (sizeof_file ≤ reserved))
        → IsFile m p
          × (file_next m p ≡ next)
          × (file_reserved m p ≡ reserved)
          × (file_exec m p ≡ exec)
    unfolding flash_end_addr
    new_header-IsFile short ne lt small right link =
        let n = header_next (ground (arith, link)) in
        let r = header_reserved (omega arith) in
        let x = header_exec (ground (arith, right)) in
        (
          record {
            ne_null = ne;
            next_ne_null = ground (arith, n, link);
            linked = λ other. record {
              aligned = ground (arith, n, link);
              inside = ground (arith, n, link);
              forward = ground (arith, n, link);
              by_reserved = ground (arith, n, r, link);
              roomy = ground (arith, n, r, link);
            };
            reserved = omega (arith, r);
            path = header_IsPath short;
            exec = ground (arith, x, right);
          },
          n,
          r,
          x,
        )

    -- A new structure whose valid path has 63 characters or more never passes the check of the
    -- files.
    pub new_header-filp_error : 63 ≤ q.len → filp_error m p ≢ none
    new_header-filp_error long ok =
        let f = (filp_error_iff m p).0 ok in
        let r = f.path in
        let last : file_path m p 63 ≡ 255 = header_path 63 (omega arith) in
        elim (dec_lt 63 r.len) [
          | yes lt ↦
              let bad : path_charset_check 255 ≡ true =
                ap path_charset_check (sym last) ∙ r.ends.charset 63 (omega arith) lt in
              refuses bad
          | no ge ↦ elim (ℕ_discrete r.len 63) [
            | yes e ↦ let z = ap (file_path m p) e in ground (arith, z, last, r.ends.nul)
            | no ne ↦
                let e : file_path m p r.len ≡ path r.len =
                  header_path r.len (omega arith) ∙ ground arith in
                charset-zero (path r.len) (q.ends.charset r.len (omega arith) (omega arith))
                  (sym e ∙ r.ends.nul)
          ]
        ]
