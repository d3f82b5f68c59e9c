-- ===== src/File/Check.antt =====
-- xipfs_file_filp_check: what a file structure that passes looks like.
use xipfs.Base.{
  ℕ, zero, suc, ◌+◌, ◌%◌, ◌≤◌, ◌<◌, ◌≡◌, ◌≢◌, ◌↔◌, ◌⊎◌, refl, arith, Option, none, some, Bytes, u32,
  u32_mod, int_max, read_32,
}
use xipfs.Errno.{Errno, xipfs_ok}
use xipfs.Flash.{nvm_page_size, flash_in, flash_page_aligned, flash_end_addr}
use xipfs.Flash.Laws.{IsBytes}
use xipfs.Desc.{sizeof_file}
use xipfs.File.{
  file_next, file_path, file_reserved, file_exec, link_error, filp_error, file_filp_check,
  path_error, path_loop, or_else,
}
use xipfs.State.{World, done}
use xipfs.File.Paths.{IsPath, path_error_iff}

-- A link to another file: it goes forward by the reserved size, which holds the structure, to a
-- page in the flash.
pub record IsLinked (m : Bytes) (p : ℕ) : Type 0 where
  pub aligned : file_next m p % nvm_page_size ≡ 0
  pub inside : file_next m p < flash_end_addr
  pub forward : p < file_next m p
  pub by_reserved : u32 (p + file_reserved m p) ≡ file_next m p
  pub roomy : sizeof_file ≤ file_reserved m p

pub record IsFile (m : Bytes) (p : ℕ) : Type 0 where
  pub ne_null : p ≢ 0
  pub next_ne_null : file_next m p ≢ 0
  pub linked : file_next m p ≢ p → IsLinked m p
  pub reserved : file_reserved m p ≤ int_max
  pub path : IsPath (file_path m p)
  pub exec : (file_exec m p ≡ 0) ⊎ (file_exec m p ≡ 1)

link_error_iff : (m : Bytes) (p : ℕ) → (link_error m p ≡ none) ↔ IsLinked m p
unfolding link_error flash_page_aligned flash_in
link_error_iff m p = (
  λ h. record {
    aligned = ground arith;
    inside = ground arith;
    forward = ground arith;
    by_reserved = ground arith;
    roomy = ground arith;
  },
  λ l. ground arith,
)

or_else_iff : (a b : Option Errno) → (or_else a b ≡ none) ↔ ((a ≡ none) × (b ≡ none))
or_else_iff none b = (λ h. (refl, h), λ h. h.1)
or_else_iff (some e) b = (λ h. absurd (cc), λ h. absurd (cc))

-- xipfs_file_filp_check succeeds exactly for the structures that `IsFile` describes. Neither the
-- alignment of the file nor that it lies in the flash is among the conditions.
pub filp_error_iff : (m : Bytes) (p : ℕ) → (filp_error m p ≡ none) ↔ IsFile m p
unfolding filp_error
filp_error_iff m p = (
  λ h. record {
    ne_null = ground arith;
    next_ne_null = ground arith;
    linked = λ n. (link_error_iff m p).0 (ground arith);
    reserved = ground arith;
    path = (path_error_iff (file_path m p)).0 (ground arith);
    exec = ground arith;
  },
  λ f.
      let path = (path_error_iff (file_path m p)).1 f.path in
      let link : file_next m p ≢ p → link_error m p ≡ none =
        λ n. (link_error_iff m p).1 (f.linked n) in
      ground (arith, path, link),
)

-- The words of a memory of bytes are below 2^32.
pub read_32-lt : (m : Bytes) (a : ℕ) → IsBytes m → read_32 m a < u32_mod
unfolding read_32
read_32-lt m a b = omega (arith, b a, b (a + 1), b (a + 2), b (a + 3))

-- For a file that passes the check and links to another one, at an address of 32 bits, the link
-- does not wrap round: the next file starts exactly where the reserved bytes end, behind the
-- structure at least.
pub link_exact :
    (m : Bytes) (p : ℕ)
    → p < u32_mod
    → IsFile m p
    → file_next m p ≢ p
    → (file_next m p ≡ p + file_reserved m p) × (p + sizeof_file ≤ file_next m p)
link_exact m p lt f n = let l = f.linked n in omega (arith, l, f.reserved)

path_loop_error : (k i : ℕ) (c : Bytes) → path_loop k i c ≢ some xipfs_ok
unfolding path_loop
path_loop_error zero i c h = ground arith
path_loop_error (suc k) i c h = ground (arith, path_loop_error k (i + 1) c)

path_error_ne : (c : Bytes) → path_error (some c) ≢ some xipfs_ok
unfolding path_error
path_error_ne c h = ground (arith, path_loop_error 64 0 c)

link_error_ne : (m : Bytes) (p : ℕ) → link_error m p ≢ some xipfs_ok
unfolding link_error
link_error_ne m p h = ground arith

-- A structure that fails the check sets an error number.
pub filp_error_ne : (m : Bytes) (p : ℕ) → filp_error m p ≢ some xipfs_ok
unfolding filp_error
filp_error_ne m p h = ground (arith, link_error_ne m p, path_error_ne (file_path m p))

-- A file that passes the check.
pub file_filp_check-IsFile : (p : ℕ) (w : World) → IsFile w.mem p → file_filp_check p w ≡ done tt w
unfolding file_filp_check
file_filp_check-IsFile p w f = let e = (filp_error_iff w.mem p).1 f in rw e refl
