-- ===== src/Fs.antt =====
-- src/fs.c: the files of a mount point, a list linked by addresses in the flash.
mod List
unfoldable pub use List.*
pub mod Chain
pub mod Tail
pub mod Header
pub mod NewFile
pub mod Placed
pub mod Append
pub mod Format
pub mod Catalogue
pub mod Sample
mod Tests
use xipfs.Base.{
  ℕ, zero, suc, ◌+◌, ◌-◌, ◌*◌, ◌/◌, ◌%◌, Bool, true, false, not, ◌&&◌, ◌||◌, Option, none, some, ℤ,
  pos, negsuc, Bytes, read_32, byte_of, u32, u32_mod, strnlen, strncmp_eq, int_max, ltb, leb, ◌==◌,
  if◌then◌else◌,
}
use xipfs.Errno.{Errno, Errno-discrete, xipfs_ok, efull, eperm, enospace, enulter, einvalidsize}
use xipfs.State.{
  World, Mount, Outcome, done, fail, Internal, pure, throw, fail_with, fail_if, set_errno, ◌>>=◌,
  ◌>>◌,
}
use xipfs.Flash.{
  Nvm, nvm_page_size, nvm_numof, nvm_erase_state, flash_erase_state, flash_write_unaligned,
  flash_is_erased_page,
}
use xipfs.Buffer.{buffer_write, buffer_flush}
use xipfs.Desc.{sizeof_file}
use xipfs.File.{
  path_max, file_next, file_path, file_reserved, filp_error, file_path_check, erase_page,
  file_erase, file_rename,
}

-- `ROUND(x, y)` at the page size: `(x + y - 1) & ~(y - 1)` of `size_t`.
unfoldable pub round_page : ℕ → ℕ
round_page x = let v = u32 (x + (nvm_page_size - 1)) in v - v % nvm_page_size

-- The `xipfs_file_t` that a new file starts with: erased bytes, then strncpy of 63 characters at
-- most, which fills up with zeros, then the fields.
unfoldable pub new_header : Bytes → ℕ → ℕ → ℕ → Bytes
new_header path next reserved exec i =
    if ltb i 4
    then byte_of next i
    else if ltb i (4 + (path_max - 1))
    then (if ltb (i - 4) (strnlen path (path_max - 1)) then path (i - 4) else 0)
    else if ltb i 68
    then nvm_erase_state
    else if ltb i 72
    then byte_of reserved (i - 68)
    else if ltb i 416
    then nvm_erase_state
    else byte_of exec (i - 416)

-- The size that a new file takes up.
unfoldable pub reserved_for : ℕ → ℕ
unfolding round_page
reserved_for size = if ltb 0 size then round_page (u32 (size + sizeof_file)) else nvm_page_size

-- `reserved_pages < free_pages` and `reserved_pages == free_pages`, in `int`.
abbrev pub less_pages : ℤ → ℕ → Bool
less_pages (pos n) free = ltb n free
less_pages (negsuc k) free = true

abbrev pub same_pages : ℤ → ℕ → Bool
same_pages (pos n) free = n == free
same_pages (negsuc k) free = false

module _ (nvm : Nvm) where
  open nvm use {nvm_page}

  -- The header is written through the buffer, and flushed.
  unfoldable pub put_header : ℕ → Bytes → Internal ℕ
  put_header filp header =
      buffer_write nvm filp header sizeof_file >> (buffer_flush nvm >> pure filp)

  -- `reserved_pages` is a quotient of `int`, and less than every number of free pages if negative.
  unfoldable pub place_file : Bytes → ℕ → ℕ → ℕ → ℕ → Internal ℕ
  unfolding put_header int_pages
  place_file path exec filp free_pages reserved =
      let reserved_pages = int_pages reserved in
      if less_pages reserved_pages free_pages
      then put_header filp (new_header path (u32 (filp + reserved)) reserved exec)
      else if same_pages reserved_pages free_pages
      then put_header filp (new_header path filp reserved exec)
      else fail_with enospace

  unfoldable pub fs_new_file : Mount → Bytes → ℕ → ℕ → Internal ℕ
  unfolding file_path_check fs_tail_next fs_free_pages place_file
  fs_new_file mp path size exec = do
    file_path_check (some path)
    fail_if (not (exec == 0 || exec == 1)) eperm
    filp ← found (fs_tail_next mp)
    free_pages ← fs_free_pages mp
    fail_if (ltb int_max size) einvalidsize
    place_file path exec filp free_pages (reserved_for size)

  -- xipfs_flash_write_unaligned, which sets no error number.
  unfoldable pub copy_to : ℕ → (Bytes → Bytes) → ℕ → Internal (Unit {0})
  copy_to dst src n w =
      let r = flash_write_unaligned nvm dst src n w.mem in
      if r.0 then done tt (record w { mem = r.1 }) else fail tt (record w { mem = r.1 })

  -- The bytes of the flash from `a` on, as they are when they are read.
  abbrev pub flash_at : ℕ → Bytes → Bytes
  flash_at a m i = m (a + i)

  -- The copy of a structure with a new `next`.
  abbrev pub relinked : Bytes → ℕ → Bytes
  relinked header next i = if ltb i 4 then byte_of next i else header i

  -- The pages of a file behind its first one; `k` pages are left.
  unfoldable pub move_pages : ℕ → ℕ → ℕ → Internal (Unit {0})
  move_pages zero dst src = pure tt
  move_pages (suc k) dst src =
      (λ w.
        if flash_is_erased_page nvm (nvm_page src) w.mem
        then done tt w
        else (copy_to dst (flash_at src) nvm_page_size >> erase_page nvm (nvm_page src)) w)
      >> move_pages k (dst + nvm_page_size) (src + nvm_page_size)

  -- One file moves from `src` to `dst`; the result is the end of its new place.
  unfoldable pub move_file_to : ℕ → ℕ → Internal ℕ
  unfolding move_pages copy_to
  move_file_to dst src w =
      let size = u32 (file_next w.mem src + u32_mod - src) in
      let header = relinked (λ i. w.mem (src + i)) (u32 (dst + size)) in
      (do
        copy_to dst (λ _. header) sizeof_file
        copy_to (dst + sizeof_file) (flash_at (src + sizeof_file)) (nvm_page_size - sizeof_file)
        erase_page nvm (nvm_page src)
        move_pages (size / nvm_page_size - 1) (dst + nvm_page_size) (src + nvm_page_size)
        pure (dst + nvm_page_size + (size / nvm_page_size - 1) * nvm_page_size))
        w

  -- The next file, or none; an error number that is set ends the call.
  unfoldable pub next_or_fail : ℕ → Internal (Option ℕ)
  next_or_fail filp w =
      let (next, w') = fs_next filp w in
      elim next [
        | some p ↦ done (some p) w'
        | none ↦ if is_ok w'.errno then done none w' else fail tt w'
      ]

  -- The loop that consolidates the file system. When the fuel is out, it stops with an error.
  unfoldable pub consolidate : ℕ → ℕ → Option ℕ → Internal (Unit {0})
  consolidate k dst none = pure tt
  consolidate zero dst (some src) = throw tt
  consolidate (suc k) dst (some src) = do
    next ← next_or_fail src
    dst' ← move_file_to dst src
    consolidate k dst' next

  unfoldable pub fs_remove : ℕ → Internal (Unit {0})
  unfolding next_or_fail consolidate move_file_to
  fs_remove dst = do
    set_errno xipfs_ok
    next ← next_or_fail dst
    file_erase nvm dst
    consolidate walk_fuel dst next

  -- `k` pages are left to erase.
  unfoldable pub format_loop : ℕ → ℕ → Internal (Unit {0})
  format_loop zero page = pure tt
  format_loop (suc k) page = erase_page nvm page >> format_loop k (page + 1)

  unfoldable pub fs_format : Mount → Internal (Unit {0})
  unfolding format_loop
  fs_format mp =
      let start_page = nvm_page (mp.page_addr) in
      let end_page = nvm_page (u32 (mp.page_addr + u32 (mp.page_num * nvm_page_size))) in
      format_loop (end_page - start_page) start_page

  -- `to` with the rest of the path behind `from_len`, cut off at 63 characters.
  unfoldable pub renamed : Bytes → ℕ → Bytes → ℕ → Bytes
  renamed to to_len path from_len i =
      if ltb i to_len
      then to i
      else if ltb i (path_max - 1)
      then (if ltb (i - to_len) (strnlen (λ j. path (from_len + j)) (path_max - to_len))
          then path (from_len + (i - to_len))
          else 0)
      else 0

  -- The walk of xipfs_fs_rename_all; the result is the number of files renamed.
  unfoldable pub rename_loop : Bytes → Bytes → ℕ → ℕ → ℕ → Internal ℕ
  rename_loop from to zero filp counter = throw tt
  rename_loop from to (suc k) filp counter = do
    let from_len = strnlen from path_max
    matched ← λ w. done (strncmp_eq (file_path w.mem filp) from from_len) w
    λ w.
        if matched
        then file_rename nvm filp (renamed to (strnlen to path_max) (file_path w.mem filp) from_len)
            w
        else done tt w
    (λ w.
        let (next, w') = fs_next filp w in
        let counter' = if matched then counter + 1 else counter in
        elim next [
          | some p ↦ rename_loop from to k p counter' w'
          | none ↦ if is_ok w'.errno then done counter' w' else fail tt w'
        ])

  unfoldable pub fs_rename_all : Mount → Bytes → Bytes → Internal ℕ
  unfolding rename_loop
  fs_rename_all mp from to = do
    fail_if (strnlen from path_max == path_max) enulter
    fail_if (strnlen to path_max == path_max) enulter
    set_errno xipfs_ok
    (λ w.
        let (head, w') = fs_head mp w in
        elim head [
          | some h ↦ rename_loop from to walk_fuel h 0 w'
          | none ↦ if is_ok w'.errno then done 0 w' else fail tt w'
        ])
