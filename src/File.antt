-- ===== src/File.antt =====
-- src/file.c: the file structure in flash and the operations on one file (not its execution).
-- A file is the address of its structure. The header's fields are read from the flash itself, the
-- sizes and the contents through the buffer, as in the source. A signed 32-bit number is its bit
-- pattern, so it is negative above `int_max`.
pub mod Paths
pub mod Check
pub mod Same
pub mod Sizes
pub mod Stale
pub mod Contents
mod Tests
use xipfs.Base.{
  ℕ, zero, suc, ◌+◌, ◌-◌, ◌*◌, ◌/◌, ◌%◌, Bool, true, false, not, ◌&&◌, ◌||◌, Option, none, some,
  Bytes, read_32, u32, strnlen, int_max, ltb, leb, ◌==◌, if◌then◌else◌,
}
use xipfs.Errno.{
  Errno, enullp, eempty, einval, enulter, enullf, ealign, eoutnvm, elink, emaxoff, eperm,
  einvalidsize, envmc,
}
use xipfs.State.{World, Outcome, done, fail, Internal, pure, fail_if, ◌>>=◌, ◌>>◌}
use xipfs.Flash.{
  Nvm, nvm_page_size, flash_erase_state, flash_in, flash_page_aligned, flash_erase_page,
}
use xipfs.Buffer.{
  of_bool, buffer_read_8, buffer_read_32, buffer_write, buffer_write_8, buffer_write_32,
  buffer_flush,
}
use xipfs.Desc.{sizeof_file}

abbrev pub path_max : ℕ
path_max = 64

abbrev pub filesize_slot_max : ℕ
filesize_slot_max = 86

-- The fields of `xipfs_file_t` at the address `p`.
abbrev pub file_next : Bytes → ℕ → ℕ
file_next m p = read_32 m p

abbrev pub file_path : Bytes → ℕ → Bytes
file_path m p i = m (p + 4 + i)

abbrev pub file_reserved : Bytes → ℕ → ℕ
file_reserved m p = read_32 m (p + 68)

abbrev pub file_slot : ℕ → ℕ → ℕ
file_slot p i = p + 72 + 4 * i

abbrev pub file_exec : Bytes → ℕ → ℕ
file_exec m p = read_32 m (p + 416)

abbrev pub file_buf : ℕ → ℕ → ℕ
file_buf p pos = p + sizeof_file + pos

-- `a < b` of `int32_t`
abbrev pub slt : ℕ → ℕ → Bool
slt a b = ltb (u32 (a + 2147483648)) (u32 (b + 2147483648))

unfoldable pub path_charset_check : ℕ → Bool
path_charset_check c =
    leb b'0' c && leb c b'9'
    || (leb b'A' c && leb c b'Z'
        || (leb b'a' c && leb c b'z' || (c == b'/' || (c == b'.' || (c == b'-' || c == b'_')))))

-- `k` rounds are left at index `i`; `none` is success. After the last round the test of `path[i]`
-- is made at the index behind the array.
unfoldable pub path_loop : ℕ → ℕ → Bytes → Option Errno
path_loop zero i path = if path i == 0 then none else some enulter
path_loop (suc k) i path =
    let rest = path_loop k (i + 1) path in
    if path i == 0 then none else if path_charset_check (path i) then rest else some einval

-- The error of xipfs_file_path_check, if any; `none` for a null path is the argument.
unfoldable pub path_error : Option Bytes → Option Errno
path_error none = some enullp
path_error (some path) = if path 0 == 0 then some eempty else path_loop path_max 0 path

-- The tests on the `next` field, where it does not point to the file itself.
unfoldable pub link_error : Bytes → ℕ → Option Errno
link_error m filp =
    let next = file_next m filp in
    if not (flash_page_aligned next)
    then some ealign
    else if not (flash_in next)
    then some eoutnvm
    else if leb next filp
    then some elink
    else if u32 (filp + file_reserved m filp) == next
    then (if ltb int_max sizeof_file || ltb (file_reserved m filp) sizeof_file
        then some einval
        else none)
    else some elink

-- The first error of two tests in a row.
abbrev pub or_else : Option Errno → Option Errno → Option Errno
or_else (some e) o = some e
or_else none o = o

-- The error of xipfs_file_filp_check, if any. xipfs_flash_page_aligned and xipfs_flash_in return 0
-- or 1, so the two tests that they are negative never succeed.
unfoldable pub filp_error : Bytes → ℕ → Option Errno
filp_error m filp =
    if filp == 0
    then some enullf
    else if ltb (of_bool (flash_page_aligned filp)) 0
    then some ealign
    else if ltb (of_bool (flash_in filp)) 0
    then some eoutnvm
    else if file_next m filp == 0
    then some enullf
    else or_else (if file_next m filp == filp then none else link_error m filp) (
        if ltb int_max (file_reserved m filp)
        then some einval
        else or_else (path_error (some (file_path m filp)))
            (if file_exec m filp == 0 || file_exec m filp == 1 then none else some eperm))

-- `return 0;`, or `xipfs_errno = e; return -1;`
abbrev pub check : Option Errno → Internal (Unit {0})
check none w = done tt w
check (some e) w = fail tt (record w { errno = e })

unfoldable pub file_path_check : Option Bytes → Internal (Unit {0})
file_path_check path = check (path_error path)

unfoldable pub file_filp_check : ℕ → Internal (Unit {0})
file_filp_check filp w = check (filp_error w.mem filp) w

-- A returned position: the callers take a negative one for an error.
abbrev pub position : ℕ → Internal ℕ
position n w = if ltb int_max n then fail tt w else done n w

unfoldable pub file_get_max_pos : ℕ → Internal ℕ
unfolding file_filp_check
file_get_max_pos filp = file_filp_check filp >> λ w.
    position (u32 (file_reserved w.mem filp + 4294967296 - sizeof_file)) w

unfoldable pub file_get_reserved : ℕ → Internal ℕ
unfolding file_filp_check
file_get_reserved filp = file_filp_check filp >> λ w. position (file_reserved w.mem filp) w

module _ (nvm : Nvm) where
  open nvm use {nvm_page}

  -- xipfs_flash_erase_page, which sets `xipfs_errno` where it fails.
  unfoldable pub erase_page : ℕ → Internal (Unit {0})
  erase_page page w =
      let r = flash_erase_page nvm page w.mem in
      if r.0
      then done tt (record w { mem = r.1 })
      else fail tt (record w { mem = r.1; errno = envmc })

  unfoldable pub erase_loop : ℕ → ℕ → Internal (Unit {0})
  erase_loop zero page = pure tt
  erase_loop (suc k) page = erase_page page >> erase_loop k (page + 1)

  unfoldable pub file_erase : ℕ → Internal (Unit {0})
  unfolding file_filp_check
  file_erase filp = file_filp_check filp >> λ w.
      erase_loop (file_reserved w.mem filp / nvm_page_size) (nvm_page filp) w

  -- The loop over the slots of the size; `last` is the last size read.
  unfoldable pub size_loop : ℕ → ℕ → ℕ → ℕ → Internal ℕ
  size_loop filp zero i last = position last
  size_loop filp (suc k) i last = buffer_read_32 nvm (file_slot filp i) >>= λ size.
      if size == flash_erase_state then position last else size_loop filp k (i + 1) size

  -- xipfs_file_get_size_
  unfoldable pub file_get_size_raw : ℕ → Internal ℕ
  unfolding size_loop
  file_get_size_raw filp = buffer_read_32 nvm (file_slot filp 0) >>= λ size.
      if size == flash_erase_state then pure 0 else size_loop filp (filesize_slot_max - 1) 1 size

  unfoldable pub file_get_size : ℕ → Internal ℕ
  unfolding file_filp_check
  file_get_size filp = file_filp_check filp >> file_get_size_raw filp

  -- The first free slot.
  unfoldable pub slot_loop : ℕ → ℕ → ℕ → Internal (Option ℕ)
  slot_loop filp zero i = pure none
  slot_loop filp (suc k) i = buffer_read_32 nvm (file_slot filp i) >>= λ value.
      if value == flash_erase_state then pure (some i) else slot_loop filp k (i + 1)

  -- The slots from `i` on are set to the erase state.
  unfoldable pub clear_loop : ℕ → ℕ → ℕ → Internal (Unit {0})
  clear_loop filp zero i = pure tt
  clear_loop filp (suc k) i =
      buffer_write_32 nvm (file_slot filp i) flash_erase_state >> clear_loop filp k (i + 1)

  -- From the label `write_size` on.
  unfoldable pub write_size : ℕ → ℕ → ℕ → Internal (Unit {0})
  write_size filp i size = buffer_write_32 nvm (file_slot filp i) size >> buffer_flush nvm

  unfoldable pub file_set_size : ℕ → ℕ → Internal (Unit {0})
  unfolding file_filp_check slot_loop clear_loop write_size
  file_set_size filp size = do
    file_filp_check filp
    λ w. fail_if (slt (file_reserved w.mem filp) size) eoutnvm w
    fail_if (ltb int_max size) einvalidsize
    slot ← slot_loop filp filesize_slot_max 0
    elim slot [
      | some i ↦ write_size filp i size
      | none ↦ clear_loop filp (filesize_slot_max - 1) 1 >> write_size filp 0 size
    ]

  -- The path has passed the check, so strlen stops at `path_max` at the latest.
  unfoldable pub file_rename : ℕ → Bytes → Internal (Unit {0})
  unfolding file_filp_check file_path_check
  file_rename filp to_path = do
    file_filp_check filp
    file_path_check (some to_path)
    buffer_write nvm (filp + 4) to_path (strnlen to_path (path_max + 1) + 1)
    buffer_flush nvm

  -- The position is refused if it is negative or beyond the last one.
  abbrev pub position_check : ℕ → ℕ → Internal (Unit {0})
  position_check pos pos_max = fail_if (ltb int_max pos || slt pos_max pos) emaxoff

  unfoldable pub file_read_8 : ℕ → ℕ → Internal ℕ
  unfolding file_filp_check file_get_max_pos
  file_read_8 filp pos = do
    file_filp_check filp
    pos_max ← file_get_max_pos filp
    position_check pos pos_max
    buffer_read_8 nvm (file_buf filp pos)

  unfoldable pub file_write_8 : ℕ → ℕ → ℕ → Internal (Unit {0})
  unfolding file_filp_check file_get_max_pos
  file_write_8 filp pos byte = do
    file_filp_check filp
    pos_max ← file_get_max_pos filp
    position_check pos pos_max
    buffer_write_8 nvm (file_buf filp pos) byte
