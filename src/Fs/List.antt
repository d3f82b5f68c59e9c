-- ===== src/Fs/List.antt =====
-- src/fs.c: the walk along the files of a mount point, and the free pages.
use xipfs.Base.{
  ℕ, zero, suc, ◌+◌, ◌-◌, ◌/◌, ℤ, pos, negsuc, int_max, Bool, true, false, Option, none, some, u32,
  u32_mod, ltb, ◌==◌, if◌then◌else◌,
}
use xipfs.Errno.{Errno, xipfs_ok, efull}
use xipfs.State.{World, Mount, done, fail, Internal, ◌>>=◌}
use xipfs.Flash.{nvm_page_size, flash_erase_state}
use xipfs.File.{file_next, file_reserved, filp_error}

-- A function that returns a file or the null pointer, and may set `xipfs_errno`.
abbrev pub Lookup : Type 0
Lookup = World → Option ℕ × World

-- A file that is used only if it passes the check.
abbrev pub checked : ℕ → Lookup
checked p w = elim (filp_error w.mem p) [
  | none ↦ (some p, w)
  | some e ↦ (none, record w { errno = e })
]

unfoldable pub fs_head : Mount → Lookup
fs_head mp w =
    if file_next w.mem mp.page_addr == flash_erase_state then (none, w) else checked mp.page_addr w

-- The part of xipfs_fs_next behind the check of the file itself.
abbrev pub next_of : ℕ → Lookup
next_of filp w =
    let next = file_next w.mem filp in
    if next == filp
    then (none, w)
    else if file_next w.mem next == flash_erase_state
    then (none, w)
    else checked next w

unfoldable pub fs_next : ℕ → Lookup
fs_next filp w = elim (filp_error w.mem filp) [
  | none ↦ next_of filp w
  | some e ↦ (none, record w { errno = e })
]

-- `none` if the fuel runs out.
unfoldable pub tail_loop : ℕ → ℕ → World → Option (ℕ × World)
tail_loop zero filp w = none
tail_loop (suc k) filp w =
    let (next, w') = fs_next filp (record w { errno = xipfs_ok }) in
    elim next [ some p ↦ tail_loop k p w' | none ↦ some (filp, w') ]

-- A link leads to a later page of the flash, so a walk visits `nvm_numof + 1` files at most.
abbrev pub walk_fuel : ℕ
walk_fuel = 129

abbrev pub is_ok : Errno → Bool
is_ok xipfs_ok = true
is_ok _ = false

-- What xipfs_fs_tail makes of the end of the walk.
abbrev pub tail_result : World → Option (ℕ × World) → Option ℕ × World
tail_result w none = (none, w)
tail_result w (some (t, w')) = (if is_ok w'.errno then some t else none, w')

unfoldable pub fs_tail : Mount → Lookup
fs_tail mp w =
    let (head, w') = fs_head mp w in
    elim head [ none ↦ (none, w') | some p ↦ tail_result w' (tail_loop walk_fuel p w') ]

unfoldable pub fs_tail_next : Mount → Lookup
fs_tail_next mp w =
    let (tail, w') = fs_tail mp (record w { errno = xipfs_ok }) in
    elim tail [
      | none ↦ if is_ok w'.errno then (some (mp.page_addr), w') else (none, w')
      | some t ↦
          if file_next w'.mem t == t
          then (none, record w' { errno = efull })
          else (some (file_next w'.mem t), w')
    ]

unfoldable pub fs_get_page_number : Mount → ℕ
fs_get_page_number mp = mp.page_num

-- A null pointer ends the call with -1.
abbrev pub found : Lookup → Internal ℕ
found l w = let (o, w') = l w in elim o [ none ↦ fail tt w' | some p ↦ done p w' ]

-- `-n`
abbrev neg : ℕ → ℤ
neg n = if n == 0 then pos 0 else negsuc (n - 1)

-- `(int)v / XIPFS_NVM_PAGE_SIZE`, which rounds towards zero.
unfoldable pub int_pages : ℕ → ℤ
int_pages v = if ltb int_max v then neg ((u32_mod - v) / nvm_page_size) else pos (v / nvm_page_size)

-- A result of type `int` that the callers take for a failure if it is negative.
unfoldable pub count_result : ℕ → Internal ℕ
count_result n w = if ltb int_max n then fail tt w else done n w

-- `mp->page_num - used`, in `size_t`.
unfoldable pub pages_less : ℕ → ℤ → ℕ
pages_less page_num (pos n) = u32 (page_num + u32_mod - n)
pages_less page_num (negsuc k) = u32 (page_num + k + 1)

-- The pages from the head to the end of the tail are counted in `int`; where the sum overflows, it
-- is taken to wrap round.
unfoldable pub free_count : Mount → ℕ → ℕ → Internal ℕ
unfolding int_pages pages_less count_result
free_count mp head tail w =
    let used = int_pages (u32 (tail + file_reserved w.mem tail + u32_mod - head)) in
    count_result (pages_less mp.page_num used) w

unfoldable pub fs_free_pages : Mount → Internal ℕ
unfolding free_count count_result
fs_free_pages mp w =
    let (head, w') = fs_head mp (record w { errno = xipfs_ok }) in
    elim head [
      | none ↦ if is_ok w'.errno then count_result mp.page_num w' else fail tt w'
      | some h ↦ (found (fs_tail mp) >>= λ t. free_count mp h t) w'
    ]
