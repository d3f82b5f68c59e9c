-- ===== src/Desc.antt =====
-- src/desc.c: the table of open descriptors.
-- A descriptor structure is named by its address, and `World` maps the addresses to the structures.
pub mod Table
pub mod Track
pub mod Update
pub mod UntrackAll
mod Tests
use xipfs.Base.{
  ℕ, zero, suc, ◌+◌, ◌-◌, ◌*◌, ◌%◌, Bool, true, false, not, ◌&&◌, Option, none, some, update, u32,
  u32_mod, int_max, ltb, leb, ◌==◌, if◌then◌else◌,
}
use xipfs.Posix.{Posix}
use xipfs.Posix
use xipfs.State.{
  DescType, desc_free, desc_file, desc_dir, DescEntry, FileDesc, DirDesc, World, Mount, Outcome,
  done, fail, M,
}
use xipfs.Flash.{nvm_page_size}

abbrev pub max_open_desc : ℕ
max_open_desc = 16

-- sizeof(xipfs_file_t): a pointer, 64 characters, and 88 words.
abbrev pub sizeof_file : ℕ
sizeof_file = 420

abbrev pub type_eq : DescType → DescType → Bool
type_eq desc_free desc_free = true
type_eq desc_file desc_file = true
type_eq desc_dir desc_dir = true
type_eq _ _ = false

abbrev pub free_entry : DescEntry
free_entry = record { type = desc_free; addr = 0 }

-- How a scan of the table ends: with an error, or with the entry found, if any.
pub data Search : Type 0 where
  error : Posix → Search
  entry : Option ℕ → Search

-- `if (found == 0) { entry = i; found = 1; }`
abbrev pub first_free : Option ℕ → ℕ → Option ℕ
first_free none i = some i
first_free (some e) i = some e

unfoldable pub track_loop : ℕ → ℕ → Option ℕ → ℕ → (ℕ → DescEntry) → Search
track_loop zero i found descp t = entry found
track_loop (suc k) i found descp t =
    let rest =
      track_loop k (i + 1) (if (t i).addr == 0 then first_free found i else found) descp t in
    if (t i).addr == descp then error Posix.eio else rest

unfoldable pub desc_track : ℕ → DescType → M Posix (Unit {0})
desc_track descp type w = elim (track_loop max_open_desc 0 none descp w.open_desc) [
  | error e ↦ fail e w
  | entry found ↦ elim found [
    | none ↦ fail Posix.enfile w
    | some e ↦
        done tt
          (record w { open_desc = update w.open_desc e (record { type = type; addr = descp }) })
  ]
]

unfoldable pub file_desc_track : ℕ → M Posix (Unit {0})
unfolding desc_track
file_desc_track descp w = if descp == 0 then fail Posix.efault w else desc_track descp desc_file w

unfoldable pub dir_desc_track : ℕ → M Posix (Unit {0})
unfolding desc_track
dir_desc_track descp w = if descp == 0 then fail Posix.efault w else desc_track descp desc_dir w

-- The scan that untracking and the test share: the entry of `descp`, unless it stands there twice
-- or has another type.
unfoldable pub find_loop : ℕ → ℕ → Option ℕ → ℕ → DescType → (ℕ → DescEntry) → Search
find_loop zero i found descp type t = entry found
find_loop (suc k) i found descp type t =
    let rest = find_loop k (i + 1) found descp type t in
    let hit = find_loop k (i + 1) (some i) descp type t in
    if (t i).addr == descp
    then elim found [
      | some e ↦ error Posix.eio
      | none ↦ if type_eq (t i).type type then hit else error Posix.eio
    ]
    else rest

unfoldable pub desc_untrack : ℕ → DescType → M Posix (Unit {0})
desc_untrack descp type w = elim (find_loop max_open_desc 0 none descp type w.open_desc) [
  | error e ↦ fail e w
  | entry found ↦ elim found [
    | none ↦ fail Posix.eio w
    | some e ↦ done tt (record w { open_desc = update w.open_desc e free_entry })
  ]
]

unfoldable pub file_desc_untrack : ℕ → M Posix (Unit {0})
unfolding desc_untrack
file_desc_untrack descp w =
    if descp == 0 then fail Posix.efault w else desc_untrack descp desc_file w

unfoldable pub dir_desc_untrack : ℕ → M Posix (Unit {0})
unfolding desc_untrack
dir_desc_untrack descp w = if descp == 0 then fail Posix.efault w else desc_untrack descp desc_dir w

unfoldable pub desc_tracked : ℕ → DescType → M Posix (Unit {0})
desc_tracked descp type w = elim (find_loop max_open_desc 0 none descp type w.open_desc) [
  | error e ↦ fail e w
  | entry found ↦ elim found [ none ↦ fail Posix.ebadf w | some e ↦ done tt w ]
]

unfoldable pub file_desc_tracked : ℕ → M Posix (Unit {0})
unfolding desc_tracked
file_desc_tracked descp = desc_tracked descp desc_file

unfoldable pub dir_desc_tracked : ℕ → M Posix (Unit {0})
unfolding desc_tracked
dir_desc_tracked descp = desc_tracked descp desc_dir

-- The end of the mount point's memory, in `uintptr_t`.
abbrev pub mount_end : Mount → ℕ
mount_end mp = u32 (mp.page_addr + u32 (mp.page_num * nvm_page_size))

-- `(xipfs_file_t *)(uintptr_t)descp->filp - reserved`: the cast binds tighter than the minus, so
-- the subtraction is one of pointers, in units of the structure.
abbrev pub move_file : ℕ → ℕ → ℕ
move_file filp reserved = u32 (filp + u32_mod - u32 (sizeof_file * reserved))

-- `descp->filp = filp`
abbrev pub set_file : DescEntry → ℕ → World → World
set_file e filp w = elim (e.type) [
  | desc_file ↦ record w {
    file_descs = update w.file_descs (e.addr) (record (w.file_descs (e.addr)) { filp = filp });
  }
  | desc_dir ↦ record w {
    dir_descs = update w.dir_descs (e.addr) (record (w.dir_descs (e.addr)) { filp = filp });
  }
  | desc_free ↦ w
]

-- The virtual file's address, `xipfs_infos_file`, is chosen by the linker.
module _ (infos : ℕ) (mp : Mount) where
  abbrev pub in_mount : ℕ → Bool
  in_mount filp = not (filp == infos) && (leb mp.page_addr filp && ltb filp (mount_end mp))

  -- The address of the file that an entry's structure refers to.
  abbrev pub entry_file : World → DescEntry → ℕ
  entry_file w e = elim (e.type) [
    | desc_file ↦ (w.file_descs (e.addr)).filp
    | desc_dir ↦ (w.dir_descs (e.addr)).filp
    | desc_free ↦ infos
  ]

  unfoldable pub untrack_all_step : ℕ → World → World
  untrack_all_step i w =
      if in_mount (entry_file w (w.open_desc i))
      then record w { open_desc = update w.open_desc i free_entry }
      else w

  unfoldable pub untrack_all_loop : ℕ → ℕ → World → World
  untrack_all_loop zero i w = w
  untrack_all_loop (suc k) i w = untrack_all_loop k (i + 1) (untrack_all_step i w)

  -- The null test of `mp` has no counterpart: a `Mount` is a structure.
  unfoldable pub desc_untrack_all : M Posix (Unit {0})
  desc_untrack_all w = done tt (untrack_all_loop max_open_desc 0 w)

  unfoldable pub update_step : ℕ → ℕ → ℕ → World → World
  update_step removed reserved i w =
      let e = w.open_desc i in
      let filp = entry_file w e in
      if in_mount filp
      then (if ltb removed filp
          then set_file e (move_file filp reserved) w
          else if filp == removed
          then record w { open_desc = update w.open_desc i free_entry }
          else w)
      else w

  unfoldable pub update_loop : ℕ → ℕ → ℕ → ℕ → World → World
  update_loop removed reserved zero i w = w
  update_loop removed reserved (suc k) i w =
      update_loop removed reserved k (i + 1) (update_step removed reserved i w)

  unfoldable pub desc_update : ℕ → ℕ → M Posix (Unit {0})
  desc_update removed reserved w =
      if removed == 0
      then fail Posix.efault w
      else if ltb int_max reserved
      then fail Posix.efault w
      else done tt (update_loop removed reserved max_open_desc 0 w)
