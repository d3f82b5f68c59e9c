-- ===== src/Driver/Checks.antt =====
-- src/driver.c: the helpers and the checks that its functions begin with.
-- The constants of <fcntl.h> are those of newlib.
use Prim.Native.Nat.{bit_and}
use xipfs.Base.{
  ℕ, zero, suc, ◌+◌, ◌-◌, ◌/◌, Bool, true, not, ◌&&◌, ◌||◌, Option, none, some, List, [], ◌∷◌,
  Bytes, strnlen, strncmp_eq, of_list, u32, u32_mod, int_max, ltb, leb, ◌==◌, if◌then◌else◌,
}
use xipfs.Posix.{Posix}
use xipfs.State.{World, Mount, Outcome, done, fail, M, Internal, throw, ◌>>◌}
use xipfs.Flash.{Nvm, nvm_page_size, nvm_numof, flash_in}
use xipfs.Buffer.{buffer_flush}
use xipfs.Desc.{mount_end, desc_update}
use xipfs.File.{path_max, file_reserved}
use xipfs.Fs.{fs_remove}
use xipfs.Path.{XipfsPath, path_new}

abbrev pub o_wronly : ℕ
o_wronly = 1

abbrev pub o_rdwr : ℕ
o_rdwr = 2

abbrev pub o_append : ℕ
o_append = 8

abbrev pub o_creat : ℕ
o_creat = 512

abbrev pub o_excl : ℕ
o_excl = 2048

abbrev pub o_accmode : ℕ
o_accmode = 3

-- `(flags & mask) == mask`
abbrev pub has : ℕ → ℕ → Bool
has flags mask = bit_and flags mask == mask

abbrev pub xipfs_magic : ℕ
xipfs_magic = 0xf9d3b6cb

-- `n`, then the lower indices, up to the first slash, or 0.
unfoldable pub back_to_slash : Bytes → ℕ → ℕ
back_to_slash path zero = 0
back_to_slash path (suc n) =
    let rest = back_to_slash path n in if path (suc n) == b'/' then suc n else rest

-- The last component of an absolute path of fewer than XIPFS_PATH_MAX characters.
unfoldable pub basename : Bytes → Bytes
unfolding back_to_slash strnlen
basename path =
    if path 1 == 0
    then of_list (b'/' ∷ [])
    else let last = strnlen path path_max - 1 in
      let end = if path last == b'/' then last - 1 else last in
      let start = back_to_slash path end + 1 in
      λ i. if leb (start + i) end then path (start + i) else 0

-- strcmp, where one of the two strings ends in an array of XIPFS_PATH_MAX characters.
abbrev pub strcmp_eq : Bytes → Bytes → Bool
strcmp_eq a b = strncmp_eq a b path_max

-- The number of pages that a file system may have by the range of `xipfs_file_position_t`.
abbrev pub max_pages_count : ℕ
max_pages_count = int_max / nvm_page_size

abbrev pub no_mount_path : Option Bytes → Bool
no_mount_path none = true
no_mount_path (some s) = s 0 == 0 || (s 0 == b'/' && s 1 == 0)

module _ (nvm : Nvm) where
  open nvm use {nvm_page}

  -- The error of xipfs_mp_check, if any, for a mount point that is not null.
  unfoldable pub mp_error : Mount → Option Posix
  mp_error mp =
      if not (mp.magic == xipfs_magic)
      then some Posix.einval
      else if no_mount_path mp.mount_path
      then some Posix.einval
      else if not (flash_in mp.page_addr)
      then some Posix.einval
      else if mp.page_num == 0
      then some Posix.einval
      else if max_pages_count == 0
      then some Posix.einval
      else if ltb max_pages_count nvm_numof
      then some Posix.einval
      else if ltb nvm_numof mp.page_num
      then some Posix.einval
      else if ltb int_max mp.page_num
      then some Posix.einval
      else if ltb int_max (nvm_page mp.page_addr)
      then some Posix.einval
      else if ltb (u32 (nvm_numof + u32_mod - nvm_page mp.page_addr)) mp.page_num
      then some Posix.einval
      else if mp.mutex == 0
      then some Posix.einval
      else if mp.execution_mutex == 0
      then some Posix.einval
      else none

  -- Every function of the interface begins with xipfs_mp_check of its mount point.
  unfoldable pub with_mount : {A : Type 0} → Option Mount → (Mount → M Posix A) → M Posix A
  with_mount none k = throw Posix.efault
  with_mount (some mp) k = elim (mp_error mp) [ some e ↦ throw e | none ↦ k mp ]

-- The error of xipfs_file_desc_check for the descriptor at `descp`, if any.
unfoldable pub file_desc_error : Mount → ℕ → World → Option Posix
file_desc_error mp descp w =
    if descp == 0
    then some Posix.efault
    else let d = w.file_descs descp in
      if d.filp == 0
      then some Posix.einval
      else if not (leb mp.page_addr d.filp && ltb d.filp (mount_end mp))
      then some Posix.einval
      else if ltb int_max d.pos
      then some Posix.einval
      else if not (
          has d.flags o_creat
          || has d.flags o_excl
          || has d.flags o_wronly
          || has d.flags 0
          || has d.flags o_rdwr
          || has d.flags o_append)
      then some Posix.einval
      else none

-- `if ((ret = check) < 0) return ret;`
abbrev pub refuse : (World → Option Posix) → M Posix (Unit {0})
refuse check w = elim (check w) [ some e ↦ fail e w | none ↦ done tt w ]

abbrev pub first_path : Outcome Posix (List XipfsPath) → Outcome Posix XipfsPath
first_path (done [] w) = fail Posix.eio w
first_path (done (x ∷ xs) w) = done x w
first_path (fail e w) = fail e w

-- xipfs_path_new, whose failure the callers turn into -EIO.
unfoldable pub lookup_path : Mount → Bytes → M Posix XipfsPath
lookup_path mp path w = elim (path_new mp path w) [
  | done xs w' ↦ first_path (done xs w')
  | fail e w' ↦ fail Posix.eio w'
]

-- The pointers among the arguments.
abbrev pub not_null : {A B : Type 0} → Option A → (A → M Posix B) → M Posix B
not_null none k = throw Posix.efault
not_null (some a) k = k a

module _ (nvm : Nvm) (infos : ℕ) where
  -- The failures of xipfs_desc_update are not looked at.
  unfoldable pub sync_remove_file : Mount → ℕ → Internal (Unit {0})
  unfolding buffer_flush
  sync_remove_file mp filp = buffer_flush nvm >> λ w.
      let reserved = file_reserved w.mem filp in
      (fs_remove nvm filp >> λ w'. elim (desc_update infos mp filp reserved w') [
        | done _ w'' ↦ done tt w''
        | fail _ w'' ↦ done tt w''
      ])
        w
