-- ===== src/Driver/Exec.antt =====
-- src/driver.c: xipfs_execv_check, which xipfs_execv and xipfs_safe_execv begin with.
pub mod Safe
pub mod LastWord
pub mod Open
pub mod Success
use xipfs.Base.{
  ℕ, zero, suc, ◌+◌, pos, negsuc, Bool, true, false, not, Option, none, some, Bytes, read_32, ◌==◌,
  if◌then◌else◌,
}
use xipfs.Posix
use xipfs.Posix.{Posix}
use xipfs.State.{World, Mount, done, fail, M, pure, throw, refuse_if, ◌>>=◌, ◌>>◌}
use xipfs.Flash.{Nvm}
use xipfs.File.{file_exec}
use xipfs.Path.{
  XipfsPath, PathInfo, path_exists_as_file, path_exists_as_empty_dir, path_exists_as_nonempty_dir,
  path_invalid_because_not_dirs, path_invalid_because_not_found, path_creatable, path_undefined,
}
use xipfs.Driver.Checks.{with_mount, lookup_path, not_null}
use xipfs.Driver.Files.{close, lseek, open_, read}
use xipfs.Driver.Names.{check_name, accept, unlink_error}

abbrev pub syscall_max : ℕ
syscall_max = 10

-- CRT0_MAGIC_NUMBER_AND_VERSION
abbrev pub crt0_magic : ℕ
crt0_magic = 0xfacade12

-- SEEK_END of newlib.
abbrev pub seek_end : ℕ
seek_end = 2

-- Whether one of the `k` pointers from index `i` on is null.
unfoldable pub some_null : ℕ → (ℕ → ℕ) → ℕ → Bool
some_null zero syscalls i = false
some_null (suc k) syscalls i =
    let rest = some_null k syscalls (i + 1) in if syscalls i == 0 then true else rest

-- The field `exec` of the file: 0 is refused, 1 is right, and everything else is invalid.
abbrev pub exec_error : ℕ → Option Posix
exec_error exec =
    if exec == 0 then some Posix.eacces else if exec == 1 then none else some Posix.einval

module _ (nvm : Nvm) (infos : ℕ) where
  -- `(void)xipfs_close(mp, &descp);`
  abbrev pub close_quietly : Mount → ℕ → M Posix (Unit {0})
  close_quietly mp descp w = elim (close nvm infos (some mp) descp w) [
    | done _ u ↦ done tt u
    | fail _ u ↦ done tt u
  ]

  -- `if (call < 0) { (void)xipfs_close(mp, &descp); return -EIO; }`
  abbrev pub or_close : {A : Type 0} → Mount → ℕ → M Posix A → M Posix A
  or_close mp descp m w = elim (m w) [
    | done a u ↦ done a u
    | fail _ u ↦ (close_quietly mp descp >> throw Posix.eio) u
  ]

  -- The last word of the file, through a descriptor of its own at the address `descp`. The word is
  -- `stack` before it is read, and `bytes` is the structure of the mount point.
  unfoldable pub last_word : Bytes → Bytes → Mount → ℕ → Bytes → M Posix ℕ
  last_word bytes stack mp descp path = do
    λ w. elim (open_ nvm infos (some mp) descp (some path) 0 w) [
      | done _ u ↦ done tt u
      | fail _ u ↦ fail Posix.einval u
    ]
    p ← or_close mp descp (lseek nvm infos (some mp) descp (negsuc 3) seek_end)
    (n, dest) ← or_close mp descp (read nvm infos bytes (some mp) descp (some stack) 4)
    close_quietly mp descp
    pure (read_32 dest 0)

  -- The argument `no_argv` says that `argv` or its first entry is null.
  unfoldable pub execv_check :
      Bytes → Bytes → ℕ → Option Mount → Option Bytes → Bool → Option (ℕ → ℕ) → M Posix XipfsPath
  unfolding last_word some_null
  execv_check bytes stack descp omp opath no_argv osyscalls = with_mount nvm omp λ mp.
      not_null opath λ path. do
        check_name Posix.eisdir path
        refuse_if no_argv Posix.efault
        not_null osyscalls λ syscalls. do
          refuse_if (some_null syscall_max syscalls 0) Posix.efault
          x ← lookup_path mp path
          accept (unlink_error x.info)
          λ w. accept (exec_error (file_exec w.mem x.witness)) w
          word ← last_word bytes stack mp descp path
          refuse_if (not (word == crt0_magic)) Posix.ebadf
          pure x
