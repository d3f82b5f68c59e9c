-- ===== src/Driver/Exec/Safe.antt =====
-- src/driver.c: what xipfs_execv_check has made sure of when a binary is started.
use native.Mathlib.Decide.{ℕ_discrete}
use xipfs.Base.{
  ℕ, zero, suc, ◌+◌, ◌-◌, ◌≤◌, ◌<◌, ◌≡◌, ◌≢◌, refl, ap, sym, subst, strncmp_eq, ◌∙◌, arith, Bool,
  false, not, ◌==◌, none, some, Bytes, read_32,
}
use xipfs.Errno.{Errno}
use xipfs.Posix.{Posix}
use xipfs.State.{World, Mount, done, M, refuse_if, bind_done, pure, Ensures, ◌>>◌, ◌>>=◌}
use xipfs.Flash.{Nvm}
use xipfs.Flash.Laws.{IsNvm}
use xipfs.Buffer.View.{view}
use xipfs.Desc.{mount_end}
use xipfs.Desc.Table.{IsTable}
use xipfs.File.{path_max, file_exec, file_buf}
use xipfs.File.Sizes.{HasSlots, size_of}
use xipfs.Path.{XipfsPath, path_exists_as_file}
use xipfs.Driver.Checks.{lookup_path, basename}
use xipfs.Driver.Files.{infos_name}
use xipfs.Driver.Files.Ready.{IsStored, IsReady, last_pos}
use xipfs.Driver.Names.{check_name, accept, unlink_error}
use xipfs.Driver.Volume.Check.{IsMount}
use xipfs.Driver.Exec.{syscall_max, crt0_magic, some_null, exec_error, last_word, execv_check}
use xipfs.Driver.Exec.Success.{
  Succeeds, after_test, after_accept, after_mount, bind-Succeeds, check_name_state,
}
use xipfs.Driver.Exec.LastWord.{IsLast, last_word_lem}

no_null : (k i : ℕ) (s : ℕ → ℕ) → some_null k s i ≡ false → (j : ℕ) → i ≤ j → j < i + k → s j ≢ 0
unfolding some_null
no_null zero i s h j le lt = absurd (omega arith)
no_null (suc k) i s h j le lt = elim (ℕ_discrete j i) [
  | yes e ↦ λ z. let at : s j ≡ s i = ap s e in absurd (ground (arith, h, at, z))
  | no ne ↦ no_null k (i + 1) s (ground (arith, h)) j (omega arith) (omega arith)
]

may_execute : (e : ℕ) → exec_error e ≡ none → e ≡ 1
may_execute e h = ground arith

module _ (filp n : ℕ) (w : World) (syscalls : ℕ → ℕ) where
  -- What holds of a file that may be started.
  pub record IsStartable : Type 0 where
    pub calls : (j : ℕ) → j < syscall_max → syscalls j ≢ 0
    pub right : file_exec w.mem filp ≡ 1
    pub word : read_32 (view w) (file_buf filp (size_of (view w) filp n - 4)) ≡ crt0_magic

module _ {nvm : Nvm} (laws : IsNvm nvm) (infos : ℕ) (m : Bytes) (filp : ℕ) (st : IsStored m filp)
    (descp : ℕ) (mp : Mount) (v : IsMount mp) (path : Bytes) (n : ℕ) (w : World)
    (syscalls : ℕ → ℕ) where
  module _ (enough : 4 ≤ size_of (view w) filp n) (fits : size_of (view w) filp n ≤ last_pos m filp)
      (h : HasSlots (view w) filp n) (real : filp ≢ infos)
      (in_mount : (mp.page_addr ≤ filp) × (filp < mount_end mp)) (some_file : filp ≢ 0)
      (table : IsTable w.open_desc) (ready : IsReady m filp st w)
      (other : strncmp_eq (basename path) infos_name path_max ≡ false) (x : XipfsPath)
      (lookup : (e : Errno)
        → (e' : Errno) × (lookup_path mp path (record w { errno = e })
            ≡ done x (record w { errno = e' })))
      (file : x.info ≡ path_exists_as_file) (at : x.witness ≡ filp) (bytes stack : Bytes)
      (no_argv : Bool) where
    abbrev Starts : XipfsPath → World → Type 0
    Starts y u = (y ≡ x) × IsStartable filp n w syscalls

    -- The last steps.
    abbrev compared : XipfsPath → ℕ → M Posix XipfsPath
    compared y word = refuse_if (not (word == crt0_magic)) Posix.ebadf >> pure y

    abbrev looked_up : XipfsPath → M Posix XipfsPath
    looked_up y = do
      accept (unlink_error y.info)
      λ u. accept (exec_error (file_exec u.mem y.witness)) u
      word ← last_word nvm infos bytes stack mp descp path
      compared y word

    abbrev named : M Posix XipfsPath
    named = do
      refuse_if no_argv Posix.efault
      refuse_if (some_null syscall_max syscalls 0) Posix.efault
      y ← lookup_path mp path
      looked_up y

    looked_up_lem :
        (e : Errno)
        → some_null syscall_max syscalls 0 ≡ false
        → Succeeds Starts (looked_up x (record w { errno = e }))
    looked_up_lem e calls =
        after_accept Starts (unlink_error x.info) _ (record w { errno = e })
          (λ _.
            after_accept Starts (exec_error (file_exec w.mem x.witness)) _ (record w { errno = e })
              (λ right.
                let next = lookup e in
                bind-Succeeds
                  (IsLast laws infos m filp st descp mp v path n w enough fits h real in_mount
                    some_file)
                  Starts (last_word nvm infos bytes stack mp descp path (record w { errno = e }))
                  (compared x)
                  (last_word_lem laws infos m filp st descp mp v path n w enough fits h real
                    in_mount some_file bytes stack e table ready other x next.0 next.1 file at)
                  (λ word u last.
                    after_test Starts (not (word == crt0_magic)) Posix.ebadf (pure x) u (λ magic. (
                      refl,
                      record {
                        calls = λ j lt.
                            no_null syscall_max 0 syscalls calls j (omega arith)
                              (omega (arith, lt));
                        right =
                            ap (file_exec w.mem) (sym at)
                            ∙ may_execute (file_exec w.mem x.witness) right;
                        word = sym last ∙ ground (arith, magic);
                      },
                    )))))

    named_lem : Succeeds Starts (named w)
    named_lem = after_test Starts no_argv Posix.efault _ w (λ _.
        after_test Starts (some_null syscall_max syscalls 0) Posix.efault _ w (λ calls.
          let next = lookup w.errno in
          subst (Succeeds Starts)
            (sym
              (bind_done (lookup_path mp path w) x (record w { errno = next.0 }) looked_up next.1))
            (looked_up_lem next.0 calls)))

    -- On a file of the mount point of at least four bytes, which the lookup of the path finds
    -- whatever `xipfs_errno` is and without another change of the state, and whose name is not that of
    -- the virtual file, if the file passes the check, its fields have reached the flash, its slots in
    -- use come first, its size is at most its largest position, the buffer is coherent and the table
    -- of descriptors keeps its invariant: if xipfs_execv_check succeeds, none of the system calls is
    -- null, the file has the execution right 1, and the last four bytes of the file, as the buffer
    -- shows them at the call, are the magic number of a relocatable binary.
    pub execv_check_lem :
        Ensures
          (λ y u. Starts y u)
          (λ _ _. Unit {0})
          (execv_check nvm infos bytes stack descp (some mp) (some path) no_argv (some syscalls) w)
    unfolding execv_check
    execv_check_lem = after_mount Starts nvm mp _ w (λ _.
        bind-Succeeds (λ (_ : Unit {0}) u. u ≡ w) Starts (check_name Posix.eisdir path w)
          (λ _. named) (check_name_state Posix.eisdir path w)
          (λ _ u e. subst (λ z. Succeeds Starts (named z)) (sym e) named_lem))
