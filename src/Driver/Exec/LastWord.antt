-- ===== src/Driver/Exec/LastWord.antt =====
-- src/driver.c: the word that xipfs_execv_check reads at the end of a file.
use Prim.Native.Nat.{bit_and}
use xipfs.Base.{
  ℕ, max, ◌+◌, ◌-◌, ◌≤◌, ◌<◌, ◌≡◌, ◌≢◌, refl, ap, sym, subst, ◌∙◌, arith, false, ◌||◌, inr, ℤ,
  negsuc, some, Bytes, strncmp_eq, read_32, read_32-ext, ◌==◌, int_max,
}
use xipfs.Errno.{Errno}
use xipfs.Posix.{Posix}
use xipfs.State.{World, Mount, FileDesc, Outcome, done, fail, M, pure, Ensures-mono, ◌>>◌, ◌>>=◌}
use xipfs.Flash.{Nvm}
use xipfs.Flash.Laws.{IsNvm}
use xipfs.Buffer.View.{view}
use xipfs.Desc.{file_desc_tracked, mount_end}
use xipfs.Desc.Table.{IsTable}
use xipfs.Desc.Track.{file_tracked_by_table}
use xipfs.File.{path_max, file_buf}
use xipfs.File.Sizes.{HasSlots, size_of}
use xipfs.Path.{XipfsPath, path_exists_as_file}
use xipfs.Driver.Checks.{o_accmode, o_rdwr, basename, lookup_path}
use xipfs.Driver.Files.{infos_name, open_, close, lseek, read}
use xipfs.Driver.Files.Access.{IsDesc}
use xipfs.Driver.Files.Ready.{IsStored, IsReady, last_pos}
use xipfs.Driver.Files.Seek.{Leads, from_start, forward, back, to_end, before_end, lseek_lem}
use xipfs.Driver.Files.Read.{read_lem}
use xipfs.Driver.Volume.Check.{IsMount}
use xipfs.Driver.Exec.{seek_end, close_quietly, or_close, last_word}
use xipfs.Driver.Exec.Open.{Opened, open_lem}
use xipfs.Driver.Exec.Success.{Succeeds, after_close, after_quiet, with_error, bind-Succeeds}

-- Four bytes before the end of a file that is at its first byte.
four_before :
    (most size p : ℕ) (off : ℤ) (whence x : ℕ)
    → Leads most size p off whence x
    → off ≡ negsuc 3
    → whence ≡ seek_end
    → x + 4 ≡ max p size
four_before most size p off whence x (from_start n lt) e f = absurd (omega (arith, f))
four_before most size p off whence x (forward n le) e f = absurd (omega (arith, f))
four_before most size p off whence x (back k y g) e f = absurd (omega (arith, f))
four_before most size p off whence x to_end e f = absurd (ground (arith, e))
four_before most size p off whence x (before_end k y g) e f =
    let k3 : k ≡ 3 = ground (arith, e) in omega (arith, g, k3)

module _ {nvm : Nvm} (laws : IsNvm nvm) (infos : ℕ) (m : Bytes) (filp : ℕ) (st : IsStored m filp)
    (descp : ℕ) (mp : Mount) (v : IsMount mp) (path : Bytes) (n : ℕ) (w : World) where
  abbrev IsOpened : World → Type 0
  IsOpened u = Opened laws infos m filp st descp mp path w u

  module _ (enough : 4 ≤ size_of (view w) filp n) (fits : size_of (view w) filp n ≤ last_pos m filp)
      (h : HasSlots (view w) filp n) (real : filp ≢ infos) where
    abbrev pub at_end : ℕ
    at_end = size_of (view w) filp n - 4

    -- The descriptor is four bytes before the end of the file.
    record AtEnd (u : World) : Type 0 where
      ready : IsReady m filp st u
      desc : u.file_descs descp ≡ record { filp = filp; pos = at_end; flags = 0 }
      tracked : file_desc_tracked descp u ≡ done tt u
      some_desc : descp ≢ 0
      contents : (a : ℕ) → filp + 416 ≤ a → view u a ≡ view w a
      slots :
          (k : ℕ) × HasSlots (view u) filp k × (size_of (view u) filp k ≡ size_of (view w) filp n)

    module _ (in_mount : (mp.page_addr ≤ filp) × (filp < mount_end mp)) (some_file : filp ≢ 0) where
      filp-IsDesc :
          (u : World) (p : ℕ)
          → descp ≢ 0
          → u.file_descs descp ≡ record { filp = filp; pos = p; flags = 0 }
          → p ≤ int_max
          → IsDesc mp descp u
      filp-IsDesc u p ne e le =
          let f : (u.file_descs descp).filp ≡ filp = ap (λ (x : FileDesc). x.filp) e in
          let q : (u.file_descs descp).pos ≡ p = ap (λ (x : FileDesc). x.pos) e in
          record {
            some_desc = ne;
            some_file = λ z. some_file (sym f ∙ z);
            in_mount = (omega (arith, f, in_mount), omega (arith, f, in_mount));
            pos = omega (arith, q, le);
          }

      seek_end_lem :
          (u : World)
          → IsOpened u
          → Succeeds (λ _ y. AtEnd y) (lseek nvm infos (some mp) descp (negsuc 3) seek_end u)
      seek_end_lem u o =
          let f : (u.file_descs descp).filp ≡ filp = ap (λ (x : FileDesc). x.filp) o.desc in
          let q : (u.file_descs descp).pos ≡ 0 = ap (λ (x : FileDesc). x.pos) o.desc in
          let size : size_of (view u) filp n ≡ size_of (view w) filp n =
            ap (λ g. size_of g filp n) o.same_view in
          Ensures-mono {P' = λ _ y. AtEnd y} {Q' = λ _ _. Unit {0}}
            (lseek nvm infos (some mp) descp (negsuc 3) seek_end u)
            (lseek_lem laws infos m filp st descp n (negsuc 3) seek_end u mp v
              (filp-IsDesc u 0 o.some_desc o.desc (omega arith)) o.tracked f o.ready real
              (subst (λ g. HasSlots g filp n) (sym o.same_view) h) (omega (arith, size, fits))
              (omega (arith, q)))
            (λ x y s.
              let e = four_before _ _ _ _ _ x s.target refl refl in
              let same : x ≡ at_end = omega (arith, e, q, size, enough) in
              record {
                ready = s.unsized (ground (arith, q));
                desc =
                    s.desc.at
                    ∙ ap (λ (z : FileDesc). record z { pos = x }) o.desc
                    ∙ ap (λ (p : ℕ). record { filp = filp; pos = p; flags = 0 }) same;
                tracked = file_tracked_by_table descp u y s.desc.table o.tracked;
                some_desc = o.some_desc;
                contents = λ a le. s.contents a (inr le) ∙ ap (λ g. g a) o.same_view;
                slots = (s.slots.0, s.slots.1, s.slots.2 ∙ ground (arith, q, size));
              })
            (λ _ _ _. tt)

      -- The four bytes that are read are the last ones.
      read_end_lem :
          (bytes stack : Bytes) (u : World)
          → AtEnd u
          → Succeeds
              (λ r _. read_32 r.1 0 ≡ read_32 (view w) (file_buf filp at_end))
              (read nvm infos bytes (some mp) descp (some stack) 4 u)
      read_end_lem bytes stack u o =
          let f : (u.file_descs descp).filp ≡ filp = ap (λ (x : FileDesc). x.filp) o.desc in
          let q : (u.file_descs descp).pos ≡ at_end = ap (λ (x : FileDesc). x.pos) o.desc in
          let g : (u.file_descs descp).flags ≡ 0 = ap (λ (x : FileDesc). x.flags) o.desc in
          let k = o.slots.0 in
          let size = o.slots.2 in
          Ensures-mono
            {P' = λ (r : ℕ × Bytes) _. read_32 r.1 0 ≡ read_32 (view w) (file_buf filp at_end)}
            {Q' = λ _ _. Unit {0}} (read nvm infos bytes (some mp) descp (some stack) 4 u)
            (read_lem laws infos m filp st descp mp v u
              (filp-IsDesc u at_end o.some_desc o.desc (omega (arith, fits, st.file.reserved)))
              o.tracked f o.ready real
              (ap (λ (flags : ℕ). let acc = bit_and flags o_accmode in acc == 0 || acc == o_rdwr) g)
              4 (omega arith) k o.slots.1 (omega (arith, size, fits)) stack bytes)
            (λ r y (_, got).
              let into = got.1 in
              read_32-ext (view w) r.1 (file_buf filp at_end) 0 (λ i lt.
                let b = into.bytes i in
                let old = o.contents (file_buf filp at_end + i) (omega arith) in
                let here =
                  ap (view u) {x = file_buf filp ((u.file_descs descp).pos + (i - 0))}
                    {y = file_buf filp at_end + i} (omega (arith, q)) in
                ground (arith, b, old, here, size, q, lt, enough)))
            (λ _ _ _. tt)

      abbrev pub IsLast : ℕ → World → Type 0
      IsLast word y = word ≡ read_32 (view w) (file_buf filp at_end)

      -- The last two steps.
      abbrev closed : ℕ × Bytes → M Posix ℕ
      closed r = close_quietly nvm infos mp descp >> pure (read_32 r.1 0)

      abbrev reading : Bytes → Bytes → M Posix ℕ
      reading bytes stack =
          or_close nvm infos mp descp (read nvm infos bytes (some mp) descp (some stack) 4)
          >>= closed

      reading_lem :
          (bytes stack : Bytes) (y : World) → AtEnd y → Succeeds IsLast (reading bytes stack y)
      reading_lem bytes stack y a =
          bind-Succeeds (λ (r : ℕ × Bytes) z. IsLast (read_32 r.1 0) z) IsLast
            (or_close nvm infos mp descp (read nvm infos bytes (some mp) descp (some stack) 4) y)
            closed
            (after_close (λ (r : ℕ × Bytes) z. IsLast (read_32 r.1 0) z) nvm infos mp descp
              (read nvm infos bytes (some mp) descp (some stack) 4 y)
              (read_end_lem bytes stack y a))
            (λ r z g.
              after_quiet IsLast (close nvm infos (some mp) descp z) (pure (read_32 r.1 0))
                (λ _. g))

      abbrev seeking : Bytes → Bytes → M Posix ℕ
      seeking bytes stack =
          or_close nvm infos mp descp (lseek nvm infos (some mp) descp (negsuc 3) seek_end) >>= λ _.
          reading bytes stack

      seeking_lem :
          (bytes stack : Bytes) (u : World) → IsOpened u → Succeeds IsLast (seeking bytes stack u)
      seeking_lem bytes stack u o =
          bind-Succeeds (λ (_ : ℕ) y. AtEnd y) IsLast
            (or_close nvm infos mp descp (lseek nvm infos (some mp) descp (negsuc 3) seek_end) u)
            (λ _. reading bytes stack)
            (after_close (λ (_ : ℕ) y. AtEnd y) nvm infos mp descp
              (lseek nvm infos (some mp) descp (negsuc 3) seek_end u) (seek_end_lem u o))
            (λ _ y a. reading_lem bytes stack y a)

      -- The word that is read is the last one of the file.
      pub last_word_lem :
          (bytes stack : Bytes) (e : Errno)
          → IsTable w.open_desc
          → IsReady m filp st w
          → strncmp_eq (basename path) infos_name path_max ≡ false
          → (x : XipfsPath) (e' : Errno)
          → lookup_path mp path (record w { errno = e }) ≡ done x (record w { errno = e' })
          → x.info ≡ path_exists_as_file
          → x.witness ≡ filp
          → Succeeds IsLast (last_word nvm infos bytes stack mp descp path (record w { errno = e }))
      unfolding last_word
      last_word_lem bytes stack e table ready other x e' found file at =
          bind-Succeeds (λ (_ : Unit {0}) u. IsOpened u) IsLast
            (elim (open_ nvm infos (some mp) descp (some path) 0 (record w { errno = e }))
              as (λ _. Outcome Posix (Unit {0})) [
                | done _ u ↦ done tt u
                | fail _ u ↦ fail Posix.einval u
              ])
            (λ _. seeking bytes stack)
            (with_error (λ _ u. IsOpened u)
              (open_ nvm infos (some mp) descp (some path) 0 (record w { errno = e })) Posix.einval
              (open_lem laws infos m filp st descp mp path w e table ready other x e' found file
                at))
            (λ _ u o. seeking_lem bytes stack u o)
