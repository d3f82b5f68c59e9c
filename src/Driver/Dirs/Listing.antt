-- ===== src/Driver/Dirs/Listing.antt =====
-- src/driver.c: what xipfs_readdir lists of an open directory.
use xipfs.Base.{
  ℕ, zero, suc, ◌+◌, ◌/◌, ◌<◌, ◌≡◌, ◌≢◌, refl, ◌∙◌, ap, sym, subst, arith, true, false, not, ◌&&◌,
  Option, none, some, List, [], ◌∷◌, length, Bytes, if◌then◌else◌, ◌==◌,
}
use xipfs.Errno.{xipfs_ok}
use xipfs.Posix.{Posix}
use xipfs.State.{World, Mount, Outcome, done, fail, Ensures, Ensures-mono, bind_done, refuse_if}
use xipfs.Flash.{Nvm, nvm_page_size, nvm_numof}
use xipfs.Desc.{dir_desc_tracked}
use xipfs.Desc.Track.{tracked_by_table}
use xipfs.File.{file_path}
use xipfs.Fs.{fs_next, is_ok, walk_fuel}
use xipfs.Fs.Chain.{IsChain, chain_head, chain_length, next_chain, next_chain_end, next_page}
use xipfs.Driver.Volume.Check.{IsMount, with_mount-none}
use xipfs.Flash.Laws.{IsNvm}
use xipfs.Driver.Dirs.{
  Entry, no_entry, too_long, an_entry, entry_of, address, dir_next, set_dir_filp, readdir_loop,
  readdir,
}
use xipfs.Driver.Dirs.Component.{
  IsShort, IsName, IsComponent, behind, IsEntry, outside, inside, entry_of-IsEntry,
}

-- The files that are left of a list; the paths of all of them end in their arrays.
abbrev pub Rest : Bytes → List ℕ → Type 0
Rest m [] = Unit {0}
Rest m (q ∷ l) = IsChain m q l × (q / nvm_page_size < nvm_numof)

abbrev pub AllShort : Bytes → List ℕ → Type 0
AllShort m [] = Unit {0}
AllShort m (q ∷ l) = IsShort (file_path m q) × AllShort m l

abbrev pub first_of : List ℕ → ℕ
first_of [] = 0
first_of (q ∷ l) = q

-- The next entry of a directory among the files that are left, and the files that are left then: a
-- file whose path starts with the name gives its component behind the name, the others are skipped.
pub data NextEntry (m name : Bytes) (n : ℕ) : List ℕ → Option Bytes → List ℕ → Type 0 where
  at_end : NextEntry m name n [] none []
  entry :
      {q : ℕ} {l : List ℕ} (o : Bytes)
      → ((i : ℕ) → i < n → file_path m q i ≡ name i)
      → IsComponent (file_path m q) (behind (file_path m q) n) o
      → NextEntry m name n (q ∷ l) (some o) l
  skip :
      {q : ℕ} {l l' : List ℕ} {e : Option Bytes} (i : ℕ)
      → i < n
      → file_path m q i ≢ name i
      → NextEntry m name n l e l'
      → NextEntry m name n (q ∷ l) e l'

rest_tail : (m : Bytes) (q : ℕ) (l : List ℕ) → Rest m (q ∷ l) → Rest m l
rest_tail m q [] r = tt
rest_tail m q (p ∷ l) ((f, e, ne, used, c), h) =
    let later = next_page m q f (λ x. ne (sym e ∙ x)) in (c, omega (arith, later, e))

-- The structure of the open directory.
record IsOpenAt (descp : ℕ) (name : Bytes) (l : List ℕ) (w : World) : Type 0 where
  filp : (w.dir_descs descp).filp ≡ first_of l
  dirname : (w.dir_descs descp).dirname ≡ name
  no_error : w.errno ≡ xipfs_ok

-- Nothing but the structure of the directory and the error number has changed.
pub record Stepped (descp : ℕ) (w u : World) : Type 0 where
  pub others : (x : ℕ) → x ≢ descp → u.dir_descs x ≡ w.dir_descs x
  pub mem : u.mem ≡ w.mem
  pub buffer : u.buffer ≡ w.buffer
  pub open_desc : u.open_desc ≡ w.open_desc
  pub file_descs : u.file_descs ≡ w.file_descs

-- What a call leaves: the next entry, and the structure behind it.
pub record Listed (descp : ℕ) (name : Bytes) (n : ℕ) (l : List ℕ) (w : World) (e : Option Bytes)
    (u : World) : Type 0 where
  pub left : List ℕ
  pub next : NextEntry w.mem name n l e left
  pub rest : Rest w.mem left
  pub short : AllShort w.mem left
  pub filp : (u.dir_descs descp).filp ≡ first_of left
  pub dirname : (u.dir_descs descp).dirname ≡ name
  pub stepped : Stepped descp w u

rest_length : (m : Bytes) (l : List ℕ) → Rest m l → length l < walk_fuel + 1
rest_length m [] r = omega arith
rest_length m (q ∷ l) r = let short = chain_length m q l r.0 r.1 in omega (arith, short)

abbrev head_of : List ℕ → Option ℕ
head_of [] = none
head_of (q ∷ l) = some q

next_of_rest : (w : World) (q : ℕ) (l : List ℕ) → Rest w.mem (q ∷ l) → fs_next q w ≡ (head_of l, w)
next_of_rest w q [] r = next_chain_end w q r.0
next_of_rest w q (p ∷ l) r = next_chain w q p l r.0

address_head : (l : List ℕ) → address (head_of l) ≡ first_of l
address_head [] = refl
address_head (q ∷ l) = refl

Stepped-refl : (descp : ℕ) (w : World) → Stepped descp w w
Stepped-refl descp w = record {
  others = λ x ne. refl;
  mem = refl;
  buffer = refl;
  open_desc = refl;
  file_descs = refl;
}

Stepped-trans :
    (descp : ℕ) (w u v : World) → Stepped descp w u → Stepped descp u v → Stepped descp w v
Stepped-trans descp w u v p q = record {
  others = λ x ne. q.others x ne ∙ p.others x ne;
  mem = q.mem ∙ p.mem;
  buffer = q.buffer ∙ p.buffer;
  open_desc = q.open_desc ∙ p.open_desc;
  file_descs = q.file_descs ∙ p.file_descs;
}

set_dir_filp-Stepped :
    (descp : ℕ) (next : Option ℕ) (w : World) → Stepped descp w (set_dir_filp descp next w)
set_dir_filp-Stepped descp next w = record {
  others = λ x ne. (let other : (x == descp) ≡ false = ground arith in rw other refl);
  mem = refl;
  buffer = refl;
  open_desc = refl;
  file_descs = refl;
}

module _ (descp : ℕ) (name : Bytes) (n : ℕ) (d : IsName name n) where
  -- The structure on the next file.
  next_IsOpenAt :
      (q : ℕ) (l : List ℕ) (w : World)
      → IsOpenAt descp name (q ∷ l) w
      → IsOpenAt descp name l (set_dir_filp descp (head_of l) w)
  next_IsOpenAt q l w o =
      let same : (descp == descp) ≡ true = ground arith in
      record { filp = rw same (address_head l); dirname = rw same o.dirname; no_error = o.no_error }

  dir_next_lem :
      (q : ℕ) (l : List ℕ) (w : World)
      → Rest w.mem (q ∷ l)
      → (w.dir_descs descp).filp ≡ q
      → dir_next descp w ≡ set_dir_filp descp (head_of l) w
  dir_next_lem q l w r e =
      ap (λ p. let (next, w') = fs_next p w in set_dir_filp descp next w') e
      ∙ ap (λ (a : Option ℕ × World). set_dir_filp descp a.0 a.1) (next_of_rest w q l r)

  -- What the loop makes of a file, with the world behind it and what the rest of the loop returns.
  abbrev step : Entry → World → Outcome Posix (Option Bytes) → World → Outcome Posix (Option Bytes)
  step e u rest w = elim e [
    | too_long ↦ fail Posix.enametoolong w
    | no_entry ↦ rest
    | an_entry o ↦
        if (u.dir_descs descp).filp == 0 && not (is_ok u.errno)
        then fail Posix.eio u
        else done (some o) u
  ]

  Listed-skip :
      (q : ℕ) (l : List ℕ) (w u : World) (i : ℕ)
      → i < n
      → file_path w.mem q i ≢ name i
      → Stepped descp w u
      → (e : Option Bytes) (v : World) → Listed descp name n l u e v
      → Listed descp name n (q ∷ l) w e v
  Listed-skip q l w u i lt ne same e v h = record {
    left = h.left;
    next = skip i lt ne (subst (λ m. NextEntry m name n l e (h.left)) same.mem h.next);
    rest = subst (λ m. Rest m (h.left)) same.mem h.rest;
    short = subst (λ m. AllShort m (h.left)) same.mem h.short;
    filp = h.filp;
    dirname = h.dirname;
    stepped = Stepped-trans descp w u v same h.stepped;
  }

  step-Listed :
      (q : ℕ) (l : List ℕ) (w : World) (e : Entry) (rest : Outcome Posix (Option Bytes))
      → Rest w.mem (q ∷ l)
      → AllShort w.mem l
      → IsOpenAt descp name (q ∷ l) w
      → IsEntry (file_path w.mem q) name n e
      → Ensures (Listed descp name n l (set_dir_filp descp (head_of l) w)) (λ _ _. ⊥) rest
      → Ensures
          (Listed descp name n (q ∷ l) w)
          (λ _ _. ⊥)
          (step e (set_dir_filp descp (head_of l) w) rest w)
  step-Listed q l w e rest r s o (outside i lt ne) ih =
      Ensures-mono rest ih
        (Listed-skip q l w (set_dir_filp descp (head_of l) w) i lt ne
          (set_dir_filp-Stepped descp (head_of l) w))
        (λ _ _ b. b)
  step-Listed q l w e rest r s o (inside c same comp) ih =
      let u = set_dir_filp descp (head_of l) w in
      let at = next_IsOpenAt q l w o in
      let fine = ap is_ok o.no_error in
      let good : ((u.dir_descs descp).filp == 0 && not (is_ok w.errno)) ≡ false =
        ground (arith, fine) in
      rw good (record {
        left = l;
        next = entry c same comp;
        rest = rest_tail w.mem q l r;
        short = s;
        filp = at.filp;
        dirname = at.dirname;
        stepped = set_dir_filp-Stepped descp (head_of l) w;
      })

  -- One round of the loop, by the structure and the world behind it.
  abbrev turn : ℕ → Bytes → World → ℕ → Bytes → World → Outcome Posix (Option Bytes)
  turn k out w filp dirname u =
      if filp == 0
      then (if is_ok w.errno then done none w else fail Posix.eio w)
      else step (entry_of (file_path w.mem filp) dirname out) u (readdir_loop k descp out u) w

  readdir_loop-Listed :
      (k : ℕ) (l : List ℕ) (out : Bytes) (w : World)
      → length l < k
      → Rest w.mem l
      → AllShort w.mem l
      → IsOpenAt descp name l w
      → Ensures (Listed descp name n l w) (λ _ _. ⊥) (readdir_loop k descp out w)
  unfolding readdir_loop
  readdir_loop-Listed zero l out w lt r s o = absurd (omega arith)
  readdir_loop-Listed (suc k) [] out w lt r s o =
      let null : ((w.dir_descs descp).filp == 0) ≡ true = ground (arith, o.filp) in
      let fine = ap is_ok o.no_error in
      rw (null, fine)
        (record {
          left = [];
          next = at_end;
          rest = tt;
          short = tt;
          filp = o.filp;
          dirname = o.dirname;
          stepped = Stepped-refl descp w;
        })
  readdir_loop-Listed (suc k) (q ∷ l) out w lt r s o =
      let some_file = (chain_head w.mem q l r.0).ne_null in
      let here : (q == 0) ≡ false = ground (arith, some_file) in
      let u = set_dir_filp descp (head_of l) w in
      let ih =
        readdir_loop-Listed k l out u (omega (arith, lt)) (rest_tail w.mem q l r) s.1
          (next_IsOpenAt q l w o) in
      let base : Ensures (Listed descp name n (q ∷ l) w) (λ _ _. ⊥) (turn k out w q name u) =
        rw here (
          step-Listed q l w (entry_of (file_path w.mem q) name out) (readdir_loop k descp out u) r
            s.1 o (entry_of-IsEntry (file_path w.mem q) name out n d s.0) ih) in
      subst (λ o'. Ensures (Listed descp name n (q ∷ l) w) (λ _ _. ⊥) o')
        (sym (
          ap (turn k out w (w.dir_descs descp).filp (w.dir_descs descp).dirname)
            (dir_next_lem q l w r o.filp)
          ∙ ap (λ f. turn k out w f (w.dir_descs descp).dirname u) o.filp
          ∙ ap (λ nm. turn k out w q nm u) o.dirname))
        base

  -- xipfs_readdir on an open directory whose name is shorter than XIPFS_PATH_MAX, whose structure
  -- stands on the files that are left of the list, and where the paths of those end in their arrays,
  -- does not fail. It gives the next entry of the directory: it skips the files whose paths do not
  -- start with the name, and gives of the first one that does the component behind the name, with the
  -- slash behind it if there is one and without one before it; if there is none, it reports the end.
  -- The structure then stands on the files behind and is still registered, so that the same holds of
  -- the next call with the files that are left then. Nothing but the structure and the error number
  -- has changed.
  pub readdir_lem :
      {nvm : Nvm} (laws : IsNvm nvm) (mp : Mount) (l : List ℕ) (out : Bytes) (w : World)
      → IsMount mp
      → descp ≢ 0
      → dir_desc_tracked descp w ≡ done tt w
      → (w.dir_descs descp).filp ≡ first_of l
      → (w.dir_descs descp).dirname ≡ name
      → Rest w.mem l
      → AllShort w.mem l
      → Ensures
          (λ e u. Listed descp name n l w e u × (dir_desc_tracked descp u ≡ done tt u))
          (λ _ _. ⊥)
          (readdir nvm (some mp) descp (some out) w)
  unfolding readdir
  readdir_lem {nvm} laws mp l out w ok some_desc tracked at named r s =
      let u : World = record w { errno = xipfs_ok } in
      let some_cell : (descp == 0) ≡ false = ground arith in
      subst
        (λ o.
          Ensures (λ e u. Listed descp name n l w e u × (dir_desc_tracked descp u ≡ done tt u))
            (λ _ _. ⊥) o)
        (sym (
          with_mount-none laws mp _ w ok
          ∙ bind_done (refuse_if (descp == 0) Posix.efault w) tt w _
              (ap (λ b. refuse_if b Posix.efault w) some_cell)
          ∙ bind_done (dir_desc_tracked descp w) tt w _ tracked))
        (Ensures-mono (readdir_loop (walk_fuel + 1) descp out u)
          (readdir_loop-Listed (walk_fuel + 1) l out u (rest_length w.mem l r) r s
            (record { filp = at; dirname = named; no_error = refl }))
          (λ e v h. (
            record {
              left = h.left;
              next = h.next;
              rest = h.rest;
              short = h.short;
              filp = h.filp;
              dirname = h.dirname;
              stepped = record {
                others = h.stepped.others;
                mem = h.stepped.mem;
                buffer = h.stepped.buffer;
                open_desc = h.stepped.open_desc;
                file_descs = h.stepped.file_descs;
              };
            },
            tracked_by_table descp w v h.stepped.open_desc tracked,
          ))
          (λ _ _ b. b))
