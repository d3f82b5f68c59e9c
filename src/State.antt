-- ===== src/State.antt =====
-- The state that the files of src/ share, and their functions as a monad over it: the flash memory,
-- the static I/O buffer of src/buffer.c, `xipfs_errno`, the static table of src/desc.c, and the
-- descriptor structures that its entries point to, by address.
use xipfs.Base.{ℕ, Bytes, Bool, true, false, Option, ◌≡◌, refl, ap}
use xipfs.Errno.{Errno}

-- `xipfs_buffer_state_t`
pub data BufferState : Type 0 where
  buffer_ok buffer_dirty buffer_ko : BufferState

-- `xipfs_buf_t`
pub record Buffer : Type 0 where
  pub state : BufferState
  pub buf : Bytes
  pub page_num : ℕ
  pub page_addr : ℕ

-- `desc_type_t`
pub data DescType : Type 0 where
  desc_free desc_file desc_dir : DescType

-- `desc_entry_t`; the null pointer is 0.
pub record DescEntry : Type 0 where
  pub type : DescType
  pub addr : ℕ

-- `xipfs_file_desc_t`; the file is an address, and the position the bit pattern of an `int32_t`.
pub record FileDesc : Type 0 where
  pub filp : ℕ
  pub pos : ℕ
  pub flags : ℕ

-- `xipfs_dir_desc_t`
pub record DirDesc : Type 0 where
  pub filp : ℕ
  pub dirname : Bytes

pub record World : Type 0 where
  pub mem : Bytes
  pub buffer : Buffer
  pub errno : Errno
  pub open_desc : ℕ → DescEntry
  pub file_descs : ℕ → FileDesc
  pub dir_descs : ℕ → DirDesc

-- `xipfs_mount_t`; a null pointer is 0, and a null `mount_path` is `none`.
pub record Mount : Type 0 where
  pub magic : ℕ
  pub mount_path : Option Bytes
  pub page_num : ℕ
  pub page_addr : ℕ
  pub execution_mutex : ℕ
  pub mutex : ℕ

-- What a function returns: a value, or an error (a negative value), with the state that it leaves.
pub data Outcome (E A : Type 0) : Type 0 where
  done : A → World → Outcome E A
  fail : E → World → Outcome E A

abbrev pub M : Type 0 → Type 0 → Type 0
M E A = World → Outcome E A

-- The internal functions return -1 and set `xipfs_errno`.
abbrev pub Internal : Type 0 → Type 0
Internal = M (Unit {0})

module _ {E : Type 0} where
  abbrev pub pure : {A : Type 0} → A → M E A
  pure a w = done a w

  abbrev pub throw : {A : Type 0} → E → M E A
  throw e w = fail e w

  infixl 5 ◌>>=◌ ◌>>◌
  abbrev pub ◌>>=◌ : {A B : Type 0} → M E A → (A → M E B) → M E B
  ◌>>=◌ m f w = elim (m w) [ done a w' ↦ f a w' | fail e w' ↦ fail e w' ]

  abbrev pub ◌>>◌ : {B : Type 0} → M E (Unit {0}) → M E B → M E B
  m >> k = m >>= λ _. k

  -- `if (test) return error;`
  abbrev pub refuse_if : Bool → E → M E (Unit {0})
  refuse_if true e w = fail e w
  refuse_if false e w = done tt w

-- `xipfs_errno = e; return -1;`
abbrev pub fail_with : {A : Type 0} → Errno → Internal A
fail_with e w = fail tt (record w { errno = e })

abbrev pub fail_if : Bool → Errno → Internal (Unit {0})
fail_if true e w = fail tt (record w { errno = e })
fail_if false e w = done tt w

abbrev pub set_errno : {E : Type 0} → Errno → M E (Unit {0})
set_errno e w = done tt (record w { errno = e })

-- The driver maps every internal failure to an error of its own.
abbrev pub or_fail : {E A : Type 0} → E → Internal A → M E A
or_fail e m w = elim (m w) [ done a w' ↦ done a w' | fail _ w' ↦ fail e w' ]

-- A postcondition for each way in which a call can return.
abbrev pub Ensures :
    {E A : Type 0} → (A → World → Type 0) → (E → World → Type 0) → Outcome E A → Type 0
Ensures P Q (done a w) = P a w
Ensures P Q (fail e w) = Q e w

pub Ensures-bind :
    {E A B : Type 0} {P : A → World → Type 0} {Q : E → World → Type 0} (R : B → World → Type 0)
    (S : E → World → Type 0) (o : Outcome E A) (f : A → M E B)
    → Ensures P Q o
    → ((a : A) (w : World) → P a w → Ensures R S (f a w))
    → ((e : E) (w : World) → Q e w → S e w)
    → Ensures R S (elim o [ done a w' ↦ f a w' | fail e w' ↦ fail e w' ])
Ensures-bind R S (done a w) f h k q = k a w h
Ensures-bind R S (fail e w) f h k q = q e w h

pub Ensures-mono :
    {E A : Type 0} {P P' : A → World → Type 0} {Q Q' : E → World → Type 0} (o : Outcome E A)
    → Ensures P Q o
    → ((a : A) (w : World) → P a w → P' a w)
    → ((e : E) (w : World) → Q e w → Q' e w)
    → Ensures P' Q' o
Ensures-mono (done a w) h p q = p a w h
Ensures-mono (fail e w) h p q = q e w h

-- A call that is known to fail.
pub bind_fail :
    {E A B : Type 0} (o : Outcome E A) (e : E) (w : World) (g : A → M E B)
    → o ≡ fail e w
    → elim o as (λ _. Outcome E B) [ done b u ↦ g b u | fail e' u ↦ fail e' u ] ≡ fail e w
bind_fail {E} {A} {B} o e w g h =
    ap (λ x. elim x as (λ _. Outcome E B) [ done b u ↦ g b u | fail e' u ↦ fail e' u ]) h

-- A call that is known to succeed.
pub bind_done :
    {E A B : Type 0} (o : Outcome E A) (a : A) (w : World) (g : A → M E B)
    → o ≡ done a w
    → elim o as (λ _. Outcome E B) [ done b u ↦ g b u | fail e u ↦ fail e u ] ≡ g a w
bind_done {E} {A} {B} o a w g h =
    ap (λ x. elim x as (λ _. Outcome E B) [ done b u ↦ g b u | fail e u ↦ fail e u ]) h

-- The driver's error for a call that failed.
pub Ensures-or_fail :
    {E A : Type 0} (P : A → World → Type 0) (Q : Unit {0} → World → Type 0) (e : E)
    (o : Outcome (Unit {0}) A) (w : World)
    → Ensures P Q o
    → Ensures P (λ e' u. (e' ≡ e) × Q tt u) (or_fail e (λ _. o) w)
Ensures-or_fail P Q e (done a u) w h = h
Ensures-or_fail P Q e (fail t u) w h = (refl, h)

-- Both postconditions of a call.
pub Ensures-both :
    {E A : Type 0} (P P' : A → World → Type 0) (Q Q' : E → World → Type 0) (o : Outcome E A)
    → Ensures P Q o
    → Ensures P' Q' o
    → Ensures (λ a w. P a w × P' a w) (λ e w. Q e w × Q' e w) o
Ensures-both P P' Q Q' (done a w) p q = (p, q)
Ensures-both P P' Q Q' (fail e w) p q = (p, q)
