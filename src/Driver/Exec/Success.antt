-- ===== src/Driver/Exec/Success.antt =====
-- Postconditions of the calls that succeed, for the steps of xipfs_execv_check in src/driver.c.
use xipfs.Base.{ℕ, ◌≡◌, refl, strnlen, Bool, true, false, ◌==◌, Option, none, some, Bytes}
use xipfs.Posix.{Posix}
use xipfs.State.{World, Mount, Outcome, done, fail, M, throw, refuse_if, Ensures, ◌>>◌}
use xipfs.Flash.{Nvm}
use xipfs.File.{path_max}
use xipfs.Path.{is_root}
use xipfs.Driver.Checks.{mp_error, with_mount}
use xipfs.Driver.Names.{check_name, accept}
use xipfs.Driver.Files.{close}
use xipfs.Driver.Exec.{close_quietly}

-- A postcondition of success.
abbrev pub Succeeds : {A : Type 0} → (A → World → Type 0) → Outcome Posix A → Type 0
Succeeds P o = Ensures P (λ _ _. Unit {0}) o

module _ {B : Type 0} (P : B → World → Type 0) where
  -- What follows a test knows that it did not hold.
  pub after_test :
      (b : Bool) (e : Posix) (k : M Posix B) (w : World)
      → (b ≡ false → Succeeds P (k w))
      → Succeeds P ((refuse_if b e >> k) w)
  after_test true e k w h = tt
  after_test false e k w h = h refl

  pub after_accept :
      (o : Option Posix) (k : M Posix B) (w : World)
      → (o ≡ none → Succeeds P (k w))
      → Succeeds P ((accept o >> k) w)
  after_accept none k w h = h refl
  after_accept (some e) k w h = tt

  pub after_mount :
      (nvm : Nvm) (mp : Mount) (k : Mount → M Posix B) (w : World)
      → (mp_error nvm mp ≡ none → Succeeds P (k mp w))
      → Succeeds P (with_mount nvm (some mp) k w)
  unfolding with_mount
  after_mount nvm mp k w h = go (mp_error nvm mp) h
    where
      go :
          (o : Option Posix)
          → (o ≡ none → Succeeds P (k mp w))
          → Succeeds P ((elim o as (λ _. M Posix B) [ some e ↦ throw e | none ↦ k mp ]) w)
      go none f = f refl
      go (some e) f = tt

pub refuse_if_state : (b : Bool) (e : Posix) (w : World) → Succeeds (λ _ u. u ≡ w) (refuse_if b e w)
refuse_if_state true e w = tt
refuse_if_state false e w = refl

pub check_name_state :
    (root : Posix) (name : Bytes) (w : World) → Succeeds (λ _ u. u ≡ w) (check_name root name w)
check_name_state root name w =
    after_test (λ _ u. u ≡ w) (name 0 == 0) Posix.enoent _ w
      (λ _.
        after_test (λ _ u. u ≡ w) (is_root name) root _ w
          (λ _. refuse_if_state (strnlen name path_max == path_max) Posix.enametoolong w))

-- What follows a close whose result is not looked at.
pub after_quiet :
    {A : Type 0} (P : A → World → Type 0) (c : Outcome Posix (Unit {0})) (k : M Posix A)
    → ((y : World) → Succeeds P (k y))
    → Succeeds P
        (elim (elim c as (λ _. Outcome Posix (Unit {0})) [
          | done _ y ↦ done tt y
          | fail _ y ↦ done tt y
        ])
          as (λ _. Outcome Posix A) [ done _ y ↦ k y | fail e y ↦ fail e y ])
after_quiet P (done a y) k h = h y
after_quiet P (fail e y) k h = h y

-- Closing the file of a call that failed does not make it succeed.
pub after_close :
    {A : Type 0} (P : A → World → Type 0) (nvm : Nvm) (infos : ℕ) (mp : Mount) (descp : ℕ)
    (o : Outcome Posix A)
    → Succeeds P o
    → Succeeds P (elim o as (λ _. Outcome Posix A) [
      | done a u ↦ done a u
      | fail _ u ↦ (close_quietly nvm infos mp descp >> throw Posix.eio) u
    ])
after_close P nvm infos mp descp (done a u) h = h
after_close P nvm infos mp descp (fail e u) h =
    after_quiet P (close nvm infos (some mp) descp u) (throw Posix.eio) (λ _. tt)

pub with_error :
    {A : Type 0} (P : A → World → Type 0) (o : Outcome Posix A) (e : Posix)
    → Succeeds P o
    → Succeeds P (elim o as (λ _. Outcome Posix A) [ done a u ↦ done a u | fail _ u ↦ fail e u ])
with_error P (done a u) e h = h
with_error P (fail c u) e h = tt

-- What follows a call whose postcondition is known.
pub bind-Succeeds :
    {A B : Type 0} (P : A → World → Type 0) (R : B → World → Type 0) (o : Outcome Posix A)
    (k : A → M Posix B)
    → Succeeds P o
    → ((a : A) (u : World) → P a u → Succeeds R (k a u))
    → Succeeds R (elim o as (λ _. Outcome Posix B) [ done a u ↦ k a u | fail e u ↦ fail e u ])
bind-Succeeds P R (done a u) k h f = f a u h
bind-Succeeds P R (fail e u) k h f = tt
