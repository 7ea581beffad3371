-- ===== src/Exec.antt =====
-- Code that changes a state and may raise. What was written before a raise stays written, so the
-- state comes back beside the error.
pub mod Keeps
pub mod Laws
use hv2pve.Prelude.{String, Bool, true, false}

-- The exceptions of the program, by class, with the constant part of the message. A
-- `CommandError` is a `RuntimeError`, a `JSONDecodeError` is a `ValueError`.
pub data Error : Type 0 where
  value_error safety_error runtime_error command_error : String → Error
  key_error index_error type_error attribute_error : String → Error
  file_not_found timeout_expired os_error system_exit : String → Error

pub data Result {ℓ} (A : Type ℓ) : Type ℓ where
  ok : A → Result A
  err : Error → Result A

-- The rest of a computation that may raise.
abbrev pub and_then : {A B : Type 0} → Result A → (A → Result B) → Result B
and_then (ok a) f = f a
and_then (err e) f = err e

abbrev pub Exec : Type 0 → Type 0 → Type 0
Exec S A = S → Result A × S

abbrev pub Done : Type 0
Done = Unit

module _ {S A : Type 0} where
  abbrev pub pure : A → Exec S A
  pure a s = (ok a, s)

  abbrev pub raise : Error → Exec S A
  raise e s = (err e, s)

  -- A computation that reads and writes no state.
  abbrev pub lift : Result A → Exec S A
  lift r s = (r, s)

  abbrev pub gets : (S → A) → Exec S A
  gets f s = (ok (f s), s)

abbrev pub modify : {S : Type 0} → (S → S) → Exec S Done
modify f s = (ok tt, f s)

-- `if c: raise e`
abbrev pub raise_if : {S : Type 0} → Bool → Error → Exec S Done
raise_if true e s = (err e, s)
raise_if false e s = (ok tt, s)

-- `if not c: raise e`
abbrev pub require : {S : Type 0} → Bool → Error → Exec S Done
require true e s = (ok tt, s)
require false e s = (err e, s)

-- `if not c: m`
abbrev pub unless : {S : Type 0} → Bool → Exec S Done → Exec S Done
unless true m s = (ok tt, s)
unless false m s = m s

module _ {S A B : Type 0} where
  abbrev pub continue : Result A → (A → Exec S B) → Exec S B
  continue (ok a) f s = f a s
  continue (err e) f s = (err e, s)

  infixl 5 ◌>>=◌ ◌>>◌
  unfoldable pub ◌>>=◌ : Exec S A → (A → Exec S B) → Exec S B
  ◌>>=◌ m f s = let (r, s') = m s in continue r f s'

  abbrev pub ◌>>◌ : Exec S A → Exec S B → Exec S B
  m >> k = m >>= λ _. k

-- `try: m finally: cleanup`: an exception of the cleanup takes the place of the result.
abbrev pub replaced : {S A : Type 0} → Result A → Result Done × S → Result A × S
replaced r (ok u, s) = (r, s)
replaced r (err e, s) = (err e, s)

abbrev pub finally : {S A : Type 0} → Exec S A → Exec S Done → Exec S A
finally m cleanup s = let (r, s') = m s in replaced r (cleanup s')

-- `try: m except Exception: pass`
abbrev pub ignoring_errors : {S A : Type 0} → Exec S A → Exec S Done
ignoring_errors m s = (ok tt, (m s).1)
