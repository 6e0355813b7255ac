-- ===== src/Prelude/Exec.antt =====
-- Statements that may raise and that change a state `S`. What was changed before a raise stays
-- changed, so the state comes back beside the error.

use mathlib.Core.Bool.{Bool, true, false}
use googlecloudhack.Prelude.Errors.{Error, Result, ok, err}

abbrev pub Exec : Type 0 → Type 0 → Type 0
Exec S A = S → Result A × S

abbrev pub continue : {S A B : Type 0} → Result A → (A → Exec S B) → Exec S B
continue (ok a) f s = f a s
continue (err e) f s = (err e, s)

infixl 5 ◌>>=◌ ◌>>◌
abbrev pub ◌>>=◌ : {S A B : Type 0} → Exec S A → (A → Exec S B) → Exec S B
◌>>=◌ m f s = let (r, s') = m s in continue r f s'

abbrev pub ◌>>◌ : {S B : Type 0} → Exec S (Unit {0}) → Exec S B → Exec S B
m >> k = m >>= λ _. k

module _ {S : Type 0} where
  abbrev pub pure : {A : Type 0} → A → Exec S A
  pure a s = (ok a, s)

  abbrev pub raise : {A : Type 0} → Error → Exec S A
  raise e s = (err e, s)

  -- a call that changes nothing
  abbrev pub lift : {A : Type 0} → Result A → Exec S A
  lift r s = (r, s)

  -- `if c: raise e`
  abbrev pub raise_when : Bool → Error → Exec S (Unit {0})
  raise_when true e s = (err e, s)
  raise_when false e s = (ok tt, s)

  abbrev pub modify : (S → S) → Exec S (Unit {0})
  modify f s = (ok tt, f s)
