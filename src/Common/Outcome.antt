-- ===== src/Common/Outcome.antt =====
-- Methods that mutate an object and may raise: what was written before a raise stays written, so
-- the state comes back beside the error too.
use mathlib.Core.Path.{◌≡◌, ap, refl}
use mathlib.Core.Logic.{◌⊎◌, inl, inr}
use mathlib.Core.Bool.{Bool, true, false}
use mathlib.Core.Option.{Option, none, some}

pub data Result (E A : Type 0) : Type 0 where
  ok : A → Result E A
  err : E → Result E A

abbrev pub Exec : Type 0 → Type 0 → Type 0 → Type 0
Exec S E A = S → Result E A × S

module _ {S E A : Type 0} where
  abbrev pub pure : A → Exec S E A
  pure a s = (ok a, s)

  abbrev pub raise : E → Exec S E A
  raise e s = (err e, s)

  abbrev pub gets : (S → A) → Exec S E A
  gets f s = (ok (f s), s)

  -- a value that is missing is an error
  abbrev pub or_raise : Option A → E → Exec S E A
  or_raise none e s = (err e, s)
  or_raise (some a) e s = (ok a, s)

  abbrev pub lift : Result E A → Exec S E A
  lift r s = (r, s)

module _ {S E : Type 0} where
  abbrev pub modify : (S → S) → Exec S E (Unit {0})
  modify f s = (ok tt, f s)

  -- `if not c: raise e`
  abbrev pub require : Bool → E → Exec S E (Unit {0})
  require true e s = (ok tt, s)
  require false e s = (err e, s)

infixl 5 ◌>>=◌ ◌>>◌
abbrev pub ◌>>=◌ : {S E A B : Type 0} → Exec S E A → (A → Exec S E B) → Exec S E B
◌>>=◌ m f s = let (r, s') = m s in elim r [ ok a ↦ f a s' | err e ↦ (err e, s') ]

abbrev pub ◌>>◌ : {S E B : Type 0} → Exec S E (Unit {0}) → Exec S E B → Exec S E B
m >> k = m >>= λ _. k

-- How a block goes on after a call whose end is known.
module _ {S E A B : Type 0} (m : Exec S E A) (f : A → Exec S E B) {s s' : S} where
  pub bind_ok : {a : A} → m s ≡ (ok a, s') → (m >>= f) s ≡ f a s'
  bind_ok {a} e = rw (e, ◌>>=◌) (ap (λ (x : Result E A × S). f a x.1) e)

  pub bind_err : {e : E} → m s ≡ (err e, s') → (m >>= f) s ≡ (err e, s')
  bind_err {e = c} e = rw (e, ◌>>=◌) (ap (λ (x : Result E A × S). (err c, x.1)) e)

pub Result-cases :
    {E A : Type 0} (r : Result E A) → ((a : A) × (r ≡ ok a)) ⊎ ((e : E) × (r ≡ err e))
Result-cases (ok a) = inl (a, refl)
Result-cases (err e) = inr (e, refl)

-- A call's outcome from its result.
pub pair_eq : {S E A : Type 0} {x : Result E A × S} {r : Result E A} → x.0 ≡ r → x ≡ (r, x.1)
pair_eq {x} e = ap (λ r. (r, x.1)) e
