-- ===== src/Common/Fallible.antt =====
-- Functions that change no state and may raise: the sequencing of results.
use mathlib.Core.Path.{◌≡◌, refl}
use mathlib.Core.Bool.{Bool, true, false}
use modular_discord_bot_oper.Common.Outcome.{Result, ok, err}

infixl 5 ◌>>=◌ ◌>>◌
abbrev pub ◌>>=◌ : {E A B : Type 0} → Result E A → (A → Result E B) → Result E B
ok a >>= f = f a
err e >>= f = err e

abbrev pub ◌>>◌ : {E B : Type 0} → Result E (Unit {0}) → Result E B → Result E B
m >> k = m >>= λ _. k

-- `if b: raise e`
abbrev pub refuse : {E : Type 0} → Bool → E → Result E (Unit {0})
refuse true e = err e
refuse false e = ok tt

-- `if not b: raise e`
abbrev pub ensure : {E : Type 0} → Bool → E → Result E (Unit {0})
ensure true e = ok tt
ensure false e = err e

module _ {E A B : Type 0} where
  -- A sequence that returns went through its first part, and then through the second.
  pub >>=-ok_parts :
      (first : Result E A) (next : A → Result E B) {answer : B}
      → (first >>= next) ≡ ok answer
      → (value : A) × (first ≡ ok value) × (next value ≡ ok answer)
  >>=-ok_parts (err e) next raised = cc
  >>=-ok_parts (ok value) next done = (value, refl, done)

module _ {E : Type 0} where
  pub ensure_passed : (b : Bool) (e : E) {u : Unit {0}} → ensure b e ≡ ok u → b ≡ true
  ensure_passed true e h = refl
  ensure_passed false e h = absurd (cc h)

  pub refuse_passed : (b : Bool) (e : E) {u : Unit {0}} → refuse b e ≡ ok u → b ≡ false
  refuse_passed true e h = absurd (cc h)
  refuse_passed false e h = refl
