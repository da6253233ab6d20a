-- ===== src/Prelude/Call.antt =====
-- A call of a Python function: it returns a value, or it raises an exception of the type `E`.
use mathlib.Core.Path.{◌≡◌, refl}
use mathlib.Core.Bool.{Bool, true, false}
use mathlib.Core.Logic.{◌⊎◌, inl, inr}

pub data Call (E A : Type 0) : Type 0 where
  returns : A → Call E A
  raises : E → Call E A

module _ {E A B : Type 0} where
  infixl 10 ◌>>=◌
  abbrev pub ◌>>=◌ : Call E A → (A → Call E B) → Call E B
  raises e >>= rest = raises e
  returns a >>= rest = rest a

  -- If a sequence returns, its first call returned.
  pub >>=-returns :
      (first : Call E A) (rest : A → Call E B) {b : B}
      → (first >>= rest) ≡ returns b
      → (a : A) × (first ≡ returns a) × (rest a ≡ returns b)
  >>=-returns (raises e) rest h = cc
  >>=-returns (returns a) rest h = (a, refl, h)

infixl 10 ◌>>◌
abbrev pub ◌>>◌ : {E B : Type 0} → Call E (Unit {0}) → Call E B → Call E B
raises e >> rest = raises e
returns _ >> rest = rest

-- if not test: raise e
abbrev pub require : {E : Type 0} → Bool → E → Call E (Unit {0})
require false e = raises e
require true e = returns tt

pub Call-cases :
    {E A : Type 0} (c : Call E A) → ((a : A) × (c ≡ returns a)) ⊎ ((e : E) × (c ≡ raises e))
Call-cases (returns a) = inl (a, refl)
Call-cases (raises e) = inr (e, refl)
