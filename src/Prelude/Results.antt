-- ===== src/Prelude/Results.antt =====
-- Results with a message for the failure, and the steps that the handlers are made of.
use Prim.Native.String.{String}
use mathlib.Core.Path.{◌≡◌, refl}
use mathlib.Core.Logic.{◌⊎◌, inl, inr}
use mathlib.Core.Bool.{Bool, true, false}
use mathlib.Core.Option.{Option, none, some}

-- The state that a handler leads to, or the message of its `eventFailure`.
pub data Result {ℓ} (State : Type ℓ) : Type ℓ where
  err : (message : String) → Result State
  ok : (next : State) → Result State

module _ {ℓ} {State : Type ℓ} where
  -- `if (value === undefined) return eventFailure(event, message)`.
  abbrev pub require : Option State → String → Result State
  require (some value) message = ok value
  require none message = err message

  pub Result-cases :
      (r : Result State) → ((s : State) × (r ≡ ok s)) ⊎ ((message : String) × (r ≡ err message))
  Result-cases (err message) = inr (message, refl)
  Result-cases (ok s) = inl (s, refl)

-- `if (test) return eventFailure(event, message)`.
abbrev pub refuse_if : (test : Bool) (message : String) → Result (Unit {0})
refuse_if false message = ok tt
refuse_if true message = err message

-- `if (!test) return eventFailure(event, message)`.
abbrev pub guard : (test : Bool) (message : String) → Result (Unit {0})
guard false message = err message
guard true message = ok tt

module _ {ℓ κ} {State : Type ℓ} {Next : Type κ} where
  infixl 5 ◌>>=◌
  abbrev pub ◌>>=◌ : Result State → (State → Result Next) → Result Next
  err message >>= step = err message
  ok s >>= step = step s

  pub >>=-eq-ok :
      (r : Result State) (step : State → Result Next) {t : Next}
      → (r >>= step) ≡ ok t
      → (s : State) × (r ≡ ok s) × (step s ≡ ok t)
  >>=-eq-ok (err message) step h = cc
  >>=-eq-ok (ok s) step h = (s, refl, h)

infixl 5 ◌>>◌
abbrev pub ◌>>◌ {κ} : {Next : Type κ} → Result (Unit {0}) → Result Next → Result Next
test >> after = test >>= λ done. after
