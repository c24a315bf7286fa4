-- ===== src/Prelude/Results.antt =====
-- Exceptions as values. A method that may raise returns its outcome beside the state that it leaves.
use mathlib.Core.Path.{◌≡◌, refl}
use mathlib.Core.Logic.{◌⊎◌, inl, inr}

pub data Error : Type 0 where
  value_error key_error invalid_transition run_lock_error stale_write_error : Error
  authentication_error cycle_error os_error runtime_error validation_error tool_error : Error
  type_error : Error

-- What a call returns or raises.
pub data Result {ℓ} (T : Type ℓ) : Type ℓ where
  err : (raised : Error) → Result T
  ok : (returned : T) → Result T

module _ {ℓ κ} {T : Type ℓ} {U : Type κ} where
  -- The rest of a method, which an exception skips.
  infixl 5 ◌>>=◌
  abbrev pub ◌>>=◌ : (m : Result T) (next : T → Result U) → Result U
  err raised >>= next = err raised
  ok returned >>= next = next returned

  pub >>=-eq-ok :
      (m : Result T) (next : T → Result U) {u : U}
      → (m >>= next) ≡ ok u
      → (t : T) × (m ≡ ok t) × (next t ≡ ok u)
  >>=-eq-ok (ok returned) next h = (returned, refl, h)
  >>=-eq-ok (err raised) next h = cc

module _ {ℓ} {T : Type ℓ} where
  pub Result-cases : (m : Result T) → ((e : Error) × (m ≡ err e)) ⊎ ((t : T) × (m ≡ ok t))
  Result-cases (err e) = inl (e, refl)
  Result-cases (ok t) = inr (t, refl)
