-- ===== src/Prelude/Results.antt =====
-- The error type of crates/paur-core/src/error.rs, and computations that may fail with it.
use mathlib.Core.Path.{◌≡◌, refl}
use mathlib.Core.Logic.{◌⊎◌, inl, inr}
use mathlib.Core.Option.{Option, none, some}

-- `Error`, by its variants; the messages they carry are left out.
pub data Error : Type 0 where
  io config db migration invalid_name aur build repo gpg api not_found invalid conflict missing_dep
        other :
      Error

-- `Result<T, Error>`: a failure, or a value of `T`.
pub data Result {ℓ} (T : Type ℓ) : Type ℓ where
  err : Error → Result T
  ok : T → Result T

-- `ok_or`
abbrev pub ok_or {ℓ} : {T : Type ℓ} → Option T → Error → Result T
ok_or none failure = err failure
ok_or (some value) failure = ok value

infixl 5 ◌>>=◌
-- `?`: a failure ends the function, and its value goes on.
abbrev pub ◌>>=◌ {ℓ κ} : {T : Type ℓ} {U : Type κ} → Result T → (T → Result U) → Result U
err failure >>= next = err failure
ok value >>= next = next value

-- To split on a computed result and keep the equation.
pub Result-cases {ℓ} :
    {A : Type ℓ} (r : Result A) → ((a : A) × (r ≡ ok a)) ⊎ ((e : Error) × (r ≡ err e))
Result-cases (ok a) = inl (a, refl)
Result-cases (err e) = inr (e, refl)
