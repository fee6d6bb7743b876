-- ===== src/Prelude/Effects.antt =====
-- Computations that change a state and may fail; what was changed before a failure stays.
use mathlib.Core.Path.{◌≡◌, refl}
use mathlib.Core.Logic.{◌⊎◌, inl, inr}
use native.Mathlib.Omega.{arith}
use paur.Prelude.Results.{Error, Result, err, ok}

abbrev pub Io : Type 0 → Type 0 → Type 0
Io S T = S → S × Result T

abbrev pub pure : {S T : Type 0} → T → Io S T
pure a s = (s, ok a)

abbrev pub fail : {S T : Type 0} → Error → Io S T
fail e s = (s, err e)

-- the rest of a function from a `?` on
abbrev pub proceed : {S T U : Type 0} → S × Result T → (T → Io S U) → S × Result U
proceed (s, err e) next = (s, err e)
proceed (s, ok a) next = next a s

infixl 5 ◌>>=◌
abbrev pub ◌>>=◌ : {S T U : Type 0} → Io S T → (T → Io S U) → Io S U
(m >>= next) s = proceed (m s) next

infixl 5 ◌>>◌
abbrev pub ◌>>◌ : {S T U : Type 0} → Io S T → Io S U → Io S U
(m >> next) s = proceed (m s) (λ a. next)

-- an effect that cannot fail
abbrev pub modify : {S : Type 0} → (S → S) → Io S Unit
modify f s = (f s, ok tt)

-- `let _ =`, and `if let Err(e) = … { warn }`
abbrev pub ignore : {S T : Type 0} → Io S T → Io S Unit
ignore m s = ((m s).0, ok tt)

-- Whatever its end, the computation keeps a property of the state.
abbrev pub Keeps : {S T : Type 0} → (S → Type 0) → Io S T → Type 0
Keeps P m = (s : _) → P s → P (m s).0

pub Keeps-bind :
    {S T U : Type 0} (P : S → Type 0) (m : Io S T) (next : T → Io S U)
    → Keeps P m
    → ((a : T) → Keeps P (next a))
    → Keeps P (m >>= next)
Keeps-bind {S = S} {T = T} {U = U} P m next h k s p = helper (m s) (h s p)
  where
    helper : (r : S × Result T) → P r.0 → P (proceed r next).0
    helper (t, err e) q = q
    helper (t, ok a) q = k a t q

-- The same, unless the computation ends with the error `e`.
abbrev pub KeepsUnless : {S T : Type 0} → Error → (S → Type 0) → Io S T → Type 0
KeepsUnless e P m = (s : _) → P s → P (m s).0 ⊎ ((m s).1 ≡ err e)

pub KeepsUnless-bind :
    {S T U : Type 0} (e : Error) (P : S → Type 0) (m : Io S T) (next : T → Io S U)
    → KeepsUnless e P m
    → ((a : T) → KeepsUnless e P (next a))
    → KeepsUnless e P (m >>= next)
KeepsUnless-bind {S = S} {T = T} {U = U} e P m next h k s p = helper (m s) (h s p)
  where
    helper :
        (r : S × Result T)
        → P r.0 ⊎ (r.1 ≡ err e)
        → P (proceed r next).0 ⊎ ((proceed r next).1 ≡ err e)
    helper (t, err x) (inl q) = inl q
    helper (t, err x) (inr same) = inr (ground arith)
    helper (t, ok a) (inl q) = k a t q
    helper (t, ok a) (inr bad) = absurd (ground arith)

-- A computation of which more is known when it succeeds.
pub proceed-KeepsUnless :
    {S T U : Type 0} (e : Error) (P : S → Type 0) (s : S) (m : Io S T) (next : T → Io S U)
    → P (m s).0
    → ((a : T) (t : S) → m s ≡ (t, ok a) → P t → P (next a t).0 ⊎ ((next a t).1 ≡ err e))
    → P ((m >>= next) s).0 ⊎ (((m >>= next) s).1 ≡ err e)
proceed-KeepsUnless {S = S} {T = T} {U = U} e P s m next h k = helper (m s) h k
  where
    helper :
        (r : S × Result T)
        → P r.0
        → ((a : T) (t : S) → r ≡ (t, ok a) → P t → P (next a t).0 ⊎ ((next a t).1 ≡ err e))
        → P (proceed r next).0 ⊎ ((proceed r next).1 ≡ err e)
    helper (t, err x) q k = inl q
    helper (t, ok a) q k = k a t refl q

pub proceed-keeps :
    {S T U : Type 0} (P : S → Type 0) (s : S) (m : Io S T) (next : T → Io S U)
    → P (m s).0
    → ((a : T) (t : S) → m s ≡ (t, ok a) → P t → P (next a t).0)
    → P ((m >>= next) s).0
proceed-keeps {S = S} {T = T} {U = U} P s m next h k = helper (m s) h k
  where
    helper :
        (r : S × Result T)
        → P r.0
        → ((a : T) (t : S) → r ≡ (t, ok a) → P t → P (next a t).0)
        → P (proceed r next).0
    helper (t, err e) q k = q
    helper (t, ok a) q k = k a t refl q

-- When the computation succeeds from this state, its end has the property.
abbrev pub Ensures : {S T : Type 0} → S → Io S T → (T → S → Type 0) → Type 0
Ensures s m Q = (a : _) (t : _) → m s ≡ (t, ok a) → Q a t

pub Ensures-bind :
    {S T U : Type 0} (s : S) (m : Io S T) (next : T → Io S U) (Q : U → S → Type 0)
    → ((a : T) (t : S) → m s ≡ (t, ok a) → Ensures t (next a) Q)
    → Ensures s (m >>= next) Q
Ensures-bind {S = S} {T = T} {U = U} s m next Q k b u h = helper (m s) k h
  where
    helper :
        (r : S × Result T)
        → ((a : T) (t : S) → r ≡ (t, ok a) → Ensures t (next a) Q)
        → proceed r next ≡ (u, ok b)
        → Q b u
    helper (t, err e) k h = absurd (ground arith)
    helper (t, ok a) k h = k a t refl b u h
