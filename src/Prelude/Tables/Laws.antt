-- ===== src/Prelude/Tables/Laws.antt =====
-- How the operations on tables keep predicates of the rows and of pairs of rows.
use mathlib.Core.Path.{◌≡◌, refl, subst}
use mathlib.Core.Logic.{inl, inr}
use mathlib.Core.Bool.{Bool, true, false, ◌&&◌, not}
use mathlib.Core.List.{List, [], ◌∷◌, ◌++◌}
use mathlib.Core.Option.{some}
use Prim.Native.Nat.{ℕ, ◌≤◌}
use native.Mathlib.Omega.{arith}
use paur.Prelude.Tests.{Bool-cases, is_some, ◌==◌}
use paur.Prelude.Lists.{All, Pairwise, any, max_of}
use paur.Prelude.Tables.{select, find, update, affected}

module _ {ℓ κ} {A : Type ℓ} (P : A → Type κ) (p : A → Bool) where
  pub All-select : (xs : List A) → All P xs → All P (select p xs)
  unfolding select
  All-select [] h = tt
  All-select (x ∷ xs) h = elim (Bool-cases (p x)) [
    | inl e ↦ rw e (h.0, All-select xs h.1)
    | inr e ↦ rw e (All-select xs h.1)
  ]

  -- a row that stays also fails the condition of the deletion
  pub All-select_with :
      (Q : A → Type κ)
      → ((x : A) → p x ≡ true → P x → Q x)
      → (xs : List A) → All P xs
      → All Q (select p xs)
  unfolding select
  All-select_with Q f [] h = tt
  All-select_with Q f (x ∷ xs) h = elim (Bool-cases (p x)) [
    | inl e ↦ rw e (f x e h.0, All-select_with Q f xs h.1)
    | inr e ↦ rw e (All-select_with Q f xs h.1)
  ]

  pub All-update :
      (f : A → A)
      → ((x : A) → p x ≡ true → P x → P (f x))
      → (xs : List A) → All P xs
      → All P (update p f xs)
  unfolding update
  All-update f k [] h = tt
  All-update f k (x ∷ xs) h = elim (Bool-cases (p x)) [
    | inl e ↦ rw e (k x e h.0, All-update f k xs h.1)
    | inr e ↦ rw e (h.0, All-update f k xs h.1)
  ]

  pub All-find : (xs : List A) (a : A) → All P xs → find p xs ≡ some a → P a
  unfolding find
  All-find [] a h e = absurd (ground arith)
  All-find (x ∷ xs) a h e = elim (Bool-cases (p x)) [
    | inl t ↦ subst P (ground arith) h.0
    | inr t ↦ All-find xs a h.1 (ground arith)
  ]

module _ {ℓ κ} {A : Type ℓ} (R : A → A → Type κ) (p : A → Bool) where
  pub Pairwise-select : (xs : List A) → Pairwise R xs → Pairwise R (select p xs)
  unfolding select
  Pairwise-select [] h = tt
  Pairwise-select (x ∷ xs) h = elim (Bool-cases (p x)) [
    | inl e ↦ rw e (All-select (R x) p xs h.0, Pairwise-select xs h.1)
    | inr e ↦ rw e (Pairwise-select xs h.1)
  ]

-- An update that leaves the columns `key` alone keeps what holds of them.
module _ {ℓ κ} {A K : Type ℓ} (key : A → K) (p : A → Bool) (f : A → A)
    (keep : (x : A) → key (f x) ≡ key x) where
  pub All-update_key :
      (P : K → Type κ) (xs : List A)
      → All (λ x. P (key x)) xs
      → All (λ x. P (key x)) (update p f xs)
  All-update_key P xs h = All-update (λ x. P (key x)) p f (λ x _ q. rw (keep x) q) xs h

  pub Pairwise-update_key :
      (R : K → K → Type κ) (xs : List A)
      → Pairwise (λ x y. R (key x) (key y)) xs
      → Pairwise (λ x y. R (key x) (key y)) (update p f xs)
  unfolding update
  Pairwise-update_key R [] h = tt
  Pairwise-update_key R (x ∷ xs) h = elim (Bool-cases (p x)) [
    | inl e ↦ rw (e, keep x) (All-update_key (R (key x)) xs h.0, Pairwise-update_key R xs h.1)
    | inr e ↦ rw e (All-update_key (R (key x)) xs h.0, Pairwise-update_key R xs h.1)
  ]

module _ {ℓ} {A : Type ℓ} (q p : A → Bool) where
  pub any-update :
      (f : A → A) → ((x : A) → q (f x) ≡ q x) → (xs : List A) → any q (update p f xs) ≡ any q xs
  unfolding update
  any-update f k [] = refl
  any-update f k (x ∷ xs) = ground (arith, any-update f k xs, k x)

  -- a deletion that removes no row with `q` leaves a row with `q` there
  pub any-select :
      (xs : List A)
      → any (λ x. not (p x) && q x) xs ≡ false
      → any q xs ≡ true
      → any q (select p xs) ≡ true
  unfolding select
  any-select [] h k = k
  any-select (x ∷ xs) h k = ground (arith, any-select xs)

module _ {ℓ} {A : Type ℓ} (q : A → Bool) where
  pub any-append : (xs ys : List A) → any q xs ≡ true → any q (xs ++ ys) ≡ true
  any-append [] ys h = absurd (ground arith)
  any-append (x ∷ xs) ys h = ground (arith, any-append xs ys)

  pub affected-zero : (xs : List A) → (affected q xs == 0) ≡ not (any q xs)
  unfolding affected
  affected-zero [] = refl
  affected-zero (x ∷ xs) = ground (arith, affected-zero xs)

module _ {ℓ} {A : Type ℓ} (p : A → Bool) where
  pub find-any : (xs : List A) → is_some (find p xs) ≡ any p xs
  unfolding find
  find-any [] = refl
  find-any (x ∷ xs) = ground (arith, find-any xs)

  pub find_holds : (xs : List A) (a : A) → find p xs ≡ some a → p a ≡ true
  unfolding find
  find_holds [] a h = absurd (ground arith)
  find_holds (x ∷ xs) a h = elim (Bool-cases (p x)) [
    | inl t ↦ subst (λ y. p y ≡ true) (ground arith) t
    | inr t ↦ find_holds xs a (ground arith)
  ]

  -- a bound of the largest of a column over the selected rows bounds it at each of them
  pub max_of-select :
      (f : A → ℕ) (n : ℕ) (xs : List A)
      → max_of f (select p xs) ≤ n
      → All (λ x. p x ≡ true → f x ≤ n) xs
  unfolding select
  max_of-select f n [] h = tt
  max_of-select f n (x ∷ xs) h = (λ k. ground arith, max_of-select f n xs (ground arith))
