-- ===== src/Prelude/Tables/Counting.antt =====
-- Sorting and cutting a table loses no row that fits.
use paur.Prelude.Lists.{length, take, any}
use paur.Prelude.Tests.{Bool-cases}
use paur.Prelude.Tables.{select, insert_desc, sort_desc_onto, sort_desc}
use Prim.Native.Nat.{ℕ, zero, suc, ◌+◌, ◌≤◌}
use mathlib.Core.Path.{◌≡◌, refl, ap}
use mathlib.Core.Logic.{inl, inr}
use mathlib.Core.Bool.{Bool, ◌||◌}
use mathlib.Core.List.{List, [], ◌∷◌}
use native.Mathlib.Omega.{arith}

module _ {ℓ} {A : Type ℓ} (key : A → ℕ) where
  any-insert_desc :
      (q : A → Bool) (x : A) (xs : List A) → any q (insert_desc key x xs) ≡ (q x || any q xs)
  unfolding insert_desc
  any-insert_desc q x [] = ground arith
  any-insert_desc q x (y ∷ ys) = ground (arith, any-insert_desc q x ys)

  any-sort_desc_onto :
      (q : A → Bool) (acc xs : List A) → any q (sort_desc_onto key acc xs) ≡ (any q acc || any q xs)
  unfolding sort_desc_onto
  any-sort_desc_onto q acc [] = ground arith
  any-sort_desc_onto q acc (x ∷ xs) =
      ground (arith, any-sort_desc_onto q (insert_desc key x acc) xs, any-insert_desc q x acc)

  pub any-sort_desc : (q : A → Bool) (xs : List A) → any q (sort_desc key xs) ≡ any q xs
  unfolding sort_desc
  any-sort_desc q xs = any-sort_desc_onto q [] xs

  length-insert_desc : (x : A) (xs : List A) → length (insert_desc key x xs) ≡ suc (length xs)
  unfolding insert_desc
  length-insert_desc x [] = refl
  length-insert_desc x (y ∷ ys) = ground (arith, length-insert_desc x ys)

  length-sort_desc_onto :
      (acc xs : List A) → length (sort_desc_onto key acc xs) ≡ length acc + length xs
  unfolding sort_desc_onto
  length-sort_desc_onto acc [] = omega arith
  length-sort_desc_onto acc (x ∷ xs) =
      let h = length-sort_desc_onto (insert_desc key x acc) xs in
      let k = length-insert_desc x acc in omega (arith, h, k)

  pub length-sort_desc : (xs : List A) → length (sort_desc key xs) ≡ length xs
  unfolding sort_desc
  length-sort_desc xs = let h = length-sort_desc_onto [] xs in omega (arith, h)

module _ {ℓ} {A : Type ℓ} where
  pub length-select_le : (p : A → Bool) (xs : List A) → length (select p xs) ≤ length xs
  unfolding select
  length-select_le p [] = omega arith
  length-select_le p (x ∷ xs) =
      let h = length-select_le p xs in
      elim (Bool-cases (p x)) [ inl e ↦ rw e (omega (arith, h)) | inr e ↦ rw e (omega (arith, h)) ]

  pub take-all : (n : ℕ) (xs : List A) → length xs ≤ n → take n xs ≡ xs
  take-all zero [] h = refl
  take-all zero (x ∷ xs) h = absurd (omega (arith, h))
  take-all (suc n) [] h = refl
  take-all (suc n) (x ∷ xs) h = ap (λ ys. x ∷ ys) (take-all n xs (omega (arith, h)))
