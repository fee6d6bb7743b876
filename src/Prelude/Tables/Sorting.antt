-- ===== src/Prelude/Tables/Sorting.antt =====
-- What sorting a table keeps.
use mathlib.Core.Path.{◌≡◌, refl}
use mathlib.Core.Logic.{inl, inr}
use mathlib.Core.List.{List, [], ◌∷◌, ◌++◌}
use Prim.Native.Nat.{ℕ, ◌≤◌}
use native.Mathlib.Omega.{arith}
use paur.Prelude.Tests.{Bool-cases, leb}
use paur.Prelude.Lists.{All}
use paur.Prelude.Tables.{insert_asc, sort_asc, insert_desc, sort_desc_onto, sort_desc}

module _ {ℓ} {A : Type ℓ} (key : A → ℕ) where
  insert_asc-append :
      (x y : A) (xs : List A)
      → key x ≤ key y
      → insert_asc key x (xs ++ y ∷ []) ≡ insert_asc key x xs ++ y ∷ []
  unfolding insert_asc
  insert_asc-append x y [] h = ground arith
  insert_asc-append x y (z ∷ xs) h = ground (arith, insert_asc-append x y xs h)

  -- A row with the largest key that is appended to the table comes last.
  pub sort_asc-append_max :
      (xs : List A) (y : A)
      → All (λ x. key x ≤ key y) xs
      → sort_asc key (xs ++ y ∷ []) ≡ sort_asc key xs ++ y ∷ []
  unfolding sort_asc
  sort_asc-append_max [] y h = unfold insert_asc in refl
  sort_asc-append_max (x ∷ xs) y h =
      rw (sort_asc-append_max xs y h.1) (insert_asc-append x y (sort_asc key xs) h.0)

  module _ {κ} (P : A → Type κ) where
    All-insert_desc : (x : A) (xs : List A) → P x → All P xs → All P (insert_desc key x xs)
    unfolding insert_desc
    All-insert_desc x [] p h = (p, tt)
    All-insert_desc x (y ∷ ys) p h = elim (Bool-cases (leb (key y) (key x))) [
      | inl e ↦ rw e (p, h)
      | inr e ↦ rw e (h.0, All-insert_desc x ys p h.1)
    ]

    All-sort_desc_onto :
        (acc xs : List A) → All P acc → All P xs → All P (sort_desc_onto key acc xs)
    unfolding sort_desc_onto
    All-sort_desc_onto acc [] a h = a
    All-sort_desc_onto acc (x ∷ xs) a h =
        All-sort_desc_onto (insert_desc key x acc) xs (All-insert_desc x acc h.0 a) h.1

    pub All-sort_desc : (xs : List A) → All P xs → All P (sort_desc key xs)
    unfolding sort_desc
    All-sort_desc xs h = All-sort_desc_onto [] xs tt h
