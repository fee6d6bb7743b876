-- ===== src/Prelude/Tables.antt =====
-- Tables as lists of rows: the relational operations that the SQL statements are made of.
pub mod Laws
pub mod Sorting
pub mod Counting
use Prim.Native.Nat.{ℕ, suc, ◌+◌}
use mathlib.Core.Path.{◌≡◌, refl}
use mathlib.Core.Logic.{◌⊎◌, inl, inr}
use mathlib.Core.Bool.{Bool, true, false, ◌&&◌, not}
use mathlib.Core.List.{List, [], ◌∷◌, ◌++◌, map}
use mathlib.Core.Option.{Option, none, some}
use native.Mathlib.Omega.{arith}
use paur.Prelude.Tests.{◌==◌, if◌then◌else◌, Bool-cases, is_some, leb}
use paur.Prelude.Lists.{All, Pairwise, length}

module _ {ℓ} {A : Type ℓ} where
  -- `SELECT … WHERE p`, the rows in table order
  unfoldable pub select : (A → Bool) → List A → List A
  select p [] = []
  select p (x ∷ xs) = let rest = select p xs in if p x then x ∷ rest else rest

  -- the first row with `p`
  unfoldable pub find : (A → Bool) → List A → Option A
  find p [] = none
  find p (x ∷ xs) = if p x then some x else find p xs

  -- `UPDATE … SET f WHERE p`
  unfoldable pub update : (A → Bool) → (A → A) → List A → List A
  update p f [] = []
  update p f (x ∷ xs) = (if p x then f x else x) ∷ update p f xs

  -- `DELETE … WHERE p`
  unfoldable pub delete : (A → Bool) → List A → List A
  unfolding select
  delete p = select (λ x. not (p x))

  -- `rows_affected` of a statement with the condition `p`
  unfoldable pub affected : (A → Bool) → List A → ℕ
  affected p [] = 0
  affected p (x ∷ xs) = let rest = affected p xs in if p x then suc rest else rest

  -- `ORDER BY key DESC, rowid DESC` on a table in rowid order: each row goes before the rows that are
  -- not larger
  unfoldable pub insert_desc : (A → ℕ) → A → List A → List A
  insert_desc key x [] = x ∷ []
  insert_desc key x (y ∷ ys) =
      let rest = insert_desc key x ys in if leb (key y) (key x) then x ∷ y ∷ ys else y ∷ rest

  unfoldable pub sort_desc_onto : (A → ℕ) → List A → List A → List A
  unfolding insert_desc
  sort_desc_onto key sorted [] = sorted
  sort_desc_onto key sorted (x ∷ xs) = sort_desc_onto key (insert_desc key x sorted) xs

  unfoldable pub sort_desc : (A → ℕ) → List A → List A
  unfolding sort_desc_onto
  sort_desc key xs = sort_desc_onto key [] xs

  -- `ORDER BY key ASC`: a row goes before the later rows that are not smaller
  unfoldable pub insert_asc : (A → ℕ) → A → List A → List A
  insert_asc key x [] = x ∷ []
  insert_asc key x (y ∷ ys) =
      let rest = insert_asc key x ys in if leb (key x) (key y) then x ∷ y ∷ ys else y ∷ rest

  unfoldable pub sort_asc : (A → ℕ) → List A → List A
  unfolding insert_asc
  sort_asc key [] = []
  sort_asc key (x ∷ xs) = insert_asc key x (sort_asc key xs)

  -- `ORDER BY key ASC, rowid ASC LIMIT 1` on a table in rowid order
  abbrev earlier : (A → ℕ) → A → Option A → A
  earlier key x none = x
  earlier key x (some y) = if leb (key x) (key y) then x else y

  unfoldable pub min_by : (A → ℕ) → List A → Option A
  min_by key [] = none
  min_by key (x ∷ xs) = some (earlier key x (min_by key xs))
