-- ===== src/Prelude/Splitting.antt =====
-- The splitting and searching functions of Rust's `str` that the program calls.
use Prim.Native.Nat.{ℕ}
use mathlib.Core.Bool.{Bool, true, false}
use mathlib.Core.List.{List, [], ◌∷◌}
use mathlib.Core.Option.{Option, none, some}
use paur.Prelude.Tests.{◌==◌, if◌then◌else◌}
use paur.Prelude.Text.{Text, is_whitespace}

-- the text in front of the first `c`, or all of it: `split(c).next()`
unfoldable pub before : ℕ → Text → Text
before c [] = []
before c (x ∷ s) = let rest = before c s in if x == c then [] else x ∷ rest

abbrev pub cons_left : ℕ → Option (Text × Text) → Option (Text × Text)
cons_left x none = none
cons_left x (some (a, b)) = some (x ∷ a, b)

-- `split_once(c)`
unfoldable pub split_once : ℕ → Text → Option (Text × Text)
split_once c [] = none
split_once c (x ∷ s) =
    let rest = split_once c s in if x == c then some ([], s) else cons_left x rest

-- `strip_prefix`
unfoldable pub strip_prefix : Text → Text → Option Text
strip_prefix [] s = some s
strip_prefix (c ∷ p) [] = none
strip_prefix (c ∷ p) (x ∷ s) = let rest = strip_prefix p s in if x == c then rest else none

abbrev pub cons_some : ℕ → Option Text → Option Text
cons_some x none = none
cons_some x (some r) = some (x ∷ r)

-- `strip_suffix(c)` of one character
unfoldable pub strip_suffix_char : ℕ → Text → Option Text
strip_suffix_char c [] = none
strip_suffix_char c (x ∷ []) = if x == c then some [] else none
strip_suffix_char c (x ∷ y ∷ s) = cons_some x (strip_suffix_char c (y ∷ s))

abbrev pub split_here : ℕ → Option Text → Option (Text × Text) → Option (Text × Text)
split_here x (some after) rest = some ([], after)
split_here x none rest = cons_left x rest

-- The texts in front of and behind the first occurrence of a non-empty pattern: `find` and the two
-- slices at its index.
unfoldable pub split_at : Text → Text → Option (Text × Text)
unfolding strip_prefix
split_at p [] = none
split_at p (x ∷ s) = let rest = split_at p s in split_here x (strip_prefix p (x ∷ s)) rest

-- `contains(pat)` of a non-empty pattern
unfoldable pub contains : Text → Text → Bool
unfolding strip_prefix
contains p [] = false
contains p (x ∷ s) = elim (strip_prefix p (x ∷ s)) [ none ↦ contains p s | some r ↦ true ]

abbrev flush : Text → List Text → List Text
flush [] words = words
flush (c ∷ w) words = (c ∷ w) ∷ words

abbrev pub cons_word : ℕ → List Text → List Text
cons_word x [] = (x ∷ []) ∷ []
cons_word x (w ∷ ws) = (x ∷ w) ∷ ws

-- The pieces between the characters that pass the test, empty ones among them.
unfoldable pub pieces : (ℕ → Bool) → Text → List Text
pieces p [] = [] ∷ []
pieces p (x ∷ s) = let rest = pieces p s in if p x then [] ∷ rest else cons_word x rest

unfoldable pub drop_empty : List Text → List Text
drop_empty [] = []
drop_empty (w ∷ ws) = flush w (drop_empty ws)

-- `split_whitespace`
unfoldable pub split_whitespace : Text → List Text
unfolding pieces drop_empty is_whitespace
split_whitespace s = drop_empty (pieces is_whitespace s)

unfoldable pub strip_cr : Text → Text
unfolding strip_suffix_char
strip_cr s = elim (strip_suffix_char 13 s) [ none ↦ s | some r ↦ r ]

-- A line that ends in a newline loses a carriage return in front of it; the last piece, behind the last
-- newline, is a line as it is, or none if it is empty.
unfoldable pub strip_ends : List Text → List Text
unfolding strip_cr
strip_ends [] = []
strip_ends (w ∷ []) = flush w []
strip_ends (w ∷ v ∷ ws) = strip_cr w ∷ strip_ends (v ∷ ws)

-- `str::lines`
unfoldable pub lines : Text → List Text
unfolding pieces strip_ends
lines s = strip_ends (pieces (λ c. c == 10) s)
