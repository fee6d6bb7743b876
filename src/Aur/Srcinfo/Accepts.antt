-- ===== src/Aur/Srcinfo/Accepts.antt =====
-- Which texts the parser of crates/paur-aur/src/srcinfo.rs accepts, and what a `#` does to a line.
use paur.Prelude.{
  ℕ, suc, ◌≡◌, refl, Bool, true, ◌||◌, Option, none, some, List, [], ◌∷◌, ◌++◌, ◌==◌, arith, any,
  is_some, is_empty, if◌then◌else◌, Option-cases, inl, inr, ◌⊎◌,
}
use paur.Prelude.Text.{Text, codes, trim}
use paur.Prelude.Splitting.{before, split_once, strip_prefix, strip_suffix_char, split_at, lines}
use paur.Aur.Srcinfo.{
  Parser, no_parser, ParseError, parse_error, Parsed, parsed, refused, array_parts, parse_line,
  parse_lines, parse,
}

abbrev pub error_of {ℓ} : {A : Type ℓ} → Parsed A → Option ParseError
error_of (parsed a) = none
error_of (refused e) = some e

abbrev has_equals : Text → Bool
has_equals line = any (λ c. c == b'=') line

-- A line that is blank in front of its comment, or has a `=` there.
abbrev pub is_good : Text → Bool
is_good raw = let line = trim (before b'#' raw) in is_empty line || has_equals line

-- The first other line, with its number from 1.
pub first_bad : ℕ → List Text → Option ParseError
first_bad lineno [] = none
first_bad lineno (raw ∷ rest) =
    let later = first_bad (suc lineno) rest in
    if is_good raw then later else some (parse_error (suc lineno) raw)

split_once-any : (c : ℕ) (s : Text) → is_some (split_once c s) ≡ any (λ x. x == c) s
unfolding split_once
split_once-any c [] = refl
split_once-any c (x ∷ s) = ground (arith, split_once-any c s)

split_at-equals : (p s : Text) → is_some (split_at (b'=' ∷ p) s) ≡ true → has_equals s ≡ true
unfolding split_at strip_prefix
split_at-equals p [] h = absurd (ground arith)
split_at-equals p (x ∷ s) h = ground (arith, split_at-equals p s)

strip_suffix-equals :
    (c : ℕ) (s r : Text)
    → strip_suffix_char c s ≡ some r
    → has_equals r ≡ true
    → has_equals s ≡ true
unfolding strip_suffix_char
strip_suffix-equals c [] r h k = absurd (ground arith)
strip_suffix-equals c (x ∷ []) r h k = absurd (ground arith)
strip_suffix-equals c (x ∷ y ∷ s) r h k = elim (Option-cases (strip_suffix_char c (y ∷ s))) [
  | inl e ↦ absurd (ground arith)
  | inr (t, e) ↦ ground (arith, strip_suffix-equals c (y ∷ s) t e)
]

-- A line in the array form has a `=` too.
array_parts-equals : (line : Text) → is_some (array_parts line) ≡ true → has_equals line ≡ true
array_parts-equals line h = elim (Option-cases (strip_suffix_char b')' line)) [
  | inl e ↦ absurd (ground arith)
  | inr (r, e) ↦
      strip_suffix-equals b')' line r e (split_at-equals (codes " (") r (ground (arith, e)))
]

-- One line is refused exactly if it is not good, whatever was parsed before.
parse_line-good :
    (n : ℕ) (raw : Text) (p : Parser)
    → error_of (parse_line n raw p) ≡ (if is_good raw then none else some (parse_error (suc n) raw))
unfolding parse_line
parse_line-good n raw p =
    let line = trim (before b'#' raw) in
    ground (arith, array_parts-equals line, split_once-any b'=' line)

Parsed-cases :
    (r : Parsed Parser) → ((q : Parser) × (r ≡ parsed q)) ⊎ ((e : ParseError) × (r ≡ refused e))
Parsed-cases (parsed q) = inl (q, refl)
Parsed-cases (refused e) = inr (e, refl)

parse_lines-first_bad :
    (n : ℕ) (ls : List Text) (p : Parser) → error_of (parse_lines n ls p) ≡ first_bad n ls
unfolding parse_lines first_bad
parse_lines-first_bad n [] p = refl
parse_lines-first_bad n (raw ∷ ls) p = elim (Parsed-cases (parse_line n raw p)) [
  | inl (q, e) ↦ ground (arith, e, parse_line-good n raw p, parse_lines-first_bad (suc n) ls q)
  | inr (x, e) ↦ ground (arith, e, parse_line-good n raw p)
]

-- The parser refuses a text exactly if a line of it is neither blank nor a comment and has no `=` in
-- front of the first `#`; the error names the first such line and its number, counted from 1.
pub parse-first_bad : (input : Text) → error_of (parse input) ≡ first_bad 0 (lines input)
unfolding parse
parse-first_bad input = elim (Parsed-cases (parse_lines 0 (lines input) no_parser)) [
  | inl (q, e) ↦ ground (arith, e, parse_lines-first_bad 0 (lines input) no_parser)
  | inr (x, e) ↦ ground (arith, e, parse_lines-first_bad 0 (lines input) no_parser)
]

before-append : (c : ℕ) (a b : Text) → before c (a ++ c ∷ b) ≡ before c a
unfolding before
before-append c [] b = ground arith
before-append c (x ∷ a) b = ground (arith, before-append c a b)

-- Whatever follows a `#` is dropped, also inside a value: of a source such as
-- `name::git+https://host/repo#commit=abc` the parser keeps what stands in front of the `#`, and the
-- pinned revision is lost.
pub parse_line-fragment :
    (n : ℕ) (a fragment : Text) (p q : Parser)
    → parse_line n a p ≡ parsed q
    → parse_line n (a ++ b'#' ∷ fragment) p ≡ parsed q
unfolding parse_line
parse_line-fragment n a fragment p q h = ground (arith, before-append b'#' a fragment)
