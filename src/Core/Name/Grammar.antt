-- ===== src/Core/Name/Grammar.antt =====
-- What `PkgName::new` of crates/paur-core/src/name.rs accepts.
use paur.Prelude.{
  ℕ, ◌≤◌, ◌≡◌, refl, true, false, ◌&&◌, ◌||◌, ◌≢◌, [], ◌∷◌, arith, leb, any, all, length, All,
  Bool-cases, head?, some, inl, inr, if◌then◌else◌,
}
use paur.Prelude.Text.{Text, text_len, char_len, is_whitespace, is_control, trim, trim_by-fix}
use paur.Prelude.Results.{ok, err, invalid_name}
use paur.Core.Name.{PkgName, max_len, is_first_char, is_name_char, is_match, check_name, new}

name_char-plain :
    (c : ℕ) → is_name_char c ≡ true → (is_whitespace c ≡ false) × (is_control c ≡ false)
unfolding is_name_char is_whitespace is_control
name_char-plain c h = (ground arith, ground arith)

name_char-not_slash : (c : ℕ) → is_name_char c ≡ true → (c ≢ b'/') × (char_len c ≡ 1)
unfolding is_name_char char_len
name_char-not_slash c h = (ground arith, ground arith)

first_char-name_char : (c : ℕ) → is_first_char c ≡ true → is_name_char c ≡ true
unfolding is_name_char is_first_char
first_char-name_char c h = ground arith

All-of-all : (s : Text) → all is_name_char s ≡ true → All (λ c. is_name_char c ≡ true) s
All-of-all [] h = tt
All-of-all (c ∷ s) h = (ground arith, All-of-all s (ground arith))

-- Every character of a text that the grammar matches is a name character.
pub match-All : (s : Text) → is_match s ≡ true → All (λ c. is_name_char c ≡ true) s
unfolding is_match
match-All [] h = tt
match-All (c ∷ s) h = (first_char-name_char c (ground arith), All-of-all s (ground arith))

All-plain : (s : Text) → All (λ c. is_name_char c ≡ true) s → All (λ c. is_whitespace c ≡ false) s
All-plain [] h = tt
All-plain (c ∷ s) h = ((name_char-plain c h.0).0, All-plain s h.1)

any-plain :
    (s : Text)
    → All (λ c. is_name_char c ≡ true) s
    → any (λ c. is_whitespace c || is_control c) s ≡ false
any-plain [] h = refl
any-plain (c ∷ s) h = ground (arith, name_char-plain c h.0, any-plain s h.1)

text_len-name : (s : Text) → All (λ c. is_name_char c ≡ true) s → text_len s ≡ length s
unfolding text_len
text_len-name [] h = refl
text_len-name (c ∷ s) h = omega (arith, (name_char-not_slash c h.0).1, text_len-name s h.1)

check_name-eq :
    (s : Text)
    → check_name s ≡ (
        if is_match s && leb (text_len s) max_len
        then ok (record { as_str = s })
        else err invalid_name)
unfolding check_name
check_name-eq [] = unfold is_match in refl
check_name-eq (c ∷ s) = elim (Bool-cases (is_match (c ∷ s))) [
  | inl m ↦ ground (arith, any-plain (c ∷ s) (match-All (c ∷ s) m))
  | inr m ↦ ground arith
]

-- `new` accepts a text exactly when, trimmed, it matches `[a-z0-9][a-z0-9._+-]*` and has at most 64
-- bytes; the name is then the trimmed text. Any other text is refused with `InvalidName`: the
-- tests for an empty text and for whitespace and control characters refuse nothing more.
pub new-eq :
    (s : Text)
    → new s ≡ (
        if is_match (trim s) && leb (text_len (trim s)) max_len
        then ok (record { as_str = trim s })
        else err invalid_name)
unfolding new
new-eq s = check_name-eq (trim s)

-- What is known of an accepted name.
pub record IsName (t : Text) : Type 0 where
  pub matches : is_match t ≡ true
  pub fits : text_len t ≤ max_len

pub new-IsName : (s : Text) (n : PkgName) → new s ≡ ok n → IsName n.as_str
new-IsName s n h = ground (arith, new-eq s)

-- Validation is idempotent: the text of an accepted name is accepted, as the same name. This is the
-- round trip of `Serialize` and `Deserialize`, of `Display` and `FromStr`.
pub new-as_str : (s : Text) (n : PkgName) → new s ≡ ok n → new n.as_str ≡ ok n
unfolding trim
new-as_str s n h =
    let v = new-IsName s n h in
    let fixed : trim n.as_str ≡ n.as_str =
      trim_by-fix is_whitespace n.as_str (All-plain n.as_str (match-All n.as_str v.matches)) in
    ground (arith, new-eq n.as_str, fixed, v.matches, v.fits)

-- No character of a text is a slash.
abbrev pub NoSlash : Text → Type 0
NoSlash s = All (λ c. c ≢ b'/') s

not_slash-of_name : (s : Text) → All (λ c. is_name_char c ≡ true) s → NoSlash s
not_slash-of_name [] h = tt
not_slash-of_name (c ∷ s) h = ((name_char-not_slash c h.0).0, not_slash-of_name s h.1)

-- An accepted name has from 1 to 64 characters, none of them a slash, and starts neither with a dot
-- nor with a dash: it is one path segment, neither `.` nor `..`, and is no command line option.
pub new-path_safe :
    (s : Text) (n : PkgName)
    → new s ≡ ok n
    → NoSlash n.as_str
      × (1 ≤ length n.as_str)
      × (length n.as_str ≤ max_len)
      × (head? n.as_str ≢ some b'.')
      × (head? n.as_str ≢ some b'-')
unfolding is_match is_first_char
new-path_safe s n h =
    let v = new-IsName s n h in
    let named = match-All n.as_str v.matches in
    path_safe n.as_str v.matches (omega (arith, v.fits, text_len-name n.as_str named)) named
  where
    path_safe :
        (t : Text)
        → is_match t ≡ true
        → length t ≤ max_len
        → All (λ c. is_name_char c ≡ true) t
        → NoSlash t
          × (1 ≤ length t)
          × (length t ≤ max_len)
          × (head? t ≢ some b'.')
          × (head? t ≢ some b'-')
    path_safe [] m b named = absurd (ground arith)
    path_safe (c ∷ t) m b named =
        (not_slash-of_name (c ∷ t) named, omega arith, b, ground arith, ground arith)
