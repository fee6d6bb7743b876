-- ===== src/Core/Name.antt =====
-- crates/paur-core/src/name.rs: the validated package name.
pub mod Grammar
use paur.Prelude.{
  ℕ, ◌+◌, ◌≤◌, ◌≡◌, refl, Bool, true, false, ◌&&◌, ◌||◌, ◌≢◌, ◌⊎◌, List, [], ◌∷◌, arith, ==_iff,
  ltb, leb, ◌==◌, if◌then◌else◌, any, all, is_empty, All,
}
use paur.Prelude.Text.{
  Text, text_len, char_len, is_whitespace, is_control, trim, trim_by, trim_start_by, trim_end_by,
  trim_by-fix, text_eq,
}
use paur.Prelude.Results.{Error, Result, ok, err, invalid_name}

abbrev pub max_len : ℕ
max_len = 64

-- `[a-z0-9]` and `[a-z0-9._+-]`
unfoldable pub is_first_char : ℕ → Bool
is_first_char c = leb b'a' c && leb c b'z' || leb b'0' c && leb c b'9'

unfoldable pub is_name_char : ℕ → Bool
unfolding is_first_char
is_name_char c = is_first_char c || c == b'.' || c == b'_' || c == b'+' || c == b'-'

-- `Regex::new(r"^[a-z0-9][a-z0-9._+-]*$")`, `is_match`
unfoldable pub is_match : Text → Bool
unfolding is_first_char is_name_char
is_match [] = false
is_match (c ∷ s) = is_first_char c && all is_name_char s

pub record PkgName : Type 0 where
  pub as_str : Text

-- the checks of `PkgName::new`, on the trimmed text
check_name : Text → Result PkgName
check_name s =
    if is_empty s
    then err invalid_name
    else if ltb max_len (text_len s)
    then err invalid_name
    else if any (λ c. is_whitespace c || is_control c) s
    then err invalid_name
    else if is_match s
    then ok (record { as_str = s })
    else err invalid_name

unfoldable pub new : Text → Result PkgName
unfolding check_name
new s = check_name (trim s)
