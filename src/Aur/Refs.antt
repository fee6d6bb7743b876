-- ===== src/Aur/Refs.antt =====
-- crates/paur-aur/src/lib.rs: the URL of a package, and the hash that `git ls-remote` prints.
use paur.Prelude.{
  ℕ, Bool, true, ◌&&◌, ◌||◌, Option, none, some, ◌++◌, ◌==◌, leb, all, head?, if◌then◌else◌, ◌≡◌,
  arith, not,
}
use paur.Prelude.Text.{Text, codes, text_len}
use paur.Prelude.Splitting.{split_whitespace}
use paur.Prelude.Results.{Result, ok, err, aur}
use paur.Core.Name.{PkgName}

abbrev pub aur_base : Text
aur_base = codes "https://aur.archlinux.org"

unfoldable pub aur_url : PkgName → Text
aur_url pkg = aur_base ++ codes "/" ++ pkg.as_str ++ codes ".git"

-- `is_ascii_hexdigit`
unfoldable pub is_hex : ℕ → Bool
is_hex c = leb b'0' c && leb c b'9' || leb b'a' c && leb c b'f' || leb b'A' c && leb c b'F'

check_hash : Option Text → Result Text
unfolding is_hex
check_hash none = err aur
check_hash (some hash) =
    if not (text_len hash == 40) || not (all is_hex hash) then err aur else ok hash

-- `latest_ref`, from what the `git` process gives: `none` if it cannot be started or fails, or else
-- its standard output.
unfoldable pub latest_ref : Option Text → Result Text
unfolding check_hash split_whitespace
latest_ref none = err aur
latest_ref (some out) = check_hash (head? (split_whitespace out))

-- A ref that `latest_ref` accepts has 40 bytes, all of them hexadecimal digits.
pub latest_ref-hash :
    (out : Option Text) (hash : Text)
    → latest_ref out ≡ ok hash
    → (text_len hash ≡ 40) × (all is_hex hash ≡ true)
unfolding latest_ref
latest_ref-hash none hash h = absurd (ground arith)
latest_ref-hash (some out) hash h = ground arith
