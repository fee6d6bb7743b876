-- ===== src/Core/Auth.antt =====
-- crates/paur-core/src/auth.rs: the hashes of passwords and of session tokens.
use paur.Prelude.{ℕ, Bool, false, Option, List, is_empty, if◌then◌else◌}
use paur.Prelude.Text.{Text}
use paur.Prelude.Results.{Result, ok, other, ok_or}

-- The crates `sha2`, `bcrypt` and `hex`, of which the daemon uses these functions.
pub record Crypto : Type 0 where
  pub digest : List ℕ → List ℕ
  pub bcrypt_verify : Text → Text → Option Bool
  pub hex_encode : List ℕ → Text
  pub hex_decode : Text → Option (List ℕ)

unfoldable pub hash_session_token : Crypto → List ℕ → Text
hash_session_token c token = c.hex_encode (c.digest token)

unfoldable pub verify_password : Crypto → Text → Text → Result Bool
verify_password c plain stored_hash =
    if is_empty stored_hash then ok false else ok_or (c.bcrypt_verify plain stored_hash) other
