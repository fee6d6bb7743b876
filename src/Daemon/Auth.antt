-- ===== src/Daemon/Auth.antt =====
-- crates/paur-daemon/src/auth.rs: logging in and out, and the `Admin` extractor that guards the
-- routes that change something.
pub mod Sessions
pub mod Gate
use paur.Prelude.{
  ℕ, ◌+◌, ◌*◌, ◌==◌, Bool, true, false, not, ◌&&◌, Option, none, some, List, [], ◌∷◌, if◌then◌else◌,
  is_empty, is_some, unwrap_or,
}
use paur.Prelude.Text.{Text, codes, text_eq}
use paur.Prelude.Results.{Error, Result, ok, err}
use paur.Core.Auth.{Crypto, hash_session_token, verify_password}
use paur.Db.Models.{Db}
use paur.Db.Settings.{get_setting}
use paur.Db.Sessions.{create_session, lookup_session, delete_session}

abbrev pub session_ttl_secs : ℕ
session_ttl_secs = 24 * 60 * 60

abbrev pub setting_password_hash : Text
setting_password_hash = codes "admin_password_hash"

abbrev pub admin : Text
admin = codes "admin"

-- `AuthHttpError`
pub data AuthHttpError : Type 0 where
  invalid_credentials password_not_set unauthenticated : AuthHttpError
  internal : Error → AuthHttpError

pub auth_status : AuthHttpError → ℕ
auth_status invalid_credentials = 401
auth_status password_not_set = 503
auth_status unauthenticated = 401
auth_status (internal e) = 500

pub data AuthResult {ℓ} (A : Type ℓ) : Type ℓ where
  granted : A → AuthResult A
  denied : AuthHttpError → AuthResult A

-- `new_session_token` is the argument `token`. The answer is the value of the cookie.
unfoldable pub create : Crypto → ℕ → List ℕ → Db → AuthResult (Db × Text)
unfolding create_session hash_session_token
create c now token d =
    elim (create_session now (hash_session_token c token) admin (now + session_ttl_secs) d) [
      | err e ↦ denied (internal e)
      | ok e ↦ granted (e, c.hex_encode token)
    ]

unfoldable pub after_verify : Crypto → ℕ → List ℕ → Db → Result Bool → AuthResult (Db × Text)
unfolding create
after_verify c now token d (err e) = denied (internal e)
after_verify c now token d (ok false) = denied invalid_credentials
after_verify c now token d (ok true) = create c now token d

unfoldable pub login : Crypto → ℕ → List ℕ → Text → Text → Db → AuthResult (Db × Text)
unfolding after_verify get_setting verify_password
login c now token username password d =
    let stored = unwrap_or (get_setting setting_password_hash d) [] in
    if not (text_eq username admin)
    then denied invalid_credentials
    else if is_empty stored
    then denied password_not_set
    else after_verify c now token d (verify_password c password stored)

unfoldable pub end_session : Crypto → Option (List ℕ) → Db → Db
unfolding delete_session hash_session_token
end_session c none d = d
end_session c (some bytes) d = delete_session (hash_session_token c bytes) d

-- The argument is the value of the session cookie, if the request has one.
unfoldable pub logout : Crypto → Option Text → Db → Db
unfolding end_session
logout c none d = d
logout c (some cookie) d = end_session c (c.hex_decode cookie) d

unfoldable pub user_of_token : Crypto → ℕ → Option (List ℕ) → Db → Option Text
unfolding lookup_session hash_session_token
user_of_token c now none d = none
user_of_token c now (some bytes) d = lookup_session now (hash_session_token c bytes) d

unfoldable pub session_user : Crypto → ℕ → Option Text → Db → Option Text
unfolding user_of_token
session_user c now none d = none
session_user c now (some cookie) d = user_of_token c now (c.hex_decode cookie) d

-- `(authenticated, password_set)`
unfoldable pub status : Crypto → ℕ → Option Text → Db → Bool × Bool
unfolding session_user get_setting
status c now cookie d = (
  is_some (session_user c now cookie d),
  not (is_empty (unwrap_or (get_setting setting_password_hash d) [])),
)

-- The address of the peer; none if the request does not carry one. An IPv6 address is its number.
pub data IpAddr : Type 0 where
  v4 : ℕ → ℕ → ℕ → ℕ → IpAddr
  v6 : ℕ → IpAddr

pub is_loopback : Option IpAddr → Bool
is_loopback none = false
is_loopback (some (v4 a b c d)) = a == 127 && b == 0 && c == 0 && d == 1
is_loopback (some (v6 n)) = n == 1

pub require_user : Option Text → AuthResult (Unit {0})
require_user none = denied unauthenticated
require_user (some user) = granted tt

-- `from_request_parts`
unfoldable pub admit : Crypto → ℕ → Option IpAddr → Option Text → Db → AuthResult (Unit {0})
unfolding is_loopback session_user require_user get_setting
admit c now peer cookie d =
    if is_loopback peer
    then granted tt
    else if is_empty (unwrap_or (get_setting setting_password_hash d) [])
    then denied password_not_set
    else require_user (session_user c now cookie d)
