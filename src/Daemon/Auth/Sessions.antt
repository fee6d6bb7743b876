-- ===== src/Daemon/Auth/Sessions.antt =====
-- The life of a session of crates/paur-daemon/src/auth.rs, from the login to the logout.
use paur.Prelude.{
  ℕ, ◌+◌, ◌≡◌, refl, ◌∙◌, ap, Bool, true, false, not, ◌&&◌, Option, none, some, List, [], ◌∷◌, ◌++◌,
  arith, is_empty, is_some, unwrap_or, if◌then◌else◌, ltb, any, inl, inr, Bool-cases, Option-cases,
}
use paur.Prelude.Text.{Text, text_eq, text_eq_refl}
use paur.Prelude.Tables.{find, delete, select}
use paur.Prelude.Results.{ok, Result-cases}
use paur.Db.Models.{Db, Session}
use paur.Db.Sessions.{hashed, create_session, lookup_session, delete_session, user_of}
use paur.Core.Auth.{Crypto, hash_session_token}
use paur.Daemon.Auth.{
  granted, login, create, after_verify, logout, end_session, session_user, user_of_token, admin,
  session_ttl_secs,
}

-- No row with the hash, none that is found.
find-none :
    (h : Text) (now : ℕ) (ss : List Session) (row : Session)
    → any (hashed h) ss ≡ false
    → find (λ s. hashed h s && ltb now s.expires_at) (ss ++ row ∷ [])
      ≡ (if hashed h row && ltb now row.expires_at then some row else none)
unfolding find
find-none h now [] row e = refl
find-none h now (s ∷ ss) row e = ground (arith, find-none h now ss row)

-- A created session is found until it expires.
lookup-create :
    (now later until : ℕ) (h user : Text) (d e : Db)
    → create_session now h user until d ≡ ok e
    → lookup_session later h e ≡ (if ltb later until then some user else none)
unfolding create_session lookup_session
lookup-create now later until h user d e done = elim (Bool-cases (any (hashed h) d.sessions)) [
  | inl there ↦ absurd (ground arith)
  | inr absent ↦
      let row : Session = record {
        token_hash = h;
        created_at = now;
        expires_at = until;
        user = user;
      } in
      let found = find-none h later d.sessions row absent in ground (arith, found, text_eq_refl h)
]

find-deleted :
    (h : Text) (now : ℕ) (ss : List Session)
    → find (λ s. hashed h s && ltb now s.expires_at) (delete (hashed h) ss) ≡ none
unfolding find delete select
find-deleted h now [] = refl
find-deleted h now (s ∷ ss) = ground (arith, find-deleted h now ss)

lookup-delete : (h : Text) (later : ℕ) (d : Db) → lookup_session later h (delete_session h d) ≡ none
unfolding lookup_session delete_session
lookup-delete h later d = ap user_of (find-deleted h later d.sessions)

create-granted :
    (c : Crypto) (now later : ℕ) (token : List ℕ) (cookie : Text) (d e : Db)
    → create c now token d ≡ granted (e, cookie)
    → (cookie ≡ c.hex_encode token)
      × (lookup_session later (hash_session_token c token) e
          ≡ (if ltb later (now + session_ttl_secs) then some admin else none))
unfolding create
create-granted c now later token cookie d e h =
    elim (Result-cases
      (create_session now (hash_session_token c token) admin (now + session_ttl_secs) d)) [
        | inr (x, bad) ↦ absurd (ground arith)
        | inl (x, good) ↦ (
          ground arith,
          ground (
            arith,
            lookup-create now later (now + session_ttl_secs) (hash_session_token c token) admin d x
                good,
          ),
        )
      ]

login-created :
    (c : Crypto) (now : ℕ) (token : List ℕ) (username password cookie : Text) (d e : Db)
    → login c now token username password d ≡ granted (e, cookie)
    → (username ≡ admin) × (create c now token d ≡ granted (e, cookie))
unfolding login after_verify
login-created c now token username password cookie d e h =
    (paur.Prelude.Text.eq_of_text_eq username admin (ground arith), ground arith)

-- Where the cookie holds the token in a form that can be read back, a successful login is one of the
-- admin, and the cookie that it gives out is a session of the admin for a day, to the second, and of
-- nobody after that.
pub login-session_user :
    (c : Crypto) (now later : ℕ) (token : List ℕ) (username password cookie : Text) (d e : Db)
    → c.hex_decode (c.hex_encode token) ≡ some token
    → login c now token username password d ≡ granted (e, cookie)
    → (username ≡ admin)
      × (session_user c later (some cookie) e
          ≡ (if ltb later (now + 86400) then some admin else none))
unfolding session_user user_of_token
login-session_user c now later token username password cookie d e back h =
    let (who, created) = login-created c now token username password cookie d e h in
    let (same, found) = create-granted c now later token cookie d e created in
    (who, rw (same, back) found)

-- After a logout its cookie is a session of nobody, at any time.
pub session_user-logout :
    (c : Crypto) (later : ℕ) (cookie : Option Text) (d : Db)
    → session_user c later cookie (logout c cookie d) ≡ none
unfolding session_user user_of_token logout end_session
session_user-logout c later none d = refl
session_user-logout c later (some cookie) d = elim (Option-cases (c.hex_decode cookie)) [
  | inl bad ↦ rw bad refl
  | inr (token, good) ↦ rw good (lookup-delete (hash_session_token c token) later d)
]
