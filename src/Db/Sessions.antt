-- ===== src/Db/Sessions.antt =====
-- The statements on `sessions` of crates/paur-db/src/queries.rs.
pub mod Laws
use paur.Prelude.{ℕ, Bool, ◌&&◌, Option, none, some, [], ◌∷◌, ◌++◌, ltb, leb, if◌then◌else◌, any}
use paur.Prelude.Tables.{find, delete, affected}
use paur.Prelude.Text.{Text, text_eq}
use paur.Prelude.Results.{Result, ok, err, db}
use paur.Db.Models.{Db, Session}

abbrev pub hashed : Text → Session → Bool
hashed token_hash s = text_eq s.token_hash token_hash

-- The insertion violates the primary key if the hash is there.
unfoldable pub create_session : ℕ → Text → Text → ℕ → Db → Result Db
create_session now token_hash user expires_at d =
    let row : Session = record {
      token_hash = token_hash;
      created_at = now;
      expires_at = expires_at;
      user = user;
    } in
    if any (hashed token_hash) d.sessions
    then err db
    else ok (record d { sessions = d.sessions ++ row ∷ [] })

abbrev pub user_of : Option Session → Option Text
user_of none = none
user_of (some s) = some s.user

-- `WHERE token_hash = ? AND expires_at > ?`
unfoldable pub lookup_session : ℕ → Text → Db → Option Text
unfolding find
lookup_session now token_hash d =
    user_of (find (λ s. hashed token_hash s && ltb now s.expires_at) d.sessions)

unfoldable pub delete_session : Text → Db → Db
unfolding delete
delete_session token_hash d = record d { sessions = delete (hashed token_hash) d.sessions }

unfoldable pub delete_all_sessions : Db → Db
delete_all_sessions d = record d { sessions = [] }

-- `WHERE expires_at <= ?`
unfoldable pub prune_expired_sessions : ℕ → Db → Db × ℕ
unfolding delete affected
prune_expired_sessions now d = (
  record d { sessions = delete (λ s. leb s.expires_at now) d.sessions },
  affected (λ (s : Session). leb s.expires_at now) d.sessions,
)
