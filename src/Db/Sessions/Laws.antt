-- ===== src/Db/Sessions/Laws.antt =====
-- Pruning and looking up the sessions of crates/paur-db/src/queries.rs.
use paur.Prelude.{ℕ, ◌≡◌, ◌≤◌, refl, ap, ◌&&◌, List, [], ◌∷◌, arith, ltb, leb}
use paur.Prelude.Tables.{find, delete, select}
use paur.Prelude.Text.{Text}
use paur.Db.Models.{Db, Session}
use paur.Db.Sessions.{hashed, user_of, lookup_session, prune_expired_sessions}

find-pruned :
    (h : Text) (now later : ℕ) (ss : List Session)
    → now ≤ later
    → find (λ s. hashed h s && ltb later s.expires_at) (delete (λ s. leb s.expires_at now) ss)
      ≡ find (λ s. hashed h s && ltb later s.expires_at) ss
unfolding find delete select
find-pruned h now later [] le = refl
find-pruned h now later (s ∷ ss) le = ground (arith, find-pruned h now later ss le)

-- Pruning removes only sessions that a lookup, then or later, would not accept: the lookup of any
-- token answers as it did without the pruning.
pub lookup_session-prune :
    (h : Text) (now later : ℕ) (d : Db)
    → now ≤ later
    → lookup_session later h (prune_expired_sessions now d).0 ≡ lookup_session later h d
unfolding lookup_session prune_expired_sessions
lookup_session-prune h now later d le = ap user_of (find-pruned h now later d.sessions le)
