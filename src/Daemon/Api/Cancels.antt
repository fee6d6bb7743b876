-- ===== src/Daemon/Api/Cancels.antt =====
-- What the cancel route of crates/paur-daemon/src/api.rs does to a build and to its token.
use mathlib.Core.Option
use paur.Prelude.{
  ℕ, ◌≡◌, refl, Bool, false, not, ◌||◌, ◌&&◌, ◌==◌, Option, none, some, List, [], ◌∷◌, arith,
  if◌then◌else◌,
}
use paur.Prelude.Tables.{select, delete}
use paur.Prelude.Results.{Result, ok, err, not_found, conflict}
use paur.Db.Models.{Build}
use paur.Db.Builds.{get_build}
use paur.Db.Invariant.{is_terminal}
use paur.Db.Lifecycle.{cancel_build_lem, after_cancel}
use paur.Daemon.State.{App, has_id, remove_id, insert_id}
use paur.Daemon.Api.Builds.{cancel_build, fire}

-- What the route answers, from the row with the id.
abbrev pub response : ℕ → Option Build → Result ℕ
response id none = err not_found
response id (some b) = if is_terminal b.status then err conflict else ok id

abbrev pub is_live : Option Build → Bool
is_live none = false
is_live (some b) = not (is_terminal b.status)

has_id-remove :
    (j id : ℕ) (ids : List ℕ) → has_id j (remove_id id ids) ≡ (has_id j ids && not (j == id))
unfolding remove_id delete select
has_id-remove j id [] = refl
has_id-remove j id (i ∷ ids) = ground (arith, has_id-remove j id ids)

has_id-insert : (j id : ℕ) (ids : List ℕ) → has_id j (insert_id id ids) ≡ (has_id j ids || j == id)
unfolding insert_id
has_id-insert j id ids = ground arith

-- The route accepts a queued or running build, answers a conflict for an ended one and not found for
-- an unknown id. The row of a build that was queued or running is cancelled; its token is out of the
-- map then, and fired if it was there. Otherwise the row stays as it is, and so does the token;
-- whatever the answer, the token of every other build is in the map, and fired, exactly if it was.
pub cancel_route :
    (now id j : ℕ) (a : App)
    → ((cancel_build now id a).1 ≡ response id (get_build id a.db))
      × (get_build id (cancel_build now id a).0.db
          ≡ Option.map (after_cancel now) (get_build id a.db))
      × (has_id j (cancel_build now id a).0.cancel_tokens
          ≡ (has_id j a.cancel_tokens && not (j == id && is_live (get_build id a.db))))
      × (has_id j (cancel_build now id a).0.fired ≡ (
          has_id j a.fired
          || (j == id && (has_id id a.cancel_tokens && is_live (get_build id a.db)))))
unfolding cancel_build fire paur.Daemon.Api.Builds.after_cancel is_terminal
cancel_route now id j a =
    let (says, row) = cancel_build_lem now id id a.db in
    let removed = has_id-remove j id a.cancel_tokens in
    let inserted = has_id-insert j id a.fired in
    (
      ground (arith, says),
      ground (arith, row, says),
      ground (arith, says, removed),
      ground (arith, says, inserted),
    )
