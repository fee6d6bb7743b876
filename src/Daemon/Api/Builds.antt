-- ===== src/Daemon/Api/Builds.antt =====
-- The handlers of crates/paur-daemon/src/api.rs for builds and their logs.
use paur.Prelude.{
  ℕ, Option, none, some, List, [], ◌∷◌, ◌++◌, map, ltb, ℤ, pos, negsuc, if◌then◌else◌,
}
use paur.Prelude.Text.{Text}
use paur.Prelude.Results.{not_found, invalid, conflict, Result, ok, err, ◌>>=◌, ok_or}
use paur.Core.Variants as Variants
use paur.Core.Variants.{Variant, PackageVariants, active, is_active}
use paur.Db.Models.{Build, BuildStatus, queued, running, parse_status}
use paur.Daemon.State.{App}
use paur.Db.Builds as Builds
use paur.Db.Builds.{CancelOutcome, was_cancelled, already_terminal}
use paur.Db.Logs.{read_logs}
use paur.Daemon.State.{has_id, remove_id, insert_id}

-- The `match` on the status, whose words are those of the column.
unfoldable pub status_filter : Option Text → Result (Option BuildStatus)
unfolding parse_status
status_filter none = ok none
status_filter (some s) = do status ← ok_or (parse_status s) invalid; ok (some status)

unfoldable pub variant_filter : Option Text → Result (Option Variant)
unfolding Variants.parse
variant_filter none = ok none
variant_filter (some v) = do variant ← ok_or (Variants.parse v) invalid; ok (some variant)

-- `unwrap_or(50).clamp(1, 1000)`
unfoldable pub limit_of : Option ℤ → ℕ
limit_of none = 50
limit_of (some (negsuc n)) = 1
limit_of (some (pos n)) = if ltb n 1 then 1 else if ltb 1000 n then 1000 else n

unfoldable pub list_builds :
    Option Text → Option Text → Option Text → Option ℤ → App → Result (List Build)
unfolding status_filter variant_filter limit_of Builds.list_builds
list_builds pkg status variant limit a = do
  s ← status_filter status
  v ← variant_filter variant
  ok (Builds.list_builds pkg s v (limit_of limit) a.db)

unfoldable pub get_build : ℕ → App → Result Build
unfolding Builds.get_build
get_build id a = ok_or (Builds.get_build id a.db) not_found

-- A fired token stays fired for the run that holds it.
unfoldable pub fire : ℕ → App → App
unfolding remove_id insert_id
fire id a =
    if has_id id a.cancel_tokens
    then record a { cancel_tokens = remove_id id a.cancel_tokens; fired = insert_id id a.fired }
    else a

unfoldable pub after_cancel : ℕ → CancelOutcome → App → App × Result ℕ
unfolding fire
after_cancel id CancelOutcome.not_found a = (a, err not_found)
after_cancel id (already_terminal s) a = (a, err conflict)
after_cancel id was_cancelled a = (fire id a, ok id)

unfoldable pub cancel_build : ℕ → ℕ → App → App × Result ℕ
unfolding after_cancel Builds.cancel_build
cancel_build now id a =
    let (d, outcome) = Builds.cancel_build now id a.db in
    after_cancel id outcome (record a { db = d })

-- `join("\n")`
pub join_lines : List Text → Text
join_lines [] = []
join_lines (l ∷ []) = l
join_lines (l ∷ m ∷ ls) = l ++ 10 ∷ join_lines (m ∷ ls)

unfoldable pub raw_logs : ℕ → App → Text
unfolding read_logs join_lines
raw_logs id a = join_lines (map (λ x. x.1) (read_logs id a.db))

unfoldable pub queue : App → List Build × List Build
unfolding Builds.list_builds
queue a = (
  Builds.list_builds none (some queued) none 1000 a.db,
  Builds.list_builds none (some running) none 1000 a.db,
)

-- `Event`
pub data Event : Type 0 where
  data_event : Text → Event
  done : Event

-- The persisted log, and the marker.
unfoldable pub persisted : ℕ → App → List Event
unfolding read_logs
persisted id a = map (λ x. data_event x.1) (read_logs id a.db) ++ done ∷ []

-- `received` are the lines that the channel gave until it was closed, and `after` the state then.
unfoldable pub stream_logs : ℕ → List Text → App → App → List Event
unfolding persisted
stream_logs id received a after =
    if has_id id a.log_channels
    then map data_event received ++ persisted id after
    else persisted id a
