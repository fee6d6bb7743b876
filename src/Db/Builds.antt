-- ===== src/Db/Builds.antt =====
-- The statements on `builds` of crates/paur-db/src/queries.rs.
use paur.Prelude.{
  ℕ, ℤ, negsuc, suc, ◌+◌, Bool, true, false, ◌&&◌, Option, none, some, List, [], ◌∷◌, ◌++◌, ◌==◌,
  if◌then◌else◌, max_of, any, take, head?,
}
use paur.Prelude.Tables.{find, select, update, affected, sort_desc, min_by}
use paur.Prelude.Text.{Text, text_eq}
use paur.Prelude.Results.{Result, ok, err, db, ◌>>=◌, ok_or}
use paur.Core.Variants as Variants
use paur.Core.Variants.{Variant}
use paur.Db.Models.{
  Db, Package, Build, BuildStatus, queued, running, failed, cancelled, status_eq, BuildTrigger,
}
use paur.Db.Packages.{named}

-- `CancelOutcome`
pub data CancelOutcome : Type 0 where
  was_cancelled : CancelOutcome
  already_terminal : BuildStatus → CancelOutcome
  not_found : CancelOutcome

-- `WHERE package_id = ?`
abbrev pub of_package : ℕ → Build → Bool
of_package package_id b = b.package_id == package_id

-- `SELECT COALESCE(MAX(seq), 0) + 1 FROM builds WHERE package_id = ?`
unfoldable pub next_seq : ℕ → Db → ℕ
unfolding select
next_seq package_id d = max_of (λ b. b.seq) (select (of_package package_id) d.builds) + 1

-- The row of the `INSERT`: the columns that the statement leaves out are NULL.
unfoldable pub new_build : ℕ → ℕ → ℕ → ℕ → BuildTrigger → Variant → Build
new_build id now package_id seq trigger variant = record {
  id = id;
  package_id = package_id;
  seq = seq;
  status = queued;
  queued_at = now;
  started_at = none;
  finished_at = none;
  exit_code = none;
  pkg_file = none;
  pkg_version = none;
  worker_id = none;
  trigger = trigger;
  variant = Variants.as_str variant;
}

-- The insertion violates the foreign key if there is no package with the id, and the unique index if
-- the package has a build of that `seq`; the transaction is then rolled back.
unfoldable pub enqueue_build : ℕ → ℕ → BuildTrigger → Variant → Db → Result (Db × ℕ)
unfolding next_seq new_build
enqueue_build now package_id trigger variant d =
    let seq = next_seq package_id d in
    let id = suc d.last_build_id in
    let row = new_build id now package_id seq trigger variant in
    if any (λ (p : Package). p.id == package_id) d.packages
    then (if any (λ (b : Build). b.package_id == package_id && b.seq == seq) d.builds
        then err db
        else ok (record d { builds = d.builds ++ row ∷ []; last_build_id = id }, id))
    else err db

-- `WHERE id = ?`
abbrev pub with_id : ℕ → Build → Bool
with_id id b = b.id == id

-- `WHERE id = ? AND status = ?`
abbrev pub with_status : ℕ → BuildStatus → Build → Bool
with_status id s b = b.id == id && status_eq b.status s

unfoldable pub get_build : ℕ → Db → Option Build
unfolding find
get_build id d = find (with_id id) d.builds

-- `SET status = 'running', started_at = ?, worker_id = ? WHERE id = ? AND status = 'queued'`
abbrev pub start : ℕ → Text → Build → Build
start now worker_id b = record b {
  status = running;
  started_at = some now;
  worker_id = some worker_id;
}

unfoldable pub set_running : ℕ → ℕ → Text → Db → Db
unfolding update status_eq
set_running now id worker_id d = record d {
  builds = update (with_status id queued) (start now worker_id) d.builds;
}

-- The row that was picked, as it stands after the update; `fetch_one` fails if there is none.
claim_row : ℕ → Text → Db → Option Build → Result (Db × Option Build)
unfolding set_running get_build
claim_row now worker_id d none = ok (d, none)
claim_row now worker_id d (some row) =
    let e = set_running now row.id worker_id d in
    do b ← ok_or (get_build row.id e) db; ok (e, some b)

unfoldable pub claim_next_queued : ℕ → Text → Db → Result (Db × Option Build)
unfolding claim_row select min_by
claim_next_queued now worker_id d =
    claim_row now worker_id d
      (min_by (λ b. b.queued_at) (select (λ b. status_eq b.status queued) d.builds))

unfoldable pub claim_build_by_id : ℕ → ℕ → Text → Db → Result (Db × Option Build)
unfolding set_running affected get_build status_eq
claim_build_by_id now build_id worker_id d =
    let e = set_running now build_id worker_id d in
    if affected (with_status build_id queued) d.builds == 0
    then ok (d, none)
    else do b ← ok_or (get_build build_id e) db; ok (e, some b)

-- `SET status = ?, finished_at = ?, exit_code = ? WHERE id = ?`, whatever the status was
unfoldable pub finish_build : ℕ → ℕ → BuildStatus → Option ℤ → Db → Db
unfolding update
finish_build now id status exit_code d = record d {
  builds =
      update (with_id id)
        (λ b. record b { status = status; finished_at = some now; exit_code = exit_code }) d.builds;
}

-- `SET status = 'cancelled', finished_at = ? WHERE id = ? AND status = ?`
unfoldable pub set_cancelled : ℕ → ℕ → BuildStatus → Db → Db
unfolding update status_eq
set_cancelled now id cur d = record d {
  builds =
      update (with_status id cur) (λ b. record b { status = cancelled; finished_at = some now })
        d.builds;
}

-- the `match cur`
pub cancel_from : ℕ → ℕ → BuildStatus → Db → Db × CancelOutcome
unfolding set_cancelled
cancel_from now id queued d = (set_cancelled now id queued d, was_cancelled)
cancel_from now id running d = (set_cancelled now id running d, was_cancelled)
cancel_from now id terminal d = (d, already_terminal terminal)

unfoldable pub cancel_build : ℕ → ℕ → Db → Db × CancelOutcome
unfolding cancel_from get_build
cancel_build now id d = elim (get_build id d) [
  | none ↦ (d, not_found)
  | some row ↦ cancel_from now id row.status d
]

unfoldable pub record_pkg : ℕ → Text → Text → Db → Db
unfolding update
record_pkg id pkg_file pkg_version d = record d {
  builds =
      update (with_id id)
        (λ b. record b { pkg_file = some pkg_file; pkg_version = some pkg_version }) d.builds;
}

-- `ORDER BY queued_at DESC, id DESC LIMIT 1`
unfoldable pub latest_build_for : ℕ → Db → Option Build
unfolding select sort_desc
latest_build_for package_id d =
    head? (sort_desc (λ b. b.queued_at) (select (of_package package_id) d.builds))

unfoldable pub latest_build_for_variant : ℕ → Variant → Db → Option Build
unfolding select sort_desc
latest_build_for_variant package_id variant d = head? (
    sort_desc (λ b. b.queued_at)
      (select (λ b. of_package package_id b && text_eq b.variant (Variants.as_str variant))
        d.builds))

-- A comparison with the NULL of a name that no package has is not true.
unfoldable pub pkg_cond : Option Text → Db → Build → Bool
unfolding find
pkg_cond none d b = true
pkg_cond (some name) d b = elim (find (named name) d.packages) [
  | none ↦ false
  | some p ↦ b.package_id == p.id
]

unfoldable pub status_cond : Option BuildStatus → Build → Bool
unfolding status_eq
status_cond none b = true
status_cond (some s) b = status_eq b.status s

unfoldable pub variant_cond : Option Variant → Build → Bool
variant_cond none b = true
variant_cond (some v) b = text_eq b.variant (Variants.as_str v)

unfoldable pub list_builds : Option Text → Option BuildStatus → Option Variant → ℕ → Db → List Build
unfolding select sort_desc pkg_cond status_cond variant_cond
list_builds pkg status variant limit d = take limit (
    sort_desc (λ b. b.queued_at)
      (select (λ b. pkg_cond pkg d b && status_cond status b && variant_cond variant b) d.builds))

-- `exit_code = -1`
unfoldable pub reap_stale_running : ℕ → Db → Db × ℕ
unfolding update affected status_eq
reap_stale_running now d = (
  record d {
    builds =
        update (λ b. status_eq b.status running)
          (λ b. record b { status = failed; finished_at = some now; exit_code = some (negsuc 0) })
          d.builds;
  },
  affected (λ b. status_eq b.status running) d.builds,
)
