-- ===== src/Examples/OfDb.antt =====
-- Examples of the laws of crates/paur-db.
use mathlib.Core.Option
use paur.Prelude.{suc, ◌≡◌, refl, true, none, some, [], ◌∷◌, ◌++◌, ◌==◌, if◌then◌else◌, arith, ◌∙◌}
use paur.Prelude.Text.{Text, codes}
use paur.Prelude.Results.{ok, err, db}
use paur.Core.Variants.{Variant}
use paur.Db.Models.{
  Db, Build, BuildStatus, BuildTrigger, Stream, manual, rebuild, poll, success, running, queued,
  stdout, stderr, as_str, trigger_str, stream_str, parse_status, parse_trigger, parse_stream,
}
use paur.Db.Models.Codec.{parse-str_iff}
use paur.Db.Packages.{insert_package}
use paur.Db.Builds.{
  enqueue_build, claim_build_by_id, cancel_build, get_build, start, set_running, new_build,
}
use paur.Db.Logs.{append_log, read_logs, insert_log, next_log_seq}
use paur.Db.Logs.Laws.{read_logs-append_log, append_log_race}
use paur.Db.Invariant.{has_package, has_build}
use paur.Db.Invariant.Enqueue.{enqueued, enqueue_build-eq}
use paur.Db.Invariant.OfLogs.{append_log-eq, logged}
use paur.Db.Invariant.Transitions.{claimed, claim_build_by_id-eq}
use paur.Db.Lifecycle.{claim_once, cancel_build_lem, cancel_answer, after_cancel}
use paur.Examples.{
  one_package, one_package-owner, one_build, one_build-IsValid, one_build-first, first_build,
  first_build-queued,
}

enqueue_build-eq_example : enqueue_build 11 1 rebuild Variant.v3 one_build ≡ (
    if has_package one_build.packages 1
    then ok (enqueued 11 1 rebuild Variant.v3 one_build, suc one_build.last_build_id)
    else err db)
enqueue_build-eq_example = enqueue_build-eq 11 1 rebuild Variant.v3 one_build

one_build-enqueued : enqueue_build 10 1 manual Variant.default one_package ≡ ok (one_build, 1)
unfolding insert_package
one_build-enqueued =
    enqueue_build-eq 10 1 manual Variant.default one_package ∙ rw one_package-owner refl

claim_build_by_id-eq_example :
    claim_build_by_id 20 1 (codes "paur-worker") one_build
    ≡ claimed 20 1 (codes "paur-worker") one_build (get_build 1 one_build)
claim_build_by_id-eq_example =
    claim_build_by_id-eq 20 1 (codes "paur-worker") one_build one_build-IsValid

abbrev worker : Text
worker = codes "paur-worker"

abbrev claimed_build : Build
claimed_build = start 20 worker first_build

abbrev claimed_db : Db
claimed_db = set_running 20 1 worker one_build

one_build-claimed : claim_build_by_id 20 1 worker one_build ≡ ok (claimed_db, some claimed_build)
one_build-claimed = ground (
  arith,
  claim_build_by_id-eq 20 1 worker one_build one_build-IsValid,
  one_build-first,
  first_build-queued,
  paur.Db.Models.Codec.status_eq_refl queued,
)

claim_once_example :
    (get_build 1 claimed_db ≡ some claimed_build)
    × (claimed_build.status ≡ running)
    × (claimed_build.worker_id ≡ some worker)
    × (claim_build_by_id 25 1 (codes "other") claimed_db ≡ ok (claimed_db, none))
claim_once_example =
    claim_once 20 25 1 worker (codes "other") one_build claimed_db claimed_build one_build-IsValid
      one_build-claimed

cancel_build_lem_example :
    ((cancel_build 15 1 one_build).1 ≡ cancel_answer (get_build 1 one_build))
    × (get_build 1 (cancel_build 15 1 one_build).0 ≡ (
        if 1 == 1
        then Option.map (after_cancel 15) (get_build 1 one_build)
        else get_build 1 one_build))
cancel_build_lem_example = cancel_build_lem 15 1 1 one_build

abbrev line : Text
line = codes "==> Making package: yay"

one_build-has_build : has_build one_build.builds 1 ≡ true
unfolding insert_package new_build
one_build-has_build = refl

one_build-appended : append_log 21 1 stdout line one_build ≡ ok (logged 21 1 stdout line one_build)
one_build-appended = ground (arith, append_log-eq 21 1 stdout line one_build, one_build-has_build)

read_logs-append_log_example :
    read_logs 1 (logged 21 1 stdout line one_build)
    ≡ (if 1 == 1 then read_logs 1 one_build ++ (stdout, line) ∷ [] else read_logs 1 one_build)
read_logs-append_log_example =
    read_logs-append_log 21 1 1 stdout line one_build (logged 21 1 stdout line one_build)
      one_build-appended

append_log_race_example :
    (insert_log 21 1 (next_log_seq 1 one_build) stdout line one_build
      ≡ ok (logged 21 1 stdout line one_build))
    × (insert_log 21 1
          (next_log_seq 1 one_build)
          stderr
          (codes "warning")
          (logged 21 1 stdout line one_build)
        ≡ err db)
append_log_race_example =
    append_log_race 21 21 1 stdout stderr line (codes "warning") one_build one_build-has_build

abbrev gpg_key : Text
gpg_key = codes "gpg_key_id"

-- One session that has expired at 60, and one that has not.
abbrev with_sessions : Db
with_sessions = record one_build {
  sessions =
      record { token_hash = codes "old"; created_at = 1; expires_at = 50; user = codes "admin" }
      ∷ record { token_hash = codes "new"; created_at = 2; expires_at = 90; user = codes "admin" }
      ∷ [];
}
