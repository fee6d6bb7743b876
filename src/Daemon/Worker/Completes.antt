-- ===== src/Daemon/Worker/Completes.antt =====
-- The path of a round of the worker of crates/paur-daemon/src/worker.rs on which the container runs to
-- its end.
use paur.Prelude.{ℕ, ◌≡◌, refl, ◌∙◌, some, ◌==◌, arith, subst, sym, ==_iff}
use paur.Prelude.Tables.{find}
use paur.Prelude.Tables.Laws.{find_holds}
use paur.Prelude.Results.{ok}
use paur.Core.Name as Name
use paur.Core.Name.{PkgName}
use paur.Core.Variants as Variants
use paur.Core.Variants.{Variant}
use paur.Builder.{BuildOutcome, run_in_container}
use paur.Db.Models.{Db, Package, Build, queued, status_eq}
use paur.Db.Packages.{list_packages}
use paur.Db.Builds.{get_build, with_id, claim_build_by_id, set_running, start}
use paur.Db.Invariant.{IsValid}
use paur.Db.Invariant.Transitions.{claim_build_by_id-eq}
use paur.Db.Lifecycle.{get_build-set_running}
use paur.Daemon.State.{App}
use paur.Daemon.Worker.{
  Outside, finish, request, process_claimed, process_one, worker_id, with_name, with_package,
  after_container, after_lines, with_variant, run_build, register,
}
use paur.Daemon.Worker.Frame.{after_lines-LogsOnly, same_build}
use paur.Daemon.Worker.Outcome.{Ended, finish-Ended}

-- What the claim of a queued build answers, and where its row is then.
pub claim_queued :
    (now id : ℕ) (d : Db) (row : Build)
    → IsValid d
    → get_build id d ≡ some row
    → row.status ≡ queued
    → (claim_build_by_id now id worker_id d
        ≡ ok (set_running now id worker_id d, some (start now worker_id row)))
      × (get_build id (set_running now id worker_id d) ≡ some (start now worker_id row))
      × (row.id ≡ id)
unfolding status_eq get_build
claim_queued now id d row v here q = (
  ground (arith, claim_build_by_id-eq now id worker_id d v, here, q),
  ground (arith, get_build-set_running now id worker_id d, here, q),
  (==_iff row.id id).0 (find_holds (with_id id) d.builds row here),
)

-- On a valid database, a queued build that the worker is woken for, whose package is there under a
-- valid name, whose variant is known and whose container runs to its end, ends as the container did:
-- the round succeeds, and the row has the time of the end and is cancelled, without an exit code, if the
-- run was cancelled, successful with the exit code 0, and failed with any other exit code.
pub process_one-Ended :
    (o : Outside) (id : ℕ) (a : App) (row : Build) (pkg : Package) (name : PkgName) (v : Variant)
    (r : BuildOutcome)
    → IsValid a.db
    → get_build id a.db ≡ some row
    → row.status ≡ queued
    → find (λ p. p.id == row.package_id) (list_packages a.db) ≡ some pkg
    → Name.new pkg.name ≡ ok name
    → Variants.parse row.variant ≡ some v
    → run_in_container (request o row pkg name v) (o.container (request o row pkg name v)) ≡ ok r
    → ((process_one o id a).1 ≡ ok tt) × Ended o r (get_build id (process_one o id a).0.db)
unfolding process_one process_claimed with_package with_name with_variant run_build after_container
    register list_packages set_running request
process_one-Ended o id a row pkg name v r valid here q found named known ran =
    let (answer, stored, keyed) = claim_queued o.claim_time id a.db row valid here q in
    let b = start o.claim_time worker_id row in
    let c = o.container (request o row pkg name v) in
    let begun = register b (record a { db = set_running o.claim_time id worker_id a.db }) in
    let before = after_lines o b c begun in
    let kept = same_build id begun before (after_lines-LogsOnly o b c begun) ∙ stored in
    rw (answer, found, named, known, ran)
      (
        refl,
        subst (λ i. Ended o r (get_build i (finish o b pkg name v r before).db)) keyed
            (finish-Ended o r b b pkg name v before
              (subst (λ i. get_build i before.db ≡ some b) (sym keyed) kept)),
      )
