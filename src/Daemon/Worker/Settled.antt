-- ===== src/Daemon/Worker/Settled.antt =====
-- The state in which a round of the worker of crates/paur-daemon/src/worker.rs leaves the build that
-- it was woken for.
use paur.Prelude.{ℕ, ◌≡◌, refl, ◌∙◌, ap, Bool, false, Option, none, some, ◌==◌, arith, subst, sym}
use paur.Prelude.Tables.{find}
use paur.Prelude.Results.{Result, ok, err}
use paur.Core.Name as Name
use paur.Core.Name.{PkgName}
use paur.Core.Variants as Variants
use paur.Core.Variants.{Variant}
use paur.Builder.{BuildOutcome, run_in_container}
use paur.Db.Models.{Package, Build, queued, running, status_eq}
use paur.Db.Packages.{list_packages}
use paur.Db.Builds.{get_build, set_running, start}
use paur.Db.Invariant.{IsValid, is_terminal}
use paur.Daemon.State.{App}
use paur.Daemon.Worker.{
  Outside, request, process_claimed, process_one, worker_id, with_name, with_package,
  after_container, after_lines, with_variant, run_build, register,
}
use paur.Daemon.Worker.Completes.{claim_queued}
use paur.Daemon.Worker.Frame.{after_lines-LogsOnly, same_build}
use paur.Daemon.Worker.Outcome.{ending-IsTerminal, finish-Ended, is_ok}

-- The row that is read is in a terminal state if the round succeeded, and running if not.
pub record Settled (succeeded : Bool) (q : Option Build) : Type 0 where
  pub row : Build
  pub stored : q ≡ some row
  pub terminal : is_terminal row.status ≡ succeeded
  pub not_queued : status_eq row.status queued ≡ false

abbrev IsSettled : ℕ → App × Result (Unit {0}) → Type 0
IsSettled id x = Settled (is_ok x.1) (get_build id x.0.db)

module _ (o : Outside) (b : Build) (started : b.status ≡ running) where
  still_running : (a : App) → get_build b.id a.db ≡ some b → Settled false (get_build b.id a.db)
  unfolding status_eq is_terminal
  still_running a here = record {
    row = b;
    stored = here;
    terminal = ground arith;
    not_queued = ground arith;
  }

  after_container-Settled :
      (pkg : Package) (name : PkgName) (v : Variant) (r : Result BuildOutcome) (a : App)
      → get_build b.id a.db ≡ some b
      → IsSettled b.id (after_container o b pkg name v r a)
  unfolding after_container status_eq is_terminal
  after_container-Settled pkg name v (err e) a here = still_running a here
  after_container-Settled pkg name v (ok r) a here =
      let e = finish-Ended o r b b pkg name v a here in
      let t = ending-IsTerminal r.cancelled r.exit_code in
      record {
        row = e.row;
        stored = e.stored;
        terminal = ap is_terminal e.status ∙ t;
        not_queued = ground (arith, e.status);
      }

  with_variant-Settled :
      (pkg : Package) (name : PkgName) (v : Option Variant) (a : App)
      → get_build b.id a.db ≡ some b
      → IsSettled b.id (with_variant o b pkg name v a)
  unfolding with_variant run_build
  with_variant-Settled pkg name none a here = still_running a here
  with_variant-Settled pkg name (some v) a here =
      let c = o.container (request o b pkg name v) in
      after_container-Settled pkg name v (run_in_container (request o b pkg name v) c)
        (after_lines o b c a)
        (same_build b.id a (after_lines o b c a) (after_lines-LogsOnly o b c a) ∙ here)

  with_name-Settled :
      (pkg : Package) (n : Result PkgName) (a : App)
      → get_build b.id a.db ≡ some b
      → IsSettled b.id (with_name o b pkg n a)
  unfolding with_name register
  with_name-Settled pkg (err e) a here = still_running a here
  with_name-Settled pkg (ok name) a here =
      with_variant-Settled pkg name (Variants.parse b.variant) (register b a) here

  with_package-Settled :
      (q : Option Package) (a : App)
      → get_build b.id a.db ≡ some b
      → IsSettled b.id (with_package o b q a)
  unfolding with_package
  with_package-Settled none a here = still_running a here
  with_package-Settled (some pkg) a here = with_name-Settled pkg (Name.new pkg.name) a here

-- On a valid database, a queued build that the worker is woken for is not queued after the round. If
-- the round succeeds, the build has ended: it is successful, failed or cancelled. If the round fails,
-- the build has not ended, so it is left running.
pub process_one-Settled :
    (o : Outside) (id : ℕ) (a : App) (row : Build)
    → IsValid a.db
    → get_build id a.db ≡ some row
    → row.status ≡ queued
    → Settled (is_ok (process_one o id a).1) (get_build id (process_one o id a).0.db)
unfolding process_one process_claimed
process_one-Settled o id a row v here q =
    let b = start o.claim_time worker_id row in
    let d = set_running o.claim_time id worker_id a.db in
    let (answer, stored, keyed) = claim_queued o.claim_time id a.db row v here q in
    let a_claimed = record a { db = d } in
    let round = with_package o b (find (λ p. p.id == b.package_id) (list_packages d)) a_claimed in
    rw answer (
      subst (λ i. IsSettled i round) keyed
        (with_package-Settled o b refl (find (λ p. p.id == b.package_id) (list_packages d))
          a_claimed (subst (λ i. get_build i d ≡ some b) (sym keyed) stored)))
