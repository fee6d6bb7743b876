-- ===== src/Examples/OfSteps.antt =====
-- Examples of the laws of the daemon's steps.
use paur.Prelude.{◌≡◌, refl, [], All, arith}
use paur.Db.Invariant.{IsValid}
use paur.Db.Statements.{Runs}
use paur.Db.Progress.{Progress, Runs-Progress}
use paur.Daemon.State.{App}
use paur.Daemon.Worker.{process_one, work}
use paur.Daemon.Worker.Drained.{IsTaken, work-drains}
use paur.Daemon.Api.Builds as Handlers
use paur.Daemon.Steps.{Trace, at_start, next, works, cancels, Trace-Runs}
use paur.Examples.{app, outside, one_build, one_build-IsValid}

-- The worker runs the build, and a cancellation comes late.
abbrev built : App
built = (process_one outside 1 (record app { wakes = [] })).0

abbrev later : App
later = (Handlers.cancel_build 35 1 built).0

late_cancel : Trace app later
late_cancel = next (next at_start (works outside 1 [] refl refl)) (cancels 35 1 refl)

Trace-Runs_example : Runs app.db later.db
Trace-Runs_example = Trace-Runs app later late_cancel

late_cancel-Runs : Runs one_build later.db
late_cancel-Runs = Trace-Runs app later late_cancel

Runs-Progress_example : IsValid later.db × Progress one_build later.db
Runs-Progress_example = Runs-Progress one_build later.db one_build-IsValid late_cancel-Runs

work-drains_example :
    ((work (λ n. outside) 1 app).wakes ≡ [])
    × All (IsTaken (work (λ n. outside) 1 app).db) app.wakes
work-drains_example =
    work-drains (λ n. outside) 1 app one_build-IsValid (omega arith, tt) (omega arith)
