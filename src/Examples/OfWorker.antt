-- ===== src/Examples/OfWorker.antt =====
-- Examples of the laws of the worker and the poller of crates/paur-daemon.
use paur.Prelude.{
  ℕ, ℤ, pos, suc, ◌≡◌, refl, ◌≤◌, ◌<◌, ◌≢◌, Bool, true, false, Option, none, some, List, [], ◌∷◌,
  ◌++◌, All, arith,
}
use paur.Prelude.Text.{Text, codes}
use paur.Prelude.Tables.{select, find}
use paur.Prelude.Results.{ok}
use paur.Core.Name.{PkgName}
use paur.Core.Variants.{Variant}
use paur.Builder.{BuildOutcome}
use paur.Db.Models.{Package}
use paur.Db.Packages.{list_packages, insert_package, new_package}
use paur.Db.Builds.{get_build, new_build}
use paur.Db.Invariant.{IsValid}
use paur.Daemon.State.{App}
use paur.Daemon.Worker.{process_one, work, finish}
use paur.Daemon.Worker.Rounds.{process_one_ne, work_unwoken}
use paur.Daemon.Worker.Outcome.{is_ok, Ended, finish-Ended}
use paur.Daemon.Worker.Settled.{Settled, process_one-Settled}
use paur.Daemon.Poller.{poll_once, is_due, live_pids}
use paur.Daemon.Poller.Due.{due, in_status, poll_once-due}
use paur.Db.Models.{queued, running}
use paur.Prelude.{length}
use paur.Daemon.Poller.Laws.{Polled, poll_once-unrun}
use paur.Daemon.Worker.StartUp.{start_up-recovers}
use paur.Daemon.Worker.Completes.{process_one-Ended}
use paur.Daemon.Worker.{start_up, request}
use paur.Daemon.State.{has_id}
use paur.Prelude.{not, ◌||◌, length}
use paur.Core.Variants as Variants
use paur.Core.Name as Name
use paur.Db.Models.{queued, running, status_eq}
use paur.Builder.{run_in_container}
use paur.Prelude.{◌==◌, map}
use paur.Examples.{
  one_package, one_package-IsValid, one_build-IsValid, one_build-first, first_build,
  first_build-queued, app, outside, yay, yay_url, head_ref,
}

process_one-Settled_example :
    Settled (is_ok (process_one outside 1 app).1) (get_build 1 (process_one outside 1 app).0.db)
process_one-Settled_example =
    process_one-Settled outside 1 app first_build one_build-IsValid one_build-first
      first_build-queued

process_one_ne_example : get_build 1 (process_one outside 2 app).0.db ≡ get_build 1 app.db
process_one_ne_example =
    process_one_ne outside 2 1 app one_build-IsValid (λ e. absurd (omega (arith, e)))

-- The same, with no id in the channel.
abbrev asleep : App
asleep = record app { wakes = [] }

work_unwoken_example : get_build 1 (work (λ n. outside) 3 asleep).db ≡ get_build 1 asleep.db
work_unwoken_example = work_unwoken (λ n. outside) 3 1 asleep one_build-IsValid tt

abbrev outcome : BuildOutcome
outcome = record {
  exit_code = pos 0;
  pkg_files = codes "/work/out/yay-12.3-1-x86_64.pkg.tar.zst" ∷ [];
  srcinfo = none;
  cancelled = false;
}

abbrev yay_package : Package
yay_package = new_package 1 5 yay yay_url true

abbrev yay_name : PkgName
yay_name = record { as_str = yay }

finish-Ended_example :
    Ended outside outcome
      (get_build 1 (finish outside first_build yay_package yay_name Variant.default outcome app).db)
unfolding new_build
finish-Ended_example =
    finish-Ended outside outcome first_build first_build yay_package yay_name Variant.default app
      one_build-first

-- No build yet, so the package is due.
abbrev idle : App
idle = record { db = one_package; log_channels = []; cancel_tokens = []; fired = []; wakes = [] }

abbrev remote : PkgName → Option Text
remote name = some head_ref

yay-due : is_due remote (live_pids idle.db) yay_package ≡ true
unfolding is_due live_pids insert_package new_package paur.Core.Name.new paur.Prelude.Text.trim
    paur.Prelude.Text.text_len paur.Prelude.Text.is_control paur.Core.Name.is_match
yay-due = refl

few_queued : length (in_status queued idle.db) ≤ 1000
unfolding select insert_package
few_queued = omega arith

few_running : length (in_status running idle.db) ≤ 1000
unfolding select insert_package
few_running = omega arith

poll_once-due_example :
    ((poll_once 40 remote idle).1 ≡ ok tt)
    × Polled idle.db
        (poll_once 40 remote idle).0.db
        (select (due remote idle.db) (list_packages idle.db))
    × ((poll_once 40 remote idle).0.wakes ≡ idle.wakes)
poll_once-due_example = poll_once-due 40 remote idle one_package-IsValid few_queued few_running

poll_once-unrun_example :
    get_build 1 (work (λ n. outside) 5 (poll_once 40 remote idle).0).db
    ≡ get_build 1 (poll_once 40 remote idle).0.db
unfolding insert_package
poll_once-unrun_example =
    poll_once-unrun 40 remote (λ n. outside) 5 1 idle one_package-IsValid tt (omega arith)

-- The build is there, and nothing was sent yet.
abbrev restarted : App
restarted = record app { wakes = 1 ∷ [] }

app-started : start_up 1 60 asleep ≡ ok restarted
unfolding start_up insert_package new_build
app-started = refl

start_up-recovers_example :
    IsValid restarted.db
    × All (λ r. status_eq r.status running ≡ false) restarted.db.builds
    × All
        (λ r. (not (status_eq r.status queued) || has_id r.id restarted.wakes) ≡ true)
        restarted.db.builds
unfolding insert_package
start_up-recovers_example =
    start_up-recovers 1 60 asleep restarted one_build-IsValid (omega arith) app-started

yay_package-found :
    find (λ p. p.id == first_build.package_id) (list_packages app.db) ≡ some yay_package
unfolding list_packages insert_package new_package new_build find
yay_package-found = refl

yay-accepted : Name.new yay_package.name ≡ ok yay_name
unfolding Name.new new_package paur.Prelude.Text.trim paur.Prelude.Text.text_len
    paur.Prelude.Text.is_control paur.Core.Name.is_match
yay-accepted = refl

first_build-variant : Variants.parse first_build.variant ≡ some Variant.default
unfolding new_build Variants.parse Variants.as_str
first_build-variant = refl

abbrev container_outcome : BuildOutcome
container_outcome = record outcome {
  pkg_files = codes "/var/lib/paur/build/1/out/yay-12.3-1-x86_64.pkg.tar.zst" ∷ [];
}

first_build-run :
    run_in_container
      (request outside first_build yay_package yay_name Variant.default)
      (outside.container (request outside first_build yay_package yay_name Variant.default))
    ≡ ok container_outcome
unfolding run_in_container request
first_build-run = refl

process_one-Ended_example :
    ((process_one outside 1 app).1 ≡ ok tt)
    × Ended outside container_outcome (get_build 1 (process_one outside 1 app).0.db)
process_one-Ended_example =
    process_one-Ended outside 1 app first_build yay_package yay_name Variant.default
      container_outcome one_build-IsValid one_build-first first_build-queued yay_package-found
      yay-accepted first_build-variant first_build-run
