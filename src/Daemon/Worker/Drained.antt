-- ===== src/Daemon/Worker/Drained.antt =====
-- The end of the loop of crates/paur-daemon/src/worker.rs on a channel that gets no new ids.
use paur.Prelude.{
  ℕ, zero, suc, ◌≤◌, ◌≡◌, refl, sym, ap, subst, false, Option, some, List, [], ◌∷◌, arith, inl, inr,
  Bool-cases, Option-cases, length, All, All-map_pred,
}
use paur.Db.Models.{Db, Build, BuildStatus, queued, running, status_eq}
use paur.Db.Models.Codec.{eq_of_status_eq}
use paur.Db.Builds.{get_build}
use paur.Db.Invariant.{IsValid}
use paur.Db.Statements.{Runs, none_yet, Runs-append}
use paur.Db.Progress.{Runs-Progress}
use paur.Db.Progress.Rows.{stage, status_stage}
use paur.Daemon.State.{App}
use paur.Daemon.Worker.{Outside, process_one, work}
use paur.Daemon.Worker.Valid.{process_one-Runs}
use paur.Daemon.Worker.Rounds.{process_one_wakes}
use paur.Daemon.Worker.Settled.{process_one-Settled}

-- The row is there no longer, or it has been claimed.
abbrev pub IsTaken : Db → ℕ → Type 0
IsTaken d id = 1 ≤ stage (get_build id d)

not_queued-IsTaken :
    (q : Option Build) (row : Build)
    → q ≡ some row
    → status_eq row.status queued ≡ false
    → 1 ≤ stage q
unfolding status_eq
not_queued-IsTaken q row stored h = subst (λ r. 1 ≤ stage r) (sym stored) (by_status row.status h)
  where
    by_status : (t : BuildStatus) → status_eq t queued ≡ false → 1 ≤ status_stage t
    by_status queued h = absurd (ground arith)
    by_status running h = omega arith
    by_status t h = omega arith

-- A round takes the build that it is woken for.
round-IsTaken :
    (o : Outside) (id : ℕ) (a : App)
    → IsValid a.db
    → id ≤ a.db.last_build_id
    → IsTaken (process_one o id a).0.db id
round-IsTaken o id a v known =
    let b = (process_one o id a).0 in
    let (valid, far) = Runs-Progress a.db b.db v (process_one-Runs o id a none_yet) in
    let up : stage (get_build id a.db) ≤ stage (get_build id b.db) = far.0 id known in
    elim (Option-cases (get_build id a.db)) [
      | inl gone ↦ let was : stage (get_build id a.db) ≡ 3 = ap stage gone in omega (arith, up, was)
      | inr (row, here) ↦ elim (Bool-cases (status_eq row.status queued)) [
        | inl q ↦
            let s = process_one-Settled o id a row v here (eq_of_status_eq row.status queued q) in
            not_queued-IsTaken (get_build id b.db) s.row s.stored s.not_queued
        | inr other ↦
            let was : 1 ≤ stage (get_build id a.db) =
              not_queued-IsTaken (get_build id a.db) row here other in
            omega (arith, up, was)
      ]
    ]

-- The rounds take all the ids of the channel, with what is left after them.
work-drains_by :
    (os : ℕ → Outside) (n : ℕ) (ids : List ℕ) (a : App)
    → a.wakes ≡ ids
    → IsValid a.db
    → All (λ i. i ≤ a.db.last_build_id) ids
    → length ids ≤ n
    → ((work os n a).wakes ≡ []) × All (IsTaken (work os n a).db) ids × Runs a.db (work os n a).db
unfolding work
work-drains_by os zero [] a q v known fuel = (q, tt, none_yet)
work-drains_by os zero (id ∷ rest) a q v known fuel = absurd (omega (arith, fuel))
work-drains_by os (suc n) [] a q v known fuel =
    let stop : work os (suc n) a ≡ a = ground (arith, q) in
    subst (λ b. (b.wakes ≡ []) × All (IsTaken b.db) [] × Runs a.db b.db) (sym stop)
      (q, tt, none_yet)
work-drains_by os (suc n) (id ∷ rest) a q v known fuel =
    let b = record a { wakes = rest } in
    let once = (process_one (os n) id b).0 in
    let run = process_one-Runs (os n) id b none_yet in
    let (valid, far) = Runs-Progress a.db once.db v run in
    let left : (process_one (os n) id b).0.wakes ≡ rest = process_one_wakes (os n) id b in
    let still : All (λ i. i ≤ once.db.last_build_id) rest =
      All-map_pred (λ i h. omega (arith, h, far.1)) rest known.1 in
    let (empty, taken, more) =
      work-drains_by os n rest once left valid still (omega (arith, fuel)) in
    let later = (Runs-Progress once.db (work os n once).db valid more).1 in
    let first = round-IsTaken (os n) id b v known.0 in
    let up : stage (get_build id once.db) ≤ stage (get_build id (work os n once).db) =
      later.0 id (omega (arith, known.0, far.1)) in
    let step : work os (suc n) a ≡ work os n once = ground (arith, q) in
    subst (λ e. (e.wakes ≡ []) × All (IsTaken e.db) (id ∷ rest) × Runs a.db e.db) (sym step)
      (
        empty,
        (omega (arith, first, up), taken),
        Runs-append a.db once.db (work os n once).db run more,
      )

-- The loop of the worker ends: from a valid database, with ids in the channel that were given out and
-- no new ones coming in, as many rounds as there are ids empty the channel, and then no build that was
-- in it is queued any more, whatever the containers and the errors of the rounds.
pub work-drains :
    (os : ℕ → Outside) (n : ℕ) (a : App)
    → IsValid a.db
    → All (λ i. i ≤ a.db.last_build_id) a.wakes
    → length a.wakes ≤ n
    → ((work os n a).wakes ≡ []) × All (IsTaken (work os n a).db) a.wakes
work-drains os n a v known fuel =
    let (empty, taken, run) = work-drains_by os n a.wakes a refl v known fuel in (empty, taken)
