-- ===== src/Daemon/Poller/Laws.antt =====
-- What an iteration of the poll of crates/paur-daemon/src/poller.rs enqueues, and what becomes of it.
use paur.Prelude.{
  ℕ, ◌≡◌, refl, ◌∙◌, ap, ◌≤◌, ◌<◌, true, Option, List, [], ◌∷◌, ◌++◌, map, arith, inl, inr,
  Bool-cases, All, All-map_pred, sym, Pairwise,
}
use paur.Prelude.Text.{Text}
use paur.Prelude.Tables.{select}
use paur.Prelude.Results.{ok}
use paur.Core.Name.{PkgName}
use paur.Core.Variants.{Variant}
use paur.Db.Models.{Db, Package, BuildTrigger, BuildStatus, poll}
use paur.Prelude.Tables.Sorting.{All-sort_desc}
use paur.Db.Packages.{list_packages}
use paur.Db.Builds.{get_build}
use paur.Db.Invariant.{IsValid, has_package}
use paur.Db.Invariant.Enqueue.{enqueued, enqueue_build-eq, enqueued-IsValid}
use paur.Db.Essentials.{essentials, ordered, append-append_one, append-nil, enqueued_row}
use paur.Daemon.State.{App}
use paur.Daemon.Worker.{Outside, work}
use paur.Daemon.Worker.Rounds.{work_unwoken}
use paur.Daemon.Poller.{is_due, poll_each, poll_once, live_pids}

-- A build that the poll enqueues.
abbrev pub poll_build : Package → ℕ × BuildTrigger × Text × BuildStatus
poll_build p = ordered p.id poll Variant.default

-- What the loop leaves: one build more for each of the packages, in their order.
pub record Polled (d e : Db) (due : List Package) : Type 0 where
  pub valid : IsValid e
  pub same_packages : e.packages ≡ d.packages
  pub one_each : map essentials e.builds ≡ map essentials d.builds ++ map poll_build due
  pub later : d.last_build_id ≤ e.last_build_id

module _ (now : ℕ) (ls_remote : PkgName → Option Text) (live : List ℕ) where
  poll_each_lem :
      (ps : List Package) (d : Db)
      → IsValid d
      → All (λ p. has_package d.packages p.id ≡ true) ps
      → ((poll_each now ls_remote live ps d).1 ≡ ok tt)
        × Polled d (poll_each now ls_remote live ps d).0 (select (is_due ls_remote live) ps)
  unfolding poll_each select
  poll_each_lem [] d v h = (
    refl,
    record {
      valid = v;
      same_packages = refl;
      one_each = sym (append-nil (map essentials d.builds));
      later = omega arith;
    },
  )
  poll_each_lem (p ∷ ps) d v h = elim (Bool-cases (is_due ls_remote live p)) [
    | inr e ↦
        let skip : poll_each now ls_remote live (p ∷ ps) d ≡ poll_each now ls_remote live ps d =
          ground (arith, e) in
        rw (skip, e) (poll_each_lem ps d v h.1)
    | inl e ↦
        let d1 = enqueued now p.id poll Variant.default d in
        let w = enqueued-IsValid now p.id poll Variant.default d h.0 v in
        let (done, rest) = poll_each_lem ps d1 w h.1 in
        let step : poll_each now ls_remote live (p ∷ ps) d ≡ poll_each now ls_remote live ps d1 =
          ground (arith, enqueue_build-eq now p.id poll Variant.default d, e, h.0) in
        rw (step, e)
          (
            done,
            record {
              valid = rest.valid;
              same_packages = rest.same_packages;
              one_each =
                  rest.one_each
                  ∙ ap (λ xs. xs ++ map poll_build (select (is_due ls_remote live) ps))
                      (enqueued_row now p.id poll Variant.default d)
                  ∙ append-append_one (map essentials d.builds) (poll_build p)
                      (map poll_build (select (is_due ls_remote live) ps));
              later = let l = rest.later in omega (arith, l);
            },
          )
  ]

own_packages :
    (ps : List Package)
    → Pairwise (λ p q. p.id < q.id) ps
    → All (λ p. has_package ps p.id ≡ true) ps
own_packages [] h = tt
own_packages (p ∷ ps) h =
    (ground arith, All-map_pred (λ q k. ground (arith, k)) ps (own_packages ps h.1))

-- On a valid database an iteration of the poll succeeds and keeps the invariant. It adds one queued
-- build of the default variant for each package that is due, in the order of the list of packages,
-- and nothing else to the builds, and leaves the packages and the channel to the worker as they are.
pub poll_once_lem :
    (now : ℕ) (ls_remote : PkgName → Option Text) (a : App)
    → IsValid a.db
    → ((poll_once now ls_remote a).1 ≡ ok tt)
      × Polled a.db
          (poll_once now ls_remote a).0.db
          (select (is_due ls_remote (live_pids a.db)) (list_packages a.db))
      × ((poll_once now ls_remote a).0.wakes ≡ a.wakes)
unfolding poll_once list_packages
poll_once_lem now ls_remote a v =
    let known =
      All-sort_desc (λ p. p.added_at) (λ p. has_package a.db.packages p.id ≡ true) a.db.packages
        (own_packages a.db.packages v.packages_valid.ids) in
    let (done, left) =
      poll_each_lem now ls_remote (live_pids a.db) (list_packages a.db) a.db v known in
    (done, left, refl)

-- The builds of the poll are not run: on a valid database whose channel to the worker holds ids that
-- were given out, a build that an iteration of the poll added stays as it is, however many rounds the
-- worker makes.
pub poll_once-unrun :
    (now : ℕ) (ls_remote : PkgName → Option Text) (os : ℕ → Outside) (n j : ℕ) (a : App)
    → IsValid a.db
    → All (λ i. i ≤ a.db.last_build_id) a.wakes
    → a.db.last_build_id < j
    → get_build j (work os n (poll_once now ls_remote a).0).db
      ≡ get_build j (poll_once now ls_remote a).0.db
unfolding poll_once
poll_once-unrun now ls_remote os n j a v known new =
    let (done, left, same) = poll_once_lem now ls_remote a v in
    work_unwoken os n j (poll_once now ls_remote a).0 left.valid
      (All-map_pred (λ i h e. omega (arith, h, e, new)) a.wakes known)
