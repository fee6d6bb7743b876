-- ===== src/Daemon/Worker/StartUp.antt =====
-- The start of `run` in crates/paur-daemon/src/worker.rs: what it makes of the builds that the last
-- run left behind.
use paur.Prelude.{
  ℕ, ◌≡◌, ◌≤◌, refl, Bool, true, false, not, ◌&&◌, ◌||◌, none, some, List, [], ◌∷◌, ◌++◌, map,
  arith, any, All, All-map_pred, length, take, ◌==◌, ==_refl, negsuc,
}
use paur.Prelude.Tables.{update, select, sort_desc}
use paur.Prelude.Tables.Counting.{any-sort_desc, length-sort_desc, length-select_le, take-all}
use paur.Prelude.Results.{ok}
use paur.Db.Models.{Db, Build, queued, running, failed, status_eq}
use paur.Db.Builds.{list_builds, reap_stale_running, pkg_cond, status_cond, variant_cond}
use paur.Db.Invariant.{IsValid}
use paur.Db.Invariant.OfBuilds.{reap-IsValid}
use paur.Daemon.State.{App, has_id}
use paur.Daemon.Worker.{start_up}

abbrev reaped : ℕ → Build → Build
reaped now b = record b { status = failed; finished_at = some now; exit_code = some (negsuc 0) }

All-reaped :
    (now : ℕ) (bs : List Build)
    → All
        (λ b. status_eq b.status running ≡ false)
        (update (λ b. status_eq b.status running) (reaped now) bs)
unfolding update status_eq
All-reaped now [] = tt
All-reaped now (b ∷ bs) = (ground arith, All-reaped now bs)

-- No build is running once the stale ones are failed.
none_running :
    (now : ℕ) (d : Db)
    → All (λ b. status_eq b.status running ≡ false) (reap_stale_running now d).0.builds
unfolding reap_stale_running
none_running now d = All-reaped now d.builds

length-update :
    (p : Build → Bool) (f : Build → Build) (bs : List Build) → length (update p f bs) ≡ length bs
unfolding update
length-update p f [] = refl
length-update p f (b ∷ bs) = ground (arith, length-update p f bs)

length-reap : (now : ℕ) (d : Db) → length (reap_stale_running now d).0.builds ≡ length d.builds
unfolding reap_stale_running
length-reap now d = length-update (λ b. status_eq b.status running) (reaped now) d.builds

has_id-append : (id : ℕ) (xs ys : List ℕ) → has_id id (xs ++ ys) ≡ (has_id id xs || has_id id ys)
has_id-append id [] ys = refl
has_id-append id (x ∷ xs) ys = ground (arith, has_id-append id xs ys)

has_id-map :
    (id : ℕ) (bs : List Build)
    → has_id id (map (λ (b : Build). b.id) bs) ≡ any (λ (b : Build). b.id == id) bs
has_id-map id [] = refl
has_id-map id (b ∷ bs) = ground (arith, has_id-map id bs)

-- A selected row is found among the selected ones.
selected-known :
    (p : Build → Bool) (bs : List Build)
    → All (λ b. (not (p b) || any (λ (c : Build). c.id == b.id) (select p bs)) ≡ true) bs
unfolding select
selected-known p [] = tt
selected-known p (b ∷ bs) =
    (ground (arith, ==_refl b.id), All-map_pred (λ c h. ground (arith, h)) bs (selected-known p bs))

abbrev ids : List Build → List ℕ
ids bs = map (λ (b : Build). b.id) bs

-- The ids that the scan sends, if there are at most 10000 builds: those of all the queued ones.
scanned :
    (d : Db)
    → length d.builds ≤ 10000
    → All
        (λ b.
          (not (status_eq b.status queued)
            || has_id b.id (ids (list_builds none (some queued) none 10000 d)))
          ≡ true)
        d.builds
unfolding list_builds pkg_cond status_cond variant_cond
scanned d few =
    let p = λ (b : Build). true && status_eq b.status queued && true in
    let sorted = sort_desc (λ (b : Build). b.queued_at) (select p d.builds) in
    let short = length-sort_desc (λ (b : Build). b.queued_at) (select p d.builds) in
    let fewer = length-select_le p d.builds in
    let whole : take 10000 sorted ≡ sorted =
      take-all 10000 sorted (omega (arith, short, fewer, few)) in
    All-map_pred
      (λ b h.
        let there =
          any-sort_desc (λ (c : Build). c.queued_at) (λ (c : Build). c.id == b.id)
            (select p d.builds) in
        ground (arith, h, there, whole, has_id-map b.id sorted))
      d.builds (selected-known p d.builds)

-- The start of the daemon on a valid database with at most 10000 builds leaves a valid database in
-- which no build is running, and sends the worker the id of every build that is queued.
pub start_up-recovers :
    (max_workers now : ℕ) (a b : App)
    → IsValid a.db
    → length a.db.builds ≤ 10000
    → start_up max_workers now a ≡ ok b
    → IsValid b.db
      × All (λ r. status_eq r.status running ≡ false) b.db.builds
      × All (λ r. (not (status_eq r.status queued) || has_id r.id b.wakes) ≡ true) b.db.builds
unfolding start_up
start_up-recovers max_workers now a b v few h =
    let d = (reap_stale_running now a.db).0 in
    let sent = list_builds none (some queued) none 10000 d in
    let same : b ≡ record a { db = d; wakes = a.wakes ++ ids sent } = ground arith in
    let count = length-reap now a.db in
    rw same (
      reap-IsValid now a.db v,
      none_running now a.db,
      All-map_pred (λ r k. ground (arith, k, has_id-append r.id a.wakes (ids sent))) d.builds
          (scanned d (omega (arith, count, few))),
    )
