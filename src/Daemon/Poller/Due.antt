-- ===== src/Daemon/Poller/Due.antt =====
-- Which packages an iteration of the poll of crates/paur-daemon/src/poller.rs builds.
use paur.Prelude.{
  ℕ, ◌≡◌, ◌≤◌, refl, ap, ◌∙◌, subst, Bool, true, false, not, ◌&&◌, ◌||◌, Option, none, some, List,
  [], ◌∷◌, ◌++◌, map, arith, any, length, take, ◌==◌, if◌then◌else◌,
}
use paur.Prelude.Text.{Text, text_eq}
use paur.Prelude.Tables.{select, sort_desc}
use paur.Prelude.Tables.Counting.{any-sort_desc, length-sort_desc, take-all}
use paur.Prelude.Results.{Result, ok, err}
use paur.Core.Name as Name
use paur.Core.Name.{PkgName}
use paur.Aur.Refs.{latest_ref}
use paur.Db.Models.{Db, Package, Build, BuildStatus, queued, running, status_eq}
use paur.Db.Packages.{list_packages}
use paur.Db.Builds.{list_builds, pkg_cond, status_cond, variant_cond}
use paur.Db.Invariant.{IsValid, is_terminal}
use paur.Daemon.State.{App, has_id}
use paur.Daemon.Poller.{poll_once, is_due, live_pids, advanced, has_advanced}
use paur.Daemon.Poller.Laws.{Polled, poll_once_lem}

-- A reference that is read, and is not the one that is known.
abbrev pub is_new : Option Text → Result Text → Bool
is_new known (err e) = false
is_new none (ok head) = true
is_new (some r) (ok head) = not (text_eq r head)

abbrev pub head_of : (PkgName → Option Text) → Result PkgName → Result Text
head_of ls_remote (err e) = err e
head_of ls_remote (ok name) = latest_ref (ls_remote name)

-- A build of the package is queued or running.
abbrev pub is_live : Db → Package → Bool
is_live d p = any (λ (b : Build). b.package_id == p.id && not (is_terminal b.status)) d.builds

abbrev pub due : (PkgName → Option Text) → Db → Package → Bool
due ls_remote d p =
    p.auto_rebuild
    && (not (is_live d p) && is_new p.last_known_ref (head_of ls_remote (Name.new p.name)))

-- The builds of a status.
abbrev pub in_status : BuildStatus → Db → List Build
in_status s d = select (λ b. status_eq b.status s) d.builds

has_id-pids :
    (id : ℕ) (bs : List Build)
    → has_id id (map (λ (b : Build). b.package_id) bs) ≡ any (λ (b : Build). b.package_id == id) bs
has_id-pids id [] = refl
has_id-pids id (b ∷ bs) = ground (arith, has_id-pids id bs)

has_id-append : (id : ℕ) (xs ys : List ℕ) → has_id id (xs ++ ys) ≡ (has_id id xs || has_id id ys)
has_id-append id [] ys = refl
has_id-append id (x ∷ xs) ys = ground (arith, has_id-append id xs ys)

listed :
    (id : ℕ) (s : BuildStatus) (d : Db)
    → length (in_status s d) ≤ 1000
    → has_id id (map (λ (b : Build). b.package_id) (list_builds none (some s) none 1000 d))
      ≡ any (λ (b : Build). b.package_id == id) (in_status s d)
unfolding list_builds pkg_cond status_cond variant_cond
listed id s d few =
    let plain : (b : Build) → (true && status_eq b.status s && true) ≡ status_eq b.status s =
      λ b. ground arith in
    let sorted = sort_desc (λ (b : Build). b.queued_at) (in_status s d) in
    let whole : take 1000 sorted ≡ sorted = take-all 1000 sorted (
      let same = length-sort_desc (λ (b : Build). b.queued_at) (in_status s d) in
      omega (arith, same, few)) in
    ap
      (λ (p : Build → Bool). has_id id (
        map (λ (b : Build). b.package_id)
          (take 1000 (sort_desc (λ (b : Build). b.queued_at) (select p d.builds)))))
      (λ i b. plain b i)
    ∙ ap (λ bs. has_id id (map (λ (b : Build). b.package_id) bs)) whole
    ∙ has_id-pids id sorted
    ∙ any-sort_desc (λ (b : Build). b.queued_at) (λ (b : Build). b.package_id == id) (in_status s d)

both_statuses :
    (id : ℕ) (bs : List Build)
    → (any (λ (b : Build). b.package_id == id) (select (λ b. status_eq b.status queued) bs)
        || any (λ (b : Build). b.package_id == id) (select (λ b. status_eq b.status running) bs))
      ≡ any (λ (b : Build). b.package_id == id && not (is_terminal b.status)) bs
unfolding select status_eq is_terminal
both_statuses id [] = refl
both_statuses id (b ∷ bs) = by_status b.status (both_statuses id bs)
  where
    by_status :
        (s : BuildStatus)
        → (any (λ (b : Build). b.package_id == id) (select (λ b. status_eq b.status queued) bs)
            || any
                (λ (b : Build). b.package_id == id)
                (select (λ b. status_eq b.status running) bs))
          ≡ any (λ (b : Build). b.package_id == id && not (is_terminal b.status)) bs
        → (any
              (λ (b : Build). b.package_id == id)
              (if status_eq s queued
                then b ∷ select (λ b. status_eq b.status queued) bs
                else select (λ b. status_eq b.status queued) bs)
            || any
                (λ (b : Build). b.package_id == id)
                (if status_eq s running
                  then b ∷ select (λ b. status_eq b.status running) bs
                  else select (λ b. status_eq b.status running) bs))
          ≡ ((b.package_id == id && not (is_terminal s))
              || any (λ (b : Build). b.package_id == id && not (is_terminal b.status)) bs)
    by_status s h = ground (arith, h)

has_advanced-new :
    (known : Option Text) (head : Result Text) → has_advanced known head ≡ is_new known head
unfolding has_advanced
has_advanced-new known (err e) = refl
has_advanced-new none (ok head) = refl
has_advanced-new (some r) (ok head) = refl

advanced-new :
    (ls_remote : PkgName → Option Text) (known : Option Text) (name : Result PkgName)
    → advanced ls_remote known name ≡ is_new known (head_of ls_remote name)
unfolding advanced
advanced-new ls_remote known (err e) = refl
advanced-new ls_remote known (ok name) = has_advanced-new known (latest_ref (ls_remote name))

is_due-eq :
    (ls_remote : PkgName → Option Text) (d : Db) (p : Package)
    → length (in_status queued d) ≤ 1000
    → length (in_status running d) ≤ 1000
    → is_due ls_remote (live_pids d) p ≡ due ls_remote d p
unfolding is_due live_pids
is_due-eq ls_remote d p q r =
    let live : has_id p.id (live_pids d) ≡ is_live d p =
      has_id-append p.id
        (map (λ (b : Build). b.package_id) (list_builds none (some queued) none 1000 d))
        (map (λ (b : Build). b.package_id) (list_builds none (some running) none 1000 d))
      ∙ rw (listed p.id queued d q, listed p.id running d r) (both_statuses p.id d.builds) in
    ground (arith, live, advanced-new ls_remote p.last_known_ref (Name.new p.name))

-- On a valid database with at most a thousand queued and a thousand running builds an iteration of the
-- poll succeeds and keeps the invariant. It adds one queued build of the default variant for each
-- package that is to be rebuilt automatically, has no build that is queued or running, and whose valid
-- name has a reference at its remote that is not the last known one, in the order of the list of
-- packages, and nothing else to the builds; the packages and the channel to the worker stay as they are.
pub poll_once-due :
    (now : ℕ) (ls_remote : PkgName → Option Text) (a : App)
    → IsValid a.db
    → length (in_status queued a.db) ≤ 1000
    → length (in_status running a.db) ≤ 1000
    → ((poll_once now ls_remote a).1 ≡ ok tt)
      × Polled a.db
          (poll_once now ls_remote a).0.db
          (select (due ls_remote a.db) (list_packages a.db))
      × ((poll_once now ls_remote a).0.wakes ≡ a.wakes)
poll_once-due now ls_remote a v q r =
    let (done, left, same) = poll_once_lem now ls_remote a v in
    (
      done,
      subst
          (λ (p : Package → Bool).
            Polled a.db (poll_once now ls_remote a).0.db (select p (list_packages a.db)))
          (λ i p. is_due-eq ls_remote a.db p q r i) left,
      same,
    )
