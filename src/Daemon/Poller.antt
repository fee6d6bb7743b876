-- ===== src/Daemon/Poller.antt =====
-- crates/paur-daemon/src/poller.rs: one iteration of the poll.
pub mod Laws
pub mod Due
use paur.Prelude.{
  ℕ, Bool, true, false, not, Option, none, some, List, [], ◌∷◌, ◌++◌, map, if◌then◌else◌,
}
use paur.Prelude.Text.{Text, codes, text_eq}
use paur.Prelude.Results.{Result, ok, err}
use paur.Core.Name as Name
use paur.Core.Name.{PkgName}
use paur.Core.Variants as Variants
use paur.Core.Variants.{Variant}
use paur.Aur.Refs.{latest_ref}
use paur.Db.Models.{Db, Package, Build, BuildStatus, queued, running, BuildTrigger, poll}
use paur.Db.Packages.{list_packages}
use paur.Db.Builds.{list_builds, enqueue_build}
use paur.Daemon.State.{App, has_id}

-- The packages with a queued or running build, among the newest thousand of each.
unfoldable pub live_pids : Db → List ℕ
unfolding list_builds
live_pids d =
    map (λ (b : Build). b.package_id) (list_builds none (some queued) none 1000 d)
    ++ map (λ (b : Build). b.package_id) (list_builds none (some running) none 1000 d)

-- `p.last_known_ref.as_deref() == Some(latest)`
abbrev pub is_known : Option Text → Text → Bool
is_known none latest = false
is_known (some r) latest = text_eq r latest

-- An invalid name and a failing `git ls-remote` skip the package.
unfoldable pub has_advanced : Option Text → Result Text → Bool
has_advanced known (err e) = false
has_advanced known (ok latest) = not (is_known known latest)

unfoldable pub advanced : (PkgName → Option Text) → Option Text → Result PkgName → Bool
unfolding has_advanced latest_ref
advanced ls_remote known (err e) = false
advanced ls_remote known (ok name) = has_advanced known (latest_ref (ls_remote name))

-- Whether the iteration enqueues a build for the package.
unfoldable pub is_due : (PkgName → Option Text) → List ℕ → Package → Bool
unfolding advanced
is_due ls_remote live p =
    if not p.auto_rebuild
    then false
    else if has_id p.id live
    then false
    else advanced ls_remote p.last_known_ref (Name.new p.name)

-- The loop over the packages; an error of the database ends it.
unfoldable pub poll_each :
    ℕ → (PkgName → Option Text) → List ℕ → List Package → Db → Db × Result (Unit {0})
unfolding is_due enqueue_build
poll_each now ls_remote live [] d = (d, ok tt)
poll_each now ls_remote live (p ∷ ps) d = elim (is_due ls_remote live p) [
  | false ↦ poll_each now ls_remote live ps d
  | true ↦ elim (enqueue_build now p.id poll Variant.default d) [
    | err e ↦ (d, err e)
    | ok (e, id) ↦ poll_each now ls_remote live ps e
  ]
]

-- Nothing is sent to the worker.
unfoldable pub poll_once : ℕ → (PkgName → Option Text) → App → App × Result (Unit {0})
unfolding live_pids poll_each
poll_once now ls_remote a =
    let (d, r) = poll_each now ls_remote (live_pids a.db) (list_packages a.db) a.db in
    (record a { db = d }, r)
