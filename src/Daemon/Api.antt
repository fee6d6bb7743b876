-- ===== src/Daemon/Api.antt =====
-- crates/paur-daemon/src/api.rs: the HTTP handlers. The routes that change something run behind the
-- `Admin` extractor of `Daemon.Auth`. A handler answers with the value that is put in its JSON.
pub mod Packages
pub mod Builds
pub mod Filters
pub mod Enqueues
pub mod Cancels
pub mod Valid
pub mod Handlers
pub mod Additions
use paur.Prelude.{
  ℕ, Bool, true, false, not, Option, none, some, List, [], ◌∷◌, ◌++◌, map, ◌==◌, ltb, if◌then◌else◌,
  length, unwrap_or,
}
use paur.Prelude.Text.{Text}
use paur.Prelude.Results.{
  Error, invalid_name, not_found, invalid, conflict, missing_dep, Result, ok, err, ◌>>=◌, ok_or,
}
use paur.Core.Name as Name
use paur.Core.Name.{PkgName}
use paur.Core.Flags as Flags
use paur.Core.Flags.{PackageBuildFlags}
use paur.Core.Variants as Variants
use paur.Core.Variants.{
  Variant, PackageVariants, default_variants, turn_on, active, is_active, all_variants,
}
use paur.Aur.Refs.{aur_url}
use paur.Db.Models.{
  Db, Package, Build, BuildStatus, queued, running, BuildTrigger, manual, rebuild, parse_status,
}
use paur.Db.Packages.{
  upsert_package, get_package_by_name, list_packages, delete_package, set_auto_rebuild,
  set_build_flags, set_variants,
}
use paur.Db.Builds.{
  CancelOutcome, was_cancelled, already_terminal, enqueue_build, latest_build_for,
  latest_build_for_variant,
}
use paur.Db.Logs.{read_logs}
use paur.Daemon.State.{App, has_id, remove_id, insert_id, send_wake}

-- `ApiError::into_response`
unfoldable pub status_code : Error → ℕ
status_code not_found = 404
status_code invalid = 400
status_code invalid_name = 400
status_code conflict = 409
status_code missing_dep = 501
status_code _ = 500

pub record PackageDto : Type 0 where
  pub pkg : Package
  pub latest_build : Option Build
  pub latest_builds : List Build

-- `if let Some(b)` for each variant
pub collect_latest : Db → ℕ → List Variant → List Build
unfolding latest_build_for_variant
collect_latest d id [] = []
collect_latest d id (v ∷ vs) = elim (latest_build_for_variant id v d) [
  | none ↦ collect_latest d id vs
  | some b ↦ b ∷ collect_latest d id vs
]

unfoldable pub from_pkg : Db → Package → PackageDto
unfolding collect_latest latest_build_for
from_pkg d pkg = record {
  pkg = pkg;
  latest_build = latest_build_for pkg.id d;
  latest_builds = collect_latest d pkg.id all_variants;
}

-- The loop of `parse_variants_field`, from the set that was collected so far.
unfoldable pub collect_variants : List Text → PackageVariants → Result PackageVariants
unfolding Variants.parse turn_on
collect_variants [] out = ok out
collect_variants (s ∷ ss) out = elim (Variants.parse s) [
  | none ↦ err invalid
  | some v ↦ collect_variants ss (turn_on out v)
]

unfoldable pub parse_variants_field : List Text → Result PackageVariants
unfolding collect_variants
parse_variants_field raw = collect_variants raw default_variants

-- `first_id.is_none()`
pub or_first : Option ℕ → ℕ → Option ℕ
or_first none id = some id
or_first (some first) id = some first

-- The loop of `enqueue_all_variants`. An error ends it, and what was enqueued before stays.
unfoldable pub enqueue_each :
    ℕ → ℕ → BuildTrigger → List Variant → Option ℕ → Db → Db × Result (Option ℕ)
unfolding enqueue_build or_first
enqueue_each now pkg_id trigger [] first_id d = (d, ok first_id)
enqueue_each now pkg_id trigger (v ∷ vs) first_id d = elim (enqueue_build now pkg_id trigger v d) [
  | err e ↦ (d, err e)
  | ok (e, id) ↦ enqueue_each now pkg_id trigger vs (or_first first_id id) e
]

unfoldable pub wake_first : Result (Option ℕ) → App → App × Result (Unit {0})
unfolding send_wake
wake_first (err e) a = (a, err e)
wake_first (ok none) a = (a, ok tt)
wake_first (ok (some id)) a = (send_wake id a, ok tt)

unfoldable pub enqueue_all_variants :
    ℕ → ℕ → PackageVariants → BuildTrigger → App → App × Result (Unit {0})
unfolding enqueue_each wake_first active
enqueue_all_variants now pkg_id variants trigger a =
    let (d, first_id) = enqueue_each now pkg_id trigger (active variants) none a.db in
    wake_first first_id (record a { db = d })

-- The end of a handler: its answer is computed from the state that it leaves.
unfoldable pub answer {ℓ} :
    {A : Type ℓ} → App × Result (Unit {0}) → (App → Result A) → App × Result A
answer (a, err e) f = (a, err e)
answer (a, ok u) f = (a, f a)
