-- ===== src/Daemon/Api/Packages.antt =====
-- The handlers of crates/paur-daemon/src/api.rs for packages. Those of one name with a statement of
-- the database are called by the method and the route.
use paur.Prelude.{
  ℕ, Bool, true, false, Option, none, some, List, [], ◌∷◌, map, ◌==◌, if◌then◌else◌, length,
}
use paur.Prelude.Text.{Text}
use paur.Prelude.Results.{not_found, invalid, Result, ok, err, ◌>>=◌, ok_or}
use paur.Core.Name as Name
use paur.Core.Name.{PkgName}
use paur.Core.Flags as Flags
use paur.Core.Flags.{PackageBuildFlags}
use paur.Core.Variants.{Variant, PackageVariants, active, is_active}
use paur.Aur.Refs.{aur_url}
use paur.Db.Models.{Db, Package, manual, rebuild}
use paur.Db.Packages.{
  upsert_package, get_package_by_name, list_packages, delete_package, set_auto_rebuild,
  set_build_flags, set_variants,
}
use paur.Daemon.State.{App, send_wake}
use paur.Db.Builds.{enqueue_build}
use paur.Daemon.Api.{PackageDto, from_pkg, parse_variants_field, enqueue_all_variants, answer}

unfoldable pub get_packages : App → List PackageDto
unfolding from_pkg list_packages
get_packages a = map (from_pkg a.db) (list_packages a.db)

unfoldable pub get_package : Text → App → Result PackageDto
unfolding from_pkg get_package_by_name
get_package name a = do p ← ok_or (get_package_by_name name a.db) not_found; ok (from_pkg a.db p)

-- `AddPackageBody`
pub record AddPackageBody : Type 0 where
  pub name : Text
  pub auto_rebuild : Bool
  pub variants : List Text

-- From the read of the new row to the end.
unfoldable pub enqueue_added : ℕ → ℕ → Option Package → App → App × Result PackageDto
unfolding enqueue_all_variants answer from_pkg
enqueue_added now id none a = (a, err not_found)
enqueue_added now id (some pkg) a =
    answer (enqueue_all_variants now id pkg.variants manual a) (λ b. ok (from_pkg b.db pkg))

unfoldable pub choose_variants :
    ℕ → ℕ → Text → Result PackageVariants → App → App × Result PackageDto
unfolding set_variants get_package_by_name enqueue_added
choose_variants now id name (err e) a = (a, err invalid)
choose_variants now id name (ok variants) a =
    let d = (set_variants name variants a.db).0 in
    enqueue_added now id (get_package_by_name name d) (record a { db = d })

-- The variants are read once the package is in the database.
unfoldable pub after_upsert :
    ℕ → AddPackageBody → Text → Result (Db × ℕ) → App → App × Result PackageDto
unfolding choose_variants parse_variants_field
after_upsert now body name (err e) a = (a, err e)
after_upsert now body name (ok (d, id)) a =
    choose_variants now id name (parse_variants_field body.variants) (record a { db = d })

unfoldable pub add_named : ℕ → AddPackageBody → Result PkgName → App → App × Result PackageDto
unfolding after_upsert upsert_package aur_url
add_named now body (err e) a = (a, err invalid)
add_named now body (ok name) a =
    after_upsert now body (name.as_str)
      (upsert_package now (name.as_str) (aur_url name) body.auto_rebuild a.db) a

unfoldable pub add_package : ℕ → AddPackageBody → App → App × Result PackageDto
unfolding add_named
add_package now body a = add_named now body (Name.new body.name) a

-- The end of the handlers that set a column: `n` rows were changed.
unfoldable pub answer_row : Text → ℕ → App → App × Result PackageDto
unfolding get_package
answer_row name n a = if n == 0 then (a, err not_found) else (a, get_package name a)

unfoldable pub set_package_auto : Text → Bool → App → App × Result PackageDto
unfolding set_auto_rebuild answer_row
set_package_auto name auto a =
    let (d, n) = set_auto_rebuild name auto a.db in answer_row name n (record a { db = d })

unfoldable pub set_package_flags : Text → PackageBuildFlags → App → App × Result PackageDto
unfolding set_build_flags answer_row get_package_by_name Flags.replace_from
set_package_flags name desired a = elim (get_package_by_name name a.db) [
  | none ↦ (a, err not_found)
  | some cur ↦
      let (d, n) = set_build_flags name (Flags.replace_from cur.build_flags desired) a.db in
      answer_row name n (record a { db = d })
]

-- The loop over `desired.active()`: each build that is enqueued is sent to the worker.
unfoldable pub enqueue_new : ℕ → ℕ → PackageVariants → List Variant → App → App × Result (Unit {0})
unfolding enqueue_build is_active send_wake
enqueue_new now id before [] a = (a, ok tt)
enqueue_new now id before (v ∷ vs) a = elim (is_active before v) [
  | true ↦ enqueue_new now id before vs a
  | false ↦ elim (enqueue_build now id manual v a.db) [
    | err e ↦ (a, err e)
    | ok (d, build) ↦ enqueue_new now id before vs (send_wake build (record a { db = d }))
  ]
]

unfoldable pub change_variants :
    ℕ → Text → PackageVariants → Option Package → App → App × Result PackageDto
unfolding set_variants enqueue_new answer get_package active
change_variants now name desired none a = (a, err not_found)
change_variants now name desired (some cur) a =
    let (d, n) = set_variants name desired a.db in
    let b = record a { db = d } in
    if n == 0
    then (b, err not_found)
    else answer (enqueue_new now cur.id cur.variants (active desired) b) (get_package name)

unfoldable pub set_package_variants : ℕ → Text → List Text → App → App × Result PackageDto
unfolding change_variants parse_variants_field get_package_by_name
set_package_variants now name variants a = elim (parse_variants_field variants) [
  | err e ↦ (a, err invalid)
  | ok desired ↦ change_variants now name desired (get_package_by_name name a.db) a
]

-- Removing the package from the repositories only warns when it fails.
unfoldable pub delete_found : Package → Result PkgName → App → App × Result ℕ
unfolding delete_package
delete_found p (err e) a = (a, err invalid)
delete_found p (ok name) a =
    let (d, n) = delete_package p.name a.db in
    (record a { db = d }, ok (if n == 0 then 404 else 204))

unfoldable pub delete_package_route : Text → App → App × Result ℕ
unfolding delete_found get_package_by_name
delete_package_route name a = elim (get_package_by_name name a.db) [
  | none ↦ (a, err not_found)
  | some p ↦ delete_found p (Name.new p.name) a
]

unfoldable pub rebuild_package : ℕ → Text → App → App × Result ℕ
unfolding enqueue_all_variants get_package_by_name answer active
rebuild_package now name a = elim (get_package_by_name name a.db) [
  | none ↦ (a, err not_found)
  | some p ↦
      answer (enqueue_all_variants now p.id p.variants rebuild a)
        (λ b. ok (length (active p.variants)))
]
