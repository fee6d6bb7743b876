-- ===== src/Daemon/Api/Handlers.antt =====
-- The handlers of crates/paur-daemon/src/api.rs and the statements that they make.
use paur.Prelude.{
  ℕ, suc, ◌≡◌, refl, Bool, true, false, Option, none, some, List, [], ◌∷◌, arith, ◌==◌, inl, inr,
  Bool-cases, Option-cases, subst, sym, if◌then◌else◌,
}
use paur.Prelude.Text.{Text}
use paur.Prelude.Results.{ok, err, Result-cases, db}
use paur.Core.Name as Name
use paur.Core.Name.{PkgName}
use paur.Core.Flags as Flags
use paur.Core.Flags.{PackageBuildFlags, no_flags}
use paur.Core.Variants.{Variant, PackageVariants, active, is_active}
use paur.Db.Models.{Db, Package, manual, rebuild}
use paur.Db.Packages.{get_package_by_name, set_auto_rebuild, set_build_flags, set_variants}
use paur.Db.Builds as Builds
use paur.Db.Builds.{enqueue_build}
use paur.Db.Invariant.{IsValid, has_package}
use paur.Db.Invariant.Enqueue.{enqueued, enqueue_build-eq}
use paur.Daemon.State.{App, send_wake}
use paur.Daemon.Api.{
  PackageDto, or_first, enqueue_each, wake_first, enqueue_all_variants, answer,
  parse_variants_field,
}
use paur.Daemon.Api.Packages.{
  AddPackageBody, add_package, add_named, after_upsert, choose_variants, enqueue_added, answer_row,
  set_package_auto, set_package_flags, set_package_variants, change_variants, enqueue_new,
  delete_package_route, delete_found, rebuild_package,
}
use paur.Daemon.Api.Builds.{cancel_build, after_cancel, fire}
use paur.Daemon.Api.Valid.{RunsTo, add_named-Runs, enqueue_all_variants-Runs, answer-Runs}
use paur.Db.Statements.{
  Runs, and_then, none_yet, deletes, cancels, sets_variants, sets_build_flags, sets_auto_rebuild,
  enqueued-Runs, Runs-IsValid,
}

module _ {d0 : Db} where
  answer_row-Runs : (name : Text) (n : ℕ) (a : App) → Runs d0 a.db → RunsTo d0 (answer_row name n a)
  unfolding answer_row
  answer_row-Runs name n a w = elim (Bool-cases (n == 0)) [ inl e ↦ rw e w | inr e ↦ rw e w ]

  set_package_flags-Runs :
      (name : Text) (flags : PackageBuildFlags) (a : App)
      → Runs d0 a.db
      → RunsTo d0 (set_package_flags name flags a)
  unfolding set_package_flags
  set_package_flags-Runs name flags a w = elim (Option-cases (get_package_by_name name a.db)) [
    | inl gone ↦ rw (gone, set_package_flags) w
    | inr (cur, here) ↦
        let next = Flags.replace_from cur.build_flags flags in
        let (d, n) = set_build_flags name next a.db in
        rw (here, set_package_flags)
          (answer_row-Runs name n (record a { db = d })
            (and_then w (sets_build_flags name next refl)))
  ]

  enqueue_new-Runs :
      (now id : ℕ) (p : PackageVariants) (vs : List Variant) (a : App)
      → Runs d0 a.db
      → RunsTo d0 (enqueue_new now id p vs a)
  unfolding enqueue_new send_wake
  enqueue_new-Runs now id p [] a w = w
  enqueue_new-Runs now id p (v ∷ vs) a w = elim (Bool-cases (is_active p v)) [
    | inl on ↦
        let skip : enqueue_new now id p (v ∷ vs) a ≡ enqueue_new now id p vs a =
          ground (arith, on) in
        rw skip (enqueue_new-Runs now id p vs a w)
    | inr off ↦ elim (Bool-cases (has_package a.db.packages id)) [
      | inl owner ↦
          let d = enqueued now id manual v a.db in
          let b = send_wake (suc a.db.last_build_id) (record a { db = d }) in
          let step : enqueue_new now id p (v ∷ vs) a ≡ enqueue_new now id p vs b =
            ground (arith, enqueue_build-eq now id manual v a.db, owner, off) in
          rw step (enqueue_new-Runs now id p vs b (enqueued-Runs now id manual v a.db owner w))
      | inr gone ↦
          let stop : enqueue_new now id p (v ∷ vs) a ≡ (a, err db) =
            ground (arith, enqueue_build-eq now id manual v a.db, gone, off) in
          rw stop w
    ]
  ]

  change_variants-Runs :
      (now : ℕ) (name : Text) (desired : PackageVariants) (q : Option Package) (a : App)
      → Runs d0 a.db
      → RunsTo d0 (change_variants now name desired q a)
  unfolding change_variants
  change_variants-Runs now name desired none a w = w
  change_variants-Runs now name desired (some cur) a w =
      let (d, n) = set_variants name desired a.db in
      let b = record a { db = d } in
      let kept = and_then w (sets_variants name desired refl) in
      elim (Bool-cases (n == 0)) [
        | inl e ↦ rw (e, change_variants) kept
        | inr e ↦
            rw (e, change_variants)
              (answer-Runs (enqueue_new now cur.id cur.variants (active desired) b)
                (paur.Daemon.Api.Packages.get_package name)
                (enqueue_new-Runs now cur.id cur.variants (active desired) b kept))
      ]

  set_package_variants-Runs :
      (now : ℕ) (name : Text) (raw : List Text) (a : App)
      → Runs d0 a.db
      → RunsTo d0 (set_package_variants now name raw a)
  unfolding set_package_variants
  set_package_variants-Runs now name raw a w = elim (Result-cases (parse_variants_field raw)) [
    | inr (e, bad) ↦ rw (bad, set_package_variants) w
    | inl (desired, good) ↦
        rw (good, set_package_variants)
          (change_variants-Runs now name desired (get_package_by_name name a.db) a w)
  ]

  delete_package-Runs :
      (name : Text) (a : App) → Runs d0 a.db → RunsTo d0 (delete_package_route name a)
  unfolding delete_package_route delete_found
  delete_package-Runs name a w = elim (Option-cases (get_package_by_name name a.db)) [
    | inl gone ↦ rw (gone, delete_package_route) w
    | inr (p, here) ↦ elim (Result-cases (Name.new p.name)) [
      | inr (e, bad) ↦ rw (here, bad, delete_package_route) w
      | inl (n, good) ↦ rw (here, good, delete_package_route) (and_then w (deletes p.name refl))
    ]
  ]

  rebuild_package-Runs :
      (now : ℕ) (name : Text) (a : App) → Runs d0 a.db → RunsTo d0 (rebuild_package now name a)
  unfolding rebuild_package
  rebuild_package-Runs now name a w = elim (Option-cases (get_package_by_name name a.db)) [
    | inl gone ↦ rw (gone, rebuild_package) w
    | inr (p, here) ↦
        rw (here, rebuild_package)
          (answer-Runs (enqueue_all_variants now p.id p.variants rebuild a)
            (λ b. ok (paur.Prelude.length (active p.variants)))
            (enqueue_all_variants-Runs now p.id p.variants rebuild a w))
  ]

after_cancel_db : (id : ℕ) (o : Builds.CancelOutcome) (a : App) → (after_cancel id o a).0.db ≡ a.db
unfolding after_cancel fire
after_cancel_db id o a = ground arith

-- Every handler that changes something makes statements of the database, whatever it is asked and
-- whatever it answers.
pub handlers-Runs :
    (now id : ℕ) (name : Text) (body : AddPackageBody) (auto : Bool) (flags : PackageBuildFlags)
    (a : App)
    → RunsTo a.db (add_package now body a)
      × RunsTo a.db (set_package_auto name auto a)
      × RunsTo a.db (set_package_flags name flags a)
      × RunsTo a.db (set_package_variants now name body.variants a)
      × RunsTo a.db (delete_package_route name a)
      × RunsTo a.db (rebuild_package now name a)
      × RunsTo a.db (cancel_build now id a)
unfolding add_package set_package_auto cancel_build
handlers-Runs now id name body auto flags a =
    let (d, n) = set_auto_rebuild name auto a.db in
    let (e, outcome) = Builds.cancel_build now id a.db in
    (
      add_named-Runs now body (Name.new body.name) a none_yet,
      answer_row-Runs name n (record a { db = d })
          (and_then none_yet (sets_auto_rebuild name auto refl)),
      set_package_flags-Runs name flags a none_yet,
      set_package_variants-Runs now name body.variants a none_yet,
      delete_package-Runs name a none_yet,
      rebuild_package-Runs now name a none_yet,
      subst (Runs a.db) (sym (after_cancel_db id outcome (record a { db = e })))
          (and_then none_yet (cancels now id refl)),
    )

-- Every handler that changes something keeps the invariant of the database, whatever it is asked and
-- whatever it answers: adding a package, setting its `auto_rebuild`, its flags and its variants,
-- deleting it, rebuilding it, and cancelling a build.
pub handlers-IsValid :
    (now id : ℕ) (name : Text) (body : AddPackageBody) (auto : Bool) (flags : PackageBuildFlags)
    (a : App)
    → IsValid a.db
    → IsValid (add_package now body a).0.db
      × IsValid (set_package_auto name auto a).0.db
      × IsValid (set_package_flags name flags a).0.db
      × IsValid (set_package_variants now name body.variants a).0.db
      × IsValid (delete_package_route name a).0.db
      × IsValid (rebuild_package now name a).0.db
      × IsValid (cancel_build now id a).0.db
handlers-IsValid now id name body auto flags a v =
    let keeps : (e : Db) → Runs a.db e → IsValid e = λ e r. Runs-IsValid a.db e v r in
    let (added, automatic, flagged, varied, deleted, rebuilt, stopped) =
      handlers-Runs now id name body auto flags a in
    (
      keeps (add_package now body a).0.db added,
      keeps (set_package_auto name auto a).0.db automatic,
      keeps (set_package_flags name flags a).0.db flagged,
      keeps (set_package_variants now name body.variants a).0.db varied,
      keeps (delete_package_route name a).0.db deleted,
      keeps (rebuild_package now name a).0.db rebuilt,
      keeps (cancel_build now id a).0.db stopped,
    )
