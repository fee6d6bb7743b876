-- ===== src/Daemon/Api/Valid.antt =====
-- The queueing of builds and the addition of a package by crates/paur-daemon/src/api.rs, and the
-- statements that they make.
use paur.Prelude.{
  ℕ, suc, ◌≡◌, refl, Bool, Option, none, some, List, [], ◌∷◌, arith, inl, inr, Bool-cases, subst,
  sym,
}
use paur.Prelude.Text.{Text}
use paur.Prelude.Results.{Result, ok, err, Result-cases, db, ok_or, ◌>>=◌}
use paur.Prelude.Tables.{find}
use paur.Core.Name.{PkgName}
use paur.Core.Variants.{Variant, PackageVariants, active}
use paur.Aur.Refs.{aur_url}
use paur.Db.Models.{Db, Package, BuildTrigger, manual}
use paur.Db.Packages.{upsert_package, insert_package, get_package_by_name, set_variants, named}
use paur.Db.Invariant.{has_package}
use paur.Db.Invariant.Enqueue.{enqueued, enqueue_build-eq}
use paur.Daemon.State.{App, send_wake}
use paur.Daemon.Api.{
  PackageDto, or_first, enqueue_each, wake_first, enqueue_all_variants, answer,
  parse_variants_field,
}
use paur.Daemon.Api.Packages.{
  AddPackageBody, add_named, after_upsert, choose_variants, enqueue_added,
}
use paur.Db.Statements.{Runs, and_then, upserts, sets_variants, enqueued-Runs}

-- A handler leaves a database that statements lead to.
abbrev pub RunsTo {ℓ} : Db → {A : Type ℓ} → App × Result A → Type 0
RunsTo d x = Runs d x.0.db

wake_first_db : (r : Result (Option ℕ)) (a : App) → (wake_first r a).0.db ≡ a.db
unfolding wake_first send_wake
wake_first_db (err e) a = refl
wake_first_db (ok none) a = refl
wake_first_db (ok (some id)) a = refl

abbrev with_id : Db → Package → Result (Db × ℕ)
with_id d row = ok (d, row.id)

upserted_from :
    (q : Option Package) (d e : Db) (id : ℕ) → (ok_or q db >>= with_id d) ≡ ok (e, id) → e ≡ d
upserted_from none d e id h = absurd (ground arith)
upserted_from (some row) d e id h = ground arith

-- What `upsert_package` leaves, if it succeeds.
upserted :
    (now : ℕ) (name url : Text) (auto : Bool) (d e : Db) (id : ℕ)
    → upsert_package now name url auto d ≡ ok (e, id)
    → e ≡ insert_package now name url auto d
unfolding upsert_package
upserted now name url auto d e id h =
    upserted_from (find (named name) (insert_package now name url auto d).packages)
      (insert_package now name url auto d) e id h

module _ {d0 : Db} where
  enqueue_each-Runs :
      (now pkg : ℕ) (t : BuildTrigger) (vs : List Variant) (first : Option ℕ) (d : Db)
      → Runs d0 d
      → Runs d0 (enqueue_each now pkg t vs first d).0
  unfolding enqueue_each
  enqueue_each-Runs now pkg t [] first d w = w
  enqueue_each-Runs now pkg t (v ∷ vs) first d w = elim (Bool-cases (has_package d.packages pkg)) [
    | inl owner ↦
        let d1 = enqueued now pkg t v d in
        let first1 = or_first first (suc d.last_build_id) in
        let step : enqueue_each now pkg t (v ∷ vs) first d ≡ enqueue_each now pkg t vs first1 d1 =
          ground (arith, enqueue_build-eq now pkg t v d, owner) in
        rw step (enqueue_each-Runs now pkg t vs first1 d1 (enqueued-Runs now pkg t v d owner w))
    | inr gone ↦
        let stop : enqueue_each now pkg t (v ∷ vs) first d ≡ (d, err db) =
          ground (arith, enqueue_build-eq now pkg t v d, gone) in
        rw stop w
  ]

  pub enqueue_all_variants-Runs :
      (now pkg : ℕ) (p : PackageVariants) (t : BuildTrigger) (a : App)
      → Runs d0 a.db
      → RunsTo d0 (enqueue_all_variants now pkg p t a)
  unfolding enqueue_all_variants
  enqueue_all_variants-Runs now pkg p t a w =
      let (d, first) = enqueue_each now pkg t (active p) none a.db in
      subst (Runs d0) (sym (wake_first_db first (record a { db = d })))
        (enqueue_each-Runs now pkg t (active p) none a.db w)

  pub answer-Runs {ℓ} :
      {A : Type ℓ} (x : App × Result (Unit {0})) (f : App → Result A)
      → RunsTo d0 x
      → RunsTo d0 (answer x f)
  unfolding answer
  answer-Runs (a, err e) f w = w
  answer-Runs (a, ok u) f w = w

  enqueue_added-Runs :
      (now id : ℕ) (q : Option Package) (a : App)
      → Runs d0 a.db
      → RunsTo d0 (enqueue_added now id q a)
  unfolding enqueue_added
  enqueue_added-Runs now id none a w = w
  enqueue_added-Runs now id (some pkg) a w =
      answer-Runs (enqueue_all_variants now id pkg.variants manual a)
        (λ b. ok (paur.Daemon.Api.from_pkg b.db pkg))
        (enqueue_all_variants-Runs now id pkg.variants manual a w)

  choose_variants-Runs :
      (now id : ℕ) (name : Text) (r : Result PackageVariants) (a : App)
      → Runs d0 a.db
      → RunsTo d0 (choose_variants now id name r a)
  unfolding choose_variants
  choose_variants-Runs now id name (err e) a w = w
  choose_variants-Runs now id name (ok vs) a w =
      let d = (set_variants name vs a.db).0 in
      enqueue_added-Runs now id (get_package_by_name name d) (record a { db = d })
        (and_then w (sets_variants name vs refl))

  pub add_named-Runs :
      (now : ℕ) (body : AddPackageBody) (n : Result PkgName) (a : App)
      → Runs d0 a.db
      → RunsTo d0 (add_named now body n a)
  unfolding add_named after_upsert
  add_named-Runs now body (err e) a w = w
  add_named-Runs now body (ok name) a w =
      elim (Result-cases (upsert_package now name.as_str (aur_url name) body.auto_rebuild a.db)) [
        | inr (e, bad) ↦ rw bad w
        | inl ((d, id), good) ↦ rw good (
            choose_variants-Runs now id name.as_str (parse_variants_field body.variants)
              (record a { db = d })
              (and_then w (
                upserts now name.as_str (aur_url name) body.auto_rebuild
                  (upserted now name.as_str (aur_url name) body.auto_rebuild a.db d id good))))
      ]
