-- ===== src/Daemon/Worker/Rounds.antt =====
-- The loop of the worker of crates/paur-daemon/src/worker.rs: the ids in the channel to the worker,
-- and the builds with other ids.
use paur.Prelude.{
  ℕ, zero, suc, ◌≡◌, refl, ◌∙◌, ap, ◌≢◌, Option, none, some, List, [], ◌∷◌, ◌==◌, arith, inl, inr,
  ==_iff, All,
}
use paur.Prelude.Tables.Laws.{find_holds}
use paur.Prelude.Results.{Result, ok, err, Result-cases}
use paur.Core.Name as Name
use paur.Core.Name.{PkgName}
use paur.Core.Variants as Variants
use paur.Core.Variants.{Variant}
use paur.Builder.{BuildOutcome, run_in_container}
use paur.Db.Models.{Db, Package, Build}
use paur.Db.Packages.{list_packages}
use paur.Db.Builds.{get_build, with_id, claim_build_by_id, set_running}
use paur.Db.Invariant.{IsValid}
use paur.Db.Invariant.Transitions.{claim_build_by_id-eq}
use paur.Db.Lifecycle.{get_build-set_running_ne, claim-inversion}
use paur.Daemon.State.{App, drop_channel}
use paur.Daemon.Worker.{
  Outside, process_claimed, process_one, worker_id, after_claim, after_container, finish,
  with_variant, run_build, request, after_lines, with_package, with_name, register, work,
}
use paur.Daemon.Worker.Frame.{process_claimed_ne, after_lines-LogsOnly}
use paur.Daemon.Worker.Valid.{process_one-IsValid}
use paur.Prelude.Tables.{find}

-- A claim that finds nothing to do leaves the database.
claim_none :
    (now id : ℕ) (d e : Db)
    → IsValid d
    → claim_build_by_id now id worker_id d ≡ ok (e, none)
    → e ≡ d
claim_none now id d e v h = ground (arith, claim_build_by_id-eq now id worker_id d v)

claimed_id :
    (now id : ℕ) (d e : Db) (b : Build)
    → IsValid d
    → claim_build_by_id now id worker_id d ≡ ok (e, some b)
    → (b.id ≡ id) × (e ≡ set_running now id worker_id d)
unfolding get_build
claimed_id now id d e b v h =
    let (row, here, q, moved, same) = claim-inversion now id worker_id d e b v h in
    let keyed = find_holds (with_id id) d.builds row here in
    (ground (arith, ==_iff row.id id), moved)

-- A round of the worker on one id leaves every other build of a valid database as it is, whatever
-- the container, the publishing and the errors.
pub process_one_ne :
    (o : Outside) (id j : ℕ) (a : App)
    → IsValid a.db
    → j ≢ id
    → get_build j (process_one o id a).0.db ≡ get_build j a.db
unfolding process_one
process_one_ne o id j a v h =
    elim (Result-cases (claim_build_by_id o.claim_time id worker_id a.db)) [
      | inr (e, failed) ↦ rw failed refl
      | inl ((d, none), answer) ↦
          rw answer (ap (get_build j) (claim_none o.claim_time id a.db d v answer))
      | inl ((d, some b), answer) ↦
          let (same, moved) = claimed_id o.claim_time id a.db d b v answer in
          rw answer (
            process_claimed_ne o b (record a { db = d }) j (λ k. h (k ∙ same))
            ∙ ap (get_build j) moved
            ∙ get_build-set_running_ne o.claim_time id j worker_id a.db h)
    ]

finish_wakes :
    (o : Outside) (b : Build) (pkg : Package) (name : PkgName) (v : Variant)
    (r : Result BuildOutcome) (a : App)
    → (after_container o b pkg name v r a).0.wakes ≡ a.wakes
unfolding after_container finish drop_channel
finish_wakes o b pkg name v (err e) a = refl
finish_wakes o b pkg name v (ok r) a = refl

with_variant_wakes :
    (o : Outside) (b : Build) (pkg : Package) (name : PkgName) (v : Option Variant) (a : App)
    → (with_variant o b pkg name v a).0.wakes ≡ a.wakes
unfolding with_variant run_build
with_variant_wakes o b pkg name none a = refl
with_variant_wakes o b pkg name (some v) a =
    let c = o.container (request o b pkg name v) in
    finish_wakes o b pkg name v (run_in_container (request o b pkg name v) c) (after_lines o b c a)
    ∙ (after_lines-LogsOnly o b c a).same_wakes

with_package_wakes :
    (o : Outside) (b : Build) (q : Option Package) (a : App)
    → (with_package o b q a).0.wakes ≡ a.wakes
unfolding with_package with_name register
with_package_wakes o b none a = refl
with_package_wakes o b (some pkg) a = elim (Result-cases (Name.new pkg.name)) [
  | inr (e, bad) ↦ rw bad refl
  | inl (name, good) ↦
      rw good (with_variant_wakes o b pkg name (Variants.parse b.variant) (register b a))
]

after_claim_wakes :
    (o : Outside) (r : Result (Db × Option Build)) (a : App) → (after_claim o r a).0.wakes ≡ a.wakes
unfolding after_claim process_claimed
after_claim_wakes o (err e) a = refl
after_claim_wakes o (ok (d, none)) a = refl
after_claim_wakes o (ok (d, some b)) a =
    with_package_wakes o b (find (λ p. p.id == b.package_id) (list_packages d))
      (record a { db = d })

pub process_one_wakes : (o : Outside) (id : ℕ) (a : App) → (process_one o id a).0.wakes ≡ a.wakes
unfolding process_one
process_one_wakes o id a = after_claim_wakes o (claim_build_by_id o.claim_time id worker_id a.db) a

work_unwoken_by :
    (os : ℕ → Outside) (n j : ℕ) (ids : List ℕ) (a : App)
    → a.wakes ≡ ids
    → IsValid a.db
    → All (λ i. j ≢ i) ids
    → get_build j (work os n a).db ≡ get_build j a.db
unfolding work
work_unwoken_by os zero j ids a q v h = refl
work_unwoken_by os (suc n) j [] a q v h = rw q refl
work_unwoken_by os (suc n) j (id ∷ rest) a q v h =
    let b = record a { wakes = rest } in
    let once = (process_one (os n) id b).0 in
    rw q (
      work_unwoken_by os n j rest once (process_one_wakes (os n) id b)
        (process_one-IsValid (os n) id b v) h.1
      ∙ process_one_ne (os n) id j b v h.0)

-- However many rounds the worker makes from a valid database, a build whose id is not in its channel
-- stays as it is.
pub work_unwoken :
    (os : ℕ → Outside) (n j : ℕ) (a : App)
    → IsValid a.db
    → All (λ i. j ≢ i) a.wakes
    → get_build j (work os n a).db ≡ get_build j a.db
work_unwoken os n j a v h = work_unwoken_by os n j a.wakes a refl v h

work-IsValid_by :
    (os : ℕ → Outside) (n : ℕ) (ids : List ℕ) (a : App)
    → a.wakes ≡ ids
    → IsValid a.db
    → IsValid (work os n a).db
unfolding work
work-IsValid_by os zero ids a q v = v
work-IsValid_by os (suc n) [] a q v = rw q v
work-IsValid_by os (suc n) (id ∷ rest) a q v =
    let b = record a { wakes = rest } in
    rw q (
      work-IsValid_by os n rest (process_one (os n) id b).0 (process_one_wakes (os n) id b)
        (process_one-IsValid (os n) id b v))

-- Any number of rounds of the worker keeps the invariant of the database, whatever the container,
-- the publishing and the errors in each of them.
pub work-IsValid : (os : ℕ → Outside) (n : ℕ) (a : App) → IsValid a.db → IsValid (work os n a).db
work-IsValid os n a v = work-IsValid_by os n a.wakes a refl v
