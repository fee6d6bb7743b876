-- ===== src/Daemon/Api/Enqueues.antt =====
-- What `enqueue_all_variants` of crates/paur-daemon/src/api.rs adds to the queue, and what of it the
-- worker hears of.
use paur.Prelude.{
  ℕ, suc, ◌≡◌, refl, ◌∙◌, ap, ◌≢◌, ◌≤◌, ◌<◌, Bool, true, false, Option, none, some, List, [], ◌∷◌,
  ◌++◌, map, arith, inl, inr, Bool-cases, All, All-map_pred, All-append_one, sym, subst, is_empty,
  if◌then◌else◌,
}
use paur.Prelude.Tables.{select}
use paur.Prelude.Results.{ok}
use paur.Core.Variants.{Variant, PackageVariants, active, is_active}
use paur.Db.Models.{Db, BuildTrigger}
use paur.Db.Builds.{get_build}
use paur.Db.Invariant.{IsValid, has_package}
use paur.Db.Invariant.Enqueue.{enqueued, enqueue_build-eq, enqueued-IsValid}
use paur.Db.Essentials.{essentials, ordered, append-append_one, append-nil, enqueued_row}
use paur.Daemon.State.{App, send_wake}
use paur.Daemon.Worker.{Outside, work}
use paur.Daemon.Worker.Rounds.{work_unwoken}
use paur.Daemon.Api.{or_first, enqueue_each, wake_first, enqueue_all_variants}

-- From `d` to `e` one build of the package was added for each of the variants, in their order.
pub record Ordered (pkg : ℕ) (t : BuildTrigger) (vs : List Variant) (d e : Db) : Type 0 where
  pub valid : IsValid e
  pub same_packages : e.packages ≡ d.packages
  pub one_each : map essentials e.builds ≡ map essentials d.builds ++ map (ordered pkg t) vs
  pub last : e.last_build_id ≡ Prim.Native.Nat.◌+◌ d.last_build_id (paur.Prelude.length vs)

-- The id that `enqueue_each` ends with.
abbrev pub first_of : Option ℕ → List Variant → ℕ → Option ℕ
first_of (some i) vs last = some i
first_of none [] last = none
first_of none (v ∷ vs) last = some (suc last)

module _ (now pkg : ℕ) (t : BuildTrigger) where
  enqueue_each_lem :
      (vs : List Variant) (first : Option ℕ) (d : Db)
      → IsValid d
      → has_package d.packages pkg ≡ true
      → ((enqueue_each now pkg t vs first d).1 ≡ ok (first_of first vs d.last_build_id))
        × Ordered pkg t vs d (enqueue_each now pkg t vs first d).0
  unfolding enqueue_each or_first
  enqueue_each_lem [] none d v owner = (
    refl,
    record {
      valid = v;
      same_packages = refl;
      one_each = sym (append-nil (map essentials d.builds));
      last = omega arith;
    },
  )
  enqueue_each_lem [] (some i) d v owner = (
    refl,
    record {
      valid = v;
      same_packages = refl;
      one_each = sym (append-nil (map essentials d.builds));
      last = omega arith;
    },
  )
  enqueue_each_lem (w ∷ vs) first d v owner =
      let d1 = enqueued now pkg t w d in
      let first1 = or_first first (suc d.last_build_id) in
      let (done, rest) =
        enqueue_each_lem vs first1 d1 (enqueued-IsValid now pkg t w d owner v) owner in
      let step : enqueue_each now pkg t (w ∷ vs) first d ≡ enqueue_each now pkg t vs first1 d1 =
        ground (arith, enqueue_build-eq now pkg t w d, owner) in
      let chosen : first_of first1 vs (suc d.last_build_id)
          ≡ first_of first (w ∷ vs) d.last_build_id =
        first_kept first vs in
      rw step (
        done ∙ ap ok chosen,
        record {
          valid = rest.valid;
          same_packages = rest.same_packages;
          one_each =
              rest.one_each
              ∙ ap (λ xs. xs ++ map (ordered pkg t) vs) (enqueued_row now pkg t w d)
              ∙ append-append_one (map essentials d.builds) (ordered pkg t w)
                  (map (ordered pkg t) vs);
          last = let l = rest.last in omega (arith, l);
        },
      )
    where
      first_kept :
          (f : Option ℕ) (us : List Variant)
          → first_of (or_first f (suc d.last_build_id)) us (suc d.last_build_id)
            ≡ first_of f (w ∷ vs) d.last_build_id
      first_kept none us = refl
      first_kept (some i) us = refl

active-default_first :
    (p : PackageVariants)
    → p.default ≡ true
    → active p ≡ Variant.default ∷ select (is_active p) (Variant.v3 ∷ Variant.v4 ∷ [])
unfolding active select is_active
active-default_first p h = rw h refl

-- On a valid database, for a package that is there and a set with the default variant,
-- `enqueue_all_variants` succeeds and keeps the invariant. It adds one queued build for each active
-- variant, in the order default, v3, v4, and nothing else to the builds, and sends the worker the id
-- of the first of them only.
pub enqueue_all_variants_lem :
    (now pkg : ℕ) (p : PackageVariants) (t : BuildTrigger) (a : App)
    → IsValid a.db
    → has_package a.db.packages pkg ≡ true
    → p.default ≡ true
    → ((enqueue_all_variants now pkg p t a).1 ≡ ok tt)
      × Ordered pkg t (active p) a.db (enqueue_all_variants now pkg p t a).0.db
      × ((enqueue_all_variants now pkg p t a).0.wakes ≡ a.wakes ++ suc a.db.last_build_id ∷ [])
unfolding enqueue_all_variants wake_first send_wake
enqueue_all_variants_lem now pkg p t a v owner on =
    let (done, left) = enqueue_each_lem now pkg t (active p) none a.db v owner in
    let woken : (enqueue_each now pkg t (active p) none a.db).1
        ≡ ok (some (suc a.db.last_build_id)) =
      done ∙ ap (λ vs. ok (first_of none vs a.db.last_build_id)) (active-default_first p on) in
    rw woken (refl, left, refl)

-- Only the first of the builds is run: on a valid database whose channel to the worker holds ids that
-- were given out, for a package that is there and a set with the default variant, the builds that
-- `enqueue_all_variants` adds after the first stay as they are, however many rounds the worker makes.
pub enqueue_all_variants-unrun :
    (now pkg : ℕ) (p : PackageVariants) (t : BuildTrigger) (os : ℕ → Outside) (n j : ℕ) (a : App)
    → IsValid a.db
    → has_package a.db.packages pkg ≡ true
    → p.default ≡ true
    → All (λ i. i ≤ a.db.last_build_id) a.wakes
    → suc a.db.last_build_id < j
    → get_build j (work os n (enqueue_all_variants now pkg p t a).0).db
      ≡ get_build j (enqueue_all_variants now pkg p t a).0.db
enqueue_all_variants-unrun now pkg p t os n j a v owner on known new =
    let (done, left, woken) = enqueue_all_variants_lem now pkg p t a v owner on in
    let others : All (λ i. j ≢ i) (a.wakes ++ suc a.db.last_build_id ∷ []) =
      All-append_one (λ i. j ≢ i) a.wakes (suc a.db.last_build_id)
        (All-map_pred (λ i h e. omega (arith, h, e, new)) a.wakes known)
        (λ e. omega (arith, e, new)) in
    work_unwoken os n j (enqueue_all_variants now pkg p t a).0 left.valid
      (subst (λ ids. All (λ i. j ≢ i) ids) (sym woken) others)
