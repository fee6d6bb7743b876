-- ===== src/Db/Invariant/Enqueue.antt =====
-- `enqueue_build` of crates/paur-db/src/queries.rs: the number it allocates, and the row it adds.
use paur.Prelude.{
  ℕ, suc, ◌<◌, ◌≡◌, refl, true, false, ◌&&◌, List, [], ◌∷◌, ◌++◌, ◌==◌, arith, any, All,
  All-map_pred, if◌then◌else◌, max_of, Bool-cases, inl, inr,
}
use paur.Prelude.Tables.{select}
use paur.Prelude.Tables.Laws.{any-append, max_of-select}
use paur.Prelude.Results.{ok, err, db}
use paur.Core.Variants.{Variant}
use paur.Db.Models.{Db, Build, BuildTrigger}
use paur.Db.Builds.{of_package, next_seq, new_build, enqueue_build}
use paur.Db.Invariant.{IsValid, has_package}
use paur.Db.Invariant.OfBuilds.{enqueue-BuildsValid}

-- Every build of the package has a smaller number than the next.
seq-lt-next_seq :
    (pkg : ℕ) (d : Db) → All (λ b. of_package pkg b ≡ true → b.seq < next_seq pkg d) d.builds
unfolding next_seq
seq-lt-next_seq pkg d =
    All-map_pred (λ b h e. omega (arith, h e)) d.builds
      (max_of-select (of_package pkg) (λ b. b.seq)
        (max_of (λ b. b.seq) (select (of_package pkg) d.builds)) d.builds (omega arith))

free_number :
    (pkg n : ℕ) (bs : List Build)
    → All (λ b. of_package pkg b ≡ true → b.seq < n) bs
    → any (λ (b : Build). b.package_id == pkg && b.seq == n) bs ≡ false
free_number pkg n [] h = refl
free_number pkg n (b ∷ bs) h = elim (Bool-cases (of_package pkg b)) [
  | inl e ↦ let below = h.0 e in ground (arith, free_number pkg n bs h.1)
  | inr e ↦ ground (arith, free_number pkg n bs h.1)
]

-- The database after a build was added.
abbrev pub enqueued : ℕ → ℕ → BuildTrigger → Variant → Db → Db
enqueued now pkg t w d =
    let id = suc d.last_build_id in
    record d {
      builds = d.builds ++ new_build id now pkg (next_seq pkg d) t w ∷ [];
      last_build_id = id;
    }

-- `enqueue_build` succeeds exactly if the package exists: the number it allocates is never taken, so
-- neither constraint of the table fails otherwise. It appends one queued row, under the next id of the
-- column.
pub enqueue_build-eq :
    (now pkg : ℕ) (t : BuildTrigger) (w : Variant) (d : Db)
    → enqueue_build now pkg t w d ≡ (
        if has_package d.packages pkg
        then ok (enqueued now pkg t w d, suc d.last_build_id)
        else err db)
unfolding enqueue_build
enqueue_build-eq now pkg t w d =
    rw (free_number pkg (next_seq pkg d) d.builds (seq-lt-next_seq pkg d)) refl

pub enqueued-IsValid :
    (now pkg : ℕ) (t : BuildTrigger) (w : Variant) (d : Db)
    → has_package d.packages pkg ≡ true
    → IsValid d
    → IsValid (enqueued now pkg t w d)
enqueued-IsValid now pkg t w d owner v = record {
  builds_valid = enqueue-BuildsValid now pkg t w d owner v;
  packages_valid = v.packages_valid;
  logs_valid = record {
    seqs = v.logs_valid.seqs;
    references =
        All-map_pred
          (λ l h.
            any-append (λ b. b.id == l.build_id) d.builds
              (new_build (suc d.last_build_id) now pkg (next_seq pkg d) t w ∷ []) h)
          d.build_logs v.logs_valid.references;
  };
}

-- A successful `enqueue_build` keeps the invariant of the database, and its id is larger than that of every build.
pub enqueue_build-IsValid :
    (now pkg : ℕ) (t : BuildTrigger) (w : Variant) (d e : Db) (id : ℕ)
    → IsValid d
    → enqueue_build now pkg t w d ≡ ok (e, id)
    → IsValid e × All (λ b. b.id < id) d.builds
enqueue_build-IsValid now pkg t w d e id v h = elim (Bool-cases (has_package d.packages pkg)) [
  | inl owner ↦
      let valid = enqueued-IsValid now pkg t w d owner v in
      let below : All (λ b. b.id < suc d.last_build_id) d.builds =
        All-map_pred (λ b k. omega arith) d.builds v.builds_valid.given_out in
      let same : ok (enqueued now pkg t w d, suc d.last_build_id) ≡ ok (e, id) =
        ground (arith, enqueue_build-eq now pkg t w d) in
      mathlib.Core.Path.subst (λ (r : Db × ℕ). IsValid r.0 × All (λ b. b.id < r.1) d.builds)
        (ok_injective same) (valid, below)
  | inr gone ↦ absurd (ground (arith, enqueue_build-eq now pkg t w d))
]
  where
    ok_injective : {r s : Db × ℕ} → ok r ≡ ok s → r ≡ s
    ok_injective p = cc
