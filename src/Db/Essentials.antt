-- ===== src/Db/Essentials.antt =====
-- What an enqueued build of crates/paur-db adds to the table, but for ids and times.
use paur.Prelude.{ℕ, suc, ◌≡◌, refl, ap, List, [], ◌∷◌, ◌++◌, map}
use paur.Prelude.Text.{Text}
use paur.Core.Variants as Variants
use paur.Core.Variants.{Variant}
use paur.Db.Models.{Db, Build, BuildTrigger, BuildStatus, queued}
use paur.Db.Builds.{new_build, next_seq}
use paur.Db.Invariant.Enqueue.{enqueued}

-- The package of a build, why and for which variant it is, and its status.
abbrev pub essentials : Build → ℕ × BuildTrigger × Text × BuildStatus
essentials b = (b.package_id, b.trigger, b.variant, b.status)

-- Those of a build that was just enqueued.
abbrev pub ordered : ℕ → BuildTrigger → Variant → ℕ × BuildTrigger × Text × BuildStatus
ordered pkg t v = (pkg, t, Variants.as_str v, queued)

map-append_one :
    (bs : List Build) (b : Build)
    → map essentials (bs ++ b ∷ []) ≡ map essentials bs ++ essentials b ∷ []
map-append_one [] b = refl
map-append_one (x ∷ xs) b = ap (λ ys. essentials x ∷ ys) (map-append_one xs b)

pub append-append_one {ℓ} :
    {A : Type ℓ} (xs : List A) (x : A) (ys : List A) → (xs ++ x ∷ []) ++ ys ≡ xs ++ x ∷ ys
append-append_one [] x ys = refl
append-append_one (z ∷ xs) x ys = ap (λ zs. z ∷ zs) (append-append_one xs x ys)

pub append-nil {ℓ} : {A : Type ℓ} (xs : List A) → xs ++ [] ≡ xs
append-nil [] = refl
append-nil (x ∷ xs) = ap (λ zs. x ∷ zs) (append-nil xs)

pub enqueued_row :
    (now pkg : ℕ) (t : BuildTrigger) (v : Variant) (d : Db)
    → map essentials (enqueued now pkg t v d).builds
      ≡ map essentials d.builds ++ ordered pkg t v ∷ []
unfolding new_build
enqueued_row now pkg t v d =
    map-append_one d.builds (new_build (suc d.last_build_id) now pkg (next_seq pkg d) t v)
