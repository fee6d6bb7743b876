-- ===== src/Daemon/Api/Filters.antt =====
-- What the list of builds of crates/paur-daemon/src/api.rs holds.
use paur.Prelude.{
  ℕ, zero, suc, ◌≡◌, refl, ◌≤◌, Bool, true, ◌&&◌, Option, none, some, List, [], ◌∷◌, arith, inl,
  inr, Bool-cases, Option-cases, All, All-map_pred, length, take, ℤ, pos, negsuc,
}
use paur.Prelude.Text.{Text, text_eq, text_eq_refl, text_eq_sym}
use paur.Prelude.Tables.{select, sort_desc}
use paur.Prelude.Tables.Sorting.{All-sort_desc}
use paur.Prelude.Results.{ok, Result-cases}
use paur.Core.Variants as Variants
use paur.Core.Variants.{Variant}
use paur.Core.Variants.Laws.{parse-as_str}
use paur.Db.Models.{Build, BuildStatus, status_eq, as_str, parse_status}
use paur.Db.Models.Codec.{parse-str_iff, eq_of_status_eq}
use paur.Db.Builds as Builds
use paur.Db.Builds.{pkg_cond, status_cond, variant_cond}
use paur.Daemon.State.{App}
use paur.Daemon.Api.Builds.{list_builds, status_filter, variant_filter, limit_of}

length-take-le : (n : ℕ) (bs : List Build) → length (take n bs) ≤ n
length-take-le zero bs = omega arith
length-take-le (suc n) [] = omega arith
length-take-le (suc n) (b ∷ bs) = let h = length-take-le n bs in omega (arith, h)

All-take {ℓ} : (P : Build → Type ℓ) (n : ℕ) (bs : List Build) → All P bs → All P (take n bs)
All-take P zero bs h = tt
All-take P (suc n) [] h = tt
All-take P (suc n) (b ∷ bs) h = (h.0, All-take P n bs h.1)

All-selected : (p : Build → Bool) (bs : List Build) → All (λ b. p b ≡ true) (select p bs)
unfolding select
All-selected p [] = tt
All-selected p (b ∷ bs) = elim (Bool-cases (p b)) [
  | inl e ↦ rw e (e, All-selected p bs)
  | inr e ↦ rw e (All-selected p bs)
]

-- A column has the value that the query asks for, if it asks for one.
abbrev pub wanted : Option Text → Text → Bool
wanted none s = true
wanted (some t) s = text_eq s t

limit-le : (l : Option ℤ) → limit_of l ≤ 1000
unfolding limit_of
limit-le none = omega arith
limit-le (some (negsuc n)) = omega arith
limit-le (some (pos n)) = ground arith

-- Of an accepted filter, what the condition of the statement means.
status-wanted :
    (t : Option Text) (s : Option BuildStatus) (b : Build)
    → status_filter t ≡ ok s
    → status_cond s b ≡ true
    → wanted t (as_str b.status) ≡ true
unfolding status_filter status_cond
status-wanted none s b h c = refl
status-wanted (some t) s b h c = elim (Option-cases (parse_status t)) [
  | inl bad ↦ absurd (ground arith)
  | inr (x, good) ↦
      let same : b.status ≡ x = eq_of_status_eq b.status x (ground arith) in
      let word = (parse-str_iff t x paur.Db.Models.manual paur.Db.Models.stdout).0.0 good in
      rw (same, word) (text_eq_refl (as_str x))
]

variant-wanted :
    (t : Option Text) (v : Option Variant) (b : Build)
    → variant_filter t ≡ ok v
    → variant_cond v b ≡ true
    → wanted t b.variant ≡ true
unfolding variant_filter variant_cond
variant-wanted none v b h c = refl
variant-wanted (some t) v b h c = elim (Option-cases (Variants.parse t)) [
  | inl bad ↦ absurd (ground arith)
  | inr (x, good) ↦
      let word = (parse-as_str t x).0 good in ground (arith, word, text_eq_sym b.variant t)
]

-- A list of builds that is returned has at most 1000 rows, and each has the status and the variant
-- that the query asks for.
pub list_builds-wanted :
    (pkg status variant : Option Text) (limit : Option ℤ) (a : App) (bs : List Build)
    → list_builds pkg status variant limit a ≡ ok bs
    → (length bs ≤ 1000)
      × All (λ b. (wanted status (as_str b.status) ≡ true) × (wanted variant b.variant ≡ true)) bs
unfolding list_builds Builds.list_builds
list_builds-wanted pkg status variant limit a bs h = elim (Result-cases (status_filter status)) [
  | inr (e, bad) ↦ absurd (ground arith)
  | inl (s, good) ↦ elim (Result-cases (variant_filter variant)) [
    | inr (e, bad) ↦ absurd (ground arith)
    | inl (v, fine) ↦
        let p = λ (b : Build). pkg_cond pkg a.db b && status_cond s b && variant_cond v b in
        let n = limit_of limit in
        let sorted = sort_desc (λ (b : Build). b.queued_at) (select p a.db.builds) in
        let read : bs ≡ take n sorted = ground arith in
        let few = length-take-le n sorted in
        let most = limit-le limit in
        let held =
          All-take (λ b. p b ≡ true) n sorted
            (All-sort_desc (λ (b : Build). b.queued_at) (λ b. p b ≡ true) (select p a.db.builds)
              (All-selected p a.db.builds)) in
        rw read (
          omega (arith, few, most),
          All-map_pred
              (λ b k. (
                status-wanted status s b good (ground arith),
                variant-wanted variant v b fine (ground arith),
              ))
              (take n sorted) held,
        )
  ]
]
