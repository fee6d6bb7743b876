-- ===== src/Db/Invariant/Transitions.antt =====
-- Updates of one row of `builds`, and the claim of a build: crates/paur-db/src/queries.rs.
use paur.Prelude.{
  ℕ, ◌≡◌, refl, ◌≢◌, Bool, false, ◌&&◌, Option, none, some, List, [], ◌∷◌, arith, any,
  if◌then◌else◌, inl, inr, Bool-cases, All, Pairwise, All-map_pred, ==_iff,
}
use mathlib.Core.Option
use paur.Prelude.Text.{Text}
use paur.Prelude.Tables.{find, update}
use paur.Prelude.Results.{Result, ok}
use paur.Db.Models.{Db, Build, queued, status_eq}
use paur.Db.Builds.{with_id, with_status, start, get_build, set_running, claim_build_by_id}
use paur.Prelude.Tables.Laws.{affected-zero}
use paur.Db.Invariant.{IsValid, Below}

module _ (id : ℕ) (f : Build → Build) (key : (b : Build) → (f b).id ≡ b.id) where
  -- The row with the id after an update of the rows with the id that have a further property.
  pub find-update :
      (q : Build → Bool) (bs : List Build)
      → find (with_id id) (update (λ b. with_id id b && q b) f bs)
        ≡ Option.map (λ b. if q b then f b else b) (find (with_id id) bs)
  unfolding find update
  find-update q [] = refl
  find-update q (b ∷ bs) = ground (arith, find-update q bs, key b)

  -- No other row is touched.
  pub find-update_ne :
      (q : Build → Bool) (j : ℕ) (bs : List Build)
      → j ≢ id
      → find (with_id j) (update (λ b. with_id id b && q b) f bs) ≡ find (with_id j) bs
  unfolding find update
  find-update_ne q j [] h = refl
  find-update_ne q j (b ∷ bs) h = ground (arith, find-update_ne q j bs h, key b)

-- A property of the row with the id, if there is one.
abbrev pub row_with : (Build → Bool) → Option Build → Bool
row_with q none = false
row_with q (some b) = q b

any-larger :
    (id : ℕ) (q : Build → Bool) (bs : List Build)
    → All (λ b. Below id b.id) bs
    → any (λ b. with_id id b && q b) bs ≡ false
any-larger id q [] h = refl
any-larger id q (b ∷ bs) h = ground (arith, any-larger id q bs h.1, h.0)

-- Where ids are unique, the row that is found is the only one that a statement can affect.
any-find :
    (id : ℕ) (q : Build → Bool) (bs : List Build)
    → Pairwise (λ b c. Below b.id c.id) bs
    → any (λ b. with_id id b && q b) bs ≡ row_with q (find (with_id id) bs)
unfolding find
any-find id q [] h = refl
any-find id q (b ∷ bs) h = elim (Bool-cases (with_id id b)) [
  | inl e ↦
      let same : b.id ≡ id = (==_iff b.id id).0 e in
      let none_later : any (λ c. with_id id c && q c) bs ≡ false =
        any-larger id q bs (All-map_pred (λ c k. omega arith) bs h.0) in
      ground (arith, none_later)
  | inr e ↦ rw (e) (any-find id q bs h.1)
]

-- What `claim_build_by_id` answers, from the row with the id.
abbrev pub claimed : ℕ → ℕ → Text → Db → Option Build → Result (Db × Option Build)
claimed now id w d none = ok (d, none)
claimed now id w d (some b) =
    if status_eq b.status queued
    then ok (set_running now id w d, some (start now w b))
    else ok (d, none)

-- `claim_build_by_id` never fails on a valid database: it claims the build exactly if it is there and
-- queued, the claimed row is the stored one, and otherwise the database does not change.
pub claim_build_by_id-eq :
    (now id : ℕ) (w : Text) (d : Db)
    → IsValid d
    → claim_build_by_id now id w d ≡ claimed now id w d (get_build id d)
unfolding claim_build_by_id
claim_build_by_id-eq now id w d v = ground (
  arith,
  affected-zero (with_status id queued) d.builds,
  any-find id (λ b. status_eq b.status queued) d.builds v.builds_valid.ids,
  find-update id (start now w) (λ b. refl) (λ b. status_eq b.status queued) d.builds,
)
