-- ===== src/Db/Progress/Rows.antt =====
-- How far the rows of the builds of crates/paur-db/src/queries.rs are, and what an update, a deletion
-- and a new row make of it.
use paur.Prelude.{
  ℕ, ◌≤◌, ◌≡◌, refl, ◌≢◌, Bool, true, false, Option, none, some, List, [], ◌∷◌, ◌++◌, arith, inl,
  inr, Bool-cases, All, Pairwise, All-map_pred, ==_iff,
}
use paur.Prelude.Tables.{find, select, update}
use paur.Db.Models.{Build, BuildStatus, queued, running}
use paur.Db.Builds.{with_id}
use paur.Db.Invariant.{Below}

-- How far a build is: 0 queued, 1 running, 2 ended, 3 deleted.
abbrev pub status_stage : BuildStatus → ℕ
status_stage queued = 0
status_stage running = 1
status_stage _ = 2

abbrev pub stage : Option Build → ℕ
stage none = 3
stage (some b) = status_stage b.status

-- An update that lets no row go back.
pub update-stage :
    (p : Build → Bool) (f : Build → Build) (j : ℕ)
    → ((b : Build) → (f b).id ≡ b.id)
    → ((b : Build) → p b ≡ true → status_stage b.status ≤ status_stage (f b).status)
    → (bs : List Build) → stage (find (with_id j) bs) ≤ stage (find (with_id j) (update p f bs))
unfolding find update
update-stage p f j key up [] = omega arith
update-stage p f j key up (b ∷ bs) = elim (Bool-cases (p b)) [
  | inr e ↦ elim (Bool-cases (with_id j b)) [
    | inl here ↦ rw (e, here) (omega arith)
    | inr other ↦ rw (e, other) (update-stage p f j key up bs)
  ]
  | inl e ↦ elim (Bool-cases (with_id j b)) [
    | inl here ↦
        let there : with_id j (f b) ≡ true = ground (arith, key b) in rw (e, here, there) (up b e)
    | inr other ↦
        let there : with_id j (f b) ≡ false = ground (arith, key b) in
        rw (e, other, there) (update-stage p f j key up bs)
  ]
]

find_larger :
    (q : Build → Bool) (j : ℕ) (bs : List Build)
    → All (λ c. Below j c.id) bs
    → find (with_id j) (select q bs) ≡ none
unfolding find select
find_larger q j [] h = refl
find_larger q j (b ∷ bs) h = elim (Bool-cases (q b)) [
  | inl e ↦
      let other : with_id j b ≡ false = ground (arith, h.0) in
      rw (e, other) (find_larger q j bs h.1)
  | inr e ↦ rw e (find_larger q j bs h.1)
]

-- A deletion, where ids are unique.
pub select-stage :
    (q : Build → Bool) (j : ℕ) (bs : List Build)
    → Pairwise (λ b c. Below b.id c.id) bs
    → stage (find (with_id j) bs) ≤ stage (find (with_id j) (select q bs))
unfolding find select
select-stage q j [] h = omega arith
select-stage q j (b ∷ bs) h = elim (Bool-cases (with_id j b)) [
  | inl here ↦ elim (Bool-cases (q b)) [
    | inl e ↦ rw (e, here) (omega arith)
    | inr e ↦
        let same : b.id ≡ j = (==_iff b.id j).0 here in
        let gone = find_larger q j bs (All-map_pred (λ c k. omega arith) bs h.0) in
        rw (e, here, gone) (top b.status)
  ]
  | inr other ↦ elim (Bool-cases (q b)) [
    | inl e ↦ rw (e, other) (select-stage q j bs h.1)
    | inr e ↦ rw (e, other) (select-stage q j bs h.1)
  ]
]
  where
    top : (s : BuildStatus) → status_stage s ≤ 3
    top s = ground arith

-- A new row at the end, with an id that no earlier row has.
pub append-stage :
    (j : ℕ) (b : Build) (bs : List Build)
    → j ≢ b.id
    → stage (find (with_id j) bs) ≤ stage (find (with_id j) (bs ++ b ∷ []))
unfolding find
append-stage j b [] h = let other : with_id j b ≡ false = ground arith in rw other (omega arith)
append-stage j b (c ∷ bs) h = elim (Bool-cases (with_id j c)) [
  | inl e ↦ rw e (omega arith)
  | inr e ↦ rw e (append-stage j b bs h)
]

pub at_most_ended : (t : BuildStatus) → status_stage t ≤ 2
at_most_ended t = ground arith
