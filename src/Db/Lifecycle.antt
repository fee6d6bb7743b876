-- ===== src/Db/Lifecycle.antt =====
-- The life of one build under the statements of crates/paur-db/src/queries.rs: what a reader of the
-- row sees after a claim and after a cancellation.
use mathlib.Core.Option
use paur.Prelude.{
  ℕ, ◌≡◌, refl, ◌≢◌, Option, none, some, ◌==◌, arith, if◌then◌else◌, inl, inr, Option-cases,
  Bool-cases, subst,
}
use paur.Prelude.Text.{Text}
use paur.Prelude.Results.{ok}
use paur.Db.Models.{Db, Build, BuildStatus, queued, running, cancelled, status_eq}
use paur.Db.Models.Codec.{eq_of_status_eq}
use paur.Db.Builds.{
  CancelOutcome, was_cancelled, already_terminal, not_found, start, get_build, cancel_from,
  set_running, claim_build_by_id, cancel_build, set_cancelled,
}
use paur.Db.Invariant.{IsValid, is_terminal}
use paur.Db.Invariant.OfBuilds.{set_running-IsValid, set_cancelled-IsValid}
use paur.Db.Invariant.Transitions.{find-update, find-update_ne, claim_build_by_id-eq}

-- The row as the claim leaves it.
abbrev pub after_claim : ℕ → Text → Build → Build
after_claim now w b = if status_eq b.status queued then start now w b else b

pub get_build-set_running :
    (now id : ℕ) (w : Text) (d : Db)
    → get_build id (set_running now id w d) ≡ Option.map (after_claim now w) (get_build id d)
unfolding get_build set_running
get_build-set_running now id w d =
    find-update id (start now w) (λ b. refl) (λ b. status_eq b.status queued) d.builds

pub get_build-set_running_ne :
    (now id j : ℕ) (w : Text) (d : Db)
    → j ≢ id
    → get_build j (set_running now id w d) ≡ get_build j d
unfolding get_build set_running
get_build-set_running_ne now id j w d h =
    find-update_ne id (start now w) (λ b. refl) (λ b. status_eq b.status queued) j d.builds h

-- Claiming keeps the invariant.
pub claim-IsValid :
    (now id : ℕ) (w : Text) (d e : Db) (r : Option Build)
    → IsValid d
    → claim_build_by_id now id w d ≡ ok (e, r)
    → IsValid e
claim-IsValid now id w d e r v h = elim (Option-cases (get_build id d)) [
  | inl gone ↦ subst IsValid (ground (arith, claim_build_by_id-eq now id w d v)) v
  | inr (b, here) ↦ elim (Bool-cases (status_eq b.status queued)) [
    | inl yes_queued ↦
        subst IsValid (ground (arith, claim_build_by_id-eq now id w d v))
          (set_running-IsValid now id w d v)
    | inr other ↦ subst IsValid (ground (arith, claim_build_by_id-eq now id w d v)) v
  ]
]

-- What a successful claim says.
pub claim-inversion :
    (now id : ℕ) (w : Text) (d e : Db) (b : Build)
    → IsValid d
    → claim_build_by_id now id w d ≡ ok (e, some b)
    → (row : Build) × (get_build id d ≡ some row)
      × (row.status ≡ queued)
      × (e ≡ set_running now id w d)
      × (b ≡ start now w row)
claim-inversion now id w d e b v h = elim (Option-cases (get_build id d)) [
  | inl gone ↦ absurd (ground (arith, claim_build_by_id-eq now id w d v))
  | inr (row, here) ↦ elim (Bool-cases (status_eq row.status queued)) [
    | inl q ↦
        let reads = claim_build_by_id-eq now id w d v in
        (row, here, eq_of_status_eq row.status queued q, ground arith, ground arith)
    | inr other ↦ absurd (ground (arith, claim_build_by_id-eq now id w d v))
  ]
]

-- On a valid database a build is claimed once: the row is then running, under the name of the worker
-- that claimed it, and whoever claims the same id next gets nothing and leaves the database as it is.
pub claim_once :
    (now later id : ℕ) (w u : Text) (d e : Db) (b : Build)
    → IsValid d
    → claim_build_by_id now id w d ≡ ok (e, some b)
    → (get_build id e ≡ some b)
      × (b.status ≡ running)
      × (b.worker_id ≡ some w)
      × (claim_build_by_id later id u e ≡ ok (e, none))
unfolding status_eq
claim_once now later id w u d e b v h =
    let (row, here, q, moved, same) = claim-inversion now id w d e b v h in
    let stored : get_build id e ≡ some b = ground (arith, get_build-set_running now id w d) in
    let is_running : b.status ≡ running = ground arith in
    (
      stored,
      is_running,
      ground arith,
      ground (arith, claim_build_by_id-eq later id u e (claim-IsValid now id w d e (some b) v h)),
    )

-- What `cancel_build` answers, from the row with the id.
abbrev pub cancel_answer : Option Build → CancelOutcome
cancel_answer none = not_found
cancel_answer (some b) = if is_terminal b.status then already_terminal b.status else was_cancelled

-- The row as `cancel_build` leaves it.
abbrev pub after_cancel : ℕ → Build → Build
after_cancel now b =
    if is_terminal b.status then b else record b { status = cancelled; finished_at = some now }

get_build-set_cancelled :
    (now id : ℕ) (cur : BuildStatus) (d : Db)
    → get_build id (set_cancelled now id cur d)
      ≡ Option.map
          (λ b.
            if status_eq b.status cur
            then record b { status = cancelled; finished_at = some now }
            else b)
          (get_build id d)
unfolding get_build set_cancelled
get_build-set_cancelled now id cur d =
    find-update id (λ b. record b { status = cancelled; finished_at = some now }) (λ b. refl)
      (λ b. status_eq b.status cur) d.builds

get_build-set_cancelled_ne :
    (now id j : ℕ) (cur : BuildStatus) (d : Db)
    → j ≢ id
    → get_build j (set_cancelled now id cur d) ≡ get_build j d
unfolding get_build set_cancelled
get_build-set_cancelled_ne now id j cur d h =
    find-update_ne id (λ b. record b { status = cancelled; finished_at = some now }) (λ b. refl)
      (λ b. status_eq b.status cur) j d.builds h

-- `cancel_build` answers by the status of the row: a build that is queued or running becomes
-- cancelled and is stamped, one in a terminal state or an unknown id is reported, and no other build
-- changes.
pub cancel_build_lem :
    (now id j : ℕ) (d : Db)
    → ((cancel_build now id d).1 ≡ cancel_answer (get_build id d))
      × (get_build j (cancel_build now id d).0
          ≡ (if j == id then Option.map (after_cancel now) (get_build j d) else get_build j d))
unfolding cancel_build is_terminal
cancel_build_lem now id j d = (
  ground arith,
  elim (Bool-cases (j == id)) [
    | inl same ↦
        ground
          (arith, get_build-set_cancelled now id queued d, get_build-set_cancelled now id running d)
    | inr other ↦ ground (
      arith,
      get_build-set_cancelled_ne now id j queued d,
      get_build-set_cancelled_ne now id j running d,
    )
  ],
)

pub cancel-IsValid : (now id : ℕ) (d : Db) → IsValid d → IsValid (cancel_build now id d).0
unfolding cancel_build
cancel-IsValid now id d v = elim (Option-cases (get_build id d)) [
  | inl gone ↦ rw (gone, cancel_build) v
  | inr (b, here) ↦ rw (here, cancel_build) (by_status b.status)
]
  where
    by_status : (s : BuildStatus) → IsValid (cancel_from now id s d).0
    by_status queued = set_cancelled-IsValid now id queued d v
    by_status running = set_cancelled-IsValid now id running d v
    by_status _ = v
