-- ===== src/S3/Retries.antt =====
-- The retries of the requests of crates/paur-s3/src/lib.rs, against a description without the loop.
use paur.Prelude.{
  ℕ, zero, suc, ◌≡◌, refl, ap, ◌∙◌, Bool, Option, none, some, List, [], ◌∷◌, length, take, inl, inr,
  arith, true, false, ◌&&◌, ◌||◌, ◌==◌, leb, if◌then◌else◌, Option-cases,
}
use paur.Prelude.Text.{Text}
use paur.S3.{
  S3Config, S3Result, failure, success, transient, sign, http, permanent, Reply, unsigned, broken,
  answered, is_transient, verdict, send, put, delete, deleted, is_success, retry_delays, with_url,
  public_url_for_key,
}

abbrev among : ℕ → ℕ → ℕ → Bool
among low high s = leb low s && leb s high

-- What a reply decides; `none` is to try again: the statuses 500 to 599, 408 and 429. 200 to 299 is a
-- success, and so is 404 where the object may be missing; every other status is final.
abbrev pub decision : Bool → Reply → Option (S3Result (Unit {0}))
decision may_miss unsigned = some (failure sign)
decision may_miss broken = some (failure http)
decision may_miss (answered s) =
    if s == 408 || s == 429 || among 500 599 s
    then none
    else if among 200 299 s || (may_miss && s == 404)
    then some (success tt)
    else some (failure (permanent s))

verdict-put : (r : Reply) → verdict is_success r ≡ decision false r
unfolding verdict is_success is_transient
verdict-put unsigned = refl
verdict-put broken = refl
verdict-put (answered s) = ground arith

verdict-delete : (r : Reply) → verdict deleted r ≡ decision true r
unfolding verdict deleted is_success is_transient
verdict-delete unsigned = refl
verdict-delete broken = refl
verdict-delete (answered s) = ground arith

-- The first of the attempts `n`, `n + 1`, … that decides, counted from `n`, and how; `tries` attempts
-- are looked at.
pub first_decision :
    (Reply → Option (S3Result (Unit {0}))) → (ℕ → Reply) → ℕ → ℕ → Option (ℕ × S3Result (Unit {0}))
first_decision decide replies zero n = none
first_decision decide replies (suc tries) n = elim (decide (replies n)) [
  | some r ↦ some (0, r)
  | none ↦ elim (first_decision decide replies tries (suc n)) [
    | none ↦ none
    | some (k, r) ↦ some (suc k, r)
  ]
]

-- The delays in front of that attempt, and its outcome; all the delays and a transient error if no
-- attempt decides.
abbrev pub outcome_by : List ℕ → Option (ℕ × S3Result (Unit {0})) → List ℕ × S3Result (Unit {0})
outcome_by delays none = (delays, failure transient)
outcome_by delays (some (k, r)) = (take k delays, r)

outcome_by-suc :
    (d : ℕ) (ds : List ℕ) (q : Option (ℕ × S3Result (Unit {0})))
    → (d ∷ (outcome_by ds q).0, (outcome_by ds q).1)
      ≡ outcome_by (d ∷ ds) (elim q [ none ↦ none | some (k, r) ↦ some (suc k, r) ])
outcome_by-suc d ds none = refl
outcome_by-suc d ds (some (k, r)) = refl

send_lem :
    (accepted : ℕ → Bool) (replies : ℕ → Reply) (delays : List ℕ) (n : ℕ)
    → send accepted replies delays n
      ≡ outcome_by delays (first_decision (verdict accepted) replies (suc (length delays)) n)
unfolding send first_decision
send_lem accepted replies [] n = elim (Option-cases (verdict accepted (replies n))) [
  | inl e ↦ rw (e, first_decision) refl
  | inr (r, e) ↦ rw (e, first_decision) refl
]
send_lem accepted replies (d ∷ ds) n = elim (Option-cases (verdict accepted (replies n))) [
  | inr (r, e) ↦ rw (e, first_decision, send) refl
  | inl e ↦
      let later = send accepted replies ds (suc n) in
      let step : send accepted replies (d ∷ ds) n ≡ (d ∷ later.0, later.1) = rw (e, send) refl in
      step
      ∙ ap (λ (x : List ℕ × S3Result (Unit {0})). (d ∷ x.0, x.1))
          (send_lem accepted replies ds (suc n))
      ∙ outcome_by-suc d ds (first_decision (verdict accepted) replies (suc (length ds)) (suc n))
      ∙ rw (e, first_decision) refl
]

-- An upload and a deletion make up to five attempts. The first attempt that decides, by a request that
-- cannot be signed, an error of the transport, a success or a status that is not worth a retry (those
-- are 408, 429 and 500 to 599; for a deletion 404 is a success), gives the answer, after the delays in
-- front of it; if none of the five does, the delays of 1, 2, 5 and 15 seconds were all slept and the
-- answer is a transient error. An upload that succeeds answers with the public URL of its key.
pub requests_lem :
    (cfg : S3Config) (key : Text) (replies : ℕ → Reply)
    → (put cfg key replies ≡ (
      (outcome_by (1 ∷ 2 ∷ 5 ∷ 15 ∷ []) (first_decision (decision false) replies 5 0)).0,
      with_url
          (public_url_for_key cfg key)
          (outcome_by (1 ∷ 2 ∷ 5 ∷ 15 ∷ []) (first_decision (decision false) replies 5 0)).1,
    ))
      × (delete replies
          ≡ outcome_by (1 ∷ 2 ∷ 5 ∷ 15 ∷ []) (first_decision (decision true) replies 5 0))
unfolding put delete
requests_lem cfg key replies =
    let Decide : Type 0 = Reply → Option (S3Result (Unit {0})) in
    let answer : Decide → List ℕ × S3Result (Unit {0}) =
      λ decide. outcome_by retry_delays (first_decision decide replies 5 0) in
    (
      ap (λ (x : List ℕ × S3Result (Unit {0})). (x.0, with_url (public_url_for_key cfg key) x.1))
          (send_lem is_success replies retry_delays 0 ∙ ap answer (λ i r. verdict-put r i)),
      send_lem deleted replies retry_delays 0 ∙ ap answer (λ i r. verdict-delete r i),
    )
