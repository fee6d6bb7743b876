-- ===== src/Db/Progress.antt =====
-- The life of every build under the statements of crates/paur-db/src/queries.rs, seen as a number that
-- only grows.
pub mod Rows
use paur.Prelude.{
  ℕ, ◌≤◌, ◌<◌, ◌≡◌, refl, sym, ap, ◌∙◌, subst, ◌≢◌, Bool, true, false, not, Option, none, some,
  List, [], ◌∷◌, ◌++◌, any, arith, inl, inr, Bool-cases, Option-cases, All, Pairwise, All-map_pred,
  ◌==◌, ==_iff, suc, ℤ, negsuc, if◌then◌else◌,
}
use mathlib.Core.Option
use paur.Prelude.Tables.{find, select, delete, update}
use paur.Prelude.Results.{ok}
use paur.Db.Models.{
  Db, Build, BuildStatus, BuildTrigger, queued, running, failed, cancelled, status_eq,
}
use paur.Db.Packages.{
  insert_package, delete_package, set_last_ref, set_auto_rebuild, set_build_flags, set_variants,
}
use paur.Core.Variants.{Variant}
use paur.Prelude.Text.{Text}
use paur.Db.Builds.{
  with_id, with_status, start, new_build, next_seq, set_running, set_cancelled, cancel_from,
  claim_build_by_id, get_build, cancel_build, finish_build, record_pkg, reap_stale_running,
}
use paur.Db.Invariant.{IsValid, is_terminal, has_build, has_package, Below}
use paur.Db.Invariant.Enqueue.{enqueued, enqueue_build-eq}
use paur.Db.Invariant.OfLogs.{append_log-eq, logged}
use paur.Db.Lifecycle.{
  cancel_build_lem, cancel_answer, after_cancel, claim-inversion, after_claim,
  get_build-set_running, get_build-set_running_ne,
}
use paur.Db.Invariant.Transitions.{claim_build_by_id-eq}
use paur.Db.Sessions.{delete_session, delete_all_sessions}
use paur.Db.Settings.{set_setting}
use paur.Db.Statements.{
  creates_session, deletes_session, deletes_all_sessions, sets_setting, create_session-tables,
  Statement, upserts, deletes, sets_last_ref, sets_auto_rebuild, sets_build_flags, sets_variants,
  enqueues, claims, cancels, finishes, records_pkg, reaps, logs, Runs, none_yet, and_then,
  Runs-IsValid,
}
use paur.Db.Progress.Rows.{
  status_stage, stage, update-stage, select-stage, append-stage, at_most_ended,
}

-- No build goes back, and ids are not taken back.
abbrev pub Progress : Db → Db → Type 0
Progress d e =
    ((j : ℕ) → j ≤ d.last_build_id → stage (get_build j d) ≤ stage (get_build j e))
    × (d.last_build_id ≤ e.last_build_id)

same_builds : (d e : Db) → e.builds ≡ d.builds → e.last_build_id ≡ d.last_build_id → Progress d e
unfolding get_build
same_builds d e h k = (
  λ j known.
      subst (λ bs. stage (find (with_id j) d.builds) ≤ stage (find (with_id j) bs)) (sym h)
        (omega arith),
  omega (arith, k),
)

updated :
    (p : Build → Bool) (f : Build → Build) (d e : Db)
    → ((b : Build) → (f b).id ≡ b.id)
    → ((b : Build) → p b ≡ true → status_stage b.status ≤ status_stage (f b).status)
    → e.builds ≡ update p f d.builds
    → e.last_build_id ≡ d.last_build_id
    → Progress d e
unfolding get_build
updated p f d e key up h k = (
  λ j known.
      subst (λ bs. stage (find (with_id j) d.builds) ≤ stage (find (with_id j) bs)) (sym h)
        (update-stage p f j key up d.builds),
  omega (arith, k),
)

set_running-Progress : (now id : ℕ) (w : Text) (d : Db) → Progress d (set_running now id w d)
unfolding set_running status_eq
set_running-Progress now id w d =
    updated (with_status id queued) (start now w) d (set_running now id w d) (λ b. refl)
      (λ b h. queued_first b.status (ground arith)) refl refl
  where
    queued_first : (t : BuildStatus) → status_eq t queued ≡ true → status_stage t ≤ 1
    queued_first queued h = omega arith
    queued_first running h = omega arith
    queued_first t h = absurd (ground arith)

claim-Progress :
    (now id : ℕ) (w : Text) (d e : Db) (r : Option Build)
    → IsValid d
    → claim_build_by_id now id w d ≡ ok (e, r)
    → Progress d e
claim-Progress now id w d e r v h = elim (Option-cases (get_build id d)) [
  | inl gone ↦ subst (Progress d) (ground (arith, claim_build_by_id-eq now id w d v)) still
  | inr (b, here) ↦ elim (Bool-cases (status_eq b.status queued)) [
    | inl yes_queued ↦
        subst (Progress d) (ground (arith, claim_build_by_id-eq now id w d v))
          (set_running-Progress now id w d)
    | inr other ↦ subst (Progress d) (ground (arith, claim_build_by_id-eq now id w d v)) still
  ]
]
  where
    still : Progress d d
    still = same_builds d d refl refl

set_cancelled-Progress :
    (now id : ℕ) (cur : BuildStatus) (d : Db) → Progress d (set_cancelled now id cur d)
unfolding set_cancelled
set_cancelled-Progress now id cur d =
    updated (with_status id cur) (λ b. record b { status = cancelled; finished_at = some now }) d
      (set_cancelled now id cur d) (λ b. refl) (λ b h. at_most_ended b.status) refl refl

cancel-Progress : (now id : ℕ) (d : Db) → Progress d (cancel_build now id d).0
unfolding cancel_build
cancel-Progress now id d = elim (Option-cases (get_build id d)) [
  | inl gone ↦ rw (gone, cancel_build) (same_builds d d refl refl)
  | inr (b, here) ↦ rw (here, cancel_build) (by_status b.status)
]
  where
    by_status : (s : BuildStatus) → Progress d (cancel_from now id s d).0
    by_status queued = set_cancelled-Progress now id queued d
    by_status running = set_cancelled-Progress now id running d
    by_status _ = same_builds d d refl refl

finish-Progress :
    (now id : ℕ) (status : BuildStatus) (code : Option ℤ) (d : Db)
    → is_terminal status ≡ true
    → Progress d (finish_build now id status code d)
unfolding finish_build is_terminal
finish-Progress now id status code d t =
    updated (with_id id)
      (λ b. record b { status = status; finished_at = some now; exit_code = code }) d
      (finish_build now id status code d) (λ b. refl) (λ b h. ended b.status status t) refl refl
  where
    ended : (s t : BuildStatus) → is_terminal t ≡ true → status_stage s ≤ status_stage t
    ended s queued h = absurd (ground arith)
    ended s running h = absurd (ground arith)
    ended s t h = at_most_ended s

reap-Progress : (now : ℕ) (d : Db) → Progress d (reap_stale_running now d).0
unfolding reap_stale_running
reap-Progress now d =
    updated (λ b. status_eq b.status running)
      (λ b. record b { status = failed; finished_at = some now; exit_code = some (negsuc 0) }) d
      (reap_stale_running now d).0 (λ b. refl) (λ b h. at_most_ended b.status) refl refl

record-Progress :
    (id : ℕ) (file version : Text) (d : Db) → Progress d (record_pkg id file version d)
unfolding record_pkg
record-Progress id file version d =
    updated (with_id id) (λ b. record b { pkg_file = some file; pkg_version = some version }) d
      (record_pkg id file version d) (λ b. refl) (λ b h. omega arith) refl refl

delete-Progress : (name : Text) (d : Db) → IsValid d → Progress d (delete_package name d).0
unfolding delete_package delete get_build
delete-Progress name d v = (λ j known. select-stage _ j d.builds v.builds_valid.ids, omega arith)

enqueue-Progress :
    (now pkg : ℕ) (t : BuildTrigger) (w : Variant) (d : Db) → Progress d (enqueued now pkg t w d)
unfolding get_build new_build
enqueue-Progress now pkg t w d = (
  λ j known.
      append-stage j (new_build (suc d.last_build_id) now pkg (next_seq pkg d) t w) d.builds
        (λ e. let same : j ≡ suc d.last_build_id = e in omega (arith, known, same)),
  omega arith,
)

upsert-Progress :
    (now : ℕ) (name url : Text) (auto : Bool) (d : Db)
    → Progress d (insert_package now name url auto d)
unfolding insert_package
upsert-Progress now name url auto d =
    same_builds d (insert_package now name url auto d) (ground arith) (ground arith)

Statement-Progress : (d e : Db) → IsValid d → Statement d e → Progress d e
unfolding delete_session delete_all_sessions set_setting set_last_ref set_auto_rebuild
    set_build_flags set_variants
Statement-Progress d e v (upserts now name url auto h) =
    subst (Progress d) (sym h) (upsert-Progress now name url auto d)
Statement-Progress d e v (deletes name h) = subst (Progress d) (sym h) (delete-Progress name d v)
Statement-Progress d e v (sets_last_ref id git_ref h) =
    same_builds d e (ap (λ (x : Db). x.builds) h) (ap (λ (x : Db). x.last_build_id) h)
Statement-Progress d e v (sets_auto_rebuild name auto h) =
    same_builds d e (ap (λ (x : Db). x.builds) h) (ap (λ (x : Db). x.last_build_id) h)
Statement-Progress d e v (sets_build_flags name flags h) =
    same_builds d e (ap (λ (x : Db). x.builds) h) (ap (λ (x : Db). x.last_build_id) h)
Statement-Progress d e v (sets_variants name variants h) =
    same_builds d e (ap (λ (x : Db). x.builds) h) (ap (λ (x : Db). x.last_build_id) h)
Statement-Progress d e v (enqueues now pkg id t w h) =
    elim (Bool-cases (has_package d.packages pkg)) [
      | inl owner ↦
          let same : e ≡ enqueued now pkg t w d = ground (arith, enqueue_build-eq now pkg t w d) in
          subst (Progress d) (sym same) (enqueue-Progress now pkg t w d)
      | inr gone ↦ absurd (ground (arith, enqueue_build-eq now pkg t w d))
    ]
Statement-Progress d e v (claims now id w r h) = claim-Progress now id w d e r v h
Statement-Progress d e v (cancels now id h) = subst (Progress d) (sym h) (cancel-Progress now id d)
Statement-Progress d e v (finishes now id status code t h) =
    subst (Progress d) (sym h) (finish-Progress now id status code d t)
Statement-Progress d e v (records_pkg id file version h) =
    subst (Progress d) (sym h) (record-Progress id file version d)
Statement-Progress d e v (reaps now h) = subst (Progress d) (sym h) (reap-Progress now d)
Statement-Progress d e v (creates_session now token_hash user expires_at h) =
    let (ps, bs, ls, last) = create_session-tables now token_hash user expires_at d e h in
    same_builds d e bs last
Statement-Progress d e v (deletes_session token_hash h) =
    same_builds d e (ap (λ (x : Db). x.builds) h) (ap (λ (x : Db). x.last_build_id) h)
Statement-Progress d e v (deletes_all_sessions h) =
    same_builds d e (ap (λ (x : Db). x.builds) h) (ap (λ (x : Db). x.last_build_id) h)
Statement-Progress d e v (sets_setting key value h) =
    subst (Progress d) (sym h)
      (same_builds d (set_setting key value d) (ground arith) (ground arith))
Statement-Progress d e v (logs now id stream line h) = elim (Bool-cases (has_build d.builds id)) [
  | inl owner ↦
      let same : e ≡ logged now id stream line d =
        ground (arith, append_log-eq now id stream line d) in
      subst (Progress d) (sym same) (same_builds d (logged now id stream line d) refl refl)
  | inr gone ↦ absurd (ground (arith, append_log-eq now id stream line d))
]

Progress-trans : (d e f : Db) → Progress d e → Progress e f → Progress d f
Progress-trans d e f h k = (
  λ j known.
      let first = h.0 j known in
      let second = k.0 j (omega (arith, known, h.1)) in omega (arith, first, second),
  omega (arith, h.1, k.1),
)

-- Whatever of the daemon's statements are run, in whatever order, from a valid database on: it stays
-- valid, no build that was given out goes back from running to queued, from its end to running or
-- queued, or comes back once it is deleted, and no id is taken back.
pub Runs-Progress : (d e : Db) → IsValid d → Runs d e → IsValid e × Progress d e
Runs-Progress d e v none_yet = (v, same_builds d d refl refl)
Runs-Progress d e v (and_then {e = f} run s) =
    let (valid, far) = Runs-Progress d f v run in
    (Runs-IsValid d e v (and_then run s), Progress-trans d f e far (Statement-Progress f e valid s))
