-- ===== src/Db/Statements.antt =====
-- The statements of crates/paur-db/src/queries.rs that the daemon makes, running or asked to set the
-- password, and the sequences of them: what any interleaving of its tasks does to the database.
use paur.Prelude.{
  ℕ, ℤ, ◌≡◌, sym, refl, subst, suc, any, Bool, true, Option, [], arith, inl, inr, Bool-cases,
}
use paur.Prelude.Text.{Text}
use paur.Prelude.Results.{ok}
use paur.Core.Flags.{PackageBuildFlags, no_flags}
use paur.Core.Variants.{Variant, PackageVariants}
use paur.Db.Models.{Db, Build, BuildStatus, BuildTrigger, Stream}
use paur.Db.Packages.{
  delete_package, set_last_ref, set_auto_rebuild, set_build_flags, set_variants, insert_package,
}
use paur.Db.Builds.{
  enqueue_build, claim_build_by_id, cancel_build, finish_build, record_pkg, reap_stale_running,
}
use paur.Db.Logs.{append_log}
use paur.Db.Sessions.{create_session, delete_session, delete_all_sessions, hashed}
use paur.Db.Settings.{set_setting}
use paur.Db.Invariant.{IsValid, has_package, has_build, is_terminal}
use paur.Db.Invariant.Enqueue.{enqueued, enqueue_build-eq, enqueue_build-IsValid}
use paur.Db.Invariant.OfBuilds.{finish_build-IsValid, record_pkg-IsValid, reap-IsValid}
use paur.Db.Invariant.OfLogs.{append_log-eq, logged, logged-IsValid}
use paur.Db.Invariant.OfPackages.{set_fields-IsValid, set_variants-IsValid, insert_package-IsValid}
use paur.Db.Invariant.OfDelete.{delete_package-IsValid}
use paur.Db.Lifecycle.{claim-IsValid, cancel-IsValid}

-- One statement, or one transaction, that succeeds.
pub data Statement (d e : Db) : Type 0 where
  upserts :
      (now : ℕ) (name url : Text) (auto : Bool)
      → e ≡ insert_package now name url auto d
      → Statement d e
  deletes : (name : Text) → e ≡ (delete_package name d).0 → Statement d e
  sets_last_ref : (id : ℕ) (git_ref : Text) → e ≡ set_last_ref id git_ref d → Statement d e
  sets_auto_rebuild :
      (name : Text) (auto : Bool) → e ≡ (set_auto_rebuild name auto d).0 → Statement d e
  sets_build_flags :
      (name : Text) (flags : PackageBuildFlags)
      → e ≡ (set_build_flags name flags d).0
      → Statement d e
  sets_variants :
      (name : Text) (variants : PackageVariants)
      → e ≡ (set_variants name variants d).0
      → Statement d e
  enqueues :
      (now pkg id : ℕ) (t : BuildTrigger) (v : Variant)
      → enqueue_build now pkg t v d ≡ ok (e, id)
      → Statement d e
  claims :
      (now id : ℕ) (w : Text) (r : Option Build)
      → claim_build_by_id now id w d ≡ ok (e, r)
      → Statement d e
  cancels : (now id : ℕ) → e ≡ (cancel_build now id d).0 → Statement d e
  finishes :
      (now id : ℕ) (status : BuildStatus) (code : Option ℤ)
      → is_terminal status ≡ true
      → e ≡ finish_build now id status code d
      → Statement d e
  records_pkg : (id : ℕ) (file version : Text) → e ≡ record_pkg id file version d → Statement d e
  reaps : (now : ℕ) → e ≡ (reap_stale_running now d).0 → Statement d e
  creates_session :
      (now : ℕ) (token_hash user : Text) (expires_at : ℕ)
      → create_session now token_hash user expires_at d ≡ ok e
      → Statement d e
  deletes_session : (token_hash : Text) → e ≡ delete_session token_hash d → Statement d e
  deletes_all_sessions : e ≡ delete_all_sessions d → Statement d e
  sets_setting : (key value : Text) → e ≡ set_setting key value d → Statement d e
  logs :
      (now id : ℕ) (stream : Stream) (line : Text)
      → append_log now id stream line d ≡ ok e
      → Statement d e

-- The sequences of statements from a database on.
pub data Runs (d : Db) : Db → Type 0 where
  none_yet : Runs d d
  and_then : {e f : Db} → Runs d e → Statement e f → Runs d f

-- The sessions and the settings are no part of the invariant.
other_tables-IsValid :
    (d e : Db)
    → e.packages ≡ d.packages
    → e.builds ≡ d.builds
    → e.build_logs ≡ d.build_logs
    → e.last_build_id ≡ d.last_build_id
    → IsValid d
    → IsValid e
other_tables-IsValid d e h1 h2 h3 h4 v = record {
  builds_valid = rw (h1, h2, h4) v.builds_valid;
  packages_valid = rw h1 v.packages_valid;
  logs_valid = rw (h2, h3) v.logs_valid;
}

-- What a new session leaves of the other tables.
pub create_session-tables :
    (now : ℕ) (token_hash user : Text) (expires_at : ℕ) (d e : Db)
    → create_session now token_hash user expires_at d ≡ ok e
    → (e.packages ≡ d.packages)
      × (e.builds ≡ d.builds)
      × (e.build_logs ≡ d.build_logs)
      × (e.last_build_id ≡ d.last_build_id)
unfolding create_session
create_session-tables now token_hash user expires_at d e h =
    elim (Bool-cases (any (hashed token_hash) d.sessions)) [
      | inl taken ↦ absurd (ground arith)
      | inr free ↦ (ground arith, ground arith, ground arith, ground arith)
    ]

Statement-IsValid : (d e : Db) → IsValid d → Statement d e → IsValid e
unfolding delete_session delete_all_sessions set_setting
Statement-IsValid d e v (upserts now name url auto h) =
    subst IsValid (sym h) (insert_package-IsValid now name url auto d v)
Statement-IsValid d e v (deletes name h) = subst IsValid (sym h) (delete_package-IsValid name d v)
Statement-IsValid d e v (sets_last_ref id git_ref h) =
    subst IsValid (sym h) (set_fields-IsValid [] git_ref id true no_flags d v).3
Statement-IsValid d e v (sets_auto_rebuild name auto h) =
    subst IsValid (sym h) (set_fields-IsValid name [] 0 auto no_flags d v).1
Statement-IsValid d e v (sets_build_flags name flags h) =
    subst IsValid (sym h) (set_fields-IsValid name [] 0 true flags d v).2
Statement-IsValid d e v (sets_variants name variants h) =
    subst IsValid (sym h) (set_variants-IsValid name variants d v)
Statement-IsValid d e v (enqueues now pkg id t w h) =
    (enqueue_build-IsValid now pkg t w d e id v h).0
Statement-IsValid d e v (claims now id w r h) = claim-IsValid now id w d e r v h
Statement-IsValid d e v (cancels now id h) = subst IsValid (sym h) (cancel-IsValid now id d v)
Statement-IsValid d e v (finishes now id status code t h) =
    subst IsValid (sym h) (finish_build-IsValid now id status code d t v)
Statement-IsValid d e v (records_pkg id file version h) =
    subst IsValid (sym h) (record_pkg-IsValid id file version d v)
Statement-IsValid d e v (reaps now h) = subst IsValid (sym h) (reap-IsValid now d v)
Statement-IsValid d e v (creates_session now token_hash user expires_at h) =
    let (ps, bs, ls, last) = create_session-tables now token_hash user expires_at d e h in
    other_tables-IsValid d e ps bs ls last v
Statement-IsValid d e v (deletes_session token_hash h) =
    subst IsValid (sym h)
      (other_tables-IsValid d (delete_session token_hash d) refl refl refl refl v)
Statement-IsValid d e v (deletes_all_sessions h) =
    subst IsValid (sym h) (other_tables-IsValid d (delete_all_sessions d) refl refl refl refl v)
Statement-IsValid d e v (sets_setting key value h) = subst IsValid (sym h) (
    other_tables-IsValid d (set_setting key value d) (ground arith) (ground arith) (ground arith)
      (ground arith) v)
Statement-IsValid d e v (logs now id stream line h) = elim (Bool-cases (has_build d.builds id)) [
  | inl owner ↦
      let same : e ≡ logged now id stream line d =
        ground (arith, append_log-eq now id stream line d) in
      subst IsValid (sym same) (logged-IsValid now id stream line d owner v)
  | inr gone ↦ absurd (ground (arith, append_log-eq now id stream line d))
]

pub Runs-IsValid : (d e : Db) → IsValid d → Runs d e → IsValid e
Runs-IsValid d e v none_yet = v
Runs-IsValid d e v (and_then {e = f} run s) = Statement-IsValid f e (Runs-IsValid d f v run) s

pub Runs-append : (d e f : Db) → Runs d e → Runs e f → Runs d f
Runs-append d e f run none_yet = run
Runs-append d e f run (and_then {e = m} more s) = and_then (Runs-append d e m run more) s

-- One more statement, by the form in which the daemon's functions make it.
module _ {d0 : Db} where
  pub enqueued-Runs :
      (now pkg : ℕ) (t : BuildTrigger) (w : Variant) (d : Db)
      → has_package d.packages pkg ≡ true
      → Runs d0 d
      → Runs d0 (enqueued now pkg t w d)
  enqueued-Runs now pkg t w d owner r =
      and_then r (
        enqueues now pkg (suc d.last_build_id) t w (ground (arith, enqueue_build-eq now pkg t w d)))

  pub logged-Runs :
      (now id : ℕ) (stream : Stream) (line : Text) (d : Db)
      → has_build d.builds id ≡ true
      → Runs d0 d
      → Runs d0 (logged now id stream line d)
  logged-Runs now id stream line d owner r =
      and_then r (logs now id stream line (ground (arith, append_log-eq now id stream line d)))
