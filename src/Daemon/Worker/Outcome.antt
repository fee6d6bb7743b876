-- ===== src/Daemon/Worker/Outcome.antt =====
-- What one round of the worker of crates/paur-daemon/src/worker.rs makes of the build it works on.
use mathlib.Core.Option
use paur.Prelude.{
  ℕ, zero, suc, ℤ, pos, negsuc, ◌≡◌, refl, ap, if◌then◌else◌, ◌==◌, Bool, true, false, Option, none,
  some, List, [], ◌∷◌, arith, inl, inr, Bool-cases,
}
use paur.Prelude.Text.{Text}
use paur.Prelude.Tables.{find, update}
use paur.Prelude.Results.{Result, ok, err}
use paur.Core.Name.{PkgName}
use paur.Core.Variants.{Variant}
use paur.Aur.Refs.{latest_ref}
use paur.Builder.{BuildOutcome, is_zero}
use paur.Db.Models.{Db, Package, Build, BuildStatus, success, failed, cancelled, status_eq}
use paur.Db.Invariant.{is_terminal}
use paur.Db.Packages.{set_last_ref}
use paur.Db.Builds.{get_build, with_id, finish_build, record_pkg}
use paur.Daemon.State.{App, drop_channel}
use paur.Daemon.Worker.{
  Outside, after_success, artifact_files, finish, after_publish, record_if, track_head, first_file,
  version_of, final_status, final_status_exit_code,
}

abbrev pub is_ok {ℓ} : {A : Type ℓ} → Result A → Bool
is_ok (ok a) = true
is_ok (err e) = false

-- The row with the id after an update of the row with the id.
find-update_id :
    (id : ℕ) (f : Build → Build)
    → ((b : Build) → (f b).id ≡ b.id)
    → (bs : List Build)
    → find (with_id id) (update (with_id id) f bs) ≡ Option.map f (find (with_id id) bs)
unfolding find update
find-update_id id f key [] = refl
find-update_id id f key (b ∷ bs) = ground (arith, find-update_id id f key bs, key b)

get_build-finish_build :
    (now id : ℕ) (s : BuildStatus) (c : Option ℤ) (d : Db)
    → get_build id (finish_build now id s c d)
      ≡ Option.map
          (λ (b : Build). record b { status = s; finished_at = some now; exit_code = c })
          (get_build id d)
unfolding get_build finish_build
get_build-finish_build now id s c d =
    find-update_id id (λ b. record b { status = s; finished_at = some now; exit_code = c })
      (λ b. refl) d.builds

get_build-record_pkg :
    (id : ℕ) (f v : Text) (d : Db)
    → get_build id (record_pkg id f v d)
      ≡ Option.map
          (λ (b : Build). record b { pkg_file = some f; pkg_version = some v })
          (get_build id d)
unfolding get_build record_pkg
get_build-record_pkg id f v d =
    find-update_id id (λ b. record b { pkg_file = some f; pkg_version = some v }) (λ b. refl)
      d.builds

-- How a run ends in the row, by whether it was cancelled and by its exit code.
abbrev pub ending : Bool → ℤ → BuildStatus × Option ℤ
ending true code = (cancelled, none)
ending false (pos zero) = (success, some (pos 0))
ending false (pos (suc n)) = (failed, some (pos (suc n)))
ending false (negsuc n) = (failed, some (negsuc n))

pub ending-IsTerminal : (stop : Bool) (code : ℤ) → is_terminal (ending stop code).0 ≡ true
unfolding is_terminal
ending-IsTerminal true code = refl
ending-IsTerminal false (pos zero) = refl
ending-IsTerminal false (pos (suc n)) = refl
ending-IsTerminal false (negsuc n) = refl

ending-eq :
    (r : BuildOutcome) → (final_status r, final_status_exit_code r) ≡ ending r.cancelled r.exit_code
unfolding final_status final_status_exit_code
ending-eq r = by_case r.cancelled r.exit_code
  where
    by_case :
        (stop : Bool) (code : ℤ)
        → (
          (if stop then cancelled else if is_zero code then success else failed),
          (if stop then none else some code),
        )
          ≡ ending stop code
    by_case true code = refl
    by_case false (pos zero) = refl
    by_case false (pos (suc n)) =
        let nonzero : (suc n == 0) ≡ false = ground arith in rw nonzero refl
    by_case false (negsuc n) = refl

-- The row that is read says how the build ended.
pub record Ended (o : Outside) (r : BuildOutcome) (q : Option Build) : Type 0 where
  pub row : Build
  pub stored : q ≡ some row
  pub status : row.status ≡ (ending r.cancelled r.exit_code).0
  pub exit_code : row.exit_code ≡ (ending r.cancelled r.exit_code).1
  pub stamped : row.finished_at ≡ some o.finish_time

module _ (o : Outside) (r : BuildOutcome) where
  record_if-Ended :
      (id : ℕ) (f v : Option Text) (d : Db)
      → Ended o r (get_build id d)
      → Ended o r (get_build id (record_if id f v d))
  unfolding record_if
  record_if-Ended id (some f) (some v) d h = record {
    row = record h.row { pkg_file = some f; pkg_version = some v };
    stored = ground (arith, get_build-record_pkg id f v d, h.stored);
    status = h.status;
    exit_code = h.exit_code;
    stamped = h.stamped;
  }
  record_if-Ended id (some f) none d h = h
  record_if-Ended id none v d h = h

  track_head-Ended :
      (pkg_id id : ℕ) (x : Result Text) (d : Db)
      → Ended o r (get_build id d)
      → Ended o r (get_build id (track_head pkg_id x d))
  unfolding track_head get_build set_last_ref
  track_head-Ended pkg_id id (ok x) d h = h
  track_head-Ended pkg_id id (err e) d h = h

  after_publish-Ended :
      (b : Build) (pkg : Package) (name : PkgName) (p : Result (Unit {0})) (d : Db)
      → Ended o r (get_build b.id d)
      → Ended o r (get_build b.id (after_publish o b pkg name r p d))
  unfolding after_publish
  after_publish-Ended b pkg name (err e) d h = h
  after_publish-Ended b pkg name (ok u) d h =
      let files = first_file o r.pkg_files in
      let version = version_of pkg.name r.srcinfo in
      track_head-Ended pkg.id b.id (latest_ref (o.ls_remote name)) (record_if b.id files version d)
        (record_if-Ended b.id files version d h)

  -- `finish` for a build whose row is there leaves the row with the time of the end and, if the run was
  -- cancelled, as cancelled without an exit code, else with the exit code of the run, as successful if
  -- that is 0 and as failed if not, whatever it held before: a cancelled row is written over.
  pub finish-Ended :
      (b row : Build) (pkg : Package) (name : PkgName) (v : Variant) (a : App)
      → get_build b.id a.db ≡ some row
      → Ended o r (get_build b.id (finish o b pkg name v r a).db)
  unfolding finish after_success drop_channel
  finish-Ended b row pkg name v a here =
      let s = final_status r in
      let code = final_status_exit_code r in
      let d = finish_build o.finish_time b.id s code a.db in
      let left : Ended o r (get_build b.id d) = record {
        row = record row { status = s; finished_at = some o.finish_time; exit_code = code };
        stored = ground (arith, get_build-finish_build o.finish_time b.id s code a.db, here);
        status = ap (λ x. x.0) (ending-eq r);
        exit_code = ap (λ x. x.1) (ending-eq r);
        stamped = refl;
      } in
      elim (Bool-cases (status_eq s success)) [
        | inl e ↦ rw e (after_publish-Ended b pkg name (o.publish (artifact_files o b r) v) d left)
        | inr e ↦ rw e left
      ]
