-- ===== src/Daemon/Worker/Valid.antt =====
-- A round of the worker of crates/paur-daemon/src/worker.rs, part by part, and the statements of the
-- database.
use paur.Prelude.{
  ℕ, ◌≡◌, refl, true, ◌&&◌, Option, none, some, List, [], ◌∷◌, ◌==◌, arith, inl, inr, Bool-cases,
}
use paur.Prelude.Text.{Text}
use paur.Prelude.Tables.{find}
use paur.Prelude.Results.{Result, ok, err}
use paur.Core.Name as Name
use paur.Core.Name.{PkgName}
use paur.Core.Variants as Variants
use paur.Core.Variants.{Variant}
use paur.Aur.Refs.{latest_ref}
use paur.Builder.{BuildOutcome, Container, run_in_container}
use paur.Db.Models.{Db, Package, Build, success, status_eq, stdout}
use paur.Db.Packages.{list_packages}
use paur.Db.Builds.{claim_build_by_id, finish_build}
use paur.Db.Invariant.{IsValid, has_build, is_terminal}
use paur.Db.Invariant.OfLogs.{append_log-eq}
use paur.Daemon.State.{App, or_same, one_line, write_line, write_lines, channel_for, drop_channel}
use paur.Daemon.Worker.{
  Outside, after_success, artifact_files, finish, request, process_claimed, process_one, worker_id,
  with_name, with_package, after_publish, after_container, after_lines, with_variant, register,
  record_if, track_head, first_file, version_of, final_status, final_status_exit_code, after_claim,
}
use paur.Db.Statements.{
  Runs, and_then, none_yet, records_pkg, sets_last_ref, finishes, claims, logged-Runs, Runs-IsValid,
}

final_status-IsTerminal : (r : BuildOutcome) → is_terminal (final_status r) ≡ true
unfolding final_status is_terminal
final_status-IsTerminal r = ground arith

module _ {d0 : Db} where
  write_line-Runs :
      (now id : ℕ) (line : Text) (a : App)
      → Runs d0 a.db
      → Runs d0 (or_same a (write_line now id line a)).db
  unfolding write_line channel_for
  write_line-Runs now id line a v = elim (Bool-cases (has_build a.db.builds id)) [
    | inl owner ↦
        rw (append_log-eq now id stdout (one_line line) a.db, owner)
          (logged-Runs now id stdout (one_line line) a.db owner v)
    | inr gone ↦ rw (append_log-eq now id stdout (one_line line) a.db, gone) v
  ]

  write_lines-Runs :
      (now id : ℕ) (ls : List Text) (a : App) → Runs d0 a.db → Runs d0 (write_lines now id ls a).db
  unfolding write_lines
  write_lines-Runs now id [] a v = v
  write_lines-Runs now id (line ∷ ls) a v =
      write_lines-Runs now id ls (or_same a (write_line now id line a))
        (write_line-Runs now id line a v)

  after_lines-Runs :
      (o : Outside) (b : Build) (c : Container) (a : App)
      → Runs d0 a.db
      → Runs d0 (after_lines o b c a).db
  unfolding after_lines
  after_lines-Runs o b c a v = elim (Bool-cases (c.layout_made && c.spawned)) [
    | inl e ↦ rw e (write_lines-Runs o.log_time b.id c.lines a v)
    | inr e ↦ rw e v
  ]

  record_if-Runs : (id : ℕ) (f v : Option Text) (d : Db) → Runs d0 d → Runs d0 (record_if id f v d)
  unfolding record_if
  record_if-Runs id (some f) (some v) d w = and_then w (records_pkg id f v refl)
  record_if-Runs id (some f) none d w = w
  record_if-Runs id none v d w = w

  track_head-Runs : (id : ℕ) (r : Result Text) (d : Db) → Runs d0 d → Runs d0 (track_head id r d)
  unfolding track_head
  track_head-Runs id (ok r) d v = and_then v (sets_last_ref id r refl)
  track_head-Runs id (err e) d v = v

  after_publish-Runs :
      (o : Outside) (b : Build) (pkg : Package) (name : PkgName) (r : BuildOutcome)
      (p : Result (Unit {0})) (d : Db)
      → Runs d0 d
      → Runs d0 (after_publish o b pkg name r p d)
  unfolding after_publish
  after_publish-Runs o b pkg name r (err e) d v = v
  after_publish-Runs o b pkg name r (ok u) d v =
      let files = first_file o r.pkg_files in
      let version = version_of pkg.name r.srcinfo in
      track_head-Runs pkg.id (latest_ref (o.ls_remote name)) (record_if b.id files version d)
        (record_if-Runs b.id files version d v)

  pub finish-Runs :
      (o : Outside) (b : Build) (pkg : Package) (name : PkgName) (v : Variant) (r : BuildOutcome)
      (a : App)
      → Runs d0 a.db
      → Runs d0 (finish o b pkg name v r a).db
  unfolding finish after_success drop_channel
  finish-Runs o b pkg name v r a w =
      let s = final_status r in
      let d = finish_build o.finish_time b.id s (final_status_exit_code r) a.db in
      let left : Runs d0 d = and_then w (
        finishes o.finish_time b.id s (final_status_exit_code r) (final_status-IsTerminal r)
          refl) in
      elim (Bool-cases (status_eq s success)) [
        | inl e ↦
            rw e (after_publish-Runs o b pkg name r (o.publish (artifact_files o b r) v) d left)
        | inr e ↦ rw e left
      ]

  after_container-Runs :
      (o : Outside) (b : Build) (pkg : Package) (name : PkgName) (v : Variant)
      (r : Result BuildOutcome) (a : App)
      → Runs d0 a.db
      → Runs d0 (after_container o b pkg name v r a).0.db
  unfolding after_container
  after_container-Runs o b pkg name v (err e) a w = w
  after_container-Runs o b pkg name v (ok r) a w = finish-Runs o b pkg name v r a w

  with_variant-Runs :
      (o : Outside) (b : Build) (pkg : Package) (name : PkgName) (v : Option Variant) (a : App)
      → Runs d0 a.db
      → Runs d0 (with_variant o b pkg name v a).0.db
  unfolding with_variant
  with_variant-Runs o b pkg name none a w = w
  with_variant-Runs o b pkg name (some v) a w =
      let req = request o b pkg name v in
      let c = o.container req in
      after_container-Runs o b pkg name v (run_in_container req c) (after_lines o b c a)
        (after_lines-Runs o b c a w)

  with_name-Runs :
      (o : Outside) (b : Build) (pkg : Package) (n : Result PkgName) (a : App)
      → Runs d0 a.db
      → Runs d0 (with_name o b pkg n a).0.db
  unfolding with_name register
  with_name-Runs o b pkg (err e) a w = w
  with_name-Runs o b pkg (ok name) a w =
      with_variant-Runs o b pkg name (Variants.parse b.variant) (register b a) w

  with_package-Runs :
      (o : Outside) (b : Build) (q : Option Package) (a : App)
      → Runs d0 a.db
      → Runs d0 (with_package o b q a).0.db
  unfolding with_package
  with_package-Runs o b none a w = w
  with_package-Runs o b (some pkg) a w = with_name-Runs o b pkg (Name.new pkg.name) a w

  after_claim-Runs :
      (o : Outside) (r : Result (Db × Option Build)) (a : App)
      → Runs d0 a.db
      → ((d : Db) (q : Option Build) → r ≡ ok (d, q) → Runs d0 d)
      → Runs d0 (after_claim o r a).0.db
  unfolding after_claim process_claimed
  after_claim-Runs o (err e) a v h = v
  after_claim-Runs o (ok (d, none)) a v h = h d none refl
  after_claim-Runs o (ok (d, some b)) a v h =
      with_package-Runs o b (find (λ p. p.id == b.package_id) (list_packages d))
        (record a { db = d }) (h d (some b) refl)

  -- A round of the worker keeps the invariant of the database, whatever the container, the publishing
  -- and the errors.
  pub process_one-Runs :
      (o : Outside) (id : ℕ) (a : App) → Runs d0 a.db → Runs d0 (process_one o id a).0.db
  unfolding process_one
  process_one-Runs o id a v =
      after_claim-Runs o (claim_build_by_id o.claim_time id worker_id a.db) a v
        (λ d q h. and_then v (claims o.claim_time id worker_id q h))

pub process_one-IsValid :
    (o : Outside) (id : ℕ) (a : App) → IsValid a.db → IsValid (process_one o id a).0.db
process_one-IsValid o id a v =
    Runs-IsValid a.db (process_one o id a).0.db v (process_one-Runs o id a none_yet)
