-- ===== src/Daemon/Worker.antt =====
-- crates/paur-daemon/src/worker.rs: one build from its claim to its end, and the worker loop.
pub mod Frame
pub mod Outcome
pub mod Rounds
pub mod Settled
pub mod Completes
pub mod StartUp
pub mod Valid
pub mod Drained
use paur.Prelude.{
  ℕ, zero, suc, ℤ, pos, ◌+◌, Bool, true, false, ◌&&◌, Option, none, some, List, [], ◌∷◌, ◌++◌, map,
  head?, ◌==◌, if◌then◌else◌, is_some,
}
use paur.Prelude.Text.{Text, codes}
use paur.Prelude.Tables.{find}
use paur.Prelude.Results.{Result, ok, err, invalid, not_found, repo, ◌>>=◌, ok_or}
use paur.Core.Name as Name
use paur.Core.Name.{PkgName}
use paur.Core.Variants as Variants
use paur.Core.Variants.{Variant}
use paur.Aur.Info.{SrcInfo, full_version_of}
use paur.Aur.Refs.{latest_ref}
use paur.Prelude.{map, ◌==◌}
use paur.Builder.{
  join, ContainerRuntime, BuildRequest, BuildOutcome, Container, run_in_container, is_zero,
}
use paur.Db.Models.{Db, Package, Build, BuildStatus, queued, success, failed, cancelled, status_eq}
use paur.Db.Packages.{list_packages, set_last_ref}
use paur.Db.Builds.{claim_build_by_id, finish_build, record_pkg, reap_stale_running, list_builds}
use paur.Daemon.State.{App, insert_id, remove_id, drop_channel, write_lines, send_wake}

-- What lies outside of one run of `process_one`: the clock, the configuration, the container, the
-- publishing of artifacts and `git ls-remote`.
pub record Outside : Type 0 where
  pub claim_time : ℕ
  pub log_time : ℕ
  pub finish_time : ℕ
  pub work_dir_of : ℕ → Text
  pub ccache_dir : Text
  pub runtime : ContainerRuntime
  pub image : Text
  pub container : BuildRequest → Container
  pub publish : List Text → Variant → Result (Unit {0})
  pub file_name : Text → Option Text
  pub ls_remote : PkgName → Option Text

unfoldable pub final_status : BuildOutcome → BuildStatus
final_status o = if o.cancelled then cancelled else if is_zero o.exit_code then success else failed

unfoldable pub final_status_exit_code : BuildOutcome → Option ℤ
final_status_exit_code o = if o.cancelled then none else some o.exit_code

-- `outcome.pkg_files.first().and_then(file_name)`
pub first_file : Outside → List Text → Option Text
first_file o [] = none
first_file o (p ∷ ps) = o.file_name p

pub version_of : Text → Option SrcInfo → Option Text
unfolding full_version_of
version_of name none = none
version_of name (some s) = full_version_of name s

-- `if let (Some(f), Some(v))`
unfoldable pub record_if : ℕ → Option Text → Option Text → Db → Db
unfolding record_pkg
record_if id (some f) (some v) d = record_pkg id f v d
record_if id _ v d = d

-- `if let Ok(head)`
unfoldable pub track_head : ℕ → Result Text → Db → Db
unfolding set_last_ref
track_head pkg_id (ok head) d = set_last_ref pkg_id head d
track_head pkg_id (err e) d = d

-- What a successful build writes once its artifacts are published; nothing if that failed.
unfoldable pub after_publish :
    Outside → Build → Package → PkgName → BuildOutcome → Result (Unit {0}) → Db → Db
unfolding first_file version_of record_if track_head latest_ref
after_publish o b pkg name outcome (err e) d = d
after_publish o b pkg name outcome (ok u) d =
    track_head pkg.id (latest_ref (o.ls_remote name))
      (record_if b.id (first_file o outcome.pkg_files) (version_of pkg.name outcome.srcinfo) d)

-- `is_absolute`
abbrev pub is_absolute : Text → Bool
is_absolute [] = false
is_absolute (c ∷ p) = c == b'/'

-- The files that `publish_artifacts` publishes: relative paths are those under the output directory.
unfoldable pub resolved : Text → Text → Text
unfolding join
resolved out_dir p = if is_absolute p then p else join out_dir p

unfoldable pub artifact_files : Outside → Build → BuildOutcome → List Text
unfolding resolved join
artifact_files o b outcome =
    map (resolved (join (o.work_dir_of b.id) (codes "out"))) outcome.pkg_files

unfoldable pub after_success :
    Outside → Build → Package → PkgName → Variant → BuildOutcome → Db → Db
unfolding after_publish artifact_files
after_success o b pkg name v outcome d =
    after_publish o b pkg name outcome (o.publish (artifact_files o b outcome) v) d

-- From the drop of the token to the end.
unfoldable pub finish : Outside → Build → Package → PkgName → Variant → BuildOutcome → App → App
unfolding remove_id final_status final_status_exit_code finish_build status_eq drop_channel
finish o b pkg name v outcome a =
    let status = final_status outcome in
    let d = finish_build o.finish_time b.id status (final_status_exit_code outcome) a.db in
    let e = if status_eq status success then after_success o b pkg name v outcome d else d in
    drop_channel b.id (record a { db = e; cancel_tokens = remove_id b.id a.cancel_tokens })

unfoldable pub request : Outside → Build → Package → PkgName → Variant → BuildRequest
request o b pkg name v = record {
  pkg = name;
  aur_url = pkg.aur_url;
  work_dir = o.work_dir_of b.id;
  ccache_dir = o.ccache_dir;
  runtime = o.runtime;
  image = o.image;
  flags = pkg.build_flags;
  variant = v;
}

-- The `?` behind the run: an error returns at once, with the token still in the map.
unfoldable pub after_container :
    Outside
    → Build
    → Package
    → PkgName
    → Variant
    → Result BuildOutcome
    → App
    → App × Result (Unit {0})
unfolding finish
after_container o b pkg name v (err e) a = (a, err e)
after_container o b pkg name v (ok outcome) a = (finish o b pkg name v outcome a, ok tt)

-- The state in which the container leaves the daemon: its lines are logged.
unfoldable pub after_lines : Outside → Build → Container → App → App
unfolding write_lines
after_lines o b c a =
    if c.layout_made && c.spawned then write_lines o.log_time b.id c.lines a else a

unfoldable pub run_build :
    Outside → Build → Package → PkgName → Variant → App → App × Result (Unit {0})
unfolding request after_container after_lines run_in_container
run_build o b pkg name v a =
    let req = request o b pkg name v in
    let c = o.container req in
    after_container o b pkg name v (run_in_container req c) (after_lines o b c a)

unfoldable pub with_variant :
    Outside → Build → Package → PkgName → Option Variant → App → App × Result (Unit {0})
unfolding run_build
with_variant o b pkg name none a = (a, err invalid)
with_variant o b pkg name (some v) a = run_build o b pkg name v a

unfoldable pub register : Build → App → App
unfolding insert_id
register b a = record a { cancel_tokens = insert_id b.id a.cancel_tokens }

-- The token is registered, then the variant is read.
unfoldable pub with_name :
    Outside → Build → Package → Result PkgName → App → App × Result (Unit {0})
unfolding with_variant register
with_name o b pkg (err e) a = (a, err e)
with_name o b pkg (ok name) a = with_variant o b pkg name (Variants.parse b.variant) (register b a)

unfoldable pub with_package : Outside → Build → Option Package → App → App × Result (Unit {0})
unfolding with_name
with_package o b none a = (a, err not_found)
with_package o b (some pkg) a = with_name o b pkg (Name.new pkg.name) a

-- What is done with the claimed build.
unfoldable pub process_claimed : Outside → Build → App → App × Result (Unit {0})
unfolding with_package
process_claimed o b a = with_package o b (find (λ p. p.id == b.package_id) (list_packages a.db)) a

abbrev pub worker_id : Text
worker_id = codes "paur-worker"

unfoldable pub after_claim : Outside → Result (Db × Option Build) → App → App × Result (Unit {0})
unfolding process_claimed
after_claim o (err e) a = (a, err e)
after_claim o (ok (d, none)) a = (record a { db = d }, ok tt)
after_claim o (ok (d, some b)) a = process_claimed o b (record a { db = d })

unfoldable pub process_one : Outside → ℕ → App → App × Result (Unit {0})
unfolding after_claim
process_one o build_id a = after_claim o (claim_build_by_id o.claim_time build_id worker_id a.db) a

-- `n` rounds of `run_worker`; each round has its own surroundings, and an error only ends its round.
-- With no id in the channel the loop waits.
unfoldable pub work : (ℕ → Outside) → ℕ → App → App
unfolding process_one
work os zero a = a
work os (suc n) a = elim a.wakes [
  | [] ↦ a
  | id ∷ rest ↦ work os n (process_one (os n) id (record a { wakes = rest })).0
]

-- The start of `run`: builds left running are failed, and the scanner sends the ids of the queued
-- builds in the order in which `list_builds` gives them.
unfoldable pub start_up : ℕ → ℕ → App → Result App
unfolding reap_stale_running list_builds
start_up max_workers now a =
    if max_workers == 1
    then (let d = (reap_stale_running now a.db).0 in
        let ids = map (λ (b : Build). b.id) (list_builds none (some queued) none 10000 d) in
        ok (record a { db = d; wakes = a.wakes ++ ids }))
    else err invalid
