-- ===== src/Daemon/Worker/Frame.antt =====
-- The parts of a round of the worker of crates/paur-daemon/src/worker.rs, and the builds that it was
-- not woken for.
use paur.Prelude.{
  ℕ, ℤ, ◌≡◌, refl, ◌∙◌, ap, ◌≢◌, Bool, true, ◌&&◌, Option, none, some, List, [], ◌∷◌, ◌==◌, arith,
  Bool-cases, inl, inr,
}
use paur.Prelude.Text.{Text}
use paur.Prelude.Tables.{find, update}
use paur.Prelude.Results.{Result, ok, err}
use paur.Core.Name as Name
use paur.Core.Name.{PkgName}
use paur.Core.Variants as Variants
use paur.Core.Variants.{Variant}
use paur.Aur.Refs.{latest_ref}
use paur.Builder.{BuildOutcome, Container, run_in_container}
use paur.Db.Models.{Db, Package, Build, BuildStatus, stdout}
use paur.Db.Packages.{set_last_ref, list_packages}
use paur.Db.Builds.{get_build, with_id, finish_build, record_pkg}
use paur.Db.Invariant.OfLogs.{append_log-eq}
use paur.Daemon.State.{App, or_same, one_line, write_line, write_lines, channel_for}
use paur.Daemon.Worker.{
  Outside, after_success, artifact_files, finish, request, process_claimed, with_name, with_package,
  after_publish, after_container, after_lines, with_variant, register, record_if, track_head,
  first_file, version_of, final_status, final_status_exit_code,
}

find-update_other :
    (p : Build → Bool) (f : Build → Build) (j : ℕ)
    → ((b : Build) → (f b).id ≡ b.id)
    → ((b : Build) → p b ≡ true → b.id ≢ j)
    → (bs : List Build) → find (with_id j) (update p f bs) ≡ find (with_id j) bs
unfolding find update
find-update_other p f j key other [] = refl
find-update_other p f j key other (b ∷ bs) = elim (Bool-cases (p b)) [
  | inl e ↦ ground (arith, find-update_other p f j key other bs, key b, other b e)
  | inr e ↦ ground (arith, find-update_other p f j key other bs)
]

other_id : (id j : ℕ) → j ≢ id → (b : Build) → with_id id b ≡ true → b.id ≢ j
other_id id j h b e k = h (ground arith)

pub get_build-finish_ne :
    (now id j : ℕ) (s : BuildStatus) (c : Option ℤ) (d : Db)
    → j ≢ id
    → get_build j (finish_build now id s c d) ≡ get_build j d
unfolding get_build finish_build
get_build-finish_ne now id j s c d h =
    find-update_other (with_id id)
      (λ b. record b { status = s; finished_at = some now; exit_code = c }) j (λ b. refl)
      (other_id id j h) d.builds

pub get_build-record_pkg_ne :
    (id j : ℕ) (f v : Text) (d : Db) → j ≢ id → get_build j (record_pkg id f v d) ≡ get_build j d
unfolding get_build record_pkg
get_build-record_pkg_ne id j f v d h =
    find-update_other (with_id id) (λ b. record b { pkg_file = some f; pkg_version = some v }) j
      (λ b. refl) (other_id id j h) d.builds

-- From `a` to `b` only the log and its channels changed.
pub record LogsOnly (a b : App) : Type 0 where
  pub same_builds : b.db.builds ≡ a.db.builds
  pub same_packages : b.db.packages ≡ a.db.packages
  pub same_wakes : b.wakes ≡ a.wakes
  pub same_tokens : b.cancel_tokens ≡ a.cancel_tokens
  pub same_fired : b.fired ≡ a.fired

LogsOnly-trans : (a b c : App) → LogsOnly a b → LogsOnly b c → LogsOnly a c
LogsOnly-trans a b c h k = ground arith

LogsOnly-refl : (a : App) → LogsOnly a a
LogsOnly-refl a = ground arith

write_line-LogsOnly :
    (now id : ℕ) (line : Text) (a : App) → LogsOnly a (or_same a (write_line now id line a))
unfolding write_line channel_for
write_line-LogsOnly now id line a = ground (arith, append_log-eq now id stdout (one_line line) a.db)

pub write_lines-LogsOnly :
    (now id : ℕ) (ls : List Text) (a : App) → LogsOnly a (write_lines now id ls a)
unfolding write_lines
write_lines-LogsOnly now id [] a = LogsOnly-refl a
write_lines-LogsOnly now id (line ∷ ls) a =
    LogsOnly-trans a (or_same a (write_line now id line a))
      (write_lines now id ls (or_same a (write_line now id line a)))
      (write_line-LogsOnly now id line a)
      (write_lines-LogsOnly now id ls (or_same a (write_line now id line a)))

pub after_lines-LogsOnly :
    (o : Outside) (b : Build) (c : Container) (a : App) → LogsOnly a (after_lines o b c a)
unfolding after_lines
after_lines-LogsOnly o b c a = elim (Bool-cases (c.layout_made && c.spawned)) [
  | inl e ↦ rw e (write_lines-LogsOnly o.log_time b.id c.lines a)
  | inr e ↦ rw e (LogsOnly-refl a)
]

get_build-set_last_ref :
    (id j : ℕ) (r : Text) (d : Db) → get_build j (set_last_ref id r d) ≡ get_build j d
unfolding get_build set_last_ref
get_build-set_last_ref id j r d = refl

record_if_ne :
    (id j : ℕ) (f v : Option Text) (d : Db)
    → j ≢ id
    → get_build j (record_if id f v d) ≡ get_build j d
unfolding record_if
record_if_ne id j (some f) (some v) d h = get_build-record_pkg_ne id j f v d h
record_if_ne id j (some f) none d h = refl
record_if_ne id j none v d h = refl

track_head_same :
    (id j : ℕ) (r : Result Text) (d : Db) → get_build j (track_head id r d) ≡ get_build j d
unfolding track_head
track_head_same id j (ok r) d = get_build-set_last_ref id j r d
track_head_same id j (err e) d = refl

after_publish_ne :
    (o : Outside) (b : Build) (pkg : Package) (name : PkgName) (r : BuildOutcome)
    (p : Result (Unit {0})) (d : Db) (j : ℕ)
    → j ≢ b.id
    → get_build j (after_publish o b pkg name r p d) ≡ get_build j d
unfolding after_publish
after_publish_ne o b pkg name r (err e) d j h = refl
after_publish_ne o b pkg name r (ok u) d j h =
    let files = first_file o r.pkg_files in
    let version = version_of pkg.name r.srcinfo in
    track_head_same pkg.id j (latest_ref (o.ls_remote name)) (record_if b.id files version d)
    ∙ record_if_ne b.id j files version d h

finish_ne :
    (o : Outside) (b : Build) (pkg : Package) (name : PkgName) (v : Variant) (r : BuildOutcome)
    (a : App) (j : ℕ)
    → j ≢ b.id
    → get_build j (finish o b pkg name v r a).db ≡ get_build j a.db
unfolding finish after_success
finish_ne o b pkg name v r a j h =
    let s = final_status r in
    let d = finish_build o.finish_time b.id s (final_status_exit_code r) a.db in
    let left = get_build-finish_ne o.finish_time b.id j s (final_status_exit_code r) a.db h in
    ground (arith, left, after_publish_ne o b pkg name r (o.publish (artifact_files o b r) v) d j h)

pub same_build : (j : ℕ) (a b : App) → LogsOnly a b → get_build j b.db ≡ get_build j a.db
unfolding get_build
same_build j a b h = ap (find (with_id j)) h.same_builds

after_container_ne :
    (o : Outside) (b : Build) (pkg : Package) (name : PkgName) (v : Variant)
    (r : Result BuildOutcome) (a : App) (j : ℕ)
    → j ≢ b.id
    → get_build j (after_container o b pkg name v r a).0.db ≡ get_build j a.db
unfolding after_container
after_container_ne o b pkg name v (err e) a j h = refl
after_container_ne o b pkg name v (ok r) a j h = finish_ne o b pkg name v r a j h

with_variant_ne :
    (o : Outside) (b : Build) (pkg : Package) (name : PkgName) (v : Option Variant) (a : App)
    (j : ℕ)
    → j ≢ b.id
    → get_build j (with_variant o b pkg name v a).0.db ≡ get_build j a.db
unfolding with_variant
with_variant_ne o b pkg name none a j h = refl
with_variant_ne o b pkg name (some v) a j h =
    let req = request o b pkg name v in
    let c = o.container req in
    after_container_ne o b pkg name v (run_in_container req c) (after_lines o b c a) j h
    ∙ same_build j a (after_lines o b c a) (after_lines-LogsOnly o b c a)

with_name_ne :
    (o : Outside) (b : Build) (pkg : Package) (n : Result PkgName) (a : App) (j : ℕ)
    → j ≢ b.id
    → get_build j (with_name o b pkg n a).0.db ≡ get_build j a.db
unfolding with_name
with_name_ne o b pkg (err e) a j h = refl
with_name_ne o b pkg (ok name) a j h =
    with_variant_ne o b pkg name (Variants.parse b.variant) (register b a) j h

with_package_ne :
    (o : Outside) (b : Build) (q : Option Package) (a : App) (j : ℕ)
    → j ≢ b.id
    → get_build j (with_package o b q a).0.db ≡ get_build j a.db
unfolding with_package
with_package_ne o b none a j h = refl
with_package_ne o b (some pkg) a j h = with_name_ne o b pkg (Name.new pkg.name) a j h

-- The work on a claimed build touches no other build.
pub process_claimed_ne :
    (o : Outside) (b : Build) (a : App) (j : ℕ)
    → j ≢ b.id
    → get_build j (process_claimed o b a).0.db ≡ get_build j a.db
unfolding process_claimed
process_claimed_ne o b a j h =
    with_package_ne o b (find (λ p. p.id == b.package_id) (list_packages a.db)) a j h
