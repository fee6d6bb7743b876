-- ===== src/Db/Invariant/OfBuilds.antt =====
-- The statements on `builds` of crates/paur-db/src/queries.rs and the invariant.
use paur.Prelude.{
  ℕ, ℤ, suc, ◌≤◌, ◌≡◌, refl, Bool, true, Option, some, [], ◌∷◌, ◌++◌, ◌==◌, arith, All-map_pred,
  All-append_one, Pairwise-append_one, ◌∙◌, ap, ==_iff, max_of,
}
use paur.Prelude.Text.{Text}
use paur.Prelude.Tables.{update, select}
use paur.Prelude.Tables.Laws.{
  All-update, All-update_key, Pairwise-update_key, any-update, max_of-select,
}
use paur.Core.Variants as Variants
use paur.Core.Variants.{Variant}
use paur.Core.Variants.Laws.{parse-as_str}
use paur.Db.Models.{
  Db, Build, BuildStatus, queued, running, failed, cancelled, BuildTrigger, status_eq,
}
use paur.Db.Models.Codec.{eq_of_status_eq}
use paur.Db.Builds.{
  of_package, next_seq, new_build, with_id, with_status, start, set_running, finish_build,
  set_cancelled, record_pkg, reap_stale_running,
}
use paur.Db.Invariant.{
  is_terminal, IsCoherent, BuildsValid, LogsValid, IsValid, Below, ByPackage, build_key,
  has_package,
}

-- An update of builds that leaves their keys alone keeps all but the coherence for nothing.
module _ (p : Build → Bool) (f : Build → Build) (key : (b : Build) → (f b).id ≡ b.id)
    (pkg : (b : Build) → (f b).package_id ≡ b.package_id) (num : (b : Build) → (f b).seq ≡ b.seq)
    (keep : (b : Build) → p b ≡ true → IsCoherent b → IsCoherent (f b)) where
  update-BuildsValid :
      (d : Db) → IsValid d → BuildsValid d.packages (update p f d.builds) d.last_build_id
  update-BuildsValid d v = record {
    ids = Pairwise-update_key (λ b. b.id) p f key Below d.builds v.builds_valid.ids;
    given_out =
        All-update_key (λ b. b.id) p f key (λ i. i ≤ d.last_build_id) d.builds
          v.builds_valid.given_out;
    seqs =
        Pairwise-update_key build_key p f (λ b i. (pkg b i, num b i)) ByPackage d.builds
          v.builds_valid.seqs;
    coherent = All-update IsCoherent p f keep d.builds v.builds_valid.coherent;
    references =
        All-update_key (λ b. b.package_id) p f pkg (λ i. has_package d.packages i ≡ true) d.builds
          v.builds_valid.references;
  }

  update-LogsValid : (d : Db) → IsValid d → LogsValid (update p f d.builds) d.build_logs
  update-LogsValid d v = record {
    seqs = v.logs_valid.seqs;
    references =
        All-map_pred
          (λ l h.
            any-update (λ b. b.id == l.build_id) p f (λ b. ap (λ i. i == l.build_id) (key b))
              d.builds
            ∙ h)
          d.build_logs v.logs_valid.references;
  }

  pub update-IsValid : (d : Db) → IsValid d → IsValid (record d { builds = update p f d.builds })
  update-IsValid d v = record {
    builds_valid = update-BuildsValid d v;
    packages_valid = v.packages_valid;
    logs_valid = update-LogsValid d v;
  }

-- The statements that update `builds` keep the invariant.
pub set_running-IsValid :
    (now id : ℕ) (w : Text) (d : Db) → IsValid d → IsValid (set_running now id w d)
unfolding set_running is_terminal
set_running-IsValid now id w d v =
    update-IsValid (with_status id queued) (start now w) (λ b. refl) (λ b. refl) (λ b. refl)
      (λ b h c. ground (arith, eq_of_status_eq b.status queued)) d v

-- `finish_build` keeps the invariant for a terminal status.
pub finish_build-IsValid :
    (now id : ℕ) (status : BuildStatus) (code : Option ℤ) (d : Db)
    → is_terminal status ≡ true
    → IsValid d
    → IsValid (finish_build now id status code d)
unfolding finish_build is_terminal
finish_build-IsValid now id status code d t v =
    update-IsValid (with_id id)
      (λ b. record b { status = status; finished_at = some now; exit_code = code }) (λ b. refl)
      (λ b. refl) (λ b. refl) (λ b h c. ground arith) d v

pub set_cancelled-IsValid :
    (now id : ℕ) (cur : BuildStatus) (d : Db) → IsValid d → IsValid (set_cancelled now id cur d)
unfolding set_cancelled is_terminal
set_cancelled-IsValid now id cur d v =
    update-IsValid (with_status id cur)
      (λ b. record b { status = cancelled; finished_at = some now }) (λ b. refl) (λ b. refl)
      (λ b. refl) (λ b h c. ground arith) d v

pub record_pkg-IsValid :
    (id : ℕ) (file version : Text) (d : Db) → IsValid d → IsValid (record_pkg id file version d)
unfolding record_pkg
record_pkg-IsValid id file version d v =
    update-IsValid (with_id id) (λ b. record b { pkg_file = some file; pkg_version = some version })
      (λ b. refl) (λ b. refl) (λ b. refl)
      (λ b h c. record {
        numbered = c.numbered;
        known_variant = c.known_variant;
        fresh = c.fresh;
        open_end = c.open_end;
        owned_run = c.owned_run;
        stamped = c.stamped;
      })
      d v

pub reap-IsValid : (now : ℕ) (d : Db) → IsValid d → IsValid (reap_stale_running now d).0
unfolding reap_stale_running is_terminal
reap-IsValid now d v =
    update-IsValid (λ b. status_eq b.status running)
      (λ b. record b { status = failed; finished_at = some now; exit_code = some (ℤ.negsuc 0) })
      (λ b. refl) (λ b. refl) (λ b. refl) (λ b h c. ground arith) d v

-- A new row at the end of `builds`.
new_build-IsCoherent :
    (id now pkg seq : ℕ) (t : BuildTrigger) (v : Variant)
    → 1 ≤ seq
    → IsCoherent (new_build id now pkg seq t v)
unfolding new_build is_terminal
new_build-IsCoherent id now pkg seq t v h = record {
  numbered = h;
  known_variant = rw ((parse-as_str (Variants.as_str v) v).1 refl) refl;
  fresh = λ _. (refl, refl);
  open_end = λ _. refl;
  owned_run = λ e. absurd (ground arith);
  stamped = λ e. absurd (ground arith);
}

pub enqueue-BuildsValid :
    (now pkg : ℕ) (t : BuildTrigger) (w : Variant) (d : Db)
    → has_package d.packages pkg ≡ true
    → IsValid d
    → BuildsValid d.packages
        (d.builds ++ new_build (suc d.last_build_id) now pkg (next_seq pkg d) t w ∷ [])
        (suc d.last_build_id)
unfolding new_build next_seq
enqueue-BuildsValid now pkg t w d owner v =
    let row = new_build (suc d.last_build_id) now pkg (next_seq pkg d) t w in
    record {
      ids =
          Pairwise-append_one (λ b c. Below b.id c.id) d.builds row v.builds_valid.ids
            (All-map_pred (λ b h. omega arith) d.builds v.builds_valid.given_out);
      given_out =
          All-append_one (λ b. b.id ≤ suc d.last_build_id) d.builds row
            (All-map_pred (λ b h. omega arith) d.builds v.builds_valid.given_out) (omega arith);
      seqs =
          Pairwise-append_one (λ b c. ByPackage (build_key b) (build_key c)) d.builds row
            v.builds_valid.seqs
            (All-map_pred (λ b h e. omega (arith, h ((==_iff b.package_id pkg).1 e))) d.builds
              (max_of-select (of_package pkg) (λ b. b.seq)
                (max_of (λ b. b.seq) (select (of_package pkg) d.builds)) d.builds (omega arith)));
      coherent =
          All-append_one IsCoherent d.builds row v.builds_valid.coherent
            (new_build-IsCoherent (suc d.last_build_id) now pkg (next_seq pkg d) t w (omega arith));
      references =
          All-append_one (λ b. has_package d.packages b.package_id ≡ true) d.builds row
            v.builds_valid.references owner;
    }
