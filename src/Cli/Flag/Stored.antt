-- ===== src/Cli/Flag/Stored.antt =====
-- What the handler of crates/paur-daemon/src/api.rs that sets the flags of a package, as `flag` of
-- crates/paur-cli/src/cmd.rs calls it, leaves in the database.
use paur.Prelude.{
  ℕ, ◌≡◌, refl, sym, ap, ◌∙◌, subst, true, false, some, List, [], ◌∷◌, arith, inl, inr, Bool-cases,
  ◌==◌,
}
use paur.Prelude.Text.{Text, text_eq}
use paur.Prelude.Tables.{find, update, affected}
use paur.Core.Flags as Flags
use paur.Core.Flags.{PackageBuildFlags}
use paur.Db.Models.{Package}
use paur.Db.Packages.{named, get_package_by_name, set_build_flags}
use paur.Daemon.State.{App}
use paur.Daemon.Api.{PackageDto, from_pkg}
use paur.Daemon.Api.Packages.{get_package, answer_row, set_package_flags}
use paur.Cli.{CmdResult, done, response, sent}

-- The row of a name after an update of the rows of that name.
find-update :
    (name : Text) (f : Package → Package) (p : Package) (ps : List Package)
    → ((q : Package) → (f q).name ≡ q.name)
    → find (named name) ps ≡ some p
    → find (named name) (update (named name) f ps) ≡ some (f p)
unfolding find update
find-update name f p [] key h = absurd (ground arith)
find-update name f p (q ∷ ps) key h = elim (Bool-cases (named name q)) [
  | inl e ↦
      let same : q ≡ p = ground (arith, e) in
      let there : named name (f q) ≡ true = ap (λ n. text_eq n name) (key q) ∙ e in
      rw (e, there) (ap (λ x. some (f x)) same)
  | inr e ↦ rw e (rw e (find-update name f p ps key (ground (arith, e))))
]

affected_one :
    (name : Text) (p : Package) (ps : List Package)
    → find (named name) ps ≡ some p
    → (affected (named name) ps == 0) ≡ false
unfolding find affected
affected_one name p [] h = absurd (ground arith)
affected_one name p (q ∷ ps) h = elim (Bool-cases (named name q)) [
  | inl e ↦ ground (arith, e)
  | inr e ↦ rw e (affected_one name p ps (ground (arith, e)))
]

-- The command ends well, shows the row and has stored it.
pub record Stored (name : Text) (want : Package) (r : App × CmdResult PackageDto) : Type 0 where
  pub dto : PackageDto
  pub answered : r.1 ≡ done dto
  pub shown : dto.pkg ≡ want
  pub stored : get_package_by_name name r.0.db ≡ some want

-- `answer_row` after an update of a row that is there.
answer_row-Stored :
    (name : Text) (want : Package) (n : ℕ) (a : App)
    → (n == 0) ≡ false
    → get_package_by_name name a.db ≡ some want
    → Stored name want (sent (answer_row name n a))
unfolding answer_row get_package from_pkg response
answer_row-Stored name want n a changed there = record {
  dto = from_pkg a.db want;
  answered = rw (changed, there, answer_row) refl;
  shown = refl;
  stored = rw (changed, answer_row) there;
}

pub set_package_flags-Stored :
    (name : Text) (flags : PackageBuildFlags) (p : Package) (a : App)
    → get_package_by_name name a.db ≡ some p
    → Stored name (record p { build_flags = flags }) (sent (set_package_flags name flags a))
unfolding set_package_flags set_build_flags get_package_by_name Flags.replace_from
set_package_flags-Stored name flags p a here =
    let (d, n) = set_build_flags name flags a.db in
    let run : set_package_flags name flags a ≡ answer_row name n (record a { db = d }) =
      rw (here, set_package_flags) refl in
    subst (λ r. Stored name (record p { build_flags = flags }) (sent r)) (sym run)
      (answer_row-Stored name (record p { build_flags = flags }) n (record a { db = d })
        (affected_one name p a.db.packages here)
        (find-update name (λ q. record q { build_flags = flags }) p a.db.packages (λ q. refl) here))
