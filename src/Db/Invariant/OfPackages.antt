-- ===== src/Db/Invariant/OfPackages.antt =====
-- The statements on `packages` of crates/paur-db/src/queries.rs, but for the deletion, and the
-- invariant.
use paur.Prelude.{
  ℕ, suc, ◌+◌, ◌≤◌, ◌<◌, ◌≡◌, refl, Bool, true, false, not, ◌&&◌, ◌||◌, Option, none, some, List,
  [], ◌∷◌, ◌++◌, ◌==◌, arith, any, All, Pairwise, All-map_pred, All-append_one, Pairwise-append_one,
  ap, ◌∙◌, inl, inr, Bool-cases, max_of, max_of-bound, if◌then◌else◌, ==_iff,
}
use paur.Prelude.Text.{Text}
use paur.Prelude.Tables.{update, select, delete}
use paur.Prelude.Tables.Laws.{
  All-select, All-select_with, All-update_key, Pairwise-update_key, Pairwise-select, any-update,
  any-select, any-append,
}
use paur.Core.Flags.{PackageBuildFlags}
use paur.Core.Variants.{PackageVariants}
use paur.Db.Models.{Db, Package}
use paur.Db.Packages.{
  named, new_package, insert_package, set_last_ref, set_package_enabled, set_auto_rebuild,
  set_build_flags, set_variants,
}
use paur.Db.Invariant.{PackagesValid, IsValid, Below, Differ, has_package}

-- A new list of packages in which every package of the old one is still there.
replace_packages :
    (d : Db) (ps : List Package)
    → ((i : ℕ) → has_package d.packages i ≡ true → has_package ps i ≡ true)
    → PackagesValid ps
    → IsValid d
    → IsValid (record d { packages = ps })
replace_packages d ps still w v = record {
  builds_valid = record {
    ids = v.builds_valid.ids;
    given_out = v.builds_valid.given_out;
    seqs = v.builds_valid.seqs;
    coherent = v.builds_valid.coherent;
    references = All-map_pred (λ b h. still b.package_id h) d.builds v.builds_valid.references;
  };
  packages_valid = w;
  logs_valid = v.logs_valid;
}

-- An update that leaves the id and the name of a package alone, and `default` on.
module _ (p : Package → Bool) (f : Package → Package) (key : (x : Package) → (f x).id ≡ x.id)
    (name : (x : Package) → (f x).name ≡ x.name)
    (default : (x : Package) → x.variants.default ≡ true → (f x).variants.default ≡ true) where
  update-PackagesValid : (ps : List Package) → PackagesValid ps → PackagesValid (update p f ps)
  update-PackagesValid ps v = record {
    ids = Pairwise-update_key (λ x. x.id) p f key Below ps v.ids;
    names = Pairwise-update_key (λ x. x.name) p f name Differ ps v.names;
    default_on =
        paur.Prelude.Tables.Laws.All-update (λ x. x.variants.default ≡ true) p f
          (λ x _ h. default x h) ps v.default_on;
  }

  pub update_packages-IsValid :
      (d : Db) → IsValid d → IsValid (record d { packages = update p f d.packages })
  update_packages-IsValid d v =
      replace_packages d (update p f d.packages)
        (λ i h. any-update (λ x. x.id == i) p f (λ x. ap (λ j. j == i) (key x)) d.packages ∙ h)
        (update-PackagesValid d.packages v.packages_valid) v

-- Toggling, flags and the last ref keep the invariant.
pub set_fields-IsValid :
    (name ref : Text) (id : ℕ) (on : Bool) (flags : PackageBuildFlags) (d : Db)
    → IsValid d
    → IsValid (set_package_enabled name on d)
      × IsValid (set_auto_rebuild name on d).0
      × IsValid (set_build_flags name flags d).0
      × IsValid (set_last_ref id ref d)
unfolding set_package_enabled set_auto_rebuild set_build_flags set_last_ref
set_fields-IsValid name ref id on flags d v = (
  update_packages-IsValid (named name) (λ p. record p { enabled = on }) (λ x. refl) (λ x. refl)
      (λ x h. h) d v,
  update_packages-IsValid (named name) (λ p. record p { auto_rebuild = on }) (λ x. refl) (λ x. refl)
      (λ x h. h) d v,
  update_packages-IsValid (named name) (λ p. record p { build_flags = flags }) (λ x. refl)
      (λ x. refl) (λ x h. h) d v,
  update_packages-IsValid (λ p. p.id == id) (λ p. record p { last_known_ref = some ref })
      (λ x. refl) (λ x. refl) (λ x h. h) d v,
)

-- `set_variants` keeps `default` on, whatever it is told.
pub set_variants-IsValid :
    (name : Text) (vs : PackageVariants) (d : Db) → IsValid d → IsValid (set_variants name vs d).0
unfolding set_variants
set_variants-IsValid name vs d v =
    update_packages-IsValid (named name) (λ p. record p { variants = record vs { default = true } })
      (λ x. refl) (λ x. refl) (λ x h. refl) d v

names-Differ :
    (name : Text) (ps : List Package)
    → any (named name) ps ≡ false
    → All (λ p. Differ p.name name) ps
names-Differ name [] h = tt
names-Differ name (p ∷ ps) h = (ground arith, names-Differ name ps (ground arith))

append_package-PackagesValid :
    (now : ℕ) (name url : Text) (auto : Bool) (ps : List Package)
    → any (named name) ps ≡ false
    → PackagesValid ps
    → PackagesValid (ps ++ new_package (suc (max_of (λ p. p.id) ps)) now name url auto ∷ [])
unfolding new_package
append_package-PackagesValid now name url auto ps absent v =
    let row = new_package (suc (max_of (λ p. p.id) ps)) now name url auto in
    record {
      ids =
          Pairwise-append_one (λ p q. Below p.id q.id) ps row v.ids
            (All-map_pred (λ p h. omega arith) ps (max_of-bound (λ p. p.id) ps));
      names =
          Pairwise-append_one (λ p q. Differ p.name q.name) ps row v.names
            (names-Differ name ps absent);
      default_on = All-append_one (λ p. p.variants.default ≡ true) ps row v.default_on refl;
    }

-- Adding a package, or updating the one of that name, keeps the invariant.
pub insert_package-IsValid :
    (now : ℕ) (name url : Text) (auto : Bool) (d : Db)
    → IsValid d
    → IsValid (insert_package now name url auto d)
unfolding insert_package
insert_package-IsValid now name url auto d v = elim (Bool-cases (any (named name) d.packages)) [
  | inl there ↦ rw there (
      update_packages-IsValid (named name)
        (λ p. record p { aur_url = url; auto_rebuild = p.auto_rebuild || auto }) (λ x. refl)
        (λ x. refl) (λ x h. h) d v)
  | inr absent ↦ rw absent (
      replace_packages d
        (d.packages ++ new_package (suc (max_of (λ p. p.id) d.packages)) now name url auto ∷ [])
        (λ i h.
          any-append (λ x. x.id == i) d.packages
            (new_package (suc (max_of (λ p. p.id) d.packages)) now name url auto ∷ []) h)
        (append_package-PackagesValid now name url auto d.packages absent v.packages_valid) v)
]
