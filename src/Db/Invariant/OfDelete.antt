-- ===== src/Db/Invariant/OfDelete.antt =====
-- `delete_package` of crates/paur-db/src/queries.rs, with the deletions that cascade.
use paur.Prelude.{
  ◌≤◌, ◌≡◌, refl, Bool, true, false, not, ◌&&◌, none, List, [], ◌∷◌, ◌==◌, arith, any,
}
use paur.Prelude.Text.{Text}
use paur.Prelude.Tables.{select, delete, find}
use paur.Prelude.Tables.Laws.{All-select, All-select_with, Pairwise-select, any-select}
use paur.Db.Models.{Db, Package, Build, LogRow}
use paur.Db.Packages.{named, delete_package, get_package_by_name}
use paur.Db.Invariant.{
  BuildsValid, PackagesValid, IsValid, IsCoherent, Below, Differ, ByPackage, build_key, log_key,
  has_package, has_build,
}

any-not-not {ℓ} :
    {A : Type ℓ} (p q : A → Bool) (xs : List A)
    → any (λ x. p x && q x) xs ≡ false
    → any (λ x. not (not (p x)) && q x) xs ≡ false
any-not-not p q [] h = refl
any-not-not p q (x ∷ xs) h = ground (arith, any-not-not p q xs)

not-true : (b : Bool) → not b ≡ true → b ≡ false
not-true b h = ground arith

-- A row that another refers to stays, if the deletion removes no row with its id.
still_there {ℓ} :
    {A : Type ℓ} (p q : A → Bool) (xs : List A)
    → not (any (λ x. p x && q x) xs) ≡ true
    → any q xs ≡ true
    → any q (delete p xs) ≡ true
unfolding delete
still_there p q xs kept h =
    any-select q (λ x. not (p x)) xs (any-not-not p q xs (not-true (any (λ x. p x && q x) xs) kept))
      h

-- The build of a deleted package.
abbrev doomed : Text → Db → Build → Bool
doomed name d b = any (λ (p : Package). named name p && p.id == b.package_id) d.packages

delete-BuildsValid :
    (name : Text) (d : Db)
    → IsValid d
    → BuildsValid (delete (named name) d.packages) (delete (doomed name d) d.builds) d.last_build_id
unfolding delete
delete-BuildsValid name d v = record {
  ids = Pairwise-select (λ b c. Below b.id c.id) kept d.builds v.builds_valid.ids;
  given_out = All-select (λ b. b.id ≤ d.last_build_id) kept d.builds v.builds_valid.given_out;
  seqs =
      Pairwise-select (λ b c. ByPackage (build_key b) (build_key c)) kept d.builds
        v.builds_valid.seqs;
  coherent = All-select IsCoherent kept d.builds v.builds_valid.coherent;
  references =
      All-select_with (λ b. has_package d.packages b.package_id ≡ true) kept
        (λ b. has_package (delete (named name) d.packages) b.package_id ≡ true)
        (λ b k h. still_there (named name) (λ p. p.id == b.package_id) d.packages k h) d.builds
        v.builds_valid.references;
}
  where
    kept : Build → Bool
    kept b = not (doomed name d b)

delete-PackagesValid :
    (name : Text) (ps : List Package) → PackagesValid ps → PackagesValid (delete (named name) ps)
unfolding delete
delete-PackagesValid name ps v = record {
  ids = Pairwise-select (λ p q. Below p.id q.id) (λ p. not (named name p)) ps v.ids;
  names = Pairwise-select (λ p q. Differ p.name q.name) (λ p. not (named name p)) ps v.names;
  default_on =
      All-select (λ p. p.variants.default ≡ true) (λ p. not (named name p)) ps v.default_on;
}

-- Deleting a package keeps the invariant: what refers to a deleted row is deleted with it.
pub delete_package-IsValid : (name : Text) (d : Db) → IsValid d → IsValid (delete_package name d).0
unfolding delete_package delete
delete_package-IsValid name d v = record {
  builds_valid = delete-BuildsValid name d v;
  packages_valid = delete-PackagesValid name d.packages v.packages_valid;
  logs_valid = record {
    seqs =
        Pairwise-select (λ k l. ByPackage (log_key k) (log_key l)) kept d.build_logs
          v.logs_valid.seqs;
    references =
        All-select_with (λ l. has_build d.builds l.build_id ≡ true) kept
          (λ l. has_build (delete (doomed name d) d.builds) l.build_id ≡ true)
          (λ l k h. still_there (doomed name d) (λ b. b.id == l.build_id) d.builds k h) d.build_logs
          v.logs_valid.references;
  };
}
  where
    kept : LogRow → Bool
    kept l = not (any (λ b. doomed name d b && b.id == l.build_id) d.builds)

select_none {ℓ} : {A : Type ℓ} (p : A → Bool) (xs : List A) → any p (delete p xs) ≡ false
unfolding delete select
select_none p [] = refl
select_none p (x ∷ xs) = ground (arith, select_none p xs)

none_found {ℓ} : {A : Type ℓ} (p : A → Bool) (xs : List A) → any p xs ≡ false → find p xs ≡ none
unfolding find
none_found p [] h = refl
none_found p (x ∷ xs) h = ground (arith, none_found p xs)

-- A deleted package is not found again.
pub get_package-delete :
    (name : Text) (d : Db) → get_package_by_name name (delete_package name d).0 ≡ none
unfolding get_package_by_name delete_package
get_package-delete name d =
    none_found (named name) (delete (named name) d.packages) (select_none (named name) d.packages)
