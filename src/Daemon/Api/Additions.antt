-- ===== src/Daemon/Api/Additions.antt =====
-- What adding a package leaves behind, also when the request is refused: crates/paur-daemon/src/api.rs.
use paur.Prelude.{
  ℕ, suc, ◌≡◌, refl, ◌∙◌, Bool, true, ◌||◌, List, [], ◌∷◌, ◌++◌, arith, inl, inr, Bool-cases,
  Option-cases, any, is_some, max_of,
}
use paur.Prelude.Text.{Text, text_eq_refl}
use paur.Prelude.Tables.{find}
use paur.Prelude.Tables.Laws.{find-any, any-update}
use paur.Prelude.Results.{Error, ok, err, invalid}
use paur.Core.Name as Name
use paur.Core.Name.{PkgName}
use paur.Aur.Refs.{aur_url}
use paur.Db.Models.{Db, Package}
use paur.Db.Packages.{named, new_package, insert_package, upsert_package, get_package_by_name}
use paur.Daemon.State.{App}
use paur.Daemon.Api.{parse_variants_field}
use paur.Daemon.Api.Packages.{AddPackageBody, add_package, add_named, after_upsert, choose_variants}

any-last :
    (name : Text) (ps : List Package) (p : Package)
    → named name p ≡ true
    → any (named name) (ps ++ p ∷ []) ≡ true
any-last name [] p h = ground (arith, h)
any-last name (q ∷ ps) p h = ground (arith, any-last name ps p h)

-- After the statement the table has a package of the name.
inserted :
    (now : ℕ) (name url : Text) (auto : Bool) (d : Db)
    → any (named name) (insert_package now name url auto d).packages ≡ true
unfolding insert_package new_package
inserted now name url auto d = elim (Bool-cases (any (named name) d.packages)) [
  | inl there ↦ rw there (
      any-update (named name) (named name)
        (λ p. record p { aur_url = url; auto_rebuild = p.auto_rebuild || auto }) (λ p. refl)
        d.packages
      ∙ there)
  | inr absent ↦ rw absent (
      any-last name d.packages (new_package (suc (max_of (λ p. p.id) d.packages)) now name url auto)
        (text_eq_refl name))
]

upsert-ok :
    (now : ℕ) (name url : Text) (auto : Bool) (d : Db)
    → (id : ℕ) × (upsert_package now name url auto d ≡ ok (insert_package now name url auto d, id))
unfolding upsert_package
upsert-ok now name url auto d =
    let e = insert_package now name url auto d in
    let found = find-any (named name) e.packages ∙ inserted now name url auto d in
    elim (Option-cases (find (named name) e.packages)) [
      | inl gone ↦ absurd (ground (arith, found, gone))
      | inr (row, there) ↦ (row.id, rw there refl)
    ]

-- A request to add a package under a valid name but with an unknown variant is refused as invalid,
-- and the package is in the database all the same.
pub add_package-refused :
    (now : ℕ) (body : AddPackageBody) (name : PkgName) (e : Error) (a : App)
    → Name.new body.name ≡ ok name
    → parse_variants_field body.variants ≡ err e
    → ((add_package now body a).1 ≡ err invalid)
      × (is_some (get_package_by_name name.as_str (add_package now body a).0.db) ≡ true)
unfolding add_package add_named after_upsert choose_variants get_package_by_name
add_package-refused now body name e a named_ok unknown =
    let url = aur_url name in
    let (id, stored) = upsert-ok now name.as_str url body.auto_rebuild a.db in
    rw (named_ok, stored, unknown)
      (
        refl,
        find-any (named name.as_str)
              (insert_package now name.as_str url body.auto_rebuild a.db).packages
            ∙ inserted now name.as_str url body.auto_rebuild a.db,
      )
