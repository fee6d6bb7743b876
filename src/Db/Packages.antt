-- ===== src/Db/Packages.antt =====
-- The statements on `packages` of crates/paur-db/src/queries.rs.
use paur.Prelude.{
  ℕ, suc, Bool, true, ◌&&◌, ◌||◌, Option, none, some, List, [], ◌∷◌, ◌++◌, ◌==◌, if◌then◌else◌,
  max_of, any,
}
use paur.Prelude.Tables.{find, update, delete, affected, sort_desc}
use paur.Prelude.Text.{Text, text_eq}
use paur.Prelude.Results.{Result, ok, db, ◌>>=◌, ok_or}
use paur.Core.Flags.{PackageBuildFlags, no_flags}
use paur.Core.Variants.{PackageVariants, default_variants}
use paur.Db.Models.{Db, Package, Build}

-- `WHERE name = ?`
abbrev pub named : Text → Package → Bool
named name p = text_eq p.name name

-- The row of a first `INSERT`: the columns that the statement leaves out have their defaults.
unfoldable pub new_package : ℕ → ℕ → Text → Text → Bool → Package
new_package id now name aur_url auto_rebuild = record {
  id = id;
  name = name;
  aur_url = aur_url;
  last_known_ref = none;
  added_at = now;
  enabled = true;
  auto_rebuild = auto_rebuild;
  build_flags = no_flags;
  variants = default_variants;
}

-- `INSERT … ON CONFLICT(name) DO UPDATE`; an INTEGER PRIMARY KEY is one more than the largest.
unfoldable pub insert_package : ℕ → Text → Text → Bool → Db → Db
unfolding find update new_package
insert_package now name aur_url auto_rebuild d =
    if any (named name) d.packages
    then record d {
      packages =
          update (named name)
            (λ p. record p { aur_url = aur_url; auto_rebuild = p.auto_rebuild || auto_rebuild })
            d.packages;
    }
    else record d {
      packages =
          d.packages
          ++ new_package (suc (max_of (λ p. p.id) d.packages)) now name aur_url auto_rebuild ∷ [];
    }

-- `fetch_one` fails if there is no row.
unfoldable pub upsert_package : ℕ → Text → Text → Bool → Db → Result (Db × ℕ)
unfolding insert_package
upsert_package now name aur_url auto_rebuild d =
    let e = insert_package now name aur_url auto_rebuild d in
    do row ← ok_or (find (named name) e.packages) db; ok (e, row.id)

unfoldable pub get_package_by_name : Text → Db → Option Package
unfolding find
get_package_by_name name d = find (named name) d.packages

-- `ORDER BY added_at DESC`; SQLite leaves the order of packages of one time open, and here the latest
-- row comes first.
unfoldable pub list_packages : Db → List Package
unfolding sort_desc
list_packages d = sort_desc (λ p. p.added_at) d.packages

-- `ON DELETE CASCADE`: the builds of the deleted packages, and the logs of those builds.
unfoldable pub delete_package : Text → Db → Db × ℕ
unfolding delete affected
delete_package name d =
    let doomed = λ (b : Build). any (λ p. named name p && p.id == b.package_id) d.packages in
    (
      record d {
        packages = delete (named name) d.packages;
        builds = delete doomed d.builds;
        build_logs = delete (λ l. any (λ b. doomed b && b.id == l.build_id) d.builds) d.build_logs;
      },
      affected (named name) d.packages,
    )

unfoldable pub set_last_ref : ℕ → Text → Db → Db
unfolding update
set_last_ref id git_ref d = record d {
  packages = update (λ p. p.id == id) (λ p. record p { last_known_ref = some git_ref }) d.packages;
}

unfoldable pub set_package_enabled : Text → Bool → Db → Db
unfolding update
set_package_enabled name enabled d = record d {
  packages = update (named name) (λ p. record p { enabled = enabled }) d.packages;
}

unfoldable pub set_auto_rebuild : Text → Bool → Db → Db × ℕ
unfolding update affected
set_auto_rebuild name auto d = (
  record d { packages = update (named name) (λ p. record p { auto_rebuild = auto }) d.packages },
  affected (named name) d.packages,
)

unfoldable pub set_build_flags : Text → PackageBuildFlags → Db → Db × ℕ
unfolding update affected
set_build_flags name flags d = (
  record d { packages = update (named name) (λ p. record p { build_flags = flags }) d.packages },
  affected (named name) d.packages,
)

-- `sanitized.default = true`
unfoldable pub set_variants : Text → PackageVariants → Db → Db × ℕ
unfolding update affected
set_variants name variants d =
    let sanitized : PackageVariants = record variants { default = true } in
    (
      record d {
        packages = update (named name) (λ p. record p { variants = sanitized }) d.packages;
      },
      affected (named name) d.packages,
    )
