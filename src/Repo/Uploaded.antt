-- ===== src/Repo/Uploaded.antt =====
-- What a publishing of crates/paur-repo/src/lib.rs sends to the object store.
use paur.Prelude.{◌≡◌, refl, Bool, Option, none, some, List, [], ◌∷◌, ◌++◌, All, if◌then◌else◌}
use paur.Prelude.Text.{Text, codes}
use paur.Prelude.Disk.{Files, file_name, exists}
use paur.Core.Variants.{Variant}
use paur.Builder.{join}
use paur.S3.{S3Config}
use paur.Repo.{
  RepoCtx, Host, Upload, arch_subdir, db_basename_for, sig_of, key_dir, files_basename, slash,
}
use paur.Repo.Paths.{file_name-join}
use paur.Repo.Signed.{names_of, with_name}

-- The keys of the packages, each with its signature.
unfoldable pub pkg_keys : Text → List Text → List Text
pkg_keys dir [] = []
pkg_keys dir (name ∷ names) = slash dir name ∷ slash dir (sig_of name) ∷ pkg_keys dir names

-- The keys that a publishing sends, in their order.
unfoldable pub sent_keys : RepoCtx → Variant → List Text → Bool → List Text
unfolding key_dir db_basename_for pkg_keys
sent_keys ctx v names with_files =
    slash (key_dir ctx v) (db_basename_for ctx v) ∷ pkg_keys (key_dir ctx v) names
    ++ (if with_files then slash (key_dir ctx v) (files_basename ctx v) ∷ [] else [])

-- An object: its key, its content type and its body.
abbrev pub Object : Type 0
Object = Text × (Text × Option Text)

-- The objects of the packages, each with its signature, from the files in the directory `at`.
unfoldable pub pkg_objects : Text → Text → Files → List Text → List Object
unfolding join
pkg_objects dir at files [] = []
pkg_objects dir at files (name ∷ names) =
    (slash dir name, (codes "application/zstd", files (join at name)))
    ∷ (slash dir (sig_of name), (codes "application/pgp-signature", files (join at (sig_of name))))
    ∷ pkg_objects dir at files names

-- The objects that a publishing sends, in their order, with what the files of the variant's directory hold.
unfoldable pub sent_objects : RepoCtx → Variant → List Text → Files → List Object
unfolding key_dir db_basename_for pkg_objects arch_subdir join
sent_objects ctx v names files =
    let at = arch_subdir ctx v in
    (
      slash (key_dir ctx v) (db_basename_for ctx v),
      (codes "application/x-gzip", files (join at (db_basename_for ctx v))),
    )
      ∷ pkg_objects (key_dir ctx v) at files names
    ++ (if exists (join at (files_basename ctx v)) files
        then (
          slash (key_dir ctx v) (files_basename ctx v),
          (codes "application/x-gzip", files (join at (files_basename ctx v))),
        )
          ∷ []
        else [])

pub named_copies :
    (dir : Text) (srcs : List Text)
    → All (λ name. file_name (join dir name) ≡ some name) (names_of srcs)
unfolding names_of join
named_copies dir [] = tt
named_copies dir (src ∷ rest) = helper (file_name src) refl (named_copies dir rest)
  where
    helper :
        (o : Option Text)
        → file_name src ≡ o
        → All (λ name. file_name (join dir name) ≡ some name) (names_of rest)
        → All (λ name. file_name (join dir name) ≡ some name) (with_name o (names_of rest))
    helper none e named = named
    helper (some name) e named = (file_name-join src dir name e, named)

module _ (signature : Text → Text → Text → Text) (host : Host) (ctx : RepoCtx) (cfg : S3Config)
    (v : Variant) (files : Files) where
  abbrev object_of : Upload → Object
  object_of u = (u.key, (u.content_type, u.body))
