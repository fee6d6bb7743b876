-- ===== src/Repo/Fresh.antt =====
-- The database's signature in crates/paur-repo/src/lib.rs at every end of an operation, errors
-- included but those of gpg.
use paur.Prelude.{
  ◌≡◌, refl, sym, ◌∙◌, subst, ◌≢◌, ◌⊎◌, inl, inr, Bool, true, false, Option, none, some, List, [],
  ◌∷◌, arith, All,
}
use paur.Prelude.Text.{Text}
use paur.Prelude.Results.{err, gpg}
use paur.Prelude.Effects.{KeepsUnless, ◌>>=◌, ◌>>◌, Keeps, Keeps-bind, proceed-keeps, pure}
use paur.Prelude.Disk.{Files, unlink}
use paur.Core.Variants.{Variant}
use paur.Builder.{join}
use paur.Repo.{
  RepoCtx, Host, RepoOps, db_path_for, db_sig_for, sig_of, made, name_of, copy_file, copy_into,
  sign_args, sign, resign, gpg_end,
}
use paur.Repo.Paths.{sig_of-inj}
use paur.Repo.Signing.{HostLaws, SignedAt, SignedAt-same, resign-signs, resign-frame}
use paur.Repo.Signed.{names_of, with_name, name_of-names}

-- A client that downloads the database never gets a signature of another content.
abbrev pub Fresh : (Text → Text → Text → Text) → RepoCtx → Variant → Files → Type 0
Fresh signature ctx v files =
    (files (db_sig_for ctx v) ≡ none) ⊎ SignedAt signature ctx files (db_path_for ctx v)

-- What the updates of the database have to keep to.
pub record OpsLaws (signature : Text → Text → Text → Text) (ctx : RepoCtx) (v : Variant)
    (ops : RepoOps) : Type 0 where
  pub add-Fresh : (staged : List Text) → Keeps (Fresh signature ctx v) (ops.add ctx v staged)
  pub remove-Fresh : (pkgname : Text) → Keeps (Fresh signature ctx v) (ops.remove ctx v pkgname)

module _ (signature : Text → Text → Text → Text) (host : Host) (laws : HostLaws signature host)
    (ctx : RepoCtx) (v : Variant) where
  pub Fresh-same :
      (files after : Files)
      → after (db_path_for ctx v) ≡ files (db_path_for ctx v)
      → after (db_sig_for ctx v) ≡ files (db_sig_for ctx v)
      → Fresh signature ctx v files
      → Fresh signature ctx v after
  unfolding db_sig_for
  Fresh-same files after a b (inl gone) = inl (b ∙ gone)
  Fresh-same files after a b (inr signed) =
      inr (SignedAt-same signature host laws ctx (db_path_for ctx v) files after a b signed)

  -- Neither the database nor its signature.
  abbrev pub Elsewhere : Text → Type 0
  Elsewhere path = (path ≢ db_path_for ctx v) × (path ≢ db_sig_for ctx v)

  copy_file-Fresh :
      (src dst : Text) → Elsewhere dst → Keeps (Fresh signature ctx v) (copy_file host src dst)
  unfolding copy_file made
  copy_file-Fresh src dst apart files fresh =
      Fresh-same files ((copy_file host src dst files).0)
        (laws.copy-frame src dst files (db_path_for ctx v) apart.0)
        (laws.copy-frame src dst files (db_sig_for ctx v) apart.1) fresh

  name_of-files : (src : Text) (files : Files) → (name_of src files).0 ≡ files
  unfolding name_of
  name_of-files src files = ground arith

  pub copy_into-Fresh :
      (dir : Text) (keep : Text → Text) (srcs : List Text)
      → All (λ name. Elsewhere (join dir name)) (names_of srcs)
      → Keeps (Fresh signature ctx v) (copy_into host dir keep srcs)
  unfolding copy_into names_of name_of
  copy_into-Fresh dir keep [] apart files fresh = fresh
  copy_into-Fresh dir keep (src ∷ rest) apart files fresh =
      let P = Fresh signature ctx v in
      proceed-keeps P files (name_of src)
        (λ name. do
          copy_file host src (join dir name)
          names ← copy_into host dir keep rest
          pure (keep name ∷ names))
        (subst P (sym (name_of-files src files)) fresh)
        (λ name t h fresh2.
          let named = name_of-names src files name t h in
          let parts : All (λ n. Elsewhere (join dir n)) (name ∷ names_of rest) =
            subst (λ o. All (λ n. Elsewhere (join dir n)) (with_name o (names_of rest))) named
              apart in
          Keeps-bind P (copy_file host src (join dir name))
            (λ u. do names ← copy_into host dir keep rest; pure (keep name ∷ names))
            (copy_file-Fresh src (join dir name) parts.0)
            (λ u.
              Keeps-bind P (copy_into host dir keep rest) (λ names. pure (keep name ∷ names))
                (copy_into-Fresh dir keep rest parts.1) (λ names f fr. fr))
            t fresh2)

  -- If gpg fails, nothing is known of the signature.
  pub resign_db-Fresh :
      KeepsUnless gpg (Fresh signature ctx v) (resign host ctx (db_path_for ctx v))
  unfolding resign sign
  resign_db-Fresh files fresh =
      helper
        (host.run_gpg ctx.gpg_home (sign_args ctx.gpg_key (db_path_for ctx v))
          (unlink (sig_of (db_path_for ctx v)) files))
        refl
    where
      helper :
          (r : Files × Option Bool)
          → host.run_gpg ctx.gpg_home
              (sign_args ctx.gpg_key (db_path_for ctx v))
              (unlink (sig_of (db_path_for ctx v)) files)
            ≡ r
          → Fresh signature ctx v ((gpg_end r).0) ⊎ ((gpg_end r).1 ≡ err gpg)
      helper (t, none) e = inr refl
      helper (t, some false) e = inr refl
      helper (t, some true) e =
          inl (
            inr
              (resign-signs signature host laws ctx (db_path_for ctx v) files tt t (ground arith)))

  pub resign_other-Fresh :
      (path : Text)
      → sig_of path ≢ db_path_for ctx v
      → path ≢ db_path_for ctx v
      → Keeps (Fresh signature ctx v) (resign host ctx path)
  unfolding db_sig_for
  resign_other-Fresh path a b files =
      Fresh-same files ((resign host ctx path files).0)
        (resign-frame signature host laws ctx path files (db_path_for ctx v) a)
        (resign-frame signature host laws ctx path files (sig_of (db_path_for ctx v))
          (λ e. b (sig_of-inj path (db_path_for ctx v) e)))
