-- ===== src/Repo/Publishing.antt =====
-- `publish_with` and `remove_with` of crates/paur-repo/src/lib.rs at every end, with any `RepoOps`.
use paur.Prelude.{refl, sym, ◌∙◌, subst, List, [], ◌∷◌, map, All, All-map_pred}
use paur.Prelude.Text.{Text}
use paur.Prelude.{inl}
use paur.Prelude.Results.{io, gpg}
use paur.Prelude.Effects.{
  Io, ◌>>=◌, ◌>>◌, Keeps, Keeps-bind, KeepsUnless, KeepsUnless-bind, proceed-KeepsUnless, modify,
}
use paur.Prelude.Disk.{Files, remove_tree}
use paur.Core.Name.{PkgName}
use paur.Core.Variants.{Variant}
use paur.Builder.{join}
use paur.Repo.{
  RepoCtx, Host, RepoOps, Published, arch_subdir, db_basename_for, db_path_for, db_sig_for, sig_of,
  stage_dir, made, copy_into, resign, resign_all, upload_all, publish_files, publish_with,
  sign_and_send, remove_with,
}
use paur.Repo.Paths.{IsPlain, outside_stage, ne_sig, db_basename-ends, join-ne, sig_of-join}
use paur.Repo.Signing.{HostLaws}
use paur.Repo.Signed.{names_of, IsPublishable, copy_into-names}
use paur.Repo.Fresh.{
  Fresh, OpsLaws, Elsewhere, Fresh-same, copy_into-Fresh, resign_db-Fresh, resign_other-Fresh,
}

module _ (signature : Text → Text → Text → Text) (host : Host) (laws : HostLaws signature host)
    (ctx : RepoCtx) (v : Variant) where
  -- A path of the directory, under a name that is neither of a signature nor of the database.
  fits-Elsewhere :
      (name : Text)
      → IsPublishable ctx v name
      → Elsewhere signature host laws ctx v (join (arch_subdir ctx v) name)
  unfolding db_path_for db_sig_for
  fits-Elsewhere name fits =
      let dir = arch_subdir ctx v in
      let base = db_basename_for ctx v in
      (
        join-ne dir name base fits.1,
        λ e. join-ne dir name (sig_of base) (ne_sig name base fits.0) (e ∙ sig_of-join dir base),
      )

  pkg-Fresh :
      (name : Text)
      → IsPublishable ctx v name
      → Keeps (Fresh signature ctx v) (resign host ctx (join (arch_subdir ctx v) name))
  unfolding db_path_for
  pkg-Fresh name fits =
      let dir = arch_subdir ctx v in
      let base = db_basename_for ctx v in
      resign_other-Fresh signature host laws ctx v (join dir name)
        (λ e.
          join-ne dir base (sig_of name) (ne_sig base name (db_basename-ends ctx v))
            (sym e ∙ sig_of-join dir name))
        (fits-Elsewhere name fits).0

  resign_all-Fresh :
      (names : List Text)
      → All (IsPublishable ctx v) names
      → Keeps (Fresh signature ctx v) (resign_all host ctx (map (join (arch_subdir ctx v)) names))
  unfolding resign_all
  resign_all-Fresh [] fits files fresh = fresh
  resign_all-Fresh (name ∷ names) fits files fresh =
      Keeps-bind (Fresh signature ctx v) (resign host ctx (join (arch_subdir ctx v) name))
        (λ u. resign_all host ctx (map (join (arch_subdir ctx v)) names)) (pkg-Fresh name fits.0)
        (λ u. resign_all-Fresh names fits.1) files fresh

  clean-Fresh :
      IsPlain ctx
      → (files : Files) → Fresh signature ctx v files
      → Fresh signature ctx v (remove_tree (stage_dir ctx) files)
  unfolding remove_tree db_path_for db_sig_for
  clean-Fresh plain files =
      let dir = arch_subdir ctx v in
      let base = db_basename_for ctx v in
      Fresh-same signature host laws ctx v files (remove_tree (stage_dir ctx) files)
        (rw (outside_stage ctx v base plain) refl)
        (rw (sig_of-join dir base, outside_stage ctx v (sig_of base) plain) refl)

  sign_and_send-Fresh :
      (names : List Text)
      → IsPlain ctx
      → All (IsPublishable ctx v) names
      → KeepsUnless gpg
          (Fresh signature ctx v)
          (sign_and_send host ctx v (map (join (arch_subdir ctx v)) names))
  unfolding sign_and_send upload_all
  sign_and_send-Fresh names plain fits =
      let P = Fresh signature ctx v in
      let staged = map (join (arch_subdir ctx v)) names in
      KeepsUnless-bind gpg P (resign host ctx (db_path_for ctx v))
        (λ u. do
          resign_all host ctx staged
          modify (remove_tree (stage_dir ctx))
          upload_all host ctx v staged)
        (resign_db-Fresh signature host laws ctx v)
        (λ u files fresh. inl (
          Keeps-bind P (resign_all host ctx staged)
            (λ u. do modify (remove_tree (stage_dir ctx)); upload_all host ctx v staged)
            (resign_all-Fresh names fits) (λ u. clean-Fresh plain) files fresh))

  publish_files-Fresh :
      (srcs : List Text) (ops : RepoOps)
      → OpsLaws signature ctx v ops
      → IsPlain ctx
      → All (IsPublishable ctx v) (names_of srcs)
      → KeepsUnless gpg (Fresh signature ctx v) (publish_files host ctx srcs v ops)
  unfolding publish_files made
  publish_files-Fresh srcs ops lawful plain fits files fresh =
      let P = Fresh signature ctx v in
      let dir = arch_subdir ctx v in
      let rest : List Text → Io Files Published =
        λ staged. ops.add ctx v staged >> sign_and_send host ctx v staged in
      KeepsUnless-bind gpg P (made (host.mkdir dir) io)
        (λ u. copy_into host dir (join dir) srcs >>= rest) (λ f fr. inl fr)
        (λ u t kept.
          proceed-KeepsUnless gpg P t (copy_into host dir (join dir) srcs) rest
            (copy_into-Fresh signature host laws ctx v dir (join dir) srcs
              (All-map_pred fits-Elsewhere (names_of srcs) fits) t kept)
            (λ staged t2 h2 kept2.
              let (same, all_named) = copy_into-names host dir (join dir) srcs t staged t2 h2 in
              KeepsUnless-bind gpg P (ops.add ctx v staged) (λ u. sign_and_send host ctx v staged)
                (λ f fr. inl (lawful.add-Fresh staged f fr))
                (λ u.
                  subst (λ s. KeepsUnless gpg P (sign_and_send host ctx v s)) (sym same)
                    (sign_and_send-Fresh (names_of srcs) plain fits))
                t2 kept2))
        files fresh

  pub publish_with-Fresh :
      (srcs : List Text) (ops : RepoOps)
      → OpsLaws signature ctx v ops
      → IsPlain ctx
      → All (IsPublishable ctx v) (names_of srcs)
      → KeepsUnless gpg (Fresh signature ctx v) (publish_with host ctx srcs v ops)
  unfolding publish_with
  publish_with-Fresh [] ops lawful plain fits files fresh = inl fresh
  publish_with-Fresh (s ∷ ss) ops lawful plain fits files fresh =
      publish_files-Fresh (s ∷ ss) ops lawful plain fits files fresh

  pub remove_with-Fresh :
      (pkg : PkgName) (ops : RepoOps)
      → OpsLaws signature ctx v ops
      → KeepsUnless gpg (Fresh signature ctx v) (remove_with host ctx pkg v ops)
  unfolding remove_with
  remove_with-Fresh pkg ops lawful =
      KeepsUnless-bind gpg (Fresh signature ctx v) (ops.remove ctx v pkg.as_str)
        (λ u. resign host ctx (db_path_for ctx v))
        (λ f fr. inl (lawful.remove-Fresh pkg.as_str f fr))
        (λ u. resign_db-Fresh signature host laws ctx v)
