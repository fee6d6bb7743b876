-- ===== src/Repo/Signed.antt =====
-- The signatures that a publishing of crates/paur-repo/src/lib.rs leaves in the repository.
use paur.Prelude.{
  ◌≡◌, refl, sym, ap, ◌∙◌, subst, ◌≢◌, inl, inr, false, Option, none, some, List, [], ◌∷◌, map,
  arith, Bool-cases, Option-cases, is_empty, All, All-map_pred,
}
use paur.Prelude.Text.{Text, codes}
use paur.Prelude.Results.{ok, io}
use paur.Prelude.Effects.{Io, ◌>>=◌, ◌>>◌, Ensures, Ensures-bind, pure, modify}
use paur.Prelude.Disk.{Files, remove_tree, file_name}
use paur.Core.Variants.{Variant}
use paur.Builder.{join, ends_with}
use paur.Repo.{
  RepoCtx, Host, RepoOps, Published, arch_subdir, db_basename_for, db_path_for, db_sig_for, sig_of,
  stage_dir, made, name_of, copy_file, copy_into, resign, resign_all, upload_all, publish_files,
  publish_with, sign_and_send, uploads,
}
use paur.Repo.Paths.{IsPlain, outside_stage, db_basename-ends, sig_of-join}
use paur.Repo.Signing.{
  HostLaws, SignedAt, SignedAt-same, resign-signs, resign_all-keeps, resign_all-signs, not_sigs,
}

-- The names of the files to publish.
abbrev pub with_name : Option Text → List Text → List Text
with_name none names = names
with_name (some name) names = name ∷ names

unfoldable pub names_of : List Text → List Text
unfolding file_name
names_of [] = []
names_of (src ∷ rest) = with_name (file_name src) (names_of rest)

-- The name of a package: neither that of a signature nor that of the database.
abbrev pub IsPublishable : RepoCtx → Variant → Text → Type 0
IsPublishable ctx v name = (ends_with (codes ".sig") name ≡ false) × (name ≢ db_basename_for ctx v)

pub name_of-names :
    (src : Text) (files : Files)
    → Ensures files (name_of src) (λ name after. file_name src ≡ some name)
unfolding name_of
name_of-names src files name after h = elim (Option-cases (file_name src)) [
  | inl e ↦ absurd (ground arith)
  | inr (n, e) ↦ ground arith
]

-- The names that were copied: every source has one.
pub copy_into-names :
    (host : Host) (dir : Text) (keep : Text → Text) (srcs : List Text) (files : Files)
    → Ensures files (copy_into host dir keep srcs) (λ staged after.
      (staged ≡ map keep (names_of srcs)) × (map file_name srcs ≡ map some (names_of srcs)))
unfolding copy_into names_of
copy_into-names host dir keep [] files = λ staged after h. (sym (ground arith), refl)
copy_into-names host dir keep (src ∷ rest) files =
    let Named : List Text → Files → Type 0 = λ staged after.
      (staged ≡ map keep (names_of (src ∷ rest)))
      × (map file_name (src ∷ rest) ≡ map some (names_of (src ∷ rest))) in
    Ensures-bind files (name_of src)
      (λ name. do
        copy_file host src (join dir name)
        names ← copy_into host dir keep rest
        pure (keep name ∷ names))
      Named
      (λ name t h.
        Ensures-bind t (copy_file host src (join dir name))
          (λ u. do names ← copy_into host dir keep rest; pure (keep name ∷ names)) Named
          (λ u t2 h2.
            Ensures-bind t2 (copy_into host dir keep rest) (λ names. pure (keep name ∷ names)) Named
              (λ names t3 h3 staged after end.
                let named = name_of-names src files name t h in
                let back : staged ≡ keep name ∷ names = ground arith in
                let (same, all_named) = copy_into-names host dir keep rest t2 names t3 h3 in
                (
                  back
                      ∙ ap (λ ns. keep name ∷ ns) same
                      ∙ ap (λ o. map keep (with_name o (names_of rest))) (sym named),
                  ap (λ o. o ∷ map file_name rest) named
                      ∙ ap (λ os. some name ∷ os) all_named
                      ∙ ap (λ o. map some (with_name o (names_of rest))) (sym named),
                ))))

module _ (signature : Text → Text → Text → Text) (host : Host) (laws : HostLaws signature host)
    (ctx : RepoCtx) where
  SignedAt-cleaned :
      (v : Variant) (name : Text) (files : Files)
      → IsPlain ctx
      → SignedAt signature ctx files (join (arch_subdir ctx v) name)
      → SignedAt signature ctx (remove_tree (stage_dir ctx) files) (join (arch_subdir ctx v) name)
  unfolding remove_tree
  SignedAt-cleaned v name files plain =
      let dir = arch_subdir ctx v in
      SignedAt-same signature host laws ctx (join dir name) files
        (remove_tree (stage_dir ctx) files) (rw (outside_stage ctx v name plain) refl)
        (rw (sig_of-join dir name, outside_stage ctx v (sig_of name) plain) refl)

  -- What is signed when the database and the files of these names are published.
  abbrev pub IsAllSigned : Variant → List Text → Published → Files → Type 0
  IsAllSigned v ns p after =
      (p.db_sig ≡ db_sig_for ctx v)
      × SignedAt signature ctx after (db_path_for ctx v)
      × All (λ name. SignedAt signature ctx after (join (arch_subdir ctx v) name)) ns
      × (p.sent ≡ uploads host ctx v (map (join (arch_subdir ctx v)) ns) after ctx.s3)

  sent-eq :
      (v : Variant) (staged : List Text) (files : Files) (p : Published) (after : Files)
      → (modify (remove_tree (stage_dir ctx)) >> upload_all host ctx v staged) files ≡ (after, ok p)
      → p.sent ≡ uploads host ctx v staged after ctx.s3
  unfolding upload_all
  sent-eq v staged files p after end =
      let cleaned : remove_tree (stage_dir ctx) files ≡ after = ap (λ r. r.0) end in
      let same : uploads host ctx v staged (remove_tree (stage_dir ctx) files) ctx.s3 ≡ p.sent =
        ground arith in
      sym same ∙ ap (λ f. uploads host ctx v staged f ctx.s3) cleaned

  sign_and_send-signs :
      (v : Variant) (ns : List Text) (files : Files)
      → IsPlain ctx
      → All (λ n. ends_with (codes ".sig") n ≡ false) ns
      → Ensures files
          (sign_and_send host ctx v (map (join (arch_subdir ctx v)) ns))
          (IsAllSigned v ns)
  unfolding sign_and_send db_path_for upload_all
  sign_and_send-signs v ns files plain fit =
      let dir = arch_subdir ctx v in
      let staged = map (join dir) ns in
      let finish : Io Files Published =
        modify (remove_tree (stage_dir ctx)) >> upload_all host ctx v staged in
      Ensures-bind files (resign host ctx (db_path_for ctx v))
        (λ u. resign_all host ctx staged >> finish) (IsAllSigned v ns)
        (λ u t h.
          let db_signed = resign-signs signature host laws ctx (db_path_for ctx v) files u t h in
          let apart =
            not_sigs signature host laws ctx dir (db_basename_for ctx v) ns
              (db_basename-ends ctx v) in
          Ensures-bind t (resign_all host ctx staged) (λ u. finish) (IsAllSigned v ns)
            (λ u t2 h2 p after end.
              let kept =
                resign_all-keeps signature host laws ctx (db_path_for ctx v) staged t apart
                  db_signed u t2 h2 in
              let pkgs = resign_all-signs signature host laws ctx dir ns t fit u t2 h2 in
              let cleaned : remove_tree (stage_dir ctx) t2 ≡ after = ap (λ r. r.0) end in
              (
                ground arith,
                subst (λ f. SignedAt signature ctx f (db_path_for ctx v)) cleaned
                    (SignedAt-cleaned v (db_basename_for ctx v) t2 plain kept),
                All-map_pred
                    (λ name signed.
                      subst (λ f. SignedAt signature ctx f (join dir name)) cleaned
                        (SignedAt-cleaned v name t2 plain signed))
                    ns pkgs,
                sent-eq v staged t2 p after end,
              )))

  pub Published-signs :
      (v : Variant) (pkg_files : List Text) (ops : RepoOps) (files : Files)
      → IsPlain ctx
      → All (IsPublishable ctx v) (names_of pkg_files)
      → Ensures files (publish_files host ctx pkg_files v ops) (λ p after.
        (map file_name pkg_files ≡ map some (names_of pkg_files))
        × IsAllSigned v (names_of pkg_files) p after)
  unfolding publish_files
  Published-signs v pkg_files ops files plain fit =
      let dir = arch_subdir ctx v in
      let Signed : Published → Files → Type 0 = λ p after.
        (map file_name pkg_files ≡ map some (names_of pkg_files))
        × IsAllSigned v (names_of pkg_files) p after in
      let rest : List Text → Io Files Published =
        λ staged. ops.add ctx v staged >> sign_and_send host ctx v staged in
      Ensures-bind files (made (host.mkdir dir) io)
        (λ u. copy_into host dir (join dir) pkg_files >>= rest) Signed
        (λ u t h.
          Ensures-bind t (copy_into host dir (join dir) pkg_files) rest Signed (λ staged t2 h2.
            let (same, all_named) = copy_into-names host dir (join dir) pkg_files t staged t2 h2 in
            Ensures-bind t2 (ops.add ctx v staged) (λ u. sign_and_send host ctx v staged) Signed
              (λ u t3 h3 p after end. (
                all_named,
                sign_and_send-signs v (names_of pkg_files) t3 plain
                    (All-map_pred (λ n fits. fits.0) (names_of pkg_files) fit) p after
                    (subst (λ s. sign_and_send host ctx v s t3 ≡ (after, ok p)) same end),
              ))))

  pub publish_with-end :
      (pkg_files : List Text) (v : Variant) (ops : RepoOps) (files after : Files) (p : Published)
      → IsPlain ctx
      → All (IsPublishable ctx v) (names_of pkg_files)
      → publish_with host ctx pkg_files v ops files ≡ (after, ok p)
      → (map file_name pkg_files ≡ map some (names_of pkg_files))
        × IsAllSigned v (names_of pkg_files) p after
  unfolding publish_with
  publish_with-end pkg_files v ops files after p plain fit h =
      elim (Bool-cases (is_empty pkg_files)) [
        | inl e ↦ absurd (ground arith)
        | inr e ↦
            let done : publish_files host ctx pkg_files v ops files ≡ (after, ok p) =
              ground arith in
            Published-signs v pkg_files ops files plain fit p after done
      ]

module _ (signature : Text → Text → Text → Text) (host : Host)
    (laws : HostLaws signature host) where
  -- After a publishing that succeeds, whatever the container did, each source has a file name, and
  -- under that name in the directory of the variant stands a file with a signature, by the
  -- configured key, of what it holds at that moment; and so does the database, whose signature is
  -- the path that is given back. The names are none of a signature or of the database, and the
  -- architecture's directory is not hidden.
  pub publish_with-signed :
      (ctx : RepoCtx) (pkg_files : List Text) (v : Variant) (ops : RepoOps) (files after : Files)
      (p : Published)
      → IsPlain ctx
      → All (IsPublishable ctx v) (names_of pkg_files)
      → publish_with host ctx pkg_files v ops files ≡ (after, ok p)
      → (p.db_sig ≡ db_sig_for ctx v)
        × (map file_name pkg_files ≡ map some (names_of pkg_files))
        × SignedAt signature ctx after (db_path_for ctx v)
        × All
            (λ name. SignedAt signature ctx after (join (arch_subdir ctx v) name))
            (names_of pkg_files)
  publish_with-signed ctx pkg_files v ops files after p plain fit h =
      let r = publish_with-end signature host laws ctx pkg_files v ops files after p plain fit h in
      (r.1.0, r.0, r.1.1, r.1.2)
