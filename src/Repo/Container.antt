-- ===== src/Repo/Container.antt =====
-- `ContainerRepoOps` of crates/paur-repo/src/lib.rs: what the run of container/build.sh does to the
-- repository.
use paur.Prelude.{
  ◌≡◌, sym, ◌∙◌, ℤ, subst, inl, inr, Bool, true, false, not, ◌||◌, Option, none, some, List, [],
  ◌∷◌, ◌++◌, map, Bool-cases, is_empty, All, All-of_All, ◌==◌, length, if◌then◌else◌,
}
use paur.Prelude.Text.{Text, codes, text_eq}
use paur.Prelude.{◌⊎◌}
use paur.Prelude.Results.{err, repo, io, gpg}
use paur.Prelude.Effects.{Io, ◌>>=◌, Keeps, Keeps-bind, pure}
use paur.Prelude.Disk.{Files, unlink, unlink-same, unlink-other}
use paur.Core.Name.{PkgName}
use paur.Core.Variants.{Variant}
use paur.Builder.{join, ends_with}
use paur.Builder.RepoOps.{
  Image, Runtime, RepoOpRequest, build_sh, build_repo, build_unrepo, in_arch_dir, update_db,
  host_dir, is_dir, run_repo_op, finish_op, mounts, script_args,
}
use paur.Repo.{
  RepoCtx, Host, arch_subdir, db_basename_for, db_path_for, db_sig_for, sig_of, stage_dir, made,
  copy_into, container_add, container_remove, container_repo_ops, publish, remove, add_request,
  remove_request,
}
use paur.Repo.Paths.{IsPlain, Outside, outside_stage, sig_of-join, outside-ne}
use paur.Repo.Signing.{HostLaws}
use paur.Repo.Signed.{names_of, IsPublishable}
use paur.Repo.Fresh.{Fresh, OpsLaws, Elsewhere, Fresh-same, copy_into-Fresh}
use paur.Repo.Publishing.{publish_with-Fresh, remove_with-Fresh}

-- The documented behaviour of `repo-add` and `repo-remove` without `--sign`: they write below their
-- directory only, and no signature of the database.
pub record ToolLaws (image : Image) : Type 0 where
  pub tool-frame :
      (program dir db_name : Text) (args : List Text) (files : Files) (q : Text)
      → Outside dir q
      → (image.tool program dir db_name args files).0 q ≡ files q
  pub tool-unsigned :
      (program dir db_name : Text) (args : List Text) (files : Files)
      → (image.tool program dir db_name args files).0 (join dir (sig_of db_name))
        ≡ files (join dir (sig_of db_name))

module _ (signature : Text → Text → Text → Text) (host : Host) (laws : HostLaws signature host)
    (image : Image) (tools : ToolLaws image) (ctx : RepoCtx) (v : Variant) (plain : IsPlain ctx)
    (runs : host.runtime.script ≡ build_sh image) where
  abbrev KeepsFresh : (Files → Files × Option ℤ) → Type 0
  KeepsFresh script =
      (files : Files) → Fresh signature ctx v files → Fresh signature ctx v ((script files).0)

  -- In the directory of the variant the old signature goes first.
  update_here :
      (program : Text) (args : List Text)
      → KeepsFresh (update_db image program (db_basename_for ctx v) args (some (arch_subdir ctx v)))
  unfolding update_db db_sig_for db_path_for
  update_here program args files fresh =
      let dir = arch_subdir ctx v in
      let base = db_basename_for ctx v in
      let gone = unlink (join dir (sig_of base)) files in
      inl (
        subst (λ q. (image.tool program dir base args gone).0 q ≡ none) (sym (sig_of-join dir base))
          (tools.tool-unsigned program dir base args gone
            ∙ unlink-same (join dir (sig_of base)) files))

  -- The staging directory holds neither the database nor its signature.
  update_stage :
      (program : Text) (args : List Text)
      → KeepsFresh (update_db image program (db_basename_for ctx v) args (some (stage_dir ctx)))
  unfolding update_db db_sig_for db_path_for
  update_stage program args files fresh =
      let dir = arch_subdir ctx v in
      let base = db_basename_for ctx v in
      let stage = stage_dir ctx in
      let gone = unlink (join stage (sig_of base)) files in
      let kept : (q : Text)
          → Outside stage q
          → (image.tool program stage base args gone).0 q ≡ files q =
        λ q out.
          tools.tool-frame program stage base args gone q out
          ∙ unlink-other (join stage (sig_of base)) q files (outside-ne ctx (sig_of base) q out) in
      Fresh-same signature host laws ctx v files ((image.tool program stage base args gone).0)
        (kept (join dir base) (outside_stage ctx v base plain))
        (kept (sig_of (join dir base)) (
          subst (Outside stage) (sym (sig_of-join dir base))
            (outside_stage ctx v (sig_of base) plain)))
        fresh

  in_arch_dir-Fresh :
      (program : Text) (args : List Text)
      → KeepsFresh (
          in_arch_dir image
            ((arch_subdir ctx v, codes "/work/repo") ∷ (stage_dir ctx, codes "/work/stage") ∷ [])
            program
            (db_basename_for ctx v)
            (arch_subdir ctx v)
            args)
  unfolding in_arch_dir host_dir
  in_arch_dir-Fresh program args files fresh =
      let ms : List (Text × Text) =
        (arch_subdir ctx v, codes "/work/repo") ∷ (stage_dir ctx, codes "/work/stage") ∷ [] in
      elim (Bool-cases (is_dir image ms (arch_subdir ctx v))) [
        | inr e ↦ rw e fresh
        | inl e ↦ rw e (
            seen_as (text_eq (codes "/work/repo") (arch_subdir ctx v))
              (text_eq (codes "/work/stage") (arch_subdir ctx v)))
      ]
    where
      seen_as :
          (here stage : Bool)
          → Fresh signature ctx v (
              (update_db image program
                (db_basename_for ctx v)
                args
                (if here
                  then some (arch_subdir ctx v)
                  else if stage
                  then some (stage_dir ctx)
                  else none)
                files).0)
      seen_as true _ = update_here program args files fresh
      seen_as false true = update_stage program args files fresh
      seen_as false false = fresh

  build_repo-Fresh :
      (args : List Text)
      → KeepsFresh (
          build_repo image
            ((arch_subdir ctx v, codes "/work/repo") ∷ (stage_dir ctx, codes "/work/stage") ∷ [])
            (db_basename_for ctx v ∷ arch_subdir ctx v ∷ args))
  unfolding build_repo
  build_repo-Fresh args files fresh =
      elim (Bool-cases
        (is_empty (db_basename_for ctx v) || is_empty (arch_subdir ctx v) || is_empty args)) [
          | inl e ↦ rw e fresh
          | inr e ↦ rw e (in_arch_dir-Fresh (codes "repo-add") args files fresh)
        ]

  build_unrepo-Fresh :
      (args : List Text)
      → KeepsFresh (
          build_unrepo image
            ((arch_subdir ctx v, codes "/work/repo") ∷ (stage_dir ctx, codes "/work/stage") ∷ [])
            (db_basename_for ctx v ∷ arch_subdir ctx v ∷ args))
  unfolding build_unrepo
  build_unrepo-Fresh args files fresh =
      elim (Bool-cases (
        is_empty (db_basename_for ctx v)
        || is_empty (arch_subdir ctx v)
        || not (length args == 1))) [
          | inl e ↦ rw e fresh
          | inr e ↦ rw e (in_arch_dir-Fresh (codes "repo-remove") args files fresh)
        ]

  -- The run itself, given the effect of the script.
  run-Fresh :
      (req : RepoOpRequest)
      → KeepsFresh (host.runtime.script (mounts req) (script_args req))
      → Keeps (Fresh signature ctx v) (run_repo_op host.runtime req)
  unfolding run_repo_op finish_op
  run-Fresh req script files fresh = helper (host.runtime.layout_made) (host.runtime.spawned)
    where
      helper :
          (made spawned : Bool)
          → Fresh signature ctx v (
              (if not made
                then (files, err io)
                else if not spawned
                then (files, err repo)
                else finish_op host.runtime.waited
                    (host.runtime.script (mounts req) (script_args req) files)).0)
      helper false _ = fresh
      helper true false = fresh
      helper true true = script files fresh

  script-add :
      (names : List Text)
      → KeepsFresh (
          host.runtime.script
            (mounts (add_request ctx v names))
            (script_args (add_request ctx v names)))
  unfolding mounts script_args paur.Builder.RepoOps.as_str build_sh text_eq add_request
      db_basename_for
  script-add names files fresh =
      rw runs (build_repo-Fresh (map (λ n. codes "/work/stage/" ++ n) names) files fresh)

  script-remove :
      (pkgname : Text)
      → KeepsFresh (
          host.runtime.script
            (mounts (remove_request ctx v pkgname))
            (script_args (remove_request ctx v pkgname)))
  unfolding mounts script_args paur.Builder.RepoOps.as_str build_sh text_eq remove_request
      db_basename_for
  script-remove pkgname files fresh = rw runs (build_unrepo-Fresh (pkgname ∷ []) files fresh)

  container_add-Fresh :
      (staged : List Text) → Keeps (Fresh signature ctx v) (container_add host ctx v staged)
  unfolding container_add made db_path_for db_sig_for
  container_add-Fresh staged =
      let P = Fresh signature ctx v in
      let dir = arch_subdir ctx v in
      let base = db_basename_for ctx v in
      let stage = stage_dir ctx in
      let run : List Text → Io Files Unit =
        λ names. run_repo_op host.runtime (add_request ctx v names) >>= (λ code. pure tt) in
      let apart : (name : Text) → Elsewhere signature host laws ctx v (join stage name) = λ name. (
        outside-ne ctx name (join dir base) (outside_stage ctx v base plain),
        outside-ne ctx name (sig_of (join dir base)) (
            subst (Outside stage) (sym (sig_of-join dir base))
              (outside_stage ctx v (sig_of base) plain)),
      ) in
      Keeps-bind P (made (host.mkdir stage) io)
        (λ u. copy_into host stage (λ name. name) staged >>= run) (λ f fr. fr)
        (λ u.
          Keeps-bind P (copy_into host stage (λ name. name) staged) run
            (copy_into-Fresh signature host laws ctx v stage (λ name. name) staged
              (All-of_All (λ n. Elsewhere signature host laws ctx v (join stage n)) apart
                (names_of staged)))
            (λ names.
              Keeps-bind P (run_repo_op host.runtime (add_request ctx v names)) (λ code. pure tt)
                (run-Fresh (add_request ctx v names) (script-add names)) (λ code f fr. fr)))

  container_remove-Fresh :
      (pkgname : Text) → Keeps (Fresh signature ctx v) (container_remove host ctx v pkgname)
  unfolding container_remove
  container_remove-Fresh pkgname =
      Keeps-bind (Fresh signature ctx v) (run_repo_op host.runtime (remove_request ctx v pkgname))
        (λ code. pure tt) (run-Fresh (remove_request ctx v pkgname) (script-remove pkgname))
        (λ code f fr. fr)

  container_ops-OpsLaws : OpsLaws signature ctx v (container_repo_ops host)
  unfolding container_repo_ops
  container_ops-OpsLaws = record {
    add-Fresh = container_add-Fresh;
    remove-Fresh = container_remove-Fresh;
  }

-- At every end of a publishing and of a removal but an error of gpg, errors of the file system and of
-- the container included, the signature of the database is missing or is that of the database that is
-- there, if so it was at the start. The container runs `build.sh`, the names are none of a signature or
-- of the database, and the architecture's directory is not hidden.
pub publish-Fresh :
    (signature : Text → Text → Text → Text) (host : Host)
    → HostLaws signature host
    → (image : Image) → ToolLaws image
    → host.runtime.script ≡ build_sh image
    → (ctx : RepoCtx) (v : Variant) → IsPlain ctx
    → (pkg_files : List Text) → All (IsPublishable ctx v) (names_of pkg_files)
    → (pkg : PkgName) (files : Files) → Fresh signature ctx v files
    → (Fresh signature ctx v (publish host ctx pkg_files v files).0
        ⊎ ((publish host ctx pkg_files v files).1 ≡ err gpg))
      × (Fresh signature ctx v (remove host ctx pkg v files).0
          ⊎ ((remove host ctx pkg v files).1 ≡ err gpg))
unfolding publish remove
publish-Fresh signature host laws image tools runs ctx v plain pkg_files fits pkg files fresh =
    let ops = container_ops-OpsLaws signature host laws image tools ctx v plain runs in
    (
      publish_with-Fresh signature host laws ctx v pkg_files (container_repo_ops host) ops plain
          fits files fresh,
      remove_with-Fresh signature host laws ctx v pkg (container_repo_ops host) ops files fresh,
    )
