-- ===== src/Repo/Refused.antt =====
-- The updates of crates/paur-repo/src/lib.rs in a container that sees the repository at its mount
-- points only.
use paur.Prelude.{
  pos, ◌≡◌, refl, ap, ◌||◌, ◌≢◌, inl, inr, Bool, true, false, not, some, List, [], ◌∷◌, map, arith,
  is_empty, if◌then◌else◌,
}
use paur.Prelude.Text.{Text, codes, text_eq, text_eq_of_ne}
use paur.Prelude.Results.{Error, err, repo, io, build, Result-cases}
use paur.Prelude.Effects.{Io, proceed, ◌>>=◌, ◌>>◌, pure, Ensures, Ensures-bind}
use paur.Prelude.Disk.{Files}
use paur.Core.Name.{PkgName}
use paur.Core.Variants.{Variant}
use paur.Builder.{join}
use paur.Builder.RepoOps.{
  Image, Runtime, RepoOpRequest, build_sh, build_repo, build_unrepo, in_arch_dir, is_dir,
  run_repo_op, finish_op, exit_result, mounts, script_args, name_arg,
}
use paur.Repo.{
  RepoCtx, Host, Published, arch_subdir, db_basename_for, stage_dir, made, copy_into, publish_files,
  publish_with, publish, remove, remove_with, container_add, container_remove, add_request,
  remove_request, sign_and_send, container_repo_ops, resign, db_path_for,
}

-- The container does not have the repository's directory under the path that it has on the host.
abbrev pub IsUnseen : Image → RepoCtx → Variant → Type 0
IsUnseen image ctx v =
    (image.has_dir (arch_subdir ctx v) ≡ false)
    × (codes "/work/repo" ≢ arch_subdir ctx v)
    × (codes "/work/stage" ≢ arch_subdir ctx v)

module _ (image : Image) (host : Host) (runs : host.runtime.script ≡ build_sh image) (ctx : RepoCtx)
    (v : Variant) (unseen : IsUnseen image ctx v) where
  abbrev ms : List (Text × Text)
  ms = (arch_subdir ctx v, codes "/work/repo") ∷ (stage_dir ctx, codes "/work/stage") ∷ []

  no_dir : is_dir image ms (arch_subdir ctx v) ≡ false
  unfolding is_dir
  no_dir =
      rw
        (
          text_eq_of_ne (codes "/work/repo") (arch_subdir ctx v) unseen.1,
          text_eq_of_ne (codes "/work/stage") (arch_subdir ctx v) unseen.2,
          unseen.0,
        )
        refl

  abbrev Refuses : RepoOpRequest → Type 0
  Refuses req =
      (files : Files)
      → host.runtime.script (mounts req) (script_args req) files ≡ (files, some (pos 2))

  in_arch_dir-refuses :
      (program : Text) (args : List Text) (files : Files)
      → in_arch_dir image ms program (db_basename_for ctx v) (arch_subdir ctx v) args files
        ≡ (files, some (pos 2))
  unfolding in_arch_dir
  in_arch_dir-refuses program args files = rw no_dir refl

  -- The tests in front of it give the same code.
  either : {A : Type 0} (b : Bool) (x y : A) → y ≡ x → (if b then x else y) ≡ x
  either true x y e = refl
  either false x y e = e

  add-Refuses : (names : List Text) → Refuses (add_request ctx v names)
  unfolding mounts script_args paur.Builder.RepoOps.as_str build_sh text_eq add_request
      db_basename_for build_repo
  add-Refuses names files =
      let args = map (name_arg paur.Builder.RepoOps.RepoOp.add) names in
      rw runs (
        either (is_empty (db_basename_for ctx v) || is_empty (arch_subdir ctx v) || is_empty args)
          (files, some (pos 2))
          (in_arch_dir image ms (codes "repo-add") (db_basename_for ctx v) (arch_subdir ctx v) args
            files)
          (in_arch_dir-refuses (codes "repo-add") args files))

  remove-Refuses : (pkgname : Text) → Refuses (remove_request ctx v pkgname)
  unfolding mounts script_args paur.Builder.RepoOps.as_str build_sh text_eq remove_request
      db_basename_for build_unrepo name_arg
  remove-Refuses pkgname files = rw runs (
      either (is_empty (db_basename_for ctx v) || is_empty (arch_subdir ctx v) || false)
        (files, some (pos 2))
        (in_arch_dir image ms (codes "repo-remove") (db_basename_for ctx v) (arch_subdir ctx v)
          (pkgname ∷ []) files)
        (in_arch_dir-refuses (codes "repo-remove") (pkgname ∷ []) files))

  -- The run fails and leaves the files as they are.
  run-refused :
      (req : RepoOpRequest)
      → Refuses req
      → (files : Files) → (e : Error) × (run_repo_op host.runtime req files ≡ (files, err e))
  unfolding run_repo_op finish_op exit_result
  run-refused req refuses files =
      rw (refuses files) (ends host.runtime.layout_made host.runtime.spawned host.runtime.waited)
    where
      ends :
          (made spawned waited : Bool)
          → (e : Error) × ((if not made
                then (files, err io)
                else if not spawned
                then (files, err repo)
                else finish_op waited (files, some (pos 2)))
              ≡ (files, err e))
      ends false _ _ = (io, refl)
      ends true false _ = (repo, refl)
      ends true true false = (repo, refl)
      ends true true true = (repo, refl)

  add-fails :
      (staged : List Text) (files : Files)
      → Ensures files (container_add host ctx v staged) (λ u after. ⊥)
  unfolding container_add
  add-fails staged files =
      let run : List Text → Io Files Unit =
        λ names. run_repo_op host.runtime (add_request ctx v names) >>= (λ code. pure tt) in
      let Never : Unit → Files → Type 0 = λ u after. ⊥ in
      Ensures-bind files (made (host.mkdir (stage_dir ctx)) io)
        (λ u. copy_into host (stage_dir ctx) (λ name. name) staged >>= run) Never
        (λ u t h.
          Ensures-bind t (copy_into host (stage_dir ctx) (λ name. name) staged) run Never
            (λ names t2 h2.
              Ensures-bind t2 (run_repo_op host.runtime (add_request ctx v names)) (λ code. pure tt)
                Never
                (λ code t3 h3.
                  let (e, refused) = run-refused (add_request ctx v names) (add-Refuses names) t2 in
                  absurd (ground arith))))

  remove-fails :
      (pkgname : Text) (files : Files)
      → (e : Error) × (container_remove host ctx v pkgname files ≡ (files, err e))
  unfolding container_remove
  remove-fails pkgname files =
      let (e, refused) =
        run-refused (remove_request ctx v pkgname) (remove-Refuses pkgname) files in
      (e, ap (λ r. proceed r (λ code. pure tt)) refused)

  publish_files-fails :
      (srcs : List Text) (files : Files)
      → Ensures files (publish_files host ctx srcs v (container_repo_ops host)) (λ p after. ⊥)
  unfolding publish_files container_repo_ops
  publish_files-fails srcs files =
      let dir = arch_subdir ctx v in
      let rest : List Text → Io Files Published =
        λ staged. container_add host ctx v staged >> sign_and_send host ctx v staged in
      let Never : Published → Files → Type 0 = λ p after. ⊥ in
      Ensures-bind files (made (host.mkdir dir) io)
        (λ u. copy_into host dir (join dir) srcs >>= rest) Never
        (λ u t h. Ensures-bind t (copy_into host dir (join dir) srcs) rest Never (λ staged t2 h2.
          Ensures-bind t2 (container_add host ctx v staged) (λ u. sign_and_send host ctx v staged)
            Never (λ u t3 h3. absurd (add-fails staged t2 u t3 h3))))

  publish-fails :
      (srcs : List Text) (files : Files) → (e : Error) × ((publish host ctx srcs v files).1 ≡ err e)
  unfolding publish publish_with
  publish-fails [] files = (build, refl)
  publish-fails (s ∷ ss) files =
      let end = publish_files host ctx (s ∷ ss) v (container_repo_ops host) files in
      elim (Result-cases (end.1)) [
        | inr failed ↦ failed
        | inl (p, done) ↦
            absurd (publish_files-fails (s ∷ ss) files p (end.0) (ap (λ r. (end.0, r)) done))
      ]

-- With `build.sh` in the container, and the repository's directory seen there at the mount point only,
-- no publishing succeeds; and every removal fails with the files as they were.
pub publish-refused :
    (image : Image) (host : Host)
    → host.runtime.script ≡ build_sh image
    → (ctx : RepoCtx) (v : Variant) → IsUnseen image ctx v
    → (pkg_files : List Text) (pkg : PkgName) (files : Files)
    → ((e : Error) × ((publish host ctx pkg_files v files).1 ≡ err e))
      × ((e : Error) × (remove host ctx pkg v files ≡ (files, err e)))
unfolding remove remove_with container_repo_ops
publish-refused image host runs ctx v unseen pkg_files pkg files =
    let (e, failed) = remove-fails image host runs ctx v unseen pkg.as_str files in
    (
      publish-fails image host runs ctx v unseen pkg_files files,
      (e, ap (λ r. proceed r (λ u. resign host ctx (db_path_for ctx v))) failed),
    )
