-- ===== src/Repo.antt =====
-- crates/paur-repo/src/lib.rs: the published repository, its updates and its signatures.
pub mod Paths
pub mod Signing
pub mod Signed
pub mod Fresh
pub mod Publishing
pub mod Container
pub mod Refused
pub mod Uploaded
use paur.Prelude.{
  ℕ, ℤ, Bool, true, false, not, Option, none, some, List, [], ◌∷◌, ◌++◌, map, if◌then◌else◌,
  is_empty, unwrap_or,
}
use paur.Prelude.Text.{Text, codes}
use paur.Prelude.Results.{Error, Result, ok, err, build, io, repo, gpg}
use paur.Prelude.Effects.{Io, pure, fail, ◌>>=◌, ◌>>◌, modify}
use paur.Prelude.Disk.{Files, unlink, remove_tree, exists, file_name}
use paur.Core.Name.{PkgName}
use paur.Core.Variants.{Variant, default, v3, v4}
use paur.Builder.{ContainerRuntime, join}
use paur.Builder.RepoOps.{RepoOpRequest, RepoOp, Runtime, run_repo_op}
use paur.S3.{S3Config, Reply, put, S3Result, failure, success}

pub record RepoCtx : Type 0 where
  pub repo_name : Text
  pub arch : Text
  pub repo_dir : Text
  pub gpg_home : Text
  pub gpg_key : Text
  pub container_runtime : ContainerRuntime
  pub builder_image : Text
  pub s3 : Option S3Config

-- What the host does: `create_dir_all`, `fs::copy` from one path to another, `gpg` with the home
-- directory and the arguments (`none` if it cannot be spawned, else whether it exits with 0), the
-- container runtime, and the replies of the object store to the attempts at a key.
pub record Host : Type 0 where
  pub mkdir : Text → Bool
  pub copy : Text → Text → Files → Files × Bool
  pub run_gpg : Text → List Text → Files → Files × Option Bool
  pub runtime : Runtime
  pub replies : Text → ℕ → Reply

-- `RepoOps`
pub record RepoOps : Type 0 where
  pub add : RepoCtx → Variant → List Text → Io Files Unit
  pub remove : RepoCtx → Variant → Text → Io Files Unit

unfoldable pub arch_dir : RepoCtx → Text
unfolding join
arch_dir ctx = join ctx.repo_dir ctx.arch

abbrev pub suffixed : Text → Variant → Text
suffixed name default = name
suffixed name v3 = name ++ codes "-v3"
suffixed name v4 = name ++ codes "-v4"

unfoldable pub arch_subdir : RepoCtx → Variant → Text
unfolding join
arch_subdir ctx v = join ctx.repo_dir (suffixed ctx.arch v)

unfoldable pub db_basename_for : RepoCtx → Variant → Text
db_basename_for ctx v = suffixed ctx.repo_name v ++ codes ".db.tar.gz"

unfoldable pub db_path_for : RepoCtx → Variant → Text
unfolding join arch_subdir db_basename_for
db_path_for ctx v = join (arch_subdir ctx v) (db_basename_for ctx v)

-- `push(".sig")`
abbrev pub sig_of : Text → Text
sig_of path = path ++ codes ".sig"

unfoldable pub db_sig_for : RepoCtx → Variant → Text
unfolding db_path_for
db_sig_for ctx v = sig_of (db_path_for ctx v)

abbrev pub stage_dir : RepoCtx → Text
unfolding join
stage_dir ctx = join ctx.repo_dir (codes ".stage")

unfoldable pub made : Bool → Error → Io Files Unit
made done e files = (files, if done then ok tt else err e)

unfoldable pub name_of : Text → Io Files Text
unfolding file_name
name_of src = elim (file_name src) [ none ↦ fail repo | some name ↦ pure name ]

unfoldable pub copy_file : Host → Text → Text → Io Files Unit
unfolding made
copy_file host src dst files = let (after, done) = host.copy src dst files in made done repo after

-- The loop that copies the sources into a directory, and what the caller keeps of each.
unfoldable pub copy_into : Host → Text → (Text → Text) → List Text → Io Files (List Text)
unfolding name_of copy_file join
copy_into host dir keep [] = pure []
copy_into host dir keep (src ∷ rest) = do
  name ← name_of src
  copy_file host src (join dir name)
  names ← copy_into host dir keep rest
  pure (keep name ∷ names)

abbrev pub add_request : RepoCtx → Variant → List Text → RepoOpRequest
unfolding arch_subdir db_basename_for
add_request ctx v names = record {
  op = RepoOp.add;
  arch_dir = arch_subdir ctx v;
  stage_dir = stage_dir ctx;
  db_name = db_basename_for ctx v;
  names = names;
  runtime = ctx.container_runtime;
  image = ctx.builder_image;
}

abbrev pub remove_request : RepoCtx → Variant → Text → RepoOpRequest
unfolding arch_subdir db_basename_for
remove_request ctx v pkgname = record {
  op = RepoOp.remove;
  arch_dir = arch_subdir ctx v;
  stage_dir = stage_dir ctx;
  db_name = db_basename_for ctx v;
  names = pkgname ∷ [];
  runtime = ctx.container_runtime;
  image = ctx.builder_image;
}

unfoldable pub container_add : Host → RepoCtx → Variant → List Text → Io Files Unit
unfolding made copy_into run_repo_op
container_add host ctx v pkg_files = do
  made (host.mkdir (stage_dir ctx)) io
  names ← copy_into host (stage_dir ctx) (λ name. name) pkg_files
  code ← run_repo_op host.runtime (add_request ctx v names)
  pure tt

unfoldable pub container_remove : Host → RepoCtx → Variant → Text → Io Files Unit
unfolding run_repo_op
container_remove host ctx v pkgname = do
  code ← run_repo_op host.runtime (remove_request ctx v pkgname)
  pure tt

-- `impl RepoOps for ContainerRepoOps`
abbrev pub container_repo_ops : Host → RepoOps
unfolding container_add container_remove
container_repo_ops host = record { add = container_add host; remove = container_remove host }

abbrev pub sign_args : Text → Text → List Text
sign_args keyid target =
    codes "--batch"
    ∷ codes "--yes"
    ∷ codes "--pinentry-mode"
    ∷ codes "loopback"
    ∷ codes "--passphrase"
    ∷ []
    ∷ codes "--local-user"
    ∷ keyid
    ∷ codes "--output"
    ∷ sig_of target
    ∷ codes "--detach-sign"
    ∷ target
    ∷ []

abbrev pub gpg_end : Files × Option Bool → Files × Result (Unit {0})
gpg_end (files, some true) = (files, ok tt)
gpg_end (files, _) = (files, err gpg)

unfoldable pub sign : Host → RepoCtx → Text → Io Files Unit
sign host ctx target files =
    gpg_end (host.run_gpg ctx.gpg_home (sign_args ctx.gpg_key target) files)

-- Each place that signs removes the old signature first.
unfoldable pub resign : Host → RepoCtx → Text → Io Files Unit
unfolding sign unlink
resign host ctx target = do modify (unlink (sig_of target)); sign host ctx target

unfoldable pub resign_all : Host → RepoCtx → List Text → Io Files Unit
unfolding resign
resign_all host ctx [] = pure tt
resign_all host ctx (pkg ∷ pkgs) = do resign host ctx pkg; resign_all host ctx pkgs

-- One call of `upload_path`: the object, the body if the file could be read, and the answer.
pub record Upload : Type 0 where
  pub key : Text
  pub content_type : Text
  pub body : Option Text
  pub answer : Result Text

abbrev pub put_answer : S3Result Text → Result Text
put_answer (failure e) = err repo
put_answer (success url) = ok url

-- Only a file that can be read is sent.
unfoldable pub upload_path : Host → S3Config → Text → Text → Text → Files → Upload
unfolding put
upload_path host cfg key content_type path files = record {
  key = key;
  content_type = content_type;
  body = files path;
  answer = elim (files path) [
    | none ↦ err repo
    | some bytes ↦ put_answer ((put cfg key (host.replies key)).1)
  ];
}

unfoldable pub key_dir : RepoCtx → Variant → Text
unfolding file_name arch_subdir
key_dir ctx v = unwrap_or (file_name (arch_subdir ctx v)) ctx.arch

abbrev pub if_there : Text → Files → Upload → List Upload
if_there path files upload = if exists path files then upload ∷ [] else []

unfoldable pub upload_named :
    Host → RepoCtx → S3Config → Variant → Files → Text → Option Text → List Upload
unfolding upload_path key_dir
upload_named host ctx cfg v files pkg none = []
upload_named host ctx cfg v files pkg (some name) =
    let key = key_dir ctx v ++ codes "/" ++ name in
    upload_path host cfg key (codes "application/zstd") pkg files
    ∷ if_there (sig_of pkg) files (
        upload_path host cfg (key ++ codes ".sig") (codes "application/pgp-signature") (sig_of pkg)
          files)

-- the loop over `staged`
unfoldable pub upload_pkgs : Host → RepoCtx → S3Config → Variant → Files → List Text → List Upload
unfolding upload_named file_name
upload_pkgs host ctx cfg v files [] = []
upload_pkgs host ctx cfg v files (pkg ∷ pkgs) =
    upload_named host ctx cfg v files pkg (file_name pkg) ++ upload_pkgs host ctx cfg v files pkgs

abbrev pub files_basename : RepoCtx → Variant → Text
files_basename ctx v = suffixed ctx.repo_name v ++ codes ".files.tar.gz"

abbrev pub slash : Text → Text → Text
slash dir name = dir ++ codes "/" ++ name

-- The uploads of a publishing, in their order.
unfoldable pub uploads :
    Host → RepoCtx → Variant → List Text → Files → Option S3Config → List Upload
unfolding upload_path upload_pkgs db_path_for db_basename_for arch_subdir join key_dir
uploads host ctx v staged files none = []
uploads host ctx v staged files (some cfg) =
    let files_path = join (arch_subdir ctx v) (files_basename ctx v) in
    upload_path host cfg (slash (key_dir ctx v) (db_basename_for ctx v))
        (codes "application/x-gzip") (db_path_for ctx v) files
      ∷ upload_pkgs host ctx cfg v files staged
    ++ if_there files_path files (
        upload_path host cfg (slash (key_dir ctx v) (files_basename ctx v))
          (codes "application/x-gzip") files_path files)

-- What a publishing gives back, and what it sent.
pub record Published : Type 0 where
  pub db_sig : Text
  pub sent : List Upload

unfoldable pub upload_all : Host → RepoCtx → Variant → List Text → Io Files Published
unfolding uploads db_sig_for
upload_all host ctx v staged files = (
  files,
  ok (record { db_sig = db_sig_for ctx v; sent = uploads host ctx v staged files ctx.s3 }),
)

-- From the update of the database on.
unfoldable pub sign_and_send : Host → RepoCtx → Variant → List Text → Io Files Published
unfolding resign db_path_for resign_all remove_tree upload_all
sign_and_send host ctx v staged = do
  resign host ctx (db_path_for ctx v)
  resign_all host ctx staged
  modify (remove_tree (stage_dir ctx))
  upload_all host ctx v staged

-- From the directory on, with files to publish.
unfoldable pub publish_files : Host → RepoCtx → List Text → Variant → RepoOps → Io Files Published
unfolding made copy_into arch_subdir join sign_and_send
publish_files host ctx pkg_files v ops = do
  made (host.mkdir (arch_subdir ctx v)) io
  staged ← copy_into host (arch_subdir ctx v) (join (arch_subdir ctx v)) pkg_files
  ops.add ctx v staged
  sign_and_send host ctx v staged

unfoldable pub publish_with : Host → RepoCtx → List Text → Variant → RepoOps → Io Files Published
unfolding publish_files
publish_with host ctx pkg_files v ops =
    if is_empty pkg_files then fail build else publish_files host ctx pkg_files v ops

unfoldable pub publish : Host → RepoCtx → List Text → Variant → Io Files Published
unfolding publish_with
publish host ctx pkg_files v = publish_with host ctx pkg_files v (container_repo_ops host)

unfoldable pub remove_with : Host → RepoCtx → PkgName → Variant → RepoOps → Io Files Unit
unfolding resign db_path_for
remove_with host ctx pkg v ops = do
  ops.remove ctx v (pkg.as_str)
  resign host ctx (db_path_for ctx v)

unfoldable pub remove : Host → RepoCtx → PkgName → Variant → Io Files Unit
unfolding remove_with
remove host ctx pkg v = remove_with host ctx pkg v (container_repo_ops host)
