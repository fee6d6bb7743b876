-- ===== src/Builder/RepoOps.antt =====
-- crates/paur-builder/src/lib.rs, `run_repo_op`, and the part of container/build.sh that it runs: the
-- updates of a repository's database in the container.
use paur.Prelude.{
  ℤ, pos, negsuc, Bool, not, ◌||◌, Option, none, some, List, [], ◌∷◌, ◌++◌, map, if◌then◌else◌,
  is_empty, any, unwrap_or, length, ◌==◌,
}
use paur.Prelude.Text.{Text, codes, text_eq}
use paur.Prelude.Results.{Result, ok, err, repo, io}
use paur.Prelude.Effects.{Io}
use paur.Prelude.Disk.{Files, unlink}
use paur.Builder.{ContainerRuntime, join, is_zero}

pub data RepoOp : Type 0 where
  add remove : RepoOp

unfoldable pub as_str : RepoOp → Text
as_str add = codes "repo"
as_str remove = codes "unrepo"

pub record RepoOpRequest : Type 0 where
  pub op : RepoOp
  pub arch_dir : Text
  pub stage_dir : Text
  pub db_name : Text
  pub names : List Text
  pub runtime : ContainerRuntime
  pub image : Text

-- `/work/stage/{n}`, or the name as it is
unfoldable pub name_arg : RepoOp → Text → Text
name_arg add n = codes "/work/stage/" ++ n
name_arg remove n = n

-- What follows the image on the command line: the arguments of `build.sh`.
unfoldable pub script_args : RepoOpRequest → List Text
unfolding as_str name_arg
script_args req = as_str req.op ∷ req.db_name ∷ req.arch_dir ∷ map (name_arg req.op) req.names

-- The directories of the host that the container sees, and where it sees them.
unfoldable pub mounts : RepoOpRequest → List (Text × Text)
mounts req = (req.arch_dir, codes "/work/repo") ∷ (req.stage_dir, codes "/work/stage") ∷ []

abbrev pub mount_args : List (Text × Text) → List Text
mount_args [] = []
mount_args ((host, target) ∷ ms) = codes "-v" ∷ (host ++ codes ":" ++ target) ∷ mount_args ms

unfoldable pub repo_op_args : RepoOpRequest → List Text
unfolding mounts script_args
repo_op_args req =
    codes "run" ∷ codes "--rm" ∷ mount_args (mounts req) ++ (req.image ∷ script_args req)

-- The image and the tools in it: the directories that are there besides the mounted ones, the
-- `repo-add` and `repo-remove` of pacman in a directory of the host, which give an exit code, the same
-- in a directory that only the container has, and the other modes of `build.sh`.
pub record Image : Type 0 where
  pub has_dir : Text → Bool
  pub tool : Text → Text → Text → List Text → Files → Files × ℤ
  pub tool_inside : Text → Text → List Text → ℤ
  pub builds : List Text → ℤ

unfoldable pub host_dir : List (Text × Text) → Text → Option Text
unfolding text_eq
host_dir [] dir = none
host_dir ((host, target) ∷ ms) dir = if text_eq target dir then some host else host_dir ms dir

-- `[[ -d dir ]]`
unfoldable pub is_dir : Image → List (Text × Text) → Text → Bool
unfolding text_eq
is_dir image ms dir = any (λ m. text_eq m.1 dir) ms || image.has_dir dir

-- From `cd "${arch_dir}"` on: the old signature goes, and then the tool runs.
unfoldable pub update_db : Image → Text → Text → List Text → Option Text → Files → Files × Option ℤ
unfolding unlink join
update_db image program db_name args none files =
    (files, some (image.tool_inside program db_name args))
update_db image program db_name args (some host) files =
    let (after, code) =
      image.tool program host db_name args (unlink (join host (db_name ++ codes ".sig")) files) in
    (after, some code)

-- `build_repo` and `build_unrepo` from their second test on.
unfoldable pub in_arch_dir :
    Image → List (Text × Text) → Text → Text → Text → List Text → Files → Files × Option ℤ
unfolding is_dir host_dir update_db
in_arch_dir image ms program db_name arch_dir args files =
    if is_dir image ms arch_dir
    then update_db image program db_name args (host_dir ms arch_dir) files
    else (files, some (pos 2))

unfoldable pub build_repo : Image → List (Text × Text) → List Text → Files → Files × Option ℤ
unfolding in_arch_dir
build_repo image ms (db_name ∷ arch_dir ∷ args) files =
    if is_empty db_name || is_empty arch_dir || is_empty args
    then (files, some (pos 2))
    else in_arch_dir image ms (codes "repo-add") db_name arch_dir args files
build_repo image ms _ files = (files, some (pos 1))

unfoldable pub build_unrepo : Image → List (Text × Text) → List Text → Files → Files × Option ℤ
unfolding in_arch_dir
build_unrepo image ms (db_name ∷ arch_dir ∷ args) files =
    if is_empty db_name || is_empty arch_dir || not (length args == 1)
    then (files, some (pos 2))
    else in_arch_dir image ms (codes "repo-remove") db_name arch_dir args files
build_unrepo image ms _ files = (files, some (pos 1))

-- The `case` at the end of the script.
unfoldable pub build_sh : Image → List (Text × Text) → List Text → Files → Files × Option ℤ
unfolding text_eq build_repo build_unrepo
build_sh image ms [] files = (files, some (image.builds []))
build_sh image ms (mode ∷ args) files =
    if text_eq mode (codes "repo")
    then build_repo image ms args files
    else if text_eq mode (codes "unrepo")
    then build_unrepo image ms args files
    else (files, some (image.builds (mode ∷ args)))

-- What the host does with one run. `script` says what the container does to the files of the host, and
-- its exit code, `none` if a signal ended it.
pub record Runtime : Type 0 where
  pub layout_made : Bool  -- `create_dir_all` and `set_permissions` of the two directories
  pub spawned : Bool
  pub waited : Bool
  pub script : List (Text × Text) → List Text → Files → Files × Option ℤ

unfoldable pub exit_result : Option ℤ → Result ℤ
exit_result code =
    let exit_code : ℤ = unwrap_or code (negsuc 0) in
    if is_zero exit_code then ok exit_code else err repo

unfoldable pub finish_op : Bool → Files × Option ℤ → Files × Result ℤ
unfolding exit_result
finish_op waited (files, code) = (files, if waited then exit_result code else err repo)

unfoldable pub run_repo_op : Runtime → RepoOpRequest → Io Files ℤ
unfolding finish_op mounts script_args
run_repo_op runtime req files =
    if not runtime.layout_made
    then (files, err io)
    else if not runtime.spawned
    then (files, err repo)
    else finish_op runtime.waited (runtime.script (mounts req) (script_args req) files)
