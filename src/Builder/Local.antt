-- ===== src/Builder/Local.antt =====
-- `run_local_in_container` of crates/paur-builder/src/lib.rs, the run on a directory with a PKGBUILD.
pub mod Reports
use paur.Prelude.{
  ℤ, negsuc, Bool, true, false, not, Option, none, some, List, [], ◌∷◌, ◌++◌, if◌then◌else◌,
  unwrap_or,
}
use paur.Prelude.Text.{Text, codes}
use paur.Prelude.Results.{Result, ok, err, build, io, ◌>>=◌}
use paur.Builder.{BuildOutcome, Container, ContainerRuntime, binary, join, is_zero, list_artifacts}

pub record LocalBuildRequest : Type 0 where
  pub label : Text
  pub pkgbuild_dir : Text
  pub work_dir : Text
  pub tmp_build_dir : Text
  pub ccache_dir : Text
  pub runtime : ContainerRuntime
  pub image : Text

-- The program and the arguments of the command.
unfoldable pub local_command : LocalBuildRequest → List Text
unfolding binary join
local_command req =
    binary req.runtime
    ∷ codes "run"
    ∷ codes "--rm"
    ∷ codes "-v"
    ∷ (req.work_dir ++ codes ":/work")
    ∷ codes "-v"
    ∷ (req.tmp_build_dir ++ codes ":/work/build:rw")
    ∷ codes "-v"
    ∷ (req.pkgbuild_dir ++ codes ":/work/src:ro")
    ∷ codes "-v"
    ∷ (join req.work_dir (codes "out") ++ codes ":/work/out")
    ∷ codes "-v"
    ∷ (req.ccache_dir ++ codes ":/ccache")
    ∷ codes "-e"
    ∷ codes "CCACHE_DIR=/ccache"
    ∷ req.image
    ∷ codes "local"
    ∷ []

unfoldable pub local_outcome : LocalBuildRequest → Container → Result BuildOutcome
unfolding list_artifacts join
local_outcome req c =
    let exit_code : ℤ = unwrap_or c.code (negsuc 0) in
    do
      pkg_files ←
          (if is_zero exit_code
            then list_artifacts (join req.work_dir (codes "out")) c.out_names
            else ok [])
      ok (record {
        exit_code = exit_code;
        pkg_files = pkg_files;
        srcinfo = none;
        cancelled = false;
      })

-- No token can cancel this run.
unfoldable pub run_local_in_container : LocalBuildRequest → Container → Result BuildOutcome
unfolding local_outcome
run_local_in_container req c =
    if not c.layout_made
    then err io
    else if not c.spawned
    then err build
    else if not c.waited
    then err build
    else local_outcome req c
