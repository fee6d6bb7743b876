-- ===== src/Builder.antt =====
-- crates/paur-builder/src/lib.rs: the container runs of the builds.
pub mod Laws
pub mod RepoOps
pub mod Local
use paur.Prelude.{
  ℕ, ℤ, pos, negsuc, suc, ◌+◌, Bool, true, false, not, ◌&&◌, ◌||◌, Option, none, some, List, [],
  ◌∷◌, ◌++◌, map, ◌==◌, ltb, if◌then◌else◌, unwrap_or,
}
use mathlib.Core.List.{reverse}
use paur.Prelude.Text.{Text, codes, text_eq}
use paur.Prelude.Splitting.{contains, strip_prefix}
use paur.Prelude.Tables.{select}
use paur.Prelude.Results.{Result, ok, err, build, io, ◌>>=◌}
use paur.Core.Name.{PkgName}
use paur.Core.Flags.{PackageBuildFlags}
use paur.Core.Variants.{Variant, as_paur_march}
use paur.Aur.Info.{SrcInfo}
use paur.Aur.Srcinfo.{Parsed, parsed, refused, parse}

-- `ContainerRuntime` of crates/paur-core/src/config.rs
pub data ContainerRuntime : Type 0 where
  docker podman : ContainerRuntime

unfoldable pub binary : ContainerRuntime → Text
binary docker = codes "docker"
binary podman = codes "podman"

pub record BuildRequest : Type 0 where
  pub pkg : PkgName
  pub aur_url : Text
  pub work_dir : Text
  pub ccache_dir : Text
  pub runtime : ContainerRuntime
  pub image : Text
  pub flags : PackageBuildFlags
  pub variant : Variant

pub record BuildOutcome : Type 0 where
  pub exit_code : ℤ
  pub pkg_files : List Text
  pub srcinfo : Option SrcInfo
  pub cancelled : Bool

-- A directory, ready for a name behind it: an empty path adds no slash, and neither does one that ends
-- in a slash.
unfoldable pub as_parent : Text → Text
as_parent [] = []
as_parent (c ∷ []) = if c == b'/' then c ∷ [] else c ∷ codes "/"
as_parent (c ∷ d ∷ dir) = c ∷ as_parent (d ∷ dir)

-- `Path::join` of a relative name.
unfoldable pub join : Text → Text → Text
unfolding as_parent
join dir name = as_parent dir ++ name

march_args : Option Text → List Text
march_args none = []
march_args (some level) = codes "-e" ∷ (codes "PAUR_MARCH=" ++ level) ∷ []

-- The arguments of the command that `run_in_container` spawns.
unfoldable pub run_args : BuildRequest → List Text
unfolding march_args
run_args req =
    codes "run" ∷ codes "--rm" ∷ codes "-v" ∷ (req.work_dir ++ codes ":/work") ∷ []
    ++ ((if req.flags.no_ccache
          then []
          else codes "-v"
            ∷ (req.ccache_dir ++ codes ":/ccache")
            ∷ codes "-e"
            ∷ codes "CCACHE_DIR=/ccache"
            ∷ [])
        ++ ((if req.flags.low_memory then codes "-e" ∷ codes "MAKEFLAGS=-j2" ∷ [] else [])
            ++ ((if req.flags.rust_codegen_units_1
                  then codes "-e" ∷ codes "PAUR_RUST_CGU=1" ∷ []
                  else [])
                ++ (march_args (as_paur_march req.variant)
                    ++ req.image ∷ req.pkg.as_str ∷ req.aur_url ∷ []))))

-- `ends_with`
unfoldable pub ends_with : Text → Text → Bool
unfolding strip_prefix
ends_with suffix s = elim (strip_prefix (reverse suffix) (reverse s)) [
  | none ↦ false
  | some r ↦ true
]

unfoldable pub is_artifact : Text → Bool
unfolding ends_with contains
is_artifact name = ends_with (codes ".pkg.tar") name || contains (codes ".pkg.tar.") name

-- The order of file names.
unfoldable pub text_leb : Text → Text → Bool
text_leb [] t = true
text_leb (c ∷ s) [] = false
text_leb (c ∷ s) (d ∷ t) = let rest = text_leb s t in ltb c d || c == d && rest

unfoldable pub insert_name : Text → List Text → List Text
unfolding text_leb
insert_name x [] = x ∷ []
insert_name x (y ∷ ys) =
    let rest = insert_name x ys in if text_leb x y then x ∷ y ∷ ys else y ∷ rest

unfoldable pub sort_names : List Text → List Text
unfolding insert_name
sort_names [] = []
sort_names (x ∷ xs) = insert_name x (sort_names xs)

-- What the runtime and the file system do with one request. Each `Bool` says whether that call
-- succeeded.
pub record Container : Type 0 where
  pub layout_made : Bool  -- `create_dir_all` and `set_permissions`
  pub spawned : Bool
  pub lines : List Text  -- what it prints, in the order in which the lines reach the sink
  pub cancel_first : Bool  -- the token fires before the container exits
  pub waited : Bool
  pub code : Option ℤ  -- `status.code()`, `none` if a signal ended it
  pub out_names : Option (List Text)  -- `read_dir(out)`
  pub srcinfo_text : Option Text  -- `src/.SRCINFO`, if it is a file that can be read

unfoldable pub list_artifacts : Text → Option (List Text) → Result (List Text)
unfolding select is_artifact sort_names join
list_artifacts out_dir none = err io
list_artifacts out_dir (some names) =
    ok (map (join out_dir) (sort_names (select is_artifact names)))

-- `.and_then(|s| parse(&s).ok())`
read_srcinfo : Option Text → Option SrcInfo
unfolding parse
read_srcinfo none = none
read_srcinfo (some s) = elim (parse s) [ parsed i ↦ some i | refused e ↦ none ]

abbrev pub is_zero : ℤ → Bool
is_zero (pos n) = n == 0
is_zero (negsuc n) = false

unfoldable pub outcome_of : BuildRequest → Container → Result BuildOutcome
unfolding list_artifacts read_srcinfo
outcome_of req c =
    let exit_code : ℤ = unwrap_or c.code (negsuc 0) in
    do
      pkg_files ←
          (if is_zero exit_code && not c.cancel_first
            then list_artifacts (join req.work_dir (codes "out")) c.out_names
            else ok [])
      ok (record {
        exit_code = exit_code;
        pkg_files = pkg_files;
        srcinfo = read_srcinfo c.srcinfo_text;
        cancelled = c.cancel_first;
      })

unfoldable pub run_in_container : BuildRequest → Container → Result BuildOutcome
unfolding outcome_of
run_in_container req c =
    if not c.layout_made
    then err io
    else if not c.spawned
    then err build
    else if not c.waited
    then err build
    else outcome_of req c
