-- ===== src/Cli/Flag.antt =====
-- `flag` of crates/paur-cli/src/cmd.rs: it reads the package, changes what the user gave and sends what
-- is different.
pub mod Toggles
pub mod Stored
pub mod Applies
use paur.Prelude.{
  ℕ, Bool, true, false, not, ◌&&◌, Option, none, some, List, [], ◌∷◌, map, if◌then◌else◌, is_empty,
  unwrap_or,
}
use paur.Prelude.Text.{Text}
use paur.Prelude.Results.{ok, err}
use paur.Core.Name as Name
use paur.Core.Flags.{PackageBuildFlags}
use paur.Core.Variants as Variants
use paur.Core.Variants.{Variant, PackageVariants, is_active, turn_on, turn_off, active}
use paur.Daemon.State.{App}
use paur.Daemon.Api.{PackageDto}
use paur.Daemon.Api.Packages.{get_package, set_package_flags, set_package_variants}
use paur.Cli.{CmdResult, failed, done, core, response, sent, AddPackageJson, with_body}

-- What the user gave, `--low-memory` and so on.
pub record Overrides : Type 0 where
  pub low_memory : Option Bool
  pub rust_codegen_units_1 : Option Bool
  pub no_ccache : Option Bool

-- each `if let Some(v)`
unfoldable pub updated_flags : Overrides → PackageBuildFlags → PackageBuildFlags
updated_flags o f = record {
  low_memory = unwrap_or o.low_memory f.low_memory;
  rust_codegen_units_1 = unwrap_or o.rust_codegen_units_1 f.rust_codegen_units_1;
  no_ccache = unwrap_or o.no_ccache f.no_ccache;
}

unfoldable pub toggle : PackageVariants → Variant → PackageVariants
unfolding is_active turn_on turn_off
toggle p v = if is_active p v then turn_off p v else turn_on p v

-- The loop over `variants`.
unfoldable pub updated_variants : List Variant → PackageVariants → PackageVariants
unfolding toggle
updated_variants [] p = p
updated_variants (v ∷ vs) p = updated_variants vs (toggle p v)

abbrev pub same : Bool → Bool → Bool
same true b = b
same false b = not b

-- The derived `PartialEq`.
unfoldable pub flags_eq : PackageBuildFlags → PackageBuildFlags → Bool
flags_eq f g =
    same f.low_memory g.low_memory
    && same f.rust_codegen_units_1 g.rust_codegen_units_1
    && same f.no_ccache g.no_ccache

unfoldable pub variants_eq : PackageVariants → PackageVariants → Bool
variants_eq p q = same p.default q.default && same p.v3 q.v3 && same p.v4 q.v4

unfoldable pub nothing_given : Overrides → List Variant → Bool
nothing_given o variants =
    is_none o.low_memory
    && is_none o.rust_codegen_units_1
    && is_none o.no_ccache
    && is_empty variants
  where
    is_none : Option Bool → Bool
    is_none none = true
    is_none (some b) = false

unfoldable pub send_flags : Text → PackageDto → PackageBuildFlags → App → App × CmdResult PackageDto
unfolding flags_eq set_package_flags response
send_flags name current updated a =
    if flags_eq updated current.pkg.build_flags
    then (a, done current)
    else sent (set_package_flags name updated a)

-- `set_variants` of the client sends the names of the variants that are active and nothing else.
unfoldable pub variants_json : List Variant → AddPackageJson
unfolding Variants.as_str
variants_json variants = record {
  name = none;
  auto_rebuild = none;
  variants = some (map Variants.as_str variants);
}

unfoldable pub patch_variants : ℕ → Text → List Variant → App → App × CmdResult PackageDto
unfolding variants_json with_body set_package_variants
patch_variants now name variants a =
    with_body (variants_json variants) (λ body. set_package_variants now name body.variants) a

unfoldable pub send_variants :
    ℕ
    → Text
    → PackageDto
    → PackageVariants
    → App × CmdResult PackageDto
    → App × CmdResult PackageDto
unfolding variants_eq patch_variants active
send_variants now name current updated (a, failed e) = (a, failed e)
send_variants now name current updated (a, done dto) =
    if variants_eq updated current.pkg.variants
    then (a, done dto)
    else patch_variants now name (active updated) a

unfoldable pub flag_found :
    ℕ → Text → Overrides → List Variant → PackageDto → App → App × CmdResult PackageDto
unfolding nothing_given send_flags send_variants updated_flags updated_variants
flag_found now name o variants current a =
    if nothing_given o variants
    then (a, done current)
    else send_variants now name current (updated_variants variants current.pkg.variants)
        (send_flags name current (updated_flags o current.pkg.build_flags) a)

-- `flag`, up to what is printed
unfoldable pub flag : ℕ → Text → Overrides → List Variant → App → App × CmdResult PackageDto
unfolding Name.new get_package response flag_found
flag now pkg o variants a = elim (Name.new pkg) [
  | err e ↦ (a, failed (core e))
  | ok name ↦ elim (response (get_package name.as_str a)) [
    | failed e ↦ (a, failed e)
    | done current ↦ flag_found now name.as_str o variants current a
  ]
]
