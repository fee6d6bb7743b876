-- ===== src/Core/Variants.antt =====
-- crates/paur-core/src/build_flags.rs, `Variant` and `PackageVariants`.
pub mod Laws
use paur.Prelude.{Bool, true, false, not, ◌&&◌, Option, none, some, List, [], ◌∷◌, if◌then◌else◌}
use paur.Prelude.Tables.{select}
use paur.Prelude.Text.{Text, codes, text_eq}

pub data Variant : Type 0 where
  default v3 v4 : Variant

unfoldable pub as_str : Variant → Text
as_str default = codes "default"
as_str v3 = codes "v3"
as_str v4 = codes "v4"

unfoldable pub as_paur_march : Variant → Option Text
as_paur_march default = none
as_paur_march v3 = some (codes "v3")
as_paur_march v4 = some (codes "v4")

-- `Variant::all`
abbrev pub all_variants : List Variant
all_variants = default ∷ v3 ∷ v4 ∷ []

unfoldable pub parse : Text → Option Variant
unfolding text_eq
parse s =
    if text_eq s (codes "default")
    then some default
    else if text_eq s (codes "v3")
    then some v3
    else if text_eq s (codes "v4")
    then some v4
    else none

pub record PackageVariants : Type 0 where
  pub default : Bool
  pub v3 : Bool
  pub v4 : Bool

-- `impl Default`
abbrev pub default_variants : PackageVariants
default_variants = record { default = true; v3 = false; v4 = false }

unfoldable pub is_default_only : PackageVariants → Bool
is_default_only p = not p.v3 && not p.v4

unfoldable pub is_active : PackageVariants → Variant → Bool
is_active p default = p.default
is_active p v3 = p.v3
is_active p v4 = p.v4

unfoldable pub active : PackageVariants → List Variant
unfolding is_active select
active p = select (is_active p) all_variants

unfoldable pub turn_on : PackageVariants → Variant → PackageVariants
turn_on p default = record p { default = true }
turn_on p v3 = record p { v3 = true }
turn_on p v4 = record p { v4 = true }

unfoldable pub turn_off : PackageVariants → Variant → PackageVariants
turn_off p default = p
turn_off p v3 = record p { v3 = false }
turn_off p v4 = record p { v4 = false }
