-- ===== src/Core/Variants/Laws.antt =====
-- The tags of the variants, and the sets of them: crates/paur-core/src/build_flags.rs.
use paur.Prelude.{◌≡◌, refl, ◌↔◌, Bool, true, false, ◌&&◌, some, arith, if◌then◌else◌}
use paur.Prelude.Text.{Text, codes, eq_of_text_eq}
use paur.Core.Variants.{
  Variant, default, v3, v4, as_str, parse, PackageVariants, is_active, turn_on, turn_off,
}

unfoldable pub variant_eq : Variant → Variant → Bool
variant_eq default default = true
variant_eq v3 v3 = true
variant_eq v4 v4 = true
variant_eq _ _ = false

parse-as_str_self : (v : Variant) → parse (as_str v) ≡ some v
unfolding as_str parse
parse-as_str_self default = refl
parse-as_str_self v3 = refl
parse-as_str_self v4 = refl

as_str_of_parse : (s : Text) (v : Variant) → parse s ≡ some v → s ≡ as_str v
unfolding as_str parse
as_str_of_parse s v h = ground (
  arith,
  eq_of_text_eq s (codes "default"),
  eq_of_text_eq s (codes "v3"),
  eq_of_text_eq s (codes "v4"),
)

-- A text parses to a variant exactly when it is the variant's tag.
pub parse-as_str : (s : Text) (v : Variant) → (parse s ≡ some v) ↔ (s ≡ as_str v)
parse-as_str s v = (as_str_of_parse s v, λ e. rw e (parse-as_str_self v))

-- After `turn_on v` exactly `v` and what was active before is active; after `turn_off v` exactly what
-- was active before but `v`, save that `default` stays as it was.
pub is_active-turn :
    (p : PackageVariants) (v w : Variant)
    → (is_active (turn_on p v) w ≡ (if variant_eq v w then true else is_active p w))
      × (is_active (turn_off p v) w
          ≡ (if variant_eq v w then is_active p w && variant_eq v default else is_active p w))
unfolding is_active turn_on turn_off variant_eq
is_active-turn p v w = ground arith
