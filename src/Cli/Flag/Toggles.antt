-- ===== src/Cli/Flag/Toggles.antt =====
-- The variants that `flag` of crates/paur-cli/src/cmd.rs makes of the current ones.
use paur.Prelude.{◌≡◌, refl, ap, Bool, true, false, not, List, [], ◌∷◌, arith, if◌then◌else◌}
use paur.Core.Variants.{Variant, default, v3, v4, PackageVariants, is_active, turn_on, turn_off}
use paur.Core.Variants.Laws.{variant_eq}
use paur.Cli.Flag.{toggle, updated_variants}

-- The switches of a variant in a list, from a state on.
abbrev pub switched : Variant → List Variant → Bool → Bool
switched w [] b = b
switched w (v ∷ vs) b = switched w vs (if variant_eq w v then not b else b)

-- After the loop, a variant other than default is active exactly if it was active and is given an even
-- number of times, or was not active and is given an odd number of times; default stays active.
pub updated_variants-is_active :
    (vs : List Variant) (p : PackageVariants)
    → p.default ≡ true
    → ((updated_variants vs p).default ≡ true)
      × ((updated_variants vs p).v3 ≡ switched v3 vs p.v3)
      × ((updated_variants vs p).v4 ≡ switched v4 vs p.v4)
unfolding updated_variants toggle is_active turn_on turn_off variant_eq
updated_variants-is_active [] p h = (h, refl, refl)
updated_variants-is_active (default ∷ vs) p h =
    let kept : toggle p default ≡ p = ground arith in
    let next : updated_variants (default ∷ vs) p ≡ updated_variants vs p =
      ap (updated_variants vs) kept in
    rw next (updated_variants-is_active vs p h)
updated_variants-is_active (v3 ∷ vs) p h =
    let flipped : toggle p v3 ≡ record p { v3 = not p.v3 } = by_bool p.v3 in
    let next : updated_variants (v3 ∷ vs) p ≡ updated_variants vs (record p { v3 = not p.v3 }) =
      ap (updated_variants vs) flipped in
    rw next (updated_variants-is_active vs (record p { v3 = not p.v3 }) h)
  where
    by_bool : (x : Bool) → toggle (record p { v3 = x }) v3 ≡ record p { v3 = not x }
    by_bool true = refl
    by_bool false = refl
updated_variants-is_active (v4 ∷ vs) p h =
    let flipped : toggle p v4 ≡ record p { v4 = not p.v4 } = by_bool p.v4 in
    let next : updated_variants (v4 ∷ vs) p ≡ updated_variants vs (record p { v4 = not p.v4 }) =
      ap (updated_variants vs) flipped in
    rw next (updated_variants-is_active vs (record p { v4 = not p.v4 }) h)
  where
    by_bool : (x : Bool) → toggle (record p { v4 = x }) v4 ≡ record p { v4 = not x }
    by_bool true = refl
    by_bool false = refl
