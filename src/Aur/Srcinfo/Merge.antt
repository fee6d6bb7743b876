-- ===== src/Aur/Srcinfo/Merge.antt =====
-- Overrides of crates/paur-aur/src/srcinfo.rs: `merge_from` and the view of one package.
use mathlib.Core.Option
use paur.Prelude.{◌≡◌, refl, ◌∙◌, ◌++◌, Option, none, some, List, [], ◌∷◌, arith, unwrap_or, ap}
use paur.Prelude.Text.{Text, codes}
use paur.Aur.Info.{
  PkgInfo, no_info, get_package, over_list, over_option, merge_from, full_version, full_version_of,
  version_text, epoch_prefix,
}
use paur.Aur.Srcinfo.{propagate}

over_list_assoc : (a b c : List Text) → over_list (over_list a b) c ≡ over_list a (over_list b c)
unfolding over_list
over_list_assoc a b [] = refl
over_list_assoc a b (x ∷ c) = refl

over_option_assoc :
    (a b c : Option Text) → over_option (over_option a b) c ≡ over_option a (over_option b c)
unfolding over_option
over_option_assoc a b none = refl
over_option_assoc a b (some x) = refl

over_list-nil : (a : List Text) → over_list [] a ≡ a
unfolding over_list
over_list-nil [] = refl
over_list-nil (x ∷ a) = refl

over_option-none : (a : Option Text) → over_option none a ≡ a
unfolding over_option
over_option-none none = refl
over_option-none (some x) = refl

over_list_self : (a : List Text) → over_list a a ≡ a
unfolding over_list
over_list_self [] = refl
over_list_self (x ∷ a) = refl

over_option_self : (a : Option Text) → over_option a a ≡ a
unfolding over_option
over_option_self none = refl
over_option_self (some x) = refl

ruleset over_laws = (
  over_list_assoc, over_option_assoc, over_list-nil, over_option-none, over_list_self,
  over_option_self,
)

-- Layers of attributes can be merged in any grouping, a layer that sets nothing changes nothing, on
-- either side, and merging a layer twice is merging it once.
pub merge_from-laws :
    (a b c : PkgInfo)
    → (merge_from (merge_from a b) c ≡ merge_from a (merge_from b c))
      × (merge_from a no_info ≡ a)
      × (merge_from no_info a ≡ a)
      × (merge_from a a ≡ a)
unfolding merge_from
merge_from-laws a b c =
    (simp over_laws, unfold over_list over_option in refl, simp over_laws, simp over_laws)

get_package-propagate :
    (base : PkgInfo) (pkg : Text) (ps : List (Text × PkgInfo))
    → get_package pkg (propagate base ps) ≡ Option.map (merge_from base) (get_package pkg ps)
unfolding get_package propagate
get_package-propagate base pkg [] = refl
get_package-propagate base pkg ((k, info) ∷ ps) = ground (arith, get_package-propagate base pkg ps)

-- A key of a package: the block of the package has it over the base, and a package without a block has
-- that of the base.
abbrev pub first_of : Option Text → Option Text → Option Text
first_of none base = base
first_of (some x) base = some x

abbrev pub key_of : (PkgInfo → Option Text) → PkgInfo → Option PkgInfo → Option Text
key_of key base none = key base
key_of key base (some block) = first_of (key block) (key base)

-- `epoch:pkgver-pkgrel`, without an epoch that is missing or empty.
abbrev pub shown : Option Text → Option Text → Option Text → Option Text
shown (some ver) (some rel) none = some (ver ++ codes "-" ++ rel)
shown (some ver) (some rel) (some []) = some (ver ++ codes "-" ++ rel)
shown (some ver) (some rel) (some (c ∷ e)) = some ((c ∷ e) ++ codes ":" ++ ver ++ codes "-" ++ rel)
shown _ _ _ = none

over_option-first : (a b : Option Text) → over_option a b ≡ first_of b a
unfolding over_option
over_option-first a none = refl
over_option-first a (some x) = refl

version_text-shown :
    (ver rel epoch : Option Text) → version_text ver rel epoch ≡ shown ver rel epoch
unfolding version_text epoch_prefix
version_text-shown none rel epoch = refl
version_text-shown (some ver) none epoch = refl
version_text-shown (some ver) (some rel) none = refl
version_text-shown (some ver) (some rel) (some []) = refl
version_text-shown (some ver) (some rel) (some (c ∷ e)) = refl

-- The version of a package is put together from its version, its release and its epoch, each read from
-- the package's override block if the block sets it, and from the base otherwise; there is none without
-- a version and a release, and an empty epoch counts as none.
pub full_version_of-propagate :
    (base : PkgInfo) (pkg : Text) (ps : List (Text × PkgInfo))
    → full_version_of pkg (record { base = base; packages = propagate base ps })
      ≡ shown
          (key_of (λ i. i.pkgver) base (get_package pkg ps))
          (key_of (λ i. i.pkgrel) base (get_package pkg ps))
          (key_of (λ i. i.epoch) base (get_package pkg ps))
unfolding full_version_of full_version merge_from
full_version_of-propagate base pkg ps =
    ap (λ o. full_version (unwrap_or o base)) (get_package-propagate base pkg ps)
    ∙ by_block (get_package pkg ps)
  where
    by_block :
        (q : Option PkgInfo)
        → full_version (unwrap_or (Option.map (merge_from base) q) base)
          ≡ shown
              (key_of (λ i. i.pkgver) base q)
              (key_of (λ i. i.pkgrel) base q)
              (key_of (λ i. i.epoch) base q)
    by_block none = version_text-shown base.pkgver base.pkgrel base.epoch
    by_block (some block) =
        version_text-shown (over_option base.pkgver block.pkgver)
          (over_option base.pkgrel block.pkgrel) (over_option base.epoch block.epoch)
        ∙ rw
            (
              over_option-first base.pkgver block.pkgver,
              over_option-first base.pkgrel block.pkgrel,
              over_option-first base.epoch block.epoch,
            )
            refl
