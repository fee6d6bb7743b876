-- ===== src/Core/Flags.antt =====
-- crates/paur-core/src/build_flags.rs, `PackageBuildFlags`: the build tuning of a package.
use paur.Prelude.{◌≡◌, refl, Bool, true, false, not, ◌&&◌, arith, if◌then◌else◌}

pub record PackageBuildFlags : Type 0 where
  pub low_memory : Bool
  pub rust_codegen_units_1 : Bool
  pub no_ccache : Bool

-- `#[derive(Default)]`
abbrev pub no_flags : PackageBuildFlags
no_flags = record { low_memory = false; rust_codegen_units_1 = false; no_ccache = false }

unfoldable pub is_empty : PackageBuildFlags → Bool
is_empty f = not f.low_memory && not f.rust_codegen_units_1 && not f.no_ccache

-- each `if other.x { self.x = true; }`
unfoldable pub merge_from : PackageBuildFlags → PackageBuildFlags → PackageBuildFlags
merge_from self other = record {
  low_memory = if other.low_memory then true else self.low_memory;
  rust_codegen_units_1 = if other.rust_codegen_units_1 then true else self.rust_codegen_units_1;
  no_ccache = if other.no_ccache then true else self.no_ccache;
}

unfoldable pub replace_from : PackageBuildFlags → PackageBuildFlags → PackageBuildFlags
replace_from self other = record {
  low_memory = other.low_memory;
  rust_codegen_units_1 = other.rust_codegen_units_1;
  no_ccache = other.no_ccache;
}

-- Merging sets a flag exactly if one of the two has it, so it can never clear one, the order of two
-- merges does not matter, and a second merge of the same flags changes nothing; replacing, in
-- contrast, forgets what was there.
pub merge-replace :
    (a b c : PackageBuildFlags)
    → (merge_from a b ≡ merge_from b a)
      × (merge_from (merge_from a b) c ≡ merge_from a (merge_from b c))
      × (merge_from (merge_from a b) b ≡ merge_from a b)
      × (is_empty (merge_from a b) ≡ (is_empty a && is_empty b))
      × (replace_from (merge_from a b) c ≡ c)
unfolding merge_from replace_from is_empty
merge-replace a b c = (ground arith, ground arith, ground arith, ground arith, refl)
