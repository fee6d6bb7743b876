-- ===== src/Aur/Info.antt =====
-- What crates/paur-aur/src/srcinfo.rs reads from a `.SRCINFO`: the attributes, the override blocks and
-- the version.
use paur.Prelude.{Option, none, some, List, [], ◌∷◌, ◌++◌, if◌then◌else◌, is_empty, unwrap_or}
use paur.Prelude.Text.{Text, codes, text_eq}

pub record PkgInfo : Type 0 where
  pub pkgname : List Text
  pub pkgver : Option Text
  pub pkgrel : Option Text
  pub epoch : Option Text
  pub pkgdesc : Option Text
  pub arch : List Text
  pub url : Option Text
  pub license : List Text
  pub depends : List Text
  pub makedepends : List Text
  pub checkdepends : List Text
  pub optdepends : List Text
  pub source : List Text
  pub sha256sums : List Text
  pub sha512sums : List Text
  pub b2sums : List Text
  pub provides : List Text
  pub conflicts : List Text
  pub replaces : List Text

-- `#[derive(Default)]`
abbrev pub no_info : PkgInfo
no_info = record {
  pkgname = [];
  pkgver = none;
  pkgrel = none;
  epoch = none;
  pkgdesc = none;
  arch = [];
  url = none;
  license = [];
  depends = [];
  makedepends = [];
  checkdepends = [];
  optdepends = [];
  source = [];
  sha256sums = [];
  sha512sums = [];
  b2sums = [];
  provides = [];
  conflicts = [];
  replaces = [];
}

-- The `BTreeMap` of the packages is an association list.
pub record SrcInfo : Type 0 where
  pub base : PkgInfo
  pub packages : List (Text × PkgInfo)

unfoldable pub get_package : Text → List (Text × PkgInfo) → Option PkgInfo
get_package name [] = none
get_package name ((k, info) ∷ ps) = if text_eq k name then some info else get_package name ps

-- `filter(|e| !e.is_empty())`, then `format!("{e}:")`
unfoldable pub epoch_prefix : Option Text → Text
epoch_prefix none = []
epoch_prefix (some e) = if is_empty e then [] else e ++ codes ":"

unfoldable pub version_text : Option Text → Option Text → Option Text → Option Text
unfolding epoch_prefix
version_text (some ver) (some rel) epoch = some (epoch_prefix epoch ++ ver ++ codes "-" ++ rel)
version_text _ _ epoch = none

-- the free function `full_version`
unfoldable pub full_version : PkgInfo → Option Text
unfolding version_text
full_version info = version_text info.pkgver info.pkgrel info.epoch

unfoldable pub full_version_of : Text → SrcInfo → Option Text
unfolding full_version get_package
full_version_of pkg s = full_version (unwrap_or (get_package pkg s.packages) s.base)

-- `if !other.x.is_empty()` and `if other.x.is_some()`
unfoldable pub over_list : List Text → List Text → List Text
over_list self [] = self
over_list self (x ∷ xs) = x ∷ xs

unfoldable pub over_option : Option Text → Option Text → Option Text
over_option self none = self
over_option self (some x) = some x

unfoldable pub merge_from : PkgInfo → PkgInfo → PkgInfo
unfolding over_list over_option
merge_from self other = record {
  pkgname = over_list self.pkgname other.pkgname;
  pkgver = over_option self.pkgver other.pkgver;
  pkgrel = over_option self.pkgrel other.pkgrel;
  epoch = over_option self.epoch other.epoch;
  pkgdesc = over_option self.pkgdesc other.pkgdesc;
  arch = over_list self.arch other.arch;
  url = over_option self.url other.url;
  license = over_list self.license other.license;
  depends = over_list self.depends other.depends;
  makedepends = over_list self.makedepends other.makedepends;
  checkdepends = over_list self.checkdepends other.checkdepends;
  optdepends = over_list self.optdepends other.optdepends;
  source = over_list self.source other.source;
  sha256sums = over_list self.sha256sums other.sha256sums;
  sha512sums = over_list self.sha512sums other.sha512sums;
  b2sums = over_list self.b2sums other.b2sums;
  provides = over_list self.provides other.provides;
  conflicts = over_list self.conflicts other.conflicts;
  replaces = over_list self.replaces other.replaces;
}
