-- ===== src/Aur/Srcinfo.antt =====
-- crates/paur-aur/src/srcinfo.rs: the parser of `.SRCINFO`.
pub mod Merge
pub mod Accepts
use paur.Prelude.{
  ℕ, suc, ◌+◌, Bool, true, false, ◌||◌, Option, none, some, List, [], ◌∷◌, ◌++◌, map, ◌==◌,
  if◌then◌else◌, is_empty, is_some, head?, unwrap_or,
}
use paur.Prelude.Text.{Text, codes, text_eq, trim, trim_by}
use paur.Aur.Info.{PkgInfo, no_info, SrcInfo, merge_from}
use paur.Prelude.Splitting.{
  before, split_once, strip_suffix_char, split_at, split_whitespace, lines,
}

-- The keys that `apply_key` knows but `pkgname`; every other key, `pkgbase` among them, is ignored.
pub data Key : Type 0 where
  pkgver pkgrel epoch pkgdesc url arch license depends makedepends checkdepends optdepends source
        sha256sums sha512sums b2sums provides conflicts replaces ignored :
      Key

-- the match arms
unfoldable pub key_of : Text → Key
unfolding text_eq
key_of key =
    if text_eq key (codes "pkgver")
    then Key.pkgver
    else if text_eq key (codes "pkgrel")
    then Key.pkgrel
    else if text_eq key (codes "epoch")
    then Key.epoch
    else if text_eq key (codes "pkgdesc")
    then Key.pkgdesc
    else if text_eq key (codes "url")
    then Key.url
    else if text_eq key (codes "arch")
    then Key.arch
    else if text_eq key (codes "license")
    then Key.license
    else if text_eq key (codes "depends")
    then Key.depends
    else if text_eq key (codes "makedepends")
    then Key.makedepends
    else if text_eq key (codes "checkdepends")
    then Key.checkdepends
    else if text_eq key (codes "optdepends")
    then Key.optdepends
    else if text_eq key (codes "source")
    then Key.source
    else if text_eq key (codes "sha256sums")
    then Key.sha256sums
    else if text_eq key (codes "sha512sums")
    then Key.sha512sums
    else if text_eq key (codes "b2sums")
    then Key.b2sums
    else if text_eq key (codes "provides")
    then Key.provides
    else if text_eq key (codes "conflicts")
    then Key.conflicts
    else if text_eq key (codes "replaces")
    then Key.replaces
    else Key.ignored

-- their right sides
unfoldable pub set_key : Key → List Text → PkgInfo → PkgInfo
set_key Key.pkgver values t = record t { pkgver = head? values }
set_key Key.pkgrel values t = record t { pkgrel = head? values }
set_key Key.epoch values t = record t { epoch = head? values }
set_key Key.pkgdesc values t = record t { pkgdesc = head? values }
set_key Key.url values t = record t { url = head? values }
set_key Key.arch values t = record t { arch = t.arch ++ values }
set_key Key.license values t = record t { license = t.license ++ values }
set_key Key.depends values t = record t { depends = t.depends ++ values }
set_key Key.makedepends values t = record t { makedepends = t.makedepends ++ values }
set_key Key.checkdepends values t = record t { checkdepends = t.checkdepends ++ values }
set_key Key.optdepends values t = record t { optdepends = t.optdepends ++ values }
set_key Key.source values t = record t { source = t.source ++ values }
set_key Key.sha256sums values t = record t { sha256sums = t.sha256sums ++ values }
set_key Key.sha512sums values t = record t { sha512sums = t.sha512sums ++ values }
set_key Key.b2sums values t = record t { b2sums = t.b2sums ++ values }
set_key Key.provides values t = record t { provides = t.provides ++ values }
set_key Key.conflicts values t = record t { conflicts = t.conflicts ++ values }
set_key Key.replaces values t = record t { replaces = t.replaces ++ values }
set_key Key.ignored values t = t

-- The variables of the loop of `parse`.
pub record Parser : Type 0 where
  pub current_pkg : Option Text
  pub base : PkgInfo
  pub packages : List (Text × PkgInfo)

-- `packages.entry(name).or_default()`, then a change of the entry
unfoldable pub at_entry : Text → (PkgInfo → PkgInfo) → List (Text × PkgInfo) → List (Text × PkgInfo)
at_entry name f [] = (name, f no_info) ∷ []
at_entry name f ((k, info) ∷ ps) =
    let rest = at_entry name f ps in if text_eq k name then (k, f info) ∷ ps else (k, info) ∷ rest

-- `current_pkg.as_deref() != Some(name)`
abbrev is_current : Text → Option Text → Bool
is_current name none = false
is_current name (some c) = text_eq c name

apply_pkgname : List Text → Parser → Parser
unfolding at_entry
apply_pkgname [] p = p
apply_pkgname (name ∷ more) p =
    if is_empty p.base.pkgname || is_current name p.current_pkg
    then record p { base = record p.base { pkgname = name ∷ more } }
    else record p { current_pkg = some name; packages = at_entry name (λ info. info) p.packages }

apply_target : Key → List Text → Option Text → Parser → Parser
unfolding set_key at_entry
apply_target key values none p = record p { base = set_key key values p.base }
apply_target key values (some name) p = record p {
  packages = at_entry name (set_key key values) p.packages;
}

unfoldable pub apply_key : Text → List Text → Parser → Parser
unfolding apply_pkgname apply_target key_of
apply_key key values p =
    if text_eq key (codes "pkgname")
    then apply_pkgname values p
    else apply_target (key_of key) values p.current_pkg p

-- `c == '"' || c == '\''`
abbrev pub is_quote : ℕ → Bool
is_quote c = c == 34 || c == 39

-- The scalar form, and the error; the number is `lineno + 1`.
pub data ParseError : Type 0 where
  parse_error : ℕ → Text → ParseError

pub data Parsed {ℓ} (A : Type ℓ) : Type ℓ where
  parsed : A → Parsed A
  refused : ParseError → Parsed A

apply_scalar : ℕ → Text → Option (Text × Text) → Parser → Parsed Parser
unfolding apply_key trim_by
apply_scalar lineno raw none p = refused (parse_error (suc lineno) raw)
apply_scalar lineno raw (some (k, v)) p =
    parsed (apply_key (trim k) (trim_by is_quote (trim v) ∷ []) p)

-- The array form, if the line ends in `)` and has a `= (` in front of that.
abbrev pub array_parts : Text → Option (Text × Text)
array_parts line = elim (strip_suffix_char b')' line) [
  | none ↦ none
  | some rest ↦ split_at (codes "= (") rest
]

apply_line : ℕ → Text → Text → Option (Text × Text) → Parser → Parsed Parser
unfolding apply_key apply_scalar split_whitespace
apply_line lineno raw line (some (k, inside)) p =
    parsed (apply_key (trim k) (split_whitespace inside) p)
apply_line lineno raw line none p = apply_scalar lineno raw (split_once b'=' line) p

-- One round of the loop.
unfoldable pub parse_line : ℕ → Text → Parser → Parsed Parser
unfolding apply_line before trim strip_suffix_char split_at split_once
parse_line lineno raw p =
    let line = trim (before b'#' raw) in
    if is_empty line then parsed p else apply_line lineno raw line (array_parts line) p

unfoldable pub parse_lines : ℕ → List Text → Parser → Parsed Parser
unfolding parse_line
parse_lines lineno [] p = parsed p
parse_lines lineno (raw ∷ rest) p = elim (parse_line lineno raw p) [
  | refused e ↦ refused e
  | parsed q ↦ parse_lines (suc lineno) rest q
]

-- `for info in packages.values_mut()`
unfoldable pub propagate : PkgInfo → List (Text × PkgInfo) → List (Text × PkgInfo)
unfolding merge_from
propagate base [] = []
propagate base ((k, info) ∷ ps) = (k, merge_from base info) ∷ propagate base ps

abbrev pub no_parser : Parser
no_parser = record { current_pkg = none; base = no_info; packages = [] }

unfoldable pub parse : Text → Parsed SrcInfo
unfolding lines parse_lines propagate
parse input = elim (parse_lines 0 (lines input) no_parser) [
  | refused e ↦ refused e
  | parsed p ↦ parsed (record { base = p.base; packages = propagate p.base p.packages })
]
