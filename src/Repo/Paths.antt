-- ===== src/Repo/Paths.antt =====
-- The paths of crates/paur-repo/src/lib.rs: which of them differ.
use paur.Prelude.{
  ◌≡◌, refl, sym, ap, ◌∙◌, subst, ◌≢◌, length, length-append, Bool, true, false, Option, none, some,
  [], ◌∷◌, ◌++◌, arith, ◌==◌,
}
use mathlib.Core.List.{reverse, append_assoc, reverse-append}
use paur.Prelude.Text.{Text, codes}
use paur.Prelude.Splitting.{strip_prefix}
use paur.Prelude.Disk.{append-cancel, strip_prefix-append, strip_prefix-cancel}
use paur.Core.Variants.{Variant, default, v3, v4}
use paur.Prelude.{Bool-cases, inl, inr, ℕ}
use paur.Prelude.Disk.{file_name}
use paur.Prelude.Disk.Names.{file_name-alone, file_name-copy}
use paur.Builder.{as_parent, join, ends_with}
use paur.Repo.{RepoCtx, arch_subdir, db_basename_for, sig_of, stage_dir, suffixed}

abbrev pub found : Option Text → Bool
found none = false
found (some r) = true

ends_with-eq : (p s : Text) → ends_with p s ≡ found (strip_prefix (reverse p) (reverse s))
unfolding ends_with
ends_with-eq p s = ground arith

pub ends_with-append :
    (p s t : Text)
    → ends_with p (s ++ t) ≡ found (strip_prefix (reverse p) (reverse t ++ reverse s))
ends_with-append p s t =
    subst (λ r. ends_with p (s ++ t) ≡ found (strip_prefix (reverse p) r)) (reverse-append s t)
      (ends_with-eq p (s ++ t))

pub ends_with-sig : (name : Text) → ends_with (codes ".sig") (sig_of name) ≡ true
ends_with-sig name =
    ends_with-append (codes ".sig") name (codes ".sig")
    ∙ ap found (strip_prefix-append (reverse (codes ".sig")) (reverse name))

pub ne_sig : (a b : Text) → ends_with (codes ".sig") a ≡ false → a ≢ sig_of b
ne_sig a b h e = absurd (ground (arith, ends_with-sig b))

ends_with-tar : (name : Text) → ends_with (codes ".sig") (name ++ codes ".db.tar.gz") ≡ false
unfolding strip_prefix
ends_with-tar name = ends_with-append (codes ".sig") name (codes ".db.tar.gz")

pub db_basename-ends :
    (ctx : RepoCtx) (v : Variant) → ends_with (codes ".sig") (db_basename_for ctx v) ≡ false
unfolding db_basename_for
db_basename-ends ctx v = ends_with-tar (suffixed ctx.repo_name v)

pub sig_of-ne : (a : Text) → sig_of a ≢ a
sig_of-ne [] e = absurd (ground arith)
sig_of-ne (c ∷ a) e = sig_of-ne a (ground arith)

pub sig_of-inj : (a b : Text) → sig_of a ≡ sig_of b → a ≡ b
sig_of-inj [] [] h = refl
sig_of-inj [] (d ∷ b) h = absurd (omega (arith, ap length h, length-append b (codes ".sig")))
sig_of-inj (c ∷ a) [] h = absurd (omega (arith, ap length h, length-append a (codes ".sig")))
sig_of-inj (c ∷ a) (d ∷ b) h = ground (arith, sig_of-inj a b)

-- What `join` puts behind a directory, and how it ends.
as_parent-front : (dir : Text) → (tail : Text) × (as_parent dir ≡ dir ++ tail)
unfolding as_parent
as_parent-front [] = ([], refl)
as_parent-front (c ∷ []) = elim (Bool-cases (c == b'/')) [
  | inl e ↦ ([], rw e refl)
  | inr e ↦ (codes "/", rw e refl)
]
as_parent-front (c ∷ d ∷ dir) =
    let (tail, h) = as_parent-front (d ∷ dir) in (tail, ap (λ s. c ∷ s) h)

as_parent-ends : (c : ℕ) (dir : Text) → (front : Text) × (as_parent (c ∷ dir) ≡ front ++ codes "/")
unfolding as_parent
as_parent-ends c [] = elim (Bool-cases (c == b'/')) [
  | inl e ↦ let slash : c ≡ b'/' = ground arith in ([], rw e (ap (λ x. x ∷ []) slash))
  | inr e ↦ (c ∷ [], rw e refl)
]
as_parent-ends c (d ∷ dir) = let (front, h) = as_parent-ends d dir in (c ∷ front, ap (λ s. c ∷ s) h)

as_parent-stage : (root : Text) → as_parent (root ++ codes ".stage") ≡ root ++ codes ".stage/"
unfolding as_parent
as_parent-stage [] = refl
as_parent-stage (c ∷ []) = refl
as_parent-stage (c ∷ d ∷ root) = ap (λ s. c ∷ s) (as_parent-stage (d ∷ root))

-- The name of a file in a directory.
pub file_name-join :
    (src dir name : Text) → file_name src ≡ some name → file_name (join dir name) ≡ some name
unfolding join
file_name-join src [] name h = file_name-alone src name h
file_name-join src (c ∷ dir) name h =
    let (front, ends) = as_parent-ends c dir in
    subst (λ s. file_name (s ++ name) ≡ some name) (sym ends) (file_name-copy src front name h)

-- Two files of one directory.
pub join-ne : (dir a b : Text) → a ≢ b → join dir a ≢ join dir b
unfolding join
join-ne dir a b h e = h (append-cancel (as_parent dir) a b e)

pub sig_of-join : (dir a : Text) → sig_of (join dir a) ≡ join dir (sig_of a)
unfolding join
sig_of-join dir a = append_assoc (as_parent dir) a (codes ".sig")

-- An architecture whose directory is not hidden.
pub record IsPlain (ctx : RepoCtx) : Type 0 where
  pub first : ℕ
  pub others : Text
  pub arch-eq : ctx.arch ≡ first ∷ others
  pub not_hidden : (first == b'.') ≡ false

-- No file of an architecture's directory lies in the staging directory.
abbrev pub Outside : Text → Text → Type 0
Outside dir path = strip_prefix (dir ++ codes "/") path ≡ none

visible :
    (first : ℕ) (rest : Text)
    → (first == b'.') ≡ false
    → strip_prefix (codes ".stage/") (first ∷ rest) ≡ none
unfolding strip_prefix
visible first rest h = ground arith

-- The directory's name, with what follows it in a path.
subdir-visible :
    (ctx : RepoCtx) (v : Variant) (rest : Text)
    → IsPlain ctx
    → strip_prefix (codes ".stage/") (suffixed ctx.arch v ++ rest) ≡ none
subdir-visible ctx default rest plain =
    rw (plain.arch-eq) (visible plain.first (plain.others ++ rest) plain.not_hidden)
subdir-visible ctx v3 rest plain =
    rw (plain.arch-eq) (visible plain.first (plain.others ++ codes "-v3" ++ rest) plain.not_hidden)
subdir-visible ctx v4 rest plain =
    rw (plain.arch-eq) (visible plain.first (plain.others ++ codes "-v4" ++ rest) plain.not_hidden)

pub outside_stage :
    (ctx : RepoCtx) (v : Variant) (name : Text)
    → IsPlain ctx
    → Outside (stage_dir ctx) (join (arch_subdir ctx v) name)
unfolding join arch_subdir
outside_stage ctx v name plain =
    let root = as_parent ctx.repo_dir in
    let sub = suffixed ctx.arch v in
    let (tail, front) = as_parent-front (root ++ sub) in
    let path : join (arch_subdir ctx v) name ≡ root ++ (sub ++ (tail ++ name)) =
      ap (λ s. s ++ name) front
      ∙ append_assoc (root ++ sub) tail name
      ∙ append_assoc root sub (tail ++ name) in
    let stage : stage_dir ctx ++ codes "/" ≡ root ++ codes ".stage/" =
      append_assoc root (codes ".stage") (codes "/") in
    subst (λ p. strip_prefix p (join (arch_subdir ctx v) name) ≡ none) (sym stage)
      (subst (λ q. strip_prefix (root ++ codes ".stage/") q ≡ none) (sym path)
        (strip_prefix-cancel root (codes ".stage/") (sub ++ (tail ++ name))
          ∙ subdir-visible ctx v (tail ++ name) plain))

pub outside-ne :
    (ctx : RepoCtx) (name path : Text)
    → Outside (stage_dir ctx) path
    → join (stage_dir ctx) name ≢ path
unfolding join
outside-ne ctx name path out e =
    let root = as_parent ctx.repo_dir in
    let front : as_parent (stage_dir ctx) ≡ stage_dir ctx ++ codes "/" =
      as_parent-stage root ∙ sym (append_assoc root (codes ".stage") (codes "/")) in
    let path_at : (stage_dir ctx ++ codes "/") ++ name ≡ path =
      ap (λ s. s ++ name) (sym front) ∙ e in
    let inside = strip_prefix-append (stage_dir ctx ++ codes "/") name in
    let same : strip_prefix (stage_dir ctx ++ codes "/") path ≡ some name =
      subst (λ q. strip_prefix (stage_dir ctx ++ codes "/") q ≡ some name) path_at inside in
    absurd (ground arith)
