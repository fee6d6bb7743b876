-- ===== src/Prelude/Disk/Names.antt =====
-- The last component of a path, and of the path of a file with that name in a directory.
use Prim.Native.Nat.{ℕ}
use mathlib.Core.Path.{◌≡◌, refl, ap, ◌∙◌, subst, sym}
use mathlib.Core.Logic.{inl, inr}
use mathlib.Core.Bool.{Bool, false}
use mathlib.Core.List.{List, [], ◌∷◌, ◌++◌, append_assoc}
use mathlib.Core.Option.{Option, none, some}
use native.Mathlib.Omega.{arith}
use paur.Prelude.Tests.{◌==◌, Bool-cases}
use paur.Prelude.Lists.{All}
use paur.Prelude.Text.{Text, codes, text_eq}
use paur.Prelude.Splitting.{pieces, cons_word}
use paur.Prelude.Tables.{delete, select}
use paur.Prelude.Disk.{file_name, last_of, normal_only, is_current}

abbrev is_slash : ℕ → Bool
is_slash c = c == b'/'

abbrev NoSlash : Text → Type 0
NoSlash w = All (λ c. is_slash c ≡ false) w

-- A text has at least one piece.
pieces-cons : (s : Text) → (w : Text) × (ws : List Text) × (pieces is_slash s ≡ w ∷ ws)
unfolding pieces
pieces-cons [] = ([], [], refl)
pieces-cons (x ∷ s) = elim (Bool-cases (is_slash x)) [
  | inl e ↦ ([], pieces is_slash s, rw e refl)
  | inr e ↦ let (w, ws, h) = pieces-cons s in (x ∷ w, ws, rw (e, h) refl)
]

cons_word-append :
    (x : ℕ) (s : Text) (more : List Text)
    → cons_word x (pieces is_slash s ++ more) ≡ cons_word x (pieces is_slash s) ++ more
cons_word-append x s more = let (w, ws, h) = pieces-cons s in rw h refl

pieces-append :
    (a b : Text) → pieces is_slash (a ++ (b'/' ∷ b)) ≡ pieces is_slash a ++ pieces is_slash b
unfolding pieces
pieces-append [] b = refl
pieces-append (x ∷ a) b = elim (Bool-cases (is_slash x)) [
  | inl e ↦ rw (e, pieces-append a b) refl
  | inr e ↦ rw (e, pieces-append a b) (cons_word-append x a (pieces is_slash b))
]

pieces-one : (s : Text) → NoSlash s → pieces is_slash s ≡ s ∷ []
unfolding pieces
pieces-one [] h = refl
pieces-one (x ∷ s) h = rw (h.0, pieces-one s h.1) refl

pieces-NoSlash : (s : Text) → All NoSlash (pieces is_slash s)
unfolding pieces
pieces-NoSlash [] = (tt, tt)
pieces-NoSlash (x ∷ s) = elim (Bool-cases (is_slash x)) [
  | inl e ↦ rw e (tt, pieces-NoSlash s)
  | inr e ↦ rw e (word (pieces is_slash s) e (pieces-NoSlash s))
]
  where
    word : (ws : List Text) → is_slash x ≡ false → All NoSlash ws → All NoSlash (cons_word x ws)
    word [] e h = ((e, tt), tt)
    word (w ∷ ws) e h = ((e, h.0), h.1)

-- What is left of the pieces: no `.` and no empty one.
IsComponent : Text → Type 0
IsComponent w = NoSlash w × (is_current w ≡ false)

delete-All : (ws : List Text) → All NoSlash ws → All IsComponent (delete is_current ws)
unfolding delete select IsComponent
delete-All [] h = tt
delete-All (w ∷ ws) h = elim (Bool-cases (is_current w)) [
  | inl e ↦ rw e (delete-All ws h.1)
  | inr e ↦ rw e ((h.0, e), delete-All ws h.1)
]

last_of-All : (ws : List Text) (w : Text) → All IsComponent ws → last_of ws ≡ some w → IsComponent w
last_of-All [] w h e = absurd (ground arith)
last_of-All (v ∷ []) w h e = let same : v ≡ w = ground arith in subst IsComponent same h.0
last_of-All (v ∷ u ∷ us) w h e = last_of-All (u ∷ us) w h.1 e

delete-last :
    (ws : List Text) (w : Text)
    → is_current w ≡ false
    → last_of (delete is_current (ws ++ (w ∷ []))) ≡ some w
unfolding delete select
delete-last [] w h = rw h refl
delete-last (v ∷ ws) w h = elim (Bool-cases (is_current v)) [
  | inl e ↦ rw e (delete-last ws w h)
  | inr e ↦ rw e (after v (delete is_current (ws ++ (w ∷ []))) (delete-last ws w h))
]
  where
    after : (v : Text) (us : List Text) → last_of us ≡ some w → last_of (v ∷ us) ≡ some w
    after v [] e = absurd (ground arith)
    after v (u ∷ us) e = e

normal_only-eq : (o : Option Text) (name : Text) → normal_only o ≡ some name → o ≡ some name
unfolding normal_only
normal_only-eq none name h = absurd (ground arith)
normal_only-eq (some w) name h = elim (Bool-cases (text_eq w (codes ".."))) [
  | inl e ↦ absurd (ground arith)
  | inr e ↦ ground arith
]

-- A file's name is a path of one component.
pub file_name-alone : (src name : Text) → file_name src ≡ some name → file_name name ≡ some name
unfolding file_name IsComponent
file_name-alone src name h =
    let parts = delete is_current (pieces is_slash src) in
    let last : last_of parts ≡ some name = normal_only-eq (last_of parts) name h in
    let (whole, named) =
      last_of-All parts name (delete-All (pieces is_slash src) (pieces-NoSlash src)) last in
    ap (λ ws. normal_only (last_of (delete is_current ws))) (pieces-one name whole)
    ∙ ap normal_only (delete-last [] name named ∙ sym last)
    ∙ h

-- A file's name is the name of its copy in any directory.
pub file_name-copy :
    (src dir name : Text)
    → file_name src ≡ some name
    → file_name (dir ++ codes "/" ++ name) ≡ some name
unfolding file_name IsComponent
file_name-copy src dir name h =
    let parts = delete is_current (pieces is_slash src) in
    let last : last_of parts ≡ some name = normal_only-eq (last_of parts) name h in
    let (whole, named) =
      last_of-All parts name (delete-All (pieces is_slash src) (pieces-NoSlash src)) last in
    let path : pieces is_slash (dir ++ codes "/" ++ name) ≡ pieces is_slash dir ++ (name ∷ []) =
      ap (pieces is_slash) (append_assoc dir (codes "/") name)
      ∙ pieces-append dir name
      ∙ ap (λ ws. pieces is_slash dir ++ ws) (pieces-one name whole) in
    ap (λ ws. normal_only (last_of (delete is_current ws))) path
    ∙ ap normal_only (delete-last (pieces is_slash dir) name named ∙ sym last)
    ∙ h
