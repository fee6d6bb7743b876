-- ===== src/Prelude/Disk.antt =====
-- The contents of a file system, as far as the program looks at them: paths and what their files hold.
pub mod Names
use mathlib.Core.Path.{◌≡◌, refl, ap}
use mathlib.Core.Logic.{◌≢◌, ◌⊎◌, inl, inr}
use mathlib.Core.Bool.{Bool, true, false}
use mathlib.Core.List.{List, [], ◌∷◌, ◌++◌, map}
use mathlib.Core.Option.{Option, none, some}
use native.Mathlib.Omega.{arith}
use paur.Prelude.Tests.{◌==◌, ==_refl, if◌then◌else◌, is_some}
use paur.Prelude.Text.{Text, codes, text_eq, text_eq_refl, text_eq_of_ne}
use paur.Prelude.Splitting.{strip_prefix, pieces}
use paur.Prelude.Tables.{delete}

-- The content of the file at a path, `none` if there is no file.
abbrev pub Files : Type 0
Files = Text → Option Text

unfoldable pub write : Text → Text → Files → Files
unfolding text_eq
write path content files = λ q. if text_eq path q then some content else files q

-- `remove_file`, its error ignored
unfoldable pub unlink : Text → Files → Files
unfolding text_eq
unlink path files = λ q. if text_eq path q then none else files q

-- `remove_dir_all`, its error ignored
unfoldable pub remove_tree : Text → Files → Files
unfolding strip_prefix
remove_tree dir files = λ q. if is_some (strip_prefix (dir ++ codes "/") q) then none else files q

-- `Path::exists` of a file
abbrev pub exists : Text → Files → Bool
exists path files = is_some (files path)

abbrev pub last_of : List Text → Option Text
last_of [] = none
last_of (w ∷ []) = some w
last_of (w ∷ v ∷ ws) = last_of (v ∷ ws)

unfoldable pub normal_only : Option Text → Option Text
unfolding text_eq
normal_only none = none
normal_only (some name) = if text_eq name (codes "..") then none else some name

abbrev pub is_current : Text → Bool
unfolding text_eq
is_current w = if text_eq w [] then true else text_eq w (codes ".")

-- `Path::file_name`: the last component, unless it is `..`.
unfoldable pub file_name : Text → Option Text
unfolding pieces delete normal_only
file_name path = normal_only (last_of (delete is_current (pieces (λ c. c == b'/') path)))

pub unlink-same : (p : Text) (files : Files) → unlink p files p ≡ none
unfolding unlink
unlink-same p files = rw (text_eq_refl p) refl

pub unlink-other : (p q : Text) (files : Files) → p ≢ q → unlink p files q ≡ files q
unfolding unlink
unlink-other p q files h = rw (text_eq_of_ne p q h) refl

-- Texts with a common front, and what follows a front.
pub append-cancel : (front a b : Text) → front ++ a ≡ front ++ b → a ≡ b
append-cancel [] a b h = h
append-cancel (c ∷ front) a b h = append-cancel front a b (ground arith)

pub strip_prefix-append : (front s : Text) → strip_prefix front (front ++ s) ≡ some s
unfolding strip_prefix
strip_prefix-append [] s = refl
strip_prefix-append (c ∷ front) s = ground (arith, strip_prefix-append front s)

pub strip_prefix-cancel :
    (front p s : Text) → strip_prefix (front ++ p) (front ++ s) ≡ strip_prefix p s
unfolding strip_prefix
strip_prefix-cancel [] p s = refl
strip_prefix-cancel (c ∷ front) p s = ground (arith, strip_prefix-cancel front p s)
