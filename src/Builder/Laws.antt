-- ===== src/Builder/Laws.antt =====
-- What a container run of crates/paur-builder/src/lib.rs reports.
use paur.Prelude.{
  ◌≡◌, refl, true, Option, none, some, List, [], ◌∷◌, map, arith, All, inl, inr, Bool-cases,
}
use paur.Prelude.Text.{Text}
use paur.Prelude.Tables.{select}
use paur.Prelude.Results.{ok}
use paur.Builder.{list_artifacts, is_artifact, sort_names, insert_name, text_leb, join}

abbrev IsFit : Text → Type 0
IsFit n = is_artifact n ≡ true

insert_name-All :
    (x : Text) (ns : List Text) → IsFit x → All IsFit ns → All IsFit (insert_name x ns)
unfolding insert_name
insert_name-All x [] p h = (p, tt)
insert_name-All x (y ∷ ys) p h = elim (Bool-cases (text_leb x y)) [
  | inl e ↦ rw e (p, h)
  | inr e ↦ rw e (h.0, insert_name-All x ys p h.1)
]

sort_names-All : (ns : List Text) → All IsFit ns → All IsFit (sort_names ns)
unfolding sort_names
sort_names-All [] h = tt
sort_names-All (n ∷ ns) h = insert_name-All n (sort_names ns) h.0 (sort_names-All ns h.1)

select-Fit : (ns : List Text) → All IsFit (select is_artifact ns)
unfolding select
select-Fit [] = tt
select-Fit (n ∷ ns) = elim (Bool-cases (is_artifact n)) [
  | inl e ↦ rw e (e, select-Fit ns)
  | inr e ↦ rw e (select-Fit ns)
]

-- A path under the directory, with the name of an artifact.
pub record IsArtifactIn (dir path : Text) : Type 0 where
  pub name : Text
  pub is_in : path ≡ join dir name
  pub fits : is_artifact name ≡ true

joined : (dir : Text) (ns : List Text) → All IsFit ns → All (IsArtifactIn dir) (map (join dir) ns)
joined dir [] h = tt
joined dir (n ∷ ns) h = (record { name = n; is_in = refl; fits = h.0 }, joined dir ns h.1)

pub listed :
    (dir : Text) (names : Option (List Text)) (fs : List Text)
    → list_artifacts dir names ≡ ok fs
    → All (IsArtifactIn dir) fs
unfolding list_artifacts
listed dir none fs h = absurd (ground arith)
listed dir (some names) fs h =
    let same : fs ≡ map (join dir) (sort_names (select is_artifact names)) = ground arith in
    rw same (
      joined dir (sort_names (select is_artifact names))
        (sort_names-All (select is_artifact names) (select-Fit names)))
