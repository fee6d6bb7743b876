-- ===== src/Examples/OfRepo.antt =====
-- Examples of the laws of crates/paur-repo.
use paur.Prelude.{
  pos, ◌≡◌, refl, sym, ap, ◌∙◌, subst, ◌≢◌, inl, Bool, true, false, Option, none, some, List, [],
  ◌∷◌, ◌++◌, map, arith, All,
}
use paur.Prelude.Text.{Text, codes, text_eq, text_eq_of_ne, text_eq_refl, ne_of_text_eq}
use paur.Prelude.Results.{Error, Result, ok, err}
use paur.Prelude.Disk.{Files, write, file_name}
use paur.Core.Name.{PkgName}
use paur.Core.Variants.{v3}
use paur.Builder.{ContainerRuntime, join, ends_with}
use paur.Builder.RepoOps.{Image, build_sh}
use paur.S3.{S3Config, answered}
use paur.Repo.{
  RepoCtx, Host, RepoOps, Published, arch_subdir, db_basename_for, db_path_for, db_sig_for, sig_of,
  publish_with, publish, remove,
}
use paur.Repo.Paths.{IsPlain}
use paur.Repo.Signing.{HostLaws, SignedAt}
use paur.Repo.Signed.{names_of, IsPublishable, publish_with-signed}
use paur.Repo.Fresh.{Fresh}
use paur.Prelude.{◌⊎◌}
use paur.Prelude.Results.{gpg}
use paur.Repo.Container.{ToolLaws, publish-Fresh}
use paur.Repo.Refused.{IsUnseen, publish-refused}

-- A signature is the key in front of the content.
abbrev signature : Text → Text → Text → Text
signature home key content = key ++ content

copied : Option Text → Text → Files → Files × Bool
unfolding write
copied none dst files = (files, false)
copied (some content) dst files = (write dst content files, true)

signed_by : Text → Text → Option Text → Files → Files × Option Bool
unfolding write
signed_by key sig none files = (files, some false)
signed_by key sig (some content) files = (write sig (key ++ content) files, some true)

fake_gpg : Text → List Text → Files → Files × Option Bool
unfolding signed_by
fake_gpg home (a ∷ b ∷ c ∷ d ∷ e ∷ f ∷ g ∷ key ∷ h ∷ sig ∷ i ∷ target ∷ []) files =
    signed_by key sig (files target) files
fake_gpg home _ files = (files, some false)

abbrev image : Image
image = record {
  has_dir = λ dir. false;
  tool = λ program dir db_name args files. (files, pos 0);
  tool_inside = λ program db_name args. pos 0;
  builds = λ args. pos 0;
}

abbrev host : Host
unfolding copied fake_gpg build_sh
host = record {
  mkdir = λ dir. true;
  copy = λ src dst files. copied (files src) dst files;
  run_gpg = fake_gpg;
  runtime = record { layout_made = true; spawned = true; waited = true; script = build_sh image };
  replies = λ key n. answered 200;
}

write-other : (p c q : Text) (files : Files) → p ≢ q → write p c files q ≡ files q
unfolding write
write-other p c q files h = rw (text_eq_of_ne p q h) refl

write-same : (p c : Text) (files : Files) → write p c files p ≡ some c
unfolding write
write-same p c files = rw (text_eq_refl p) refl

host-laws : HostLaws signature host
unfolding host copied fake_gpg signed_by
host-laws = record {
  copy-frame = λ src dst files q h. frame (files src) dst files q h;
  gpg-frame = λ home key target files q h. gpg_frame key (sig_of target) (files target) files q h;
  gpg-signs =
      λ home key target files after h. gpg_signs key (sig_of target) (files target) files after h;
}
  where
    frame :
        (o : Option Text) (dst : Text) (files : Files) (q : Text)
        → dst ≢ q
        → (copied o dst files).0 q ≡ files q
    frame none dst files q h = refl
    frame (some c) dst files q h = write-other dst c q files h

    gpg_frame :
        (key sig : Text) (o : Option Text) (files : Files) (q : Text)
        → sig ≢ q
        → (signed_by key sig o files).0 q ≡ files q
    gpg_frame key sig none files q h = refl
    gpg_frame key sig (some c) files q h = write-other sig (key ++ c) q files h

    gpg_signs :
        (key sig : Text) (o : Option Text) (files after : Files)
        → signed_by key sig o files ≡ (after, some true)
        → (c : Text) × (o ≡ some c) × (after sig ≡ some (key ++ c))
    gpg_signs key sig none files after h = absurd (ground arith)
    gpg_signs key sig (some c) files after h =
        (c, refl, sym (ap (λ r. r.0 sig) h) ∙ write-same sig (key ++ c) files)

abbrev cfg : S3Config
cfg = record {
  endpoint = none;
  bucket = codes "b";
  prefix = none;
  public_url = none;
  path_style = true;
  region = codes "auto";
  access_key = codes "AKID";
  secret_key = codes "secret";
}

abbrev ctx : RepoCtx
ctx = record {
  repo_name = codes "paur";
  arch = codes "x86_64";
  repo_dir = codes "/r";
  gpg_home = codes "/g";
  gpg_key = codes "K";
  container_runtime = ContainerRuntime.docker;
  builder_image = codes "i";
  s3 = some cfg;
}

ctx-IsPlain : IsPlain ctx
ctx-IsPlain = record { first = b'x'; others = codes "86_64"; arch-eq = refl; not_hidden = refl }

-- `repo-add` as the mock of the tests does it.
abbrev ops : RepoOps
unfolding write db_path_for
ops = record {
  add = λ c v staged files. (write (db_path_for c v) (codes "db") files, ok tt);
  remove = λ c v name files. (files, ok tt);
}

abbrev sources : List Text
sources = codes "/out/a.pkg.tar.zst" ∷ []

abbrev start : Files
unfolding text_eq write
start = write (codes "/out/a.pkg.tar.zst") (codes "pkg") (λ q. none)

abbrev end : Files × Result Published
unfolding publish_with
end = publish_with host ctx sources v3 ops start

abbrev published : Published
published = elim end.1 [ ok p ↦ p | err e ↦ record { db_sig = []; sent = [] } ]

end-ok : publish_with host ctx sources v3 ops start ≡ (end.0, ok published)
unfolding end publish_with start ops host
end-ok = refl

abbrev pkg_name : Text
pkg_name = codes "a.pkg.tar.zst"

names-eq : names_of sources ≡ pkg_name ∷ []
unfolding names_of file_name
names-eq = refl

name-IsPublishable : IsPublishable ctx v3 pkg_name
unfolding ends_with db_basename_for text_eq
name-IsPublishable = (refl, ne_of_text_eq pkg_name (db_basename_for ctx v3) refl)

sources-fit : All (IsPublishable ctx v3) (names_of sources)
sources-fit = subst (All (IsPublishable ctx v3)) (sym names-eq) (name-IsPublishable, tt)

publish_with-signed_example :
    (published.db_sig ≡ db_sig_for ctx v3)
    × (map file_name sources ≡ map some (names_of sources))
    × SignedAt signature ctx end.0 (db_path_for ctx v3)
    × All (λ name. SignedAt signature ctx end.0 (join (arch_subdir ctx v3) name)) (names_of sources)
publish_with-signed_example =
    publish_with-signed signature host host-laws ctx sources v3 ops start end.0 published
      ctx-IsPlain sources-fit end-ok

image-ToolLaws : ToolLaws image
image-ToolLaws = record {
  tool-frame = λ program dir db args files q out. refl;
  tool-unsigned = λ program dir db args files. refl;
}

abbrev pkg_a : PkgName
pkg_a = record { as_str = codes "a" }

start-Fresh : Fresh signature ctx v3 start
unfolding start write text_eq db_sig_for
start-Fresh = inl refl

host-runs : host.runtime.script ≡ build_sh image
unfolding host
host-runs = refl

publish-Fresh_example :
    (Fresh signature ctx v3 (publish host ctx sources v3 start).0
      ⊎ ((publish host ctx sources v3 start).1 ≡ err gpg))
    × (Fresh signature ctx v3 (remove host ctx pkg_a v3 start).0
        ⊎ ((remove host ctx pkg_a v3 start).1 ≡ err gpg))
publish-Fresh_example =
    publish-Fresh signature host host-laws image image-ToolLaws host-runs ctx v3 ctx-IsPlain sources
      sources-fit pkg_a start start-Fresh

ctx-IsUnseen : IsUnseen image ctx v3
unfolding arch_subdir text_eq
ctx-IsUnseen = (
  refl,
  ne_of_text_eq (codes "/work/repo") (arch_subdir ctx v3) refl,
  ne_of_text_eq (codes "/work/stage") (arch_subdir ctx v3) refl,
)

publish-refused_example :
    ((e : Error) × ((publish host ctx sources v3 start).1 ≡ err e))
    × ((e : Error) × (remove host ctx pkg_a v3 start ≡ (start, err e)))
publish-refused_example =
    publish-refused image host host-runs ctx v3 ctx-IsUnseen sources pkg_a start
