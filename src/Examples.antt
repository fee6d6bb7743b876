-- ===== src/Examples.antt =====
-- The inputs of the examples: a database with one package and one queued build, as the statements of
-- crates/paur-db/src/queries.rs make it, and the surroundings of a build that succeeds.
pub mod OfCore
pub mod OfDb
pub mod OfWorker
pub mod OfApi
pub mod OfRepo
pub mod OfSteps
pub mod OfCli
use paur.Prelude.{
  ℕ, ℤ, pos, ◌≡◌, refl, Bool, true, false, Option, none, some, List, [], ◌∷◌, ◌++◌, All,
}
use paur.Prelude.Text.{Text, codes}
use paur.Prelude.Tables.{update, find, select}
use paur.Prelude.Results.{Result, ok, err}
use paur.Core.Name.{PkgName}
use paur.Core.Flags.{no_flags}
use paur.Core.Variants.{Variant, PackageVariants, default_variants}
use paur.Builder.{BuildRequest, BuildOutcome, Container, ContainerRuntime}
use paur.Db.Models.{Db, Package, Build, BuildTrigger, manual, queued}
use paur.Db.Packages.{insert_package, new_package}
use paur.Db.Builds.{new_build, next_seq, get_build}
use paur.Db.Invariant.{IsValid, has_package}
use paur.Db.Invariant.Enqueue.{enqueued, enqueued-IsValid}
use paur.Db.Invariant.OfPackages.{insert_package-IsValid}
use paur.Daemon.State.{App}
use paur.Daemon.Worker.{Outside}

abbrev pub empty_db : Db
empty_db = record {
  packages = [];
  builds = [];
  build_logs = [];
  settings = [];
  sessions = [];
  last_build_id = 0;
}

empty_db-IsValid : IsValid empty_db
empty_db-IsValid = record {
  builds_valid = record { ids = tt; given_out = tt; seqs = tt; coherent = tt; references = tt };
  packages_valid = record { ids = tt; names = tt; default_on = tt };
  logs_valid = record { seqs = tt; references = tt };
}

abbrev pub yay : Text
yay = codes "yay"

abbrev pub yay_url : Text
yay_url = codes "https://aur.archlinux.org/yay.git"

abbrev pub one_package : Db
one_package = insert_package 5 yay yay_url true empty_db

pub one_package-IsValid : IsValid one_package
one_package-IsValid = insert_package-IsValid 5 yay yay_url true empty_db empty_db-IsValid

pub one_package-owner : has_package one_package.packages 1 ≡ true
unfolding insert_package new_package
one_package-owner = refl

abbrev pub one_build : Db
one_build = enqueued 10 1 manual Variant.default one_package

pub one_build-IsValid : IsValid one_build
one_build-IsValid =
    enqueued-IsValid 10 1 manual Variant.default one_package one_package-owner one_package-IsValid

pub one_build-owner : has_package one_build.packages 1 ≡ true
unfolding insert_package new_package
one_build-owner = refl

abbrev pub first_build : Build
first_build = new_build 1 10 1 1 manual Variant.default

pub one_build-first : get_build 1 one_build ≡ some first_build
unfolding get_build find insert_package new_build next_seq select
one_build-first = refl

pub first_build-queued : first_build.status ≡ queued
unfolding new_build
first_build-queued = refl

abbrev pub app : App
app = record { db = one_build; log_channels = []; cancel_tokens = []; fired = []; wakes = 1 ∷ [] }

abbrev pub container : Container
container = record {
  layout_made = true;
  spawned = true;
  lines = codes "==> Making package: yay" ∷ [];
  cancel_first = false;
  waited = true;
  code = some (pos 0);
  out_names = some (codes "yay-12.3-1-x86_64.pkg.tar.zst" ∷ []);
  srcinfo_text = none;
}

abbrev pub head_ref : Text
head_ref = codes "0123456789012345678901234567890123456789"

abbrev pub outside : Outside
outside = record {
  claim_time = 20;
  log_time = 21;
  finish_time = 30;
  work_dir_of = λ id. codes "/var/lib/paur/build/1";
  ccache_dir = codes "/var/cache/paur";
  runtime = ContainerRuntime.docker;
  image = codes "paur-builder";
  container = λ req. container;
  publish = λ files v. ok tt;
  file_name = λ p. some p;
  ls_remote = λ name. some head_ref;
}
