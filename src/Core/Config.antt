-- ===== src/Core/Config.antt =====
-- crates/paur-core/src/config.rs, the configuration and where it is read from, and the paths of
-- crates/paur-core/src/paths.rs.
pub mod Moved
use paur.Prelude.{ℕ, Bool, true, Option, none, some, ◌++◌, unwrap_or}
use paur.Prelude.Text.{Text, codes}
use paur.Prelude.Results.{io, config, Result, ok, err}
use paur.Builder.{ContainerRuntime, docker, join}
use paur.S3.{S3Config}

-- `Listen`, a socket address as its text.
pub data Listen : Type 0 where
  unix tcp : Text → Listen

pub record Config : Type 0 where
  pub data_dir : Text
  pub repo_dir : Text
  pub work_dir : Text
  pub logs_dir : Text
  pub ccache_dir : Text
  pub gpg_home : Text
  pub repo_name : Text
  pub arch : Text
  pub container_runtime : ContainerRuntime
  pub builder_image : Text
  pub max_workers : ℕ
  pub poll_interval_secs : ℕ
  pub listen : Listen
  pub public_base_url : Text
  pub s3 : Option S3Config
  pub local_repo : Bool

-- The fields that a file has.
pub record FileConfig : Type 0 where
  pub data_dir : Option Text
  pub repo_dir : Option Text
  pub work_dir : Option Text
  pub logs_dir : Option Text
  pub ccache_dir : Option Text
  pub gpg_home : Option Text
  pub repo_name : Option Text
  pub arch : Option Text
  pub container_runtime : Option ContainerRuntime
  pub builder_image : Option Text
  pub max_workers : Option ℕ
  pub poll_interval_secs : Option ℕ
  pub listen : Option Listen
  pub public_base_url : Option Text
  pub s3 : Option S3Config
  pub local_repo : Option Bool

abbrev pub default_data_dir : Text
default_data_dir = codes "/var/lib/paur"

abbrev pub default_repo_name : Text
default_repo_name = codes "paur"

abbrev pub default_arch : Text
default_arch = codes "x86_64"

abbrev pub default_builder_image : Text
default_builder_image = codes "paur-builder:latest"

abbrev pub default_max_workers : ℕ
default_max_workers = 1

abbrev pub default_poll_interval : ℕ
default_poll_interval = 600

abbrev pub default_listen : Listen
default_listen = unix (codes "/run/paur/paur.sock")

abbrev pub default_public_base_url : Text
default_public_base_url = codes "https://localhost"

-- `with_data_dir`
unfoldable pub with_data_dir : Text → Config
unfolding join
with_data_dir dir = record {
  data_dir = dir;
  repo_dir = join dir (codes "repo");
  work_dir = join dir (codes "work");
  logs_dir = join dir (codes "logs");
  ccache_dir = join dir (codes "ccache");
  gpg_home = join dir (codes ".gnupg");
  repo_name = default_repo_name;
  arch = default_arch;
  container_runtime = docker;
  builder_image = default_builder_image;
  max_workers = default_max_workers;
  poll_interval_secs = default_poll_interval;
  listen = default_listen;
  public_base_url = default_public_base_url;
  s3 = none;
  local_repo = true;
}

-- The fields with serde's defaults.
unfoldable pub with_defaults : FileConfig → Config
unfolding join
with_defaults f = record {
  data_dir = unwrap_or f.data_dir default_data_dir;
  repo_dir = unwrap_or f.repo_dir (join default_data_dir (codes "repo"));
  work_dir = unwrap_or f.work_dir (join default_data_dir (codes "work"));
  logs_dir = unwrap_or f.logs_dir (join default_data_dir (codes "logs"));
  ccache_dir = unwrap_or f.ccache_dir (join default_data_dir (codes "ccache"));
  gpg_home = unwrap_or f.gpg_home (join default_data_dir (codes ".gnupg"));
  repo_name = unwrap_or f.repo_name default_repo_name;
  arch = unwrap_or f.arch default_arch;
  container_runtime = unwrap_or f.container_runtime docker;
  builder_image = unwrap_or f.builder_image default_builder_image;
  max_workers = unwrap_or f.max_workers default_max_workers;
  poll_interval_secs = unwrap_or f.poll_interval_secs default_poll_interval;
  listen = unwrap_or f.listen default_listen;
  public_base_url = unwrap_or f.public_base_url default_public_base_url;
  s3 = f.s3;
  local_repo = unwrap_or f.local_repo true;
}

-- What there is at the path of the file.
pub data Reading : Type 0 where
  absent unreadable malformed : Reading
  parsed : FileConfig → Reading

-- `if let Ok(env_dir)`, with the variable `PAUR_DATA_DIR`
unfoldable pub moved : Option Text → Config → Config
unfolding join
moved none cfg = cfg
moved (some p) cfg = record cfg {
  data_dir = p;
  repo_dir = join p (codes "repo");
  work_dir = join p (codes "work");
  logs_dir = join p (codes "logs");
  ccache_dir = join p (codes "ccache");
  gpg_home = join p (codes ".gnupg");
}

unfoldable pub load : Reading → Option Text → Result Config
unfolding with_data_dir with_defaults moved
load absent env_dir = ok (moved env_dir (with_data_dir default_data_dir))
load unreadable env_dir = err io
load malformed env_dir = err config
load (parsed f) env_dir = ok (moved env_dir (with_defaults f))
