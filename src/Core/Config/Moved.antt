-- ===== src/Core/Config/Moved.antt =====
-- Which settings follow the data directory: crates/paur-core/src/config.rs.
use paur.Prelude.{◌≡◌, refl, ap, none, some, arith}
use paur.Prelude.Text.{Text}
use paur.Prelude.Results.{ok}
use paur.Core.Config.{
  Config, FileConfig, Reading, absent, unreadable, malformed, parsed, with_data_dir, with_defaults,
  load, moved, default_data_dir,
}

-- A configuration with the directories of a data directory and the other settings of `cfg`.
abbrev pub in_dir : Text → Config → Config
in_dir p cfg = record (with_data_dir p) {
  repo_name = cfg.repo_name;
  arch = cfg.arch;
  container_runtime = cfg.container_runtime;
  builder_image = cfg.builder_image;
  max_workers = cfg.max_workers;
  poll_interval_secs = cfg.poll_interval_secs;
  listen = cfg.listen;
  public_base_url = cfg.public_base_url;
  s3 = cfg.s3;
  local_repo = cfg.local_repo;
}

moved-in_dir : (p : Text) (cfg : Config) → moved (some p) cfg ≡ in_dir p cfg
unfolding moved with_data_dir
moved-in_dir p cfg = refl

-- If a configuration can be loaded without the variable `PAUR_DATA_DIR`, then with the variable the data
-- directory and all the directories in it are the ones of its value, and every other setting is the
-- same; without a file the configuration is that of the default data directory; but a data directory
-- that a file sets moves no other directory.
pub load-data_dir :
    (reading : Reading) (p : Text) (cfg : Config) (f : FileConfig) (d : Text)
    → load reading none ≡ ok cfg
    → (load reading (some p) ≡ ok (in_dir p cfg))
      × (load absent none ≡ ok (with_data_dir default_data_dir))
      × (load (parsed (record f { data_dir = some d })) none
          ≡ ok (record (with_defaults f) { data_dir = d }))
unfolding load moved with_defaults with_data_dir
load-data_dir reading p cfg f d h = (by_reading reading h, refl, refl)
  where
    by_reading : (r : Reading) → load r none ≡ ok cfg → load r (some p) ≡ ok (in_dir p cfg)
    by_reading absent h =
        let same : with_data_dir default_data_dir ≡ cfg = cc in ap (λ c. ok (in_dir p c)) same
    by_reading unreadable h = absurd (ground arith)
    by_reading malformed h = absurd (ground arith)
    by_reading (parsed g) h =
        let same : with_defaults g ≡ cfg = cc in ap (λ c. ok (in_dir p c)) same
