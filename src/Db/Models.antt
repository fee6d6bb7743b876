-- ===== src/Db/Models.antt =====
-- crates/paur-db/src/models.rs and the tables of crates/paur-db/migrations.
pub mod Codec
use paur.Prelude.{ℕ, ℤ, Bool, true, false, Option, none, some, List, if◌then◌else◌}
use paur.Prelude.Text.{Text, codes, text_eq}
use paur.Core.Flags.{PackageBuildFlags}
use paur.Core.Variants.{PackageVariants}

pub data BuildStatus : Type 0 where
  queued running success failed cancelled : BuildStatus

-- `BuildStatus::as_str`
unfoldable pub as_str : BuildStatus → Text
as_str queued = codes "queued"
as_str running = codes "running"
as_str success = codes "success"
as_str failed = codes "failed"
as_str cancelled = codes "cancelled"

-- `impl FromStr for BuildStatus`; `none` is its error
unfoldable pub parse_status : Text → Option BuildStatus
unfolding text_eq
parse_status s =
    if text_eq s (codes "queued")
    then some queued
    else if text_eq s (codes "running")
    then some running
    else if text_eq s (codes "success")
    then some success
    else if text_eq s (codes "failed")
    then some failed
    else if text_eq s (codes "cancelled")
    then some cancelled
    else none

-- `PartialEq`
unfoldable pub status_eq : BuildStatus → BuildStatus → Bool
status_eq queued queued = true
status_eq running running = true
status_eq success success = true
status_eq failed failed = true
status_eq cancelled cancelled = true
status_eq _ _ = false

pub data BuildTrigger : Type 0 where
  manual poll rebuild dep : BuildTrigger

-- `BuildTrigger::as_str` and its `FromStr`
unfoldable pub trigger_str : BuildTrigger → Text
trigger_str manual = codes "manual"
trigger_str poll = codes "poll"
trigger_str rebuild = codes "rebuild"
trigger_str dep = codes "dep"

unfoldable pub parse_trigger : Text → Option BuildTrigger
unfolding text_eq
parse_trigger s =
    if text_eq s (codes "manual")
    then some manual
    else if text_eq s (codes "poll")
    then some poll
    else if text_eq s (codes "rebuild")
    then some rebuild
    else if text_eq s (codes "dep")
    then some dep
    else none

pub data Stream : Type 0 where
  stdout stderr : Stream

-- `Stream::as_str` and its `FromStr`
unfoldable pub stream_str : Stream → Text
stream_str stdout = codes "stdout"
stream_str stderr = codes "stderr"

unfoldable pub parse_stream : Text → Option Stream
unfolding text_eq
parse_stream s =
    if text_eq s (codes "stdout")
    then some stdout
    else if text_eq s (codes "stderr")
    then some stderr
    else none

-- A row of `packages`, as `row_to_package` reads it.
pub record Package : Type 0 where
  pub id : ℕ
  pub name : Text
  pub aur_url : Text
  pub last_known_ref : Option Text
  pub added_at : ℕ
  pub enabled : Bool
  pub auto_rebuild : Bool
  pub build_flags : PackageBuildFlags
  pub variants : PackageVariants

-- A row of `builds`, as `row_to_build` reads it.
pub record Build : Type 0 where
  pub id : ℕ
  pub package_id : ℕ
  pub seq : ℕ
  pub status : BuildStatus
  pub queued_at : ℕ
  pub started_at : Option ℕ
  pub finished_at : Option ℕ
  pub exit_code : Option ℤ
  pub pkg_file : Option Text
  pub pkg_version : Option Text
  pub worker_id : Option Text
  pub trigger : BuildTrigger
  pub variant : Text

-- A row of `build_logs`.
pub record LogRow : Type 0 where
  pub build_id : ℕ
  pub seq : ℕ
  pub stream : Stream
  pub line : Text
  pub ts : ℕ

pub record Setting : Type 0 where
  pub key : Text
  pub value : Text

-- A row of `sessions`.
pub record Session : Type 0 where
  pub token_hash : Text
  pub created_at : ℕ
  pub expires_at : ℕ
  pub user : Text

-- The database: its tables, each in the order of its rowids, and the largest id that the
-- AUTOINCREMENT column of `builds` has given out.
pub record Db : Type 0 where
  pub packages : List Package
  pub builds : List Build
  pub build_logs : List LogRow
  pub settings : List Setting
  pub sessions : List Session
  pub last_build_id : ℕ
