-- ===== src/Cli/Flag/Applies.antt =====
-- What `flag` of crates/paur-cli/src/cmd.rs leaves in the daemon's database, through the handlers of
-- crates/paur-daemon/src/api.rs.
use paur.Prelude.{◌≡◌, some}
use paur.Prelude.Text.{Text}
use paur.Core.Name as Name
use paur.Core.Variants.{PackageVariants}
use paur.Db.Models.{Package}
use paur.Db.Packages.{get_package_by_name}
use paur.Daemon.State.{App}
use paur.Daemon.Api.{PackageDto}
use paur.Cli.{CmdResult, failed}
use paur.Cli.Flag.Stored.{Stored}
use paur.Prelude.{◌⊎◌, ◌≢◌}
use paur.Cli.{api, client}

-- How the command ends: the row has the new flags, and the same variants as before. If these are the
-- variants that were asked for, the command ends well and shows the row; if not, it fails with 422.
abbrev pub Applied : Text → Package → PackageVariants → App × CmdResult PackageDto → Type 0
Applied name want wanted r =
    ((wanted ≡ want.variants) × Stored name want r)
    ⊎ ((wanted ≢ want.variants)
        × (r.1 ≡ failed (client (api 422)))
        × (get_package_by_name name r.0.db ≡ some want))
