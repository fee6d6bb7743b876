-- ===== src/Examples/OfCli.antt =====
-- Examples of the laws of the command line of crates/paur-cli.
use paur.Prelude.{ℕ, ◌≡◌, refl, true, false, none, some, List, [], ◌∷◌, map}
use paur.Prelude.Text.{codes, text_eq}
use paur.Prelude.Tables.{find}
use paur.Prelude.Results.{ok}
use paur.Core.Name as Name
use paur.Core.Name.{PkgName}
use paur.Core.Variants.{Variant, v3, v4, PackageVariants}
use paur.Db.Models.{Package}
use paur.Db.Packages.{new_package, insert_package, get_package_by_name}
use paur.Daemon.State.{App}
use paur.Daemon.Api.Packages as Api
use paur.Cli.{failed, client, unexpected, exit_code, rebuild}
use paur.Cli.Flag.{Overrides, updated_variants}
use paur.Cli.Flag.Toggles.{switched, updated_variants-is_active}
use paur.Cli.Commands.{rebuild-reported}
use paur.Examples.{app, yay, yay_url}

abbrev with_v4 : PackageVariants
with_v4 = record { default = true; v3 = false; v4 = true }

-- `--variant v3 --variant v4 --variant v4`
abbrev given : List Variant
given = v3 ∷ v4 ∷ v4 ∷ []

updated_variants-is_active_example :
    ((updated_variants given with_v4).default ≡ true)
    × ((updated_variants given with_v4).v3 ≡ switched v3 given false)
    × ((updated_variants given with_v4).v4 ≡ switched v4 given true)
updated_variants-is_active_example = updated_variants-is_active given with_v4 refl

abbrev low_memory_on : Overrides
low_memory_on = record { low_memory = some true; rust_codegen_units_1 = none; no_ccache = none }

abbrev yay_name : PkgName
yay_name = record { as_str = yay }

yay-accepted : Name.new yay ≡ ok yay_name
unfolding Name.new paur.Prelude.Text.trim paur.Prelude.Text.text_len paur.Prelude.Text.is_control
    paur.Core.Name.is_match
yay-accepted = refl

abbrev yay_row : Package
yay_row = new_package 1 5 yay yay_url true

abbrev rebuilt : App
rebuilt = (Api.rebuild_package 40 yay app).0

yay-queued : Api.rebuild_package 40 yay app ≡ (rebuilt, ok 1)
unfolding Api.rebuild_package get_package_by_name find insert_package new_package text_eq
yay-queued = refl

rebuild-reported_example :
    (rebuild 40 yay app ≡ (rebuilt, failed (client unexpected)))
    × (exit_code (client unexpected) ≡ 1)
rebuild-reported_example = rebuild-reported 40 1 yay yay_name app rebuilt yay-accepted yay-queued
