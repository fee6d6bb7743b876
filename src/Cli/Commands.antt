-- ===== src/Cli/Commands.antt =====
-- What the commands of crates/paur-cli/src/cmd.rs do with a bad name, and the answer to a rebuild.
use paur.Prelude.{ℕ, ◌≡◌, refl, Bool, List, arith}
use paur.Prelude.Text.{Text}
use paur.Prelude.Results.{Error, invalid_name, ok, err}
use paur.Core.Name as Name
use paur.Core.Name.{PkgName}
use paur.Core.Name.Grammar.{new-eq}
use paur.Core.Variants.{Variant}
use paur.Daemon.State.{App}
use paur.Daemon.Api.Packages as Api
use paur.Cli.{
  failed, client, unexpected, core, exit_code, add, remove, rebuild, read_build_id, get_key,
  response,
}
use paur.Cli.Flag.{Overrides, flag}

-- A name that the grammar does not allow is refused before anything is sent: the four commands on a
-- package leave the daemon as it is and end with the error of the name, which is the exit code 2.
pub commands-refused :
    (now : ℕ) (pkg : Text) (e : Error) (auto : Bool) (variants : List Variant) (o : Overrides)
    (a : App)
    → Name.new pkg ≡ err e
    → (add now pkg auto variants a ≡ (a, failed (core e)))
      × (remove pkg a ≡ (a, failed (core e)))
      × (rebuild now pkg a ≡ (a, failed (core e)))
      × (flag now pkg o variants a ≡ (a, failed (core e)))
      × (exit_code (core e) ≡ 2)
unfolding add remove rebuild flag exit_code
commands-refused now pkg e auto variants o a bad =
    let why : e ≡ invalid_name = ground (arith, new-eq pkg) in
    (
      rw (bad, add) refl,
      rw (bad, remove) refl,
      rw (bad, rebuild) refl,
      rw (bad, flag) refl,
      rw why refl,
    )

-- A rebuild that the daemon has accepted, with all that it has queued, is reported as a failure with the
-- exit code 1: the answer has no key `build_id`.
pub rebuild-reported :
    (now n : ℕ) (pkg : Text) (name : PkgName) (a b : App)
    → Name.new pkg ≡ ok name
    → Api.rebuild_package now name.as_str a ≡ (b, ok n)
    → (rebuild now pkg a ≡ (b, failed (client unexpected))) × (exit_code (client unexpected) ≡ 1)
unfolding rebuild read_build_id get_key response exit_code
rebuild-reported now n pkg name a b named accepted = (rw (named, accepted, rebuild) refl, refl)
