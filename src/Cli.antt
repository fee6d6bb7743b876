-- ===== src/Cli.antt =====
-- crates/paur-cli/src: the commands that talk to the daemon. The requests of client.rs are the calls of
-- the daemon's handlers; the daemon is on the same host, so they pass its gate.
pub mod Flag
pub mod Commands
use paur.Prelude.{
  ℕ, Bool, true, false, not, ◌&&◌, ◌||◌, Option, none, some, List, [], ◌∷◌, ◌++◌, map, ◌==◌,
  if◌then◌else◌, is_empty, is_some, unwrap_or, leb, ltb, ◌+◌,
}
use paur.Prelude.Text.{Text, codes, text_eq, trim_end_by, lowercase}
use paur.Prelude.Results.{Error, invalid_name, invalid, Result, ok, err}
use paur.Builder.{ends_with}
use paur.Core.Config.{Listen, unix, tcp}
use paur.Core.Name as Name
use paur.Core.Name.{PkgName}
use paur.Core.Variants as Variants
use paur.Core.Variants.{Variant, PackageVariants}
use paur.Db.Models.{Build}
use paur.Daemon.State.{App}
use paur.Daemon.Api.{PackageDto, status_code}
use paur.Daemon.Api.Packages as Api
use paur.Daemon.Api.Packages.{AddPackageBody}
use paur.Daemon.Api.Builds as Api_builds

-- `ClientError`, with the status of a refused request; `unexpected` is its `Other`.
pub data ClientError : Type 0 where
  http unexpected : ClientError
  api : ℕ → ClientError

-- `CmdError`
pub data CmdError : Type 0 where
  client : ClientError → CmdError
  core : Error → CmdError
  io other : CmdError

-- 2 is a wrong use, 1 any other failure.
unfoldable pub exit_code : CmdError → ℕ
exit_code (core invalid_name) = 2
exit_code (core invalid) = 2
exit_code _ = 1

pub data CmdResult {ℓ} (T : Type ℓ) : Type ℓ where
  failed : CmdError → CmdResult T
  done : T → CmdResult T

-- What the client makes of the daemon's answer: `parse`, and the same in the other requests.
abbrev pub response {ℓ} : {T : Type ℓ} → Result T → CmdResult T
unfolding status_code
response (err e) = failed (client (api (status_code e)))
response (ok value) = done value

abbrev pub sent {ℓ} : {T : Type ℓ} → App × Result T → App × CmdResult T
sent (a, r) = (a, response r)

-- The object in the body of a request, a key that is not there as `none`.
pub record AddPackageJson : Type 0 where
  pub name : Option Text
  pub auto_rebuild : Option Bool
  pub variants : Option (List Text)

-- The derived `Deserialize` of `AddPackageBody`: `name` has no default.
unfoldable pub read_body : AddPackageJson → Option AddPackageBody
read_body json = elim json.name [
  | none ↦ none
  | some name ↦ some (record {
    name = name;
    auto_rebuild = unwrap_or json.auto_rebuild false;
    variants = unwrap_or json.variants [];
  })
]

-- The extractor `Json<AddPackageBody>` in front of a handler: it answers a body that lacks the key with
-- 422.
unfoldable pub with_body {ℓ} :
    {T : Type ℓ}
    → AddPackageJson
    → (AddPackageBody → App → App × Result T)
    → App
    → App × CmdResult T
unfolding read_body response
with_body json handler a = elim (read_body json) [
  | none ↦ (a, failed (client (api 422)))
  | some body ↦ sent (handler body a)
]

unfoldable pub base_of : Text → Text
unfolding trim_end_by
base_of base = trim_end_by (λ c. c == b'/') base

unfoldable pub from_config : Listen → Text
unfolding base_of
from_config (tcp addr) = base_of (codes "http://" ++ addr)
from_config (unix path) = base_of (codes "http://127.0.0.1:7300")

-- `client` of main.rs
unfoldable pub client_base : Listen → Option Text → Text
unfolding base_of from_config
client_base listen none = from_config listen
client_base listen (some url) = base_of url

abbrev pub param : Text → Option Text → List Text
param k none = []
param k (some v) = (k ++ codes "=" ++ v) ∷ []

-- `join("&")`
abbrev pub joined_by : Text → List Text → Text
joined_by sep [] = []
joined_by sep (w ∷ []) = w
joined_by sep (w ∷ v ∷ ws) = w ++ sep ++ joined_by sep (v ∷ ws)

-- The limit is given as its digits.
unfoldable pub list_builds_url : Text → Option Text → Option Text → Option Text → Text
list_builds_url base pkg status limit =
    let q =
      param (codes "pkg") pkg ++ (param (codes "status") status ++ param (codes "limit") limit) in
    let url = base ++ codes "/api/v1/builds" in
    if is_empty q then url else url ++ codes "?" ++ joined_by (codes "&") q

-- `add`, up to what is printed
unfoldable pub add : ℕ → Text → Bool → List Variant → App → App × CmdResult PackageDto
unfolding Name.new Variants.as_str Api.add_package with_body
add now pkg auto_rebuild variants a = elim (Name.new pkg) [
  | err e ↦ (a, failed (core e))
  | ok name ↦
      with_body
        (record {
          name = some name.as_str;
          auto_rebuild = some auto_rebuild;
          variants = some (map Variants.as_str variants);
        })
        (Api.add_package now) a
]

-- `delete_package` of the client: the handler answers with a status, which is to be a success.
unfoldable pub deleted : CmdResult ℕ → CmdResult (Unit {0})
deleted (failed e) = failed e
deleted (done status) =
    if leb 200 status && ltb status 300 then done tt else failed (client (api status))

unfoldable pub remove : Text → App → App × CmdResult (Unit {0})
unfolding Name.new Api.delete_package_route response deleted
remove pkg a = elim (Name.new pkg) [
  | err e ↦ (a, failed (core e))
  | ok name ↦ let (b, r) = Api.delete_package_route name.as_str a in (b, deleted (response r))
]

-- The object of `json!` with which the handler answers a rebuild.
abbrev pub queued_answer : ℕ → List (Text × ℕ)
queued_answer n = (codes "queued", n) ∷ []

-- `v.get(key)`
unfoldable pub get_key : Text → List (Text × ℕ) → Option ℕ
unfolding text_eq
get_key key [] = none
get_key key ((k, n) ∷ fields) = if text_eq k key then some n else get_key key fields

-- `rebuild_package` of the client: the id is read under the key `build_id`.
unfoldable pub read_build_id : CmdResult ℕ → CmdResult ℕ
unfolding get_key
read_build_id (failed e) = failed e
read_build_id (done n) = elim (get_key (codes "build_id") (queued_answer n)) [
  | none ↦ failed (client unexpected)
  | some id ↦ done id
]

unfoldable pub rebuild : ℕ → Text → App → App × CmdResult ℕ
unfolding Name.new Api.rebuild_package response read_build_id
rebuild now pkg a = elim (Name.new pkg) [
  | err e ↦ (a, failed (core e))
  | ok name ↦ let (b, r) = Api.rebuild_package now name.as_str a in (b, read_build_id (response r))
]

-- `format_variants`
unfoldable pub format_variants : PackageVariants → Text
format_variants v = joined_by (codes ", ") (
    (if v.default then codes "default" ∷ [] else [])
    ++ ((if v.v3 then codes "v3" ∷ [] else []) ++ (if v.v4 then codes "v4" ∷ [] else [])))

unfoldable pub parse_on_off : Text → Option Bool
unfolding text_eq lowercase
parse_on_off raw =
    let s = lowercase raw in
    if text_eq s (codes "on")
      || text_eq s (codes "true")
      || text_eq s (codes "1")
      || text_eq s (codes "yes")
    then some true
    else if text_eq s (codes "off")
        || text_eq s (codes "false")
        || text_eq s (codes "0")
        || text_eq s (codes "no")
    then some false
    else none

unfoldable pub parse_variant_arg : Text → Option Variant
unfolding text_eq lowercase
parse_variant_arg raw =
    let s = lowercase raw in
    if text_eq s (codes "v3")
    then some Variant.v3
    else if text_eq s (codes "v4")
    then some Variant.v4
    else none

-- `write_log`
unfoldable pub write_log : Text → Text → Text
unfolding ends_with
write_log header blob =
    codes "== "
    ++ header
    ++ codes " ==\n"
    ++ blob
    ++ (if ends_with (codes "\n") blob then [] else codes "\n")
