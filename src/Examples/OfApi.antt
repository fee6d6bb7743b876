-- ===== src/Examples/OfApi.antt =====
-- Examples of the laws of the HTTP handlers and of the sessions of crates/paur-daemon.
use mathlib.Core.Option
use paur.Prelude.{
  ℕ, pos, suc, ◌≡◌, refl, ◌≤◌, ◌+◌, true, false, not, ◌&&◌, ◌||◌, none, some, List, [], ◌∷◌, ◌++◌,
  All, arith, if◌then◌else◌, ltb, length,
}
use paur.Prelude.{◌↔◌, ◌==◌}
use paur.Prelude.Text.{codes, text_eq}
use paur.Prelude.Results.{ok}
use paur.Core.Auth.{Crypto}
use paur.Core.Flags.{no_flags}
use paur.Core.Variants.{PackageVariants, active}
use paur.Db.Models.{Db, rebuild, as_str}
use paur.Db.Packages.{insert_package}
use paur.Db.Builds.{get_build, new_build, next_seq}
use paur.Db.Invariant.{IsValid}
use paur.Db.Lifecycle.{after_cancel}
use paur.Daemon.State.{has_id}
use paur.Daemon.Worker.{work}
use paur.Daemon.Api.{enqueue_all_variants}
use paur.Daemon.Api.Packages.{
  AddPackageBody, add_package, set_package_auto, set_package_flags, set_package_variants,
  delete_package_route, rebuild_package,
}
use paur.Daemon.Api.Builds.{cancel_build, list_builds}
use paur.Daemon.Api.Enqueues.{Ordered, enqueue_all_variants_lem, enqueue_all_variants-unrun}
use paur.Daemon.Api.Cancels.{response, is_live, cancel_route}
use paur.Daemon.Api.Filters.{wanted, list_builds-wanted}
use paur.Daemon.Api.Handlers.{handlers-IsValid}
use paur.Daemon.Auth.{granted, v4, admit, login, logout, session_user, admin, setting_password_hash}
use paur.Daemon.Auth.Gate.{LetIn, admit-eq}
use paur.Daemon.Auth.Sessions.{login-session_user, session_user-logout}
use paur.Daemon.Api.{parse_variants_field}
use paur.Daemon.Api.Additions.{add_package-refused}
use paur.Core.Name as Name
use paur.Core.Name.{PkgName}
use paur.Prelude.{is_some}
use paur.Prelude.Results.{invalid, err}
use paur.Db.Packages.{get_package_by_name}
use paur.Examples.{empty_db, one_build-IsValid, one_build-owner, app, outside, yay}

abbrev body : AddPackageBody
body = record { name = yay; auto_rebuild = false; variants = codes "v3" ∷ [] }

handlers-IsValid_example :
    IsValid (add_package 50 body app).0.db
    × IsValid (set_package_auto yay false app).0.db
    × IsValid (set_package_flags yay no_flags app).0.db
    × IsValid (set_package_variants 50 yay (codes "v3" ∷ []) app).0.db
    × IsValid (delete_package_route yay app).0.db
    × IsValid (rebuild_package 50 yay app).0.db
    × IsValid (cancel_build 50 1 app).0.db
handlers-IsValid_example = handlers-IsValid 50 1 yay body false no_flags app one_build-IsValid

abbrev both : PackageVariants
both = record { default = true; v3 = true; v4 = false }

enqueue_all_variants_lem_example :
    ((enqueue_all_variants 50 1 both rebuild app).1 ≡ ok tt)
    × Ordered 1 rebuild (active both) app.db (enqueue_all_variants 50 1 both rebuild app).0.db
    × ((enqueue_all_variants 50 1 both rebuild app).0.wakes
        ≡ app.wakes ++ suc app.db.last_build_id ∷ [])
enqueue_all_variants_lem_example =
    enqueue_all_variants_lem 50 1 both rebuild app one_build-IsValid one_build-owner refl

enqueue_all_variants-unrun_example :
    get_build 3 (work (λ n. outside) 5 (enqueue_all_variants 50 1 both rebuild app).0).db
    ≡ get_build 3 (enqueue_all_variants 50 1 both rebuild app).0.db
unfolding insert_package
enqueue_all_variants-unrun_example =
    enqueue_all_variants-unrun 50 1 both rebuild (λ n. outside) 5 3 app one_build-IsValid
      one_build-owner refl (omega arith, tt) (omega arith)

cancel_route_example :
    ((cancel_build 50 1 app).1 ≡ response 1 (get_build 1 app.db))
    × (get_build 1 (cancel_build 50 1 app).0.db ≡ Option.map (after_cancel 50) (get_build 1 app.db))
    × (has_id 2 (cancel_build 50 1 app).0.cancel_tokens
        ≡ (has_id 2 app.cancel_tokens && not (2 == 1 && is_live (get_build 1 app.db))))
    × (has_id 2 (cancel_build 50 1 app).0.fired ≡ (
        has_id 2 app.fired
        || (2 == 1 && (has_id 1 app.cancel_tokens && is_live (get_build 1 app.db)))))
cancel_route_example = cancel_route 50 1 2 app

queued_listed :
    list_builds none (some (codes "queued")) none (some (pos 5000)) app ≡ ok app.db.builds
unfolding list_builds insert_package new_build paur.Db.Builds.list_builds
queued_listed = refl

list_builds-wanted_example :
    (length app.db.builds ≤ 1000)
    × All
        (λ b.
          (wanted (some (codes "queued")) (as_str b.status) ≡ true)
          × (wanted none b.variant ≡ true))
        app.db.builds
list_builds-wanted_example =
    list_builds-wanted none (some (codes "queued")) none (some (pos 5000)) app app.db.builds
      queued_listed

-- With the identity for a digest, and bytes as their own encoding.
abbrev crypto : Crypto
crypto = record {
  digest = λ bytes. bytes;
  bcrypt_verify = λ plain hash. some (text_eq plain hash);
  hex_encode = λ bytes. bytes;
  hex_decode = λ text. some text;
}

abbrev guarded_db : Db
guarded_db = record empty_db {
  settings = record { key = setting_password_hash; value = codes "secret" } ∷ [];
}

abbrev token : List ℕ
token = 7 ∷ 8 ∷ 9 ∷ []

abbrev logged_in : Db
logged_in = record guarded_db {
  sessions = record { token_hash = token; created_at = 100; expires_at = 86500; user = admin } ∷ [];
}

admin-login : login crypto 100 token admin (codes "secret") guarded_db ≡ granted (logged_in, token)
unfolding login text_eq
admin-login = refl

login-session_user_example :
    (admin ≡ admin)
    × (session_user crypto 200 (some token) logged_in
        ≡ (if ltb 200 (100 + 86400) then some admin else none))
login-session_user_example =
    login-session_user crypto 100 200 token admin (codes "secret") token guarded_db logged_in refl
      admin-login

session_user-logout_example :
    session_user crypto 200 (some token) (logout crypto (some token) logged_in) ≡ none
session_user-logout_example = session_user-logout crypto 200 (some token) logged_in

admit-eq_example :
    (admit crypto 200 (some (v4 10 0 0 1)) (some token) logged_in ≡ granted tt)
    ↔ LetIn crypto 200 (some (v4 10 0 0 1)) (some token) logged_in
admit-eq_example = admit-eq crypto 200 (some (v4 10 0 0 1)) (some token) logged_in

abbrev odd_body : AddPackageBody
odd_body = record { name = codes "paru"; auto_rebuild = false; variants = codes "v5" ∷ [] }

abbrev paru : PkgName
paru = record { as_str = codes "paru" }

paru-accepted : Name.new odd_body.name ≡ ok paru
unfolding Name.new paur.Prelude.Text.trim paur.Prelude.Text.text_len paur.Prelude.Text.is_control
    paur.Core.Name.is_match
paru-accepted = refl

odd_variants-refused : parse_variants_field odd_body.variants ≡ err invalid
unfolding parse_variants_field
odd_variants-refused = refl

add_package-refused_example :
    ((add_package 50 odd_body app).1 ≡ err invalid)
    × (is_some (get_package_by_name paru.as_str (add_package 50 odd_body app).0.db) ≡ true)
add_package-refused_example =
    add_package-refused 50 odd_body paru invalid app paru-accepted odd_variants-refused
