-- ===== src/Db/Settings.antt =====
-- The statements on `settings` of crates/paur-db/src/queries.rs.
pub mod Laws
use paur.Prelude.{Bool, Option, none, some, [], ◌∷◌, ◌++◌, if◌then◌else◌, any}
use paur.Prelude.Tables.{find, update}
use paur.Prelude.Text.{Text, text_eq}
use paur.Db.Models.{Db, Setting}

abbrev pub keyed : Text → Setting → Bool
keyed key s = text_eq s.key key

abbrev pub value_of : Option Setting → Option Text
value_of none = none
value_of (some s) = some s.value

unfoldable pub get_setting : Text → Db → Option Text
unfolding find
get_setting key d = value_of (find (keyed key) d.settings)

-- `ON CONFLICT(key) DO UPDATE SET value = excluded.value`
unfoldable pub set_setting : Text → Text → Db → Db
unfolding update
set_setting key value d =
    if any (keyed key) d.settings
    then record d { settings = update (keyed key) (λ s. record s { value = value }) d.settings }
    else record d { settings = d.settings ++ record { key = key; value = value } ∷ [] }
