-- ===== src/Daemon/State.antt =====
-- `AppState` of crates/paur-daemon/src/worker.rs, and the log sink.
use paur.Prelude.{ℕ, Bool, not, ◌||◌, List, [], ◌∷◌, ◌++◌, ◌==◌, if◌then◌else◌, any}
use paur.Prelude.Tables.{delete, select}
use paur.Prelude.Text.{Text}
use paur.Prelude.Results.{Result, ok, err, ◌>>=◌}
use paur.Db.Models.{Db, stdout}
use paur.Db.Logs.{append_log}

-- The maps by build id are the lists of their keys. `fired` are the builds whose token was fired,
-- `wakes` the ids in the channel to the worker, oldest first.
pub record App : Type 0 where
  pub db : Db
  pub log_channels : List ℕ
  pub cancel_tokens : List ℕ
  pub fired : List ℕ
  pub wakes : List ℕ

abbrev pub has_id : ℕ → List ℕ → Bool
has_id id ids = any (λ i. i == id) ids

-- `HashMap::insert`
unfoldable pub insert_id : ℕ → List ℕ → List ℕ
insert_id id ids = if has_id id ids then ids else id ∷ ids

-- `HashMap::remove`
unfoldable pub remove_id : ℕ → List ℕ → List ℕ
unfolding delete
remove_id id ids = delete (λ i. i == id) ids

-- With the worker running, its channel is there.
unfoldable pub send_wake : ℕ → App → App
send_wake id a = record a { wakes = a.wakes ++ id ∷ [] }

unfoldable pub channel_for : ℕ → App → App
unfolding insert_id
channel_for id a = record a { log_channels = insert_id id a.log_channels }

unfoldable pub drop_channel : ℕ → App → App
unfolding remove_id
drop_channel id a = record a { log_channels = remove_id id a.log_channels }

-- `line.replace(['\r', '\n'], "")`
unfoldable pub one_line : Text → Text
unfolding select
one_line line = select (λ c. not (c == 13 || c == 10)) line

-- `DbLogSink::write`; on an error the state stays as it was.
unfoldable pub write_line : ℕ → ℕ → Text → App → Result App
unfolding append_log one_line channel_for
write_line now id line a = do
  d ← append_log now id stdout (one_line line) a.db
  ok (channel_for id (record a { db = d }))

abbrev pub or_same : App → Result App → App
or_same a (ok b) = b
or_same a (err e) = a

-- The tasks of `run_in_container` that feed the sink: `let _ = sink.write(&line).await`.
unfoldable pub write_lines : ℕ → ℕ → List Text → App → App
unfolding write_line
write_lines now id [] a = a
write_lines now id (line ∷ rest) a = write_lines now id rest (or_same a (write_line now id line a))
