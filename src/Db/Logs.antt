-- ===== src/Db/Logs.antt =====
-- The statements on `build_logs` of crates/paur-db/src/queries.rs.
pub mod Laws
use paur.Prelude.{
  ℕ, suc, ◌+◌, Bool, true, false, ◌&&◌, List, [], ◌∷◌, ◌++◌, map, ◌==◌, if◌then◌else◌, max_of, any,
}
use paur.Prelude.Tables.{select, sort_asc}
use paur.Prelude.Text.{Text}
use paur.Prelude.Results.{Result, ok, err, db}
use paur.Db.Models.{Db, Build, LogRow, Stream}

-- `WHERE build_id = ?`
abbrev pub of_build : ℕ → LogRow → Bool
of_build build_id l = l.build_id == build_id

-- The first statement of `append_log`: `SELECT COALESCE(MAX(seq), 0) + 1`.
unfoldable pub next_log_seq : ℕ → Db → ℕ
unfolding select
next_log_seq build_id d = max_of (λ l. l.seq) (select (of_build build_id) d.build_logs) + 1

-- Its second statement: the insertion violates the foreign key if there is no build with the id, and
-- the primary key if the build has a line of that `seq`.
unfoldable pub insert_log : ℕ → ℕ → ℕ → Stream → Text → Db → Result Db
insert_log now build_id seq stream line d =
    let row : LogRow = record {
      build_id = build_id;
      seq = seq;
      stream = stream;
      line = line;
      ts = now;
    } in
    if any (λ (b : Build). b.id == build_id) d.builds
    then (if any (λ (l : LogRow). l.build_id == build_id && l.seq == seq) d.build_logs
        then err db
        else ok (record d { build_logs = d.build_logs ++ row ∷ [] }))
    else err db

-- Both, with no other writer between them: no transaction joins the two.
unfoldable pub append_log : ℕ → ℕ → Stream → Text → Db → Result Db
unfolding next_log_seq insert_log
append_log now build_id stream line d =
    insert_log now build_id (next_log_seq build_id d) stream line d

-- `ORDER BY seq ASC`
unfoldable pub read_logs : ℕ → Db → List (Stream × Text)
unfolding select sort_asc
read_logs build_id d =
    map (λ l. (l.stream, l.line)) (sort_asc (λ l. l.seq) (select (of_build build_id) d.build_logs))
