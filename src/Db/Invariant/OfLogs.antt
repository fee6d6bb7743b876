-- ===== src/Db/Invariant/OfLogs.antt =====
-- `append_log` of crates/paur-db/src/queries.rs: what it adds, and what two writers at once do.
use paur.Prelude.{
  ℕ, ◌<◌, ◌≡◌, refl, true, false, ◌&&◌, List, [], ◌∷◌, ◌++◌, ◌==◌, arith, any, All, All-map_pred,
  All-append_one, Pairwise-append_one, ==_iff, if◌then◌else◌, max_of, Bool-cases, inl, inr,
}
use paur.Prelude.Text.{Text}
use paur.Prelude.Tables.{select}
use paur.Prelude.Tables.Laws.{max_of-select}
use paur.Prelude.Results.{ok, err, db}
use paur.Db.Models.{Db, LogRow, Stream}
use paur.Db.Logs.{of_build, next_log_seq, insert_log, append_log}
use paur.Db.Invariant.{IsValid, ByPackage, log_key, has_build}

abbrev pub log_row : ℕ → ℕ → ℕ → Stream → Text → LogRow
log_row now id seq stream line = record {
  build_id = id;
  seq = seq;
  stream = stream;
  line = line;
  ts = now;
}

-- The database after a line was added.
abbrev pub logged : ℕ → ℕ → Stream → Text → Db → Db
logged now id stream line d = record d {
  build_logs = d.build_logs ++ log_row now id (next_log_seq id d) stream line ∷ [];
}

pub seq-lt-next :
    (id : ℕ) (d : Db) → All (λ l. of_build id l ≡ true → l.seq < next_log_seq id d) d.build_logs
unfolding next_log_seq
seq-lt-next id d =
    All-map_pred (λ l h e. omega (arith, h e)) d.build_logs
      (max_of-select (of_build id) (λ l. l.seq)
        (max_of (λ l. l.seq) (select (of_build id) d.build_logs)) d.build_logs (omega arith))

free_number :
    (id n : ℕ) (ls : List LogRow)
    → All (λ l. of_build id l ≡ true → l.seq < n) ls
    → any (λ (l : LogRow). l.build_id == id && l.seq == n) ls ≡ false
free_number id n [] h = refl
free_number id n (l ∷ ls) h = elim (Bool-cases (of_build id l)) [
  | inl e ↦ let below = h.0 e in ground (arith, free_number id n ls h.1)
  | inr e ↦ ground (arith, free_number id n ls h.1)
]

-- With no other writer, `append_log` succeeds exactly if the build exists.
pub append_log-eq :
    (now id : ℕ) (stream : Stream) (line : Text) (d : Db)
    → append_log now id stream line d
      ≡ (if has_build d.builds id then ok (logged now id stream line d) else err db)
unfolding append_log insert_log
append_log-eq now id stream line d =
    rw (free_number id (next_log_seq id d) d.build_logs (seq-lt-next id d)) refl

pub logged-IsValid :
    (now id : ℕ) (stream : Stream) (line : Text) (d : Db)
    → has_build d.builds id ≡ true
    → IsValid d
    → IsValid (logged now id stream line d)
logged-IsValid now id stream line d owner v =
    let row = log_row now id (next_log_seq id d) stream line in
    record {
      builds_valid = v.builds_valid;
      packages_valid = v.packages_valid;
      logs_valid = record {
        seqs =
            Pairwise-append_one (λ k l. ByPackage (log_key k) (log_key l)) d.build_logs row
              v.logs_valid.seqs
              (All-map_pred (λ l h e. h ((==_iff l.build_id id).1 e)) d.build_logs
                (seq-lt-next id d));
        references =
            All-append_one (λ l. has_build d.builds l.build_id ≡ true) d.build_logs row
              v.logs_valid.references owner;
      };
    }
