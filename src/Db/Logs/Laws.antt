-- ===== src/Db/Logs/Laws.antt =====
-- What readers of the log of crates/paur-db/src/queries.rs see, with one writer and with two.
use mathlib.Core.List.{map-append}
use paur.Prelude.{
  ℕ, ◌≤◌, ◌<◌, ◌≡◌, refl, Bool, true, ◌&&◌, ◌||◌, List, [], ◌∷◌, ◌++◌, ◌==◌, arith, any, All,
  if◌then◌else◌, Bool-cases, inl, inr, ==_iff, ==_refl, ◌∙◌,
}
use paur.Prelude.Text.{Text}
use paur.Prelude.Tables.{select}
use paur.Prelude.Tables.Laws.{All-select_with}
use paur.Prelude.Tables.Sorting.{sort_asc-append_max}
use paur.Prelude.Results.{ok, err, db}
use paur.Db.Models.{Db, Stream}
use paur.Db.Logs.{of_build, next_log_seq, insert_log, append_log, read_logs}
use paur.Db.Invariant.{has_build}
use paur.Db.Invariant.OfLogs.{log_row, logged, append_log-eq, seq-lt-next}

select-append_one {ℓ} :
    {A : Type ℓ} (p : A → Bool) (xs : List A) (y : A)
    → select p (xs ++ y ∷ []) ≡ (if p y then select p xs ++ y ∷ [] else select p xs)
unfolding select
select-append_one p [] y = ground arith
select-append_one p (x ∷ xs) y = ground (arith, select-append_one p xs y)

largest :
    (id j : ℕ) (d : Db)
    → id ≡ j
    → All (λ l. l.seq ≤ next_log_seq id d) (select (of_build j) d.build_logs)
largest id j d same =
    All-select_with (λ l. of_build id l ≡ true → l.seq < next_log_seq id d) (of_build j)
      (λ l. l.seq ≤ next_log_seq id d)
      (λ l p h. let below : l.seq < next_log_seq id d = h (ground arith) in omega arith)
      d.build_logs (seq-lt-next id d)

-- A line that was appended comes last when its build's log is read, and the log of any other build
-- reads as before.
pub read_logs-logged :
    (now id j : ℕ) (stream : Stream) (line : Text) (d : Db)
    → read_logs j (logged now id stream line d)
      ≡ (if id == j then read_logs j d ++ (stream, line) ∷ [] else read_logs j d)
unfolding read_logs
read_logs-logged now id j stream line d =
    let row = log_row now id (next_log_seq id d) stream line in
    elim (Bool-cases (id == j)) [
      | inl same ↦
          rw
            (
              same,
              select-append_one (of_build j) d.build_logs row,
              same,
              sort_asc-append_max (λ l. l.seq) (select (of_build j) d.build_logs) row
                  (largest id j d ((==_iff id j).0 same)),
            )
            (map-append _ _ _)
      | inr other ↦ rw (other, select-append_one (of_build j) d.build_logs row, other) refl
    ]

any-append_one {ℓ} :
    {A : Type ℓ} (q : A → Bool) (xs : List A) (y : A) → any q (xs ++ y ∷ []) ≡ (any q xs || q y)
any-append_one q [] y = ground arith
any-append_one q (x ∷ xs) y = ground (arith, any-append_one q xs y)

-- Two writers that both read the next number before either inserts: the first insertion succeeds,
-- and the second fails on the primary key, so its line is not stored.
pub append_log_race :
    (now later id : ℕ) (r s : Stream) (line other : Text) (d : Db)
    → has_build d.builds id ≡ true
    → (insert_log now id (next_log_seq id d) r line d ≡ ok (logged now id r line d))
      × (insert_log later id (next_log_seq id d) s other (logged now id r line d) ≡ err db)
unfolding insert_log
append_log_race now later id r s line other d owner = (
  unfold append_log in append_log-eq now id r line d ∙ rw owner refl,
  rw
      (
        owner,
        any-append_one (λ l. l.build_id == id && l.seq == next_log_seq id d) d.build_logs
            (log_row now id (next_log_seq id d) r line),
      )
      (ground (arith, ==_refl id, ==_refl (next_log_seq id d))),
)

-- A line that `append_log` stores comes last when its build's log is read, and the log of any other
-- build reads as before.
pub read_logs-append_log :
    (now id j : ℕ) (stream : Stream) (line : Text) (d e : Db)
    → append_log now id stream line d ≡ ok e
    → read_logs j e ≡ (if id == j then read_logs j d ++ (stream, line) ∷ [] else read_logs j d)
read_logs-append_log now id j stream line d e h = elim (Bool-cases (has_build d.builds id)) [
  | inl owner ↦
      let same : e ≡ logged now id stream line d =
        ground (arith, append_log-eq now id stream line d) in
      rw same (read_logs-logged now id j stream line d)
  | inr gone ↦ absurd (ground (arith, append_log-eq now id stream line d))
]
