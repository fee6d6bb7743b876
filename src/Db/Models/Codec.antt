-- ===== src/Db/Models/Codec.antt =====
-- The text forms of the enumerations of crates/paur-db/src/models.rs.
use paur.Prelude.{◌≡◌, refl, ◌↔◌, true, some, arith}
use paur.Prelude.Text.{Text, codes, eq_of_text_eq}
use paur.Db.Models.{
  BuildStatus, queued, as_str, parse_status, status_eq, BuildTrigger, manual, trigger_str,
  parse_trigger, Stream, stdout, stderr, stream_str, parse_stream,
}

parse_status-as_str_self : (b : BuildStatus) → parse_status (as_str b) ≡ some b
unfolding as_str parse_status
parse_status-as_str_self queued = refl
parse_status-as_str_self _ = refl

status_of_parse : (s : Text) (b : BuildStatus) → parse_status s ≡ some b → s ≡ as_str b
unfolding as_str parse_status
status_of_parse s b h = ground (
  arith,
  eq_of_text_eq s (codes "queued"),
  eq_of_text_eq s (codes "running"),
  eq_of_text_eq s (codes "success"),
  eq_of_text_eq s (codes "failed"),
  eq_of_text_eq s (codes "cancelled"),
)

parse_trigger-trigger_str_self : (b : BuildTrigger) → parse_trigger (trigger_str b) ≡ some b
unfolding trigger_str parse_trigger
parse_trigger-trigger_str_self manual = refl
parse_trigger-trigger_str_self _ = refl

trigger_of_parse : (s : Text) (b : BuildTrigger) → parse_trigger s ≡ some b → s ≡ trigger_str b
unfolding trigger_str parse_trigger
trigger_of_parse s b h = ground (
  arith,
  eq_of_text_eq s (codes "manual"),
  eq_of_text_eq s (codes "poll"),
  eq_of_text_eq s (codes "rebuild"),
  eq_of_text_eq s (codes "dep"),
)

parse_stream-stream_str_self : (b : Stream) → parse_stream (stream_str b) ≡ some b
unfolding stream_str parse_stream
parse_stream-stream_str_self stdout = refl
parse_stream-stream_str_self stderr = refl

stream_of_parse : (s : Text) (b : Stream) → parse_stream s ≡ some b → s ≡ stream_str b
unfolding stream_str parse_stream
stream_of_parse s b h =
    ground (arith, eq_of_text_eq s (codes "stdout"), eq_of_text_eq s (codes "stderr"))

-- A text parses to a build status, a trigger or a stream exactly when it is the text written for it,
-- so what a statement writes into a column is what a row read back has.
pub parse-str_iff :
    (s : Text) (b : BuildStatus) (t : BuildTrigger) (r : Stream)
    → ((parse_status s ≡ some b) ↔ (s ≡ as_str b))
      × ((parse_trigger s ≡ some t) ↔ (s ≡ trigger_str t))
      × ((parse_stream s ≡ some r) ↔ (s ≡ stream_str r))
parse-str_iff s b t r = (
  (status_of_parse s b, λ e. rw e (parse_status-as_str_self b)),
  (trigger_of_parse s t, λ e. rw e (parse_trigger-trigger_str_self t)),
  (stream_of_parse s r, λ e. rw e (parse_stream-stream_str_self r)),
)

pub status_eq_refl : (b : BuildStatus) → status_eq b b ≡ true
unfolding status_eq
status_eq_refl b = ground arith

pub eq_of_status_eq : (a b : BuildStatus) → status_eq a b ≡ true → a ≡ b
unfolding status_eq
eq_of_status_eq a b h = ground arith
