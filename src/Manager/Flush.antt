-- ===== src/Manager/Flush.antt =====
-- `flush_answer` of manager/src/main.rs: a finished answer is paired with the oldest question.
-- The two database calls may fail, and chrono gives the distance of two times.
use llm_chat.Prelude.{
  ℕ, ◌≡◌, ◌≢◌, refl, ap, ◌∙◌, Text, Bool, true, false, Option, none, some, [], ℤ, negsuc,
  if◌then◌else◌, head?, tail, map,
}
use llm_chat.Manager.Db.{ChatDb, pop_sent, mark_answered, claim}
use llm_chat.Manager.Db.Order.{IsOrdered, mark_answered-IsOrdered}
use llm_chat.Manager.Db.Queue.{outstanding, pop_sent-eq-head, answer_head, answer_other}
use llm_chat.Manager.Frames.{Frame, a}

-- `chrono::DateTime::parse_from_rfc3339`, and the milliseconds from one instant to another.
pub record Clock : Type 1 where
  pub Instant : Type 0
  pub parse_from_rfc3339 : Text → Option Instant
  pub num_milliseconds : Instant → Instant → ℤ

module _ (clock : Clock) where
  open clock use {Instant, parse_from_rfc3339, num_milliseconds}

  abbrev elapsed : Option Instant → Option Instant → ℤ
  elapsed (some s) (some t) = num_milliseconds s t
  elapsed (some s) none = negsuc 0
  elapsed none _ = negsuc 0

  unfoldable pub latency_ms : Text → Text → ℤ
  latency_ms time_in time_out = elapsed (parse_from_rfc3339 time_in) (parse_from_rfc3339 time_out)

  abbrev pub answer_frame : Text → Text → ℕ × Text × Text → Frame
  answer_frame final_text time_out (seq, q_id, time_in) =
      a q_id seq final_text time_in time_out (latency_ms time_in time_out)

  -- What follows `pop_sent`.
  abbrev forward : Text → Text → Bool → Option (ℕ × Text × Text) → ChatDb → ChatDb × Option Frame
  forward final_text time_out mark_fails none db = (db, none)
  forward final_text time_out mark_fails (some row) db = (
    if mark_fails then db else mark_answered row.0 final_text time_out db,
    some (answer_frame final_text time_out row),
  )

  -- The new table, and the frame that goes to the client.
  unfoldable pub flush_answer :
      (connection_id final_text time_out : Text) (pop_fails mark_fails : Bool)
      → ChatDb
      → ChatDb × Option Frame
  flush_answer connection_id final_text time_out pop_fails mark_fails db =
      if pop_fails
      then (db, none)
      else forward final_text time_out mark_fails (pop_sent connection_id db) db

  module _ (c text time_out : Text) (db : ChatDb) (o : IsOrdered db) where
    abbrev pub marked : ℕ × Text × Text → Bool → ChatDb
    marked w mark_fails = if mark_fails then db else mark_answered w.0 text time_out db

    -- What an answer does when the question `w` is the oldest of its connection.
    pub record Served (w : ℕ × Text × Text) (mark_fails : Bool) : Type 0 where
      pub flushed :
          flush_answer c text time_out false mark_fails db
          ≡ (marked w mark_fails, some (answer_frame text time_out w))
      pub own :
          outstanding c (marked w mark_fails)
          ≡ (if mark_fails then outstanding c db else tail (outstanding c db))
      pub others : (d : Text) → c ≢ d → outstanding d (marked w mark_fails) ≡ outstanding d db
      pub ordered : IsOrdered (marked w mark_fails)

    flush_answer_lem :
        (w : ℕ × Text × Text) (mark_fails : Bool)
        → head? (outstanding c db) ≡ some w
        → flush_answer c text time_out false mark_fails db
          ≡ (marked w mark_fails, some (answer_frame text time_out w))
    unfolding flush_answer
    flush_answer_lem w mark_fails h =
        ap (λ r. forward text time_out mark_fails r db) (pop_sent-eq-head c db o ∙ h)

    -- In an ordered table, and if the query for the oldest question does not fail, an answer that finds
    -- the question `w` at the head of its connection's queue is sent to the client with the id, the number and the time of `w`. The question leaves
    -- the queue if the row could be marked, and stays if not; no other connection's queue
    -- changes, and the table stays ordered.
    pub flush_answer-Served :
        (w : ℕ × Text × Text) (mark_fails : Bool)
        → head? (outstanding c db) ≡ some w
        → Served w mark_fails
    flush_answer-Served w true h = record {
      flushed = flush_answer_lem w true h;
      own = refl;
      others = λ d ne. refl;
      ordered = o;
    }
    flush_answer-Served w false h = record {
      flushed = flush_answer_lem w false h;
      own = unfold mark_answered in answer_head c text time_out w db.rows o.ascending h;
      others = λ d ne.
          unfold mark_answered in
          ap (map claim) (answer_other c text time_out w d db.rows ne o.ascending h);
      ordered = mark_answered-IsOrdered w.0 text time_out db o;
    }

    -- In an ordered table, an answer of a connection that no question waits for changes nothing and
    -- sends nothing.
    pub flush_answer-empty :
        (mark_fails : Bool)
        → outstanding c db ≡ []
        → flush_answer c text time_out false mark_fails db ≡ (db, none)
    unfolding flush_answer
    flush_answer-empty mark_fails h =
        ap (λ r. forward text time_out mark_fails r db) (pop_sent-eq-head c db o ∙ ap head? h)
