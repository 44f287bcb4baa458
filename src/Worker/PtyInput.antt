-- ===== src/Worker/PtyInput.antt =====
-- The log of what is typed to the sessions (`pty_input_record`, `pty_input_mark` and
-- `query_pty_input` of worker/src/lib.rs) and the loop of a /s socket that fills it. The database is
-- a list of rows, the oldest first, and may be missing.
pub mod Audited
use llm_chat.Prelude.{
  ℕ, ◌+◌, Text, Bool, true, false, ◌&&◌, Option, none, some, List, [], ◌∷◌, ◌++◌, lit, ℤ, pos,
  negsuc, map, keep, take, length, text_eq, ltb, ◌==◌, find, insert, Result, ok, err, if◌then◌else◌,
}
use llm_chat.Json.{Json, null, int, str, obj, field, end}
use llm_chat.Worker.Session.{JsonSession, Pipe, write}

pub record PtyRow : Type 0 where
  pub seq : ℕ
  pub sid : Text
  pub payload : List ℕ
  pub time_in : Text
  pub status : Text
  pub time_written : Option Text

-- `next` is the number of the next row: AUTOINCREMENT never gives one twice.
pub record PtyDb : Type 0 where
  pub rows : List PtyRow
  pub next : ℕ

-- A row in its state when it is inserted.
abbrev pub pending_row : ℕ → Text → List ℕ → Text → PtyRow
pending_row seq sid payload time_in = record {
  seq = seq;
  sid = sid;
  payload = payload;
  time_in = time_in;
  status = lit "pending";
  time_written = none;
}

abbrev with_row : Text → List ℕ → Text → PtyDb → PtyDb
with_row sid bytes now db = record {
  rows = db.rows ++ pending_row db.next sid bytes now ∷ [];
  next = db.next + 1;
}

-- A failed INSERT is only logged.
unfoldable pub pty_input_record :
    (insert_fails : Bool) → Text → List ℕ → (now : Text) → Option PtyDb → Option ℕ × Option PtyDb
pty_input_record insert_fails sid bytes now none = (none, none)
pty_input_record true sid bytes now (some db) = (none, some db)
pty_input_record false sid bytes now (some db) = (some db.next, some (with_row sid bytes now db))

abbrev pub mark_row : ℕ → Bool → Text → PtyRow → PtyRow
mark_row seq write_ok now r =
    if r.seq == seq
    then record r {
      status = if write_ok then lit "written" else lit "error";
      time_written = some now;
    }
    else r

-- The result of the UPDATE is ignored.
unfoldable pub pty_input_mark :
    (update_fails : Bool) → ℕ → Bool → (now : Text) → Option PtyDb → Option PtyDb
pty_input_mark update_fails seq write_ok now none = none
pty_input_mark true seq write_ok now (some db) = some db
pty_input_mark false seq write_ok now (some db) =
    some (record db { rows = map (mark_row seq write_ok now) db.rows })

abbrev reversed : List PtyRow → List PtyRow → List PtyRow
reversed acc [] = acc
reversed acc (r ∷ rs) = reversed (r ∷ acc) rs

abbrev equals : Option Text → Text → Bool
equals none t = true
equals (some s) t = text_eq s t

abbrev time_json : Option Text → Json
time_json none = null
time_json (some t) = str t

module _ (from_utf8_lossy : List ℕ → Text) where
  unfoldable pub row_json : PtyRow → Json
  row_json r = obj (
      field (lit "seq") (int (pos r.seq)) (
        field (lit "sid") (str r.sid) (
          field (lit "payload") (str (from_utf8_lossy r.payload)) (
            field (lit "payloadLen") (int (pos (length r.payload))) (
              field (lit "timeIn") (str r.time_in) (
                field (lit "status") (str r.status)
                  (field (lit "timeWritten") (time_json r.time_written) end)))))))

  -- The newest rows first, at most `limit` of them.
  unfoldable pub query_pty_input : (sid status : Option Text) → ℕ → Option PtyDb → List Json
  unfolding row_json
  query_pty_input sid status limit none = []
  query_pty_input sid status limit (some db) =
      map row_json
        (take limit (reversed [] (keep (λ r. equals sid r.sid && equals status r.status) db.rows)))

-- What one frame of a /s socket meets: the times, the failures of the database, and the pipe.
pub record FrameMoment : Type 0 where
  pub insert_fails : Bool
  pub update_fails : Bool
  pub time_in : Text
  pub time_written : Text
  pub pipe : Pipe

module _ (to_string : Json → Text) (from_utf8_lossy : List ℕ → Text) where
  abbrev is_ok : Result (Unit {0}) Text → Bool
  is_ok (ok u) = true
  is_ok (err e) = false

  -- The write to the session, if it is still there, and whether it was accepted.
  abbrev pub written_to :
      Pipe
      → List ℕ
      → Text
      → Option JsonSession
      → List (Text × JsonSession)
      → Bool × List (Text × JsonSession)
  written_to pipe bytes sid none sessions = (false, sessions)
  written_to pipe bytes sid (some s) sessions =
      let (r, t) = write to_string from_utf8_lossy pipe bytes s in (is_ok r, insert sid t sessions)

  abbrev pub marked : FrameMoment → Option ℕ → Bool → Option PtyDb → Option PtyDb
  marked m none write_ok db = db
  marked m (some seq) write_ok db = pty_input_mark m.update_fails seq write_ok m.time_written db

  -- One frame of a /s socket: it is recorded, written and marked.
  unfoldable pub session_frame :
      FrameMoment
      → Text
      → List ℕ
      → List (Text × JsonSession) × Option PtyDb
      → List (Text × JsonSession) × Option PtyDb
  unfolding pty_input_record pty_input_mark write find insert
  session_frame m sid bytes (sessions, db) =
      let (seq, recorded) = pty_input_record m.insert_fails sid bytes m.time_in db in
      let (write_ok, after) = written_to m.pipe bytes sid (find sid sessions) sessions in
      (after, marked m seq write_ok recorded)
