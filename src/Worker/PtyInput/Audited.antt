-- ===== src/Worker/PtyInput/Audited.antt =====
-- The row that a frame leaves in the log of what is typed (worker/src/lib.rs).
use llm_chat.Prelude.{
  ℕ, ◌+◌, ◌<◌, ◌≡◌, refl, ap, ◌∙◌, Text, Bool, true, false, Option, none, some, lit, Result, ok,
  err, if◌then◌else◌, List, [], ◌∷◌, ◌++◌, map, All, All-append, All-map_imp, find, ◌==◌, arith,
}
use mathlib.Core.List.{map-append}
use llm_chat.Json.{Json}
use llm_chat.Worker.Session.{JsonSession, Pipe, write}
use llm_chat.Worker.PtyInput.{
  PtyRow, PtyDb, FrameMoment, pending_row, with_row, mark_row, pty_input_record, pty_input_mark,
  written_to, is_ok, session_frame,
}

-- The rows are numbered below the next number.
abbrev pub IsNumbered : PtyDb → Type 0
IsNumbered db = All (λ r. r.seq < db.next) db.rows

mark_row-other :
    (seq : ℕ) (b : Bool) (now : Text) (rs : List PtyRow)
    → All (λ r. r.seq < seq) rs
    → map (mark_row seq b now) rs ≡ rs
mark_row-other seq b now [] h = refl
mark_row-other seq b now (r ∷ rs) (h, k) =
    let other : (r.seq == seq) ≡ false = ground arith in
    rw other (ap (λ x. r ∷ x) (mark_row-other seq b now rs k))

-- The row of a frame, as the frame leaves it.
abbrev pub audit_row : FrameMoment → ℕ → Text → List ℕ → Bool → PtyRow
audit_row m seq sid bytes write_ok = record {
  seq = seq;
  sid = sid;
  payload = bytes;
  time_in = m.time_in;
  status = if write_ok then lit "written" else lit "error";
  time_written = some m.time_written;
}

-- Whether a session takes a frame: it is there, and the write to it succeeds.
abbrev pub takes :
    (to_string : Json → Text) (from_utf8_lossy : List ℕ → Text)
    → Pipe
    → List ℕ
    → Option JsonSession
    → Bool
takes to_string from_utf8_lossy pipe bytes none = false
takes to_string from_utf8_lossy pipe bytes (some s) =
    elim (write to_string from_utf8_lossy pipe bytes s).0 [ ok u ↦ true | err e ↦ false ]

mark_row-pending :
    (m : FrameMoment) (seq : ℕ) (sid : Text) (bytes : List ℕ) (b : Bool)
    → mark_row seq b m.time_written (pending_row seq sid bytes m.time_in)
      ≡ audit_row m seq sid bytes b
mark_row-pending m seq sid bytes b = let e : (seq == seq) ≡ true = ground arith in rw e refl

marked_rows :
    (m : FrameMoment) (sid : Text) (bytes : List ℕ) (b : Bool) (db : PtyDb)
    → IsNumbered db
    → map (mark_row db.next b m.time_written) (with_row sid bytes m.time_in db).rows
      ≡ db.rows ++ audit_row m db.next sid bytes b ∷ []
marked_rows m sid bytes b db h =
    map-append (mark_row db.next b m.time_written) db.rows _
    ∙ ap
        (λ rs.
          rs ++ mark_row db.next b m.time_written (pending_row db.next sid bytes m.time_in) ∷ [])
        (mark_row-other db.next b m.time_written db.rows h)
    ∙ ap (λ r. db.rows ++ r ∷ []) (mark_row-pending m db.next sid bytes b)

-- The log after a frame: one row more, which says whether the session took the frame.
abbrev pub audited : FrameMoment → Text → List ℕ → Bool → PtyDb → PtyDb
audited m sid bytes write_ok db = record {
  rows = db.rows ++ audit_row m db.next sid bytes write_ok ∷ [];
  next = db.next + 1;
}

audited-IsNumbered :
    (m : FrameMoment) (sid : Text) (bytes : List ℕ) (b : Bool) (db : PtyDb)
    → IsNumbered db
    → IsNumbered (audited m sid bytes b db)
audited-IsNumbered m sid bytes b db h =
    All-append (λ r. r.seq < db.next + 1) db.rows _
      (All-map_imp (λ r. r.seq < db.next) (λ r. r.seq < db.next + 1) db.rows (λ r k. omega arith) h)
      (omega arith, tt)

abbrev renumbered : List PtyRow → ℕ → PtyDb
renumbered rs n = record { rows = rs; next = n }

module _ (to_string : Json → Text) (from_utf8_lossy : List ℕ → Text) where
  written_to-takes :
      (pipe : Pipe) (sid : Text) (bytes : List ℕ) (sessions : List (Text × JsonSession))
      (o : Option JsonSession)
      → (written_to to_string from_utf8_lossy pipe bytes sid o sessions).0
        ≡ takes to_string from_utf8_lossy pipe bytes o
  written_to-takes pipe sid bytes sessions none = refl
  written_to-takes pipe sid bytes sessions (some s) = is_ok-takes _
    where
      is_ok-takes :
          (r : Result (Unit {0}) Text)
          → is_ok to_string from_utf8_lossy r ≡ (elim r [ ok u ↦ true | err e ↦ false ])
      is_ok-takes (ok u) = refl
      is_ok-takes (err e) = refl

  -- While the database works and its rows are numbered below the next number, a frame of a /s socket
  -- adds exactly one row, with the frame's bytes, marked written if the session took the frame and as
  -- an error if the session is gone or its pipe failed; every other row stays as it is, and the rows
  -- stay numbered.
  pub session_frame-audited :
      (m : FrameMoment) (sid : Text) (bytes : List ℕ) (sessions : List (Text × JsonSession))
      (db : PtyDb)
      → m.insert_fails ≡ false
      → m.update_fails ≡ false
      → IsNumbered db
      → ((session_frame to_string from_utf8_lossy m sid bytes (sessions, some db)).1
          ≡ some (
              audited m sid bytes
                (takes to_string from_utf8_lossy m.pipe bytes (find sid sessions))
                db))
        × IsNumbered (
            audited m sid bytes
              (takes to_string from_utf8_lossy m.pipe bytes (find sid sessions))
              db)
  unfolding session_frame pty_input_record pty_input_mark
  session_frame-audited m sid bytes sessions db ins upd h =
      let b = takes to_string from_utf8_lossy m.pipe bytes (find sid sessions) in
      (
        rw (ins, upd, written_to-takes m.pipe sid bytes sessions (find sid sessions))
            (ap (λ rs. some (renumbered rs (db.next + 1))) (marked_rows m sid bytes b db h)),
        audited-IsNumbered m sid bytes b db h,
      )
