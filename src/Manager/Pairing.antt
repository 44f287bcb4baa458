-- ===== src/Manager/Pairing.antt =====
-- The tasks of the /chat connections over one table (manager/src/main.rs, `handle_chat`), as
-- interleaved steps: a reader inserts a question and later marks it sent, or marks it failed if the
-- worker's socket is closed; a qa task flushes a final answer; a client confirms. A reader holds one
-- question at a time, since it is one loop. No statement of the database fails here.
pub mod Spec
pub mod Maps
pub mod Simulation
pub mod Answers
pub mod Refinement
pub mod Fifo
pub mod Drained
use llm_chat.Prelude.{
  ℕ, ◌+◌, Text, Bool, false, Option, none, some, List, [], ◌∷◌, ◌++◌, text_eq, if◌then◌else◌,
  and_then,
}
use llm_chat.Manager.Db.{
  ChatDb, Question, sent, error, insert_pending, update_status, mark_confirmed,
}
use llm_chat.Manager.Frames.{Frame}
use llm_chat.Manager.Flush.{Clock, flush_answer}

pub data Event : Type 0 where
  post : Question → Event
  submit : (connection_id : Text) → Event
  give_up : (connection_id : Text) → Event
  answer : (connection_id text time_out : Text) → Event
  confirm : (seq : ℕ) (time : Text) → Event

-- `held` is the claim of the question that a connection's reader has inserted and not yet marked;
-- `delivered` is what a connection's client was sent in answer, in order.
pub record System : Type 0 where
  pub db : ChatDb
  pub held : Text → Option (ℕ × Text × Text)
  pub delivered : Text → List Frame

-- A map from connections with one entry changed.
abbrev pub put {ℓ} : {A : Type ℓ} → Text → A → (Text → A) → Text → A
put c x f d = if text_eq c d then x else f d

abbrev pub deliver : Text → Option Frame → (Text → List Frame) → Text → List Frame
deliver c none out = out
deliver c (some f) out = put c (out c ++ f ∷ []) out

abbrev pub initial : System
initial = record { db = record { rows = []; last_seq = 0 }; held = λ c. none; delivered = λ c. [] }

module _ (clock : Clock) where
  abbrev marks : Text → Option (ℕ × Text × Text) → (ℕ → ChatDb) → System → Option System
  marks c none mark s = none
  marks c (some w) mark s = some (record s { db = mark w.0; held = put c none s.held })

  abbrev posts : Question → Option (ℕ × Text × Text) → System → Option System
  posts q (some w) s = none
  posts q none s =
      let (db', seq) = insert_pending q s.db in
      some
        (record s { db = db'; held = put q.connection_id (some (seq, q.q_id, q.time_in)) s.held })

  -- `none` is a step that the state does not allow.
  unfoldable pub step : Event → System → Option System
  step (post q) s = posts q (s.held q.connection_id) s
  step (submit c) s = marks c (s.held c) (λ seq. update_status seq sent s.db) s
  step (give_up c) s = marks c (s.held c) (λ seq. update_status seq error s.db) s
  step (answer c text time_out) s =
      let (db', out) = flush_answer clock c text time_out false false s.db in
      some (record s { db = db'; delivered = deliver c out s.delivered })
  step (confirm seq time) s = some (record s { db = (mark_confirmed seq time s.db).0 })

  unfoldable pub run : List Event → System → Option System
  run [] s = some s
  run (e ∷ es) s = and_then (step e s) (run es)
