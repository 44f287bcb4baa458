-- ===== src/Manager/Pairing/Spec.antt =====
-- What /chat promises (the protocol comment of manager/src/main.rs): the Nth answer of a connection
-- is paired with the Nth question that was submitted on it.
use llm_chat.Prelude.{ℕ, ◌+◌, Text, Option, none, some, List, [], ◌∷◌, ◌++◌, drop, head?, and_then}
use llm_chat.Manager.Db.{Question}
use llm_chat.Manager.Frames.{Frame}
use llm_chat.Manager.Flush.{Clock, answer_frame}
use llm_chat.Manager.Pairing.{Event, post, submit, give_up, answer, confirm, put, deliver}

-- `asked` is every question that a connection submitted, and `served` the number of its answers.
pub record Spec : Type 0 where
  pub next : ℕ
  pub held : Text → Option (ℕ × Text × Text)
  pub asked : Text → List (ℕ × Text × Text)
  pub served : Text → ℕ
  pub delivered : Text → List Frame

abbrev pub initial : Spec
initial = record {
  next = 1;
  held = λ c. none;
  asked = λ c. [];
  served = λ c. 0;
  delivered = λ c. [];
}

-- The question that the next answer of a connection belongs to.
abbrev pub due : Text → Spec → Option (ℕ × Text × Text)
due c t = head? (drop (t.served c) (t.asked c))

module _ (clock : Clock) where
  abbrev pub submits : Text → Option (ℕ × Text × Text) → Spec → Option Spec
  submits c none t = none
  submits c (some w) t =
      some (record t { held = put c none t.held; asked = put c (t.asked c ++ w ∷ []) t.asked })

  abbrev pub gives_up : Text → Option (ℕ × Text × Text) → Spec → Option Spec
  gives_up c none t = none
  gives_up c (some w) t = some (record t { held = put c none t.held })

  abbrev pub posts : Question → Option (ℕ × Text × Text) → Spec → Option Spec
  posts q (some w) t = none
  posts q none t = some (record t {
    next = t.next + 1;
    held = put q.connection_id (some (t.next, q.q_id, q.time_in)) t.held;
  })

  -- An answer that no question waits for is dropped.
  abbrev pub answers : Text → Text → Text → Option (ℕ × Text × Text) → Spec → Spec
  answers c text time_out none t = t
  answers c text time_out (some w) t = record t {
    served = put c (t.served c + 1) t.served;
    delivered = deliver c (some (answer_frame clock text time_out w)) t.delivered;
  }

  unfoldable pub step : Event → Spec → Option Spec
  step (post q) t = posts q (t.held q.connection_id) t
  step (submit c) t = submits c (t.held c) t
  step (give_up c) t = gives_up c (t.held c) t
  step (answer c text time_out) t = some (answers c text time_out (due c t) t)
  step (confirm seq time) t = some t

  unfoldable pub run : List Event → Spec → Option Spec
  run [] t = some t
  run (e ∷ es) t = and_then (step e t) (run es)
