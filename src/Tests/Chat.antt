-- ===== src/Tests/Chat.antt =====
-- Two connections of /chat that interleave, and single answers on a small table.
use llm_chat.Prelude.{
  ℕ, ◌-◌, ◌≤◌, arith, ◌≡◌, refl, Text, false, none, some, List, [], ◌∷◌, ◌++◌, length, pos,
  unwrap_or, head?,
}
use llm_chat.Manager.Db.{
  ChatDb, Question, sent, insert_pending, update_status, pop_sent, oldest, mark_answered,
  mark_confirmed,
}
use llm_chat.Manager.Db.Order.{IsOrdered, insert_pending-IsOrdered, update_status-IsOrdered}
use llm_chat.Manager.Db.Queue.{outstanding, pop_sent-eq-head}
use llm_chat.Manager.Flush.{
  Clock, flush_answer, latency_ms, Served, flush_answer-Served, flush_answer-empty,
}
use llm_chat.Manager.Pairing.{Event, post, submit, answer, confirm, System, initial, step, run}
use llm_chat.Manager.Pairing.Spec as Spec
use llm_chat.Manager.Pairing.Refinement.{run-Related}
use llm_chat.Manager.Pairing.Simulation.{Related}
use llm_chat.Manager.Pairing.Fifo.{answered_claims, delivered-outstanding}
use llm_chat.Manager.Pairing.Drained.{Drains, reached-Drains}

abbrev pub wall_clock : Clock
wall_clock = record {
  Instant = ℕ;
  parse_from_rfc3339 = λ t. some (length t);
  num_milliseconds = λ s t. pos (t - s);
}

-- Connections are named by one letter.
abbrev pub alice : Text
alice = b'a' ∷ []

abbrev bob : Text
bob = b'b' ∷ []

abbrev question : Text → Text → Question
question connection_id q_id = record {
  connection_id = connection_id;
  sid = [];
  q_id = q_id;
  text = b'?' ∷ [];
  time_in = b'1' ∷ [];
  attachment_paths_json = none;
  user_id = some connection_id;
  chars_in = 1;
  files = 0;
  file_bytes = pos 0;
}

abbrev q1 : Text
q1 = b'1' ∷ []

abbrev q2 : Text
q2 = b'2' ∷ []

-- Alice asks two questions around one of Bob's; an answer to nobody comes first, Bob is answered
-- before Alice, and Bob confirms.
abbrev traffic : List Event
traffic =
    answer alice (b'x' ∷ []) []
    ∷ post (question alice q1)
    ∷ post (question bob q1)
    ∷ submit bob
    ∷ submit alice
    ∷ post (question alice q2)
    ∷ submit alice
    ∷ answer bob (b'y' ∷ []) []
    ∷ answer alice (b'z' ∷ []) []
    ∷ confirm 2 []
    ∷ []

run-Related_example :
    Related (run wall_clock traffic initial) (Spec.run wall_clock traffic Spec.initial)
run-Related_example = run-Related wall_clock traffic

abbrev pub after_traffic : System
after_traffic = unwrap_or (run wall_clock traffic initial) initial

traffic_result : run wall_clock traffic initial ≡ some after_traffic
unfolding run step insert_pending update_status flush_answer pop_sent oldest mark_answered
    mark_confirmed latency_ms
traffic_result = refl

alice_waits : outstanding alice after_traffic.db ≡ (3, q2, b'1' ∷ []) ∷ []
unfolding run step insert_pending update_status flush_answer pop_sent oldest mark_answered
    mark_confirmed latency_ms
alice_waits = refl

delivered-outstanding_example :
    (t : Spec.Spec) × (Spec.run wall_clock traffic Spec.initial ≡ some t)
    × ((c : Text)
        → answered_claims (after_traffic.delivered c) ++ outstanding c after_traffic.db ≡ t.asked c)
delivered-outstanding_example =
    delivered-outstanding wall_clock traffic after_traffic traffic_result

abbrev empty_db : ChatDb
empty_db = record { rows = []; last_seq = 0 }

-- One submitted question.
abbrev one_db : ChatDb
one_db = update_status 1 sent (insert_pending (question alice q1) empty_db).0

one_db-IsOrdered : IsOrdered one_db
one_db-IsOrdered = update_status-IsOrdered 1 sent _ (
    insert_pending-IsOrdered (question alice q1) empty_db (record { ascending = tt; bounded = tt }))

abbrev first_claim : ℕ × Text × Text
first_claim = (1, q1, b'1' ∷ [])

one_db_head : head? (outstanding alice one_db) ≡ some first_claim
unfolding insert_pending update_status
one_db_head = refl

bob_waits_for_nothing : outstanding bob one_db ≡ []
unfolding insert_pending update_status
bob_waits_for_nothing = refl

pop_sent-eq-head_example : pop_sent alice one_db ≡ head? (outstanding alice one_db)
pop_sent-eq-head_example = pop_sent-eq-head alice one_db one_db-IsOrdered

flush_answer-Served_example :
    Served wall_clock alice q2 [] one_db one_db-IsOrdered first_claim false
flush_answer-Served_example =
    flush_answer-Served wall_clock alice q2 [] one_db one_db-IsOrdered first_claim false one_db_head

flush_answer-empty_example : flush_answer wall_clock bob q2 [] false false one_db ≡ (one_db, none)
flush_answer-empty_example =
    flush_answer-empty wall_clock bob q2 [] one_db one_db-IsOrdered false bob_waits_for_nothing

abbrev two_answers : List (Text × Text)
two_answers = (b'u' ∷ [], []) ∷ (b'v' ∷ [], []) ∷ []

few_wait : length (outstanding alice after_traffic.db) ≤ length two_answers
unfolding run step insert_pending update_status flush_answer pop_sent oldest mark_answered
    mark_confirmed latency_ms
few_wait = omega arith

reached-Drains_example : Drains wall_clock alice two_answers after_traffic
reached-Drains_example =
    reached-Drains wall_clock alice traffic after_traffic two_answers traffic_result few_wait
