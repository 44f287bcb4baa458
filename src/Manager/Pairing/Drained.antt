-- ===== src/Manager/Pairing/Drained.antt =====
-- The queue of a connection under answers to all that wait (manager/src/main.rs).
use mathlib.Core.Path.{subst}
use mathlib.Core.List.{append_assoc, append-nil}
use llm_chat.Prelude.{
  ℕ, ◌≤◌, ◌≡◌, refl, sym, ap, ◌∙◌, Text, Option, none, some, List, [], ◌∷◌, ◌++◌, map, length,
  head?, tail, and_then, arith, false,
}
use llm_chat.Manager.Db.Order.{IsOrdered}
use llm_chat.Manager.Db.Queue.{outstanding}
use llm_chat.Manager.Db.{ChatDb, mark_answered}
use llm_chat.Manager.Frames.{Frame}
use llm_chat.Manager.Flush.{Clock, answer_frame, flush_answer-Served, flush_answer-empty}
use llm_chat.Manager.Pairing.{System, Event, answer, deliver, put, step, run, initial}
use llm_chat.Manager.Pairing.Spec
use llm_chat.Manager.Pairing.Spec.{Spec}
use llm_chat.Manager.Pairing.Maps.{put_self}
use llm_chat.Manager.Pairing.Simulation.{Related}
use llm_chat.Manager.Pairing.Refinement.{run-Related}
use llm_chat.Manager.Pairing.Fifo.{answered_claims, answered_claims-append}

module _ (clock : Clock) (c : Text) where
  -- Answers of one connection, each with its text and time.
  abbrev pub answers_of : List (Text × Text) → List Event
  answers_of ts = map (λ t. answer c t.0 t.1) ts

  -- No question of the connection waits any more, and those that waited have been answered, in order,
  -- after what had been delivered.
  pub record IsDrained (s after : System) : Type 0 where
    pub empty : outstanding c after.db ≡ []
    pub all_answered :
        answered_claims (after.delivered c) ≡ answered_claims (s.delivered c) ++ outstanding c s.db

  abbrev flushed : System → ChatDb × Option Frame → Option System
  flushed s x = some (record s { db = x.0; delivered = deliver c x.1 s.delivered })

  abbrev served : System → ℕ × Text × Text → Text → Text → System
  served s w text time_out = record s {
    db = mark_answered w.0 text time_out s.db;
    delivered = put c (s.delivered c ++ answer_frame clock text time_out w ∷ []) s.delivered;
  }

  answer-served :
      (s : System) (o : IsOrdered s.db) (text time_out : Text) (w : ℕ × Text × Text)
      → head? (outstanding c s.db) ≡ some w
      → step clock (answer c text time_out) s ≡ some (served s w text time_out)
  unfolding step
  answer-served s o text time_out w h =
      ap (flushed s) (flush_answer-Served clock c text time_out s.db o w false h).flushed

  answer-idle :
      (s : System) (o : IsOrdered s.db) (text time_out : Text)
      → outstanding c s.db ≡ []
      → step clock (answer c text time_out) s ≡ some s
  unfolding step
  answer-idle s o text time_out h =
      ap (flushed s) (flush_answer-empty clock c text time_out s.db o false h)

  -- After an answer to `w`, what the rest drains is what was to be drained.
  served-IsDrained :
      (s after : System) (w : ℕ × Text × Text) (ws : List (ℕ × Text × Text)) (text time_out : Text)
      → outstanding c s.db ≡ w ∷ ws
      → outstanding c (served s w text time_out).db ≡ ws
      → IsDrained (served s w text time_out) after
      → IsDrained s after
  served-IsDrained s after w ws text time_out before rest d = record {
    empty = d.empty;
    all_answered =
        d.all_answered
        ∙ ap
            (λ q.
              answered_claims
                (put c (s.delivered c ++ answer_frame clock text time_out w ∷ []) s.delivered c)
              ++ q)
            rest
        ∙ ap (λ l. answered_claims l ++ ws) (put_self c _ s.delivered)
        ∙ ap (λ l. l ++ ws) (answered_claims-append (s.delivered c) _)
        ∙ append_assoc (answered_claims (s.delivered c)) (w ∷ []) ws
        ∙ ap (λ q. answered_claims (s.delivered c) ++ q) (sym before);
  }

  abbrev pub Drains : List (Text × Text) → System → Type 0
  Drains ts s = (after : System) × (run clock (answers_of ts) s ≡ some after) × IsDrained s after

  drain :
      (ts : List (Text × Text)) (s : System) (q : List (ℕ × Text × Text))
      → IsOrdered s.db
      → outstanding c s.db ≡ q
      → length q ≤ length ts
      → Drains ts s
  unfolding run
  drain [] s [] o e h = (
    s,
    refl,
    record {
      empty = e;
      all_answered = sym (ap (λ q. answered_claims (s.delivered c) ++ q) e ∙ append-nil _);
    },
  )
  drain [] s (w ∷ ws) o e h = absurd (omega arith)
  drain ((text, time_out) ∷ ts) s [] o e h =
      let (after, r, d) = drain ts s [] o e (omega arith) in
      (
        after,
        ap (λ x. and_then x (run clock (answers_of ts))) (answer-idle s o text time_out e) ∙ r,
        d,
      )
  drain ((text, time_out) ∷ ts) s (w ∷ ws) o e h =
      let first : head? (outstanding c s.db) ≡ some w = ap head? e in
      let done = flush_answer-Served clock c text time_out s.db o w false first in
      let rest : outstanding c (served s w text time_out).db ≡ ws = done.own ∙ ap tail e in
      let (after, r, d) = drain ts (served s w text time_out) ws done.ordered rest (omega arith) in
      (
        after,
        ap (λ x. and_then x (run clock (answers_of ts))) (answer-served s o text time_out w first)
            ∙ r,
        served-IsDrained s after w ws text time_out e rest d,
      )

  reached-IsOrdered : (s : System) (o : Option Spec) → Related (some s) o → IsOrdered s.db
  reached-IsOrdered s none r = absurd r
  reached-IsOrdered s (some t) r = r.ordered

  -- After any steps from the empty table, as many answers of a connection as it has questions that
  -- wait, or more, are all taken and leave none waiting: the questions that waited have been answered,
  -- in order, after those that were answered before.
  pub reached-Drains :
      (es : List Event) (s : System) (ts : List (Text × Text))
      → run clock es initial ≡ some s
      → length (outstanding c s.db) ≤ length ts
      → Drains ts s
  reached-Drains es s ts e h =
      drain ts s (outstanding c s.db)
        (reached-IsOrdered s _
          (subst (λ o. Related o (Spec.run clock es Spec.initial)) e (run-Related clock es)))
        refl h
