-- ===== src/Manager/Pairing/Answers.antt =====
-- An answer (manager/src/main.rs) as a step of the specification.
use llm_chat.Prelude.{
  ℕ, ◌+◌, ◌≤◌, ◌≡◌, sym, ap, ◌∙◌, Text, false, Option, none, some, length, drop, head?, tail,
  text_eq_refl, arith,
}
use mathlib.Core.Path.{subst}
use native.Mathlib.Numerals.{add-one}
use llm_chat.Manager.Db.{ChatDb, mark_answered}
use llm_chat.Manager.Db.Queue.{outstanding}
use llm_chat.Manager.Db.Held.{Posted-answer}
use llm_chat.Manager.Frames.{Frame}
use llm_chat.Manager.Flush.{
  Clock, flush_answer, Served, flush_answer-Served, flush_answer-empty, answer_frame,
}
use llm_chat.Manager.Pairing.{System, put, deliver}
use llm_chat.Manager.Pairing.Spec
use llm_chat.Manager.Pairing.Spec.{Spec, due}
use llm_chat.Manager.Pairing.Maps.{put_self, put_other, each, tail-drop, head-drop, head-none}
use llm_chat.Manager.Pairing.Simulation.{Refines, Related}

module _ (clock : Clock) (s : System) (t : Spec) (r : Refines s t) where
  module _ (c text time_out : Text) where
    -- The state after a flush with this result.
    abbrev pub flushed : ChatDb × Option Frame → Option System
    flushed p = some (record s { db = p.0; delivered = deliver c p.1 s.delivered })

    served_queue :
        (w : ℕ × Text × Text)
        → Served clock c text time_out s.db r.ordered w false
        → (d : Text)
        → outstanding d (mark_answered w.0 text time_out s.db)
          ≡ drop (put c (t.served c + 1) t.served d) (t.asked d)
    served_queue w v =
        each _ c
          (v.own
            ∙ ap tail (r.queue c)
            ∙ tail-drop (t.served c) (t.asked c)
            ∙ ap (λ n. drop n (t.asked c))
                (sym (put_self c (t.served c + 1) t.served ∙ add-one (t.served c))))
          (λ d ne.
            v.others d ne
            ∙ r.queue d
            ∙ ap (λ n. drop n (t.asked d)) (sym (put_other c d (t.served c + 1) t.served ne)))

    served_bound :
        (w : ℕ × Text × Text)
        → due c t ≡ some w
        → (d : Text) → put c (t.served c + 1) t.served d ≤ length (t.asked d)
    served_bound w h =
        each _ c (rw (text_eq_refl c) (omega (arith, head-drop (t.served c) (t.asked c) w h)))
          (λ d ne. rw (put_other c d (t.served c + 1) t.served ne) (r.bound d))

    pub answer-Related :
        (o : Option (ℕ × Text × Text))
        → due c t ≡ o
        → Related
            (flushed (flush_answer clock c text time_out false false s.db))
            (some (Spec.answers clock c text time_out o t))
    answer-Related none h =
        subst (λ p. Related (flushed p) (some t))
          (sym (
            flush_answer-empty clock c text time_out s.db r.ordered false
              (r.queue c ∙ head-none _ h)))
          r
    answer-Related (some w) h =
        let v =
          flush_answer-Served clock c text time_out s.db r.ordered w false
            (ap head? (r.queue c) ∙ h) in
        subst (λ p. Related (flushed p) (some (Spec.answers clock c text time_out (some w) t)))
          (sym v.flushed)
          (record {
            next = unfold mark_answered in r.next;
            held = r.held;
            delivered = ap (deliver c (some (answer_frame clock text time_out w))) r.delivered;
            queue = served_queue w v;
            bound = served_bound w h;
            ordered = v.ordered;
            posted = λ d u e.
                Posted-answer d u s.db (r.posted d u e) c text time_out w r.ordered
                  (ap head? (r.queue c) ∙ h);
          })
