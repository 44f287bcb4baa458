-- ===== src/Manager/Pairing/Refinement.antt =====
-- The interleaved tasks of /chat (manager/src/main.rs) and their specification.
use llm_chat.Prelude.{refl, sym, ap, Option, none, some, List, [], ◌∷◌, and_then, arith}
use mathlib.Core.Path.{subst}
use llm_chat.Manager.Db.{sent, error, update_status}
use llm_chat.Manager.Flush.{Clock}
use llm_chat.Manager.Pairing.{
  System, Event, post, submit, give_up, answer, confirm, marks, posts, step, run, initial,
}
use llm_chat.Manager.Pairing.Spec
use llm_chat.Manager.Pairing.Spec.{Spec, due}
use llm_chat.Manager.Pairing.Simulation.{
  Refines, Related, post-Related, submit-Related, give_up-Related, confirm-Related,
}
use llm_chat.Manager.Pairing.Answers.{answer-Related}

module _ (clock : Clock) where
  -- From states that stand for one another, a step leads to such states, or neither can take it.
  pub step-Related :
      (e : Event) (s : System) (t : Spec)
      → Refines s t
      → Related (step clock e s) (Spec.step clock e t)
  unfolding step Spec.step
  step-Related (post q) s t r =
      subst (λ o. Related (posts clock q (s.held q.connection_id) s) (Spec.posts clock q o t))
        (ap (λ f. f q.connection_id) (sym r.held)) (post-Related clock s t r q _ refl)
  step-Related (submit c) s t r =
      subst
        (λ o.
          Related (marks clock c (s.held c) (λ seq. update_status seq sent s.db) s)
            (Spec.submits clock c o t))
        (ap (λ f. f c) (sym r.held)) (submit-Related clock s t r c _ refl)
  step-Related (give_up c) s t r =
      subst
        (λ o.
          Related (marks clock c (s.held c) (λ seq. update_status seq error s.db) s)
            (Spec.gives_up clock c o t))
        (ap (λ f. f c) (sym r.held)) (give_up-Related clock s t r c _ refl)
  step-Related (answer c text time_out) s t r = answer-Related clock s t r c text time_out _ refl
  step-Related (confirm seq time) s t r = confirm-Related clock s t r seq time

  -- A step, and the rest of the run.
  then-Related :
      (o : Option System) (o' : Option Spec) (f : System → Option System) (g : Spec → Option Spec)
      → ((s : System) (t : Spec) → Refines s t → Related (f s) (g t))
      → Related o o'
      → Related (and_then o f) (and_then o' g)
  then-Related none none f g h r = tt
  then-Related none (some t) f g h r = absurd r
  then-Related (some s) none f g h r = absurd r
  then-Related (some s) (some t) f g h r = h s t r

  run_from :
      (es : List Event) (s : System) (t : Spec)
      → Refines s t
      → Related (run clock es s) (Spec.run clock es t)
  unfolding run Spec.run
  run_from [] s t r = r
  run_from (e ∷ es) s t r = then-Related _ _ _ _ (run_from es) (step-Related e s t r)

  pub initial-Refines : Refines initial Spec.initial
  initial-Refines = record {
    next = refl;
    held = refl;
    delivered = refl;
    queue = λ c. refl;
    bound = λ c. omega arith;
    ordered = record { ascending = tt; bounded = tt };
    posted = λ c w e. cc;
  }

  -- Every interleaving of the tasks, from the empty table, ends in a state that stands for the
  -- specification's after the same events, or neither can take all of them.
  pub run-Related :
      (es : List Event) → Related (run clock es initial) (Spec.run clock es Spec.initial)
  run-Related es = run_from es initial Spec.initial initial-Refines
