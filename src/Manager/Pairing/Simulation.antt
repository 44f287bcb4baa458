-- ===== src/Manager/Pairing/Simulation.antt =====
-- The steps of the interleaved tasks (manager/src/main.rs) as steps of the specification.
use llm_chat.Prelude.{
  ℕ, ◌+◌, ◌≤◌, ◌≡◌, ◌≢◌, sym, ap, ◌∙◌, Text, Option, none, some, [], ◌∷◌, ◌++◌, length, drop,
  text_eq_refl, arith, length-append,
}
use mathlib.Core.Path.{subst}
use mathlib.Core.Option.{some-injective}
use llm_chat.Manager.Db.{
  Status, ChatDb, Question, sent, error, insert_pending, update_status, mark_confirmed,
}
use llm_chat.Manager.Db.Order.{
  IsOrdered, insert_pending-IsOrdered, update_status-IsOrdered, mark_confirmed-IsOrdered,
}
use llm_chat.Manager.Db.Queue.{outstanding}
use llm_chat.Manager.Db.Posted.{
  Posted, submit_own, submit_other, give_up_any, insert_any, confirm_any,
}
use llm_chat.Manager.Db.Held.{
  Posted-confirm, Posted-submit, Posted-give_up, Posted-insert, Posted-new,
}
use llm_chat.Manager.Flush.{Clock}
use llm_chat.Manager.Pairing.{System, confirm, put, marks, posts, step}
use llm_chat.Manager.Pairing.Spec
use llm_chat.Manager.Pairing.Spec.{Spec, due}
use llm_chat.Manager.Pairing.Maps.{put_self, put_other, each, drop-snoc}

-- The state of the tasks stands for a state of the specification.
pub record Refines (s : System) (t : Spec) : Type 0 where
  pub next : t.next ≡ s.db.last_seq + 1
  pub held : t.held ≡ s.held
  pub delivered : t.delivered ≡ s.delivered
  pub queue : (c : Text) → outstanding c s.db ≡ drop (t.served c) (t.asked c)
  pub bound : (c : Text) → t.served c ≤ length (t.asked c)
  pub ordered : IsOrdered s.db
  pub posted : (c : Text) (w : ℕ × Text × Text) → s.held c ≡ some w → Posted c w s.db.rows

-- Both are stuck, or both went on to states that stand for one another.
abbrev pub Related : Option System → Option Spec → Type 0
Related none none = Unit
Related (some s) (some t) = Refines s t
Related none (some t) = ⊥
Related (some s) none = ⊥

module _ (s : System) (db' : ChatDb) (c : Text) where
  -- The changed entry of `held`, then the others.
  held_each :
      (o : Option (ℕ × Text × Text))
      → ((w : ℕ × Text × Text) → o ≡ some w → Posted c w db'.rows)
      → ((d : Text) → c ≢ d → (w : ℕ × Text × Text) → s.held d ≡ some w → Posted d w db'.rows)
      → (d : Text) (w : ℕ × Text × Text) → put c o s.held d ≡ some w
      → Posted d w db'.rows
  held_each o own others =
      each (λ d. (w : ℕ × Text × Text) → put c o s.held d ≡ some w → Posted d w db'.rows) c
        (λ w h. own w (sym (put_self c o s.held) ∙ h))
        (λ d ne w h. others d ne w (sym (put_other c d o s.held ne) ∙ h))

module _ (clock : Clock) (s : System) (t : Spec) (r : Refines s t) where
  pub post-Related :
      (q : Question) (o : Option (ℕ × Text × Text))
      → s.held q.connection_id ≡ o
      → Related (posts clock q o s) (Spec.posts clock q o t)
  unfolding insert_pending
  post-Related q (some w) h = tt
  post-Related q none h = record {
    next = ap (λ n. n + 1) r.next;
    held =
        ap (λ n. put q.connection_id (some (n, q.q_id, q.time_in)) t.held) r.next
        ∙ ap (put q.connection_id (some (s.db.last_seq + 1, q.q_id, q.time_in))) r.held;
    delivered = r.delivered;
    queue = λ c. insert_any q s.db c ∙ r.queue c;
    bound = r.bound;
    ordered = insert_pending-IsOrdered q s.db r.ordered;
    posted =
        held_each s (insert_pending q s.db).0 q.connection_id _
          (λ w e.
            subst (λ v. Posted q.connection_id v (insert_pending q s.db).0.rows)
              (some-injective _ w e) (Posted-new q s.db r.ordered))
          (λ d ne w e. Posted-insert d w s.db (r.posted d w e) q r.ordered);
  }

  module _ (c : Text) (w : ℕ × Text × Text) (h : s.held c ≡ some w) where
    -- A reader that holds `w` marks it: `status` is sent or error.
    marked_posted :
        (status : Status)
        → ((d : Text) (v : ℕ × Text × Text)
            → c ≢ d
            → Posted d v s.db.rows
            → Posted d v (update_status w.0 status s.db).rows)
        → (d : Text) (v : ℕ × Text × Text) → put c none s.held d ≡ some v
        → Posted d v (update_status w.0 status s.db).rows
    marked_posted status keeps =
        held_each s (update_status w.0 status s.db) c none (λ v e. cc)
          (λ d ne v e. keeps d v ne (r.posted d v e))

    submit_queue :
        (d : Text)
        → outstanding d (update_status w.0 sent s.db)
          ≡ drop (t.served d) (put c (t.asked c ++ w ∷ []) t.asked d)
    submit_queue =
        each _ c
          (submit_own c w s.db r.ordered (r.posted c w h)
            ∙ ap (λ l. l ++ w ∷ []) (r.queue c)
            ∙ sym (drop-snoc (t.served c) (t.asked c) w (r.bound c))
            ∙ sym (ap (drop (t.served c)) (put_self c (t.asked c ++ w ∷ []) t.asked)))
          (λ d ne.
            submit_other c w s.db r.ordered (r.posted c w h) d ne
            ∙ r.queue d
            ∙ sym (ap (drop (t.served d)) (put_other c d (t.asked c ++ w ∷ []) t.asked ne)))

    submit_bound : (d : Text) → t.served d ≤ length (put c (t.asked c ++ w ∷ []) t.asked d)
    submit_bound =
        each _ c
          (rw (text_eq_refl c) (omega (arith, r.bound c, length-append (t.asked c) (w ∷ []))))
          (λ d ne. rw (put_other c d (t.asked c ++ w ∷ []) t.asked ne) (r.bound d))

  pub submit-Related :
      (c : Text) (o : Option (ℕ × Text × Text))
      → s.held c ≡ o
      → Related (marks clock c o (λ seq. update_status seq sent s.db) s) (Spec.submits clock c o t)
  submit-Related c none h = tt
  submit-Related c (some w) h = record {
    next = unfold update_status in r.next;
    held = ap (put c none) r.held;
    delivered = r.delivered;
    queue = submit_queue c w h;
    bound = submit_bound c w h;
    ordered = update_status-IsOrdered w.0 sent s.db r.ordered;
    posted =
        marked_posted c w h sent
          (λ d v ne p. Posted-submit d v s.db p c w (λ e. ne (sym e)) (r.posted c w h));
  }

  pub give_up-Related :
      (c : Text) (o : Option (ℕ × Text × Text))
      → s.held c ≡ o
      → Related
          (marks clock c o (λ seq. update_status seq error s.db) s)
          (Spec.gives_up clock c o t)
  give_up-Related c none h = tt
  give_up-Related c (some w) h = record {
    next = unfold update_status in r.next;
    held = ap (put c none) r.held;
    delivered = r.delivered;
    queue = λ d. give_up_any c w s.db r.ordered (r.posted c w h) d ∙ r.queue d;
    bound = r.bound;
    ordered = update_status-IsOrdered w.0 error s.db r.ordered;
    posted =
        marked_posted c w h error
          (λ d v ne p. Posted-give_up d v s.db p c w (λ e. ne (sym e)) (r.posted c w h));
  }

  pub confirm-Related : (seq : ℕ) (time : Text) → Related (step clock (confirm seq time) s) (some t)
  unfolding step
  confirm-Related seq time = record {
    next = unfold mark_confirmed in r.next;
    held = r.held;
    delivered = r.delivered;
    queue = λ d. confirm_any seq time s.db d ∙ r.queue d;
    bound = r.bound;
    ordered = mark_confirmed-IsOrdered seq time s.db r.ordered;
    posted = λ d w e. Posted-confirm d w s.db (r.posted d w e) seq time;
  }
