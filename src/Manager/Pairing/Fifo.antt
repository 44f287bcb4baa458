-- ===== src/Manager/Pairing/Fifo.antt =====
-- What a client of /chat (manager/src/main.rs) sees of the pairing.
use llm_chat.Prelude.{
  ℕ, zero, suc, ◌+◌, ◌≤◌, ◌≡◌, refl, sym, ap, ◌∙◌, Text, Option, none, some, List, [], ◌∷◌, ◌++◌,
  length, length-append, take, drop, head?, and_then, arith, text_eq_refl,
}
use mathlib.Core.Option.{some-injective}
use mathlib.Core.Path.{subst}
use native.Mathlib.Numerals.{add-one}
use llm_chat.Manager.Db.{Question}
use llm_chat.Manager.Db.Queue.{outstanding}
use llm_chat.Manager.Frames.{Frame, initialized, ack, a, err, usage, dir}
use llm_chat.Manager.Flush.{Clock, answer_frame}
use llm_chat.Manager.Pairing.{System, Event, post, submit, give_up, answer, confirm, run, initial}
use llm_chat.Manager.Pairing.Spec
use llm_chat.Manager.Pairing.Spec.{Spec, due}
use llm_chat.Manager.Pairing.Maps.{put_self, put_other, each, head-drop}
use llm_chat.Manager.Pairing.Simulation.{Related}
use llm_chat.Manager.Pairing.Refinement.{run-Related}

-- The questions that the answers among some frames name.
abbrev pub answered_claims : List Frame → List (ℕ × Text × Text)
answered_claims [] = []
answered_claims (a id seq text time_in time_out ms ∷ fs) = (seq, id, time_in) ∷ answered_claims fs
answered_claims (initialized s p c o ∷ fs) = answered_claims fs
answered_claims (ack i s t ∷ fs) = answered_claims fs
answered_claims (err i s x t o ∷ fs) = answered_claims fs
answered_claims (usage u n o d ∷ fs) = answered_claims fs
answered_claims (dir e x ∷ fs) = answered_claims fs

pub answered_claims-append :
    (fs gs : List Frame) → answered_claims (fs ++ gs) ≡ answered_claims fs ++ answered_claims gs
answered_claims-append [] gs = refl
answered_claims-append (a id seq text time_in time_out ms ∷ fs) gs =
    ap (λ l. (seq, id, time_in) ∷ l) (answered_claims-append fs gs)
answered_claims-append (initialized s p c o ∷ fs) gs = answered_claims-append fs gs
answered_claims-append (ack i s t ∷ fs) gs = answered_claims-append fs gs
answered_claims-append (err i s x t o ∷ fs) gs = answered_claims-append fs gs
answered_claims-append (usage u n o d ∷ fs) gs = answered_claims-append fs gs
answered_claims-append (dir e x ∷ fs) gs = answered_claims-append fs gs

module _ {ℓ} {A : Type ℓ} where
  take-snoc : (n : ℕ) (xs : List A) (x : A) → n ≤ length xs → take n (xs ++ x ∷ []) ≡ take n xs
  take-snoc zero xs x h = refl
  take-snoc (suc n) [] x h = absurd (omega arith)
  take-snoc (suc n) (y ∷ ys) x h = ap (λ l. y ∷ l) (take-snoc n ys x (omega arith))

  take-suc :
      (n : ℕ) (xs : List A) (x : A)
      → head? (drop n xs) ≡ some x
      → take (suc n) xs ≡ take n xs ++ x ∷ []
  take-suc zero [] x h = cc
  take-suc zero (y ∷ ys) x h = ap (λ z. z ∷ []) (some-injective y x h)
  take-suc (suc n) [] x h = cc
  take-suc (suc n) (y ∷ ys) x h = ap (λ l. y ∷ l) (take-suc n ys x h)

  take-append-drop : (n : ℕ) (xs : List A) → take n xs ++ drop n xs ≡ xs
  take-append-drop zero xs = refl
  take-append-drop (suc n) [] = refl
  take-append-drop (suc n) (y ∷ ys) = ap (λ l. y ∷ l) (take-append-drop n ys)

-- The answers so far are the first `served` questions.
abbrev InOrder : Spec → Type 0
InOrder t =
    (c : Text)
    → (answered_claims (t.delivered c) ≡ take (t.served c) (t.asked c))
      × (t.served c ≤ length (t.asked c))

abbrev IfSome : (Spec → Type 0) → Option Spec → Type 0
IfSome P none = Unit
IfSome P (some t) = P t

module _ (clock : Clock) (t : Spec) (i : InOrder t) where
  submits-InOrder :
      (c : Text) (o : Option (ℕ × Text × Text)) → IfSome InOrder (Spec.submits clock c o t)
  submits-InOrder c none = tt
  submits-InOrder c (some w) =
      each _ c
        (subst
          (λ l. (answered_claims (t.delivered c) ≡ take (t.served c) l) × (t.served c ≤ length l))
          (sym (put_self c (t.asked c ++ w ∷ []) t.asked))
          (
            (i c).0 ∙ sym (take-snoc (t.served c) (t.asked c) w (i c).1),
            omega (arith, (i c).1, length-append (t.asked c) (w ∷ [])),
          ))
        (λ d ne.
          subst
            (λ l. (answered_claims (t.delivered d) ≡ take (t.served d) l) × (t.served d ≤ length l))
            (sym (put_other c d (t.asked c ++ w ∷ []) t.asked ne)) (i d))

  posts-InOrder :
      (q : Question) (o : Option (ℕ × Text × Text)) → IfSome InOrder (Spec.posts clock q o t)
  posts-InOrder q none = i
  posts-InOrder q (some w) = tt

  gives_up-InOrder :
      (c : Text) (o : Option (ℕ × Text × Text)) → IfSome InOrder (Spec.gives_up clock c o t)
  gives_up-InOrder c none = tt
  gives_up-InOrder c (some w) = i

  module _ (c text time_out : Text) where
    abbrev sent_out : ℕ × Text × Text → Frame
    sent_out w = answer_frame clock text time_out w

    answer_own :
        (w : ℕ × Text × Text)
        → due c t ≡ some w
        → (answered_claims (t.delivered c ++ sent_out w ∷ []) ≡ take (t.served c + 1) (t.asked c))
          × (t.served c + 1 ≤ length (t.asked c))
    answer_own w h = (
      answered_claims-append (t.delivered c) (sent_out w ∷ [])
          ∙ ap (λ l. l ++ w ∷ []) (i c).0
          ∙ sym (take-suc (t.served c) (t.asked c) w h)
          ∙ ap (λ n. take n (t.asked c)) (sym (add-one (t.served c))),
      omega (arith, head-drop (t.served c) (t.asked c) w h),
    )

    answers-InOrder :
        (o : Option (ℕ × Text × Text))
        → due c t ≡ o
        → InOrder (Spec.answers clock c text time_out o t)
    answers-InOrder none h = i
    answers-InOrder (some w) h = each _ c (rw (text_eq_refl c) (answer_own w h)) (λ d ne.
        rw (put_other c d (t.delivered c ++ sent_out w ∷ []) t.delivered ne)
          (rw (put_other c d (t.served c + 1) t.served ne) (i d)))

step-InOrder :
    (clock : Clock) (e : Event) (t : Spec) → InOrder t → IfSome InOrder (Spec.step clock e t)
unfolding Spec.step
step-InOrder clock (post q) t i = posts-InOrder clock t i q _
step-InOrder clock (submit c) t i = submits-InOrder clock t i c _
step-InOrder clock (give_up c) t i = gives_up-InOrder clock t i c _
step-InOrder clock (answer c text time_out) t i = answers-InOrder clock t i c text time_out _ refl
step-InOrder clock (confirm seq time) t i = i

then-IfSome :
    (P : Spec → Type 0) (o : Option Spec) (f : Spec → Option Spec)
    → ((t : Spec) → P t → IfSome P (f t))
    → IfSome P o
    → IfSome P (and_then o f)
then-IfSome P none f h p = tt
then-IfSome P (some t) f h p = h t p

run-InOrder :
    (clock : Clock) (es : List Event) (t : Spec) → InOrder t → IfSome InOrder (Spec.run clock es t)
unfolding Spec.run
run-InOrder clock [] t i = i
run-InOrder clock (e ∷ es) t i =
    then-IfSome InOrder (Spec.step clock e t) (Spec.run clock es) (run-InOrder clock es)
      (step-InOrder clock e t i)

fifo-Related :
    (s : System) (o : Option Spec)
    → Related (some s) o
    → IfSome InOrder o
    → (t : Spec) × (o ≡ some t)
      × ((c : Text) → answered_claims (s.delivered c) ++ outstanding c s.db ≡ t.asked c)
fifo-Related s none r i = absurd r
fifo-Related s (some t) r i = (
  t,
  refl,
  λ c.
      ap (λ l. answered_claims l ++ outstanding c s.db) (ap (λ f. f c) (sym r.delivered))
      ∙ ap (λ l. l ++ outstanding c s.db) (i c).0
      ∙ ap (λ l. take (t.served c) (t.asked c) ++ l) (r.queue c)
      ∙ take-append-drop (t.served c) (t.asked c),
)

-- After any interleaving of the tasks of all connections, from the empty table, the questions that
-- the delivered answers of a connection name, in order, followed by those still outstanding, are
-- the questions that the connection submitted, in the order of submission.
pub delivered-outstanding :
    (clock : Clock) (es : List Event) (s : System)
    → run clock es initial ≡ some s
    → (t : Spec) × (Spec.run clock es Spec.initial ≡ some t)
      × ((c : Text) → answered_claims (s.delivered c) ++ outstanding c s.db ≡ t.asked c)
delivered-outstanding clock es s e =
    fifo-Related s _
      (subst (λ o. Related o (Spec.run clock es Spec.initial)) e (run-Related clock es))
      (run-InOrder clock es Spec.initial (λ c. (refl, omega arith)))
