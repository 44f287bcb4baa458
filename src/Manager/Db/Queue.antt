-- ===== src/Manager/Db/Queue.antt =====
-- The outstanding questions of a connection as a queue, under the statements of `ChatDb`
-- (manager/src/main.rs).
use llm_chat.Prelude.{
  ℕ, ◌<◌, ◌≡◌, ◌≢◌, refl, sym, ap, ◌∙◌, inl, inr, Text, Bool, true, false, some, List, [], ◌∷◌, map,
  All, All-map_imp, head?, tail, keep, Bool-cases, if◌then◌else◌, text_eq_iff, arith,
}
use llm_chat.Manager.Db.{
  Row, ChatDb, update_where, has_seq, is_sent_of, older, oldest, claim, claimed, pop_sent,
  answer_row,
}
use llm_chat.Manager.Db.Order.{Ascending, IsOrdered}

-- The claims of the rows of a connection that are sent and not yet answered, oldest first.
abbrev pub outstanding : Text → ChatDb → List (ℕ × Text × Text)
outstanding c db = map claim (keep (is_sent_of c) db.rows)

All-keep {ℓ κ} :
    {A : Type ℓ} (P : A → Type κ) (p : A → Bool) (xs : List A) → All P xs → All P (keep p xs)
All-keep P p [] h = tt
All-keep P p (x ∷ xs) (a, h) = elim (Bool-cases (p x)) [
  | inl e ↦ rw e (a, All-keep P p xs h)
  | inr e ↦ rw e (All-keep P p xs h)
]

Ascending-keep : (p : Row → Bool) (rs : List Row) → Ascending rs → Ascending (keep p rs)
Ascending-keep p [] h = tt
Ascending-keep p (r ∷ rs) (a, h) = elim (Bool-cases (p r)) [
  | inl e ↦ rw e (All-keep (λ s. r.seq < s.seq) p rs a, Ascending-keep p rs h)
  | inr e ↦ rw e (Ascending-keep p rs h)
]

oldest-Ascending : (rs : List Row) → Ascending rs → oldest rs ≡ head? rs
unfolding oldest
oldest-Ascending [] h = refl
oldest-Ascending (r ∷ []) h = refl
oldest-Ascending (r ∷ s ∷ rs) (a, h) =
    ap (λ o. some (older r o)) (oldest-Ascending (s ∷ rs) h) ∙ ground arith

claimed-head : (rs : List Row) → claimed (head? rs) ≡ head? (map claim rs)
claimed-head [] = refl
claimed-head (r ∷ rs) = refl

-- In a table ordered by number, `pop_sent` reads the head of the connection's queue.
pub pop_sent-eq-head :
    (c : Text) (db : ChatDb) → IsOrdered db → pop_sent c db ≡ head? (outstanding c db)
unfolding pop_sent
pop_sent-eq-head c db h =
    rw (oldest-Ascending _ (Ascending-keep (is_sent_of c) db.rows h.ascending))
      (claimed-head (keep (is_sent_of c) db.rows))

-- An UPDATE by number above which the table begins reaches nothing.
pub update_where-Above :
    (seq : ℕ) (f : Row → Row) (rs : List Row)
    → All (λ s. seq < s.seq) rs
    → update_where (has_seq seq) f rs ≡ rs
update_where-Above seq f [] h = refl
update_where-Above seq f (r ∷ rs) (lt, h) = ground (arith, update_where-Above seq f rs h)

seq_of_claim :
    (r : Row) (w : ℕ × Text × Text) (m : ℕ) → some (claim r) ≡ some w → m < r.seq → m < w.0
seq_of_claim r w m e lt = ground arith

-- The number of a claim at the head of the queue is among the table's.
seq_of_head :
    (c : Text) (rs : List Row) (w : ℕ × Text × Text) (m : ℕ)
    → All (λ s. m < s.seq) rs
    → head? (map claim (keep (is_sent_of c) rs)) ≡ some w
    → m < w.0
seq_of_head c [] w m h e = cc
seq_of_head c (r ∷ rs) w m (lt, h) e = elim (Bool-cases (is_sent_of c r)) [
  | inl y ↦ seq_of_claim r w m (rw y at e) lt
  | inr n ↦ seq_of_head c rs w m h (rw n at e)
]

pub not_sent_answered :
    (c answer time : Text) (r : Row) → is_sent_of c (answer_row answer time r) ≡ false
not_sent_answered c answer time r = ground arith

pub other_connection :
    (c d : Text) (r : Row) → c ≢ d → is_sent_of c r ≡ true → is_sent_of d r ≡ false
other_connection c d r ne h =
    ground (arith, text_eq_iff r.connection_id c, text_eq_iff r.connection_id d)

-- Facts about one row of a filter or an UPDATE.
pub keep_hit {ℓ} :
    {A : Type ℓ} (p : A → Bool) (x : A) (xs : List A) → p x ≡ true → keep p (x ∷ xs) ≡ x ∷ keep p xs
keep_hit p x xs h = rw h

pub keep_miss {ℓ} :
    {A : Type ℓ} (p : A → Bool) (x : A) (xs : List A) → p x ≡ false → keep p (x ∷ xs) ≡ keep p xs
keep_miss p x xs h = rw h

pub update_hit :
    (p : Row → Bool) (f : Row → Row) (r : Row) (rs : List Row)
    → p r ≡ true
    → update_where p f (r ∷ rs) ≡ f r ∷ update_where p f rs
update_hit p f r rs h = rw h

pub update_miss :
    (p : Row → Bool) (f : Row → Row) (r : Row) (rs : List Row)
    → p r ≡ false
    → update_where p f (r ∷ rs) ≡ r ∷ update_where p f rs
update_miss p f r rs h = rw h

has_seq-claim : (r : Row) (w : ℕ × Text × Text) → some (claim r) ≡ some w → has_seq w.0 r ≡ true
has_seq-claim r w e = ground arith

has_seq_below : (r : Row) (n : ℕ) → r.seq < n → has_seq n r ≡ false
has_seq_below r n lt = ground arith

above_ne : (r : Row) (n : ℕ) → n < r.seq → has_seq n r ≡ true → ⊥
above_ne r n lt h = ground arith

Above_claim :
    (r : Row) (w : ℕ × Text × Text) (rs : List Row)
    → some (claim r) ≡ some w
    → All (λ s. r.seq < s.seq) rs
    → All (λ s. w.0 < s.seq) rs
Above_claim r w rs e h = All-map_imp _ _ rs (λ s lt. ground arith) h

-- An UPDATE that neither starts from nor makes a row of the filter leaves the filter's rows alone.
pub update-keep_same :
    (q p : Row → Bool) (f : Row → Row) (rs : List Row)
    → All (λ r. p r ≡ true → (q r ≡ false) × (q (f r) ≡ false)) rs
    → keep q (update_where p f rs) ≡ keep q rs
update-keep_same q p f [] h = refl
update-keep_same q p f (r ∷ rs) (a, h) = elim (Bool-cases (p r)) [
  | inl y ↦
      ap (keep q) (update_hit p f r rs y)
      ∙ keep_miss q (f r) _ (a y).1
      ∙ update-keep_same q p f rs h
      ∙ sym (keep_miss q r rs (a y).0)
  | inr n ↦
      ap (keep q) (update_miss p f r rs n)
      ∙ ap (λ l. if q r then r ∷ l else l) (update-keep_same q p f rs h)
]

module _ (c answer time : Text) (w : ℕ × Text × Text) where
  -- Answering the head of a connection's queue removes it from that queue.
  pub answer_head :
      (rs : List Row)
      → Ascending rs
      → head? (map claim (keep (is_sent_of c) rs)) ≡ some w
      → map claim (keep (is_sent_of c) (update_where (has_seq w.0) (answer_row answer time) rs))
        ≡ tail (map claim (keep (is_sent_of c) rs))
  answer_head [] a e = refl
  answer_head (r ∷ rs) (above, a) e = elim (Bool-cases (is_sent_of c r)) [
    | inl y ↦
        let e' : some (claim r) ≡ some w = rw y at e in
        let f = answer_row answer time in
        ap (λ l. map claim (keep (is_sent_of c) l))
          (update_hit (has_seq w.0) f r rs (has_seq-claim r w e'))
        ∙ ap (map claim) (keep_miss (is_sent_of c) (f r) _ (not_sent_answered c answer time r))
        ∙ ap (λ l. map claim (keep (is_sent_of c) l))
            (update_where-Above w.0 f rs (Above_claim r w rs e' above))
        ∙ sym (ap (λ l. tail (map claim l)) (keep_hit (is_sent_of c) r rs y))
    | inr n ↦
        let e' = rw n at e in
        let f = answer_row answer time in
        ap (λ l. map claim (keep (is_sent_of c) l))
          (update_miss (has_seq w.0) f r rs
            (has_seq_below r w.0 (seq_of_head c rs w r.seq above e')))
        ∙ ap (map claim) (keep_miss (is_sent_of c) r _ n)
        ∙ answer_head rs a e'
        ∙ sym (ap (λ l. tail (map claim l)) (keep_miss (is_sent_of c) r rs n))
  ]

  -- The number at the head of a connection's queue belongs to no row but that connection's.
  pub head_unique :
      (rs : List Row)
      → Ascending rs
      → head? (map claim (keep (is_sent_of c) rs)) ≡ some w
      → All (λ r. has_seq w.0 r ≡ true → is_sent_of c r ≡ true) rs
  head_unique [] a e = tt
  head_unique (r ∷ rs) (above, a) e = elim (Bool-cases (is_sent_of c r)) [
    | inl y ↦ (
      λ _. y,
      All-map_imp (λ s. w.0 < s.seq) _ rs (λ s lt h. absurd (above_ne s w.0 lt h))
          (Above_claim r w rs (rw y at e) above),
    )
    | inr n ↦ (
      λ h. cc (has_seq_below r w.0 (seq_of_head c rs w r.seq above (rw n at e)), h),
      head_unique rs a (rw n at e),
    )
  ]

  -- Answering the head of a connection's queue leaves the queue of any other connection alone.
  pub answer_other :
      (d : Text) (rs : List Row)
      → c ≢ d
      → Ascending rs
      → head? (map claim (keep (is_sent_of c) rs)) ≡ some w
      → keep (is_sent_of d) (update_where (has_seq w.0) (answer_row answer time) rs)
        ≡ keep (is_sent_of d) rs
  answer_other d rs ne a e = update-keep_same _ _ _ rs (
      All-map_imp _ _ rs
        (λ r h y. (other_connection c d r ne (h y), not_sent_answered d answer time r))
        (head_unique rs a e))
