-- ===== src/Manager/Db/Posted.antt =====
-- A posted question (manager/src/main.rs): inserted by the reader of its connection, and not yet
-- marked sent.
use llm_chat.Prelude.{
  ℕ, ◌+◌, ◌<◌, ◌≡◌, ◌≢◌, refl, sym, ap, ◌∙◌, inl, inr, Text, true, false, List, [], ◌∷◌, ◌++◌, map,
  All, All-map_imp, All-of, keep, keep-append, any, Bool-cases, text_eq_iff, arith,
}
use mathlib.Core.List.{append-nil}
use llm_chat.Manager.Db.{
  Status, pending, sent, error, Row, ChatDb, Question, update_where, pending_row, insert_pending,
  update_status, has_seq, is_sent_of, claim, confirm_row, mark_confirmed, is_answered,
}
use llm_chat.Manager.Db.Order.{Ascending, IsOrdered}
use llm_chat.Manager.Db.Queue.{
  outstanding, keep_hit, keep_miss, update_hit, update_miss, update_where-Above, other_connection,
  update-keep_same,
}

-- What the table says of a posted question of connection `c` with claim `w`.
abbrev pub IsPosted : Text → ℕ × Text × Text → Row → Type 0
IsPosted c w r = has_seq w.0 r ≡ true → (r.connection_id ≡ c) × (r.status ≡ pending) × (claim r ≡ w)

pub record Posted (c : Text) (w : ℕ × Text × Text) (rs : List Row) : Type 0 where
  pub row : All (IsPosted c w) rs
  pub newest : All (λ r. is_sent_of c r ≡ true → r.seq < w.0) rs
  pub present : any (has_seq w.0) rs ≡ true

abbrev pub set_status : Status → Row → Row
set_status s r = record r { status = s }

pub posted_not_sent :
    (c d : Text) (w : ℕ × Text × Text) (r : Row)
    → IsPosted c w r
    → has_seq w.0 r ≡ true
    → is_sent_of d r ≡ false
posted_not_sent c d w r h e = let (_, p, _) = h e in ground arith

pub posted_sent :
    (c : Text) (w : ℕ × Text × Text) (r : Row)
    → IsPosted c w r
    → has_seq w.0 r ≡ true
    → is_sent_of c (set_status sent r) ≡ true
posted_sent c w r h e = let (p, _, _) = h e in ground (arith, text_eq_iff r.connection_id c)

-- No row above the newest sent one is sent.
nothing_newer :
    (c : Text) (n : ℕ) (rs : List Row)
    → All (λ r. n < r.seq) rs
    → All (λ r. is_sent_of c r ≡ true → r.seq < n) rs
    → keep (is_sent_of c) rs ≡ []
nothing_newer c n [] above h = refl
nothing_newer c n (r ∷ rs) (lt, above) (f, h) = elim (Bool-cases (is_sent_of c r)) [
  | inl y ↦ absurd (omega (arith, f y))
  | inr m ↦ keep_miss (is_sent_of c) r rs m ∙ nothing_newer c n rs above h
]

abbrev queue : Text → List Row → List (ℕ × Text × Text)
queue c rs = map claim (keep (is_sent_of c) rs)

-- Marking a posted question sent adds it at the end of its connection's queue.
submit_rows :
    (c : Text) (w : ℕ × Text × Text) (rs : List Row)
    → Ascending rs
    → All (IsPosted c w) rs
    → All (λ r. is_sent_of c r ≡ true → r.seq < w.0) rs
    → any (has_seq w.0) rs ≡ true
    → queue c (update_where (has_seq w.0) (set_status sent) rs) ≡ queue c rs ++ w ∷ []
submit_rows c w [] a h n e = cc
submit_rows c w (r ∷ rs) (above, a) (p, h) (m, n) e = elim (Bool-cases (has_seq w.0 r)) [
  | inl y ↦
      let f = set_status sent in
      let (_, _, same) = p y in
      let above' : All (λ s. w.0 < s.seq) rs = All-map_imp _ _ rs (λ s lt. ground arith) above in
      ap (queue c) (update_hit (has_seq w.0) f r rs y)
      ∙ ap (map claim) (keep_hit (is_sent_of c) (f r) _ (posted_sent c w r p y))
      ∙ ap (λ l. claim r ∷ queue c l) (update_where-Above w.0 f rs above')
      ∙ ap (λ l. claim r ∷ map claim l) (nothing_newer c w.0 rs above' n)
      ∙ ap (λ x. x ∷ []) same
      ∙ sym (
          ap (λ l. map claim l ++ w ∷ [])
            (keep_miss (is_sent_of c) r rs (posted_not_sent c c w r p y)
              ∙ nothing_newer c w.0 rs above' n))
  | inr y ↦
      let rest = submit_rows c w rs a h n (rw y at e) in
      ap (queue c) (update_miss (has_seq w.0) (set_status sent) r rs y)
      ∙ (elim (Bool-cases (is_sent_of c r)) [
        | inl s ↦
            ap (map claim) (keep_hit (is_sent_of c) r _ s)
            ∙ ap (λ l. claim r ∷ l) rest
            ∙ sym (ap (λ l. map claim l ++ w ∷ []) (keep_hit (is_sent_of c) r rs s))
        | inr s ↦
            ap (map claim) (keep_miss (is_sent_of c) r _ s)
            ∙ rest
            ∙ sym (ap (λ l. map claim l ++ w ∷ []) (keep_miss (is_sent_of c) r rs s))
      ])
]

module _ (c : Text) (w : ℕ × Text × Text) (db : ChatDb) (o : IsOrdered db)
    (p : Posted c w db.rows) where
  pub submit_own : outstanding c (update_status w.0 sent db) ≡ outstanding c db ++ w ∷ []
  unfolding update_status
  submit_own = submit_rows c w db.rows o.ascending p.row p.newest p.present

  pub submit_other :
      (d : Text) → c ≢ d → outstanding d (update_status w.0 sent db) ≡ outstanding d db
  unfolding update_status
  submit_other d ne = ap (map claim) (
      update-keep_same _ _ _ db.rows (
        All-map_imp _ _ db.rows
          (λ r h y. (
            posted_not_sent c d w r h y,
            other_connection c d (set_status sent r) ne (posted_sent c w r h y),
          ))
          p.row))

  pub give_up_any : (d : Text) → outstanding d (update_status w.0 error db) ≡ outstanding d db
  unfolding update_status
  give_up_any d = ap (map claim) (
      update-keep_same _ _ _ db.rows
        (All-map_imp _ _ db.rows (λ r h y. (posted_not_sent c d w r h y, ground arith)) p.row))

pub pending_not_sent : (d : Text) (r : Row) → r.status ≡ pending → is_sent_of d r ≡ false
pending_not_sent d r h = ground arith

pub confirmed_not_sent :
    (d : Text) (seq : ℕ) (time : Text) (r : Row)
    → is_answered seq r ≡ true
    → (is_sent_of d r ≡ false) × (is_sent_of d (confirm_row time r) ≡ false)
confirmed_not_sent d seq time r h = ground arith

pub insert_any :
    (q : Question) (db : ChatDb) (d : Text)
    → outstanding d (insert_pending q db).0 ≡ outstanding d db
unfolding insert_pending
insert_any q db d =
    let r = pending_row (db.last_seq + 1) q in
    ap (map claim) (
      keep-append (is_sent_of d) db.rows (r ∷ [])
      ∙ ap (λ l. keep (is_sent_of d) db.rows ++ l)
          (keep_miss (is_sent_of d) r [] (pending_not_sent d r refl))
      ∙ append-nil _)

pub confirm_any :
    (seq : ℕ) (time : Text) (db : ChatDb) (d : Text)
    → outstanding d (mark_confirmed seq time db).0 ≡ outstanding d db
unfolding mark_confirmed
confirm_any seq time db d =
    ap (map claim)
      (update-keep_same _ _ _ db.rows (All-of _ db.rows (confirmed_not_sent d seq time)))
