-- ===== src/Manager/Db/Held.antt =====
-- A posted question under the other statements of `ChatDb` (manager/src/main.rs).
use llm_chat.Prelude.{
  ℕ, ◌+◌, ◌≤◌, ◌<◌, ◌≡◌, ◌≢◌, refl, sym, ◌∙◌, inl, inr, Text, Bool, true, false, some, List, [],
  ◌∷◌, ◌++◌, All, All-append, All-map_imp, All-zip, head?, any, ◌==◌, Bool-cases, arith,
}
use llm_chat.Manager.Db.{
  sent, error, Row, ChatDb, Question, update_where, pending_row, insert_pending, update_status,
  has_seq, is_sent_of, claim, answer_row, confirm_row, mark_answered, mark_confirmed, is_answered,
}
use llm_chat.Manager.Db.Order.{Upto, IsOrdered}
use llm_chat.Manager.Db.Queue.{outstanding, head_unique, other_connection, not_sent_answered}
use llm_chat.Manager.Db.Posted.{
  IsPosted, Posted, set_status, posted_not_sent, posted_sent, pending_not_sent, confirmed_not_sent,
}

update_where-All {κ μ} :
    (P : Row → Type κ) (Q : Row → Type μ) (p : Row → Bool) (f : Row → Row) (rs : List Row)
    → ((r : Row) → P r → p r ≡ true → Q (f r))
    → ((r : Row) → P r → p r ≡ false → Q r)
    → All P rs
    → All Q (update_where p f rs)
update_where-All P Q p f [] hit miss h = tt
update_where-All P Q p f (r ∷ rs) hit miss (a, h) =
    let rest = update_where-All P Q p f rs hit miss h in
    elim (Bool-cases (p r)) [ inl y ↦ rw y (hit r a y, rest) | inr n ↦ rw n (miss r a n, rest) ]

any-update :
    (n : ℕ) (p : Row → Bool) (f : Row → Row) (rs : List Row)
    → ((r : Row) → (f r).seq ≡ r.seq)
    → any (has_seq n) (update_where p f rs) ≡ any (has_seq n) rs
any-update n p f [] same = refl
any-update n p f (r ∷ rs) same = ground (arith, same r, any-update n p f rs same)

-- An UPDATE that misses the posted row, and makes no row of its connection sent.
module _ (c : Text) (w : ℕ × Text × Text) (p : Row → Bool) (f : Row → Row)
    (same : (r : Row) → (f r).seq ≡ r.seq) where
  abbrev Misses : Row → Type 0
  Misses r = p r ≡ true → (has_seq w.0 r ≡ false) × (is_sent_of c (f r) ≡ false)

  still_waiting : (r : Row) → Misses r × IsPosted c w r → p r ≡ true → IsPosted c w (f r)
  still_waiting r (m, h) y e = absurd (missed r (f r) (same r) (m y).0 e)
    where
      missed : (r s : Row) → s.seq ≡ r.seq → has_seq w.0 r ≡ false → has_seq w.0 s ≡ true → ⊥
      missed r s e a b = ground arith

  Posted-update : (rs : List Row) → All Misses rs → Posted c w rs → Posted c w (update_where p f rs)
  Posted-update rs m h = record {
    row =
        update_where-All (λ r. Misses r × IsPosted c w r) (IsPosted c w) p f rs still_waiting
          (λ r a n. a.1) (All-zip Misses (IsPosted c w) rs m h.row);
    newest =
        update_where-All (λ r. Misses r × (is_sent_of c r ≡ true → r.seq < w.0)) _ p f rs
          (λ r a y s. cc ((a.0 y).1, s)) (λ r a n. a.1) (All-zip _ _ rs m h.newest);
    present = any-update w.0 p f rs same ∙ h.present;
  }

present_le : (n m : ℕ) (rs : List Row) → any (has_seq n) rs ≡ true → Upto m rs → n ≤ m
present_le n m [] e h = cc
present_le n m (r ∷ rs) e (le, h) = ground (arith, present_le n m rs)

any-append : (p : Row → Bool) (rs ss : List Row) → any p rs ≡ true → any p (rs ++ ss) ≡ true
any-append p [] ss e = cc
any-append p (r ∷ rs) ss e = ground (arith, any-append p rs ss)

any-snoc : (n : ℕ) (rs : List Row) (r : Row) → r.seq ≡ n → any (has_seq n) (rs ++ r ∷ []) ≡ true
any-snoc n [] r e = ground arith
any-snoc n (s ∷ rs) r e = ground (arith, any-snoc n rs r e)

not_seq : (n m : ℕ) → n < m → (m == n) ≡ false
not_seq n m lt = ground arith

fresh : (r : Row) (n : ℕ) → r.seq ≤ n → has_seq (n + 1) r ≡ true → ⊥
fresh r n le y = ground arith

-- A number of a sent row is not that of the posted one.
sent_not_posted :
    (c d : Text) (w : ℕ × Text × Text) (r : Row)
    → IsPosted c w r
    → is_sent_of d r ≡ true
    → has_seq w.0 r ≡ false
sent_not_posted c d w r h s = elim (Bool-cases (has_seq w.0 r)) [
  | inl y ↦ cc (posted_not_sent c d w r h y, s)
  | inr n ↦ n
]

module _ (c : Text) (w : ℕ × Text × Text) (db : ChatDb) (p : Posted c w db.rows) where
  -- Another connection's head is answered, or this one's.
  pub Posted-answer :
      (d answer time : Text) (v : ℕ × Text × Text)
      → IsOrdered db
      → head? (outstanding d db) ≡ some v
      → Posted c w (mark_answered v.0 answer time db).rows
  unfolding mark_answered
  Posted-answer d answer time v o e =
      Posted-update c w (has_seq v.0) (answer_row answer time) (λ r. refl) db.rows
        (All-map_imp (λ r. IsPosted c w r × (has_seq v.0 r ≡ true → is_sent_of d r ≡ true)) _
          db.rows
          (λ r a y. (sent_not_posted c d w r a.0 (a.1 y), not_sent_answered c answer time r))
          (All-zip _ _ db.rows p.row (head_unique d answer time v db.rows o.ascending e)))
        p

  pub Posted-confirm : (seq : ℕ) (time : Text) → Posted c w (mark_confirmed seq time db).0.rows
  unfolding mark_confirmed
  Posted-confirm seq time =
      Posted-update c w (is_answered seq) (confirm_row time) (λ r. refl) db.rows
        (All-map_imp (IsPosted c w) _ db.rows
          (λ r a y. (answered_not_posted r a y, (confirmed_not_sent c seq time r y).1)) p.row)
        p
    where
      answered_not_posted :
          (r : Row) → IsPosted c w r → is_answered seq r ≡ true → has_seq w.0 r ≡ false
      answered_not_posted r a y = elim (Bool-cases (has_seq w.0 r)) [
        | inl h ↦ let (_, s, _) = a h in ground arith
        | inr n ↦ n
      ]

  -- The reader of another connection marks its own posted question.
  module _ (d : Text) (v : ℕ × Text × Text) (ne : c ≢ d) (q : Posted d v db.rows) where
    apart :
        (r : Row) → IsPosted c w r → IsPosted d v r → has_seq v.0 r ≡ true → has_seq w.0 r ≡ false
    apart r a b y = elim (Bool-cases (has_seq w.0 r)) [
      | inl h ↦ absurd (ne (sym (a h).0 ∙ (b y).0))
      | inr n ↦ n
    ]

    pub Posted-submit : Posted c w (update_status v.0 sent db).rows
    unfolding update_status
    Posted-submit =
        Posted-update c w (has_seq v.0) (set_status sent) (λ r. refl) db.rows
          (All-map_imp (λ r. IsPosted c w r × IsPosted d v r) _ db.rows
            (λ r a y. (
              apart r a.0 a.1 y,
              other_connection d c (set_status sent r) (λ e. ne (sym e)) (posted_sent d v r a.1 y),
            ))
            (All-zip _ _ db.rows p.row q.row))
          p

    pub Posted-give_up : Posted c w (update_status v.0 error db).rows
    unfolding update_status
    Posted-give_up =
        Posted-update c w (has_seq v.0) (set_status error) (λ r. refl) db.rows
          (All-map_imp (λ r. IsPosted c w r × IsPosted d v r) _ db.rows
            (λ r a y. (apart r a.0 a.1 y, ground arith)) (All-zip _ _ db.rows p.row q.row))
          p

  pub Posted-insert : (q : Question) → IsOrdered db → Posted c w (insert_pending q db).0.rows
  unfolding insert_pending
  Posted-insert q o =
      let r = pending_row (db.last_seq + 1) q in
      let below : w.0 ≤ db.last_seq = present_le w.0 db.last_seq db.rows p.present o.bounded in
      record {
        row =
            All-append (IsPosted c w) db.rows (r ∷ []) p.row
              (λ y. cc (not_seq w.0 (db.last_seq + 1) (omega arith), y), tt);
        newest =
            All-append _ db.rows (r ∷ []) p.newest (λ y. cc (pending_not_sent c r refl, y), tt);
        present = any-append (has_seq w.0) db.rows (r ∷ []) p.present;
      }

-- The question that is inserted is posted.
pub Posted-new :
    (q : Question) (db : ChatDb)
    → IsOrdered db
    → Posted q.connection_id (claim (pending_row (db.last_seq + 1) q)) (insert_pending q db).0.rows
unfolding insert_pending
Posted-new q db o =
    let r = pending_row (db.last_seq + 1) q in
    record {
      row =
          All-append (IsPosted q.connection_id (claim r)) db.rows (r ∷ [])
            (All-map_imp _ _ db.rows (λ s le y. absurd (fresh s db.last_seq le y)) o.bounded)
            (λ y. (refl, refl, refl), tt);
      newest =
          All-append _ db.rows (r ∷ [])
            (All-map_imp (λ s. s.seq ≤ db.last_seq) _ db.rows (λ s le y. omega arith) o.bounded)
            (λ y. cc (pending_not_sent q.connection_id r refl, y), tt);
      present = any-snoc (db.last_seq + 1) db.rows r refl;
    }
