-- ===== src/Manager/Db/Order.antt =====
-- The order of the rows of the table (`ChatDb` of manager/src/main.rs) by their receipt numbers.
use llm_chat.Prelude.{
  ℕ, ◌+◌, ◌≤◌, ◌<◌, ◌≡◌, refl, Text, Bool, List, [], ◌∷◌, ◌++◌, All, All-append, All-map_imp, arith,
  if◌then◌else◌,
}
use llm_chat.Manager.Db.{
  Status, Row, ChatDb, Question, update_where, pending_row, insert_pending, update_status,
  mark_confirmed, mark_answered,
}

abbrev pub Ascending : List Row → Type 0
Ascending [] = Unit
Ascending (r ∷ rs) = All (λ s. r.seq < s.seq) rs × Ascending rs

abbrev pub Upto : ℕ → List Row → Type 0
Upto n rs = All (λ r. r.seq ≤ n) rs

-- Receipt numbers grow down the table, and none passes the last one given out.
pub record IsOrdered (db : ChatDb) : Type 0 where
  pub ascending : Ascending db.rows
  pub bounded : Upto db.last_seq db.rows

-- An UPDATE that leaves `seq` alone keeps every bound on it.
module _ (p : Row → Bool) (f : Row → Row) (same : (r : Row) → (f r).seq ≡ r.seq) where
  seq_kept : (r : Row) → (if p r then f r else r).seq ≡ r.seq
  seq_kept r = ground (arith, same r)

  update_where-Above :
      (n : ℕ) (rs : List Row) → All (λ s. n < s.seq) rs → All (λ s. n < s.seq) (update_where p f rs)
  update_where-Above n [] h = tt
  update_where-Above n (r ∷ rs) (b, h) = (omega (arith, seq_kept r), update_where-Above n rs h)

  update_where-Upto : (n : ℕ) (rs : List Row) → Upto n rs → Upto n (update_where p f rs)
  update_where-Upto n [] h = tt
  update_where-Upto n (r ∷ rs) (b, h) = (omega (arith, seq_kept r), update_where-Upto n rs h)

  update_where-Ascending : (rs : List Row) → Ascending rs → Ascending (update_where p f rs)
  update_where-Ascending [] h = tt
  update_where-Ascending (r ∷ rs) (b, h) =
      (rw (seq_kept r) (update_where-Above r.seq rs b), update_where-Ascending rs h)

  pub update_where-IsOrdered :
      (db : ChatDb) → IsOrdered db → IsOrdered (record db { rows = update_where p f db.rows })
  update_where-IsOrdered db h = record {
    ascending = update_where-Ascending db.rows h.ascending;
    bounded = update_where-Upto db.last_seq db.rows h.bounded;
  }

Ascending-snoc :
    (n : ℕ) (rs : List Row) (r : Row)
    → Ascending rs
    → Upto n rs
    → n < r.seq
    → Ascending (rs ++ r ∷ [])
Ascending-snoc n [] r h u lt = (tt, tt)
Ascending-snoc n (s ∷ rs) r (above, h) (le, u) lt = (
  All-append (λ t. s.seq < t.seq) rs (r ∷ []) above (omega arith, tt),
  Ascending-snoc n rs r h u lt,
)

pub insert_pending-IsOrdered :
    (q : Question) (db : ChatDb) → IsOrdered db → IsOrdered (insert_pending q db).0
unfolding insert_pending
insert_pending-IsOrdered q db h = record {
  ascending =
      Ascending-snoc db.last_seq db.rows (pending_row (db.last_seq + 1) q) h.ascending h.bounded
        (omega arith);
  bounded =
      All-append (λ r. r.seq ≤ db.last_seq + 1) db.rows _
        (All-map_imp (λ r. r.seq ≤ db.last_seq) (λ r. r.seq ≤ db.last_seq + 1) db.rows
          (λ r le. omega arith) h.bounded)
        (omega arith, tt);
}

pub update_status-IsOrdered :
    (seq : ℕ) (status : Status) (db : ChatDb)
    → IsOrdered db
    → IsOrdered (update_status seq status db)
unfolding update_status
update_status-IsOrdered seq status db h = update_where-IsOrdered _ _ (λ r. refl) db h

pub mark_confirmed-IsOrdered :
    (seq : ℕ) (time : Text) (db : ChatDb) → IsOrdered db → IsOrdered (mark_confirmed seq time db).0
unfolding mark_confirmed
mark_confirmed-IsOrdered seq time db h = update_where-IsOrdered _ _ (λ r. refl) db h

pub mark_answered-IsOrdered :
    (seq : ℕ) (answer time : Text) (db : ChatDb)
    → IsOrdered db
    → IsOrdered (mark_answered seq answer time db)
unfolding mark_answered
mark_answered-IsOrdered seq answer time db h = update_where-IsOrdered _ _ (λ r. refl) db h
