-- ===== src/Manager/Control/Sums.antt =====
-- The sums in the reply of `usage` (`compose_usage_reply` of manager/src/main.rs).
use llm_chat.Prelude.{
  ◌≡◌, refl, sym, ap, ◌∙◌, Text, Bool, Option, none, some, List, [], ◌∷◌, lit, ℤ, pos, negsuc, ◌+ℤ◌,
  +ℤ_comm, +ℤ_assoc, keep, text_eq, is_some, arith, Bool-cases, inl, inr, if◌then◌else◌,
}
use llm_chat.Json.{get}
use llm_chat.Manager.Db.{Row, ChatDb}
use llm_chat.Manager.Frames.{OwnUsage}
use llm_chat.Manager.Usage.{
  finished_of, no_usage, count_row, total, add_user, add_if, group_by_user, usage_by_user,
}
use llm_chat.Manager.Replies.{
  Totals, no_totals, add_usage, sum_usage, totals_json, compose_usage_reply,
}

totals_eq :
    (x y : Totals)
    → x.requests ≡ y.requests
    → x.chars_in ≡ y.chars_in
    → x.chars_out ≡ y.chars_out
    → x.files ≡ y.files
    → x.file_bytes ≡ y.file_bytes
    → x ≡ y
totals_eq x y a b c d e =
    ap (λ n. record x { requests = n }) a
    ∙ ap
        (λ n. record y {
          chars_in = n;
          chars_out = x.chars_out;
          files = x.files;
          file_bytes = x.file_bytes;
        })
        b
    ∙ ap (λ n. record y { chars_out = n; files = x.files; file_bytes = x.file_bytes }) c
    ∙ ap (λ n. record y { files = n; file_bytes = x.file_bytes }) d
    ∙ ap (λ n. record y { file_bytes = n }) e

plus_swap : (a b c : ℤ) → a +ℤ b +ℤ c ≡ a +ℤ c +ℤ b
plus_swap a b c = +ℤ_assoc a b c ∙ ap (λ n. a +ℤ n) (+ℤ_comm b c) ∙ sym (+ℤ_assoc a c b)

plus_zero : (a : ℤ) → a +ℤ pos 0 ≡ a
plus_zero (pos n) = ap pos (omega arith)
plus_zero (negsuc n) = ground arith

plus_late : (a b c : ℤ) → a +ℤ (b +ℤ c) ≡ a +ℤ c +ℤ (b +ℤ pos 0)
plus_late a b c =
    ap (λ n. a +ℤ n) (+ℤ_comm b c)
    ∙ sym (+ℤ_assoc a c b)
    ∙ ap (λ n. a +ℤ c +ℤ n) (sym (plus_zero b))

add_usage-swap :
    (t : Totals) (u v : OwnUsage) → add_usage (add_usage t u) v ≡ add_usage (add_usage t v) u
add_usage-swap t u v =
    totals_eq _ _ (omega arith) (omega arith) (omega arith) (omega arith)
      (plus_swap t.file_bytes u.file_bytes v.file_bytes)

-- A row joins a user's sums, or comes by itself.
add_usage-count_row :
    (t : Totals) (u : OwnUsage) (r : Row)
    → add_usage t (count_row r u) ≡ add_usage (add_usage t u) (count_row r no_usage)
add_usage-count_row t u r =
    totals_eq _ _ (omega arith) (omega arith) (omega arith) (omega arith)
      (plus_late t.file_bytes _ u.file_bytes)

sum_usage-add_usage :
    (t : Totals) (u : OwnUsage) (rows : List (Text × OwnUsage))
    → sum_usage (add_usage t u) rows ≡ add_usage (sum_usage t rows) u
unfolding sum_usage
sum_usage-add_usage t u [] = refl
sum_usage-add_usage t u ((uid, v) ∷ rows) =
    ap (λ s. sum_usage s rows) (add_usage-swap t u v) ∙ sum_usage-add_usage (add_usage t v) u rows

sum_usage-add_user :
    (t : Totals) (uid : Text) (r : Row) (rows : List (Text × OwnUsage))
    → sum_usage t (add_user uid r rows) ≡ add_usage (sum_usage t rows) (count_row r no_usage)
unfolding sum_usage add_user
sum_usage-add_user t uid r [] = refl
sum_usage-add_user t uid r ((u, v) ∷ rows) = elim (Bool-cases (text_eq u uid)) [
  | inl y ↦ rw y (
      ap (λ s. sum_usage s rows) (add_usage-count_row t v r)
      ∙ sum_usage-add_usage (add_usage t v) (count_row r no_usage) rows)
  | inr n ↦ rw n (sum_usage-add_user (add_usage t v) uid r rows)
]

abbrev pub has_user : Row → Bool
has_user r = is_some (finished_of r)

sum_usage-add_if :
    (o : Option Text) (r : Row) (rows : List (Text × OwnUsage)) (rest : OwnUsage)
    → sum_usage no_totals rows ≡ add_usage no_totals rest
    → sum_usage no_totals (add_if o r rows)
      ≡ add_usage no_totals (if is_some o then count_row r rest else rest)
sum_usage-add_if none r rows rest h = h
sum_usage-add_if (some uid) r rows rest h =
    sum_usage-add_user no_totals uid r rows
    ∙ ap (λ s. add_usage s (count_row r no_usage)) h
    ∙ sym (add_usage-count_row no_totals rest r)

counted_total :
    (r : Row) (rs : List Row)
    → (if has_user r then count_row r (total (keep has_user rs)) else total (keep has_user rs))
      ≡ total (keep has_user (r ∷ rs))
unfolding total
counted_total r rs = elim (Bool-cases (has_user r)) [ inl y ↦ rw y refl | inr n ↦ rw n refl ]

sum_usage-group_by_user :
    (rs : List Row)
    → sum_usage no_totals (group_by_user rs) ≡ add_usage no_totals (total (keep has_user rs))
unfolding sum_usage group_by_user total
sum_usage-group_by_user [] = refl
sum_usage-group_by_user (r ∷ rs) =
    sum_usage-add_if (finished_of r) r (group_by_user rs) (total (keep has_user rs))
      (sum_usage-group_by_user rs)
    ∙ ap (add_usage no_totals) (counted_total r rs)

-- The sums of a list of rows, as the reply has them.
abbrev pub totals_of : OwnUsage → Totals
totals_of u = record {
  requests = u.requests;
  chars_in = u.chars_in;
  chars_out = u.chars_out;
  files = u.files;
  file_bytes = u.file_bytes;
}

zero_plus : (a : ℤ) → pos 0 +ℤ a ≡ a
zero_plus a = +ℤ_comm (pos 0) a ∙ plus_zero a

add_usage-no_totals : (u : OwnUsage) → add_usage no_totals u ≡ totals_of u
add_usage-no_totals u =
    totals_eq _ _ (omega arith) (omega arith) (omega arith) (omega arith) (zero_plus u.file_bytes)

-- The totals in the reply to `usage`, which are summed over the users, are those of all finished
-- questions that have a user.
pub compose_usage_reply-total :
    (db : ChatDb)
    → get (compose_usage_reply (usage_by_user db)) (lit "totals")
      ≡ some (totals_json (totals_of (total (keep has_user db.rows))))
unfolding compose_usage_reply usage_by_user lit
compose_usage_reply-total db =
    ap (λ t. some (totals_json t))
      (sum_usage-group_by_user db.rows ∙ add_usage-no_totals (total (keep has_user db.rows)))
