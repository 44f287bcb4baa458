-- ===== src/Manager/Usage/Totals.antt =====
-- The daily usage and the usage (manager/src/main.rs).
use llm_chat.Prelude.{ℕ, ◌+◌, ◌≡◌, refl, Text, List, [], ◌∷◌, keep, arith}
use llm_chat.Manager.Db.{Row, ChatDb}
use llm_chat.Manager.Frames.{OwnUsage, OwnDaily}
use llm_chat.Manager.Usage.{
  or_zero, total, add_row, group_by_day, usage_daily_for, is_counted_since, one_row, merge_row,
}

-- A count of the days, added up.
abbrev pub sum_by : (OwnDaily → ℕ) → List OwnDaily → ℕ
sum_by count [] = 0
sum_by count (d ∷ ds) = count d + sum_by count ds

module _ (count : OwnDaily → ℕ) (of_row : Row → ℕ) (one : (r : Row) → count (one_row r) ≡ of_row r)
    (merge : (r : Row) (d : OwnDaily) → count (merge_row r d) ≡ of_row r + count d) where
  add_row-sum :
      (r : Row) (ds : List OwnDaily) → sum_by count (add_row r ds) ≡ of_row r + sum_by count ds
  unfolding add_row
  add_row-sum r [] = ground (arith, one r)
  add_row-sum r (d ∷ ds) = ground (arith, one r, merge r d, add_row-sum r ds)

  module _ (field : OwnUsage → ℕ) (none_yet : field (total []) ≡ 0)
      (more : (r : Row) (rs : List Row)
        → field (total (r ∷ rs)) ≡ of_row r + field (total rs)) where
    group_by_day-sum : (rs : List Row) → sum_by count (group_by_day rs) ≡ field (total rs)
    unfolding group_by_day
    group_by_day-sum [] = ground (arith, none_yet)
    group_by_day-sum (r ∷ rs) =
        ground (arith, add_row-sum r (group_by_day rs), group_by_day-sum rs, more r rs)

-- The totals of some rows, as their days add up.
pub record AddsUp (rs : List Row) (days : List OwnDaily) : Type 0 where
  pub requests : sum_by (λ d. d.requests) days ≡ (total rs).requests
  pub chars_in : sum_by (λ d. d.chars_in) days ≡ (total rs).chars_in
  pub chars_out : sum_by (λ d. d.chars_out) days ≡ (total rs).chars_out
  pub files : sum_by (λ d. d.files) days ≡ (total rs).files

-- The days of a user's usage since a cutoff add up to the totals over the user's finished rows
-- from that time on: requests, characters in and out, and files.
pub usage_daily_for-AddsUp :
    (uid cutoff : Text) (db : ChatDb)
    → AddsUp (keep (is_counted_since uid cutoff) db.rows) (usage_daily_for uid cutoff db)
unfolding usage_daily_for total
usage_daily_for-AddsUp uid cutoff db =
    let rs = keep (is_counted_since uid cutoff) db.rows in
    record {
      requests =
          group_by_day-sum _ (λ r. 1) (λ r. refl) (λ r d. refl) (λ u. u.requests) refl (λ r s. refl)
            rs;
      chars_in =
          group_by_day-sum _ (λ r. or_zero r.chars_in) (λ r. refl) (λ r d. refl) (λ u. u.chars_in)
            refl (λ r s. refl) rs;
      chars_out =
          group_by_day-sum _ (λ r. or_zero r.chars_out) (λ r. refl) (λ r d. refl) (λ u. u.chars_out)
            refl (λ r s. refl) rs;
      files =
          group_by_day-sum _ (λ r. or_zero r.files) (λ r. refl) (λ r d. refl) (λ u. u.files) refl
            (λ r s. refl) rs;
    }
