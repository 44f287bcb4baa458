-- ===== src/Manager/Usage/Users.antt =====
-- The report over all users and a user's own report.
use llm_chat.Prelude.{
  ◌≡◌, refl, ap, ◌∙◌, Text, Bool, true, false, ◌&&◌, Option, none, some, List, [], ◌∷◌, keep, find,
  unwrap_or, text_eq, text_eq_iff, arith, Bool-cases, inl, inr, if◌then◌else◌,
}
use llm_chat.Manager.Db.{Row, ChatDb}
use llm_chat.Manager.Frames.{OwnUsage}
use llm_chat.Manager.Usage.{
  is_finished, is_user, is_counted, no_usage, count_row, total, usage_for, add_user, add_if,
  group_by_user, usage_by_user,
}

-- A user's sums among the groups; a user without a group has none.
abbrev usage_of : Text → List (Text × OwnUsage) → OwnUsage
usage_of uid groups = unwrap_or (find uid groups) no_usage

usage_of-add_user :
    (uid v : Text) (r : Row) (groups : List (Text × OwnUsage))
    → usage_of uid (add_user v r groups)
      ≡ (if text_eq v uid then count_row r (usage_of uid groups) else usage_of uid groups)
unfolding add_user find
usage_of-add_user uid v r [] = ground arith
usage_of-add_user uid v r ((u, t) ∷ groups) =
    ground (
      arith,
      usage_of-add_user uid v r groups,
      text_eq_iff u v,
      text_eq_iff v uid,
      text_eq_iff u uid,
    )

usage_of-add_if :
    (uid : Text) (finished : Bool) (user : Option Text) (r : Row) (groups : List (Text × OwnUsage))
    → usage_of uid (add_if (if finished then user else none) r groups) ≡ (
        if finished && is_user uid user
        then count_row r (usage_of uid groups)
        else usage_of uid groups)
usage_of-add_if uid false user r groups = refl
usage_of-add_if uid true none r groups = refl
usage_of-add_if uid true (some v) r groups = usage_of-add_user uid v r groups

counted_total :
    (p : Row → Bool) (r : Row) (rs : List Row)
    → (if p r then count_row r (total (keep p rs)) else total (keep p rs)) ≡ total (keep p (r ∷ rs))
unfolding total
counted_total p r rs = elim (Bool-cases (p r)) [ inl y ↦ rw y refl | inr n ↦ rw n refl ]

usage_of-group_by_user :
    (uid : Text) (rs : List Row)
    → usage_of uid (group_by_user rs) ≡ total (keep (is_counted uid) rs)
unfolding group_by_user find total
usage_of-group_by_user uid [] = refl
usage_of-group_by_user uid (r ∷ rs) =
    usage_of-add_if uid (is_finished r) r.user_id r (group_by_user rs)
    ∙ ap (λ t. if is_counted uid r then count_row r t else t) (usage_of-group_by_user uid rs)
    ∙ counted_total (is_counted uid) r rs

-- The report over all users has the same sums for a user as the user's own report; a user whom it
-- does not name has no finished questions.
pub usage_by_user-eq-usage_for :
    (uid : Text) (db : ChatDb) → unwrap_or (find uid (usage_by_user db)) no_usage ≡ usage_for uid db
unfolding usage_by_user usage_for
usage_by_user-eq-usage_for uid db = usage_of-group_by_user uid db.rows
