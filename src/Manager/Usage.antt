-- ===== src/Manager/Usage.antt =====
-- The self-counted usage of manager/src/main.rs: `usage_for`, `usage_daily_for`,
-- `usage_by_user`, `b64_decoded_len`.
-- A NULL count adds nothing to a SUM. Sums are not cut off at 64 bits. Texts are ordered by code
-- points, as SQLite does and as both dialects do for ISO-8601 times.
pub mod Totals
pub mod Users
use llm_chat.Prelude.{
  byte_len, ℕ, ◌+◌, ◌*◌, ◌/◌, Text, Bool, true, false, not, ◌&&◌, ◌||◌, Option, none, some, List,
  [], ◌∷◌, ℤ, pos, ◌+ℤ◌, sub_ℕ, ◌==◌, ltb, is_empty, text_eq, text_leb, if◌then◌else◌, keep, take,
  unwrap_or,
}
use llm_chat.Manager.Db.{Row, ChatDb, status_eq, answered, confirmed}
use llm_chat.Manager.Frames.{OwnUsage, OwnDaily}

abbrev is_finished : Row → Bool
is_finished r = status_eq r.status answered || status_eq r.status confirmed

abbrev is_user : Text → Option Text → Bool
is_user uid none = false
is_user uid (some u) = text_eq u uid

-- The rows of WHERE status IN ('answered','confirmed') AND user_id = ?
abbrev pub is_counted : Text → Row → Bool
is_counted uid r = is_finished r && is_user uid r.user_id

abbrev or_zero : Option ℕ → ℕ
or_zero n = unwrap_or n 0

-- MAX of a column: NULLs do not count.
abbrev later : Option Text → Option Text → Option Text
later none t = t
later (some s) none = some s
later (some s) (some t) = if text_leb s t then some t else some s

abbrev pub no_usage : OwnUsage
no_usage = record {
  requests = 0;
  chars_in = 0;
  chars_out = 0;
  files = 0;
  file_bytes = pos 0;
  last_used = none;
}

-- One more row in the sums.
abbrev pub count_row : Row → OwnUsage → OwnUsage
count_row r rest = record {
  requests = 1 + rest.requests;
  chars_in = or_zero r.chars_in + rest.chars_in;
  chars_out = or_zero r.chars_out + rest.chars_out;
  files = or_zero r.files + rest.files;
  file_bytes = unwrap_or r.file_bytes (pos 0) +ℤ rest.file_bytes;
  last_used = later r.time_out rest.last_used;
}

unfoldable pub total : List Row → OwnUsage
total [] = no_usage
total (r ∷ rs) = count_row r (total rs)

unfoldable pub usage_for : Text → ChatDb → OwnUsage
unfolding total
usage_for uid db = total (keep (is_counted uid) db.rows)

-- The user of a finished row that has one: WHERE … AND user_id IS NOT NULL.
abbrev pub finished_of : Row → Option Text
finished_of r = if is_finished r then r.user_id else none

-- A row enters the group of its user.
unfoldable pub add_user : Text → Row → List (Text × OwnUsage) → List (Text × OwnUsage)
add_user uid r [] = (uid, count_row r no_usage) ∷ []
add_user uid r ((u, t) ∷ groups) =
    let rest = add_user uid r groups in
    if text_eq u uid then (u, count_row r t) ∷ groups else (u, t) ∷ rest

abbrev pub add_if : Option Text → Row → List (Text × OwnUsage) → List (Text × OwnUsage)
add_if none r groups = groups
add_if (some uid) r groups = add_user uid r groups

unfoldable pub group_by_user : List Row → List (Text × OwnUsage)
unfolding add_user
group_by_user [] = []
group_by_user (r ∷ rs) = add_if (finished_of r) r (group_by_user rs)

-- The usage of every user, in an order that the database does not promise.
unfoldable pub usage_by_user : ChatDb → List (Text × OwnUsage)
unfolding group_by_user
usage_by_user db = group_by_user db.rows

-- `substr(time_in,1,10)`
abbrev pub day_of : Row → Text
day_of r = take 10 r.time_in

abbrev one_row : Row → OwnDaily
one_row r = record {
  day = day_of r;
  requests = 1;
  chars_in = or_zero r.chars_in;
  chars_out = or_zero r.chars_out;
  files = or_zero r.files;
  file_bytes = unwrap_or r.file_bytes (pos 0);
}

abbrev merge_row : Row → OwnDaily → OwnDaily
merge_row r d = record {
  day = d.day;
  requests = 1 + d.requests;
  chars_in = or_zero r.chars_in + d.chars_in;
  chars_out = or_zero r.chars_out + d.chars_out;
  files = or_zero r.files + d.files;
  file_bytes = unwrap_or r.file_bytes (pos 0) +ℤ d.file_bytes;
}

-- A row enters the group of its day; the groups are ordered by day.
unfoldable pub add_row : Row → List OwnDaily → List OwnDaily
add_row r [] = one_row r ∷ []
add_row r (d ∷ ds) =
    let rest = add_row r ds in
    if text_eq (day_of r) d.day
    then merge_row r d ∷ ds
    else if text_leb (day_of r) d.day
    then one_row r ∷ d ∷ ds
    else d ∷ rest

unfoldable pub group_by_day : List Row → List OwnDaily
unfolding add_row
group_by_day [] = []
group_by_day (r ∷ rs) = add_row r (group_by_day rs)

abbrev pub is_counted_since : Text → Text → Row → Bool
is_counted_since uid cutoff r = is_counted uid r && text_leb cutoff r.time_in

unfoldable pub usage_daily_for : Text → Text → ChatDb → List OwnDaily
unfolding group_by_day
usage_daily_for uid cutoff db = group_by_day (keep (is_counted_since uid cutoff) db.rows)

-- `DailyRow`: one user's day.
pub record DailyRow : Type 0 where
  pub user_id : Text
  pub day : Text
  pub chars_in : ℕ
  pub chars_out : ℕ
  pub file_bytes : ℤ

abbrev pub daily_row : Text → Row → DailyRow
daily_row uid r = record {
  user_id = uid;
  day = day_of r;
  chars_in = or_zero r.chars_in;
  chars_out = or_zero r.chars_out;
  file_bytes = unwrap_or r.file_bytes (pos 0);
}

abbrev pub merge_daily : Row → DailyRow → DailyRow
merge_daily r d = record d {
  chars_in = or_zero r.chars_in + d.chars_in;
  chars_out = or_zero r.chars_out + d.chars_out;
  file_bytes = unwrap_or r.file_bytes (pos 0) +ℤ d.file_bytes;
}

-- A row enters the group of its user and day; the groups are ordered by day.
unfoldable pub add_daily : Text → Row → List DailyRow → List DailyRow
add_daily uid r [] = daily_row uid r ∷ []
add_daily uid r (d ∷ ds) =
    let rest = add_daily uid r ds in
    if text_eq uid d.user_id && text_eq (day_of r) d.day
    then merge_daily r d ∷ ds
    else if text_leb (day_of r) d.day && not (text_eq (day_of r) d.day)
    then daily_row uid r ∷ d ∷ ds
    else d ∷ rest

abbrev pub add_daily_if : Option Text → Row → List DailyRow → List DailyRow
add_daily_if none r ds = ds
add_daily_if (some uid) r ds = add_daily uid r ds

unfoldable pub group_daily : List Row → List DailyRow
unfolding add_daily
group_daily [] = []
group_daily (r ∷ rs) = add_daily_if (finished_of r) r (group_daily rs)

-- Of one day, the order of the users is one that the database does not promise.
unfoldable pub usage_daily : Text → ChatDb → List DailyRow
unfolding group_daily
usage_daily cutoff db = group_daily (keep (λ r. text_leb cutoff r.time_in) db.rows)

abbrev all_pad : Text → Bool
all_pad [] = true
all_pad (c ∷ s) = c == b'=' && all_pad s

-- The number of `=` at the end.
unfoldable pub pad_len : Text → ℕ
pad_len [] = 0
pad_len (c ∷ s) = (if c == b'=' && all_pad s then 1 else 0) + pad_len s

-- The subtraction of `usize` wraps around below 0 in a release build, and the cast to `i64` makes
-- of that the signed difference; a debug build stops there.
unfoldable pub b64_decoded_len : Text → ℤ
unfolding byte_len pad_len
b64_decoded_len s = if is_empty s then pos 0 else sub_ℕ (byte_len s / 4 * 3) (pad_len s)
