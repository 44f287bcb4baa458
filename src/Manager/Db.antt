-- ===== src/Manager/Db.antt =====
-- The chat queue of manager/src/main.rs: the `chat_question` table and the queries of `ChatDb`.
-- Both dialects (SQLite and Postgres) run the same statements, so one table stands for either.
-- A statement that fails changes nothing; its callers take the failure as a parameter.
pub mod Order
pub mod Queue
pub mod Posted
pub mod Held
use llm_chat.Prelude.{
  ℕ, ◌+◌, Text, Bool, true, false, ◌&&◌, Option, none, some, List, [], ◌∷◌, ◌++◌, ℤ, map, length,
  ◌==◌, leb, text_eq, text_leb, if◌then◌else◌, keep, take,
}

-- The `status` column. The program writes no other texts into it.
pub data Status : Type 0 where
  pending sent error answered confirmed : Status

abbrev pub status_eq : Status → Status → Bool
status_eq pending pending = true
status_eq sent sent = true
status_eq error error = true
status_eq answered answered = true
status_eq confirmed confirmed = true
status_eq _ _ = false

-- A row of `chat_question`; columns that are NULL in old or unfinished rows are optional.
pub record Row : Type 0 where
  pub seq : ℕ
  pub connection_id : Text
  pub sid : Text
  pub q_id : Text
  pub text : Text
  pub time_in : Text
  pub status : Status
  pub answer_text : Option Text
  pub time_out : Option Text
  pub time_confirmed : Option Text
  pub attachment_paths : Option Text
  pub user_id : Option Text
  pub chars_in : Option ℕ
  pub chars_out : Option ℕ
  pub files : Option ℕ
  pub file_bytes : Option ℤ

-- The table and the last number that AUTOINCREMENT gave out.
pub record ChatDb : Type 0 where
  pub rows : List Row
  pub last_seq : ℕ

-- UPDATE chat_question SET … WHERE …, with the number of rows that it reached.
abbrev pub update_where : (Row → Bool) → (Row → Row) → List Row → List Row
update_where p f [] = []
update_where p f (r ∷ rs) = (if p r then f r else r) ∷ update_where p f rs

abbrev pub rows_affected : (Row → Bool) → List Row → ℕ
rows_affected p rs = length (keep p rs)

-- The arguments of `insert_pending`.
pub record Question : Type 0 where
  pub connection_id : Text
  pub sid : Text
  pub q_id : Text
  pub text : Text
  pub time_in : Text
  pub attachment_paths_json : Option Text
  pub user_id : Option Text
  pub chars_in : ℕ
  pub files : ℕ
  pub file_bytes : ℤ

abbrev pub pending_row : ℕ → Question → Row
pending_row seq q = record {
  seq = seq;
  connection_id = q.connection_id;
  sid = q.sid;
  q_id = q.q_id;
  text = q.text;
  time_in = q.time_in;
  status = pending;
  answer_text = none;
  time_out = none;
  time_confirmed = none;
  attachment_paths = q.attachment_paths_json;
  user_id = q.user_id;
  chars_in = some q.chars_in;
  chars_out = none;
  files = some q.files;
  file_bytes = some q.file_bytes;
}

unfoldable pub insert_pending : Question → ChatDb → ChatDb × ℕ
insert_pending q db =
    let seq = db.last_seq + 1 in
    (record { rows = db.rows ++ pending_row seq q ∷ []; last_seq = seq }, seq)

abbrev pub has_seq : ℕ → Row → Bool
has_seq seq r = r.seq == seq

unfoldable pub update_status : ℕ → Status → ChatDb → ChatDb
update_status seq status db = record db {
  rows = update_where (has_seq seq) (λ r. record r { status = status }) db.rows;
}

abbrev pub is_sent_of : Text → Row → Bool
is_sent_of connection_id r = text_eq r.connection_id connection_id && status_eq r.status sent

-- ORDER BY seq ASC LIMIT 1
abbrev older : Row → Option Row → Row
older r none = r
older r (some s) = if leb r.seq s.seq then r else s

unfoldable pub oldest : List Row → Option Row
oldest [] = none
oldest (r ∷ rs) = some (older r (oldest rs))

abbrev pub claim : Row → ℕ × Text × Text
claim r = (r.seq, r.q_id, r.time_in)

abbrev pub claimed : Option Row → Option (ℕ × Text × Text)
claimed none = none
claimed (some r) = some (claim r)

unfoldable pub pop_sent : Text → ChatDb → Option (ℕ × Text × Text)
pop_sent connection_id db = claimed (oldest (keep (is_sent_of connection_id) db.rows))

abbrev pub is_answered : ℕ → Row → Bool
is_answered seq r = r.seq == seq && status_eq r.status answered

abbrev pub confirm_row : Text → Row → Row
confirm_row time_confirmed r = record r { status = confirmed; time_confirmed = some time_confirmed }

unfoldable pub mark_confirmed : ℕ → Text → ChatDb → ChatDb × Bool
mark_confirmed seq time_confirmed db = (
  record db { rows = update_where (is_answered seq) (confirm_row time_confirmed) db.rows },
  leb 1 (rows_affected (is_answered seq) db.rows),
)

abbrev pub answer_row : Text → Text → Row → Row
answer_row answer_text time_out r = record r {
  answer_text = some answer_text;
  status = answered;
  time_out = some time_out;
  chars_out = some (length answer_text);
}

unfoldable pub mark_answered : ℕ → Text → Text → ChatDb → ChatDb
mark_answered seq answer_text time_out db = record db {
  rows = update_where (has_seq seq) (answer_row answer_text time_out) db.rows;
}

-- `query_chat_queue`: the filters are joined by AND, the newest rows come first.
abbrev matches_text : Option Text → Text → Bool
matches_text none t = true
matches_text (some s) t = text_eq t s

abbrev matches_status : Option Status → Status → Bool
matches_status none t = true
matches_status (some s) t = status_eq t s

abbrev pub queue_filter : Option Text → Option Text → Option Status → Row → Bool
queue_filter connection_id sid status r =
    matches_text connection_id r.connection_id
    && matches_text sid r.sid
    && matches_status status r.status

unfoldable pub insert_desc : Row → List Row → List Row
insert_desc r [] = r ∷ []
insert_desc r (s ∷ rs) = if leb s.seq r.seq then r ∷ s ∷ rs else s ∷ insert_desc r rs

-- ORDER BY seq DESC
unfoldable pub order_desc : List Row → List Row
unfolding insert_desc
order_desc [] = []
order_desc (r ∷ rs) = insert_desc r (order_desc rs)

unfoldable pub query_chat_queue : ChatDb → Option Text → Option Text → Option Status → ℕ → List Row
unfolding order_desc
query_chat_queue db connection_id sid status limit =
    take limit (order_desc (keep (queue_filter connection_id sid status) db.rows))
