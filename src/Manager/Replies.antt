-- ===== src/Manager/Replies.antt =====
-- The JSON that the manager's /control sends (manager/src/main.rs): `compose_usage_reply`,
-- `compose_daily_reply`, the rows of `query_chat_queue`, `ClientInfo` as serde prints it, and a
-- `serde_json::Map` that is filled by `insert`.
use llm_chat.Prelude.{
  ℕ, ◌+◌, Text, true, false, Option, none, some, List, [], ◌∷◌, lit, ℤ, pos, ◌+ℤ◌, text_eq,
  unwrap_or, and_then, if◌then◌else◌,
}
use llm_chat.Json.{Json, null, bool, int, str, arr, obj, Items, nil, cons, Fields, end, field}
use llm_chat.Manager.Db.{Status, pending, sent, error, answered, confirmed, Row}
use llm_chat.Manager.Frames.{OwnUsage}
use llm_chat.Manager.Usage.{DailyRow}
use llm_chat.Manager.Sessions.{ClientInfo}

-- `Map::insert`: a key that is there takes the new value. The order of keys is not observed.
unfoldable pub put_field : Text → Json → Fields → Fields
put_field k v end = field k v end
put_field k v (field j w fs) =
    let rest = put_field k v fs in if text_eq j k then field j v fs else field j w rest

abbrev pub json_items : List Json → Items
json_items [] = nil
json_items (v ∷ vs) = cons v (json_items vs)

abbrev pub text_items : List Text → Items
text_items [] = nil
text_items (t ∷ ts) = cons (str t) (text_items ts)

abbrev pub option_text : Option Text → Json
option_text none = null
option_text (some t) = str t

abbrev pub nat : ℕ → Json
nat n = int (pos n)

abbrev pub ok_with : Fields → Json
ok_with fs = obj (field (lit "ok") (bool true) fs)

abbrev pub failed : Text → Json
failed e = obj (field (lit "ok") (bool false) (field (lit "error") (str e) end))

-- The sums over the rows.
pub record Totals : Type 0 where
  pub requests : ℕ
  pub chars_in : ℕ
  pub chars_out : ℕ
  pub files : ℕ
  pub file_bytes : ℤ

abbrev pub no_totals : Totals
no_totals = record { requests = 0; chars_in = 0; chars_out = 0; files = 0; file_bytes = pos 0 }

abbrev pub add_usage : Totals → OwnUsage → Totals
add_usage t u = record {
  requests = t.requests + u.requests;
  chars_in = t.chars_in + u.chars_in;
  chars_out = t.chars_out + u.chars_out;
  files = t.files + u.files;
  file_bytes = t.file_bytes +ℤ u.file_bytes;
}

unfoldable pub sum_usage : Totals → List (Text × OwnUsage) → Totals
sum_usage t [] = t
sum_usage t ((uid, u) ∷ rows) = sum_usage (add_usage t u) rows

abbrev user_json : Text × OwnUsage → Json
user_json (uid, u) = obj (
    field (lit "userId") (str uid) (
      field (lit "requests") (nat u.requests) (
        field (lit "charsIn") (nat u.chars_in) (
          field (lit "charsOut") (nat u.chars_out) (
            field (lit "files") (nat u.files) (
              field (lit "fileBytes") (int u.file_bytes)
                (field (lit "lastUsed") (option_text u.last_used) end)))))))

abbrev users_json : List (Text × OwnUsage) → Items
users_json [] = nil
users_json (r ∷ rows) = cons (user_json r) (users_json rows)

abbrev pub totals_json : Totals → Json
totals_json t = obj (
    field (lit "requests") (nat t.requests) (
      field (lit "charsIn") (nat t.chars_in) (
        field (lit "charsOut") (nat t.chars_out)
          (field (lit "files") (nat t.files) (field (lit "fileBytes") (int t.file_bytes) end)))))

unfoldable pub compose_usage_reply : List (Text × OwnUsage) → Json
unfolding sum_usage
compose_usage_reply rows = ok_with (
    field (lit "users") (arr (users_json rows))
      (field (lit "totals") (totals_json (sum_usage no_totals rows)) end))

abbrev day_json : DailyRow → Json
day_json r = obj (
    field (lit "userId") (str r.user_id) (
      field (lit "day") (str r.day) (
        field (lit "charsIn") (nat r.chars_in) (
          field (lit "charsOut") (nat r.chars_out)
            (field (lit "fileBytes") (int r.file_bytes) end)))))

abbrev days_json : List DailyRow → Items
days_json [] = nil
days_json (r ∷ rows) = cons (day_json r) (days_json rows)

unfoldable pub compose_daily_reply : List DailyRow → Json
compose_daily_reply rows = ok_with (field (lit "days") (arr (days_json rows)) end)

unfoldable pub status_text : Status → Text
status_text pending = lit "pending"
status_text sent = lit "sent"
status_text error = lit "error"
status_text answered = lit "answered"
status_text confirmed = lit "confirmed"

-- `from_str` is serde_json's.
module _ (from_str : Text → Option Json) where
  unfoldable pub queue_row_json : Row → Json
  unfolding status_text
  queue_row_json r = obj (
      field (lit "seq") (nat r.seq) (
        field (lit "connectionId") (str r.connection_id) (
          field (lit "sid") (str r.sid) (
            field (lit "qId") (str r.q_id) (
              field (lit "text") (str r.text) (
                field (lit "timeIn") (str r.time_in) (
                  field (lit "status") (str (status_text r.status)) (
                    field (lit "answerText") (option_text r.answer_text) (
                      field (lit "timeOut") (option_text r.time_out) (
                        field (lit "attachmentPaths")
                          (unwrap_or (and_then r.attachment_paths from_str) null) end))))))))))

  unfoldable pub queue_rows_json : List Row → Items
  unfolding queue_row_json
  queue_rows_json [] = nil
  queue_rows_json (r ∷ rs) = cons (queue_row_json r) (queue_rows_json rs)

abbrev pub client_json : ClientInfo → Json
client_json c = obj (
    field (lit "connectionId") (str c.connection_id) (
      field (lit "sid") (str c.sid) (
        field (lit "userId") (str c.user_id) (
          field (lit "backendPort") (nat c.backend_port) (
            field (lit "connectedAt") (str c.connected_at) (
              field (lit "lastQAt") (option_text c.last_q_at)
                (field (lit "questionsSent") (nat c.questions_sent) end)))))))

abbrev pub clients_json : List ClientInfo → Items
clients_json [] = nil
clients_json (c ∷ cs) = cons (client_json c) (clients_json cs)
