-- ===== src/Manager/Control/Queries.antt =====
-- The replies of the manager's /control (manager/src/main.rs) that only its own state goes into:
-- `instances`, `clients`, `queue` and `get-template`.
use llm_chat.Prelude.{
  ℕ, Text, ◌==◌, Option, none, some, List, [], ◌∷◌, lit, pos, map, keep, length, clamp, sort,
  text_eq, text_leb, unwrap_or, if◌then◌else◌,
}
use llm_chat.Json.{
  Json, null, arr, obj, Items, nil, cons, Fields, end, field, str, get_str, get_i64,
}
use llm_chat.Manager.Db.{
  Status, pending, sent, error, answered, confirmed, Row, ChatDb, query_chat_queue,
}
use llm_chat.Manager.Sessions.{ClientInfo, Registry}
use llm_chat.Manager.Templates.{TemplateRecord}
use llm_chat.Manager.Replies.{put_field, option_text, nat, ok_with, status_text}

-- The texts that a status can have; a row has no other.
unfoldable status_of : Text → Option Status
unfolding status_text
status_of t =
    if text_eq t (status_text pending)
    then some pending
    else if text_eq t (status_text sent)
    then some sent
    else if text_eq t (status_text error)
    then some error
    else if text_eq t (status_text answered)
    then some answered
    else if text_eq t (status_text confirmed)
    then some confirmed
    else none

-- The rows of the queue, for a status of any text.
abbrev rows_with : Option Text → Option Text → Option Text → ℕ → ChatDb → List Row
rows_with connection_id sid none limit db = query_chat_queue db connection_id sid none limit
rows_with connection_id sid (some t) limit db = elim (status_of t) [
  | none ↦ []
  | some status ↦ query_chat_queue db connection_id sid (some status) limit
]

unfoldable pub queue_rows : Json → ChatDb → List Row
unfolding status_of query_chat_queue
queue_rows req db =
    rows_with (get_str req (lit "connectionId")) (get_str req (lit "sid"))
      (get_str req (lit "status")) (clamp (unwrap_or (get_i64 req (lit "limit")) (pos 100)) 1 1000)
      db

unfoldable pub sorted_clients : List (Text × ClientInfo) → List ClientInfo
unfolding sort
sorted_clients cs = sort (λ a b. text_leb a.connected_at b.connected_at) (map (λ p. p.1) cs)

abbrev ports_json : List ℕ → Items
ports_json [] = nil
ports_json (p ∷ ps) = cons (nat p) (ports_json ps)

abbrev pub sessions_on : ℕ → Registry → ℕ
sessions_on p st = length (keep (λ e. e.1 == p) st.session_to_port)

-- `show` prints a port.
module _ (show : ℕ → Text) where
  unfoldable pub loads_from : List ℕ → Registry → Fields → Fields
  unfolding put_field
  loads_from [] st loads = loads
  loads_from (p ∷ ps) st loads =
      loads_from ps st (put_field (show p) (nat (sessions_on p st)) loads)

  unfoldable pub instances : Registry → Json
  unfolding loads_from
  instances st = ok_with (
      field (lit "ports") (arr (ports_json st.instance_ports))
        (field (lit "sessionsPerPort") (obj (loads_from st.instance_ports st end)) end))

-- `from_str` is serde_json's.
module _ (from_str : Text → Option Json) where
  abbrev pub template_reply : Text → Option TemplateRecord → Json
  template_reply code (some rec) = ok_with (
      field (lit "appCode") (str code) (
        field (lit "version") (nat rec.version) (
          field (lit "template") (unwrap_or (from_str rec.template_json) (arr nil)) (
            field (lit "migrateInstructions") (option_text rec.migrate_instructions)
              (field (lit "updatedAt") (str rec.updated_at) end)))))
  template_reply code none = ok_with (
      field (lit "appCode") (str code) (
        field (lit "version") (nat 0) (
          field (lit "template") (arr nil)
            (field (lit "migrateInstructions") null (field (lit "updatedAt") null end)))))
