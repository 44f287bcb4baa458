-- ===== src/Manager/Control.antt =====
-- The /control socket of the manager (`handle_control` of manager/src/main.rs): an operator's
-- commands over the sessions, the queue, the usage and the templates. The first frame, a greeting,
-- and frames that are no text are left out.
pub mod Backends
pub mod Commands
pub mod Kept
pub mod Queries
pub mod Sums
use llm_chat.Prelude.{
  ℕ, Text, Bool, true, false, ◌||◌, ◌==◌, Option, none, some, List, [], ◌∷◌, ◌++◌, lit, pos, map,
  keep, length, clamp, sort, text_eq, text_leb, is_empty, unwrap_or, Result, ok, err, if◌then◌else◌,
}
use llm_chat.Json.{
  Json, null, arr, obj, Items, nil, cons, Fields, end, field, str, get_str, get_i64,
}
use llm_chat.Manager.Db.{
  Status, pending, sent, error, answered, confirmed, Row, ChatDb, query_chat_queue,
}
use llm_chat.Manager.Usage.{usage_by_user, usage_daily}
use llm_chat.Manager.Sessions.{ClientInfo, Registry, cmd_open, cmd_close}
use llm_chat.Manager.Templates.{Store, TemplateRecord, Reply, filled, get_template, set_template}
use llm_chat.Manager.Replies.{
  put_field, option_text, nat, ok_with, failed, compose_usage_reply, compose_daily_reply,
  status_text, queue_rows_json, clients_json,
}
use llm_chat.Manager.Control.Commands.{
  Command, command_of, instances_cmd, open_cmd, close_cmd, list_cmd, history_cmd, clients_cmd,
  queue_cmd, usage_cmd, usage_daily_cmd, user_box_cmd, get_template_cmd, set_template_cmd, fifo_cmd,
  screenshot_cmd, passed_cmd, unknown,
}
use llm_chat.Manager.Control.Queries.{queue_rows, sorted_clients, instances, template_reply}
use llm_chat.Manager.Control.Backends.{list_sessions, history, fifo, screenshot, user_box, pass_on}

-- What a command meets: the workers' replies, the orders of two HashMaps, what other tasks do to the
-- registry while it waits for a worker and to the templates while it loads and saves one, the failures of its queries, and the time, with the time
-- thirty days before.
pub record Moment : Type 0 where
  pub call_backend : ℕ → Json → Result Json Text
  pub load_order : List (ℕ × ℕ) → List (ℕ × ℕ)
  pub client_order : List (Text × ClientInfo) → List (Text × ClientInfo)
  pub meanwhile : Registry → Registry
  pub templates_meanwhile : Store → Store
  pub query_fails : Option Text
  pub save_fails : Option Text
  pub now : Text
  pub cutoff : Text

-- The manager's state that its commands read or change.
pub record ManagerState : Type 0 where
  pub registry : Registry
  pub chat_db : ChatDb
  pub templates : Store

abbrev pub answer : Json → ManagerState → Json × ManagerState
answer reply st = (reply, st)

-- A query that fails names itself in the reply.
abbrev queried : Text → Option Text → Json → Json
queried what none reply = reply
queried what (some e) reply = failed (what ++ e)

-- `from_str`, `to_string` and the errors of `parse_template` are serde_json's; `show` prints a port.
module _ (show : ℕ → Text) (from_str : Text → Option Json) (to_string : Json → Text)
    (shape_error : Text → Option Text) (user_id : Text) where
  abbrev opened_reply : Result (Text × ℕ × Text) Text → Json
  opened_reply (err e) = failed e
  opened_reply (ok (sid, port, transport)) = ok_with (
      field (lit "sessionId") (str sid)
        (field (lit "backendPort") (nat port) (field (lit "transport") (str transport) end)))

  unfoldable pub run_open : Moment → ManagerState → Json × ManagerState
  unfolding cmd_open
  run_open m st =
      let (r, registry) =
        cmd_open m.load_order m.call_backend m.meanwhile user_id none none st.registry in
      (opened_reply r, record st { registry = registry })

  abbrev closed_reply : Text → Result (Unit {0}) Text → Json
  closed_reply sid (err e) = failed e
  closed_reply sid (ok _) = ok_with (field (lit "sessionId") (str sid) end)

  unfoldable pub run_close : Moment → Json → ManagerState → Json × ManagerState
  unfolding cmd_close
  run_close m req st =
      let sid = unwrap_or (get_str req (lit "sessionId")) [] in
      let (r, registry) = cmd_close m.load_order m.call_backend m.meanwhile sid st.registry in
      (closed_reply sid r, record st { registry = registry })

  unfoldable pub run_clients : Moment → ManagerState → Json
  unfolding sorted_clients
  run_clients m st =
      let list = sorted_clients (m.client_order st.registry.clients) in
      ok_with (
        field (lit "count") (nat (length list))
          (field (lit "clients") (arr (clients_json list)) end))

  unfoldable pub run_queue : Moment → Json → ManagerState → Json
  unfolding queue_rows queue_rows_json
  run_queue m req st =
      let rows = queue_rows req st.chat_db in
      queried (lit "queue query: ") m.query_fails (
        ok_with (
          field (lit "count") (nat (length rows))
            (field (lit "rows") (arr (queue_rows_json from_str rows)) end)))

  abbrev template_of : Moment → Option Text → Store → Json
  template_of m none store = failed (lit "appCode required")
  template_of m (some code) store =
      queried (lit "get-template: ") m.query_fails
        (template_reply from_str code (get_template code store))

  unfoldable pub run_get_template : Moment → Json → ManagerState → Json
  unfolding get_template
  run_get_template m req st = template_of m (filled (get_str req (lit "appCode"))) st.templates

  abbrev set_reply : Reply → Json
  set_reply (err e) = failed e
  set_reply (ok (code, version, now)) = ok_with (
      field (lit "appCode") (str code)
        (field (lit "version") (nat version) (field (lit "updatedAt") (str now) end)))

  unfoldable pub run_set_template : Moment → Json → ManagerState → Json × ManagerState
  unfolding set_template
  run_set_template m req st =
      let (r, store) =
        set_template to_string shape_error m.now m.query_fails m.save_fails m.templates_meanwhile
          req st.templates in
      (set_reply r, record st { templates = store })

  abbrev pub run_command : Moment → Json → Command → ManagerState → Json × ManagerState
  run_command m req instances_cmd st = answer (instances show st.registry) st
  run_command m req open_cmd st = run_open m st
  run_command m req close_cmd st = run_close m req st
  run_command m req list_cmd st = answer (list_sessions show m.call_backend st.registry) st
  run_command m req history_cmd st = answer (history show m.call_backend req st.registry) st
  run_command m req clients_cmd st = answer (run_clients m st) st
  run_command m req queue_cmd st = answer (run_queue m req st) st
  run_command m req usage_cmd st =
      answer
        (queried (lit "usage query: ") m.query_fails
          (compose_usage_reply (usage_by_user st.chat_db)))
        st
  run_command m req usage_daily_cmd st =
      answer
        (queried (lit "usage-daily query: ") m.query_fails
          (compose_daily_reply (usage_daily m.cutoff st.chat_db)))
        st
  run_command m req user_box_cmd st = answer (user_box show m.call_backend req st.registry) st
  run_command m req get_template_cmd st = answer (run_get_template m req st) st
  run_command m req set_template_cmd st = run_set_template m req st
  run_command m req fifo_cmd st = answer (fifo show m.call_backend req st.registry) st
  run_command m req screenshot_cmd st = answer (screenshot show m.call_backend req st.registry) st
  run_command m req passed_cmd st = answer (pass_on show m.call_backend req st.registry) st
  run_command m req (unknown cmd) st = answer (failed (lit "unknown cmd: " ++ cmd)) st

  -- A text that is no JSON is read as an empty object, and so has no command.
  unfoldable pub control : Moment → Text → ManagerState → Json × ManagerState
  unfolding command_of
  control m text st =
      let req = unwrap_or (from_str text) (obj end) in
      run_command m req (command_of (unwrap_or (get_str req (lit "cmd")) [])) st

  unfoldable pub control_all : List (Moment × Text) → ManagerState → ManagerState
  unfolding control
  control_all [] st = st
  control_all ((m, text) ∷ rest) st = control_all rest (control m text st).1
