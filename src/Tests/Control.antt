-- ===== src/Tests/Control.antt =====
-- An operator opens a session and sets a template; and the usage of two connections.
use llm_chat.Prelude.{
  refl, ℕ, ◌≡◌, Text, Option, none, some, List, [], ◌∷◌, keep, lit, Result, ok, text_eq,
  if◌then◌else◌,
}
use llm_chat.Json.{Json, null, str, obj, end, field, get}
use llm_chat.Manager.Usage.{total, usage_by_user}
use llm_chat.Manager.Replies.{totals_json, compose_usage_reply}
use llm_chat.Manager.Control.{Moment, ManagerState, control_all}
use llm_chat.Manager.Control.Sums.{has_user, totals_of, compose_usage_reply-total}
use llm_chat.Manager.Control.Kept.{IsQuiet, IsAdministered, control_all-IsAdministered}
use llm_chat.Tests.Chat.{after_traffic}
use llm_chat.Tests.Templates.{store, as_text, well_formed}

compose_usage_reply-total_example :
    get (compose_usage_reply (usage_by_user after_traffic.db)) (lit "totals")
    ≡ some (totals_json (totals_of (total (keep has_user after_traffic.db.rows))))
compose_usage_reply-total_example = compose_usage_reply-total after_traffic.db

abbrev replies : ℕ → Json → Result Json Text
replies port req = ok (obj (field (lit "sessionId") (str (lit "s1")) end))

abbrev quiet : Moment
quiet = record {
  call_backend = replies;
  load_order = λ loads. loads;
  client_order = λ clients. clients;
  meanwhile = λ st. st;
  templates_meanwhile = λ store. store;
  query_fails = none;
  save_fails = none;
  now = lit "now";
  cutoff = [];
}

abbrev parse : Text → Option Json
parse t =
    if text_eq t (lit "set-template")
    then some (
        obj (
          field (lit "cmd") (str t)
            (field (lit "appCode") (str (lit "notes")) (field (lit "template") null end))))
    else some (obj (field (lit "cmd") (str t) end))

abbrev manager : ManagerState
manager = record {
  registry = record {
    instance_ports = 9001 ∷ [];
    session_to_port = [];
    session_to_owner = [];
    clients = [];
  };
  chat_db = after_traffic.db;
  templates = store;
}

abbrev show_port : ℕ → Text
show_port p = p ∷ []

abbrev session : List (Moment × Text)
session =
    (quiet, lit "open")
    ∷ (quiet, lit "set-template")
    ∷ (quiet, lit "instances")
    ∷ (quiet, lit "x")
    ∷ []

quiet-IsQuiet : IsQuiet quiet
quiet-IsQuiet = record { sessions = λ st h. h; templates = λ store code. refl }

control_all-IsAdministered_example :
    IsAdministered manager
      (control_all show_port parse as_text well_formed (lit "op") session manager)
control_all-IsAdministered_example =
    control_all-IsAdministered show_port parse as_text well_formed (lit "op") session manager
      (quiet-IsQuiet, (quiet-IsQuiet, (quiet-IsQuiet, (quiet-IsQuiet, tt))))
