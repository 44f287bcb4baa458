-- ===== src/Worker/AppState.antt =====
-- The sessions of a worker (`AppState` of worker/src/lib.rs) and the commands of its /control socket
-- that only read or change them, for the default transport, stream-json. What a command tells the
-- window is left out.
pub mod Synced
use llm_chat.Prelude.{
  ℕ, zero, suc, ◌+◌, ◌-◌, Text, Bool, true, false, not, ◌&&◌, ◌||◌, Option, none, some, List, [],
  ◌∷◌, ◌++◌, lit, pos, any, keep, length, leb, text_eq, is_empty, unwrap_or, and_then,
  parse_unsigned, find, insert, remove, if◌then◌else◌,
}
use llm_chat.Json.{
  Json, null, bool, int, str, arr, obj, Items, nil, cons, Fields, end, field, get_str,
}
use llm_chat.Worker.Session.{JsonSession}

pub record QaItem : Type 0 where
  pub num : ℕ
  pub question : Text
  pub answer : Text

-- A channel of `qa_broadcasts` is there or not.
pub record AppState : Type 0 where
  pub json_sessions : List (Text × JsonSession)
  pub qa_broadcasts : List (Text × Unit {0})
  pub qa_history : List (Text × List QaItem)
  pub session_order : List Text
  pub active_session_id : Option Text

abbrev pub new_app_state : AppState
new_app_state = record {
  json_sessions = [];
  qa_broadcasts = [];
  qa_history = [];
  session_order = [];
  active_session_id = none;
}

abbrev pub max_sessions : ℕ
max_sessions = 50

abbrev pub contains : Text → List Text → Bool
contains sid order = any (λ x. text_eq x sid) order

abbrev nth : List Text → ℕ → Option Text
nth [] n = none
nth (x ∷ xs) zero = some x
nth (x ∷ xs) (suc n) = nth xs n

-- An index counts from 1.
abbrev at_index : ℕ → List Text → Option Text
at_index zero order = none
at_index (suc n) order = nth order n

abbrev resolved : Option ℕ → Text → List Text → Option Text
resolved (some idx) sid order = at_index idx order
resolved none sid order = if is_empty sid then none else some sid

-- An index or the id of a session.
unfoldable pub resolve : Text → List Text → Option Text
unfolding parse_unsigned
resolve sid order = resolved (parse_unsigned 64 sid) sid order

abbrev next_index : Option ℕ → Option ℕ
next_index none = none
next_index (some n) = some (suc n)

unfoldable pub position : Text → List Text → Option ℕ
position sid [] = none
position sid (x ∷ xs) =
    let rest = position sid xs in if text_eq x sid then some 0 else next_index rest

-- The place of the active session, counted from 1.
unfoldable pub active_index : AppState → Option ℕ
unfolding position
active_index st = next_index (and_then st.active_session_id (λ a. position a st.session_order))

abbrev texts : List Text → Items
texts [] = nil
texts (t ∷ ts) = cons (str t) (texts ts)

abbrev option_text : Option Text → Json
option_text none = null
option_text (some t) = str t

abbrev option_number : Option ℕ → Json
option_number none = null
option_number (some n) = int (pos n)

abbrev pub ok_with : Fields → Json
ok_with fs = obj (field (lit "ok") (bool true) fs)

abbrev pub failed : Text → Json
failed e = obj (field (lit "ok") (bool false) (field (lit "error") (str e) end))

unfoldable pub list : AppState → Json
list st = ok_with (
    field (lit "count") (int (pos (length st.session_order))) (
      field (lit "sessions") (arr (texts st.session_order))
        (field (lit "active") (option_text st.active_session_id) end)))

unfoldable pub info : Text → AppState → Json
unfolding active_index
info log_path st = ok_with (
    field (lit "count") (int (pos (length st.session_order))) (
      field (lit "sessions") (arr (texts st.session_order)) (
        field (lit "active") (option_text st.active_session_id) (
          field (lit "activeIndex") (option_number (active_index st))
            (field (lit "logPath") (str log_path) end)))))

unfoldable pub current : AppState → Json
unfolding active_index
current st = ok_with (
    field (lit "active") (option_text st.active_session_id) (
      field (lit "activeIndex") (option_number (active_index st))
        (field (lit "sessions") (arr (texts st.session_order)) end)))

abbrev cleared : Text → Text → AppState → Json × AppState
cleared what sid st = (
  ok_with (field (lit "sessionId") (str sid) (field (lit "what") (str what) end)),
  if text_eq what (lit "stream") || text_eq what (lit "all")
      then record st { qa_history = remove sid st.qa_history }
      else st,
)

abbrev pub clear_resolved : Text → Option Text → AppState → Json × AppState
clear_resolved what none st = (failed (lit "bad sessionId"), st)
clear_resolved what (some sid) st = cleared what sid st

unfoldable pub clear : Json → AppState → Json × AppState
unfolding resolve remove
clear req st =
    clear_resolved (unwrap_or (get_str req (lit "what")) (lit "all"))
      (resolve (unwrap_or (get_str req (lit "sessionId")) []) st.session_order) st

abbrev items_json : List QaItem → Items
items_json [] = nil
items_json (q ∷ qs) =
    cons
      (obj (
        field (lit "num") (int (pos q.num))
          (field (lit "question") (str q.question) (field (lit "answer") (str q.answer) end))))
      (items_json qs)

abbrev history_of : Text → AppState → Json
history_of sid st = arr (items_json (unwrap_or (find sid st.qa_history) []))

abbrev histories : List Text → AppState → Fields
histories [] st = end
histories (sid ∷ sids) st = field sid (history_of sid st) (histories sids st)

abbrev history_resolved : Option Text → AppState → Json
history_resolved none st = failed (lit "bad sessionId")
history_resolved (some sid) st =
    ok_with (field (lit "sessionId") (str sid) (field (lit "history") (history_of sid st) end))

-- An empty id is the id of no session here, not a bad one.
abbrev history_target : Option Text → AppState → Json
history_target none st = ok_with (field (lit "histories") (obj (histories st.session_order st)) end)
history_target (some sid) st =
    history_resolved (if is_empty sid then some [] else resolve sid st.session_order) st

unfoldable pub history : Json → AppState → Json
unfolding resolve find
history req st = history_target (get_str req (lit "sessionId")) st

-- What `close` takes away; the session that was active stays named.
unfoldable pub close : Text → AppState → AppState
unfolding remove
close sid st = record st {
  json_sessions = remove sid st.json_sessions;
  qa_broadcasts = remove sid st.qa_broadcasts;
  qa_history = remove sid st.qa_history;
  session_order = keep (λ x. not (text_eq x sid)) st.session_order;
}

unfoldable pub switch : Json → AppState → Json
switch req st =
    let sid = unwrap_or (get_str req (lit "sessionId")) [] in
    if contains sid st.session_order
    then ok_with (field (lit "sessionId") (str sid) end)
    else failed (lit "no session: " ++ sid)

-- The end of `do_spawn_session`, when its process runs.
unfoldable pub add_session : Text → JsonSession → AppState → AppState
unfolding insert
add_session sid session st = record st {
  json_sessions = insert sid session st.json_sessions;
  qa_broadcasts = insert sid tt st.qa_broadcasts;
  session_order = st.session_order ++ sid ∷ [];
}
