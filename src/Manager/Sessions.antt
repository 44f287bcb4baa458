-- ===== src/Manager/Sessions.antt =====
-- The session registry of manager/src/main.rs: `pick_least_loaded_port`, `cmd_open`, `cmd_close`,
-- `lookup_port`, `caller_may_bridge`, `scope_sessions_to_caller`, and the live clients.
pub mod Balance
pub mod Ownership
use llm_chat.Prelude.{
  ℕ, ◌+◌, ◌≡◌, Text, Bool, true, false, Option, none, some, List, [], ◌∷◌, ◌++◌, lit, map, keep,
  length, ◌==◌, ltb, text_eq, find, insert, remove, unwrap_or, Result, ok, err, if◌then◌else◌,
  and_then,
}
use llm_chat.Json.{Json, obj, Fields, end, field, str, get_str}

-- `ClientInfo`
pub record ClientInfo : Type 0 where
  pub connection_id : Text
  pub sid : Text
  pub user_id : Text
  pub backend_port : ℕ
  pub connected_at : Text
  pub last_q_at : Option Text
  pub questions_sent : ℕ

-- The part of `ManagerState` that the commands change, and the ports that they read.
pub record Registry : Type 0 where
  pub instance_ports : List ℕ
  pub session_to_port : List (Text × ℕ)
  pub session_to_owner : List (Text × Text)
  pub clients : List (Text × ClientInfo)

abbrev pub lookup_port : Registry → Text → Option ℕ
lookup_port st sid = find sid st.session_to_port

-- `counts`: a HashMap from ports to loads, with each port once.
unfoldable pub start_count : ℕ → List (ℕ × ℕ) → List (ℕ × ℕ)
start_count p [] = (p, 0) ∷ []
start_count p ((q, n) ∷ m) = if q == p then (q, 0) ∷ m else (q, n) ∷ start_count p m

-- `*counts.entry(p).or_insert(0) += 1`
unfoldable pub bump : ℕ → List (ℕ × ℕ) → List (ℕ × ℕ)
bump p [] = (p, 1) ∷ []
bump p ((q, n) ∷ m) = if q == p then (q, n + 1) ∷ m else (q, n) ∷ bump p m

unfoldable pub start_counts : List ℕ → List (ℕ × ℕ) → List (ℕ × ℕ)
unfolding start_count
start_counts [] m = m
start_counts (p ∷ ps) m = start_counts ps (start_count p m)

unfoldable pub count_sessions : List (Text × ℕ) → List (ℕ × ℕ) → List (ℕ × ℕ)
unfolding bump
count_sessions [] m = m
count_sessions ((sid, p) ∷ ss) m = count_sessions ss (bump p m)

unfoldable pub counts : Registry → List (ℕ × ℕ)
unfolding start_counts count_sessions
counts st = count_sessions st.session_to_port (start_counts st.instance_ports [])

-- `min_by_key`: the first entry of the least load, in the map's iteration order.
unfoldable pub min_from : ℕ × ℕ → List (ℕ × ℕ) → ℕ × ℕ
min_from best [] = best
min_from best (e ∷ es) = min_from (if ltb e.1 best.1 then e else best) es

abbrev pub min_entry : List (ℕ × ℕ) → Option ℕ
min_entry [] = none
min_entry (e ∷ es) = some (min_from e es).0

-- `iterate` is the order in which the HashMap yields its entries.
unfoldable pub pick_least_loaded_port : (List (ℕ × ℕ) → List (ℕ × ℕ)) → Registry → Option ℕ
unfolding counts min_from
pick_least_loaded_port iterate st = min_entry (iterate (counts st))

abbrev with_text : Text → Option Text → Fields → Fields
with_text k none fs = fs
with_text k (some s) fs = field k (str s) fs

-- `open_request_body`
unfoldable pub open_request_body : Text → Option Text → Option Text → Json
open_request_body user_id subpath rich = obj (
    field (lit "cmd") (str (lit "open")) (
      field (lit "userId") (str user_id)
        (with_text (lit "cwd") subpath (with_text (lit "rich") rich end))))

-- `close` of the worker, as `cmd_close` asks for it.
unfoldable pub close_request_body : Text → Json
close_request_body sid =
    obj (field (lit "cmd") (str (lit "close")) (field (lit "sessionId") (str sid) end))

unfoldable pub register : Text → ℕ → Text → Registry → Registry
unfolding insert
register sid port user_id st = record st {
  session_to_port = insert sid port st.session_to_port;
  session_to_owner = insert sid user_id st.session_to_owner;
}

unfoldable pub unregister : Text → Registry → Registry
unfolding remove
unregister sid st = record st {
  session_to_port = remove sid st.session_to_port;
  session_to_owner = remove sid st.session_to_owner;
}

-- The result of a command, and the registry after it.
abbrev pub Outcome : Type 0 → Type 0
Outcome A = Result A Text × Registry

-- `cmd_open` from the worker's reply. `st` is the registry when the lock is taken again.
abbrev pub opened : ℕ → Text → Result Json Text → Registry → Outcome (Text × ℕ × Text)
opened port user_id (err e) st = (err e, st)
opened port user_id (ok resp) st = elim (get_str resp (lit "sessionId")) [
  | none ↦ (err (lit "backend did not return sessionId"), st)
  | some sid ↦ (
    ok (sid, port, unwrap_or (get_str resp (lit "transport")) (lit "stream-json")),
    register sid port user_id st,
  )
]

-- `call_backend` answers for the worker on a port; `meanwhile` is what other tasks do to the
-- registry while the command waits for it.
module _ (iterate : List (ℕ × ℕ) → List (ℕ × ℕ)) (call_backend : ℕ → Json → Result Json Text)
    (meanwhile : Registry → Registry) where
  abbrev pub open_on :
      Option ℕ → Text → Option Text → Option Text → Registry → Outcome (Text × ℕ × Text)
  open_on none user_id subpath rich st = (err (lit "no backends configured"), st)
  open_on (some port) user_id subpath rich st =
      opened port user_id (call_backend port (open_request_body user_id subpath rich))
        (meanwhile st)

  unfoldable pub cmd_open : Text → Option Text → Option Text → Registry → Outcome (Text × ℕ × Text)
  cmd_open user_id subpath rich st =
      open_on (pick_least_loaded_port iterate st) user_id subpath rich st

  abbrev pub closed : Text → Result Json Text → Registry → Outcome (Unit {0})
  closed sid (err e) st = (err e, st)
  closed sid (ok _) st = (ok tt, unregister sid st)

  abbrev pub close_on : Text → Option ℕ → Registry → Outcome (Unit {0})
  close_on sid none st = (err (lit "unknown sessionId"), st)
  close_on sid (some port) st =
      closed sid (call_backend port (close_request_body sid)) (meanwhile st)

  unfoldable pub cmd_close : Text → Registry → Outcome (Unit {0})
  cmd_close sid st = close_on sid (lookup_port st sid) st

abbrev pub owned_by : Option Text → Text → Bool
owned_by none uid = false
owned_by (some owner) uid = text_eq owner uid

unfoldable pub caller_may_bridge : Registry → Text → Text → Bool → Bool
caller_may_bridge st sid uid true = true
caller_may_bridge st sid uid false = owned_by (find sid st.session_to_owner) uid

unfoldable pub scope_sessions_to_caller :
    List Text → Option Text → Bool → List (Text × Text) → List Text
scope_sessions_to_caller sessions caller_uid true owners = sessions
scope_sessions_to_caller sessions none false owners = sessions
scope_sessions_to_caller sessions (some uid) false owners =
    keep (λ sid. owned_by (find sid owners) uid) sessions
