-- ===== src/Manager/Control/Backends.antt =====
-- The commands of the manager's /control that ask the workers (manager/src/main.rs): `list`,
-- `history`, `fifo`, `screenshot`, `user-box` and those that are passed on. None changes a state of
-- the manager.
use llm_chat.Prelude.{
  ℕ, ◌%◌, ◌^◌, Text, false, Option, none, some, List, [], ◌∷◌, ◌++◌, lit, length, find, head?,
  and_then, Result, ok, err,
}
use llm_chat.Json.{
  Json, bool, str, arr, obj, Fields, end, field, get, get_str, get_u64, get_array, as_str,
}
use llm_chat.Manager.Sessions.{Registry, lookup_port}
use llm_chat.Manager.Templates.{filled}
use llm_chat.Manager.Replies.{put_field, text_items, nat, ok_with, failed}

abbrev command_body : Text → Json
command_body cmd = obj (field (lit "cmd") (str cmd) end)

-- The strings among the values.
unfoldable pub strings : List Json → List Text
strings [] = []
strings (v ∷ vs) = elim (as_str v) [ none ↦ strings vs | some s ↦ s ∷ strings vs ]

-- `for (k, val) in map { all.insert(k, val) }`
unfoldable pub put_fields : Fields → Fields → Fields
unfolding put_field
put_fields end all = all
put_fields (field k v fs) all = put_fields fs (put_field k v all)

abbrev as_object : Json → Option Fields
as_object (obj fs) = some fs
as_object _ = none

abbrev reply_or_error : Result Json Text → Json
reply_or_error (ok v) = v
reply_or_error (err e) = failed e

-- `call_backend` answers for the worker on a port, `show` prints a port.
module _ (show : ℕ → Text) (call_backend : ℕ → Json → Result Json Text) where
  -- The reply of one worker to `list` joins the sessions and the map by ports.
  abbrev listed : ℕ → Result Json Text → List Text × Fields → List Text × Fields
  listed p (err e) (all, per_backend) =
      (all, put_field (show p) (obj (field (lit "error") (str e) end)) per_backend)
  listed p (ok v) (all, per_backend) = elim (get_array v (lit "sessions")) [
    | none ↦ (all, per_backend)
    | some sessions ↦ (all ++ strings sessions, put_field (show p) v per_backend)
  ]

  unfoldable pub list_from : List ℕ → List Text × Fields → List Text × Fields
  unfolding strings put_field
  list_from [] acc = acc
  list_from (p ∷ ps) acc = list_from ps (listed p (call_backend p (command_body (lit "list"))) acc)

  unfoldable pub list_sessions : Registry → Json
  unfolding list_from
  list_sessions st =
      let (all, per_backend) = list_from st.instance_ports ([], end) in
      ok_with (
        field (lit "count") (nat (length all)) (
          field (lit "sessions") (arr (text_items all))
            (field (lit "byBackend") (obj per_backend) end)))

  abbrev histories_of : Result Json Text → Option Fields
  histories_of (err e) = none
  histories_of (ok v) = and_then (get v (lit "histories")) as_object

  unfoldable pub histories_from : List ℕ → Fields → Fields
  unfolding put_fields
  histories_from [] all = all
  histories_from (p ∷ ps) all =
      elim (histories_of (call_backend p (command_body (lit "history")))) [
        | none ↦ histories_from ps all
        | some fs ↦ histories_from ps (put_fields fs all)
      ]

  abbrev history_on : Text → Option ℕ → Json
  history_on sid none = failed (lit "unknown sessionId")
  history_on sid (some p) = reply_or_error (
      call_backend p
        (obj (field (lit "cmd") (str (lit "history")) (field (lit "sessionId") (str sid) end))))

  abbrev history_of : Option Text → Registry → Json
  history_of none st =
      ok_with (field (lit "histories") (obj (histories_from st.instance_ports end)) end)
  history_of (some sid) st = history_on sid (lookup_port st sid)

  unfoldable pub history : Json → Registry → Json
  unfolding histories_from find
  history req st = history_of (get_str req (lit "sessionId")) st

  -- `p as u16` of a port, or the port of a session.
  abbrev pub target_port : Json → Registry → Option ℕ
  target_port req st = elim (get_u64 req (lit "port")) [
    | some p ↦ some (p % 2 ^ 16)
    | none ↦ and_then (get_str req (lit "sessionId")) (lookup_port st)
  ]

  unfoldable pub ask_each : Json → List ℕ → Fields → Fields
  unfolding put_field
  ask_each body [] replies = replies
  ask_each body (p ∷ ps) replies =
      ask_each body ps (put_field (show p) (reply_or_error (call_backend p body)) replies)

  abbrev forwarded : Text → Json → Fields → Fields
  forwarded k req fs = elim (get req k) [ none ↦ fs | some v ↦ put_field k v fs ]

  unfoldable pub fifo_body : Json → Json
  unfolding put_field
  fifo_body req = obj (
      forwarded (lit "limit") req (
        forwarded (lit "status") req
          (forwarded (lit "sid") req (field (lit "cmd") (str (lit "fifo")) end))))

  abbrev fifo_on : Json → Option ℕ → Registry → Json
  fifo_on body (some p) st = reply_or_error (call_backend p body)
  fifo_on body none st =
      ok_with (field (lit "byBackend") (obj (ask_each body st.instance_ports end)) end)

  unfoldable pub fifo : Json → Registry → Json
  unfolding ask_each fifo_body find
  fifo req st = fifo_on (fifo_body req) (target_port req st) st

  abbrev ports_of : Option ℕ → Registry → List ℕ
  ports_of none st = st.instance_ports
  ports_of (some p) st = p ∷ []

  unfoldable pub screenshot : Json → Registry → Json
  unfolding ask_each find
  screenshot req st = ok_with (
      field (lit "byPort")
        (obj (ask_each (command_body (lit "screenshot")) (ports_of (target_port req st) st) end))
        end)

  abbrev box_on : Text → Option ℕ → Json
  box_on uid none = failed (lit "no worker available")
  box_on uid (some p) = reply_or_error (
      call_backend p (
        obj (
          field (lit "cmd") (str (lit "dir"))
            (field (lit "userId") (str uid) (field (lit "create") (bool false) end)))))

  abbrev box_of : Option Text → Registry → Json
  box_of none st = failed (lit "userId required")
  box_of (some uid) st = box_on uid (head? st.instance_ports)

  unfoldable pub user_box : Json → Registry → Json
  user_box req st = box_of (filled (get_str req (lit "userId"))) st

  abbrev passed_to : Json → Option ℕ → Json
  passed_to req none = failed (lit "no backend available")
  passed_to req (some p) = reply_or_error (call_backend p req)

  abbrev port_for : Option Text → Registry → Option ℕ
  port_for none st = head? st.instance_ports
  port_for (some sid) st = lookup_port st sid

  -- `switch`, `clear`, `current` and `log`
  unfoldable pub pass_on : Json → Registry → Json
  unfolding find
  pass_on req st = passed_to req (port_for (get_str req (lit "sessionId")) st)
