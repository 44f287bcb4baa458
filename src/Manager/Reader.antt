-- ===== src/Manager/Reader.antt =====
-- The reader task of `handle_chat` (manager/src/main.rs): one message of a /chat client. The texts
-- of serde_json, the clock, the worker's replies and the failures of the database and of the
-- worker's socket are parameters.
pub mod Turns
use llm_chat.Prelude.{
  ℕ, ◌+◌, ◌%◌, ◌^◌, Text, Bool, true, false, ◌||◌, Option, none, some, List, [], ◌∷◌, ◌++◌, lit, ℤ,
  pos, negsuc, ◌+ℤ◌, map, join, length, text_eq, is_empty, unwrap_or, find, insert, Result, ok, err,
  ◌>>=◌, if◌then◌else◌,
}
use llm_chat.Json.{
  Json, str, arr, obj, nil, Fields, end, field, get, get_str, get_bool, get_i64, get_array,
}
use llm_chat.Manager.Db.{
  ChatDb, Question, Status, sent, error, insert_pending, update_status, mark_confirmed,
}
use llm_chat.Manager.Frames as Frames
use llm_chat.Manager.Frames.{Frame, ack, usage, dir, OwnUsage, OwnDaily}
use llm_chat.Manager.Sessions.{Registry, ClientInfo, lookup_port}
use llm_chat.Manager.Attachments.{Save, is_true, save_all, file_bytes}
use llm_chat.Manager.Usage.{usage_for, usage_daily_for, b64_decoded_len}

-- What the task captured when it started.
pub record Connection : Type 0 where
  pub connection_id : Text
  pub sid : Text
  pub user_id : Text
  pub user_name : Text
  pub port : ℕ

-- The world of one message: the times that are read, and what fails. A failure carries its text.
pub record Moment : Type 0 where
  pub time_in : Text
  pub time_out : Text
  pub cutoff : Text
  pub insert_fails : Option Text
  pub confirm_fails : Bool
  pub usage_fails : Option Text
  pub daily_fails : Option Text
  pub status_fails : Bool
  pub body_sent : Bool
  pub enter_sent : Bool

-- The state after a message, the frames to the client, the frames on the worker's socket, and
-- whether the loop goes on.
pub record Turn : Type 0 where
  pub clients : List (Text × ClientInfo)
  pub db : ChatDb
  pub frames : List Frame
  pub typed : List Text
  pub continues : Bool

abbrev pub final_text : List Text → Text → Text
final_text [] q_text = q_text
final_text (p ∷ ps) q_text =
    join (b' ' ∷ []) (map (λ q. lit "Read the file at " ++ (q ++ b'.' ∷ [])) (p ∷ ps))
    ++ b' ' ∷ q_text

-- The client's live counter, a `u32`: it wraps around in a release build.
abbrev counted : Text → ClientInfo → ClientInfo
counted time_in info = record info {
  last_q_at = some time_in;
  questions_sent = (info.questions_sent + 1) % 2 ^ 32;
}

unfoldable pub bump_client : Text → Text → List (Text × ClientInfo) → List (Text × ClientInfo)
unfolding find insert
bump_client connection_id time_in clients = elim (find connection_id clients) [
  | none ↦ clients
  | some info ↦ insert connection_id (counted time_in info) clients
]

-- `to_string` prints a list of paths as JSON.
module _ (to_string : List Text → Text) (call_backend : ℕ → Json → Result Json Text)
    (c : Connection) (m : Moment) where
  abbrev paths_json : List Text → Option Text
  paths_json [] = none
  paths_json (p ∷ ps) = some (to_string (p ∷ ps))

  unfoldable pub question_of : Json → Text → Text → List Text → Question
  unfolding file_bytes
  question_of v id q_text paths = record {
    connection_id = c.connection_id;
    sid = c.sid;
    q_id = id;
    text = final_text paths q_text;
    time_in = m.time_in;
    attachment_paths_json = paths_json paths;
    user_id = some c.user_id;
    chars_in = length q_text;
    files = length paths;
    file_bytes = file_bytes v;
  }

  -- An error frame with both times.
  abbrev pub failure : Option Text → Option ℕ → Text → Frame
  failure id seq text = Frames.err id seq text (some m.time_in) (some m.time_out)

  abbrev status_set : ℕ → Status → ChatDb → ChatDb
  status_set seq status db = if m.status_fails then db else update_status seq status db

  module _ (clients : List (Text × ClientInfo)) (db : ChatDb) where
    -- One frame goes to the client, and nothing else happens.
    abbrev pub reply : Frame → Turn
    reply f = record { clients = clients; db = db; frames = f ∷ []; typed = []; continues = true }

    -- The question's row is in `db'`; the text and the Enter key go to the worker.
    unfoldable pub submit : Text → Text → ChatDb → ℕ → Turn
    unfolding bump_client
    submit id text db' seq =
        let receipt = ack id seq m.time_in in
        if m.body_sent
        then if m.enter_sent
          then record {
            clients = bump_client c.connection_id m.time_in clients;
            db = status_set seq sent db';
            frames = receipt ∷ [];
            typed = text ∷ (b'\r' ∷ []) ∷ [];
            continues = true;
          }
          else record {
            clients = clients;
            db = status_set seq error db';
            frames = receipt ∷ failure (some id) (some seq) (lit "backend PTY closed (enter)") ∷ [];
            typed = text ∷ [];
            continues = false;
          }
        else record {
          clients = clients;
          db = status_set seq error db';
          frames = receipt ∷ failure (some id) (some seq) (lit "backend PTY closed") ∷ [];
          typed = [];
          continues = false;
        }

    abbrev inserted : Question → Option Text → Turn
    inserted q (some e) = reply (failure (some q.q_id) none (lit "db insert: " ++ e))
    inserted q none = let (db', seq) = insert_pending q db in submit q.q_id q.text db' seq

    abbrev asked : Json → Text → Text → Save → Turn
    asked v id q_text (err e) = reply (failure (some id) none e)
    asked v id q_text (ok paths) = inserted (question_of v id q_text paths) m.insert_fails

    unfoldable pub read_question : Json → Turn
    unfolding submit save_all question_of
    read_question v =
        let id = unwrap_or (get_str v (lit "id")) [] in
        let q_text = unwrap_or (get_str v (lit "text")) [] in
        if is_empty q_text
        then reply (failure (some id) none (lit "empty question"))
        else asked v id q_text
            (save_all call_backend c.port c.sid (unwrap_or (get_array v (lit "attachments")) []))

    -- `seq` is -1 where the message has none.
    abbrev confirmed_at : ℤ → Turn
    confirmed_at (negsuc n) = reply (failure none none (lit "confirm without seq"))
    confirmed_at (pos seq) = record {
      clients = clients;
      db = if m.confirm_fails then db else (mark_confirmed seq m.time_in db).0;
      frames = [];
      typed = [];
      continues = true;
    }

    unfoldable pub read_confirm : Json → Turn
    read_confirm v = confirmed_at (unwrap_or (get_i64 v (lit "seq")) (negsuc 0))

    -- The user is the connection's, never the message's.
    abbrev usage_reply : Option Text → Option Text → Frame
    usage_reply (some e) daily_fails = failure none none (lit "usage query failed: " ++ e)
    usage_reply none (some e) = failure none none (lit "usage daily query failed: " ++ e)
    usage_reply none none =
        usage c.user_id c.user_name (usage_for c.user_id db) (usage_daily_for c.user_id m.cutoff db)

    unfoldable pub read_usage : Turn
    read_usage = reply (usage_reply m.usage_fails m.daily_fails)

    abbrev dir_listing : Json → Frame
    dir_listing r =
        if is_true (get_bool r (lit "ok"))
        then dir (unwrap_or (get r (lit "entries")) (arr nil))
            (unwrap_or (get_bool r (lit "truncated")) false)
        else failure none none (lit "dir: " ++ unwrap_or (get_str r (lit "error")) (lit "rejected"))

    abbrev dir_result : Result Json Text → Frame
    dir_result (ok r) = dir_listing r
    dir_result (err e) = failure none none (lit "dir backend error: " ++ e)

    unfoldable pub dir_request : Json
    dir_request =
        obj (field (lit "cmd") (str (lit "dir")) (field (lit "userId") (str c.user_id) end))

    abbrev dir_reply : Option ℕ → Frame
    dir_reply none = failure none none (lit "no backend for this session")
    dir_reply (some p) = dir_result (call_backend p dir_request)

    unfoldable pub read_dir : Registry → Turn
    unfolding dir_request
    read_dir st = reply (dir_reply (lookup_port st c.sid))

    abbrev unknown_type : Text → Text
    unknown_type t =
        lit "unknown type \"" ++ (t ++ lit "\"; expected \"q\", \"confirm\", \"usage\", or \"dir\"")

    abbrev read_value : Registry → Json → Turn
    read_value st v =
        let msg_type = unwrap_or (get_str v (lit "type")) [] in
        if text_eq msg_type (lit "confirm")
        then read_confirm v
        else if text_eq msg_type (lit "usage")
        then read_usage
        else if text_eq msg_type (lit "dir")
        then read_dir st
        else if text_eq msg_type (b'q' ∷ [])
        then read_question v
        else reply (failure none none (unknown_type msg_type))

    abbrev read_parsed : Registry → Result Json Text → Turn
    read_parsed st (err e) = reply (failure none none (lit "bad JSON: " ++ e))
    read_parsed st (ok v) = read_value st v

  -- One text message, as serde_json parses it. `st` is the registry whose clients it may change.
  unfoldable pub read_message : Registry → ChatDb → Result Json Text → Turn
  unfolding read_confirm read_usage read_dir read_question
  read_message st db parsed = read_parsed st.clients db st parsed
