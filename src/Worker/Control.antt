-- ===== src/Worker/Control.antt =====
-- The /control socket of the worker (`run_ws_server` of worker/src/lib.rs): its commands over all of
-- the worker's state, and the other events that change the state, a frame of a /s socket and the end
-- of a migration. A command is one step, except that `open` tests a number of sessions that others
-- may have outdated by the time it adds its own. The boxes and the directory of the attachments are
-- two worlds: neither holds a path of the other.
pub mod Reached
use llm_chat.Prelude.{
  ℕ, Text, Bool, true, false, not, ◌&&◌, ◌||◌, Option, none, some, List, [], ◌∷◌, ◌++◌, lit, ℤ, pos,
  negsuc, length, ltb, text_eq, is_empty, unwrap_or, Result, ok, err, if◌then◌else◌,
}
use llm_chat.Json.{
  Json, bool, int, str, arr, obj, Items, nil, cons, end, field, get_str, get_bool, get_i64,
}
use llm_chat.Worker.UserEnv.{ResolveError, FilePath, Fs}
use llm_chat.Worker.Box.{View, DirEntry, list_box_tree, list_box_readonly}
use llm_chat.Worker.Attachments.{Disk, save_attachment, cleanup_attachments}
use llm_chat.Worker.Migrate.{Started}
use llm_chat.Worker.AppState.{
  AppState, new_app_state, ok_with, failed, list, info, current, clear, history, close, switch,
}
use llm_chat.Worker.Opening.{Attempt, open_session, error_text}
use llm_chat.Worker.Provisioning.{Boxes, at_start, provision_app_box, finish_migration}
use llm_chat.Worker.PtyInput.{PtyDb, FrameMoment, query_pty_input, session_frame}

pub data Command : Type 0 where
  screenshot_cmd list_cmd info_cmd current_cmd clear_cmd history_cmd open_cmd : Command
  dir_cmd provision_cmd close_cmd switch_cmd log_cmd save_attachment_cmd fifo_cmd : Command
  unknown : Text → Command

unfoldable pub command_of : Text → Command
command_of cmd =
    if text_eq cmd (lit "screenshot")
    then screenshot_cmd
    else if text_eq cmd (lit "list")
    then list_cmd
    else if text_eq cmd (lit "info")
    then info_cmd
    else if text_eq cmd (lit "current")
    then current_cmd
    else if text_eq cmd (lit "clear")
    then clear_cmd
    else if text_eq cmd (lit "history")
    then history_cmd
    else if text_eq cmd (lit "open")
    then open_cmd
    else if text_eq cmd (lit "dir")
    then dir_cmd
    else if text_eq cmd (lit "provision-app-box")
    then provision_cmd
    else if text_eq cmd (lit "close")
    then close_cmd
    else if text_eq cmd (lit "switch")
    then switch_cmd
    else if text_eq cmd (lit "log")
    then log_cmd
    else if text_eq cmd (lit "save_attachment")
    then save_attachment_cmd
    else if text_eq cmd (lit "fifo")
    then fifo_cmd
    else unknown cmd

-- All of the worker's state.
pub record Worker (World Data : Type 0) : Type 0 where
  pub app : AppState
  pub boxes : Boxes World
  pub data_dir : Data
  pub pty_input : Option PtyDb

-- What one command meets: the opening, the new UUID, and a failure of the query.
pub record CommandMoment (World : Type 0) : Type 0 where
  pub attempt : Attempt World
  pub uuid : Text
  pub fifo_fails : Option Text

abbrev entries_json : List DirEntry → Items
entries_json [] = nil
entries_json (e ∷ es) =
    cons
      (obj (
        field (lit "path") (str e.path)
          (field (lit "dir") (bool e.dir) (field (lit "size") (int (pos e.size)) end))))
      (entries_json es)

abbrev dir_reply : Result (List DirEntry × Bool) ResolveError → Json
dir_reply (err e) = failed (lit "env: " ++ error_text e)
dir_reply (ok (entries, truncated)) = ok_with (
    field (lit "entries") (arr (entries_json entries))
      (field (lit "truncated") (bool truncated) end))

-- `.clamp(1, 1000)`
abbrev fifo_limit : ℤ → ℕ
fifo_limit (negsuc n) = 1
fifo_limit (pos n) = if ltb n 1 then 1 else if ltb 1000 n then 1000 else n

abbrev rows_json : List Json → Items
rows_json [] = nil
rows_json (r ∷ rs) = cons r (rows_json rs)

abbrev option_ℤ : Option ℤ → ℤ
option_ℤ none = pos 100
option_ℤ (some n) = n

-- The libraries and the machine of the worker.
pub record Host : Type 1 where
  pub fs : Fs
  pub look : fs.World → View
  pub is_dir : fs.World → FilePath → Bool
  pub disk : Disk
  pub attachments : FilePath
  pub base : FilePath
  pub control_log_path : Text
  pub debug : Text → Text
  pub debug_path : FilePath → Text
  pub show_ℤ : ℤ → Text
  pub show_ℕ : ℕ → Text
  pub decode : Text → Result (List ℕ) Text
  pub from_str : Text → Option Json
  pub to_string : Json → Text
  pub from_utf8_lossy : List ℕ → Text

module _ (host : Host) where
  open host use {
    fs, look, is_dir, disk, attachments, base, control_log_path, debug, debug_path, show_ℤ, show_ℕ,
    decode, from_str, to_string, from_utf8_lossy,
  }

  abbrev pub State : Type 0
  State = Worker fs.World disk.World

  -- Nothing but the reply.
  abbrev answer : Json → State → Json × State
  answer reply st = (reply, st)

  abbrev pub created_listing :
      Result (List DirEntry × Bool) ResolveError × fs.World → State → Json × State
  created_listing (r, w) st = (dir_reply r, record st { boxes = record st.boxes { disk = w } })

  unfoldable pub run_dir : Json → State → Json × State
  unfolding list_box_tree list_box_readonly
  run_dir req st =
      let user_id = get_str req (lit "userId") in
      if unwrap_or (get_bool req (lit "create")) true
      then created_listing (list_box_tree fs look debug show_ℤ base user_id 8 2000 st.boxes.disk) st
      else answer
          (dir_reply (list_box_readonly fs look debug show_ℤ base user_id 8 2000 st.boxes.disk)) st

  abbrev saved_reply : Result FilePath Text → Json
  saved_reply (err e) = failed e
  saved_reply (ok path) = ok_with (field (lit "path") (str (disk.display path)) end)

  abbrev pub saved : Result FilePath Text × disk.World → State → Json × State
  saved (r, w) st = (saved_reply r, record st { data_dir = w })

  unfoldable pub run_save_attachment : CommandMoment fs.World → Json → State → Json × State
  unfolding save_attachment
  run_save_attachment m req st =
      let sid = unwrap_or (get_str req (lit "sid")) [] in
      let name = unwrap_or (get_str req (lit "name")) (lit "attachment") in
      let mime = unwrap_or (get_str req (lit "mime")) [] in
      let payload = unwrap_or (get_str req (lit "data")) [] in
      if is_empty sid || is_empty mime || is_empty payload
      then answer (failed (lit "sid+mime+data required")) st
      else saved
          (save_attachment disk attachments show_ℕ decode m.uuid sid name mime payload st.data_dir)
          st

  unfoldable pub run_open : CommandMoment fs.World → Json → State → Json × State
  unfolding open_session
  run_open m req st =
      let (o, w) =
        open_session fs is_dir debug_path debug show_ℤ m.attempt base req st.app st.boxes.disk in
      (o.reply, record st { app = o.app; boxes = record st.boxes { disk = w } })

  unfoldable pub run_close : Json → State → Json × State
  unfolding close cleanup_attachments
  run_close req st =
      let sid = unwrap_or (get_str req (lit "sessionId")) [] in
      (
        ok_with (field (lit "sessionId") (str sid) end),
        record st {
          app = close sid st.app;
          data_dir = cleanup_attachments disk attachments show_ℕ decode sid st.data_dir;
        },
      )

  abbrev fifo_rows : Option Text → List Json → Json
  fifo_rows (some e) rows = failed (lit "fifo query: " ++ e)
  fifo_rows none rows = ok_with (
      field (lit "rows") (arr (rows_json rows)) (field (lit "count") (int (pos (length rows))) end))

  unfoldable pub run_fifo : CommandMoment fs.World → Json → State → Json
  unfolding query_pty_input
  run_fifo m req st = fifo_rows m.fifo_fails (
      query_pty_input from_utf8_lossy (get_str req (lit "sid")) (get_str req (lit "status"))
        (fifo_limit (option_ℤ (get_i64 req (lit "limit")))) st.pty_input)

  unfoldable pub run_provision : CommandMoment fs.World → Json → State → Json × State
  unfolding provision_app_box
  run_provision m req st =
      let (reply, boxes) =
        provision_app_box fs debug show_ℤ base from_str req m.attempt.claude_path st.boxes in
      (reply, record st { boxes = boxes })

  unfoldable pub run_clear : Json → State → Json × State
  unfolding clear
  run_clear req st = let (reply, app) = clear req st.app in (reply, record st { app = app })

  abbrev pub run_command : CommandMoment fs.World → Json → Command → State → Json × State
  run_command m req screenshot_cmd st = answer (failed (lit "screenshot is windows-only")) st
  run_command m req list_cmd st = answer (list st.app) st
  run_command m req info_cmd st = answer (info control_log_path st.app) st
  run_command m req current_cmd st = answer (current st.app) st
  run_command m req clear_cmd st = run_clear req st
  run_command m req history_cmd st = answer (history req st.app) st
  run_command m req open_cmd st = run_open m req st
  run_command m req dir_cmd st = run_dir req st
  run_command m req provision_cmd st = run_provision m req st
  run_command m req close_cmd st = run_close req st
  run_command m req switch_cmd st = answer (switch req st.app) st
  run_command m req log_cmd st = answer (ok_with (field (lit "path") (str control_log_path) end)) st
  run_command m req save_attachment_cmd st = run_save_attachment m req st
  run_command m req fifo_cmd st = answer (run_fifo m req st) st
  run_command m req (unknown cmd) st = answer (failed (lit "unknown cmd: " ++ cmd)) st

  -- A text that is no JSON is read as an empty object, and so has no command.
  unfoldable pub control : CommandMoment fs.World → Text → State → Json × State
  unfolding command_of
  control m text st =
      let req = unwrap_or (from_str text) (obj end) in
      run_command m req (command_of (unwrap_or (get_str req (lit "cmd")) [])) st

  pub data WorkerEvent : Type 0 where
    commanded : CommandMoment fs.World → Text → WorkerEvent
    framed : FrameMoment → Text → List ℕ → WorkerEvent
    migrated : Text → Started → (fs.World → fs.World) → WorkerEvent

  unfoldable pub worker_event : WorkerEvent → State → State
  unfolding control session_frame finish_migration
  worker_event (commanded m text) st = (control m text st).1
  worker_event (framed m sid bytes) st =
      let (sessions, db) =
        session_frame to_string from_utf8_lossy m sid bytes (st.app.json_sessions, st.pty_input) in
      record st { app = record st.app { json_sessions = sessions }; pty_input = db }
  worker_event (migrated key run edits) st = record st {
    boxes = finish_migration fs debug show_ℤ base from_str key run edits st.boxes;
  }

  unfoldable pub worker_events : List WorkerEvent → State → State
  unfolding worker_event
  worker_events [] st = st
  worker_events (e ∷ es) st = worker_events es (worker_event e st)

  -- A worker that has just started.
  abbrev pub started : fs.World → disk.World → Option PtyDb → State
  started boxes data_dir pty_input = record {
    app = new_app_state;
    boxes = at_start boxes;
    data_dir = data_dir;
    pty_input = pty_input;
  }
