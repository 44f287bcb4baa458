-- ===== src/Tests/Boxes.antt =====
-- The worker's disk: an attachment, a box with one file, and a worker that opens a session in it.
use llm_chat.Prelude.{
  ℕ, ◌≡◌, ◌↔◌, refl, Text, Bool, true, false, Option, none, some, List, [], ◌∷◌, ◌++◌, lit, trim,
  unwrap_or, split, all_chars, byte_len, ok, if◌then◌else◌, Result,
}
use llm_chat.Json.{Json, str, obj, field, end}
use llm_chat.Worker.Io.{pure, raise, lift, looking, map_err, ◌>>=◌}
use llm_chat.Worker.UserEnv.{
  FilePath, valid_user_id, push_components, confine_path, under_root, resolve_user_cwd,
}
use llm_chat.Worker.Attachments.{
  Disk, safe_char, sanitize_path_component, attachment_dir, attachment_path, checked_bytes,
  make_dir, write_file, store, save_attachment,
}
use llm_chat.Worker.Attachments.Sanitized.{IsSafe, sanitize_path_component_fix}
use llm_chat.Worker.Attachments.Stored.{IsStored, save_attachment-IsStored}
use llm_chat.Worker.Box.{View, list_at, list_box_tree}
use llm_chat.Worker.Box.Listing.{IsUserBox, list_box_tree-IsUserBox}
use llm_chat.Worker.Opening.{Attempt, open_session}
use llm_chat.Worker.Opening.Placed.{Outcome, IsPlaced, open_session-Outcome}
use llm_chat.Worker.AppState.{new_app_state}
use llm_chat.Worker.Control.{Host, WorkerEvent, CommandMoment, commanded}
use llm_chat.Tests.Env.{files, shown, number, base, ann, app_file, disk, path_eq}
use llm_chat.Tests.Session.{printed_json, same_bytes}

sanitize_path_component_fix_example : (sanitize_path_component ann ≡ ann) ↔ IsSafe ann
sanitize_path_component_fix_example = sanitize_path_component_fix ann

-- The paths that were written.
abbrev store_room : Disk
store_room = record {
  World = List FilePath;
  exists = λ w p. false;
  create_dir_all = λ d w. (ok tt, w);
  write = λ p bytes w. (ok tt, p ∷ w);
  remove_dir_all = λ p w. [];
  display = λ p. [];
}

abbrev show_size : ℕ → Text
show_size n = []

abbrev decoded : Text → Result (List ℕ) Text
decoded t = ok t

abbrev uuid : Text
uuid = lit "0123456789"

plain_uuid : all_chars safe_char uuid ≡ true
unfolding lit
plain_uuid = refl

abbrev saved_path : FilePath
saved_path = lit "attachments" ∷ lit "s1" ∷ lit "01234567-a.png" ∷ []

saved :
    save_attachment store_room
      (lit "attachments" ∷ [])
      show_size
      decoded
      uuid
      (lit "s1")
      (lit "a.png")
      (lit "image/png")
      (lit "AAAA")
      []
    ≡ (ok saved_path, saved_path ∷ [])
unfolding save_attachment store checked_bytes make_dir write_file attachment_path attachment_dir
    sanitize_path_component lit pure lift map_err ◌>>=◌ byte_len
saved = refl

save_attachment-IsStored_example :
    IsStored store_room
      (lit "attachments" ∷ [])
      show_size
      decoded
      uuid
      (lit "s1")
      (lit "a.png")
      (lit "image/png")
      (lit "AAAA")
      (saved_path ∷ [])
      saved_path
save_attachment-IsStored_example =
    save_attachment-IsStored store_room (lit "attachments" ∷ []) show_size decoded uuid (lit "s1")
      (lit "a.png") (lit "image/png") (lit "AAAA") [] (saved_path ∷ []) saved_path plain_uuid saved

-- One file in ann's box.
abbrev seen : View
seen = record {
  read_dir = λ p. if path_eq p (base ++ ann ∷ []) then some (lit "notes" ∷ []) else none;
  symlink_metadata = λ p. some (record { is_dir = false; is_symlink = false; len = 4 });
}

abbrev ann_box : FilePath
ann_box = base ++ ann ∷ []

abbrev no_path : FilePath → Text
no_path p = []

listed :
    list_box_tree files (λ w. seen) shown number base (some ann) 8 2000 disk
    ≡ (ok (list_at seen ann_box 8 2000), disk)
unfolding list_box_tree resolve_user_cwd under_root confine_path push_components valid_user_id lit
    trim split lift looking map_err pure raise ◌>>=◌
listed = refl

list_box_tree-IsUserBox_example :
    IsUserBox files
      (λ w. seen)
      shown
      number
      base
      (trim (unwrap_or (some ann) []))
      disk
      2000
      (list_at seen ann_box 8 2000)
list_box_tree-IsUserBox_example =
    list_box_tree-IsUserBox files (λ w. seen) shown number base (some ann) 8 2000 disk disk
      (list_at seen ann_box 8 2000) listed

abbrev attempt : Attempt (FilePath → Option Text)
attempt = record {
  id = lit "s1";
  counted = 0;
  claude_path = some (lit "claude");
  spawn_fails = none;
  llm_chat_rich = none;
  meantime = λ w. w;
}

abbrev every_dir : (FilePath → Option Text) → FilePath → Bool
every_dir w p = true

abbrev open_request : Json
open_request = obj (field (lit "cmd") (str (lit "open")) (field (lit "userId") (str ann) end))

open_session-Outcome_example :
    Outcome files every_dir no_path shown number attempt base new_app_state
      (IsPlaced files every_dir no_path shown number attempt base open_request new_app_state disk)
      (open_session files every_dir no_path shown number attempt base open_request new_app_state
        disk).0
open_session-Outcome_example =
    open_session-Outcome files every_dir no_path shown number attempt base open_request
      new_app_state disk

abbrev provision_request : Json
provision_request = obj (field (lit "userId") (str ann) (field (lit "app") (str (lit "app")) end))

abbrev stamp_file : FilePath
stamp_file = app_file ++ lit ".llm-chat" ∷ lit "version" ∷ []

abbrev host : Host
host = record {
  fs = files;
  look = λ w. seen;
  is_dir = every_dir;
  disk = store_room;
  attachments = lit "attachments" ∷ [];
  base = base;
  control_log_path = [];
  debug = shown;
  debug_path = no_path;
  show_ℤ = number;
  show_ℕ = show_size;
  decode = decoded;
  from_str = λ t. some open_request;
  to_string = printed_json;
  from_utf8_lossy = same_bytes;
}

abbrev command_moment : CommandMoment (FilePath → Option Text)
command_moment = record { attempt = attempt; uuid = uuid; fifo_fails = none }

abbrev one_opening : List (WorkerEvent host)
one_opening = commanded command_moment [] ∷ []
