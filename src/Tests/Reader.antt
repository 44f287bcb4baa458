-- ===== src/Tests/Reader.antt =====
-- The tasks of one connection: a question that it asks, and the texts of its answers.
use llm_chat.Prelude.{
  any, some, find, unwrap_or, ◌==◌, if◌then◌else◌, ℕ, ◌≡◌, ◌↔◌, refl, Text, true, false, none, List,
  [], ◌∷◌, lit, keep, Result, ok, err,
}
use llm_chat.Json.{Json, bool, str, obj, field, end}
use llm_chat.Manager.Sessions.{Registry}
use llm_chat.Manager.Pairing.{initial}
use llm_chat.Manager.Usage.{is_counted_since, usage_daily_for, usage_by_user, usage_for, no_usage}
use llm_chat.Manager.Usage.Users.{usage_by_user-eq-usage_for}
use llm_chat.Manager.Usage.Totals.{AddsUp, usage_daily_for-AddsUp}
use llm_chat.Manager.Reader.{Connection, Moment, read_message}
use llm_chat.Manager.Reader.Turns.{IsRun, read_message-IsRun}
use llm_chat.Manager.Qa.{Waiting, repaint, time_up, nonempty_text}
use llm_chat.Manager.Qa.Debounce.{repaint_all, time_up-repaint}
use llm_chat.Manager.Attachments.{save_all}
use llm_chat.Manager.Attachments.Saving.{AllSaved, save_all_iff}
use llm_chat.Tests.Chat.{wall_clock, alice, after_traffic}

abbrev pub connection : Connection
connection = record {
  connection_id = alice;
  sid = lit "s1";
  user_id = alice;
  user_name = alice;
  port = 7878;
}

abbrev pub moment : Moment
moment = record {
  time_in = [];
  time_out = [];
  cutoff = [];
  insert_fails = none;
  confirm_fails = false;
  usage_fails = none;
  daily_fails = none;
  status_fails = false;
  body_sent = true;
  enter_sent = true;
}

abbrev registry : Registry
registry = record { instance_ports = []; session_to_port = []; session_to_owner = []; clients = [] }

abbrev question : Json
question = obj (field (lit "type") (str (lit "q")) (field (lit "text") (str (lit "hi")) end))

abbrev pub paths_text : List Text → Text
paths_text ps = []

abbrev pub silent : ℕ → Json → Result Json Text
silent port body = err (lit "refused")

read_message-IsRun_example :
    IsRun wall_clock paths_text silent connection moment
      (ok question)
      initial
      (read_message paths_text silent connection moment registry initial.db (ok question))
read_message-IsRun_example =
    read_message-IsRun wall_clock paths_text silent connection moment registry initial (ok question)
      refl refl

-- A worker that saves everything under one path, and an attachment for it.
abbrev saving : ℕ → Json → Result Json Text
saving port body =
    ok (obj (field (lit "ok") (bool true) (field (lit "path") (str (lit "/a/b.png")) end)))

abbrev picture : Json
picture =
    obj (field (lit "mime") (str (lit "image/png")) (field (lit "data") (str (lit "AAAA")) end))

picture_saved : save_all saving 7878 (lit "s1") (picture ∷ []) ≡ ok (lit "/a/b.png" ∷ [])
unfolding save_all lit
picture_saved = refl

save_all_iff_example :
    (save_all saving 7878 (lit "s1") (picture ∷ []) ≡ ok (lit "/a/b.png" ∷ []))
    ↔ AllSaved saving 7878 (lit "s1") (picture ∷ []) (lit "/a/b.png" ∷ [])
save_all_iff_example = save_all_iff saving 7878 (lit "s1") (picture ∷ []) (lit "/a/b.png" ∷ [])

usage_daily_for-AddsUp_example :
    AddsUp
      (keep (is_counted_since alice []) after_traffic.db.rows)
      (usage_daily_for alice [] after_traffic.db)
usage_daily_for-AddsUp_example = usage_daily_for-AddsUp alice [] after_traffic.db

usage_by_user-eq-usage_for_example :
    unwrap_or (find alice (usage_by_user after_traffic.db)) no_usage
    ≡ usage_for alice after_traffic.db
usage_by_user-eq-usage_for_example = usage_by_user-eq-usage_for alice after_traffic.db

-- Two texts of answer 1 with one of answer 2 between them.
abbrev pub idle : Waiting
idle = record { pending_text = λ n. none; versions = λ n. 0 }

abbrev later_texts : List (ℕ × Text)
later_texts = (2, lit "b") ∷ (1, lit "c") ∷ []

time_up-repaint_example :
    (time_up 1 (repaint 1 alice idle).1 (repaint_all later_texts (repaint 1 alice idle).0)).1
    ≡ (if any (λ r. r.0 == 1) later_texts then none else nonempty_text (some alice))
time_up-repaint_example = time_up-repaint 1 alice idle later_texts
