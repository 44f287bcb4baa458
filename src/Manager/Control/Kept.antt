-- ===== src/Manager/Control/Kept.antt =====
-- What an operator's commands on /control (manager/src/main.rs) keep.
use llm_chat.Prelude.{
  ℕ, ◌≡◌, refl, ◌∙◌, Text, Option, none, some, List, [], ◌∷◌, All, unwrap_or, Result, ok, err, lit,
}
use llm_chat.Json.{Json, get_str}
use llm_chat.Manager.Sessions.{
  Registry, Outcome, opened, open_on, closed, close_on, cmd_open, cmd_close, register,
}
use llm_chat.Manager.Sessions.Ownership.{
  SameSessions, register-SameSessions, unregister-SameSessions,
}
use llm_chat.Manager.Templates.Versions.{set_template-IsOutcome}
use llm_chat.Manager.Templates.Ages.{
  SameTemplates, NoOlder, NoOlder-refl, NoOlder-trans, IsOutcome-NoOlder,
}
use llm_chat.Manager.Templates.{Store}
use llm_chat.Manager.Control.Commands.{Command}
use llm_chat.Manager.Control.{
  Moment, ManagerState, run_open, run_close, run_set_template, run_command, control, control_all,
}

module _ (iterate : List (ℕ × ℕ) → List (ℕ × ℕ)) (call_backend : ℕ → Json → Result Json Text)
    (meanwhile : Registry → Registry)
    (kept : (st : Registry) → SameSessions st → SameSessions (meanwhile st)) where
  opened-SameSessions :
      (port : ℕ) (uid : Text) (r : Result Json Text) (st : Registry)
      → SameSessions st
      → SameSessions (opened port uid r st).1
  opened-SameSessions port uid (err e) st h = h
  opened-SameSessions port uid (ok resp) st h =
      elim (get_str resp (lit "sessionId"))
        as (λ o.
          SameSessions
            (elim o as (λ x. Outcome (Text × ℕ × Text)) [
              | none ↦ (err (lit "backend did not return sessionId"), st)
              | some sid ↦ (
                ok (sid, port, unwrap_or (get_str resp (lit "transport")) (lit "stream-json")),
                register sid port uid st,
              )
            ]).1) [ none ↦ h | some sid ↦ register-SameSessions sid st port uid h ]

  open_on-SameSessions :
      (port : Option ℕ) (uid : Text) (subpath rich : Option Text) (st : Registry)
      → SameSessions st
      → SameSessions (open_on iterate call_backend meanwhile port uid subpath rich st).1
  open_on-SameSessions none uid subpath rich st h = h
  open_on-SameSessions (some port) uid subpath rich st h =
      opened-SameSessions port uid _ _ (kept st h)

  cmd_open-SameSessions :
      (uid : Text) (subpath rich : Option Text) (st : Registry)
      → SameSessions st
      → SameSessions (cmd_open iterate call_backend meanwhile uid subpath rich st).1
  unfolding cmd_open
  cmd_open-SameSessions uid subpath rich st h = open_on-SameSessions _ uid subpath rich st h

  closed-SameSessions :
      (sid : Text) (r : Result Json Text) (st : Registry)
      → SameSessions st
      → SameSessions (closed iterate call_backend meanwhile sid r st).1
  closed-SameSessions sid (err e) st h = h
  closed-SameSessions sid (ok v) st h = unregister-SameSessions sid st h

  close_on-SameSessions :
      (sid : Text) (port : Option ℕ) (st : Registry)
      → SameSessions st
      → SameSessions (close_on iterate call_backend meanwhile sid port st).1
  close_on-SameSessions sid none st h = h
  close_on-SameSessions sid (some port) st h = closed-SameSessions sid _ _ (kept st h)

  cmd_close-SameSessions :
      (sid : Text) (st : Registry)
      → SameSessions st
      → SameSessions (cmd_close iterate call_backend meanwhile sid st).1
  unfolding cmd_close
  cmd_close-SameSessions sid st h = close_on-SameSessions sid _ st h

-- The session maps hold the same sessions, the questions are those before, and no template has gone
-- back or away.
pub record IsAdministered (before after : ManagerState) : Type 0 where
  pub sessions : SameSessions before.registry → SameSessions after.registry
  pub questions : after.chat_db ≡ before.chat_db
  pub versions : NoOlder before.templates after.templates

-- What other tasks do while a command waits keeps the session maps in step and changes no template.
pub record IsQuiet (m : Moment) : Type 0 where
  pub sessions : (st : Registry) → SameSessions st → SameSessions (m.meanwhile st)
  pub templates : (store : Store) → SameTemplates store (m.templates_meanwhile store)

IsAdministered-refl : (st : ManagerState) → IsAdministered st st
IsAdministered-refl st = record {
  sessions = λ h. h;
  questions = refl;
  versions = NoOlder-refl st.templates;
}

IsAdministered-trans :
    (x y z : ManagerState) → IsAdministered x y → IsAdministered y z → IsAdministered x z
IsAdministered-trans x y z f g = record {
  sessions = λ h. g.sessions (f.sessions h);
  questions = g.questions ∙ f.questions;
  versions = NoOlder-trans x.templates y.templates z.templates f.versions g.versions;
}

module _ (show : ℕ → Text) (from_str : Text → Option Json) (to_string : Json → Text)
    (shape_error : Text → Option Text) (user_id : Text) where
  run_set_template-IsAdministered :
      (m : Moment) (req : Json) (st : ManagerState)
      → IsQuiet m
      → IsAdministered st (run_set_template show from_str to_string shape_error user_id m req st).1
  unfolding run_set_template
  run_set_template-IsAdministered m req st k = record {
    sessions = λ h. h;
    questions = refl;
    versions =
        IsOutcome-NoOlder _ _ _ _ _ _ _ m.now st.templates (m.templates_meanwhile st.templates) _
          (k.templates st.templates)
          (set_template-IsOutcome to_string shape_error m.now m.query_fails m.save_fails
            m.templates_meanwhile req st.templates);
  }

  run_command-IsAdministered :
      (m : Moment) (req : Json) (c : Command) (st : ManagerState)
      → IsQuiet m
      → IsAdministered st (run_command show from_str to_string shape_error user_id m req c st).1
  unfolding run_open run_close
  run_command-IsAdministered m req Command.open_cmd st k = record {
    sessions =
        cmd_open-SameSessions m.load_order m.call_backend m.meanwhile k.sessions user_id none none
          st.registry;
    questions = refl;
    versions = NoOlder-refl st.templates;
  }
  run_command-IsAdministered m req Command.close_cmd st k = record {
    sessions =
        cmd_close-SameSessions m.load_order m.call_backend m.meanwhile k.sessions _ st.registry;
    questions = refl;
    versions = NoOlder-refl st.templates;
  }
  run_command-IsAdministered m req Command.set_template_cmd st k =
      run_set_template-IsAdministered m req st k
  run_command-IsAdministered m req Command.instances_cmd st k = IsAdministered-refl st
  run_command-IsAdministered m req Command.list_cmd st k = IsAdministered-refl st
  run_command-IsAdministered m req Command.history_cmd st k = IsAdministered-refl st
  run_command-IsAdministered m req Command.clients_cmd st k = IsAdministered-refl st
  run_command-IsAdministered m req Command.queue_cmd st k = IsAdministered-refl st
  run_command-IsAdministered m req Command.usage_cmd st k = IsAdministered-refl st
  run_command-IsAdministered m req Command.usage_daily_cmd st k = IsAdministered-refl st
  run_command-IsAdministered m req Command.user_box_cmd st k = IsAdministered-refl st
  run_command-IsAdministered m req Command.get_template_cmd st k = IsAdministered-refl st
  run_command-IsAdministered m req Command.fifo_cmd st k = IsAdministered-refl st
  run_command-IsAdministered m req Command.screenshot_cmd st k = IsAdministered-refl st
  run_command-IsAdministered m req Command.passed_cmd st k = IsAdministered-refl st
  run_command-IsAdministered m req (Command.unknown c) st k = IsAdministered-refl st

  -- If what other tasks do while a command waits for a worker keeps the two session maps in step, and
  -- they change no template while a command loads and saves one, then whatever texts an operator sends
  -- to /control, and whatever the workers answer, the commands change no question, no template goes
  -- away or has an older version, and the session maps stay in step.
  pub control_all-IsAdministered :
      (es : List (Moment × Text)) (st : ManagerState)
      → All (λ e. IsQuiet e.0) es
      → IsAdministered st (control_all show from_str to_string shape_error user_id es st)
  unfolding control_all control
  control_all-IsAdministered [] st h = IsAdministered-refl st
  control_all-IsAdministered ((m, text) ∷ es) st (k, ks) =
      IsAdministered-trans st _ _ (run_command-IsAdministered m _ _ st k)
        (control_all-IsAdministered es _ ks)
