-- ===== src/Worker/Provisioning/InFlight.antt =====
-- The set of migrations in flight (worker/src/lib.rs) and the tasks that run.
use mathlib.Core.Path.{subst}
use llm_chat.Prelude.{
  ℕ, ◌≡◌, refl, sym, ap, ◌∙◌, Text, false, Option, none, some, List, [], ◌∷◌, ℤ, All, Result, ok,
  err, Bool-cases, inl, inr,
}
use llm_chat.Json.{Json}
use llm_chat.Worker.Io.{outcome_eq}
use llm_chat.Worker.UserEnv.{
  ResolveError, FilePath, Fs, ProvisionAction, provision, current, migrate, confine_path,
  write_stamp, read_stamp, decide_action, provision_entries,
}
use llm_chat.Worker.UserEnv.Resolved.{resolve_user_cwd-IsProven}
use llm_chat.Worker.Migrate.{Started}
use llm_chat.Worker.AppState.{contains}
use llm_chat.Worker.Provisioning.Keys.{
  keys_of, Distinct, without-head, Distinct-without, keys_of-keep, All-keep,
}
use llm_chat.Worker.Provisioning.{
  Migration, ProvisionArgs, State, without, released, stamp_or_zero, with_claude, in_cwd,
  with_instructions, start_migration, stamped, acted, provisioned, provision_args,
  provision_app_box, find_task, finished, finish_migration, BoxEvent, asked, ended, box_event,
  box_events, at_start, sandbox_key, at_least_one,
}

module _ (fs : Fs) (debug : Text → Text) (show : ℤ → Text) (base : FilePath)
    (from_str : Text → Option Json) where
  -- A task works for the sandbox of its key, in the directory that the lexical check gives for it.
  pub record IsTask (m : Migration) : Type 0 where
    pub keyed : m.key ≡ sandbox_key m.user_id m.app
    pub confined : confine_path debug base m.user_id (some m.app) ≡ ok m.cwd

  pub record IsInFlight (st : State fs debug show base from_str) : Type 0 where
    pub keys : st.migrations_in_flight ≡ keys_of st.tasks
    pub distinct : Distinct (keys_of st.tasks)
    pub tasks_placed : All IsTask st.tasks

  pub elsewhere :
      (st : State fs debug show base from_str) (w : fs.World)
      → IsInFlight st
      → IsInFlight (record st { disk = w })
  elsewhere st w h = record { keys = h.keys; distinct = h.distinct; tasks_placed = h.tasks_placed }

  -- The same, while the key of a new task is in the set and the task does not run yet.
  record IsClaimed (key : Text) (st : State fs debug show base from_str) : Type 0 where
    pub keys : st.migrations_in_flight ≡ key ∷ keys_of st.tasks
    pub fresh : contains key (keys_of st.tasks) ≡ false
    pub distinct : Distinct (keys_of st.tasks)
    pub tasks_placed : All IsTask st.tasks

  released-IsInFlight :
      (key : Text) (st : State fs debug show base from_str)
      → IsClaimed key st
      → IsInFlight (released fs debug show base from_str key st)
  released-IsInFlight key st h = record {
    keys = ap (without key) h.keys ∙ without-head key (keys_of st.tasks) h.fresh;
    distinct = h.distinct;
    tasks_placed = h.tasks_placed;
  }

  with_claude-IsInFlight :
      (args : ProvisionArgs) (instr : Text) (cwd : FilePath) (claude : Option Text)
      (st : State fs debug show base from_str)
      → confine_path debug base args.user_id (some args.app) ≡ ok cwd
      → IsClaimed (sandbox_key args.user_id args.app) st
      → IsInFlight
          (with_claude fs debug show base from_str args
            (sandbox_key args.user_id args.app)
            instr
            cwd
            claude
            st).1
  with_claude-IsInFlight args instr cwd none st c h = released-IsInFlight _ st h
  with_claude-IsInFlight args instr cwd (some p) st c h = record {
    keys = h.keys;
    distinct = (h.fresh, h.distinct);
    tasks_placed = (record { keyed = refl; confined = c }, h.tasks_placed);
  }

  moved :
      (key : Text) (st : State fs debug show base from_str) (w : fs.World)
      → IsClaimed key st
      → IsClaimed key (record st { disk = w })
  moved key st w h = record {
    keys = h.keys;
    fresh = h.fresh;
    distinct = h.distinct;
    tasks_placed = h.tasks_placed;
  }

  in_cwd-IsInFlight :
      (args : ProvisionArgs) (instr : Text) (claude : Option Text)
      (r : Result FilePath ResolveError) (st : State fs debug show base from_str)
      → ((cwd : FilePath)
          → r ≡ ok cwd
          → confine_path debug base args.user_id (some args.app) ≡ ok cwd)
      → IsClaimed (sandbox_key args.user_id args.app) st
      → IsInFlight
          (in_cwd fs debug show base from_str args
            (sandbox_key args.user_id args.app)
            instr
            claude
            r
            st).1
  in_cwd-IsInFlight args instr claude (err e) st c h = released-IsInFlight _ st h
  in_cwd-IsInFlight args instr claude (ok cwd) st c h =
      with_claude-IsInFlight args instr cwd claude st (c cwd refl) h

  with_instructions-IsInFlight :
      (args : ProvisionArgs) (claude instr : Option Text) (st : State fs debug show base from_str)
      → IsClaimed (sandbox_key args.user_id args.app) st
      → IsInFlight
          (with_instructions fs debug show base from_str args
            (sandbox_key args.user_id args.app)
            claude
            instr
            st).1
  with_instructions-IsInFlight args claude none st h = released-IsInFlight _ st h
  with_instructions-IsInFlight args claude (some instr) st h =
      in_cwd-IsInFlight args instr claude _ _
        (λ cwd e.
          (resolve_user_cwd-IsProven fs debug show base args.user_id (some args.app) st.disk _ cwd
            (outcome_eq _ e refl)).lexical)
        (moved _ st _ h)

  start_migration-IsInFlight :
      (args : ProvisionArgs) (claude : Option Text) (st : State fs debug show base from_str)
      → IsInFlight st
      → IsInFlight (start_migration fs debug show base from_str args claude st).1
  unfolding start_migration
  start_migration-IsInFlight args claude st h =
      elim (Bool-cases (contains (sandbox_key args.user_id args.app) st.migrations_in_flight)) [
        | inl y ↦ rw y h
        | inr n ↦ rw n (
            with_instructions-IsInFlight args claude args.instructions _ (record {
              keys = ap (λ ks. sandbox_key args.user_id args.app ∷ ks) h.keys;
              fresh =
                  subst (λ ks. contains (sandbox_key args.user_id args.app) ks ≡ false) h.keys n;
              distinct = h.distinct;
              tasks_placed = h.tasks_placed;
            }))
      ]

  stamped-IsInFlight :
      (args : ProvisionArgs) (created : ℕ) (r : Result (Unit {0}) ResolveError)
      (st : State fs debug show base from_str)
      → IsInFlight st
      → IsInFlight (stamped fs debug show base from_str args created r st).1
  stamped-IsInFlight args created (ok u) st h = h
  stamped-IsInFlight args created (err e) st h = h

  acted-IsInFlight :
      (args : ProvisionArgs) (claude : Option Text) (created : ℕ) (action : ProvisionAction)
      (st : State fs debug show base from_str)
      → IsInFlight st
      → IsInFlight (acted fs debug show base from_str args claude created action st).1
  acted-IsInFlight args claude created provision st h =
      let (r, w) =
        write_stamp fs debug show base args.user_id args.app (at_least_one args.version) st.disk in
      stamped-IsInFlight args created r (record st { disk = w }) (elsewhere st w h)
  acted-IsInFlight args claude created current st h = h
  acted-IsInFlight args claude created migrate st h = start_migration-IsInFlight args claude st h

  provisioned-IsInFlight :
      (args : ProvisionArgs) (claude : Option Text) (r : Result ℕ ResolveError)
      (st : State fs debug show base from_str)
      → IsInFlight st
      → IsInFlight (provisioned fs debug show base from_str args claude r st).1
  provisioned-IsInFlight args claude (err e) st h = h
  provisioned-IsInFlight args claude (ok n) st h =
      let (r, w) = read_stamp fs debug show base args.user_id args.app st.disk in
      acted-IsInFlight args claude n
        (decide_action (stamp_or_zero fs debug show base from_str r) args.version)
        (record st { disk = w }) (elsewhere st w h)

  finished-IsInFlight :
      (o : Option Migration) (run : Started) (edits : fs.World → fs.World)
      (st : State fs debug show base from_str)
      → IsInFlight st
      → IsInFlight (finished fs debug show base from_str o run edits st)
  finished-IsInFlight none run edits st h = h
  finished-IsInFlight (some m) run edits st h = record {
    keys = ap (without m.key) h.keys ∙ sym (keys_of-keep m.key st.tasks);
    distinct =
        subst Distinct (sym (keys_of-keep m.key st.tasks)) (Distinct-without m.key _ h.distinct);
    tasks_placed = All-keep IsTask _ st.tasks h.tasks_placed;
  }

  pub provision_app_box-IsInFlight :
      (req : Json) (claude : Option Text) (st : State fs debug show base from_str)
      → IsInFlight st
      → IsInFlight (provision_app_box fs debug show base from_str req claude st).1
  unfolding provision_app_box
  provision_app_box-IsInFlight req claude st h =
      let args = provision_args req in
      let (r, w) =
        provision_entries fs debug show base args.user_id args.app args.entries st.disk in
      provisioned-IsInFlight args claude r (record st { disk = w }) (elsewhere st w h)

  pub finish_migration-IsInFlight :
      (key : Text) (run : Started) (edits : fs.World → fs.World)
      (st : State fs debug show base from_str)
      → IsInFlight st
      → IsInFlight (finish_migration fs debug show base from_str key run edits st)
  unfolding finish_migration
  finish_migration-IsInFlight key run edits st h =
      finished-IsInFlight (find_task fs debug show base from_str key st.tasks) run edits st h

  box_event-IsInFlight :
      (e : BoxEvent fs debug show base from_str) (st : State fs debug show base from_str)
      → IsInFlight st
      → IsInFlight (box_event fs debug show base from_str e st)
  unfolding box_event
  box_event-IsInFlight (asked req claude) st h = provision_app_box-IsInFlight req claude st h
  box_event-IsInFlight (ended key run edits) st h = finish_migration-IsInFlight key run edits st h

  box_events-IsInFlight :
      (es : List (BoxEvent fs debug show base from_str)) (st : State fs debug show base from_str)
      → IsInFlight st
      → IsInFlight (box_events fs debug show base from_str es st)
  unfolding box_events
  box_events-IsInFlight [] st h = h
  box_events-IsInFlight (e ∷ es) st h = box_events-IsInFlight es _ (box_event-IsInFlight e st h)

  -- After any commands and ends of migrations, the keys in flight are those of the tasks that run, no
  -- two tasks have the same key, and each task works in the directory of the sandbox of its key.
  pub reached-IsInFlight :
      (es : List (BoxEvent fs debug show base from_str)) (w : fs.World)
      → IsInFlight (box_events fs debug show base from_str es (at_start w))
  reached-IsInFlight es w =
      box_events-IsInFlight es (at_start w)
        (record { keys = refl; distinct = tt; tasks_placed = tt })
