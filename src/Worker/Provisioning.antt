-- ===== src/Worker/Provisioning.antt =====
-- Provisioning a sandbox on the worker (the `provision-app-box` command of worker/src/lib.rs): its
-- files are created, and its version is stamped or a migration is started, of which at most one runs
-- for a sandbox. A migration is a step of its own, at any later time.
pub mod Keys
pub mod InFlight
pub mod Preserved
use llm_chat.Prelude.{
  ℕ, Text, Bool, true, false, not, Option, none, some, List, [], ◌∷◌, ◌++◌, lit, ℤ, pos, negsuc,
  ◌+ℤ◌, map, keep, text_eq, unwrap_or, Result, ok, err, if◌then◌else◌,
}
use llm_chat.Json.{Json, int, str, field, end, get, get_str, get_bool, get_i64, get_array}
use llm_chat.Worker.UserEnv.{
  ResolveError, FilePath, Fs, SeedEntry, ProvisionAction, provision, current, migrate, is_positive,
  provision_entries, read_stamp, write_stamp, decide_action, resolve_user_cwd,
}
use llm_chat.Worker.Migrate.{Started, render_manifest, migration_prompt, run_box_migration}
use llm_chat.Worker.AppState.{ok_with, failed, contains}
use llm_chat.Worker.Opening.{error_text}

-- The arguments of a command, with their defaults.
pub record ProvisionArgs : Type 0 where
  pub user_id : Text
  pub app : Text
  pub version : ℤ
  pub instructions : Option Text
  pub entries : List SeedEntry

unfoldable pub seed_entry : Json → SeedEntry
seed_entry f = record {
  path = unwrap_or (get_str f (lit "path")) [];
  dir = unwrap_or (get_bool f (lit "dir")) false;
  content = unwrap_or (get_str f (lit "content")) [];
}

unfoldable pub provision_args : Json → ProvisionArgs
unfolding seed_entry
provision_args req = record {
  user_id = unwrap_or (get_str req (lit "userId")) [];
  app = unwrap_or (get_str req (lit "app")) [];
  version = unwrap_or (get_i64 req (lit "version")) (pos 0);
  instructions = get_str req (lit "migrateInstructions");
  entries = map seed_entry (unwrap_or (get_array req (lit "files")) []);
}

-- `format!("{user_id}/{app}")`
unfoldable pub sandbox_key : Text → Text → Text
sandbox_key user_id app = user_id ++ b'/' ∷ app

-- What a started migration has captured.
pub record Migration : Type 0 where
  pub key : Text
  pub user_id : Text
  pub app : Text
  pub version : ℤ
  pub claude_path : Text
  pub cwd : FilePath
  pub prompt : Text

-- `version.max(1)`
abbrev pub at_least_one : ℤ → ℤ
at_least_one v = if is_positive v then v else pos 1

-- The boxes, the set `migrations_in_flight`, and the tasks that run.
pub record Boxes (World : Type 0) : Type 0 where
  pub disk : World
  pub migrations_in_flight : List Text
  pub tasks : List Migration

abbrev pub without : Text → List Text → List Text
without key keys = keep (λ k. not (text_eq k key)) keys

module _ (fs : Fs) (debug : Text → Text) (show : ℤ → Text) (base : FilePath)
    (from_str : Text → Option Json) where
  abbrev pub State : Type 0
  State = Boxes fs.World

  abbrev action : ℤ → Text → Json
  action version name =
      ok_with (field (lit "action") (str name) (field (lit "version") (int version) end))

  abbrev noted : ℤ → Text → Text → Json
  noted version name note = ok_with (
      field (lit "action") (str name)
        (field (lit "version") (int version) (field (lit "note") (str note) end)))

  abbrev made : ℤ → Text → ℕ → Json
  made version name created = ok_with (
      field (lit "action") (str name)
        (field (lit "version") (int version) (field (lit "created") (int (pos created)) end)))

  -- The key leaves the set again.
  abbrev pub released : Text → State → State
  released key st = record st { migrations_in_flight = without key st.migrations_in_flight }

  abbrev pub with_claude :
      ProvisionArgs → Text → Text → FilePath → Option Text → State → Json × State
  with_claude args key instr cwd none st =
      (action args.version (lit "migrate-unavailable"), released key st)
  with_claude args key instr cwd (some claude_path) st = (
    action args.version (lit "migrating"),
    record st {
      tasks =
          record {
            key = key;
            user_id = args.user_id;
            app = args.app;
            version = args.version;
            claude_path = claude_path;
            cwd = cwd;
            prompt = migration_prompt instr (render_manifest args.entries);
          }
          ∷ st.tasks;
    },
  )

  abbrev pub in_cwd :
      ProvisionArgs
      → Text
      → Text
      → Option Text
      → Result FilePath ResolveError
      → State
      → Json × State
  in_cwd args key instr claude (err e) st = (failed (lit "cwd: " ++ error_text e), released key st)
  in_cwd args key instr claude (ok cwd) st = with_claude args key instr cwd claude st

  -- The key is in the set.
  abbrev pub with_instructions :
      ProvisionArgs → Text → Option Text → Option Text → State → Json × State
  with_instructions args key claude none st =
      (noted args.version (lit "migrate-skipped") (lit "no instructions"), released key st)
  with_instructions args key claude (some instr) st =
      let (r, w) = resolve_user_cwd fs debug show base args.user_id (some args.app) st.disk in
      in_cwd args key instr claude r (record st { disk = w })

  unfoldable pub start_migration : ProvisionArgs → Option Text → State → Json × State
  unfolding sandbox_key resolve_user_cwd migration_prompt render_manifest error_text
  start_migration args claude st =
      let key = sandbox_key args.user_id args.app in
      if contains key st.migrations_in_flight
      then (noted args.version (lit "migrating") (lit "already in flight"), st)
      else with_instructions args key claude args.instructions
          (record st { migrations_in_flight = key ∷ st.migrations_in_flight })

  abbrev pub stamped : ProvisionArgs → ℕ → Result (Unit {0}) ResolveError → State → Json × State
  stamped args created (ok _) st = (made args.version (lit "provisioned") created, st)
  stamped args created (err e) st = (failed (lit "stamp: " ++ error_text e), st)

  abbrev pub acted : ProvisionArgs → Option Text → ℕ → ProvisionAction → State → Json × State
  acted args claude created provision st =
      let (r, w) =
        write_stamp fs debug show base args.user_id args.app (at_least_one args.version) st.disk in
      stamped args created r (record st { disk = w })
  acted args claude created current st = (made args.version (lit "current") created, st)
  acted args claude created migrate st = start_migration args claude st

  -- `unwrap_or(0)`
  abbrev pub stamp_or_zero : Result ℤ ResolveError → ℤ
  stamp_or_zero (ok n) = n
  stamp_or_zero (err e) = pos 0

  abbrev pub provisioned :
      ProvisionArgs → Option Text → Result ℕ ResolveError → State → Json × State
  provisioned args claude (err e) st = (failed (lit "env: " ++ error_text e), st)
  provisioned args claude (ok created) st =
      let (r, w) = read_stamp fs debug show base args.user_id args.app st.disk in
      acted args claude created (decide_action (stamp_or_zero r) args.version)
        (record st { disk = w })

  -- `claude` is where claude's program was found.
  unfoldable pub provision_app_box : Json → Option Text → State → Json × State
  unfolding provision_args provision_entries read_stamp write_stamp decide_action start_migration
  provision_app_box req claude st =
      let args = provision_args req in
      let (r, w) =
        provision_entries fs debug show base args.user_id args.app args.entries st.disk in
      provisioned args claude r (record st { disk = w })

  abbrev pub find_task : Text → List Migration → Option Migration
  find_task key [] = none
  find_task key (m ∷ ms) = if text_eq m.key key then some m else find_task key ms

  -- A failed write of the stamp is only logged, and so is a failed migration.
  abbrev pub bumped : Migration → Result (Unit {0}) Text → fs.World → fs.World
  bumped m (ok _) w = (write_stamp fs debug show base m.user_id m.app m.version w).1
  bumped m (err e) w = w

  -- `edits` is what the claude of the task did to the boxes.
  abbrev pub finished : Option Migration → Started → (fs.World → fs.World) → State → State
  finished none run edits st = st
  finished (some m) run edits st = record {
    disk = bumped m (run_box_migration from_str run) (edits st.disk);
    migrations_in_flight = without m.key st.migrations_in_flight;
    tasks = keep (λ t. not (text_eq t.key m.key)) st.tasks;
  }

  -- The task with this key ends.
  unfoldable pub finish_migration : Text → Started → (fs.World → fs.World) → State → State
  unfolding run_box_migration write_stamp
  finish_migration key run edits st = finished (find_task key st.tasks) run edits st

  pub data BoxEvent : Type 0 where
    asked : Json → Option Text → BoxEvent
    ended : Text → Started → (fs.World → fs.World) → BoxEvent

  unfoldable pub box_event : BoxEvent → State → State
  unfolding provision_app_box finish_migration
  box_event (asked req claude) st = (provision_app_box req claude st).1
  box_event (ended key run edits) st = finish_migration key run edits st

  unfoldable pub box_events : List BoxEvent → State → State
  unfolding box_event
  box_events [] st = st
  box_events (e ∷ es) st = box_events es (box_event e st)

abbrev pub at_start : {World : Type 0} → World → Boxes World
at_start w = record { disk = w; migrations_in_flight = []; tasks = [] }
