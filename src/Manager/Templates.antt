-- ===== src/Manager/Templates.antt =====
-- The sandbox templates of manager/src/main.rs: `resolve_set`, the table `app_sandbox_template`, and
-- the commands `set-template` and `get-template`'s lookup. Versions count up from 1. Printing JSON
-- and the check of a template's shape are serde_json's.
pub mod Versions
pub mod Ages
use llm_chat.Prelude.{
  ℕ, ◌+◌, Text, Bool, true, false, Option, none, some, List, [], ◌∷◌, ◌++◌, lit, is_empty, trim,
  find, insert, unwrap_or, and_then, Result, ok, err, if◌then◌else◌,
}
use llm_chat.Json.{Json, get, get_str, get_bool}

pub record TemplateRecord : Type 0 where
  pub template_json : Text
  pub version : ℕ
  pub migrate_instructions : Option Text
  pub updated_at : Text

-- The rows by their primary key.
abbrev pub Store : Type 0
Store = List (Text × TemplateRecord)

abbrev pub filled : Option Text → Option Text
filled none = none
filled (some s) = if is_empty s then none else some s

abbrev trimmed : Option Text → Option Text
trimmed none = none
trimmed (some s) = some (trim s)

abbrev published : Option ℕ → Option Text → Result (ℕ × Option Text) Text
published version none = err (lit "publishing a new version requires migration instructions")
published version (some instr) = ok (unwrap_or version 0 + 1, some instr)

unfoldable pub resolve_set :
    Option ℕ → Option Text → Bool → Option Text → Result (ℕ × Option Text) Text
resolve_set current_version current_instructions publish new_instructions =
    if publish
    then published current_version (filled (trimmed new_instructions))
    else ok (unwrap_or current_version 1, current_instructions)

unfoldable pub get_template : Text → Store → Option TemplateRecord
unfolding find
get_template app_code store = find app_code store

unfoldable pub upsert_template : Text → TemplateRecord → Store → Store
unfolding insert
upsert_template app_code r store = insert app_code r store

abbrev pub version_of : Option TemplateRecord → Option ℕ
version_of none = none
version_of (some r) = some r.version

abbrev pub instructions_of : Option TemplateRecord → Option Text
instructions_of none = none
instructions_of (some r) = r.migrate_instructions

-- The reply names the code, the version and the time, or the error.
abbrev pub Reply : Type 0
Reply = Result (Text × ℕ × Text) Text

-- `shape_error` is what `parse_template` reports; a failed query carries its text. `meanwhile` is what
-- other tasks do to the table between the two queries of a command.
module _ (to_string : Json → Text) (shape_error : Text → Option Text) (now : Text)
    (load_fails save_fails : Option Text) (meanwhile : Store → Store) where
  abbrev saved : Text → Text → Option Text → Result (ℕ × Option Text) Text → Store → Reply × Store
  saved code json fails (err e) store = (err e, store)
  saved code json (some e) (ok (version, instr)) store =
      (err (lit "set-template save: " ++ e), meanwhile store)
  saved code json none (ok (version, instr)) store = (
    ok (code, version, now),
    upsert_template code
        (record {
          template_json = json;
          version = version;
          migrate_instructions = instr;
          updated_at = now;
        })
        (meanwhile store),
  )

  abbrev decided : Json → Text → Text → Option Text → Store → Reply × Store
  decided req code json (some e) store = (err (lit "set-template load: " ++ e), store)
  decided req code json none store =
      let current = get_template code store in
      saved code json save_fails
        (resolve_set (version_of current) (instructions_of current)
          (unwrap_or (get_bool req (lit "publish")) false)
          (get_str req (lit "migrateInstructions")))
        store

  abbrev checked : Json → Text → Text → Option Text → Store → Reply × Store
  checked req code json (some e) store = (err (lit "invalid template: " ++ e), store)
  checked req code json none store = decided req code json load_fails store

  abbrev with_args : Json → Option Text → Option Json → Store → Reply × Store
  with_args req none template store = (err (lit "appCode required"), store)
  with_args req (some code) none store = (err (lit "template required"), store)
  with_args req (some code) (some template) store =
      checked req code (to_string template) (shape_error (to_string template)) store

  unfoldable pub set_template : Json → Store → Reply × Store
  unfolding resolve_set get_template upsert_template
  set_template req store =
      with_args req (filled (get_str req (lit "appCode"))) (get req (lit "template")) store
