-- ===== src/Manager/Provision.antt =====
-- The /provision endpoint of manager/src/main.rs (`substitute_vars`, `build_provision_request` and
-- `handle_provision`): a user's sandbox is made from the app's template by a worker. The shape of a
-- template is serde_json's to read; the label of the user comes from the identity provider.
pub mod Handed
pub mod Filled
use llm_chat.Prelude.{
  ℕ, zero, suc, ◌-◌, Text, Bool, true, false, Option, none, some, List, [], ◌∷◌, ◌++◌, lit, ℤ, pos,
  map, length, starts_with, is_empty, unwrap_or, head?, Result, ok, err, if◌then◌else◌,
}
use llm_chat.Json.{
  Json, null, bool, int, str, arr, obj, Items, nil, cons, end, field, get_str, get_bool,
}
use llm_chat.Manager.Sessions.{Registry}
use llm_chat.Manager.Templates.{Store, TemplateRecord, get_template}

pub record TemplateEntry : Type 0 where
  pub path : Text
  pub dir : Bool
  pub content : Text

pub record TemplateVars : Type 0 where
  pub name : Text
  pub user_id : Text
  pub app : Text
  pub date : Text

-- The text from here on; the first `skip` characters belong to a match before.
unfoldable pub replace_from : (from to : Text) → (skip : ℕ) → Text → Text
replace_from from to skip [] = []
replace_from from to (suc skip) (c ∷ s) = replace_from from to skip s
replace_from from to zero (c ∷ s) = elim (starts_with from (c ∷ s)) [
  | true ↦ to ++ replace_from from to (length from - 1) s
  | false ↦ c ∷ replace_from from to 0 s
]

-- `s.replace(from, to)`, for a `from` that is not empty.
unfoldable pub replace : (from to : Text) → Text → Text
unfolding replace_from
replace from to s = replace_from from to 0 s

unfoldable pub substitute_vars : Text → TemplateVars → Text
unfolding replace
substitute_vars content v = replace (lit "{{date}}") v.date (
    replace (lit "{{app}}") v.app
      (replace (lit "{{userId}}") v.user_id (replace (lit "{{name}}") v.name content)))

abbrev pub option_str : Option Text → Json
option_str none = null
option_str (some t) = str t

unfoldable pub build_provision_request :
    (user_id app : Text)
    → (version : ℕ) → (files : Items) → (migrate_instructions : Option Text) → Json
build_provision_request user_id app version files migrate_instructions = obj (
    field (lit "cmd") (str (lit "provision-app-box")) (
      field (lit "userId") (str user_id) (
        field (lit "app") (str app) (
          field (lit "version") (int (pos version)) (
            field (lit "files") (arr files)
              (field (lit "migrateInstructions") (option_str migrate_instructions) end))))))

abbrev pub file_json : TemplateVars → TemplateEntry → Json
file_json v e = obj (
    field (lit "path") (str e.path) (
      field (lit "dir") (bool e.dir)
        (field (lit "content") (str (substitute_vars e.content v)) end)))

unfoldable pub files_json : TemplateVars → List TemplateEntry → Items
unfolding substitute_vars
files_json v [] = nil
files_json v (e ∷ es) = cons (file_json v e) (files_json v es)

abbrev pub err_frame : Text → Json
err_frame text = obj (field (lit "type") (str (lit "err")) (field (lit "text") (str text) end))

abbrev provisioned_frame : Bool → Json
provisioned_frame b = obj (
    field (lit "type") (str (lit "provision"))
      (field (lit "ok") (bool true) (field (lit "provisioned") (bool b) end)))

-- The user of the connection, the label that the identity provider gives it, if there is an issuer,
-- and the day.
pub record Caller : Type 0 where
  pub user_id : Text
  pub label : Option Text
  pub date : Text

-- What the endpoint does: one frame to the client, and the request to a worker that went before it.
pub record Provisioning : Type 0 where
  pub request : Option (ℕ × Json)
  pub frame : Json

abbrev pub only : Json → Provisioning
only f = record { request = none; frame = f }

module _ (parse_template : Text → Result (List TemplateEntry) Text)
    (call_backend : ℕ → Json → Result Json Text) (c : Caller) where
  abbrev is_ok : Option Bool → Bool
  is_ok none = false
  is_ok (some b) = b

  abbrev worker_frame : Result Json Text → Json
  worker_frame (ok r) =
      if is_ok (get_bool r (lit "ok"))
      then provisioned_frame true
      else err_frame (lit "provision: " ++ unwrap_or (get_str r (lit "error")) (lit "rejected"))
  worker_frame (err e) = err_frame (lit "worker: " ++ e)

  abbrev pub vars_for : Text → TemplateVars
  vars_for app = record {
    name = unwrap_or c.label c.user_id;
    user_id = c.user_id;
    app = app;
    date = c.date;
  }

  unfoldable pub request_for : Text → TemplateRecord → List TemplateEntry → Json
  unfolding build_provision_request files_json
  request_for app rec entries =
      build_provision_request c.user_id app rec.version (files_json (vars_for app) entries)
        rec.migrate_instructions

  abbrev pub sent_to : Text → TemplateRecord → List TemplateEntry → Option ℕ → Provisioning
  sent_to app rec entries none = only (err_frame (lit "no worker available"))
  sent_to app rec entries (some port) =
      let request = request_for app rec entries in
      record { request = some (port, request); frame = worker_frame (call_backend port request) }

  abbrev pub with_entries :
      Text → Option ℕ → TemplateRecord → Result (List TemplateEntry) Text → Provisioning
  with_entries app port rec (err e) = only (err_frame (lit "template parse: " ++ e))
  with_entries app port rec (ok entries) = sent_to app rec entries port

  abbrev pub with_template : Text → Option ℕ → Option TemplateRecord → Provisioning
  with_template app port none = only (provisioned_frame false)
  with_template app port (some rec) = with_entries app port rec (parse_template rec.template_json)

  abbrev pub loaded : Text → Option ℕ → Option Text → Store → Provisioning
  loaded app port (some e) store = only (err_frame (lit "template load: " ++ e))
  loaded app port none store = with_template app port (get_template app store)

  abbrev pub for_app : Text → Option ℕ → Option Text → Store → Provisioning
  for_app app port load_fails store =
      if is_empty app
      then only (err_frame (lit "missing app"))
      else loaded app port load_fails store

  abbrev pub on_message : Result Json Text → Option ℕ → Option Text → Store → Provisioning
  on_message (err e) port load_fails store = only (err_frame (lit "bad JSON: " ++ e))
  on_message (ok v) port load_fails store =
      for_app (unwrap_or (get_str v (lit "app")) []) port load_fails store

  -- The one message of a /provision client, as serde_json parses it.
  unfoldable pub handle_provision :
      Result Json Text → (load_fails : Option Text) → Registry → Store → Provisioning
  unfolding request_for get_template
  handle_provision message load_fails st store =
      on_message message (head? st.instance_ports) load_fails store
