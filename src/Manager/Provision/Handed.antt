-- ===== src/Manager/Provision/Handed.antt =====
-- What the manager's /provision (manager/src/main.rs) asks for is what the worker reads
-- (worker/src/lib.rs).
use llm_chat.Prelude.{
  ℕ, ◌<◌, ◌^◌, ◌≡◌, ◌⊎◌, refl, Text, true, Option, none, some, List, [], ◌∷◌, lit, pos, map, ltb,
  is_empty, unwrap_or, head?, Result, ok, err, Bool-cases, inl, inr, arith,
}
use llm_chat.Json.{Json, items, get_str, as_str}
use llm_chat.Manager.Sessions.{Registry}
use llm_chat.Manager.Templates.{Store, TemplateRecord, get_template}
use llm_chat.Manager.Provision.Filled.{IsFilledIn, substitute_vars-IsFilledIn}
use llm_chat.Manager.Provision.{
  file_json, option_str, sent_to, with_entries, with_template, loaded, TemplateEntry, TemplateVars,
  Caller, Provisioning, build_provision_request, files_json, request_for, vars_for,
  handle_provision,
}
use llm_chat.Worker.UserEnv.{SeedEntry}
use llm_chat.Worker.Provisioning.{provision_args, seed_entry}

-- The entries as the worker reads them are those of the template, in order, each with its path and
-- kind, and with the values filled in its content.
pub data AllFilled (name user_id app date : Text)
    : List TemplateEntry → List SeedEntry → Type 0 where
  none_left : AllFilled name user_id app date [] []
  one_more :
      (e : TemplateEntry) (s : SeedEntry) (es : List TemplateEntry) (ss : List SeedEntry)
      → s.path ≡ e.path
      → s.dir ≡ e.dir
      → IsFilledIn name user_id app date e.content s.content
      → AllFilled name user_id app date es ss
      → AllFilled name user_id app date (e ∷ es) (s ∷ ss)

files-AllFilled :
    (v : TemplateVars) (es : List TemplateEntry)
    → AllFilled v.name v.user_id v.app v.date es (map seed_entry (items (files_json v es)))
unfolding files_json seed_entry lit
files-AllFilled v [] = none_left
files-AllFilled v (e ∷ es) =
    one_more e (seed_entry (file_json v e)) es (map seed_entry (items (files_json v es))) refl refl
      (substitute_vars-IsFilledIn e.content v) (files-AllFilled v es)

as_str-option_str : (o : Option Text) → as_str (option_str o) ≡ o
as_str-option_str none = refl
as_str-option_str (some t) = refl

module _ (parse_template : Text → Result (List TemplateEntry) Text)
    (call_backend : ℕ → Json → Result Json Text) (c : Caller) where
  request-read :
      (app : Text) (rec : TemplateRecord) (entries : List TemplateEntry)
      → rec.version < 2 ^ 63
      → provision_args (request_for parse_template call_backend c app rec entries) ≡ record {
        user_id = c.user_id;
        app = app;
        version = pos rec.version;
        instructions = rec.migrate_instructions;
        entries =
            map seed_entry
              (items (files_json (vars_for parse_template call_backend c app) entries));
      }
  unfolding provision_args request_for build_provision_request lit
  request-read app rec entries h =
      let small : ltb rec.version (2 ^ 63) ≡ true = ground arith in
      rw (small, as_str-option_str rec.migrate_instructions) refl

  -- The worker on the first port was asked, and what it reads from the request is the caller's: the
  -- user is the connection's, the version and the instructions are those of the app's template, and
  -- its entries have the caller's values filled in.
  pub record IsHanded (message : Result Json Text) (st : Registry) (store : Store) (port : ℕ)
      (request : Json) : Type 0 where
    pub app : Text
    pub template : TemplateRecord
    pub entries : List TemplateEntry
    pub v : Json
    pub parsed : message ≡ ok v
    pub named : unwrap_or (get_str v (lit "app")) [] ≡ app
    pub first : head? st.instance_ports ≡ some port
    pub stored : get_template app store ≡ some template
    pub shaped : parse_template template.template_json ≡ ok entries
    pub seeds : List SeedEntry
    pub read : provision_args request ≡ record {
      user_id = c.user_id;
      app = app;
      version = pos template.version;
      instructions = template.migrate_instructions;
      entries = seeds;
    }
    pub filled : AllFilled (unwrap_or c.label c.user_id) c.user_id app c.date entries seeds

  module _ (st : Registry) (store : Store)
      (small : (app : Text) (rec : TemplateRecord)
        → get_template app store ≡ some rec
        → rec.version < 2 ^ 63)
      (v : Json) (load_fails : Option Text) where
    abbrev app_of : Text
    app_of = unwrap_or (get_str v (lit "app")) []

    -- Why no worker can be asked.
    pub data IsBlocked : Type 0 where
      no_app : is_empty app_of ≡ true → IsBlocked
      load_failed : (e : Text) → load_fails ≡ some e → IsBlocked
      no_template : get_template app_of store ≡ none → IsBlocked
      bad_template :
          (rec : TemplateRecord) (e : Text)
          → get_template app_of store ≡ some rec
          → parse_template rec.template_json ≡ err e
          → IsBlocked
      no_worker : head? st.instance_ports ≡ none → IsBlocked

    abbrev pub Outcome : Provisioning → Type 0
    Outcome p =
        ((p.request ≡ none) × IsBlocked)
        ⊎ ((port : ℕ) × (request : Json) × (p.request ≡ some (port, request))
            × IsHanded (ok v) st store port request)

    sent_to-Outcome :
        (rec : TemplateRecord) (entries : List TemplateEntry) (port : Option ℕ)
        → get_template app_of store ≡ some rec
        → parse_template rec.template_json ≡ ok entries
        → head? st.instance_ports ≡ port
        → Outcome (sent_to parse_template call_backend c app_of rec entries port)
    sent_to-Outcome rec entries none g s f = inl (refl, no_worker f)
    sent_to-Outcome rec entries (some port) g s f = inr (
      port,
      _,
      refl,
      record {
        app = app_of;
        template = rec;
        entries = entries;
        v = v;
        parsed = refl;
        named = refl;
        first = f;
        stored = g;
        shaped = s;
        seeds = _;
        read = request-read app_of rec entries (small app_of rec g);
        filled = files-AllFilled (vars_for parse_template call_backend c app_of) entries;
      },
    )

    with_entries-Outcome :
        (rec : TemplateRecord) (r : Result (List TemplateEntry) Text)
        → get_template app_of store ≡ some rec
        → parse_template rec.template_json ≡ r
        → Outcome
            (with_entries parse_template call_backend c app_of (head? st.instance_ports) rec r)
    with_entries-Outcome rec (err e) g s = inl (refl, bad_template rec e g s)
    with_entries-Outcome rec (ok entries) g s =
        sent_to-Outcome rec entries (head? st.instance_ports) g s refl

    with_template-Outcome :
        (o : Option TemplateRecord)
        → get_template app_of store ≡ o
        → Outcome (with_template parse_template call_backend c app_of (head? st.instance_ports) o)
    with_template-Outcome none g = inl (refl, no_template g)
    with_template-Outcome (some rec) g =
        with_entries-Outcome rec (parse_template rec.template_json) g refl

    loaded-Outcome :
        (fails : Option Text)
        → load_fails ≡ fails
        → Outcome
            (loaded parse_template call_backend c app_of (head? st.instance_ports) fails store)
    loaded-Outcome (some e) h = inl (refl, load_failed e h)
    loaded-Outcome none h = with_template-Outcome _ refl

    -- When the templates' versions fit an i64, a /provision message asks no worker for anything, and
    -- then it names no app, the app's template cannot be loaded, is missing or has another shape, or
    -- there is no worker; or it asks the first worker, and what that reads from the request is the user
    -- of the connection, the app that the message names, and the entries of the app's template, in whose
    -- contents the name, the user id, the app and the day have replaced their placeholders, one
    -- placeholder after the other: the name is the caller's label, or its id if it has none.
    pub handle_provision-Outcome :
        Outcome (handle_provision parse_template call_backend c (ok v) load_fails st store)
    unfolding handle_provision
    handle_provision-Outcome = elim (Bool-cases (is_empty app_of)) [
      | inl y ↦ rw y (inl (refl, no_app y))
      | inr n ↦ rw n (loaded-Outcome load_fails refl)
    ]
