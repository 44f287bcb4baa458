-- ===== src/Manager/Templates/Versions.antt =====
-- The versions that the templates of an app go through.
use llm_chat.Prelude.{
  ok-injective, err_ne_ok, ◌∷◌, ℕ, ◌+◌, ◌⊎◌, ◌≡◌, ◌≢◌, refl, sym, ap, ◌∙◌, Text, Bool, true, false,
  Option, none, some, [], lit, find-insert, text_eq_iff, text_eq_refl, is_empty, trim, unwrap_or,
  Result, ok, err, arith, Bool-cases, inl, inr,
}
use mathlib.Core.Path.{subst}
use mathlib.Core.Option.{some-injective}
use llm_chat.Json.{get, get_bool, Json, get_str, get_bool}
use llm_chat.Manager.Templates.{
  filled, TemplateRecord, Store, resolve_set, get_template, upsert_template, version_of,
  instructions_of, Reply, saved, decided, checked, with_args, set_template,
}

-- The step from the row of an app, as it was loaded if there was one, to the new row. With the flag
-- it is a publication, which counts the version up and takes the given instructions, trimmed and not
-- blank; without it an edit, which keeps the version, 1 for a new app, and the instructions.
pub data IsStep (publish : Bool) (given : Option Text) (before : Option TemplateRecord)
    (version : ℕ) (instr : Option Text) : Type 0 where
  publication :
      (publish ≡ true)
      → (version ≡ unwrap_or (version_of before) 0 + 1)
      → (text : Text) → (given ≡ some text)
      → (instr ≡ some (trim text))
      → (trim text ≢ [])
      → IsStep publish given before version instr
  edit :
      (publish ≡ false)
      → (version ≡ unwrap_or (version_of before) 1)
      → (instr ≡ instructions_of before)
      → IsStep publish given before version instr

-- What a success leaves behind, of the table that was loaded and the one that the other tasks left:
-- the row of the app is a step from the loaded one, and the other rows are as the others left them.
pub record IsChange (publish : Bool) (given : Option Text) (store mid after : Store) (code : Text)
    (version : ℕ) (now : Text) (json : Option Text) : Type 0 where
  pub row : TemplateRecord
  pub stored : get_template code after ≡ some row
  pub content : json ≡ some row.template_json
  pub dated : row.updated_at ≡ now
  pub numbered : row.version ≡ version
  pub is_step : IsStep publish given (get_template code store) version row.migrate_instructions
  pub others : (other : Text) → code ≢ other → get_template other after ≡ get_template other mid

-- The template as it is stored.
abbrev pub printed : (Json → Text) → Option Json → Option Text
printed to_string none = none
printed to_string (some v) = some (to_string v)

-- Instructions that leave nothing when they are trimmed, or none.
abbrev IsBlank : Option Text → Type 0
IsBlank given = (text : Text) → (given ≡ some text) → trim text ≡ []

-- What refuses a command before anything is saved: there is no app code or no template, the template
-- is ill-formed, the query fails, or a publication has no instructions.
pub data IsRefusable (shape_error : Text → Option Text) (load_fails : Option Text) (publish : Bool)
    (given code_arg json_arg : Option Text) : Type 0 where
  no_code : (code_arg ≡ none) → IsRefusable shape_error load_fails publish given code_arg json_arg
  no_template :
      (json_arg ≡ none) → IsRefusable shape_error load_fails publish given code_arg json_arg
  ill_formed :
      (json e : Text)
      → (json_arg ≡ some json)
      → (shape_error json ≡ some e)
      → IsRefusable shape_error load_fails publish given code_arg json_arg
  not_loaded :
      (e : Text)
      → (load_fails ≡ some e)
      → IsRefusable shape_error load_fails publish given code_arg json_arg
  no_instructions :
      (publish ≡ true)
      → IsBlank given
      → IsRefusable shape_error load_fails publish given code_arg json_arg

-- An error has its reason, and the row of the app that a success names takes the command's template.
unfoldable pub IsOutcome :
    (shape_error : Text → Option Text) (load_fails save_fails : Option Text)
    → Bool
    → Option Text
    → Option Text
    → Option Text
    → Text
    → Store
    → Store
    → Reply × Store
    → Type 0
IsOutcome shape_error load_fails save_fails publish given code_arg json_arg time store mid
      (err e, after) =
    (IsRefusable shape_error load_fails publish given code_arg json_arg × (after ≡ store))
    ⊎ ((e : Text) × (save_fails ≡ some e) × (after ≡ mid))
IsOutcome shape_error load_fails save_fails publish given code_arg json_arg time store mid
      (ok (code, version, now), after) =
    (code_arg ≡ some code)
    × (now ≡ time)
    × IsChange publish given store mid after code version now json_arg

resolve_set-IsStep :
    (before : Option TemplateRecord) (publish : Bool) (text : Option Text) (v : ℕ)
    (instr : Option Text)
    → resolve_set (version_of before) (instructions_of before) publish text ≡ ok (v, instr)
    → IsStep publish text before v instr
unfolding resolve_set
resolve_set-IsStep before false text v instr h =
    let e = ok-injective h in edit refl (sym (ap (λ p. p.0) e)) (sym (ap (λ p. p.1) e))
resolve_set-IsStep before true none v instr h = absurd (err_ne_ok h)
resolve_set-IsStep before true (some s) v instr h = elim (Bool-cases (is_empty (trim s))) [
  | inl y ↦ absurd (err_ne_ok (rw (y, resolve_set) at h))
  | inr n ↦
      let e = ok-injective (rw (n, resolve_set) at h) in
      publication refl (sym (ap (λ p. p.0) e)) s refl (sym (ap (λ p. p.1) e))
        (filled_text (trim s) n)
]
  where
    filled_text : (t : Text) → is_empty t ≡ false → t ≢ []
    filled_text t h e = cc (h, ap is_empty e)

resolve_set-err :
    (version : Option ℕ) (instr : Option Text) (publish : Bool) (text : Option Text) (e : Text)
    → resolve_set version instr publish text ≡ err e
    → (publish ≡ true) × IsBlank text
unfolding resolve_set
resolve_set-err version instr false text e h = absurd (err_ne_ok (sym h))
resolve_set-err version instr true none e h = (refl, λ t k. cc k)
resolve_set-err version instr true (some s) e h = elim (Bool-cases (is_empty (trim s))) [
  | inl y ↦ (refl, λ t k. subst (λ x. trim x ≡ []) (some-injective _ _ k) (empty_text (trim s) y))
  | inr n ↦ absurd (err_ne_ok (sym (rw (n, resolve_set) at h)))
]
  where
    empty_text : (t : Text) → is_empty t ≡ true → t ≡ []
    empty_text [] h = refl
    empty_text (c ∷ t) h = cc h

stored-IsChange :
    (publish : Bool) (given : Option Text) (store mid : Store) (code : Text) (r : TemplateRecord)
    → IsStep publish given (get_template code store) r.version r.migrate_instructions
    → IsChange publish given store mid
        (upsert_template code r mid)
        code
        r.version
        r.updated_at
        (some r.template_json)
unfolding get_template upsert_template
stored-IsChange publish given store mid code r h = record {
  row = r;
  stored = find-insert code code r mid ∙ rw (text_eq_refl code) refl;
  content = refl;
  dated = refl;
  numbered = refl;
  is_step = h;
  others = λ other ne. find-insert code other r mid ∙ ground (arith, text_eq_iff code other);
}

module _ (to_string : Json → Text) (shape_error : Text → Option Text) (now : Text)
    (load_fails save_fails : Option Text) (meanwhile : Store → Store) where
  module _ (publish : Bool) (given : Option Text) where
    saved-IsOutcome :
        (code json : Text) (fails : Option Text) (r : Result (ℕ × Option Text) Text) (store : Store)
        → ((v : ℕ)
            → (instr : Option Text) → r ≡ ok (v, instr)
            → IsStep publish given (get_template code store) v instr)
        → ((e : Text) → r ≡ err e → (publish ≡ true) × IsBlank given)
        → save_fails ≡ fails
        → IsOutcome shape_error load_fails save_fails publish given
            (some code)
            (some json)
            now
            store
            (meanwhile store)
            (saved to_string shape_error now load_fails save_fails meanwhile code json fails r
              store)
    unfolding IsOutcome
    saved-IsOutcome code json fails (err e) store f g k =
        let (p, b) = g e refl in inl (no_instructions p b, refl)
    saved-IsOutcome code json (some e) (ok (v, instr)) store f g k = inr (e, k, refl)
    saved-IsOutcome code json none (ok (v, instr)) store f g k = (
      refl,
      refl,
      stored-IsChange publish given store (meanwhile store) code
          (record {
            template_json = json;
            version = v;
            migrate_instructions = instr;
            updated_at = now;
          })
          (f v instr refl),
    )

  module _ (req : Json) where
    -- The outcome for a command with these arguments.
    abbrev Ends : Option Text → Option Text → Store → Reply × Store → Type 0
    Ends code json store o =
        IsOutcome shape_error load_fails save_fails (unwrap_or (get_bool req (lit "publish")) false)
          (get_str req (lit "migrateInstructions")) code json now store (meanwhile store) o

    decided-IsOutcome :
        (code json : Text) (fails : Option Text) (store : Store)
        → load_fails ≡ fails
        → Ends (some code) (some json) store (
            decided to_string shape_error now load_fails save_fails meanwhile req code json fails
              store)
    decided-IsOutcome code json (some e) store k = unfold IsOutcome in (inl (not_loaded e k, refl))
    decided-IsOutcome code json none store k =
        saved-IsOutcome _ _ code json save_fails _ store
          (resolve_set-IsStep (get_template code store)
            (unwrap_or (get_bool req (lit "publish")) false)
            (get_str req (lit "migrateInstructions")))
          (resolve_set-err _ _ _ _) refl

    checked-IsOutcome :
        (code json : Text) (shape : Option Text) (store : Store)
        → shape_error json ≡ shape
        → Ends (some code) (some json) store (
            checked to_string shape_error now load_fails save_fails meanwhile req code json shape
              store)
    checked-IsOutcome code json (some e) store k =
        unfold IsOutcome in (inl (ill_formed json e refl k, refl))
    checked-IsOutcome code json none store k = decided-IsOutcome code json load_fails store refl

    with_args-IsOutcome :
        (code : Option Text) (template : Option Json) (store : Store)
        → Ends code (printed to_string template) store (
            with_args to_string shape_error now load_fails save_fails meanwhile req code template
              store)
    with_args-IsOutcome none template store = unfold IsOutcome in (inl (no_code refl, refl))
    with_args-IsOutcome (some code) none store = unfold IsOutcome in (inl (no_template refl, refl))
    with_args-IsOutcome (some code) (some template) store =
        checked-IsOutcome code (to_string template) _ store refl

    -- A `set-template` command answers with an error only if its app code is missing or empty, if
    -- its template is missing or ill-formed, if it is to publish and has no instructions but
    -- blanks, or if a query fails; the table is then as it was, or, when saving failed, as other
    -- tasks left it meanwhile. One that succeeds changes only the row of the app that it names,
    -- which takes its template: with the flag `publish`, the version is the loaded one plus one, or
    -- 1 for a new app, and the instructions are those given, trimmed and not blank; without it, the
    -- version is the loaded one, or 1 for a new app, and the instructions are the loaded ones.
    pub set_template-IsOutcome :
        (store : Store)
        → IsOutcome shape_error load_fails save_fails
            (unwrap_or (get_bool req (lit "publish")) false)
            (get_str req (lit "migrateInstructions"))
            (filled (get_str req (lit "appCode")))
            (printed to_string (get req (lit "template")))
            now
            store
            (meanwhile store)
            (set_template to_string shape_error now load_fails save_fails meanwhile req store)
    unfolding set_template
    set_template-IsOutcome store = with_args-IsOutcome _ _ store
