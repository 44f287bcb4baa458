-- ===== src/Tests/Provision.antt =====
-- A user opens an app, whose template has a greeting.
use llm_chat.Prelude.{
  ℕ, ◌<◌, ◌^◌, ◌≡◌, refl, sym, ap, ◌∙◌, Text, false, true, Option, none, some, List, [], ◌∷◌, lit,
  Result, ok, Bool-cases, inl, inr, arith, text_eq, strip_prefix, if◌then◌else◌,
}
use mathlib.Core.Path.{subst}
use llm_chat.Json.{Json, bool, str, obj, field, end}
use llm_chat.Manager.Sessions.{Registry}
use llm_chat.Manager.Templates.{Store, TemplateRecord, get_template}
use llm_chat.Manager.Provision.{
  TemplateEntry, Caller, substitute_vars, replace, replace_from, handle_provision,
}
use llm_chat.Manager.Provision.Handed.{Outcome, handle_provision-Outcome}

abbrev notes : TemplateRecord
notes = record {
  template_json = lit "[..]";
  version = 3;
  migrate_instructions = none;
  updated_at = [];
}

abbrev store : Store
store = (lit "notes", notes) ∷ []

abbrev greeting : TemplateEntry
greeting = record {
  path = lit "README.md";
  dir = false;
  content = lit "Hi {{name}}, {{x}} {{app}}";
}

abbrev parse : Text → Result (List TemplateEntry) Text
parse json = ok (greeting ∷ [])

abbrev accepted : ℕ → Json → Result Json Text
accepted port request = ok (obj (field (lit "ok") (bool true) end))

abbrev caller : Caller
caller = record { user_id = lit "u1"; label = some (lit "Ann"); date = lit "2026-01-02" }

abbrev registry : Registry
registry = record {
  instance_ports = 9001 ∷ [];
  session_to_port = [];
  session_to_owner = [];
  clients = [];
}

abbrev message : Json
message = obj (field (lit "app") (str (lit "notes")) end)

greeting_filled :
    substitute_vars greeting.content
      (record { name = lit "Ann"; user_id = lit "u1"; app = lit "notes"; date = lit "2026-01-02" })
    ≡ lit "Hi Ann, {{x}} notes"
unfolding substitute_vars replace replace_from lit strip_prefix
greeting_filled = refl

abbrev version_of : Option TemplateRecord → ℕ
version_of none = 0
version_of (some rec) = rec.version

small :
    (app : Text) (rec : TemplateRecord) → get_template app store ≡ some rec → rec.version < 2 ^ 63
unfolding get_template
small app rec h = elim (Bool-cases (text_eq (lit "notes") app)) [
  | inl y ↦
      subst (λ o. version_of o < 2 ^ 63) (sym (ap (λ b. if b then some notes else none) y) ∙ h)
        (omega arith)
  | inr n ↦
      subst (λ o. version_of o < 2 ^ 63) (sym (ap (λ b. if b then some notes else none) n) ∙ h)
        (omega arith)
]

handle_provision-Outcome_example :
    Outcome parse accepted caller registry store small message none
      (handle_provision parse accepted caller (ok message) none registry store)
handle_provision-Outcome_example =
    handle_provision-Outcome parse accepted caller registry store small message none
