-- ===== src/Tests/Templates.antt =====
-- An operator publishes a new version of an app's template.
use llm_chat.Prelude.{some, Text, true, Option, none, [], ◌∷◌, lit}
use llm_chat.Json.{Json, null, bool, str, obj, field, end}
use llm_chat.Manager.Templates.{Store, set_template}
use llm_chat.Manager.Templates.Versions.{IsOutcome, set_template-IsOutcome}

abbrev pub store : Store
store =
    (
      lit "notes",
      record {
        template_json = lit "[]";
        version = 3;
        migrate_instructions = none;
        updated_at = [];
      },
    )
    ∷ []

abbrev command : Json
command = obj (
    field (lit "appCode") (str (lit "notes")) (
      field (lit "template") null (
        field (lit "publish") (bool true)
          (field (lit "migrateInstructions") (str (lit "move the files")) end))))

abbrev pub as_text : Json → Text
as_text v = lit "[]"

abbrev pub well_formed : Text → Option Text
well_formed json = none

-- Another operator publishes a template of another app meanwhile.
abbrev other_published : Store → Store
other_published rows =
    (
      lit "tasks",
      record {
        template_json = lit "[]";
        version = 1;
        migrate_instructions = some (lit "new");
        updated_at = [];
      },
    )
    ∷ rows

set_template-IsOutcome_example :
    IsOutcome well_formed none none true
      (some (lit "move the files"))
      (some (lit "notes"))
      (some (lit "[]"))
      (lit "now")
      store
      (other_published store)
      (set_template as_text well_formed (lit "now") none none other_published command store)
unfolding lit
set_template-IsOutcome_example =
    set_template-IsOutcome as_text well_formed (lit "now") none none other_published command store
