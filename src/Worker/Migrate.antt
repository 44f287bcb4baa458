-- ===== src/Worker/Migrate.antt =====
-- The one-shot migration of a sandbox (worker/src/migrate.rs): the manifest and the prompt that
-- claude is given, and the verdict on what it prints. Starting the process, its pipes, the watchdog
-- that kills it and serde_json are parameters.
pub mod Verdict
use llm_chat.Prelude.{
  ℕ, Text, Bool, true, false, ◌||◌, not, Option, none, some, List, [], ◌∷◌, ◌++◌, lit, split, trim,
  is_empty, text_eq, unwrap_or, ◌==◌, Result, ok, err, if◌then◌else◌,
}
use llm_chat.Json.{Json, get_str, get_bool}
use llm_chat.Worker.UserEnv.{SeedEntry}

-- Without one `\r` at the end.
abbrev chomp_return : Text → Text
chomp_return [] = []
chomp_return (c ∷ []) = if c == b'\r' then [] else c ∷ []
chomp_return (c ∷ d ∷ s) = c ∷ chomp_return (d ∷ s)

-- The parts between line feeds; what comes after the last one is a line if it is not empty.
abbrev ended_lines : List Text → List Text
ended_lines [] = []
ended_lines (p ∷ []) = if is_empty p then [] else p ∷ []
ended_lines (p ∷ q ∷ ps) = chomp_return p ∷ ended_lines (q ∷ ps)

-- `s.lines()`
unfoldable pub lines : Text → List Text
unfolding split
lines s = ended_lines (split b'\n' s)

abbrev indented : List Text → Text
indented [] = []
indented (l ∷ ls) = lit "  " ++ (l ++ b'\n' ∷ indented ls)

abbrev manifest_entry : SeedEntry → Text
manifest_entry e =
    if e.dir
    then lit "- DIR  " ++ (e.path ++ b'\n' ∷ [])
    else lit "- FILE "
      ++ (e.path
          ++ (lit "\n  ----- desired content -----\n"
              ++ (indented (lines e.content) ++ lit "  ----- end -----\n")))

abbrev manifest_entries : List SeedEntry → Text
manifest_entries [] = []
manifest_entries (e ∷ es) = manifest_entry e ++ manifest_entries es

unfoldable pub render_manifest : List SeedEntry → Text
unfolding lines
render_manifest entries =
    let out = manifest_entries entries in if is_empty out then lit "(empty template)\n" else out

unfoldable pub migration_prompt : (instructions manifest : Text) → Text
migration_prompt instructions manifest =
    lit "You are migrating the current working directory (a user's app sandbox) "
    ++ (lit "to a new template version. Apply ONLY the migration described below. Do not "
        ++ (lit "touch hidden files under .llm-chat/. Be idempotent: if the change is already "
            ++ (lit "applied, make no edits.\n\n"
                ++ (lit "=== MIGRATION INSTRUCTIONS ===\n"
                    ++ (instructions
                        ++ (lit "\n\n=== DESIRED TEMPLATE (target layout) ===\n"
                            ++ (manifest ++ lit "\n=== END ===\n\nPerform the migration now.")))))))

-- What a read of the process' output gives.
pub data Read : Type 0 where
  line : Text → Read
  unreadable : Read

-- How the process starts: what fails first, or what is read of its output until it ends, by itself or
-- because the watchdog killed it.
pub data Started : Type 0 where
  no_stdin no_stdout : Started
  spawn_fails write_fails flush_fails : Text → Started
  prints : List Read → (killed : Bool) → Started

module _ (from_str : Text → Option Json) where
  abbrev result_of : Option Json → Option Bool
  result_of none = none
  result_of (some v) =
      if text_eq (unwrap_or (get_str v (lit "type")) []) (lit "result")
      then some (
          text_eq (unwrap_or (get_str v (lit "subtype")) []) (lit "success")
          || not (unwrap_or (get_bool v (lit "is_error")) true))
      else none

  unfoldable pub migration_result_ok : Text → Option Bool
  migration_result_ok l = result_of (from_str l)

  abbrev newer : Option Bool → Option Bool → Option Bool
  newer none result = result
  newer (some b) result = some b

  abbrev pub line_result : Text → Option Bool → Option Bool
  line_result l result = if is_empty (trim l) then result else newer (migration_result_ok l) result

  -- The loop over the lines breaks off at one that cannot be read.
  unfoldable pub read_results : List Read → Option Bool → Option Bool
  unfolding migration_result_ok
  read_results [] result = result
  read_results (unreadable ∷ reads) result = result
  read_results (line l ∷ reads) result = read_results reads (line_result l result)

  abbrev pub verdict : Option Bool → Result (Unit {0}) Text
  verdict (some true) = ok tt
  verdict (some false) = err (lit "claude reported a failed result")
  verdict none = err (lit "claude produced no result event (killed or crashed)")

  unfoldable pub run_box_migration : Started → Result (Unit {0}) Text
  unfolding read_results
  run_box_migration (spawn_fails e) = err (lit "spawn claude (migrate): " ++ e)
  run_box_migration no_stdin = err (lit "no child stdin")
  run_box_migration (write_fails e) = err (lit "write stdin: " ++ e)
  run_box_migration (flush_fails e) = err (lit "flush stdin: " ++ e)
  run_box_migration no_stdout = err (lit "no child stdout")
  run_box_migration (prints reads killed) = verdict (read_results reads none)
