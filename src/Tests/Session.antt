-- ===== src/Tests/Session.antt =====
-- A session of the worker: two answers, a question, a migration and a log.
use llm_chat.Prelude.{
  ℕ, ◌≡◌, ◌↔◌, refl, Text, true, false, Option, none, some, List, [], ◌∷◌, lit, map, find, ok,
}
use llm_chat.Json.{Json, str, obj, field, end}
use llm_chat.Manager.Qa.{flush}
use llm_chat.Worker.RichLevel.{turn}
use llm_chat.Worker.Session.{Happening, printed, typed, spawned, run}
use llm_chat.Worker.Session.Payloads.{answers, reactions, reactions-run}
use llm_chat.Worker.Session.Numbers.{IsCounted, run-IsCounted}
use llm_chat.Worker.Session.Framing.{Utf8, working, write_all, IsAsked, write_all-submit}
use llm_chat.Worker.Migrate.{Read, prints, run_box_migration}
use llm_chat.Worker.Migrate.Verdict.{EndsWell, readable, run_box_migration_iff}
use llm_chat.Worker.PtyInput.{PtyDb, FrameMoment, session_frame}
use llm_chat.Worker.PtyInput.Audited.{IsNumbered, audited, takes, session_frame-audited}
use llm_chat.Manager.Reader.{submit}
use llm_chat.Manager.Pairing.{initial}
use llm_chat.Tests.Reader.{idle, connection, moment, silent, paths_text}

-- Every line is a successful result.
abbrev pub parsed : Text → Option Json
parsed line = some (
    obj (
      field (lit "type") (str (lit "result"))
        (field (lit "subtype") (str (lit "success")) (field (lit "result") (str line) end))))

abbrev no_float : Json → Option Text
no_float v = none

abbrev pub printed_json : Json → Text
printed_json v = lit "{}"

abbrev pub same_bytes : List ℕ → Text
same_bytes bytes = bytes

abbrev pub happenings : List Happening
happenings =
    printed (lit "a") ∷ typed working (lit "hi") ∷ printed (lit " ") ∷ printed (lit "b") ∷ []

reactions-run_example :
    reactions
      (run no_float parsed turn (lit "s1") printed_json same_bytes happenings spawned).1
      idle
    ≡ (idle, map (λ t. flush t) (answers parsed happenings))
reactions-run_example =
    reactions-run parsed no_float turn (lit "s1") printed_json same_bytes idle happenings spawned

run-IsCounted_example :
    IsCounted
      (answers parsed happenings)
      spawned
      (run no_float parsed turn (lit "s1") printed_json same_bytes happenings spawned)
run-IsCounted_example =
    run-IsCounted parsed no_float turn (lit "s1") printed_json same_bytes happenings spawned

abbrev ascii : Utf8
ascii = record {
  into_bytes = λ t. t;
  from_utf8_lossy = λ bytes. bytes;
  decoded = λ t. refl;
  no_enter = λ t h. h;
  nonempty = λ t. refl;
  enter = refl;
}

write_all-submit_example : IsAsked ascii printed_json (104 ∷ 105 ∷ []) spawned (
    write_all ascii printed_json
      (submit paths_text silent connection moment [] initial.db
        (lit "q1")
        (104 ∷ 105 ∷ [])
        initial.db
        1).typed
      spawned)
write_all-submit_example =
    write_all-submit ascii printed_json paths_text silent connection moment [] initial.db initial.db
      (lit "q1") 1 refl refl (104 ∷ 105 ∷ []) spawned refl refl refl

abbrev two_reads : List Read
two_reads = Read.line (lit "a") ∷ Read.unreadable ∷ Read.line (lit "b") ∷ []

run_box_migration_iff_example :
    (run_box_migration parsed (prints two_reads true) ≡ ok tt)
    ↔ EndsWell parsed (readable two_reads)
run_box_migration_iff_example = run_box_migration_iff parsed two_reads true

abbrev frame_moment : FrameMoment
frame_moment = record {
  insert_fails = false;
  update_fails = false;
  time_in = [];
  time_written = [];
  pipe = working;
}

abbrev empty_log : PtyDb
empty_log = record { rows = []; next = 1 }

session_frame-audited_example :
    ((session_frame printed_json same_bytes frame_moment
        (lit "s1")
        (104 ∷ [])
        ([], some empty_log)).1
      ≡ some (
          audited frame_moment
            (lit "s1")
            (104 ∷ [])
            (takes printed_json same_bytes working (104 ∷ []) (find (lit "s1") []))
            empty_log))
    × IsNumbered (
        audited frame_moment
          (lit "s1")
          (104 ∷ [])
          (takes printed_json same_bytes working (104 ∷ []) (find (lit "s1") []))
          empty_log)
session_frame-audited_example =
    session_frame-audited printed_json same_bytes frame_moment (lit "s1") (104 ∷ []) [] empty_log
      refl refl tt
