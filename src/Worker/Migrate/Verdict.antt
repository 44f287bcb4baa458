-- ===== src/Worker/Migrate/Verdict.antt =====
-- The verdict of a migration (worker/src/migrate.rs) and the success rule of a session's reader
-- (worker/src/lib.rs).
use llm_chat.Prelude.{
  ◌≡◌, ◌↔◌, ◌⊎◌, All, refl, ap, ◌∙◌, Text, Bool, true, false, Option, none, some, List, [], ◌∷◌,
  ◌++◌, trim, is_empty, length, ok, if◌then◌else◌, Bool-cases, Option-cases, sym, inl, inr, arith,
}
use llm_chat.Json.{Json}
use llm_chat.Worker.Session.{printed, is_success}
use llm_chat.Worker.Session.Payloads.{answers_in, answer_of}
use llm_chat.Worker.Migrate.{
  Read, prints, migration_result_ok, result_of, newer, line_result, read_results, verdict,
  run_box_migration,
}

-- The lines up to the first that cannot be read.
abbrev pub readable : List Read → List Text
readable [] = []
readable (Read.unreadable ∷ reads) = []
readable (Read.line l ∷ reads) = l ∷ readable reads

module _ (from_str : Text → Option Json) where
  read_lines : List Text → Option Bool → Option Bool
  read_lines [] result = result
  read_lines (l ∷ ls) result = read_lines ls (line_result from_str l result)

  read_results-readable :
      (reads : List Read) (r : Option Bool)
      → read_results from_str reads r ≡ read_lines (readable reads) r
  unfolding read_results read_lines
  read_results-readable [] r = refl
  read_results-readable (Read.unreadable ∷ reads) r = refl
  read_results-readable (Read.line l ∷ reads) r =
      read_results-readable reads (line_result from_str l r)

  -- What a line says of the migration.
  abbrev said : Text → Option Bool
  said line = if is_empty (trim line) then none else migration_result_ok from_str line

  -- The last result among the lines is one that a session's reader would send as an answer.
  pub record EndsWell (ls : List Text) : Type 0 where
    pub before : List Text
    pub line : Text
    pub after : List Text
    pub split : ls ≡ before ++ line ∷ after
    pub answered : length (answers_in from_str (printed line)) ≡ 1
    pub no_other : All (λ l. said l ≡ none) after

  line_result-newer :
      (line : Text) (r : Option Bool) → line_result from_str line r ≡ newer from_str (said line) r
  line_result-newer line r = elim (Bool-cases (is_empty (trim line))) [
    | inl t ↦ rw t refl
    | inr f ↦ rw f refl
  ]

  line_result-eq :
      (line : Text) (r o : Option Bool)
      → said line ≡ o
      → line_result from_str line r ≡ newer from_str o r
  line_result-eq line r o e = line_result-newer line r ∙ ap (λ x. newer from_str x r) e

  answer_of_iff :
      (o : Option Json) → (length (answer_of from_str o) ≡ 1) ↔ (result_of from_str o ≡ some true)
  unfolding is_success
  answer_of_iff none = ground arith
  answer_of_iff (some v) = ground arith

  answers_in_iff :
      (line : Text) → (length (answers_in from_str (printed line)) ≡ 1) ↔ (said line ≡ some true)
  unfolding migration_result_ok
  answers_in_iff line = elim (Bool-cases (is_empty (trim line))) [
    | inl t ↦ rw t (ground arith)
    | inr f ↦ rw f (answer_of_iff (from_str line))
  ]

  after_result :
      (r : Option Bool) (ls : List Text) → All (λ l. said l ≡ none) ls → read_lines ls r ≡ r
  unfolding read_lines
  after_result r [] h = refl
  after_result r (l ∷ ls) (e, h) = rw (line_result-newer l r, e) (after_result r ls h)

  ends_well :
      (before : List Text) (line : Text) (after : List Text) (r : Option Bool)
      → said line ≡ some true
      → All (λ l. said l ≡ none) after
      → read_lines (before ++ line ∷ after) r ≡ some true
  unfolding read_lines
  ends_well [] line after r e h =
      ap (λ x. read_lines after x) (line_result-eq line r (some true) e)
      ∙ after_result (some true) after h
  ends_well (l ∷ before) line after r e h =
      ends_well before line after (line_result from_str l r) e h

  earlier : (l : Text) (ls : List Text) → EndsWell ls → EndsWell (l ∷ ls)
  earlier l ls w = record {
    before = l ∷ w.before;
    line = w.line;
    after = w.after;
    split = ap (λ x. l ∷ x) w.split;
    answered = w.answered;
    no_other = w.no_other;
  }

  last_result :
      (ls : List Text) (r : Option Bool)
      → read_lines ls r ≡ some true
      → EndsWell ls ⊎ ((r ≡ some true) × All (λ l. said l ≡ none) ls)
  unfolding read_lines
  last_result [] r h = inr (h, tt)
  last_result (l ∷ ls) r h = elim (last_result ls (line_result from_str l r) h) [
    | inl w ↦ inl (earlier l ls w)
    | inr (e, others) ↦ elim (Option-cases (said l)) [
      | inl n ↦ inr (sym (line_result-eq l r none n) ∙ e, (n, others))
      | inr (b, q) ↦ inl (record {
        before = [];
        line = l;
        after = ls;
        split = refl;
        answered = (answers_in_iff l).1 (q ∙ (sym (line_result-eq l r (some b) q) ∙ e));
        no_other = others;
      })
    ]
  ]

  verdict_iff : (o : Option Bool) → (verdict from_str o ≡ ok tt) ↔ (o ≡ some true)
  verdict_iff none = ground arith
  verdict_iff (some true) = ground arith
  verdict_iff (some false) = ground arith

  -- A migration whose process starts succeeds exactly if, of the lines up to the first that cannot be
  -- read, the last that holds a result holds one that the reader of a session would send as an answer;
  -- it does not matter whether the watchdog killed the process.
  pub run_box_migration_iff :
      (reads : List Read) (killed : Bool)
      → (run_box_migration from_str (prints reads killed) ≡ ok tt) ↔ EndsWell (readable reads)
  unfolding run_box_migration read_lines
  run_box_migration_iff reads killed =
      let e = read_results-readable reads none in
      (
        λ h. elim (last_result (readable reads) none (sym e ∙ (verdict_iff _).0 h)) [
          | inl w ↦ w
          | inr (x, others) ↦ cc
        ],
        λ w. (verdict_iff _).1 (
            e
            ∙ ap (λ x. read_lines x none) w.split
            ∙ ends_well w.before w.line w.after none ((answers_in_iff w.line).0 w.answered)
                w.no_other),
      )
