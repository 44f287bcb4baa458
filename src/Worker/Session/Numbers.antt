-- ===== src/Worker/Session/Numbers.antt =====
-- The numbers of a session's answers (worker/src/lib.rs).
use llm_chat.Prelude.{
  ℕ, ◌+◌, ◌%◌, ◌^◌, ◌≡◌, refl, ap, ◌∙◌, Text, not, ◌&&◌, Option, none, some, List, [], ◌∷◌, ◌++◌,
  lit, text_eq, is_empty, trim, unwrap_or, Bool-cases, inl, inr, arith,
}
use llm_chat.Json.{Json, get_str, get_u64}
use llm_chat.Worker.RichLevel.{RichLevel, is_off}
use llm_chat.Worker.Session.{
  Pipe, JsonSession, Happening, printed, typed, happen, run, on_event, on_parsed, forwarded,
  read_line, write, submit, is_success, kept, answer_payload, event_payload,
}
use llm_chat.Worker.Session.Payloads.{answers, answers_in, answer_of}

abbrev numbered : Option ℕ → List ℕ → List ℕ
numbered none ns = ns
numbered (some n) ns = n ∷ ns

-- The numbers of the events that have one.
pub numbers : List Json → List ℕ
numbers [] = []
numbers (v ∷ vs) = numbered (get_u64 v (lit "num")) (numbers vs)

numbers-append : (vs us : List Json) → numbers (vs ++ us) ≡ numbers vs ++ numbers us
unfolding numbers
numbers-append [] us = refl
numbers-append (v ∷ vs) us =
    elim (get_u64 v (lit "num"))
      as (λ o. numbered o (numbers (vs ++ us)) ≡ numbered o (numbers vs) ++ numbers us) [
        | none ↦ numbers-append vs us
        | some n ↦ ap (λ ns. n ∷ ns) (numbers-append vs us)
      ]

-- One number for each answer, from the one after `n`, and the last of them.
pub count_up : List Text → ℕ → List ℕ
count_up [] n = []
count_up (t ∷ ts) n = (n + 1) % 2 ^ 32 ∷ count_up ts ((n + 1) % 2 ^ 32)

pub advance : List Text → ℕ → ℕ
advance [] n = n
advance (t ∷ ts) n = advance ts ((n + 1) % 2 ^ 32)

count_up-append :
    (ts us : List Text) (n : ℕ)
    → count_up (ts ++ us) n ≡ count_up ts n ++ count_up us (advance ts n)
unfolding count_up advance
count_up-append [] us n = refl
count_up-append (t ∷ ts) us n =
    ap (λ ns. (n + 1) % 2 ^ 32 ∷ ns) (count_up-append ts us ((n + 1) % 2 ^ 32))

advance-append : (ts us : List Text) (n : ℕ) → advance (ts ++ us) n ≡ advance us (advance ts n)
unfolding advance
advance-append [] us n = refl
advance-append (t ∷ ts) us n = advance-append ts us ((n + 1) % 2 ^ 32)

-- The payloads carry one number for each answer, after the session's, which has counted them.
pub record IsCounted (ts : List Text) (s : JsonSession) (x : JsonSession × List Json) : Type 0 where
  pub carried : numbers x.1 ≡ count_up ts s.num
  pub counter : x.0.num ≡ advance ts s.num

module _ (from_str : Text → Option Json) (as_f64 : Json → Option Text) (rich : RichLevel)
    (sid : Text) (to_string : Json → Text) (from_utf8_lossy : List ℕ → Text) where
  abbrev happened : Happening → JsonSession → JsonSession × List Json
  happened h s = happen as_f64 from_str rich sid to_string from_utf8_lossy h s

  silent : (s : JsonSession) → IsCounted [] s (s, [])
  unfolding numbers count_up advance
  silent s = record { carried = refl; counter = refl }

  write-num :
      (pipe : Pipe) (bytes : List ℕ) (s : JsonSession)
      → (write to_string from_utf8_lossy pipe bytes s).1.num ≡ s.num
  unfolding write submit
  write-num pipe bytes s = ground arith

  module _ (line : Text) (v : Json) (s : JsonSession) where
    abbrev n : ℕ
    n = (s.num + 1) % 2 ^ 32

    answer-IsCounted :
        (t : Text)
        → IsCounted
            (t ∷ [])
            s
            (record s { num = n }, answer_payload as_f64 from_str rich sid v n s.last_q ∷ [])
    unfolding numbers count_up advance answer_payload lit
    answer-IsCounted t = record { carried = ground arith; counter = refl }

    event-IsCounted :
        (typ : Text) → IsCounted [] s (forwarded as_f64 from_str rich sid line typ v s)
    unfolding numbers count_up advance event_payload lit
    event-IsCounted typ = record { carried = refl; counter = refl }

    on_event-IsCounted :
        IsCounted (answer_of from_str (some v)) s (on_event as_f64 from_str rich sid line v s)
    unfolding on_event
    on_event-IsCounted =
        elim (Bool-cases (text_eq (unwrap_or (get_str v (lit "type")) []) (lit "result"))) [
          | inl r ↦ elim (Bool-cases (is_success v)) [
            | inl y ↦ rw (r, y) (answer-IsCounted (unwrap_or (get_str v (lit "result")) []))
            | inr f ↦ rw (r, f) (silent s)
          ]
          | inr f ↦
              elim (Bool-cases
                (not (is_off rich) && kept rich (unwrap_or (get_str v (lit "type")) []) v)) [
                  | inl y ↦ rw (f, y) (event-IsCounted (unwrap_or (get_str v (lit "type")) []))
                  | inr z ↦ rw (f, z) (silent s)
                ]
        ]

  on_parsed-IsCounted :
      (line : Text) (s : JsonSession) (o : Option Json)
      → IsCounted (answer_of from_str o) s (on_parsed as_f64 from_str rich sid line o s)
  on_parsed-IsCounted line s none = silent s
  on_parsed-IsCounted line s (some v) = on_event-IsCounted line v s

  happen-IsCounted :
      (h : Happening) (s : JsonSession) → IsCounted (answers_in from_str h) s (happened h s)
  unfolding happen read_line
  happen-IsCounted (typed pipe bytes) s = record {
    carried = unfold numbers count_up in refl;
    counter = unfold advance in write-num pipe bytes s;
  }
  happen-IsCounted (printed line) s = elim (Bool-cases (is_empty (trim line))) [
    | inl y ↦ rw y (silent s)
    | inr f ↦ rw f (on_parsed-IsCounted line s (from_str line))
  ]

  -- Whatever is printed and typed, the numbered events of a session carry one number for each
  -- successful result, counted up from the session's as a `u32`, and no other event has a number.
  pub run-IsCounted :
      (hs : List Happening) (s : JsonSession)
      → IsCounted
          (answers from_str hs)
          s
          (run as_f64 from_str rich sid to_string from_utf8_lossy hs s)
  unfolding run answers
  run-IsCounted [] s = silent s
  run-IsCounted (h ∷ hs) s =
      let here = happen-IsCounted h s in
      let there = run-IsCounted hs (happened h s).0 in
      record {
        carried =
            rw
              (
                numbers-append (happened h s).1,
                here.carried,
                there.carried,
                here.counter,
                count_up-append (answers_in from_str h),
              )
              refl;
        counter = there.counter ∙ rw (here.counter, advance-append (answers_in from_str h)) refl;
      }
