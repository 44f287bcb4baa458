-- ===== src/Worker/Session/Payloads.antt =====
-- What a session sends on its qa channel (worker/src/lib.rs), as the manager's qa task reads it
-- (manager/src/main.rs).
use llm_chat.Prelude.{
  ℕ, ◌^◌, ◌<◌, ◌≡◌, refl, ap, ◌∙◌, Text, not, ◌&&◌, Option, none, some, List, [], ◌∷◌, ◌++◌, lit,
  map, text_eq, is_empty, trim, unwrap_or, if◌then◌else◌, Bool-cases, inl, inr, arith,
}
use mathlib.Core.List.{map-append}
use llm_chat.Json.{Json, get_str}
use llm_chat.Manager.Qa.{Waiting, Reaction, ignore, flush, arm, qa_event}
use llm_chat.Worker.RichLevel.{RichLevel, is_off}
use llm_chat.Worker.Session.{
  JsonSession, Happening, printed, typed, happen, run, on_event, read_line, is_success, kept,
  on_parsed, answer_payload, event_payload,
}

-- The reactions of the qa task to a list of events, without the events it ignores.
abbrev add_reaction : Reaction → List Reaction → List Reaction
add_reaction ignore rs = rs
add_reaction (flush t) rs = flush t ∷ rs
add_reaction (arm n v) rs = arm n v ∷ rs

abbrev also : Reaction → Waiting × List Reaction → Waiting × List Reaction
also r (w, rs) = (w, add_reaction r rs)

pub reactions : List Json → Waiting → Waiting × List Reaction
reactions [] w = (w, [])
reactions (v ∷ vs) w = let (u, r) = qa_event v w in also r (reactions vs u)

abbrev before : List Reaction → Waiting × List Reaction → Waiting × List Reaction
before rs (w, qs) = (w, rs ++ qs)

also-before :
    (r : Reaction) (rs : List Reaction) (x : Waiting × List Reaction)
    → also r (before rs x) ≡ before (add_reaction r rs) x
also-before ignore rs x = refl
also-before (flush t) rs x = refl
also-before (arm n v) rs x = refl

reactions-append :
    (vs us : List Json) (w : Waiting)
    → reactions (vs ++ us) w ≡ before (reactions vs w).1 (reactions us (reactions vs w).0)
unfolding reactions
reactions-append [] us w = refl
reactions-append (v ∷ vs) us w =
    let (u, r) = qa_event v w in
    ap (also r) (reactions-append vs us u) ∙ also-before r (reactions vs u).1 _

module _ (from_str : Text → Option Json) where
  -- The answer in a line, where it is a successful result.
  abbrev pub answer_of : Option Json → List Text
  answer_of none = []
  answer_of (some v) =
      if text_eq (unwrap_or (get_str v (lit "type")) []) (lit "result") && is_success v
      then unwrap_or (get_str v (lit "result")) [] ∷ []
      else []

  abbrev pub answers_in : Happening → List Text
  answers_in (printed line) = if is_empty (trim line) then [] else answer_of (from_str line)
  answers_in (typed pipe bytes) = []

  unfoldable pub answers : List Happening → List Text
  answers [] = []
  answers (h ∷ hs) = answers_in h ++ answers hs

  module _ (as_f64 : Json → Option Text) (rich : RichLevel) (sid : Text) (to_string : Json → Text)
      (from_utf8_lossy : List ℕ → Text) where
    answer_reaction :
        (v : Json) (n : ℕ) (q : Text) (w : Waiting)
        → n < 2 ^ 32
        → qa_event (answer_payload as_f64 from_str rich sid v n q) w
          ≡ (w, flush (unwrap_or (get_str v (lit "result")) []))
    unfolding qa_event answer_payload lit
    answer_reaction v n q w h = ground arith

    event_reaction :
        (line typ : Text) (v : Json) (n : ℕ) (w : Waiting)
        → qa_event (event_payload as_f64 from_str rich sid line typ v n) w ≡ (w, ignore)
    unfolding qa_event event_payload lit
    event_reaction line typ v n w = refl

    module _ (w : Waiting) where
      reactions-answer :
          (v : Json) (n : ℕ) (q : Text)
          → n < 2 ^ 32
          → reactions (answer_payload as_f64 from_str rich sid v n q ∷ []) w
            ≡ (w, flush (unwrap_or (get_str v (lit "result")) []) ∷ [])
      unfolding reactions
      reactions-answer v n q h = rw (answer_reaction v n q w h) refl

      reactions-event :
          (line typ : Text) (v : Json) (n : ℕ)
          → reactions (event_payload as_f64 from_str rich sid line typ v n ∷ []) w ≡ (w, [])
      unfolding reactions
      reactions-event line typ v n = rw (event_reaction line typ v n w) refl

      reactions-on_event :
          (line : Text) (v : Json) (s : JsonSession)
          → reactions (on_event as_f64 from_str rich sid line v s).1 w
            ≡ (w, map flush (answer_of (some v)))
      unfolding on_event reactions
      reactions-on_event line v s =
          elim (Bool-cases (text_eq (unwrap_or (get_str v (lit "type")) []) (lit "result"))) [
            | inl r ↦ elim (Bool-cases (is_success v)) [
              | inl y ↦ rw (r, y) (reactions-answer v _ s.last_q (omega arith))
              | inr n ↦ rw (r, n) refl
            ]
            | inr n ↦
                elim (Bool-cases
                  (not (is_off rich) && kept rich (unwrap_or (get_str v (lit "type")) []) v)) [
                    | inl y ↦ rw (n, y) (reactions-event line _ v _)
                    | inr z ↦ rw (n, z) refl
                  ]
          ]

      reactions-happen :
          (h : Happening) (s : JsonSession)
          → reactions (happen as_f64 from_str rich sid to_string from_utf8_lossy h s).1 w
            ≡ (w, map flush (answers_in h))
      unfolding reactions happen read_line
      reactions-happen (typed pipe bytes) s = refl
      reactions-happen (printed line) s = elim (Bool-cases (is_empty (trim line))) [
        | inl y ↦ rw y refl
        | inr n ↦ rw n (parsed (from_str line))
      ]
        where
          parsed :
              (o : Option Json)
              → reactions (on_parsed as_f64 from_str rich sid line o s).1 w
                ≡ (w, map flush (answer_of o))
          parsed none = refl
          parsed (some v) = reactions-on_event line v s

      abbrev happened : Happening → JsonSession → JsonSession × List Json
      happened h s = happen as_f64 from_str rich sid to_string from_utf8_lossy h s

      -- Whatever is printed and typed, and whatever the level, the manager's qa task sends on the
      -- answers of the successful results, each at once and in order, and nothing else of what the
      -- session emits moves it.
      pub reactions-run :
          (hs : List Happening) (s : JsonSession)
          → reactions (run as_f64 from_str rich sid to_string from_utf8_lossy hs s).1 w
            ≡ (w, map flush (answers hs))
      unfolding run answers
      reactions-run [] s = unfold reactions in refl
      reactions-run (h ∷ hs) s =
          rw
            (
              reactions-append (happened h s).1 _ w,
              reactions-happen h s,
              reactions-run hs (happened h s).0,
              map-append (λ x. flush x) (answers_in h) (answers hs),
            )
            refl
