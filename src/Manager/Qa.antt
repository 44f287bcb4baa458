-- ===== src/Manager/Qa.antt =====
-- The qa task of `handle_chat` (manager/src/main.rs): an event of the worker's /qa stream is
-- flushed at once if it is final; the texts of an unfinished answer wait for a pause, and each of
-- them arms a timer.
pub mod Debounce
use llm_chat.Prelude.{
  ℕ, ◌+◌, ◌%◌, ◌^◌, Text, Bool, true, false, Option, none, some, List, [], ◌∷◌, lit, ◌==◌, text_eq,
  unwrap_or, if◌then◌else◌,
}
use llm_chat.Json.{Json, get_str, get_bool, get_u64}

-- `pending_text` and `versions`; a number that has no entry has the version 0.
pub record Waiting : Type 0 where
  pub pending_text : ℕ → Option Text
  pub versions : ℕ → ℕ

abbrev pub at_num {ℓ} : {A : Type ℓ} → ℕ → A → (ℕ → A) → ℕ → A
at_num num x f n = if num == n then x else f n

-- What an event leads to: nothing, a flush, or a timer for a number and a version.
pub data Reaction : Type 0 where
  ignore : Reaction
  flush : Text → Reaction
  arm : (num version : ℕ) → Reaction

unfoldable pub repaint : ℕ → Text → Waiting → Waiting × ℕ
repaint num raw w =
    let new_version = w.versions num + 1 in
    (
      record {
        pending_text = at_num num (some raw) w.pending_text;
        versions = at_num num new_version w.versions;
      },
      new_version,
    )

abbrev repainted : ℕ → Waiting × ℕ → Waiting × Reaction
repainted num (w, version) = (w, arm num version)

-- `as u32` keeps the low bits of a number.
abbrev numbered : Json → Option ℕ → Waiting → Waiting × Reaction
numbered v none w = (w, ignore)
numbered v (some n) w =
    let raw = unwrap_or (get_str v (lit "answer")) [] in
    let num = n % 2 ^ 32 in
    if unwrap_or (get_bool v (lit "final")) false
    then (w, flush raw)
    else repainted num (repaint num raw w)

abbrev is_subscribed : Option Text → Bool
is_subscribed none = false
is_subscribed (some t) = text_eq t (lit "subscribed")

unfoldable pub qa_event : Json → Waiting → Waiting × Reaction
unfolding repaint
qa_event v w =
    if is_subscribed (get_str v (lit "type"))
    then (w, ignore)
    else numbered v (get_u64 v (lit "num")) w

abbrev pub nonempty_text : Option Text → Option Text
nonempty_text none = none
nonempty_text (some []) = none
nonempty_text (some (c ∷ t)) = some (c ∷ t)

-- A timer that runs out: the text to flush, if its version is the latest and a text is there.
unfoldable pub time_up : ℕ → ℕ → Waiting → Waiting × Option Text
time_up num version w =
    if w.versions num == version
    then (
      record w { pending_text = at_num num none w.pending_text },
      nonempty_text (w.pending_text num),
    )
    else (w, none)
