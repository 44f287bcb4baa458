-- ===== src/Worker/RichLevel.antt =====
-- The verbosity of a stream-json session: `RichLevel` of worker/src/lib.rs.
use llm_chat.Prelude.{
  ◌≡◌, refl, Text, Bool, true, false, Option, none, some, [], lit, text_eq, is_empty, trim,
  to_ascii_lowercase, unwrap_or, if◌then◌else◌,
}

pub data RichLevel : Type 0 where
  off turn token : RichLevel

unfoldable pub parse : Text → RichLevel
unfolding trim
parse s =
    let level = to_ascii_lowercase (trim s) in
    if text_eq level (lit "turn") then turn else if text_eq level (lit "token") then token else off

unfoldable pub as_str : RichLevel → Text
as_str off = lit "off"
as_str turn = lit "turn"
as_str token = lit "token"

-- The variable LLM_CHAT_RICH, where it is set, is the default.
unfoldable pub resolve : Option Text → Option Text → RichLevel
unfolding parse
resolve llm_chat_rich none = parse (unwrap_or llm_chat_rich [])
resolve llm_chat_rich (some s) =
    if is_empty (trim s) then parse (unwrap_or llm_chat_rich []) else parse s

abbrev pub is_off : RichLevel → Bool
is_off off = true
is_off turn = false
is_off token = false

abbrev pub is_token : RichLevel → Bool
is_token off = false
is_token turn = false
is_token token = true

-- A level survives being written and read.
pub parse-as_str : (level : RichLevel) → parse (as_str level) ≡ level
unfolding parse as_str lit
parse-as_str off = refl
parse-as_str turn = refl
parse-as_str token = refl
