-- ===== src/Tests/Queries.antt =====
-- Query strings.
use llm_chat.Prelude.{◌≡◌, Text, [], ◌∷◌, lit, split, All, arith}
use llm_chat.Manager.Query.{redact_query, decode_bytes}
use llm_chat.Manager.Query.Redaction.{
  IsHidden, AllShown, redact_query-AllShown, redact_query-IsHidden,
}
use llm_chat.Manager.Query.Decoding.{percent_encode, decode-encode}

abbrev query : Text
query = lit "cwd=app&Token=secret"

redact_query-AllShown_example : AllShown (split b'&' query) (split b'&' (redact_query query))
redact_query-AllShown_example = redact_query-AllShown query

redact_query-IsHidden_example : All IsHidden (split b'&' (redact_query query))
redact_query-IsHidden_example = redact_query-IsHidden query

decode-encode_example : decode_bytes (percent_encode (b' ' ∷ 255 ∷ [])) ≡ b' ' ∷ 255 ∷ []
decode-encode_example = decode-encode (b' ' ∷ 255 ∷ []) (omega arith, (omega arith, tt))
