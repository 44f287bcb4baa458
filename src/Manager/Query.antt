-- ===== src/Manager/Query.antt =====
-- Query strings and environment values (manager/src/main.rs): `parse_query_param`,
-- `percent_decode`, `extract_token`, `redact_query`, `require_addr`, `parse_backend_ports`,
-- `resolve_auth_token`. A query is its bytes.
pub mod Decoding
pub mod Redaction
use llm_chat.Prelude.{
  ℕ, zero, suc, ◌+◌, ◌-◌, ◌*◌, Text, Bool, true, false, not, ◌&&◌, ◌||◌, Option, none, some, List,
  [], ◌∷◌, ◌++◌, lit, map, text_eq, is_empty, trim, split, join, strip_prefix, keep, leb, ◌==◌,
  is_digit, parse_unsigned, Result, ok, err, if◌then◌else◌,
}

abbrev pub hex_value : ℕ → Option ℕ
hex_value c =
    if is_digit c
    then some (c - b'0')
    else if leb b'a' c && leb c b'f'
    then some (c - b'a' + 10)
    else if leb b'A' c && leb c b'F'
    then some (c - b'A' + 10)
    else none

abbrev hex_join : Option ℕ → Option ℕ → Option ℕ
hex_join (some h) (some l) = some (h * 16 + l)
hex_join (some h) none = none
hex_join none _ = none

-- `u8::from_str_radix(hex, 16)` of two bytes; one `+` may stand in front.
abbrev pub hex_byte : ℕ → ℕ → Option ℕ
hex_byte a b = if a == b'+' then hex_value b else hex_join (hex_value a) (hex_value b)

abbrev pub plus_as_space : ℕ → ℕ
plus_as_space c = if c == b'+' then b' ' else c

-- The loop of `percent_decode`, before `from_utf8_lossy`.
unfoldable pub decode_bytes : Text → Text
decode_bytes [] = []
decode_bytes (c ∷ []) = plus_as_space c ∷ []
decode_bytes (c ∷ d ∷ []) = plus_as_space c ∷ decode_bytes (d ∷ [])
decode_bytes (c ∷ a ∷ b ∷ s) =
    let decoded = decode_bytes s in
    let plain = plus_as_space c ∷ decode_bytes (a ∷ b ∷ s) in
    elim (if c == b'%' then hex_byte a b else none) [ none ↦ plain | some v ↦ v ∷ decoded ]

module _ (from_utf8_lossy : Text → Text) where
  abbrev pub percent_decode : Text → Text
  percent_decode s = from_utf8_lossy (decode_bytes s)

  abbrev present_value : Text → Option Text
  present_value v = if is_empty v then none else some (percent_decode v)

  unfoldable pub find_param : Text → List Text → Option Text
  find_param prefix [] = none
  find_param prefix (kv ∷ kvs) =
      let rest = find_param prefix kvs in
      elim (strip_prefix prefix kv) [ none ↦ rest | some v ↦ present_value v ]

  unfoldable pub parse_query_param : Text → Text → Option Text
  unfolding find_param
  parse_query_param query key = find_param (key ++ b'=' ∷ []) (split b'&' query)

-- The query half of `extract_token`.
unfoldable pub query_token : List Text → Option Text
query_token [] = none
query_token (kv ∷ kvs) =
    let rest = query_token kvs in
    elim (strip_prefix (lit "token=") kv) [ none ↦ rest | some t ↦ some t ]

abbrev pub to_lower : ℕ → ℕ
to_lower c = if leb b'A' c && leb c b'Z' then c + 32 else c

abbrev pub eq_ignore_ascii_case : Text → Text → Bool
eq_ignore_ascii_case s t = text_eq (map to_lower s) (map to_lower t)

-- `kv.split('=').next()`
unfoldable pub param_name : Text → Text
param_name [] = []
param_name (c ∷ s) = let rest = param_name s in if c == b'=' then [] else c ∷ rest

abbrev pub is_secret : Text → Bool
is_secret name =
    eq_ignore_ascii_case name (lit "token") || eq_ignore_ascii_case name (lit "access_token")

abbrev pub redact_param : Text → Text
redact_param kv = if is_secret (param_name kv) then param_name kv ++ lit "=<redacted>" else kv

unfoldable pub redact_query : Text → Text
unfolding param_name
redact_query q = join (b'&' ∷ []) (map redact_param (split b'&' q))

abbrev nonblank : Text → Option Text
nonblank [] = none
nonblank (c ∷ s) = some (c ∷ s)

abbrev set_or_err : Text → Option Text → Result Text Text
set_or_err name (some v) = ok v
set_or_err name none = err (name ++ lit " must be set (no default)")

abbrev trimmed_value : Option Text → Option Text
trimmed_value none = none
trimmed_value (some s) = nonblank (trim s)

unfoldable pub require_addr : Text → Option Text → Result Text Text
require_addr var_name raw = set_or_err var_name (trimmed_value raw)

unfoldable pub parse_ports : List Text → List ℕ
parse_ports [] = []
parse_ports (s ∷ ss) = elim (if is_empty s then none else parse_unsigned 16 s) [
  | none ↦ parse_ports ss
  | some p ↦ p ∷ parse_ports ss
]

abbrev some_ports : List ℕ → Option (List ℕ)
some_ports [] = none
some_ports (p ∷ ps) = some (p ∷ ps)

unfoldable pub parse_backend_ports : Option Text → Option (List ℕ)
unfolding parse_ports
parse_backend_ports none = none
parse_backend_ports (some raw) = some_ports (parse_ports (map trim (split b',' raw)))

-- `generated` is what the random generator returns when it is called.
unfoldable pub resolve_auth_token : Option Text → Text → Text
resolve_auth_token none generated = generated
resolve_auth_token (some t) generated = if is_empty t then generated else t
