-- ===== src/Worker/Session.antt =====
-- A stream-json session of the worker (`parse_usage` and `JsonSession` of worker/src/lib.rs): the
-- frames written to it, and the lines that its claude prints. The pipe is claude's: a session holds
-- the lines that were written to it. The texts of serde_json, the floats of `as_f64` as texts, and
-- `String::from_utf8_lossy` are parameters.
pub mod Payloads
pub mod Framing
pub mod Numbers
use llm_chat.Prelude.{
  ℕ, ◌+◌, ◌*◌, ◌%◌, ◌^◌, Text, Bool, true, false, not, ◌&&◌, ◌||◌, Option, none, some, List, [],
  ◌∷◌, ◌++◌, lit, ℤ, pos, text_eq, is_empty, is_some, trim, ltb, ◌==◌, byte_len, unwrap_or, Result,
  ok, err, if◌then◌else◌,
}
use llm_chat.Json.{
  Json, null, bool, int, real, str, arr, obj, nil, cons, Fields, end, field, get, as_i64, lookup,
  get_str, get_bool,
}
use llm_chat.Worker.RichLevel.{RichLevel, as_str, is_off, is_token}

-- An object's fields stand in the order of serde_json's map, so the first of them has the first key.
abbrev first_key : Option Json → Json
first_key (some (obj (field k v fs))) = str k
first_key (some (obj end)) = null
first_key (some _) = null
first_key none = null

abbrev count_of : Fields → Text → Json
count_of u k = elim (lookup k u) [
  | none ↦ int (pos 0)
  | some v ↦ int (unwrap_or (as_i64 v) (pos 0))
]

-- A float as serde_json prints it, or null.
abbrev float : Option Text → Json
float none = null
float (some t) = real t

abbrev float_of : (Json → Option Text) → Option Json → Json
float_of as_f64 none = null
float_of as_f64 (some v) = float (as_f64 v)

module _ (as_f64 : Json → Option Text) where
  abbrev usage_from : Json → Option Json → Json
  usage_from v (some (obj u)) = obj (
      field (lit "inputTokens") (count_of u (lit "input_tokens")) (
        field (lit "outputTokens") (count_of u (lit "output_tokens")) (
          field (lit "cacheReadTokens") (count_of u (lit "cache_read_input_tokens")) (
            field (lit "cacheCreationTokens") (count_of u (lit "cache_creation_input_tokens")) (
              field (lit "costUsd") (float_of as_f64 (get v (lit "total_cost_usd")))
                (field (lit "model") (first_key (get v (lit "modelUsage"))) end))))))
  usage_from v (some _) = null
  usage_from v none = null

  unfoldable pub parse_usage : Json → Json
  parse_usage result_event = usage_from result_event (get result_event (lit "usage"))

-- `buf` holds bytes. `num` and `ev_seq` are `u32`s: they wrap around.
pub record JsonSession : Type 0 where
  pub buf : List ℕ
  pub last_q : Text
  pub num : ℕ
  pub ev_seq : ℕ
  pub stdin : List Text

abbrev pub spawned : JsonSession
spawned = record { buf = []; last_q = []; num = 0; ev_seq = 0; stdin = [] }

abbrev pub raw_cap : ℕ
raw_cap = 64 * 1024

-- A result that claude calls a success.
unfoldable pub is_success : Json → Bool
is_success v =
    text_eq (unwrap_or (get_str v (lit "subtype")) []) (lit "success")
    || not (unwrap_or (get_bool v (lit "is_error")) true)

-- The kinds of event that a level forwards.
unfoldable pub kept : RichLevel → Text → Json → Bool
kept rich typ v =
    if text_eq typ (lit "assistant") || text_eq typ (lit "user")
    then true
    else if text_eq typ (lit "system")
    then text_eq (unwrap_or (get_str v (lit "subtype")) []) (lit "init")
    else if text_eq typ (lit "stream_event")
    then is_token rich
    else false

-- The session's constants, and what the standard library and serde_json do.
module _ (as_f64 : Json → Option Text) (from_str : Text → Option Json) (rich : RichLevel)
    (sid : Text) where
  unfoldable pub answer_payload : Json → ℕ → Text → Json
  unfolding parse_usage
  answer_payload v n q = obj (
      field (lit "num") (int (pos n)) (
        field (lit "question") (str q) (
          field (lit "answer") (str (unwrap_or (get_str v (lit "result")) [])) (
            field (lit "sessionId") (str sid) (
              field (lit "isNew") (bool true) (
                field (lit "final") (bool true)
                  (field (lit "usage") (parse_usage as_f64 v) end)))))))

  -- An event's own JSON, or its size where the line is too long.
  unfoldable pub raw_value : Text → Text → Json → Json
  raw_value line typ v =
      if ltb raw_cap (byte_len line)
      then obj (
          field (lit "truncated") (bool true)
            (field (lit "bytes") (int (pos (byte_len line))) (field (lit "kind") (str typ) end)))
      else v

  unfoldable pub event_payload : Text → Text → Json → ℕ → Json
  unfolding raw_value
  event_payload line typ v seq_no = obj (
      field (lit "type") (str (lit "event")) (
        field (lit "level") (str (as_str rich)) (
          field (lit "kind") (str typ) (
            field (lit "sessionId") (str sid) (
              field (lit "seqNo") (int (pos seq_no))
                (field (lit "raw") (raw_value line typ v) end))))))

  abbrev pub next_u32 : ℕ → ℕ
  next_u32 n = (n + 1) % 2 ^ 32

  -- A successful result is counted and sent.
  abbrev answered : Json → JsonSession → JsonSession × List Json
  answered v s = let n = next_u32 s.num in (record s { num = n }, answer_payload v n s.last_q ∷ [])

  abbrev pub forwarded : Text → Text → Json → JsonSession → JsonSession × List Json
  forwarded line typ v s =
      let n = next_u32 s.ev_seq in (record s { ev_seq = n }, event_payload line typ v n ∷ [])

  unfoldable pub on_event : Text → Json → JsonSession → JsonSession × List Json
  unfolding answer_payload event_payload is_success kept
  on_event line v s =
      let typ = unwrap_or (get_str v (lit "type")) [] in
      if text_eq typ (lit "result")
      then if is_success v then answered v s else (s, [])
      else if not (is_off rich) && kept rich typ v
      then forwarded line typ v s
      else (s, [])

  abbrev pub on_parsed : Text → Option Json → JsonSession → JsonSession × List Json
  on_parsed line none s = (s, [])
  on_parsed line (some v) s = on_event line v s

  -- One round of the reader's loop: the payloads sent on the qa channel.
  unfoldable pub read_line : Text → JsonSession → JsonSession × List Json
  unfolding on_event trim
  read_line line s = if is_empty (trim line) then (s, []) else on_parsed line (from_str line) s

-- What a write of the pipe answers: the error of `write_all`, else the error of `flush`.
pub record Pipe : Type 0 where
  pub write_fails : Option Text
  pub flush_fails : Option Text

module _ (to_string : Json → Text) (from_utf8_lossy : List ℕ → Text) (pipe : Pipe) where
  unfoldable pub user_message : Text → Json
  user_message text = obj (
      field (lit "type") (str (lit "user")) (
        field (lit "message")
          (obj (
            field (lit "role") (str (lit "user")) (
              field (lit "content")
                (arr (
                  cons
                    (obj
                      (field (lit "type") (str (lit "text")) (field (lit "text") (str text) end)))
                    nil))
                end)))
          end))

  abbrev pub flushed : Option Text → JsonSession → Result (Unit {0}) Text × JsonSession
  flushed none s = (ok tt, s)
  flushed (some e) s = (err (lit "flush claude stdin: " ++ e), s)

  abbrev pub written : Option Text → Text → JsonSession → Result (Unit {0}) Text × JsonSession
  written none line s = flushed pipe.flush_fails (record s { stdin = s.stdin ++ line ∷ [] })
  written (some e) line s = (err (lit "write claude stdin: " ++ e), s)

  unfoldable pub submit : Text → JsonSession → Result (Unit {0}) Text × JsonSession
  unfolding user_message
  submit text s =
      written pipe.write_fails (to_string (user_message text) ++ b'\n' ∷ [])
        (record s { last_q = text })

  -- One byte of a frame: the buffer, and the text to submit so far.
  unfoldable pub take_byte : ℕ → List ℕ × Option Text → List ℕ × Option Text
  take_byte b (buf, to_submit) =
      if b == b'\r'
      then (if is_empty buf then (buf, to_submit) else ([], some (from_utf8_lossy buf)))
      else (buf ++ b ∷ [], to_submit)

  unfoldable pub take_bytes : List ℕ → List ℕ × Option Text → List ℕ × Option Text
  unfolding take_byte
  take_bytes [] st = st
  take_bytes (b ∷ bytes) st = take_bytes bytes (take_byte b st)

  abbrev pub submitted : List ℕ × Option Text → JsonSession → Result (Unit {0}) Text × JsonSession
  submitted (buf, none) s = (ok tt, record s { buf = buf })
  submitted (buf, some text) s = submit text (record s { buf = buf })

  unfoldable pub write : List ℕ → JsonSession → Result (Unit {0}) Text × JsonSession
  unfolding take_bytes submit
  write bytes s = submitted (take_bytes bytes (s.buf, none)) s

-- What happens to a session: its claude prints a line, or a frame of /s comes in.
pub data Happening : Type 0 where
  printed : Text → Happening
  typed : Pipe → List ℕ → Happening

module _ (as_f64 : Json → Option Text) (from_str : Text → Option Json) (rich : RichLevel)
    (sid : Text) (to_string : Json → Text) (from_utf8_lossy : List ℕ → Text) where
  unfoldable pub happen : Happening → JsonSession → JsonSession × List Json
  unfolding read_line write
  happen (printed line) s = read_line as_f64 from_str rich sid line s
  happen (typed pipe bytes) s = ((write to_string from_utf8_lossy pipe bytes s).1, [])

  abbrev followed : List Json → JsonSession × List Json → JsonSession × List Json
  followed before (s, after) = (s, before ++ after)

  unfoldable pub run : List Happening → JsonSession → JsonSession × List Json
  unfolding happen
  run [] s = (s, [])
  run (h ∷ hs) s = let (t, payloads) = happen h s in followed payloads (run hs t)
