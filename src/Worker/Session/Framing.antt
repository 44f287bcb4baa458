-- ===== src/Worker/Session/Framing.antt =====
-- The frames that the manager types for a question (manager/src/main.rs), written to a session
-- (worker/src/lib.rs).
use llm_chat.Prelude.{
  ℕ, ◌≡◌, refl, sym, ap, ◌∙◌, Text, true, false, Option, none, List, [], ◌∷◌, ◌++◌, contains_char,
  is_empty, ◌==◌, Result, arith, some, lit, map, unwrap_or,
}
use mathlib.Core.Path.{subst}
use mathlib.Core.List.{append_assoc, append-nil}
use llm_chat.Json.{Json, null, get, get_str, get_array}
use llm_chat.Manager.Db.{ChatDb}
use llm_chat.Manager.Sessions.{ClientInfo}
use llm_chat.Manager.Reader as Reader
use llm_chat.Manager.Reader.{Connection, Moment}
use llm_chat.Worker.Session.{
  Pipe, JsonSession, write, submit, take_byte, take_bytes, user_message, submitted,
}

-- UTF-8, as `into_bytes` and `from_utf8_lossy` do it: what was encoded is decoded, and the byte of
-- the Enter key stands for nothing else.
pub record Utf8 : Type 0 where
  pub into_bytes : Text → List ℕ
  pub from_utf8_lossy : List ℕ → Text
  pub decoded : (t : Text) → from_utf8_lossy (into_bytes t) ≡ t
  pub no_enter :
      (t : Text) → contains_char b'\r' t ≡ false → contains_char b'\r' (into_bytes t) ≡ false
  pub nonempty : (t : Text) → is_empty (into_bytes t) ≡ is_empty t
  pub enter : into_bytes (b'\r' ∷ []) ≡ b'\r' ∷ []

-- `v[k]`
abbrev pub part : Json → Text → Json
part v k = unwrap_or (get v k) null

abbrev pub working : Pipe
working = record { write_fails = none; flush_fails = none }

module _ (utf8 : Utf8) (to_string : Json → Text) where
  open utf8 use {into_bytes, from_utf8_lossy, decoded, no_enter, nonempty, enter}

  take_bytes-plain :
      (bytes buf : List ℕ) (o : Option Text)
      → contains_char b'\r' bytes ≡ false
      → take_bytes to_string from_utf8_lossy working bytes (buf, o) ≡ (buf ++ bytes, o)
  unfolding take_bytes take_byte
  take_bytes-plain [] buf o h = ap (λ x. (x, o)) (sym (append-nil buf))
  take_bytes-plain (b ∷ bytes) buf o h =
      let (other, rest) : ((b == b'\r') ≡ false) × (contains_char b'\r' bytes ≡ false) =
        ground arith in
      rw other (
        take_bytes-plain bytes (buf ++ b ∷ []) o rest
        ∙ ap (λ x. (x, o)) (append_assoc buf (b ∷ []) bytes))

  abbrev write_frame : Text → JsonSession → JsonSession
  write_frame f s = (write to_string from_utf8_lossy working (into_bytes f) s).1

  -- The frames of a list, one after the other.
  unfoldable pub write_all : List Text → JsonSession → JsonSession
  write_all [] s = s
  write_all (f ∷ fs) s = write_all fs (write_frame f s)

  write_frame-text :
      (t : Text) (s : JsonSession)
      → contains_char b'\r' t ≡ false
      → write_frame t s ≡ record s { buf = s.buf ++ into_bytes t }
  unfolding write
  write_frame-text t s h =
      ap (λ st. (submitted to_string from_utf8_lossy working st s).1)
        (take_bytes-plain (into_bytes t) s.buf none (no_enter t h))

  -- The line that a question makes: its JSON, which claude reads, and a line feed.
  abbrev line_of : Text → Text
  line_of t = to_string (user_message to_string from_utf8_lossy working t) ++ b'\n' ∷ []

  abbrev asked : Text → JsonSession → JsonSession
  asked t s = record s { buf = []; last_q = t; stdin = s.stdin ++ line_of t ∷ [] }

  write-enter :
      (bytes : List ℕ) (s : JsonSession)
      → is_empty bytes ≡ false
      → (write to_string from_utf8_lossy working (b'\r' ∷ []) (record s { buf = bytes })).1
        ≡ asked (from_utf8_lossy bytes) s
  unfolding write take_bytes take_byte submit
  write-enter bytes s h = rw h refl

  write_frame-enter :
      (t : Text) (s : JsonSession)
      → is_empty t ≡ false
      → write_frame (b'\r' ∷ []) (record s { buf = into_bytes t }) ≡ asked t s
  write_frame-enter t s h =
      ap
        (λ bytes.
          (write to_string from_utf8_lossy working bytes (record s { buf = into_bytes t })).1)
        enter
      ∙ write-enter (into_bytes t) s (nonempty t ∙ h)
      ∙ ap (λ u. asked u s) (decoded t)

  -- The session after a question: claude was given one line more, the JSON of a user's message with
  -- one piece of content, the question's text.
  pub record IsAsked (t : Text) (before after : JsonSession) : Type 0 where
    pub message : Json
    pub given : after.stdin ≡ before.stdin ++ (to_string message ++ b'\n' ∷ []) ∷ []
    pub kind : get_str message (lit "type") ≡ some (lit "user")
    pub role : get_str (part message (lit "message")) (lit "role") ≡ some (lit "user")
    pub content :
        map
          (λ x. get_str x (lit "text"))
          (unwrap_or (get_array (part message (lit "message")) (lit "content")) [])
        ≡ some t ∷ []
    pub last : after.last_q ≡ t
    pub emptied : after.buf ≡ []
    pub answers : after.num ≡ before.num
    pub events : after.ev_seq ≡ before.ev_seq

  asked-IsAsked : (t : Text) (s : JsonSession) → IsAsked t s (asked t s)
  unfolding user_message lit
  asked-IsAsked t s = record {
    message = user_message to_string from_utf8_lossy working t;
    given = refl;
    kind = refl;
    role = refl;
    content = refl;
    last = refl;
    emptied = refl;
    answers = refl;
    events = refl;
  }

  module _ (paths_text : List Text → Text) (call_backend : ℕ → Json → Result Json Text)
      (c : Connection) (m : Moment) (clients : List (Text × ClientInfo)) (db db' : ChatDb)
      (id : Text) (seq : ℕ) (body_sent : m.body_sent ≡ true)
      (enter_sent : m.enter_sent ≡ true) where
    abbrev frames_of : Text → List Text
    frames_of t = (Reader.submit paths_text call_backend c m clients db id t db' seq).typed

    all_frames :
        (t : Text) (s : JsonSession)
        → s.buf ≡ []
        → is_empty t ≡ false
        → contains_char b'\r' t ≡ false
        → write_all (frames_of t) s ≡ asked t s
    unfolding write_all Reader.submit
    all_frames t s free some_text plain =
        rw (body_sent, enter_sent, write_frame-text t s plain, free)
          (write_frame-enter t s some_text)

    -- The frames that the manager types for a question make the session hand its claude exactly one
    -- line, a user's message with the question's text, when the session's buffer is empty, its pipe works, and the
    -- text is not empty and holds no Enter; the session then knows the question as the last one and
    -- its buffer is empty again.
    pub write_all-submit :
        (t : Text) (s : JsonSession)
        → s.buf ≡ []
        → is_empty t ≡ false
        → contains_char b'\r' t ≡ false
        → IsAsked t s (write_all (frames_of t) s)
    write_all-submit t s free some_text plain =
        subst (IsAsked t s) (sym (all_frames t s free some_text plain)) (asked-IsAsked t s)
