-- ===== src/Manager/Reader/Turns.antt =====
-- A message of a client as steps of the tasks over the table.
use llm_chat.Prelude.{
  join, map, ℕ, ◌≡◌, ◌⊎◌, refl, sym, ap, ◌∙◌, Text, Bool, true, false, Option, none, some, List, [],
  ◌∷◌, ◌++◌, ℤ, pos, negsuc, text_eq, is_empty, unwrap_or, Result, ok, err, if◌then◌else◌, lit,
  Bool-cases, inl, inr,
}
use mathlib.Core.Path.{subst}
use mathlib.Core.List.{append_assoc}
use llm_chat.Json.{Json, get_str, get_i64}
use llm_chat.Manager.Db.{
  Question, Status, sent, error, insert_pending, update_status, mark_confirmed,
}
use llm_chat.Manager.Flush.{Clock}
use llm_chat.Manager.Sessions.{Registry, ClientInfo}
use llm_chat.Manager.Pairing.{System, Event, post, submit, give_up, confirm, put, step, run}
use llm_chat.Manager.Pairing.Maps.{put_self}
use llm_chat.Manager.Reader as Reader
use llm_chat.Manager.Reader.{
  Connection, Moment, Turn, save_all, question_of, read_question, read_confirm, read_usage,
  read_dir, read_message, reply, inserted, asked, confirmed_at, read_parsed, read_value, Save,
}

module _ (clock : Clock) (to_string : List Text → Text) (call_backend : ℕ → Json → Result Json Text)
    (c : Connection) (m : Moment) where
  -- The question is the message's: it is of this connection and its user, has the message's id, and
  -- its text is the message's, after the paths of the attachments if there are any.
  pub record IsAsked (parsed : Result Json Text) (q : Question) : Type 0 where
    pub value : Json
    pub is_value : parsed ≡ ok value
    pub connection_id : q.connection_id ≡ c.connection_id
    pub user_id : q.user_id ≡ some c.user_id
    pub q_id : q.q_id ≡ unwrap_or (get_str value (lit "id")) []
    pub before : Text
    pub text : q.text ≡ before ++ unwrap_or (get_str value (lit "text")) []
    pub alone : q.files ≡ 0 → before ≡ []

  -- What a turn types, and what it does to the table: a question whose text and Enter key were both
  -- taken by the worker is marked sent; one of which less was taken is marked failed, and the loop
  -- ends; nothing else is typed.
  pub data IsTyped (parsed : Result Json Text) (t : Turn) : List Event → Type 0 where
    nothing_done : t.typed ≡ [] → t.continues ≡ true → IsTyped parsed t []
    confirmed :
        (v : Json)
        → (parsed ≡ ok v)
        → (seq : ℕ) → (unwrap_or (get_i64 v (lit "seq")) (negsuc 0) ≡ pos seq)
        → (t.typed ≡ [])
        → (t.continues ≡ true)
        → IsTyped parsed t (confirm seq m.time_in ∷ [])
    asked_whole :
        (q : Question)
        → IsAsked parsed q
        → t.typed ≡ q.text ∷ (b'\r' ∷ []) ∷ []
        → t.continues ≡ true
        → IsTyped parsed t (post q ∷ submit q.connection_id ∷ [])
    asked_in_part :
        (q : Question)
        → IsAsked parsed q
        → (t.typed ≡ []) ⊎ (t.typed ≡ q.text ∷ [])
        → t.continues ≡ false
        → IsTyped parsed t (post q ∷ give_up q.connection_id ∷ [])

  -- The turn's table is the table after the steps that belong to what it types, which deliver no
  -- answer and leave no question inserted but unmarked.
  pub record IsRun (parsed : Result Json Text) (s : System) (t : Turn) : Type 0 where
    pub events : List Event
    pub typed : IsTyped parsed t events
    pub after : System
    pub runs : run clock events s ≡ some after
    pub db : after.db ≡ t.db
    pub held : after.held c.connection_id ≡ none
    pub delivered : after.delivered ≡ s.delivered

  if-IsRun :
      (parsed : Result Json Text) (s : System) (b : Bool) (t u : Turn)
      → IsRun parsed s t
      → IsRun parsed s u
      → IsRun parsed s (if b then t else u)
  if-IsRun parsed s true t u x y = x
  if-IsRun parsed s false t u x y = y

  module _ (parsed : Result Json Text) (s : System) (free : s.held c.connection_id ≡ none) where
    still : (t : Turn) → s.db ≡ t.db → t.typed ≡ [] → t.continues ≡ true → IsRun parsed s t
    unfolding run
    still t e n k = record {
      events = [];
      typed = nothing_done n k;
      after = s;
      runs = refl;
      db = e;
      held = free;
      delivered = refl;
    }

    confirmed_at-IsRun :
        (v : Json) (e : parsed ≡ ok v) (clients : List (Text × ClientInfo)) (n : ℤ)
        → unwrap_or (get_i64 v (lit "seq")) (negsuc 0) ≡ n
        → IsRun parsed s (confirmed_at to_string call_backend c m clients s.db n)
    unfolding run step
    confirmed_at-IsRun v e clients (negsuc n) h = still _ refl refl refl
    confirmed_at-IsRun v e clients (pos n) h = elim (Bool-cases m.confirm_fails) [
      | inl y ↦ still _ (rw y refl) refl refl
      | inr f ↦ record {
        events = confirm n m.time_in ∷ [];
        typed = confirmed v e n h refl refl;
        after = record s { db = (mark_confirmed n m.time_in s.db).0 };
        runs = refl;
        db = rw f refl;
        held = free;
        delivered = refl;
      }
    ]

    -- A question of this connection that is inserted.
    module _ (q : Question) (by : IsAsked parsed q) (up : m.status_fails ≡ false) where
      abbrev seq : ℕ
      seq = (insert_pending q s.db).1

      abbrev posted : System
      posted = record s {
        db = (insert_pending q s.db).0;
        held = put q.connection_id (some (seq, q.q_id, q.time_in)) s.held;
      }

      abbrev marked : Status → System
      marked status = record posted {
        db = update_status seq status posted.db;
        held = put q.connection_id none posted.held;
      }

      post_runs : step clock (post q) s ≡ some posted
      unfolding step
      post_runs = rw (ap s.held by.connection_id ∙ free) refl

      submit_runs : step clock (submit q.connection_id) posted ≡ some (marked sent)
      unfolding step
      submit_runs = rw (put_self q.connection_id (some (seq, q.q_id, q.time_in)) s.held) refl

      give_up_runs : step clock (give_up q.connection_id) posted ≡ some (marked error)
      unfolding step
      give_up_runs = rw (put_self q.connection_id (some (seq, q.q_id, q.time_in)) s.held) refl

      two_runs :
          (e : Event) (t : System)
          → step clock e posted ≡ some t
          → run clock (post q ∷ e ∷ []) s ≡ some t
      unfolding run
      two_runs e t h = rw (post_runs, h) refl

      marked-IsRun :
          (e : Event) (status : Status) (t : Turn)
          → step clock e posted ≡ some (marked status)
          → t.db ≡ (if m.status_fails then posted.db else update_status seq status posted.db)
          → IsTyped parsed t (post q ∷ e ∷ [])
          → IsRun parsed s t
      marked-IsRun e status t h d k = record {
        events = post q ∷ e ∷ [];
        typed = k;
        after = marked status;
        runs = two_runs e _ h;
        db = sym (rw up at d);
        held =
            subst (λ k. put q.connection_id none posted.held k ≡ none) by.connection_id
              (put_self q.connection_id none posted.held);
        delivered = refl;
      }

      submit-IsRun :
          (clients : List (Text × ClientInfo))
          → IsRun parsed s
              (Reader.submit to_string call_backend c m clients s.db q.q_id q.text posted.db seq)
      unfolding Reader.submit
      submit-IsRun clients =
          if-IsRun parsed s m.body_sent _ _
            (if-IsRun parsed s m.enter_sent _ _
              (marked-IsRun (submit q.connection_id) sent _ submit_runs refl
                (asked_whole q by refl refl))
              (marked-IsRun (give_up q.connection_id) error _ give_up_runs refl
                (asked_in_part q by (inr refl) refl)))
            (marked-IsRun (give_up q.connection_id) error _ give_up_runs refl
              (asked_in_part q by (inl refl) refl))

      inserted-IsRun :
          (clients : List (Text × ClientInfo)) (fails : Option Text)
          → IsRun parsed s (inserted to_string call_backend c m clients s.db q fails)
      inserted-IsRun clients none = submit-IsRun clients
      inserted-IsRun clients (some e) = still _ refl refl refl

    question_of-IsAsked :
        (v : Json)
        → parsed ≡ ok v
        → (paths : List Text)
        → IsAsked parsed (
            question_of to_string call_backend c m v
              (unwrap_or (get_str v (lit "id")) [])
              (unwrap_or (get_str v (lit "text")) [])
              paths)
    unfolding question_of
    question_of-IsAsked v k [] = record {
      value = v;
      is_value = k;
      connection_id = refl;
      user_id = refl;
      q_id = refl;
      before = [];
      text = refl;
      alone = λ e. refl;
    }
    question_of-IsAsked v k (p ∷ ps) = record {
      value = v;
      is_value = k;
      connection_id = refl;
      user_id = refl;
      q_id = refl;
      before =
          join (b' ' ∷ []) (map (λ q. lit "Read the file at " ++ (q ++ b'.' ∷ [])) (p ∷ ps))
          ++ b' ' ∷ [];
      text = sym (append_assoc _ (b' ' ∷ []) _);
      alone = λ e. cc e;
    }

    module _ (up : m.status_fails ≡ false) (clients : List (Text × ClientInfo)) where
      asked-IsRun :
          (v : Json)
          → parsed ≡ ok v
          → (save : Save)
          → IsRun parsed s (
              asked to_string call_backend c m clients s.db v
                (unwrap_or (get_str v (lit "id")) [])
                (unwrap_or (get_str v (lit "text")) [])
                save)
      asked-IsRun v k (err e) = still _ refl refl refl
      asked-IsRun v k (ok paths) =
          inserted-IsRun
            (question_of to_string call_backend c m v (unwrap_or (get_str v (lit "id")) [])
              (unwrap_or (get_str v (lit "text")) []) paths)
            (question_of-IsAsked v k paths) up clients m.insert_fails

      read_question-IsRun :
          (v : Json)
          → parsed ≡ ok v
          → IsRun parsed s (read_question to_string call_backend c m clients s.db v)
      unfolding read_question
      read_question-IsRun v k =
          if-IsRun parsed s (is_empty (unwrap_or (get_str v (lit "text")) [])) _ _
            (still _ refl refl refl) (asked-IsRun v k _)

      read_value-IsRun :
          (st : Registry) (v : Json)
          → parsed ≡ ok v
          → IsRun parsed s (read_value to_string call_backend c m clients s.db st v)
      unfolding read_confirm read_usage read_dir
      read_value-IsRun st v k =
          let t = unwrap_or (get_str v (lit "type")) [] in
          if-IsRun parsed s (text_eq t (lit "confirm")) _ _ (confirmed_at-IsRun v k clients _ refl)
            (if-IsRun parsed s (text_eq t (lit "usage")) _ _ (still _ refl refl refl) (
              if-IsRun parsed s (text_eq t (lit "dir")) _ _ (still _ refl refl refl) (
                if-IsRun parsed s (text_eq t (b'q' ∷ [])) _ _ (read_question-IsRun v k)
                  (still _ refl refl refl))))

  -- While the database's status updates succeed and the connection holds no unmarked question,
  -- whatever message a client sends, its reader turns the table into one that steps of the pairing
  -- system reach: it inserts the message's question, with the message's id and text, and marks it
  -- sent if the worker took its text and the Enter key, and failed, ending the loop, if it took
  -- less; or it confirms the number that the message names; or it leaves the table alone. No
  -- question is left inserted and unmarked when the reader takes the next message.
  pub read_message-IsRun :
      (st : Registry) (s : System) (parsed : Result Json Text)
      → s.held c.connection_id ≡ none
      → m.status_fails ≡ false
      → IsRun parsed s (read_message to_string call_backend c m st s.db parsed)
  unfolding read_message
  read_message-IsRun st s (err e) free up = still (err e) s free _ refl refl refl
  read_message-IsRun st s (ok v) free up = read_value-IsRun (ok v) s free up st.clients st v refl
