-- ===== src/Worker/AppState/Synced.antt =====
-- The lists and maps of a worker's sessions (worker/src/lib.rs) side by side.
use llm_chat.Prelude.{
  ◌≡◌, refl, Text, Bool, true, false, not, ◌||◌, Option, none, some, List, [], ◌∷◌, ◌++◌, keep,
  text_eq, text_eq_iff, is_some, find, insert, remove, find-insert, find-remove, if◌then◌else◌,
  arith,
}
use llm_chat.Json.{Json}
use llm_chat.Worker.Session.{JsonSession}
use llm_chat.Worker.AppState.{
  AppState, QaItem, clear_resolved, new_app_state, contains, clear, close, add_session,
}

-- A session is in the order exactly if it is held and exactly if it has a channel.
pub record IsSynced (st : AppState) : Type 0 where
  pub holds : (sid : Text) → is_some (find sid st.json_sessions) ≡ contains sid st.session_order
  pub listens : (sid : Text) → is_some (find sid st.qa_broadcasts) ≡ contains sid st.session_order

pub new_app_state-IsSynced : IsSynced new_app_state
unfolding find
new_app_state-IsSynced = record { holds = λ sid. refl; listens = λ sid. refl }

contains-append :
    (sid new : Text) (order : List Text)
    → contains sid (order ++ new ∷ []) ≡ (text_eq new sid || contains sid order)
contains-append sid new [] = refl
contains-append sid new (x ∷ order) = ground (arith, contains-append sid new order)

contains-keep :
    (sid gone : Text) (order : List Text)
    → contains sid (keep (λ x. not (text_eq x gone)) order)
      ≡ (if text_eq gone sid then false else contains sid order)
contains-keep sid gone [] = ground arith
contains-keep sid gone (x ∷ order) = ground (
  arith,
  contains-keep sid gone order,
  text_eq_iff x gone,
  text_eq_iff x sid,
  text_eq_iff gone sid,
)

inserted :
    {V : Type 0} (sid new : Text) (v : V) (m : List (Text × V)) (order : List Text)
    → is_some (find sid m) ≡ contains sid order
    → is_some (find sid (insert new v m)) ≡ contains sid (order ++ new ∷ [])
inserted sid new v m order h =
    ground (arith, find-insert new sid v m, contains-append sid new order)

removed :
    {V : Type 0} (sid gone : Text) (m : List (Text × V)) (order : List Text)
    → is_some (find sid m) ≡ contains sid order
    → is_some (find sid (remove gone m)) ≡ contains sid (keep (λ x. not (text_eq x gone)) order)
removed sid gone m order h = ground (arith, find-remove gone sid m, contains-keep sid gone order)

pub close-IsSynced : (sid : Text) (st : AppState) → IsSynced st → IsSynced (close sid st)
unfolding close
close-IsSynced sid st h = record {
  holds = λ x. removed x sid st.json_sessions st.session_order (h.holds x);
  listens = λ x. removed x sid st.qa_broadcasts st.session_order (h.listens x);
}

pub add_session-IsSynced :
    (sid : Text) (session : JsonSession) (st : AppState)
    → IsSynced st
    → IsSynced (add_session sid session st)
unfolding add_session
add_session-IsSynced sid session st h = record {
  holds = λ x. inserted x sid session st.json_sessions st.session_order (h.holds x);
  listens = λ x. inserted x sid tt st.qa_broadcasts st.session_order (h.listens x);
}

without_history :
    (b : Bool) (st : AppState) (h : List (Text × List QaItem))
    → IsSynced st
    → IsSynced (if b then record st { qa_history = h } else st)
without_history true st h s = record { holds = s.holds; listens = s.listens }
without_history false st h s = s

clear_resolved-IsSynced :
    (what : Text) (o : Option Text) (st : AppState)
    → IsSynced st
    → IsSynced (clear_resolved what o st).1
clear_resolved-IsSynced what none st h = h
clear_resolved-IsSynced what (some sid) st h = without_history _ st (remove sid st.qa_history) h

pub clear-IsSynced : (req : Json) (st : AppState) → IsSynced st → IsSynced (clear req st).1
unfolding clear
clear-IsSynced req st h = clear_resolved-IsSynced _ _ st h
