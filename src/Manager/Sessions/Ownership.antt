-- ===== src/Manager/Sessions/Ownership.antt =====
-- Who may attach to a session (manager/src/main.rs).
use llm_chat.Prelude.{
  ℕ, ◌≡◌, ◌≢◌, ◌⊎◌, ◌&&◌, refl, ap, ◌∙◌, inl, inr, Text, Bool, false, Option, none, some, List, [],
  ◌∷◌, find, find-insert, find-remove, is_some, text_eq, text_eq_iff, text_eq_refl, keep, any,
  Bool-cases, Result, ok, err, arith,
}
use llm_chat.Json.{Json}
use llm_chat.Manager.Sessions.{
  Registry, Outcome, closed, close_on, register, unregister, cmd_open, cmd_close, lookup_port,
  caller_may_bridge, owned_by, scope_sessions_to_caller,
}

-- The two maps hold the same sessions.
abbrev pub SameSessions : Registry → Type 0
SameSessions st =
    (sid : Text) → is_some (find sid st.session_to_port) ≡ is_some (find sid st.session_to_owner)

module _ (sid : Text) (st : Registry) where
  pub register-SameSessions :
      (port : ℕ) (uid : Text) → SameSessions st → SameSessions (register sid port uid st)
  unfolding register
  register-SameSessions port uid h j = ground (
    arith,
    find-insert sid j port st.session_to_port,
    find-insert sid j uid st.session_to_owner,
    h j,
  )

  pub unregister-SameSessions : SameSessions st → SameSessions (unregister sid st)
  unfolding unregister
  unregister-SameSessions h j =
      ground
        (arith, find-remove sid j st.session_to_port, find-remove sid j st.session_to_owner, h j)

  -- After a session is registered for a user, that user and no other non-operator may attach.
  pub register-bridge :
      (port : ℕ) (owner uid : Text)
      → caller_may_bridge (register sid port owner st) sid uid false ≡ text_eq owner uid
  unfolding register caller_may_bridge
  register-bridge port owner uid =
      ap (λ o. owned_by o uid) (find-insert sid sid owner st.session_to_owner)
      ∙ rw (text_eq_refl sid) refl

  pub unregister-bridge : (uid : Text) → caller_may_bridge (unregister sid st) sid uid false ≡ false
  unfolding unregister caller_may_bridge
  unregister-bridge uid =
      ap (λ o. owned_by o uid) (find-remove sid sid st.session_to_owner)
      ∙ rw (text_eq_refl sid) refl

-- What the registry says of one session after a command, and that the others are as in `before`.
pub record OpenedFor (uid sid : Text) (port : ℕ) (before after : Registry) : Type 0 where
  pub routed : lookup_port after sid ≡ some port
  pub attach : (caller : Text) → caller_may_bridge after sid caller false ≡ text_eq uid caller
  pub other_ports : (j : Text) → sid ≢ j → lookup_port after j ≡ lookup_port before j
  pub other_owners :
      (j caller : Text)
      → sid ≢ j
      → caller_may_bridge after j caller false ≡ caller_may_bridge before j caller false

pub record Closed (sid : Text) (before after : Registry) : Type 0 where
  pub unrouted : lookup_port after sid ≡ none
  pub detached : (caller : Text) → caller_may_bridge after sid caller false ≡ false
  pub other_ports : (j : Text) → sid ≢ j → lookup_port after j ≡ lookup_port before j
  pub other_owners :
      (j caller : Text)
      → sid ≢ j
      → caller_may_bridge after j caller false ≡ caller_may_bridge before j caller false

register-OpenedFor :
    (sid : Text) (port : ℕ) (uid : Text) (st : Registry)
    → OpenedFor uid sid port st (register sid port uid st)
unfolding register caller_may_bridge
register-OpenedFor sid port uid st = record {
  routed = find-insert sid sid port st.session_to_port ∙ rw (text_eq_refl sid) refl;
  attach = register-bridge sid st port uid;
  other_ports =
      λ j ne. find-insert sid j port st.session_to_port ∙ ground (arith, text_eq_iff sid j);
  other_owners = λ j caller ne.
      ap (λ o. owned_by o caller)
        (find-insert sid j uid st.session_to_owner ∙ ground (arith, text_eq_iff sid j));
}

unregister-Closed : (sid : Text) (st : Registry) → Closed sid st (unregister sid st)
unfolding unregister caller_may_bridge
unregister-Closed sid st = record {
  unrouted = find-remove sid sid st.session_to_port ∙ rw (text_eq_refl sid) refl;
  detached = unregister-bridge sid st;
  other_ports = λ j ne. find-remove sid j st.session_to_port ∙ ground (arith, text_eq_iff sid j);
  other_owners = λ j caller ne.
      ap (λ o. owned_by o caller)
        (find-remove sid j st.session_to_owner ∙ ground (arith, text_eq_iff sid j));
}

module _ (iterate : List (ℕ × ℕ) → List (ℕ × ℕ)) (call_backend : ℕ → Json → Result Json Text)
    (meanwhile : Registry → Registry) where
  -- If `cmd_open` returns a session, the worker's port routes to it, its opener and no other
  -- non-operator may attach to it, and every other session is as it was when the lock was taken.
  pub cmd_open-OpenedFor :
      (uid : Text) (subpath rich : Option Text) (st st' : Registry) (sid transport : Text)
      (port : ℕ)
      → cmd_open iterate call_backend meanwhile uid subpath rich st
        ≡ (ok (sid, port, transport), st')
      → OpenedFor uid sid port (meanwhile st) st'
  unfolding cmd_open
  cmd_open-OpenedFor uid subpath rich st st' sid transport port h =
      let e : st' ≡ register sid port uid (meanwhile st) = ground arith in
      rw e (register-OpenedFor sid port uid (meanwhile st))

  -- What `cmd_close` leaves behind, by its result.
  abbrev pub CloseResult : Text → Registry → Outcome (Unit {0}) → Type 0
  CloseResult sid st (ok _, st') = Closed sid (meanwhile st) st'
  CloseResult sid st (err e, st') = (st' ≡ st) ⊎ (st' ≡ meanwhile st)

  closed-CloseResult :
      (sid : Text) (st : Registry) (r : Result Json Text)
      → CloseResult sid st (closed iterate call_backend meanwhile sid r (meanwhile st))
  closed-CloseResult sid st (ok _) = unregister-Closed sid (meanwhile st)
  closed-CloseResult sid st (err e) = inr refl

  close_on-CloseResult :
      (sid : Text) (st : Registry) (o : Option ℕ)
      → CloseResult sid st (close_on iterate call_backend meanwhile sid o st)
  close_on-CloseResult sid st none = inl refl
  close_on-CloseResult sid st (some port) = closed-CloseResult sid st _

  -- If `cmd_close` succeeds, the session is routed nowhere, no non-operator may attach to it, and
  -- every other session is as the other tasks left it; if it fails, the registry is the one that it
  -- read or the one that the other tasks left.
  pub cmd_close-CloseResult :
      (sid : Text) (st : Registry)
      → CloseResult sid st (cmd_close iterate call_backend meanwhile sid st)
  unfolding cmd_close
  cmd_close-CloseResult sid st = close_on-CloseResult sid st _

any-keep :
    (p : Text → Bool) (sid : Text) (ss : List Text)
    → any (λ s. text_eq s sid) (keep p ss) ≡ any (λ s. text_eq s sid) ss && p sid
any-keep p sid [] = refl
any-keep p sid (s ∷ ss) = elim (Bool-cases (text_eq s sid)) [
  | inl y ↦
      let e : p s ≡ p sid = ap p ((text_eq_iff s sid).0 y) in ground (arith, any-keep p sid ss)
  | inr n ↦ ground (arith, any-keep p sid ss)
]

-- The list of a caller with a user id and no administrator's role holds a session exactly if the
-- worker's list holds it and the caller may attach to it.
pub scope-bridge :
    (st : Registry) (sessions : List Text) (uid sid : Text)
    → any
        (λ s. text_eq s sid)
        (scope_sessions_to_caller sessions (some uid) false st.session_to_owner)
      ≡ any (λ s. text_eq s sid) sessions && caller_may_bridge st sid uid false
unfolding scope_sessions_to_caller caller_may_bridge
scope-bridge st sessions uid sid =
    any-keep (λ x. owned_by (find x st.session_to_owner) uid) sid sessions
