-- ===== src/Manager/Access/Entitled.antt =====
-- The callers that reach the handlers of `handle_client` (manager/src/main.rs).
use llm_chat.Prelude.{
  err_ne_ok, >>=-eq-ok, ok-injective, ◌≡◌, refl, ap, ◌⊎◌, inl, inr, Text, Bool, true, false, Option,
  none, some, lit, find, text_eq, text_eq_iff, starts_with, is_empty, ◌||◌, Bool-cases, Result, ok,
  err, if◌then◌else◌, arith, List,
}
use mathlib.Core.Path.{subst}
use llm_chat.ZitadelAuth.{Principal, has, Jwt, AuthError, extract_bearer}
use llm_chat.ZitadelAuth.Verified.{IsVerified, verify_sync-IsVerified}
use llm_chat.Manager.Sessions.{Registry, caller_may_bridge, owned_by}
use llm_chat.Manager.Access.{
  Request, Captured, captured, is_web_origin, extract_token, nobody, or_401, Jwks, authenticate,
  handshake, with_role, legacy_auth, Route, identity, chat, provision, control, session_auto,
  session, root, reject, unknown_path, with_user, is_admin, bridge, route_session, route,
  handle_client,
}

-- The rights that a handler needs of the connection: the user it serves is the connection's user,
-- a session it attaches to is the user's own or the user is an administrator.
pub IsEntitled : Registry → Captured → Route → Type 0
IsEntitled st c (identity uid roles email token) = (c.user_id ≡ some uid) × (c.token ≡ some token)
IsEntitled st c (chat uid cwd rich token email) = (c.user_id ≡ some uid) × (c.token ≡ token)
IsEntitled st c (provision uid email token) = (c.user_id ≡ some uid) × (c.token ≡ some token)
IsEntitled st c (control uid) = (c.user_id ≡ some uid) × (is_admin c ≡ true)
IsEntitled st c (session_auto uid) = c.user_id ≡ some uid
IsEntitled st c (session sid prefix) =
    (uid : Text) × (c.user_id ≡ some uid)
    × ((find sid st.session_to_owner ≡ some uid) ⊎ (is_admin c ≡ true))
IsEntitled st c (root uid admin) = (c.user_id ≡ uid) × (is_admin c ≡ admin)
IsEntitled st c (reject why) = Unit
IsEntitled st c (unknown_path path) = Unit

module _ (st : Registry) (c : Captured) where
  if-IsEntitled :
      (b : Bool) (x y : Route)
      → (b ≡ true → IsEntitled st c x)
      → (b ≡ false → IsEntitled st c y)
      → IsEntitled st c (if b then x else y)
  if-IsEntitled true x y f g = f refl
  if-IsEntitled false x y f g = g refl

  with_user-IsEntitled :
      {A : Type 0} (o : Option A) (f : A → Route)
      → ((a : A) → o ≡ some a → IsEntitled st c (f a))
      → IsEntitled st c (with_user o f)
  unfolding with_user IsEntitled
  with_user-IsEntitled none f h = tt
  with_user-IsEntitled (some a) f h = h a refl

  owner-cases : (o : Option Text) (uid : Text) → owned_by o uid ≡ true → o ≡ some uid
  owner-cases none uid h = cc
  owner-cases (some owner) uid h = ap some ((text_eq_iff owner uid).0 h)

  may_bridge-cases :
      (sid uid : Text) (admin : Bool)
      → caller_may_bridge st sid uid admin ≡ true
      → (find sid st.session_to_owner ≡ some uid) ⊎ (admin ≡ true)
  unfolding caller_may_bridge
  may_bridge-cases sid uid true h = inr refl
  may_bridge-cases sid uid false h = inl (owner-cases _ uid h)

  module _ (from_utf8_lossy : Text → Text) (req : Request) where
    bridge-IsEntitled :
        (prefix sid uid : Text)
        → c.user_id ≡ some uid
        → IsEntitled st c (bridge from_utf8_lossy st req c prefix sid uid)
    unfolding bridge IsEntitled
    bridge-IsEntitled prefix sid uid e =
        if-IsEntitled (caller_may_bridge st sid uid (is_admin c)) _ _
          (λ h. (uid, e, may_bridge-cases sid uid (is_admin c) h)) (λ _. tt)

    route_session-IsEntitled : IsEntitled st c (route_session from_utf8_lossy st req c)
    unfolding route_session IsEntitled
    route_session-IsEntitled =
        if-IsEntitled (text_eq req.path (lit "/s/new")) _ _
          (λ _. with_user-IsEntitled c.user_id _ (λ uid e. e))
          (λ _.
            if-IsEntitled (starts_with (lit "/s/") req.path) _ _
              (λ _. with_user-IsEntitled c.user_id _ (bridge-IsEntitled (lit "/s/") _))
              (λ _.
                if-IsEntitled (starts_with (lit "/qa/") req.path) _ _
                  (λ _. with_user-IsEntitled c.user_id _ (bridge-IsEntitled (lit "/qa/") _))
                  (λ _.
                    if-IsEntitled (text_eq req.path (lit "/") || is_empty req.path) _ _
                      (λ _. (refl, refl)) (λ _. tt))))

    route-IsEntitled : IsEntitled st c (route from_utf8_lossy st req c)
    unfolding route IsEntitled
    route-IsEntitled =
        if-IsEntitled (text_eq req.path (lit "/identity")) _ _
          (λ _.
            with_user-IsEntitled c.user_id _
              (λ uid e. with_user-IsEntitled c.token _ (λ t k. (e, k))))
          (λ _.
            if-IsEntitled (text_eq req.path (lit "/chat")) _ _
              (λ _. with_user-IsEntitled c.user_id _ (λ uid e. (e, refl)))
              (λ _.
                if-IsEntitled (text_eq req.path (lit "/provision")) _ _
                  (λ _.
                    with_user-IsEntitled c.user_id _
                      (λ uid e. with_user-IsEntitled c.token _ (λ t k. (e, k))))
                  (λ _.
                    if-IsEntitled (text_eq req.path (lit "/control")) _ _
                      (λ _.
                        with_user-IsEntitled c.user_id _
                          (λ uid e. if-IsEntitled (is_admin c) _ _ (λ admin. (e, admin)) (λ _. tt)))
                      (λ _. route_session-IsEntitled))))

module _ (jwt : Jwt) (debug_roles : List Text → Text) where
  -- What the handshake has checked. With an identity provider the connection carries a bearer token
  -- whose verified principal has the role `chat.user`; without one it carries the shared token and
  -- is nobody.
  pub IsAdmitted : Option (Jwks jwt) → Text → Request → Captured → Type 0
  IsAdmitted none expected req c =
      (extract_token req.authorization req.query ≡ some expected) × (c ≡ nobody)
  IsAdmitted (some (cfg, cache)) expected req c =
      (token : Text) × (p : Principal) × (extract_bearer req.authorization ≡ ok token)
      × IsVerified jwt cfg cache token p
      × (has p (lit "chat.user") ≡ true)
      × (c ≡ captured p token)

  legacy_auth-ok :
      (expected : Text) (provided : Option Text) (c : Captured)
      → legacy_auth jwt debug_roles expected provided ≡ ok c
      → (provided ≡ some expected) × (c ≡ nobody)
  legacy_auth-ok expected none c h = cc
  legacy_auth-ok expected (some provided) c h = elim (Bool-cases (text_eq provided expected)) [
    | inl t ↦ (ap some ((text_eq_iff provided expected).0 t), ground arith)
    | inr f ↦ ground arith
  ]

  with_role-ok :
      (p : Principal) (token : Text) (c : Captured)
      → with_role jwt debug_roles p token ≡ ok c
      → (has p (lit "chat.user") ≡ true) × (c ≡ captured p token)
  with_role-ok p token c h = elim (Bool-cases (has p (lit "chat.user"))) [
    | inl t ↦ (t, ground arith)
    | inr f ↦ ground arith
  ]

  or_401-ok : {A : Type 0} (r : Result A AuthError) (a : A) → or_401 r ≡ ok a → r ≡ ok a
  or_401-ok (ok b) a h = ground arith
  or_401-ok (err e) a h = cc

  authenticate-IsAdmitted :
      (jwks : Option (Jwks jwt)) (expected : Text) (req : Request) (c : Captured)
      → authenticate jwt debug_roles jwks expected req ≡ ok c
      → IsAdmitted jwks expected req c
  unfolding authenticate IsAdmitted
  authenticate-IsAdmitted none expected req c h = legacy_auth-ok expected _ c h
  authenticate-IsAdmitted (some (cfg, cache)) expected req c h =
      let (token, e1, h1) = >>=-eq-ok _ _ h in
      let (p, e2, h2) = >>=-eq-ok _ _ h1 in
      let (role, same) = with_role-ok p token c h2 in
      (
        token,
        p,
        or_401-ok _ token e1,
        verify_sync-IsVerified jwt cfg cache token p (or_401-ok _ p e2),
        role,
        same,
      )

  handshake-ok :
      (jwks : Option (Jwks jwt)) (expected : Text) (req : Request) (c : Captured)
      → handshake jwt debug_roles jwks expected req ≡ ok c
      → (is_web_origin req.origin ≡ false) × IsAdmitted jwks expected req c
  unfolding handshake
  handshake-ok jwks expected req c h = elim (Bool-cases (is_web_origin req.origin)) [
    | inl t ↦ absurd (err_ne_ok (rw t at h))
    | inr f ↦ (f, authenticate-IsAdmitted jwks expected req c (rw f at h))
  ]

  -- A connection that reaches a handler does not come from a web page's origin, has passed the
  -- handshake's check (a verified token of a user with the role `chat.user`, or the shared token
  -- where no identity provider is configured, and then it has no user), and is entitled to the
  -- handler: the user served is the token's user, `/control` is for administrators, and a session
  -- is bridged for its owner or an administrator.
  pub handle_client-IsEntitled :
      (from_utf8_lossy : Text → Text) (st : Registry) (jwks : Option (Jwks jwt)) (expected : Text)
      (req : Request) (r : Route)
      → handle_client jwt debug_roles from_utf8_lossy st jwks expected req ≡ ok r
      → (is_web_origin req.origin ≡ false)
        × (c : Captured) × IsAdmitted jwks expected req c
        × IsEntitled st c r
  unfolding handle_client
  handle_client-IsEntitled from_utf8_lossy st jwks expected req r h =
      let (c, e, k) = >>=-eq-ok _ _ h in
      let (origin, admitted) = handshake-ok jwks expected req c e in
      (
        origin,
        c,
        admitted,
        subst (IsEntitled st c) (ok-injective k) (route-IsEntitled st c from_utf8_lossy req),
      )
