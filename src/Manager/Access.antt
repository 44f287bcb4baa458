-- ===== src/Manager/Access.antt =====
-- The handshake and the routing of `handle_client` (manager/src/main.rs): who may connect, and which
-- handler a connection reaches. The requests are those of the WebSocket upgrade.
pub mod Entitled
use llm_chat.Prelude.{
  ℕ, Text, Bool, true, false, not, ◌||◌, Option, none, some, List, [], ◌∷◌, ◌++◌, lit, any, drop,
  text_eq, is_empty, trim, split, strip_prefix, starts_with, Result, ok, err, ◌>>=◌, unwrap_or,
  if◌then◌else◌,
}
use llm_chat.ZitadelAuth.{
  Principal, has, AuthError, missing, malformed, unknown_key, invalid, jwks_fetch, forbidden,
  ZitadelConfig, Jwt, verify_sync, Header, absent, unreadable, value, extract_bearer,
}
use llm_chat.Manager.Query.{query_token, parse_query_param}
use llm_chat.Manager.Sessions.{Registry, caller_may_bridge}

pub record Request : Type 0 where
  pub path : Text
  pub query : Option Text
  pub origin : Header
  pub authorization : Header

pub record ErrorResponse : Type 0 where
  pub status : ℕ
  pub body : Text

-- `AuthError`'s messages.
abbrev pub message : AuthError → Text
message missing = lit "missing Authorization header"
message malformed = lit "malformed Authorization header"
message (unknown_key kid) = lit "unknown signing key: " ++ kid
message (invalid e) = lit "token validation failed: " ++ e
message (jwks_fetch e) = lit "JWKS fetch failed: " ++ e
message (forbidden role) = lit "forbidden: " ++ role

-- What the callback of the handshake leaves in its holders.
pub record Captured : Type 0 where
  pub user_id : Option Text
  pub roles : List Text
  pub token : Option Text
  pub email : Option Text

abbrev header_text : Header → Text
header_text (value s) = s
header_text _ = []

-- A page of a browser has an origin with one of these schemes.
unfoldable pub is_web_origin : Header → Bool
is_web_origin origin =
    starts_with (lit "http://") (header_text origin)
    || starts_with (lit "https://") (header_text origin)

abbrev bearer_part : Header → Option Text
bearer_part (value s) = elim (strip_prefix (lit "Bearer ") s) [
  | none ↦ none
  | some t ↦ some (trim t)
]
bearer_part _ = none

unfoldable pub extract_token : Header → Option Text → Option Text
unfolding query_token split strip_prefix trim
extract_token authorization query = elim (bearer_part authorization) [
  | some t ↦ some t
  | none ↦ elim query [ none ↦ none | some q ↦ query_token (split b'&' q) ]
]

abbrev pub nobody : Captured
nobody = record { user_id = none; roles = []; token = none; email = none }

abbrev pub captured : Principal → Text → Captured
captured p token = record {
  user_id = some p.user_id;
  roles = p.roles;
  token = some token;
  email = p.email;
}

abbrev pub refused : {A : Type 0} → ℕ → Text → Result A ErrorResponse
refused status body = err (record { status = status; body = body })

abbrev pub or_401 : {A : Type 0} → Result A AuthError → Result A ErrorResponse
or_401 (ok a) = ok a
or_401 (err e) = refused 401 (lit "auth: " ++ message e)

module _ (jwt : Jwt) where
  -- The identity provider and its keys, as far as they are cached.
  abbrev pub Jwks : Type 0
  Jwks = ZitadelConfig × Option (List (Text × jwt.DecodingKey))

-- `debug_roles` prints a list of roles.
module _ (jwt : Jwt) (debug_roles : List Text → Text) where
  abbrev missing_role : Principal → Text
  missing_role p =
      lit "missing role chat.user (principal "
      ++ (p.user_id ++ (lit " has roles " ++ (debug_roles p.roles ++ lit ")")))

  -- The shared token, when no identity provider is configured.
  abbrev pub legacy_auth : Text → Option Text → Result Captured ErrorResponse
  legacy_auth expected none = refused 401 (lit "missing auth token")
  legacy_auth expected (some provided) =
      if text_eq provided expected then ok nobody else refused 401 (lit "invalid auth token")

  abbrev pub with_role : Principal → Text → Result Captured ErrorResponse
  with_role p token =
      if has p (lit "chat.user") then ok (captured p token) else refused 403 (missing_role p)

  unfoldable pub authenticate : Option (Jwks jwt) → Text → Request → Result Captured ErrorResponse
  unfolding extract_bearer verify_sync extract_token
  authenticate none expected req = legacy_auth expected (extract_token req.authorization req.query)
  authenticate (some (cfg, cache)) expected req = do
    token ← or_401 (extract_bearer req.authorization)
    p ← or_401 (verify_sync jwt cfg cache token)
    with_role p token

  unfoldable pub handshake : Option (Jwks jwt) → Text → Request → Result Captured ErrorResponse
  unfolding authenticate is_web_origin
  handshake jwks expected req =
      if is_web_origin req.origin
      then refused 403 (lit "origin not allowed")
      else authenticate jwks expected req

-- The handler a connection reaches, with its arguments. `reject` sends one error frame and closes.
pub data Route : Type 0 where
  identity : (uid : Text) → (roles : List Text) → (email : Option Text) → (token : Text) → Route
  chat :
      (uid : Text)
      → (cwd : Option Text) → (rich : Option Text) → (token : Option Text) → (email : Option Text)
      → Route
  provision : (uid : Text) → (email : Option Text) → (token : Text) → Route
  control : (uid : Text) → Route
  session_auto : (uid : Text) → Route
  session : (sid : Text) → (prefix : Text) → Route
  root : (uid : Option Text) → (is_admin : Bool) → Route
  reject : (why : Text) → Route
  unknown_path : (path : Text) → Route

abbrev pub reject_no_user : Route
reject_no_user = reject (lit "per-user environment requires an authenticated user id")

unfoldable pub with_user : {A : Type 0} → Option A → (A → Route) → Route
with_user none f = reject_no_user
with_user (some u) f = f u

abbrev pub is_admin : Captured → Bool
is_admin c = any (λ r. text_eq r (lit "chat.admin")) c.roles

module _ (from_utf8_lossy : Text → Text) (st : Registry) (req : Request) (c : Captured) where
  abbrev param : Text → Option Text
  param key = parse_query_param from_utf8_lossy (unwrap_or req.query []) key

  -- `/s/{sid}` and `/qa/{sid}`: the owner or an administrator.
  unfoldable pub bridge : Text → Text → Text → Route
  unfolding caller_may_bridge
  bridge prefix sid uid =
      if caller_may_bridge st sid uid (is_admin c)
      then session sid prefix
      else reject (lit "not the owner of this session")

  unfoldable pub route_session : Route
  unfolding with_user bridge
  route_session =
      if text_eq req.path (lit "/s/new")
      then with_user c.user_id session_auto
      else if starts_with (lit "/s/") req.path
      then with_user c.user_id (bridge (lit "/s/") (drop 3 req.path))
      else if starts_with (lit "/qa/") req.path
      then with_user c.user_id (bridge (lit "/qa/") (drop 4 req.path))
      else if text_eq req.path (lit "/") || is_empty req.path
      then root c.user_id (is_admin c)
      else unknown_path req.path

  abbrev ops : Text → Route
  ops uid = if is_admin c then control uid else reject (lit "control requires the chat.admin role")

  unfoldable pub route : Route
  unfolding with_user route_session
  route =
      if text_eq req.path (lit "/identity")
      then with_user c.user_id (λ uid. with_user c.token (identity uid c.roles c.email))
      else if text_eq req.path (lit "/chat")
      then with_user c.user_id
          (λ uid. chat uid (param (lit "cwd")) (param (lit "rich")) c.token c.email)
      else if text_eq req.path (lit "/provision")
      then with_user c.user_id (λ uid. with_user c.token (provision uid c.email))
      else if text_eq req.path (lit "/control")
      then with_user c.user_id ops
      else route_session

-- A connection from its request to its handler. `st` is the registry when the route is chosen.
unfoldable pub handle_client :
    (jwt : Jwt)
    → (List Text → Text)
    → (Text → Text)
    → Registry
    → Option (Jwks jwt)
    → Text
    → Request
    → Result Route ErrorResponse
unfolding handshake route
handle_client jwt debug_roles from_utf8_lossy st jwks expected req = do
  c ← handshake jwt debug_roles jwks expected req
  ok (route from_utf8_lossy st req c)
