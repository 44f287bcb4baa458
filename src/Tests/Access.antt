-- ===== src/Tests/Access.antt =====
-- A small registry with two workers, and a token of one identity provider.
use llm_chat.Prelude.{
  ℕ, ◌≤◌, ◌≡◌, ◌↔◌, ◌&&◌, refl, inl, Text, false, Option, none, some, List, [], ◌∷◌, ◌++◌, lit, any,
  text_eq, Result, ok, strip_prefix, trim,
}
use llm_chat.Json.{Json, str, obj, field, end}
use llm_chat.ZitadelAuth.{
  Principal, Jwt, ZitadelConfig, absent, value, verify_sync, principal_of, roles_from_claims, keys,
  validation_of, extract_bearer,
}
use llm_chat.Manager.Sessions.{
  Registry, counts, start_counts, count_sessions, start_count, bump, pick_least_loaded_port,
  min_from, caller_may_bridge, cmd_open, cmd_close, register, scope_sessions_to_caller,
}
use llm_chat.Manager.Sessions.Ownership.{
  OpenedFor, CloseResult, cmd_open-OpenedFor, cmd_close-CloseResult, scope-bridge,
}
use llm_chat.Manager.Sessions.Balance.{In, load, pick-least}
use llm_chat.Manager.Access.{
  handshake, authenticate, route, with_user, Request, control, handle_client, is_web_origin,
  Captured,
}
use llm_chat.Manager.Access.Entitled.{IsAdmitted, IsEntitled, handle_client-IsEntitled}

abbrev s1 : Text
s1 = lit "s1"

abbrev s2 : Text
s2 = lit "s2"

abbrev ann : Text
ann = lit "ann"

abbrev registry : Registry
registry = record {
  instance_ports = 7878 ∷ 7879 ∷ [];
  session_to_port = (s1, 7878) ∷ [];
  session_to_owner = (s1, ann) ∷ [];
  clients = [];
}

-- The map is iterated as it is stored.
abbrev in_order : List (ℕ × ℕ) → List (ℕ × ℕ)
in_order m = m

in_order-same : (e : ℕ × ℕ) (m : List (ℕ × ℕ)) → In e (in_order m) ↔ In e m
in_order-same e m = (λ h. h, λ h. h)

picked : pick_least_loaded_port in_order registry ≡ some 7879
unfolding pick_least_loaded_port counts start_counts count_sessions start_count bump min_from
picked = refl

pick-least_example : load 7879 registry.session_to_port ≤ load 7878 registry.session_to_port
pick-least_example = pick-least in_order in_order-same registry 7879 7878 picked (inl refl)

abbrev worker_reply : ℕ → Json → Result Json Text
worker_reply port body = ok (obj (field (lit "sessionId") (str s2) end))

abbrev alone : Registry → Registry
alone st = st

abbrev opened_registry : Registry
opened_registry = register s2 7879 ann registry

opened_run :
    cmd_open in_order worker_reply alone ann none none registry
    ≡ (ok (s2, 7879, lit "stream-json"), opened_registry)
unfolding cmd_open pick_least_loaded_port counts start_counts count_sessions start_count bump
    min_from lit
opened_run = refl

cmd_open-OpenedFor_example : OpenedFor ann s2 7879 registry opened_registry
cmd_open-OpenedFor_example =
    cmd_open-OpenedFor in_order worker_reply alone ann none none registry opened_registry s2
      (lit "stream-json") 7879 opened_run

cmd_close-CloseResult_example :
    CloseResult in_order worker_reply alone s1 registry
      (cmd_close in_order worker_reply alone s1 registry)
cmd_close-CloseResult_example = cmd_close-CloseResult in_order worker_reply alone s1 registry

scope-bridge_example :
    any
      (λ s. text_eq s s1)
      (scope_sessions_to_caller (s1 ∷ s2 ∷ []) (some ann) false registry.session_to_owner)
    ≡ any (λ s. text_eq s s1) (s1 ∷ s2 ∷ []) && caller_may_bridge registry s1 ann false
scope-bridge_example = scope-bridge registry (s1 ∷ s2 ∷ []) ann s1

-- Claims of an administrator of the project `p`.
abbrev claims : Json
claims = obj (
    field (lit "sub") (str ann) (
      field (lit "urn:zitadel:iam:org:project:" ++ (lit "p" ++ lit ":roles"))
        (obj (field (lit "chat.user") (str []) (field (lit "chat.admin") (str []) end))) end))

abbrev jwt : Jwt
jwt = record {
  DecodingKey = ℕ;
  decode_header = λ t. ok (some (lit "k"));
  decode = λ t key v. ok claims;
}

abbrev config : ZitadelConfig
config = record {
  issuer = lit "https://id";
  audience = lit "a" ∷ [];
  jwks_uri = lit "https://id/oauth/v2/keys";
  project_id = lit "p";
}

abbrev cache : Option (List (Text × ℕ))
cache = some ((lit "k", 5) ∷ [])

abbrev admin : Principal
admin = record {
  user_id = ann;
  org_id = [];
  roles = lit "chat.user" ∷ lit "chat.admin" ∷ [];
  email = none;
}

-- The administrator asks for the control surface.
abbrev request : Request
request = record {
  path = lit "/control";
  query = none;
  origin = absent;
  authorization = value (lit "Bearer t");
}

abbrev debug_roles : List Text → Text
debug_roles roles = []

abbrev lossless : Text → Text
lossless s = s

routed :
    handle_client jwt debug_roles lossless registry (some (config, cache)) [] request
    ≡ ok (control ann)
unfolding handle_client handshake authenticate extract_bearer is_web_origin verify_sync principal_of
    roles_from_claims keys validation_of lit route with_user strip_prefix trim
routed = refl

handle_client-IsEntitled_example :
    (is_web_origin request.origin ≡ false)
    × (c : Captured) × IsAdmitted jwt debug_roles (some (config, cache)) [] request c
    × IsEntitled registry c (control ann)
handle_client-IsEntitled_example =
    handle_client-IsEntitled jwt debug_roles lossless registry (some (config, cache)) [] request
      (control ann) routed
