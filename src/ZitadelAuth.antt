-- ===== src/ZitadelAuth.antt =====
-- The token verification of crates/zitadel-auth/src/lib.rs. The jsonwebtoken crate decodes and
-- checks signatures; it enters as the record `Jwt`, and what it is asked to check is `Validation`.
pub mod Verified
use llm_chat.Prelude.{
  ℕ, ◌==◌, Text, Bool, true, false, not, Option, none, some, List, [], ◌∷◌, ◌++◌, lit, any, map,
  text_eq, is_empty, trim, split, strip_prefix, find, keep, Result, ok, err, ◌>>=◌, unwrap_or,
  and_then, if◌then◌else◌,
}
use llm_chat.Json.{Json, obj, Fields, end, field, get, get_str}

pub record Principal : Type 0 where
  pub user_id : Text
  pub org_id : Text
  pub roles : List Text
  pub email : Option Text

-- `Principal::has`
abbrev pub has : Principal → Text → Bool
has p role = any (λ r. text_eq r role) p.roles

pub data AuthError : Type 0 where
  missing malformed : AuthError
  unknown_key invalid jwks_fetch forbidden : Text → AuthError

pub record ZitadelConfig : Type 0 where
  pub issuer : Text
  pub audience : List Text
  pub jwks_uri : Text
  pub project_id : Text

abbrev or_err : Option Text → Text → Result Text Text
or_err none e = err e
or_err (some v) e = ok v

abbrev nonempty : List Text → Text → Result (List Text) Text
nonempty [] e = err e
nonempty (x ∷ xs) e = ok (x ∷ xs)

abbrev slash_or : ℕ → Text → Text
slash_or c [] = if c == b'/' then [] else c ∷ []
slash_or c (d ∷ s) = c ∷ d ∷ s

-- `trim_end_matches('/')`
unfoldable pub trim_slashes : Text → Text
trim_slashes [] = []
trim_slashes (c ∷ s) = slash_or c (trim_slashes s)

-- `ZitadelConfig::from_env`, from the three variables.
unfoldable pub from_env : Option Text → Option Text → Option Text → Result ZitadelConfig Text
unfolding trim_slashes split trim
from_env issuer_var audience_var project_var = do
  raw ← or_err issuer_var (lit "ZITADEL_ISSUER not set")
  let issuer = trim_slashes raw
  list ← or_err audience_var (lit "ZITADEL_AUDIENCE not set")
  let audience = keep (λ s. not (is_empty s)) (map trim (split b',' list))
  audience ← nonempty audience (lit "ZITADEL_AUDIENCE is empty after parse")
  project_id ← or_err project_var (lit "ZITADEL_PROJECT_ID not set")
  ok (record {
    issuer = issuer;
    audience = audience;
    jwks_uri = issuer ++ lit "/oauth/v2/keys";
    project_id = project_id;
  })

-- What `decode` is told to check besides the signature.
pub record Validation : Type 0 where
  pub algorithms : List Text
  pub required_spec_claims : List Text
  pub issuer : List Text
  pub audience : List Text

-- The jsonwebtoken crate: the `kid` of a header, and the claims of a token that passes.
pub record Jwt : Type 1 where
  pub DecodingKey : Type 0
  pub decode_header : Text → Result (Option Text) Text
  pub decode : Text → DecodingKey → Validation → Result Json Text

unfoldable pub keys : Fields → List Text
keys end = []
keys (field k v fs) = k ∷ keys fs

abbrev object_keys : Option Json → List Text
object_keys (some (obj fs)) = keys fs
object_keys _ = []

unfoldable pub roles_from_claims : Json → Text → List Text
unfolding keys
roles_from_claims claims project_id =
    object_keys (get claims (lit "urn:zitadel:iam:org:project:" ++ (project_id ++ lit ":roles")))

abbrev filled : Option Text → Option Text
filled none = none
filled (some s) = if is_empty s then none else some s

abbrev pub invalid_unless : {A : Type 0} → Option A → AuthError → Result A (AuthError)
invalid_unless none e = err e
invalid_unless (some a) e = ok a

abbrev pub mapped : {A : Type 0} → Result A Text → Result A AuthError
mapped (ok a) = ok a
mapped (err e) = err (invalid e)

-- The claims' part of `verify_sync`.
unfoldable pub principal_of : ZitadelConfig → Json → Result Principal AuthError
unfolding roles_from_claims
principal_of cfg claims = do
  user_id ←
      invalid_unless (filled (get_str claims (lit "sub")))
        (invalid (lit "missing or empty sub claim"))
  ok (record {
    user_id = user_id;
    org_id = unwrap_or (get_str claims (lit "urn:zitadel:iam:user:resourceowner:id")) [];
    roles = roles_from_claims claims cfg.project_id;
    email = get_str claims (lit "email");
  })

unfoldable pub validation_of : ZitadelConfig → Validation
validation_of cfg = record {
  algorithms = lit "RS256" ∷ [];
  required_spec_claims = lit "exp" ∷ lit "iss" ∷ lit "aud" ∷ lit "sub" ∷ [];
  issuer = cfg.issuer ∷ [];
  audience = cfg.audience;
}

module _ (jwt : Jwt) where
  open jwt use {DecodingKey, decode_header, decode}

  -- The cache holds no keys until the first refresh.
  unfoldable pub verify_sync :
      ZitadelConfig → Option (List (Text × DecodingKey)) → Text → Result Principal AuthError
  unfolding principal_of validation_of find lit
  verify_sync cfg cache token = do
    header ← mapped (decode_header token)
    kid ← invalid_unless header (invalid (lit "missing kid"))
    inner ← invalid_unless cache (jwks_fetch (lit "cache empty"))
    key ← invalid_unless (find kid inner) (unknown_key kid)
    claims ← mapped (decode token key (validation_of cfg))
    principal_of cfg claims

-- The Authorization header: absent, present as readable text, or present and unreadable.
pub data Header : Type 0 where
  absent unreadable : Header
  value : Text → Header

abbrev bearer : Option Text → Result Text AuthError
bearer none = err malformed
bearer (some t) = ok (trim t)

unfoldable pub extract_bearer : Header → Result Text AuthError
unfolding trim strip_prefix
extract_bearer absent = err missing
extract_bearer unreadable = err malformed
extract_bearer (value s) = bearer (strip_prefix (lit "Bearer ") s)
