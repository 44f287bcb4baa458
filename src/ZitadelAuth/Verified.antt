-- ===== src/ZitadelAuth/Verified.antt =====
-- What an accepted token has been checked for.
use llm_chat.Prelude.{
  >>=-eq-ok, ok-injective, ◌≡◌, ◌≢◌, sym, ap, ◌∙◌, Text, Option, none, some, List, [], ◌∷◌, lit,
  find, Result, ok, err, arith,
}
use llm_chat.Json.{Json, get_str}
use llm_chat.ZitadelAuth.{
  Principal, AuthError, ZitadelConfig, Jwt, roles_from_claims, principal_of, validation_of,
  verify_sync, invalid_unless, mapped, filled,
}

unless-eq-ok :
    {A : Type 0} (o : Option A) (e : AuthError) (a : A) → invalid_unless o e ≡ ok a → o ≡ some a
unless-eq-ok none e a h = cc
unless-eq-ok (some b) e a h = ground arith

mapped-eq-ok : {A : Type 0} (r : Result A Text) (a : A) → mapped r ≡ ok a → r ≡ ok a
mapped-eq-ok (ok b) a h = ground arith
mapped-eq-ok (err e) a h = cc

-- The claims name the principal, with a subject that is not empty and the roles of the project.
pub record IsNamed (cfg : ZitadelConfig) (claims : Json) (p : Principal) : Type 0 where
  pub subject : get_str claims (lit "sub") ≡ some p.user_id
  pub present : p.user_id ≢ []
  pub roles : p.roles ≡ roles_from_claims claims cfg.project_id

filled-eq-some : (o : Option Text) (s : Text) → filled o ≡ some s → (o ≡ some s) × (s ≢ [])
filled-eq-some none s h = cc
filled-eq-some (some []) s h = cc
filled-eq-some (some (c ∷ t)) s h = (h, λ e. ground arith)

principal_of-IsNamed :
    (cfg : ZitadelConfig) (claims : Json) (p : Principal)
    → principal_of cfg claims ≡ ok p
    → IsNamed cfg claims p
unfolding principal_of
principal_of-IsNamed cfg claims p h =
    let (sub, e, k) = >>=-eq-ok _ _ h in
    let same = ok-injective k in
    let (found, filled) = filled-eq-some _ sub (unless-eq-ok _ _ sub e) in
    record {
      subject = found ∙ ap (λ (r : Principal). some r.user_id) same;
      present = λ n. filled (ap (λ (r : Principal). r.user_id) same ∙ n);
      roles = sym (ap (λ (r : Principal). r.roles) same);
    }

module _ (jwt : Jwt) (cfg : ZitadelConfig) (cache : Option (List (Text × jwt.DecodingKey)))
    (token : Text) where
  -- A key of the cache, named by the token's header, checked the token against the configured
  -- issuer and audience, and its claims name the principal.
  pub record IsVerified (p : Principal) : Type 0 where
    pub kid : Text
    pub keys : List (Text × jwt.DecodingKey)
    pub key : jwt.DecodingKey
    pub claims : Json
    pub header : jwt.decode_header token ≡ ok (some kid)
    pub cached : cache ≡ some keys
    pub known : find kid keys ≡ some key
    pub decoded :
        jwt.decode token key (record {
          algorithms = lit "RS256" ∷ [];
          required_spec_claims = lit "exp" ∷ lit "iss" ∷ lit "aud" ∷ lit "sub" ∷ [];
          issuer = cfg.issuer ∷ [];
          audience = cfg.audience;
        })
        ≡ ok claims
    pub named : IsNamed cfg claims p

  pub verify_sync-IsVerified :
      (p : Principal) → verify_sync jwt cfg cache token ≡ ok p → IsVerified p
  unfolding verify_sync validation_of
  verify_sync-IsVerified p h =
      let (head, e1, h1) = >>=-eq-ok _ _ h in
      let (kid, e2, h2) = >>=-eq-ok _ _ h1 in
      let (keys, e3, h3) = >>=-eq-ok _ _ h2 in
      let (key, e4, h4) = >>=-eq-ok _ _ h3 in
      let (claims, e5, h5) = >>=-eq-ok _ _ h4 in
      record {
        kid = kid;
        keys = keys;
        key = key;
        claims = claims;
        header = mapped-eq-ok _ head e1 ∙ ap ok (unless-eq-ok head _ kid e2);
        cached = unless-eq-ok cache _ keys e3;
        known = unless-eq-ok _ _ key e4;
        decoded = mapped-eq-ok _ claims e5;
        named = principal_of-IsNamed cfg claims p h5;
      }
