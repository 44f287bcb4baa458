-- ===== src/Manager/Query/Redaction.antt =====
-- The parameters of a query that `redact_query` (manager/src/main.rs) prints.
use llm_chat.Prelude.{
  ℕ, ◌≡◌, ◌≢◌, refl, sym, ap, ◌∙◌, inl, inr, Text, true, false, List, [], ◌∷◌, ◌++◌, lit, map, All,
  All-append, split, push_first, join, ◌==◌, Bool-cases, if◌then◌else◌, arith,
}
use mathlib.Core.Path.{subst}
use llm_chat.Manager.Query.{param_name, is_secret, redact_param, redact_query}

abbrev Avoids : ℕ → Text → Type 0
Avoids c s = All (λ x. x ≢ c) s

split-Avoids : (c : ℕ) (s : Text) → All (Avoids c) (split c s)
unfolding split
split-Avoids c [] = (tt, tt)
split-Avoids c (x ∷ s) = elim (Bool-cases (x == c)) [
  | inl y ↦ rw y (tt, split-Avoids c s)
  | inr n ↦ rw n (first (split c s) (ground arith) (split-Avoids c s))
]
  where
    first : (ps : List Text) → x ≢ c → All (Avoids c) ps → All (Avoids c) (push_first x ps)
    first [] ne h = ((ne, tt), tt)
    first (p ∷ ps) ne (a, h) = ((ne, a), h)

-- A part that avoids the separator, and then the separator.
split-part : (c : ℕ) (p rest : Text) → Avoids c p → split c (p ++ c ∷ rest) ≡ p ∷ split c rest
unfolding split
split-part c [] rest h = ground arith
split-part c (x ∷ p) rest (ne, h) =
    ap (λ l. if x == c then [] ∷ l else push_first x l) (split-part c p rest h) ∙ ground arith

split-last : (c : ℕ) (p : Text) → Avoids c p → split c p ≡ p ∷ []
unfolding split
split-last c [] h = refl
split-last c (x ∷ p) (ne, h) =
    ap (λ l. if x == c then [] ∷ l else push_first x l) (split-last c p h) ∙ ground arith

split-join :
    (c : ℕ) (p : Text) (ps : List Text)
    → All (Avoids c) (p ∷ ps)
    → split c (join (c ∷ []) (p ∷ ps)) ≡ p ∷ ps
unfolding join
split-join c p [] (a, h) = split-last c p a
split-join c p (q ∷ ps) (a, h) =
    split-part c p (join (c ∷ []) (q ∷ ps)) a ∙ ap (λ l. p ∷ l) (split-join c q ps h)

split-cons : (c : ℕ) (s : Text) → (p : Text) × (ps : List Text) × (split c s ≡ p ∷ ps)
unfolding split
split-cons c [] = ([], [], refl)
split-cons c (x ∷ s) = elim (Bool-cases (x == c)) [
  | inl y ↦ ([], split c s, rw y)
  | inr n ↦ let (p, ps, e) = split-cons c s in (x ∷ p, ps, rw n (ap (push_first x) e))
]

param_name-Avoids : (c : ℕ) (kv : Text) → Avoids c kv → Avoids c (param_name kv)
unfolding param_name
param_name-Avoids c [] h = tt
param_name-Avoids c (x ∷ s) (ne, h) = elim (Bool-cases (x == b'=')) [
  | inl y ↦ rw y tt
  | inr n ↦ rw n (ne, param_name-Avoids c s h)
]

param_name-append : (kv rest : Text) → param_name (param_name kv ++ b'=' ∷ rest) ≡ param_name kv
unfolding param_name
param_name-append [] rest = refl
param_name-append (x ∷ s) rest = elim (Bool-cases (x == b'=')) [
  | inl y ↦ rw y refl
  | inr n ↦ rw (n, param_name) (rw n (ap (λ l. x ∷ l) (param_name-append s rest)))
]

module _ (kv : Text) (secret : is_secret (param_name kv) ≡ true) where
  redacted : redact_param kv ≡ param_name kv ++ lit "=<redacted>"
  redacted = rw secret

  name-redacted : param_name (redact_param kv) ≡ param_name kv
  unfolding lit
  name-redacted = ap param_name redacted ∙ param_name-append kv _

plain_param : (kv : Text) → is_secret (param_name kv) ≡ false → redact_param kv ≡ kv
plain_param kv plain = rw plain

redact_param-Avoids : (kv : Text) → Avoids b'&' kv → Avoids b'&' (redact_param kv)
unfolding lit
redact_param-Avoids kv h = elim (Bool-cases (is_secret (param_name kv))) [
  | inl y ↦ subst (Avoids b'&') (sym (redacted kv y)) (
      All-append (λ x. x ≢ b'&') (param_name kv) (lit "=<redacted>") (param_name-Avoids b'&' kv h)
        (omega arith))
  | inr n ↦ subst (Avoids b'&') (sym (plain_param kv n)) h
]

redact_params-Avoids :
    (ps : List Text) → All (Avoids b'&') ps → All (Avoids b'&') (map redact_param ps)
redact_params-Avoids [] h = tt
redact_params-Avoids (p ∷ ps) (a, h) = (redact_param-Avoids p a, redact_params-Avoids ps h)

-- Splitting the redacted query gives the redacted parameters: none is merged, split or lost.
split-redact_query : (q : Text) → split b'&' (redact_query q) ≡ map redact_param (split b'&' q)
unfolding redact_query
split-redact_query q =
    let (p, ps, e) = split-cons b'&' q in
    ap (λ l. split b'&' (join (b'&' ∷ []) (map redact_param l))) e
    ∙ split-join b'&' (redact_param p) (map redact_param ps)
        (redact_params-Avoids (p ∷ ps) (subst (All (Avoids b'&')) e (split-Avoids b'&' q)))
    ∙ sym (ap (map redact_param) e)

-- What a parameter of a redacted query shows.
abbrev pub IsHidden : Text → Type 0
IsHidden kv = is_secret (param_name kv) ≡ true → kv ≡ param_name kv ++ lit "=<redacted>"

redact_param-IsHidden : (kv : Text) → IsHidden (redact_param kv)
redact_param-IsHidden kv = elim (Bool-cases (is_secret (param_name kv))) [
  | inl y ↦ λ _. redacted kv y ∙ ap (λ n. n ++ lit "=<redacted>") (sym (name-redacted kv y))
  | inr n ↦ λ h. cc (h, ap (λ k. is_secret (param_name k)) (plain_param kv n), n)
]

redact_params-IsHidden : (ps : List Text) → All IsHidden (map redact_param ps)
redact_params-IsHidden [] = tt
redact_params-IsHidden (p ∷ ps) = (redact_param-IsHidden p, redact_params-IsHidden ps)

-- Every parameter of a redacted query whose name is token or access_token, in any letter case,
-- shows nothing but its name and the mark `=<redacted>`.
pub redact_query-IsHidden : (q : Text) → All IsHidden (split b'&' (redact_query q))
redact_query-IsHidden q =
    subst (All IsHidden) (sym (split-redact_query q)) (redact_params-IsHidden _)

-- Parameter by parameter: one that is to be redacted shows its name and the mark, and every other is
-- kept as it is.
pub data AllShown : List Text → List Text → Type 0 where
  no_more : AllShown [] []
  hidden :
      (p : Text) (ps qs : List Text)
      → is_secret (param_name p) ≡ true
      → AllShown ps qs
      → AllShown (p ∷ ps) ((param_name p ++ lit "=<redacted>") ∷ qs)
  kept :
      (p : Text) (ps qs : List Text)
      → is_secret (param_name p) ≡ false
      → AllShown ps qs
      → AllShown (p ∷ ps) (p ∷ qs)

redact_params-AllShown : (ps : List Text) → AllShown ps (map redact_param ps)
redact_params-AllShown [] = no_more
redact_params-AllShown (p ∷ ps) = elim (Bool-cases (is_secret (param_name p))) [
  | inl y ↦ rw y (hidden p ps _ y (redact_params-AllShown ps))
  | inr n ↦ rw n (kept p ps _ n (redact_params-AllShown ps))
]

-- A redacted query has the parameters of the query, one for one and in order: those whose name is
-- token or access_token, in any letter case, show their name and the mark `=<redacted>`, and all
-- others are as they were.
pub redact_query-AllShown : (q : Text) → AllShown (split b'&' q) (split b'&' (redact_query q))
redact_query-AllShown q =
    subst (AllShown (split b'&' q)) (sym (split-redact_query q)) (redact_params-AllShown _)
