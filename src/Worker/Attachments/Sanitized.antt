-- ===== src/Worker/Attachments/Sanitized.antt =====
-- The names that `sanitize_path_component` (worker/src/lib.rs) returns.
use llm_chat.Prelude.{
  ℕ, ◌≡◌, ◌↔◌, refl, ap, Text, Bool, true, false, ◌&&◌, [], ◌∷◌, ◌++◌, zero, suc, take, map,
  all_chars, contains_char, ◌==◌, Bool-cases, inl, inr, ==_iff, arith,
}
use mathlib.Core.Path.{subst}
use llm_chat.Worker.UserEnv.{is_special, has_bad_char}
use llm_chat.Worker.Attachments.{safe_char, cleaned_char, sanitize_path_component}

-- A component of a path that stays where it is put: it is neither empty nor a step up or in place,
-- it holds no separator and nothing that a system reads as one, and each of its characters is an
-- ASCII letter or digit, `-`, `_` or `.`.
pub record IsSafe (comp : Text) : Type 0 where
  pub plain : is_special comp ≡ false
  pub no_bad_char : has_bad_char comp ≡ false
  pub no_slash : contains_char b'/' comp ≡ false
  pub safe_chars : all_chars safe_char comp ≡ true

cleaned-safe : (s : Text) → all_chars safe_char (map cleaned_char s) ≡ true
cleaned-safe [] = refl
cleaned-safe (c ∷ s) = ground (arith, cleaned-safe s)

and_true : (a b : Bool) → (a && b) ≡ true → (a ≡ true) × (b ≡ true)
and_true a b h = ground arith

-- A text of characters that pass a test lacks any that does not.
lacks :
    (p : ℕ → Bool) (d : ℕ) (s : Text)
    → p d ≡ false
    → all_chars p s ≡ true
    → contains_char d s ≡ false
lacks p d [] h k = refl
lacks p d (c ∷ s) h k =
    let (here, there) = and_true (p c) (all_chars p s) k in
    elim (Bool-cases (c == d)) [
      | inl e ↦ cc (h, here, ap p ((==_iff c d).0 e))
      | inr n ↦ rw n (lacks p d s h there)
    ]

unescaped : (s : Text) → is_special s ≡ false → all_chars safe_char s ≡ true → IsSafe s
unescaped s h k = record {
  plain = h;
  no_bad_char =
      rw (lacks safe_char b'\\' s refl k, lacks safe_char b':' s refl k, lacks safe_char 0 s refl k)
        refl;
  no_slash = lacks safe_char b'/' s refl k;
  safe_chars = k;
}

pub sanitize_path_component-IsSafe : (s : Text) → IsSafe (sanitize_path_component s)
unfolding sanitize_path_component
sanitize_path_component-IsSafe s = elim (Bool-cases (is_special (map cleaned_char s))) [
  | inl y ↦ rw y (unescaped _ refl refl)
  | inr n ↦ rw n (unescaped _ n (cleaned-safe s))
]

-- A name that is safe stays as it is.
keeps_safe : (s : Text) → all_chars safe_char s ≡ true → map cleaned_char s ≡ s
keeps_safe [] h = refl
keeps_safe (c ∷ s) h =
    let (here, there) = and_true (safe_char c) (all_chars safe_char s) h in
    rw here (ap (λ t. c ∷ t) (keeps_safe s there))

unchanged : (s : Text) → IsSafe s → sanitize_path_component s ≡ s
unfolding sanitize_path_component
unchanged s h = rw (keeps_safe s h.safe_chars, h.plain) refl

-- A name is kept as it is exactly if it is a safe component: it is neither empty, `.` nor `..`, and
-- each of its characters is an ASCII letter or digit, `-`, `_` or `.`, so that it has no separator.
pub sanitize_path_component_fix : (s : Text) → (sanitize_path_component s ≡ s) ↔ IsSafe s
sanitize_path_component_fix s =
    (λ e. subst IsSafe e (sanitize_path_component-IsSafe s), unchanged s)

all_chars-append :
    (s t : Text)
    → all_chars safe_char s ≡ true
    → all_chars safe_char t ≡ true
    → all_chars safe_char (s ++ t) ≡ true
all_chars-append [] t h k = k
all_chars-append (c ∷ s) t h k =
    let (here, there) = and_true (safe_char c) (all_chars safe_char s) h in
    rw here (all_chars-append s t there k)

all_chars-take :
    (n : ℕ) (s : Text) → all_chars safe_char s ≡ true → all_chars safe_char (take n s) ≡ true
all_chars-take zero s h = refl
all_chars-take (suc n) [] h = refl
all_chars-take (suc n) (c ∷ s) h =
    let (here, there) = and_true (safe_char c) (all_chars safe_char s) h in
    rw here (all_chars-take n s there)

-- With a dash in it a name is no step.
dashed : (s t : Text) → is_special (s ++ b'-' ∷ t) ≡ false
dashed [] t = refl
dashed (c ∷ []) t = ground arith
dashed (c ∷ d ∷ []) t = ground arith
dashed (c ∷ d ∷ e ∷ s) t = ground arith

-- A prefix of safe characters, a dash and a safe name are a safe name.
pub dashed-IsSafe :
    (id file : Text)
    → all_chars safe_char id ≡ true
    → IsSafe file
    → IsSafe (take 8 id ++ b'-' ∷ file)
dashed-IsSafe id file h k =
    unescaped _ (dashed (take 8 id) file)
      (all_chars-append (take 8 id) (b'-' ∷ file) (all_chars-take 8 id h) k.safe_chars)
