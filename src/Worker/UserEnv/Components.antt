-- ===== src/Worker/UserEnv/Components.antt =====
-- The tests that `confine_path` makes of a component, in words.
use llm_chat.Prelude.{
  ℕ, ◌≡◌, ◌≢◌, ◌↔◌, ◌||◌, ◌==◌, ==_iff, refl, Text, Bool, true, false, List, [], ◌∷◌, All, All-zip,
  All-map_imp, text_eq, text_eq_iff, contains_char, is_empty, arith,
}
use llm_chat.Worker.UserEnv.{is_special, has_bad_char}

-- A character that separates nothing on any platform.
abbrev pub IsPlain : ℕ → Type 0
IsPlain c = (c ≢ b'\\') × ((c ≢ b':') × (c ≢ 0))

-- A component that names a child of its directory on every platform.
pub record IsSafe (comp : Text) : Type 0 where
  pub filled : comp ≢ []
  pub not_current : comp ≢ b'.' ∷ []
  pub not_parent : comp ≢ b'.' ∷ b'.' ∷ []
  pub plain : All IsPlain comp

abbrev pub IsUnflagged : Text → Type 0
IsUnflagged comp = (is_special comp ≡ false) × (has_bad_char comp ≡ false)

or_false : (a b : Bool) → a || b ≡ false → (a ≡ false) × (b ≡ false)
or_false true b h = cc
or_false false b h = (refl, h)

text_eq-false : (s t : Text) → text_eq s t ≡ false → s ≢ t
text_eq-false s t h e = cc (h, (text_eq_iff s t).1 e)

text_eq_ne : (s t : Text) → s ≢ t → text_eq s t ≡ false
text_eq_ne s t h = ground (arith, text_eq_iff s t)

contains_char-All : (c : ℕ) (s : Text) → contains_char c s ≡ false → All (λ x. x ≢ c) s
contains_char-All c [] h = tt
contains_char-All c (x ∷ s) h =
    let (a, b) = or_false (x == c) _ h in (λ e. cc (a, (==_iff x c).1 e), contains_char-All c s b)

contains_char-none : (c : ℕ) (s : Text) → All (λ x. x ≢ c) s → contains_char c s ≡ false
contains_char-none c [] h = refl
contains_char-none c (x ∷ s) (n, h) = ground (arith, contains_char-none c s h, n)

is_empty-ne : (s : Text) → is_empty s ≡ false → s ≢ []
is_empty-ne [] h e = cc
is_empty-ne (c ∷ s) h e = ground arith

ne-is_empty : (s : Text) → s ≢ [] → is_empty s ≡ false
ne-is_empty [] h = absurd (h refl)
ne-is_empty (c ∷ s) h = refl

IsUnflagged-IsSafe : (comp : Text) → IsUnflagged comp → IsSafe comp
IsUnflagged-IsSafe comp (s, b) =
    let (s', par) = or_false (is_empty comp || text_eq comp (b'.' ∷ [])) _ s in
    let (e, cur) = or_false (is_empty comp) _ s' in
    let (b', nul) = or_false (contains_char b'\\' comp || contains_char b':' comp) _ b in
    let (slash, colon) = or_false (contains_char b'\\' comp) _ b' in
    record {
      filled = is_empty-ne comp e;
      not_current = text_eq-false _ _ cur;
      not_parent = text_eq-false _ _ par;
      plain =
          All-zip (λ x. x ≢ b'\\') (λ x. (x ≢ b':') × (x ≢ 0)) comp
            (contains_char-All b'\\' comp slash)
            (All-zip (λ x. x ≢ b':') (λ x. x ≢ 0) comp (contains_char-All b':' comp colon)
              (contains_char-All 0 comp nul));
    }

lacks :
    (c : ℕ) (comp : Text)
    → ((x : ℕ) → IsPlain x → x ≢ c)
    → All IsPlain comp
    → contains_char c comp ≡ false
lacks c comp f h = contains_char-none c comp (All-map_imp IsPlain (λ x. x ≢ c) comp f h)

IsSafe-IsUnflagged : (comp : Text) → IsSafe comp → IsUnflagged comp
IsSafe-IsUnflagged comp h = (
  rw (ne-is_empty comp h.filled)
      (rw (text_eq_ne comp _ h.not_current) (text_eq_ne comp _ h.not_parent)),
  rw (lacks b'\\' comp (λ x p. p.0) h.plain)
      (rw (lacks b':' comp (λ x p. p.1.0) h.plain) (lacks 0 comp (λ x p. p.1.1) h.plain)),
)

module _ {ℓ} {A : Type ℓ} where
  All-both :
      (P Q : A → Type 0) (xs : List A)
      → ((x : A) → P x → Q x)
      → ((x : A) → Q x → P x)
      → All P xs ↔ All Q xs
  All-both P Q xs f g = (All-map_imp P Q xs f, All-map_imp Q P xs g)

-- The components pass the tests exactly if they are safe.
pub IsUnflagged-iff : (comps : List Text) → All IsUnflagged comps ↔ All IsSafe comps
IsUnflagged-iff comps = All-both IsUnflagged IsSafe comps IsUnflagged-IsSafe IsSafe-IsUnflagged
