-- ===== src/Manager/Pairing/Maps.antt =====
-- Maps from connections with one entry changed, and queues as the rest of a list.
use llm_chat.Prelude.{
  ℕ, zero, suc, ◌≤◌, ◌<◌, ◌≡◌, ◌≢◌, refl, ◌⊎◌, inl, inr, Text, none, some, List, [], ◌∷◌, ◌++◌,
  length, drop, head?, tail, Bool-cases, text_eq, text_eq_iff, text_eq_refl, arith,
}
use mathlib.Core.Path.{subst}
use llm_chat.Manager.Pairing.{put}

module _ {ℓ} {A : Type ℓ} where
  pub drop-snoc :
      (n : ℕ) (xs : List A) (x : A) → n ≤ length xs → drop n (xs ++ x ∷ []) ≡ drop n xs ++ x ∷ []
  drop-snoc zero xs x h = refl
  drop-snoc (suc n) [] x h = absurd (omega arith)
  drop-snoc (suc n) (y ∷ ys) x h = drop-snoc n ys x (omega arith)

  pub tail-drop : (n : ℕ) (xs : List A) → tail (drop n xs) ≡ drop (suc n) xs
  tail-drop zero [] = refl
  tail-drop zero (y ∷ ys) = refl
  tail-drop (suc n) [] = refl
  tail-drop (suc n) (y ∷ ys) = tail-drop n ys

  pub head-drop : (n : ℕ) (xs : List A) (x : A) → head? (drop n xs) ≡ some x → n < length xs
  head-drop zero [] x h = cc
  head-drop zero (y ∷ ys) x h = omega arith
  head-drop (suc n) [] x h = cc
  head-drop (suc n) (y ∷ ys) x h = omega (arith, head-drop n ys x h)

  pub head-none : (xs : List A) → head? xs ≡ none → xs ≡ []
  head-none [] h = refl
  head-none (x ∷ xs) h = cc

  pub put_self : (c : Text) (x : A) (f : Text → A) → put c x f c ≡ x
  put_self c x f = rw (text_eq_refl c)

  pub put_other : (c d : Text) (x : A) (f : Text → A) → c ≢ d → put c x f d ≡ f d
  put_other c d x f ne = ground (arith, text_eq_iff c d)

same_text : (c d : Text) → (c ≡ d) ⊎ (c ≢ d)
same_text c d = elim (Bool-cases (text_eq c d)) [
  | inl y ↦ inl ((text_eq_iff c d).0 y)
  | inr n ↦ inr (λ e. cc (n, (text_eq_iff c d).1 e))
]

-- A fact about every connection, from the changed one and the others.
pub each : (P : Text → Type 0) (c : Text) → P c → ((d : Text) → c ≢ d → P d) → (d : Text) → P d
each P c own others d = elim (same_text c d) [ inl e ↦ subst P e own | inr ne ↦ others d ne ]
