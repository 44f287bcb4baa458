-- ===== src/Worker/Io.antt =====
-- Actions on a world that may fail. What was done before a failure stays done.
use llm_chat.Prelude.{◌≡◌, refl, ap, Bool, true, false, Result, ok, err, err_ne_ok, if◌then◌else◌}

abbrev pub Io {ℓ} : Type ℓ → Type ℓ → Type ℓ → Type ℓ
Io W E A = W → Result A E × W

module _ {ℓ} {W E A : Type ℓ} where
  unfoldable pub pure : A → Io W E A
  pure a w = (ok a, w)

  unfoldable pub raise : E → Io W E A
  raise e w = (err e, w)

  unfoldable pub lift : Result A E → Io W E A
  lift r w = (r, w)

  -- An action that first looks at the world.
  unfoldable pub looking : (W → Io W E A) → Io W E A
  looking f w = f w w

module _ {ℓ} {W E A B : Type ℓ} where
  abbrev then_do : Result A E → (A → Io W E B) → Io W E B
  then_do (ok a) f w = f a w
  then_do (err e) f w = (err e, w)

  infixl 5 ◌>>=◌ ◌>>◌
  unfoldable pub ◌>>=◌ : Io W E A → (A → Io W E B) → Io W E B
  unfolding pure raise lift looking
  ◌>>=◌ m f w = let (r, v) = m w in then_do r f v

  abbrev pub ◌>>◌ : Io W E A → Io W E B → Io W E B
  m >> k = m >>= λ _. k

module _ {ℓ} {E F A : Type ℓ} where
  abbrev recoded : (E → F) → Result A E → Result A F
  recoded f (ok a) = ok a
  recoded f (err e) = err (f e)

module _ {ℓ} {W E F A : Type ℓ} where
  -- `map_err`
  unfoldable pub map_err : (E → F) → Io W E A → Io W F A
  map_err f m w = let (r, v) = m w in (recoded f r, v)

module _ {ℓ} {W E F A : Type ℓ} where
  recoded-eq-ok :
      (f : E → F) (r : Result A E) (u v : W) {a : A}
      → ◌≡◌ {A = Result A F × W} (recoded f r, u) (ok a, v)
      → ◌≡◌ {A = Result A E × W} (r, u) (ok a, v)
  recoded-eq-ok f (ok b) u v h = cc
  recoded-eq-ok f (err e) u v h = absurd (err_ne_ok (ap (λ p. p.0) h))

  pub map_err-eq-ok :
      (f : E → F) (m : Io W E A) (w v : W) {a : A} → map_err f m w ≡ (ok a, v) → m w ≡ (ok a, v)
  unfolding map_err
  map_err-eq-ok f m w v h = recoded-eq-ok f (m w).0 (m w).1 v h

module _ {ℓ} {W E A B : Type ℓ} where
  then_do-eq-ok :
      (r : Result A E) (u : W) (f : A → Io W E B) {b : B} {v : W}
      → then_do r f u ≡ (ok b, v)
      → (a : A) × (r ≡ ok a) × (f a u ≡ (ok b, v))
  then_do-eq-ok (ok a) u f h = (a, refl, h)
  then_do-eq-ok (err e) u f h = absurd (err_ne_ok (ap (λ p. p.0) h))

  -- A chain that returns has returned in its first part.
  pub >>=-eq-ok :
      (m : Io W E A) (f : A → Io W E B) (w : W) {b : B} {v : W}
      → (m >>= f) w ≡ (ok b, v)
      → (a : A) × ((m w).0 ≡ ok a) × (f a (m w).1 ≡ (ok b, v))
  unfolding ◌>>=◌
  >>=-eq-ok m f w h = then_do-eq-ok (m w).0 (m w).1 f h

-- An outcome from its two halves.
pub outcome_eq {ℓ} :
    {W R : Type ℓ} (x : R × W) {r : R} {v : W} → x.0 ≡ r → x.1 ≡ v → ◌≡◌ {A = R × W} x (r, v)
outcome_eq x h k = cc

-- The action leaves a world of the property, whether it returns or fails.
pub record Keeps {ℓ} {W E A : Type ℓ} (Inv : W → Type ℓ) (m : Io W E A) : Type ℓ where
  pub at : (w : W) → Inv w → Inv (m w).1

module _ {ℓ} {W E A : Type ℓ} {Inv : W → Type ℓ} where
  pub Keeps-pure : (a : A) → Keeps {E = E} Inv (pure a)
  unfolding pure
  Keeps-pure a = record { at = λ w h. h }

  pub Keeps-raise : (e : E) → Keeps {A = A} Inv (raise e)
  unfolding raise
  Keeps-raise e = record { at = λ w h. h }

  pub Keeps-lift : (r : Result A E) → Keeps Inv (lift r)
  unfolding lift
  Keeps-lift r = record { at = λ w h. h }

  pub Keeps-inspect : (q : W → Result A E) → Keeps Inv (looking (λ w. lift (q w)))
  unfolding looking lift
  Keeps-inspect q = record { at = λ w h. h }

  pub Keeps-looking : (f : W → Io W E A) → ((w : W) → Inv w → Inv (f w w).1) → Keeps Inv (looking f)
  unfolding looking
  Keeps-looking f k = record { at = λ w h. k w h }

  pub Keeps-if :
      (b : Bool) (m n : Io W E A) → Keeps Inv m → Keeps Inv n → Keeps Inv (if b then m else n)
  Keeps-if true m n a b = a
  Keeps-if false m n a b = b

module _ {ℓ} {W E A B : Type ℓ} {Inv : W → Type ℓ} where
  then_do-Keeps :
      (r : Result A E) (f : A → Io W E B)
      → ((a : A) → Keeps Inv (f a))
      → (w : W) → Inv w
      → Inv (then_do r f w).1
  then_do-Keeps (ok a) f k w h = (k a).at w h
  then_do-Keeps (err e) f k w h = h

  pub Keeps-bind :
      (m : Io W E A) (f : A → Io W E B)
      → Keeps Inv m
      → ((a : A) → Keeps Inv (f a))
      → Keeps Inv (m >>= f)
  unfolding ◌>>=◌
  Keeps-bind m f km kf = record {
    at = λ w h. let (r, v) = m w in then_do-Keeps r f kf v (km.at w h);
  }

module _ {ℓ} {W E A B : Type ℓ} {Inv : W → Type ℓ} where
  -- What follows a result may rely on it.
  pub Keeps-lift_bind :
      (r : Result A E) (f : A → Io W E B)
      → ((a : A) → r ≡ ok a → Keeps Inv (f a))
      → Keeps Inv (lift r >>= f)
  unfolding lift ◌>>=◌
  Keeps-lift_bind (ok a) f k = record { at = λ w h. (k a refl).at w h }
  Keeps-lift_bind (err e) f k = record { at = λ w h. h }

module _ {ℓ} {W E F A : Type ℓ} {Inv : W → Type ℓ} where
  pub Keeps-map_err : (f : E → F) (m : Io W E A) → Keeps Inv m → Keeps Inv (map_err f m)
  unfolding map_err
  Keeps-map_err f m k = record { at = λ w h. k.at w h }

pub ruleset io_rules = (Keeps-pure, Keeps-raise, Keeps-lift, Keeps-if, Keeps-bind, Keeps-map_err)
