-- ===== src/Manager/Sessions/Balance.antt =====
-- The port that `pick_least_loaded_port` chooses.
use llm_chat.Prelude.{
  ℕ, ◌+◌, ◌≤◌, ◌≡◌, ◌≢◌, ◌↔◌, ◌⊎◌, refl, sym, ap, ◌∙◌, inl, inr, Text, Option, none, some, List, [],
  ◌∷◌, ltb, ◌==◌, Bool-cases, if◌then◌else◌, arith,
}
use mathlib.Core.Path.{subst}
use llm_chat.Manager.Sessions.{
  Registry, start_count, bump, start_counts, count_sessions, counts, min_from, min_entry,
  pick_least_loaded_port,
}

-- The sessions on a port.
abbrev pub load : ℕ → List (Text × ℕ) → ℕ
load p [] = 0
load p ((sid, q) ∷ ss) = (if q == p then 1 else 0) + load p ss

-- The first count of a port.
abbrev count_of : ℕ → List (ℕ × ℕ) → Option ℕ
count_of p [] = none
count_of p ((q, n) ∷ m) = if q == p then some n else count_of p m

abbrev pub In : {A : Type 0} → A → List A → Type 0
In x [] = ⊥
In x (y ∷ ys) = (x ≡ y) ⊎ In x ys

abbrev lighter : ℕ × ℕ → ℕ × ℕ → ℕ × ℕ
lighter best e = if ltb e.1 best.1 then e else best

lighter-le : (best e : ℕ × ℕ) → ((lighter best e).1 ≤ best.1) × ((lighter best e).1 ≤ e.1)
lighter-le best e = ground arith

lighter-or : (best e : ℕ × ℕ) → (lighter best e ≡ best) ⊎ (lighter best e ≡ e)
lighter-or best e = elim (Bool-cases (ltb e.1 best.1)) [ inl y ↦ inr (rw y) | inr n ↦ inl (rw n) ]

-- The least entry of a list, whatever the order.
min_from-le :
    (best : ℕ × ℕ) (es : List (ℕ × ℕ)) (e : ℕ × ℕ) → In e (best ∷ es) → (min_from best es).1 ≤ e.1
unfolding min_from
min_from-le best [] e (inl same) = rw same (omega arith)
min_from-le best [] e (inr h) = absurd h
min_from-le best (d ∷ es) e (inl same) = rw same (
    omega
      (arith, min_from-le (lighter best d) es (lighter best d) (inl refl), (lighter-le best d).0))
min_from-le best (d ∷ es) e (inr (inl same)) = rw same (
    omega
      (arith, min_from-le (lighter best d) es (lighter best d) (inl refl), (lighter-le best d).1))
min_from-le best (d ∷ es) e (inr (inr h)) = min_from-le (lighter best d) es e (inr h)

min_from-In : (best : ℕ × ℕ) (es : List (ℕ × ℕ)) → In (min_from best es) (best ∷ es)
unfolding min_from
min_from-In best [] = inl refl
min_from-In best (d ∷ es) = found (lighter-or best d) (min_from-In (lighter best d) es)
  where
    found :
        (lighter best d ≡ best) ⊎ (lighter best d ≡ d)
        → In (min_from (lighter best d) es) (lighter best d ∷ es)
        → In (min_from (lighter best d) es) (best ∷ d ∷ es)
    found (inl e) (inl h) = inl (h ∙ e)
    found (inr e) (inl h) = inr (inl (h ∙ e))
    found _ (inr h) = inr (inr h)

-- No port stands twice in the counts.
abbrev Distinct : List (ℕ × ℕ) → Type 0
Distinct [] = Unit
Distinct ((q, n) ∷ m) = (count_of q m ≡ none) × Distinct m

abbrev or_zero : Option ℕ → ℕ
or_zero none = 0
or_zero (some n) = n

count-bump :
    (p q : ℕ) (m : List (ℕ × ℕ))
    → count_of q (bump p m) ≡ (if p == q then some (or_zero (count_of q m) + 1) else count_of q m)
unfolding bump
count-bump p q [] = ground arith
count-bump p q ((r, n) ∷ m) = ground (arith, count-bump p q m)

count-start :
    (p q : ℕ) (m : List (ℕ × ℕ))
    → count_of q (start_count p m) ≡ (if p == q then some 0 else count_of q m)
unfolding start_count
count-start p q [] = ground arith
count-start p q ((r, n) ∷ m) = ground (arith, count-start p q m)

bump-Distinct : (p : ℕ) (m : List (ℕ × ℕ)) → Distinct m → Distinct (bump p m)
unfolding bump
bump-Distinct p [] d = (refl, tt)
bump-Distinct p ((r, n) ∷ m) (f, d) = elim (Bool-cases (r == p)) [
  | inl y ↦ rw y (f, d)
  | inr k ↦ rw k (count-bump p r m ∙ ground arith, bump-Distinct p m d)
]

start_count-Distinct : (p : ℕ) (m : List (ℕ × ℕ)) → Distinct m → Distinct (start_count p m)
unfolding start_count
start_count-Distinct p [] d = (refl, tt)
start_count-Distinct p ((r, n) ∷ m) (f, d) = elim (Bool-cases (r == p)) [
  | inl y ↦ rw y (f, d)
  | inr k ↦ rw k (count-start p r m ∙ ground arith, start_count-Distinct p m d)
]

start_counts-Distinct : (ps : List ℕ) (m : List (ℕ × ℕ)) → Distinct m → Distinct (start_counts ps m)
unfolding start_counts
start_counts-Distinct [] m d = d
start_counts-Distinct (p ∷ ps) m d = start_counts-Distinct ps _ (start_count-Distinct p m d)

count_sessions-Distinct :
    (ss : List (Text × ℕ)) (m : List (ℕ × ℕ)) → Distinct m → Distinct (count_sessions ss m)
unfolding count_sessions
count_sessions-Distinct [] m d = d
count_sessions-Distinct ((sid, p) ∷ ss) m d = count_sessions-Distinct ss _ (bump-Distinct p m d)

-- Counting adds each port's load.
count_sessions-load :
    (q : ℕ) (ss : List (Text × ℕ)) (m : List (ℕ × ℕ))
    → or_zero (count_of q (count_sessions ss m)) ≡ or_zero (count_of q m) + load q ss
unfolding count_sessions
count_sessions-load q [] m = omega arith
count_sessions-load q ((sid, p) ∷ ss) m =
    count_sessions-load q ss (bump p m) ∙ ground (arith, count-bump p q m)

start_counts-zero :
    (q : ℕ) (ps : List ℕ) (m : List (ℕ × ℕ))
    → or_zero (count_of q m) ≡ 0
    → or_zero (count_of q (start_counts ps m)) ≡ 0
unfolding start_counts
start_counts-zero q [] m h = h
start_counts-zero q (p ∷ ps) m h = start_counts-zero q ps _ (ground (arith, count-start p q m))

start_counts-kept :
    (q : ℕ) (ps : List ℕ) (m : List (ℕ × ℕ))
    → count_of q m ≢ none
    → count_of q (start_counts ps m) ≢ none
unfolding start_counts
start_counts-kept q [] m h = h
start_counts-kept q (p ∷ ps) m h = start_counts-kept q ps _ (ground (arith, count-start p q m))

start_counts-In :
    (q : ℕ) (ps : List ℕ) (m : List (ℕ × ℕ)) → In q ps → count_of q (start_counts ps m) ≢ none
unfolding start_counts
start_counts-In q [] m h = absurd h
start_counts-In q (p ∷ ps) m (inl e) = start_counts-kept q ps _ (ground (arith, count-start p q m))
start_counts-In q (p ∷ ps) m (inr h) = start_counts-In q ps _ h

count_sessions-kept :
    (q : ℕ) (ss : List (Text × ℕ)) (m : List (ℕ × ℕ))
    → count_of q m ≢ none
    → count_of q (count_sessions ss m) ≢ none
unfolding count_sessions
count_sessions-kept q [] m h = h
count_sessions-kept q ((sid, p) ∷ ss) m h =
    count_sessions-kept q ss _ (ground (arith, count-bump p q m))

entry-count : (e : ℕ × ℕ) (m : List (ℕ × ℕ)) → Distinct m → In e m → count_of e.0 m ≡ some e.1
entry-count e [] d h = absurd h
entry-count e ((r, n) ∷ m) (f, d) (inl same) = ground arith
entry-count e ((r, n) ∷ m) (f, d) (inr h) = ground (arith, entry-count e m d h)

count-entry : (q : ℕ) (m : List (ℕ × ℕ)) → count_of q m ≢ none → In (q, or_zero (count_of q m)) m
count-entry q [] h = absurd (h refl)
count-entry q ((r, n) ∷ m) h = elim (Bool-cases (r == q)) [
  | inl y ↦ rw y (inl (ground arith))
  | inr k ↦
      let e : count_of q ((r, n) ∷ m) ≡ count_of q m = rw k in
      inr (subst (λ o. In (q, or_zero o) m) (sym e) (count-entry q m (λ z. h (e ∙ z))))
]

module _ (iterate : List (ℕ × ℕ) → List (ℕ × ℕ))
    (same : (e : ℕ × ℕ) (m : List (ℕ × ℕ)) → In e (iterate m) ↔ In e m) (st : Registry) where
  abbrev entries : List (ℕ × ℕ)
  entries = counts st

  entries-Distinct : Distinct entries
  unfolding counts
  entries-Distinct =
      count_sessions-Distinct st.session_to_port _ (start_counts-Distinct st.instance_ports [] tt)

  entries-load : (q : ℕ) → or_zero (count_of q entries) ≡ load q st.session_to_port
  unfolding counts
  entries-load q =
      count_sessions-load q st.session_to_port _
      ∙ ap (λ n. n + load q st.session_to_port) (start_counts-zero q st.instance_ports [] refl)
      ∙ omega arith

  port_counted : (q : ℕ) → In q st.instance_ports → count_of q entries ≢ none
  unfolding counts
  port_counted q h =
      count_sessions-kept q st.session_to_port _ (start_counts-In q st.instance_ports [] h)

  port_entry : (q : ℕ) → In q st.instance_ports → In (q, load q st.session_to_port) entries
  port_entry q h =
      subst (λ n. In (q, n) entries) (entries-load q) (count-entry q entries (port_counted q h))

  min_entry-le :
      (m : List (ℕ × ℕ)) (p : ℕ)
      → min_entry m ≡ some p
      → (e : ℕ × ℕ) × (e.0 ≡ p) × In e m × ((d : ℕ × ℕ) → In d m → e.1 ≤ d.1)
  min_entry-le [] p h = cc
  min_entry-le (b ∷ es) p h = (min_from b es, ground arith, min_from-In b es, min_from-le b es)

  -- If the map yields its entries, in whatever order, no configured port has fewer sessions
  -- than the chosen one.
  pub pick-least :
      (p q : ℕ)
      → pick_least_loaded_port iterate st ≡ some p
      → In q st.instance_ports
      → load p st.session_to_port ≤ load q st.session_to_port
  unfolding pick_least_loaded_port
  pick-least p q h k =
      let (e, is_p, found, least) = min_entry-le (iterate entries) p h in
      let counted = entry-count e entries entries-Distinct ((same e entries).0 found) in
      let own : e.1 ≡ load p st.session_to_port =
        ap or_zero (sym counted) ∙ entries-load e.0 ∙ ap (λ r. load r st.session_to_port) is_p in
      let other = least (q, load q st.session_to_port) ((same _ entries).1 (port_entry q k)) in
      omega (arith, own, other)
