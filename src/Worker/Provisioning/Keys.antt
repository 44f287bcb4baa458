-- ===== src/Worker/Provisioning/Keys.antt =====
-- Sets of keys as lists without repetition, and the keys of tasks (worker/src/lib.rs).
use llm_chat.Prelude.{
  ◌≡◌, refl, ap, Text, Bool, false, not, List, [], ◌∷◌, map, keep, All, text_eq, text_eq_refl,
  Bool-cases, inl, inr, arith,
}
use llm_chat.Worker.AppState.{contains}
use llm_chat.Worker.Provisioning.{Migration, without}

abbrev pub keys_of : List Migration → List Text
keys_of tasks = map (λ m. m.key) tasks

abbrev pub Distinct : List Text → Type 0
Distinct [] = Unit
Distinct (k ∷ ks) = (contains k ks ≡ false) × Distinct ks

pub without-absent : (k : Text) (ks : List Text) → contains k ks ≡ false → without k ks ≡ ks
without-absent k [] h = refl
without-absent k (j ∷ ks) h = ground (arith, without-absent k ks)

pub without-head : (k : Text) (ks : List Text) → contains k ks ≡ false → without k (k ∷ ks) ≡ ks
without-head k ks h = rw (text_eq_refl k) (without-absent k ks h)

pub contains-without :
    (j k : Text) (ks : List Text) → contains j ks ≡ false → contains j (without k ks) ≡ false
contains-without j k [] h = refl
contains-without j k (i ∷ ks) h = ground (arith, contains-without j k ks)

pub Distinct-without : (k : Text) (ks : List Text) → Distinct ks → Distinct (without k ks)
Distinct-without k [] h = tt
Distinct-without k (j ∷ ks) (h, d) = elim (Bool-cases (text_eq j k)) [
  | inl y ↦ rw y (Distinct-without k ks d)
  | inr n ↦ rw n (contains-without j k ks h, Distinct-without k ks d)
]

pub keys_of-keep :
    (k : Text) (ms : List Migration)
    → keys_of (keep (λ t. not (text_eq t.key k)) ms) ≡ without k (keys_of ms)
keys_of-keep k [] = refl
keys_of-keep k (m ∷ ms) = elim (Bool-cases (text_eq m.key k)) [
  | inl y ↦ rw y (keys_of-keep k ms)
  | inr n ↦ rw n (ap (λ x. m.key ∷ x) (keys_of-keep k ms))
]

pub All-keep :
    (P : Migration → Type 0) (p : Migration → Bool) (ms : List Migration)
    → All P ms
    → All P (keep p ms)
All-keep P p [] h = tt
All-keep P p (m ∷ ms) (h, k) = elim (Bool-cases (p m)) [
  | inl y ↦ rw y (h, All-keep P p ms k)
  | inr n ↦ rw n (All-keep P p ms k)
]
