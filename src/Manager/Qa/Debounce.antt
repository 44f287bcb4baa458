-- ===== src/Manager/Qa/Debounce.antt =====
-- The timers of the texts of one answer (manager/src/main.rs).
use llm_chat.Prelude.{
  ℕ, ◌≤◌, ◌<◌, ◌≡◌, refl, Text, true, false, none, some, List, [], ◌∷◌, ◌==◌, ==_iff, if◌then◌else◌,
  any, arith, Bool-cases, inl, inr,
}
use llm_chat.Manager.Qa.{Waiting, repaint, nonempty_text, time_up}

-- Further texts, each for a number.
pub repaint_all : List (ℕ × Text) → Waiting → Waiting
repaint_all [] w = w
repaint_all ((num, raw) ∷ rs) w = repaint_all rs (repaint num raw w).0

versions-le :
    (num : ℕ) (rs : List (ℕ × Text)) (w : Waiting)
    → w.versions num ≤ (repaint_all rs w).versions num
unfolding repaint_all repaint
versions-le num [] w = omega arith
versions-le num ((n, raw) ∷ rs) w = ground (arith, versions-le num rs (repaint n raw w).0)

module _ (num : ℕ) (text : Text) where
  -- A text waits under a version.
  IsLatest : ℕ → Waiting → Type 0
  IsLatest version w = (w.versions num ≡ version) × (w.pending_text num ≡ some text)

  settled :
      (version : ℕ) (w : Waiting)
      → IsLatest version w
      → (time_up num version w).1 ≡ nonempty_text (some text)
  unfolding time_up IsLatest
  settled version w (e, p) = rw ((==_iff (w.versions num) version).1 e, p) refl

  outdated :
      (version : ℕ) (w : Waiting) → version < w.versions num → (time_up num version w).1 ≡ none
  unfolding time_up
  outdated version w lt = ground arith

  newer :
      (version n : ℕ) (raw : Text) (w : Waiting) {k : ℕ}
      → IsLatest version w
      → (n == num) ≡ true
      → (repaint n raw w).0.versions num ≤ k
      → version < k
  unfolding IsLatest repaint
  newer version n raw w (e, p) y le = ground (arith, ==_iff n num)

  unaffected :
      (version n : ℕ) (raw : Text) (w : Waiting)
      → IsLatest version w
      → (n == num) ≡ false
      → IsLatest version (repaint n raw w).0
  unfolding IsLatest repaint
  unaffected version n raw w (e, p) f = (rw f e, rw f p)

  repaint-IsLatest : (w : Waiting) → IsLatest (repaint num text w).1 (repaint num text w).0
  unfolding IsLatest repaint
  repaint-IsLatest w = let same = (==_iff num num).1 refl in (rw same refl, rw same refl)

  time_up-repaint_all :
      (version : ℕ) (rs : List (ℕ × Text)) (w : Waiting)
      → IsLatest version w
      → (time_up num version (repaint_all rs w)).1
        ≡ (if any (λ r. r.0 == num) rs then none else nonempty_text (some text))
  unfolding repaint_all
  time_up-repaint_all version [] w h = settled version w h
  time_up-repaint_all version ((n, raw) ∷ rs) w h = elim (Bool-cases (n == num)) [
    | inl y ↦
        rw y
          (outdated version _ (newer version n raw w h y (versions-le num rs (repaint n raw w).0)))
    | inr f ↦
        rw f (time_up-repaint_all version rs (repaint n raw w).0 (unaffected version n raw w h f))
  ]

-- When the text of an answer's number was the last to come, the timer that it armed flushes it,
-- unless it is empty; when a text of the same number came after it, its timer flushes nothing,
-- whatever came for other numbers in between.
pub time_up-repaint :
    (num : ℕ) (text : Text) (w : Waiting) (rs : List (ℕ × Text))
    → (time_up num (repaint num text w).1 (repaint_all rs (repaint num text w).0)).1
      ≡ (if any (λ r. r.0 == num) rs then none else nonempty_text (some text))
time_up-repaint num text w rs =
    time_up-repaint_all num text (repaint num text w).1 rs (repaint num text w).0
      (repaint-IsLatest num text w)
