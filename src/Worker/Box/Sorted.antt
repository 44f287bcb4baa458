-- ===== src/Worker/Box/Sorted.antt =====
-- The elements of a sorted list of entries (worker/src/user_env.rs).
use llm_chat.Prelude.{
  insert_sorted, sort, suc, ◌≡◌, refl, ◌∙◌, ap, inl, inr, Bool, List, [], ◌∷◌, length, Bool-cases,
  arith,
}
use mathlib.Core.List.{Memᴰ}
use mathlib.Core.List.Memᴰ

module _ {ℓ} {A : Type ℓ} (before : A → A → Bool) where
  insert_self : (x : A) (ys : List A) → Memᴰ x (insert_sorted before x ys)
  unfolding insert_sorted
  insert_self x [] = Memᴰ.head refl
  insert_self x (y ∷ ys) = elim (Bool-cases (before x y)) [
    | inl t ↦ rw t (Memᴰ.head refl)
    | inr f ↦ rw f (Memᴰ.tail (insert_self x ys))
  ]

  insert_other : (a x : A) (ys : List A) → Memᴰ a ys → Memᴰ a (insert_sorted before x ys)
  unfolding insert_sorted
  insert_other a x [] m = Memᴰ.tail m
  insert_other a x (y ∷ ys) (Memᴰ.head e) = elim (Bool-cases (before x y)) [
    | inl t ↦ rw t (Memᴰ.tail (Memᴰ.head e))
    | inr f ↦ rw f (Memᴰ.head e)
  ]
  insert_other a x (y ∷ ys) (Memᴰ.tail m) = elim (Bool-cases (before x y)) [
    | inl t ↦ rw t (Memᴰ.tail (Memᴰ.tail m))
    | inr f ↦ rw f (Memᴰ.tail (insert_other a x ys m))
  ]

  swap : (a x y : A) (ys : List A) → Memᴰ a (x ∷ ys) → Memᴰ a (x ∷ y ∷ ys)
  swap a x y ys (Memᴰ.head e) = Memᴰ.head e
  swap a x y ys (Memᴰ.tail m) = Memᴰ.tail (Memᴰ.tail m)

  mem-of_insert : (a x : A) (ys : List A) → Memᴰ a (insert_sorted before x ys) → Memᴰ a (x ∷ ys)
  unfolding insert_sorted
  mem-of_insert a x [] m = m
  mem-of_insert a x (y ∷ ys) m = elim (Bool-cases (before x y)) [
    | inl t ↦ rw t at m
    | inr f ↦ elim (Memᴰ.cases_cons (rw f at m)) [
      | inl e ↦ Memᴰ.tail (Memᴰ.head e)
      | inr k ↦ swap a x y ys (mem-of_insert a x ys k)
    ]
  ]

  pub mem-sort : (a : A) (xs : List A) → Memᴰ a xs → Memᴰ a (sort before xs)
  unfolding sort
  mem-sort a [] m = m
  mem-sort a (x ∷ xs) (Memᴰ.head e) = Memᴰ.cast e (insert_self x _)
  mem-sort a (x ∷ xs) (Memᴰ.tail m) = insert_other a x _ (mem-sort a xs m)

  pub mem-of_sort : (a : A) (xs : List A) → Memᴰ a (sort before xs) → Memᴰ a xs
  unfolding sort
  mem-of_sort a [] m = m
  mem-of_sort a (x ∷ xs) m = elim (Memᴰ.cases_cons (mem-of_insert a x _ m)) [
    | inl e ↦ Memᴰ.head e
    | inr k ↦ Memᴰ.tail (mem-of_sort a xs k)
  ]

  length-insert : (x : A) (ys : List A) → length (insert_sorted before x ys) ≡ suc (length ys)
  unfolding insert_sorted
  length-insert x [] = refl
  length-insert x (y ∷ ys) = ground (arith, length-insert x ys)

  pub length-sort : (xs : List A) → length (sort before xs) ≡ length xs
  unfolding sort
  length-sort [] = refl
  length-sort (x ∷ xs) = length-insert x _ ∙ ap suc (length-sort xs)
