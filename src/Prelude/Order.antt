-- ===== src/Prelude/Order.antt =====
-- The order of texts, and lists in ascending order: such a list is given by its members.
use mathlib.Core.Path.{◌≡◌, refl, sym, ap, ◌∙◌, subst}
use mathlib.Core.Logic.{inl, inr}
use mathlib.Core.Bool.{Bool, true, false, not, ◌&&◌, ◌||◌}
use mathlib.Core.List.{List, [], ◌∷◌}
use native.Mathlib.Omega.{arith}
use llm_chat.Prelude.Tests.{Bool-cases}
use llm_chat.Prelude.Texts.{Text, text_eq, text_eq_iff, text_eq_refl, text_leb}
use llm_chat.Prelude.Lists.{any, insert_sorted, sort}

pub text_leb_trans :
    (s t u : Text) → text_leb s t ≡ true → text_leb t u ≡ true → text_leb s u ≡ true
text_leb_trans [] t u h k = refl
text_leb_trans (a ∷ s) [] u h k = ground arith
text_leb_trans (a ∷ s) (b ∷ t) [] h k = ground arith
text_leb_trans (a ∷ s) (b ∷ t) (c ∷ u) h k = ground (arith, text_leb_trans s t u)

pub text_leb_total : (s t : Text) → text_leb s t ≡ false → text_leb t s ≡ true
text_leb_total [] t h = ground arith
text_leb_total (a ∷ s) [] h = refl
text_leb_total (a ∷ s) (b ∷ t) h = ground (arith, text_leb_total s t)

pub text_leb_antisym : (s t : Text) → text_leb s t ≡ true → text_leb t s ≡ true → text_eq s t ≡ true
text_leb_antisym [] [] h k = refl
text_leb_antisym [] (b ∷ t) h k = ground arith
text_leb_antisym (a ∷ s) [] h k = ground arith
text_leb_antisym (a ∷ s) (b ∷ t) h k = ground (arith, text_leb_antisym s t)

abbrev pub member : Text → List Text → Bool
member a xs = any (λ x. text_eq x a) xs

-- Each element is at least the one before, or above it.
abbrev pub sorted_from : Text → List Text → Bool
sorted_from x [] = true
sorted_from x (y ∷ ys) = text_leb x y && sorted_from y ys

abbrev pub ascends_from : Text → List Text → Bool
ascends_from x [] = true
ascends_from x (y ∷ ys) = text_leb x y && not (text_eq x y) && ascends_from y ys

abbrev pub is_sorted : List Text → Bool
is_sorted [] = true
is_sorted (x ∷ xs) = sorted_from x xs

abbrev pub is_ascending : List Text → Bool
is_ascending [] = true
is_ascending (x ∷ xs) = ascends_from x xs

insert_from :
    (lo x : Text) (ys : List Text)
    → text_leb lo x ≡ true
    → sorted_from lo ys ≡ true
    → sorted_from lo (insert_sorted text_leb x ys) ≡ true
unfolding insert_sorted
insert_from lo x [] h k = ground arith
insert_from lo x (y ∷ ys) h k = ground (arith, text_leb_total x y, insert_from y x ys)

insert_is_sorted :
    (x : Text) (ys : List Text)
    → is_sorted ys ≡ true
    → is_sorted (insert_sorted text_leb x ys) ≡ true
unfolding insert_sorted
insert_is_sorted x [] k = refl
insert_is_sorted x (y ∷ ys) k = elim (Bool-cases (text_leb x y)) [
  | inl t ↦ rw t (ground arith)
  | inr f ↦ rw f (insert_from y x ys (text_leb_total x y f) k)
]

pub is_sorted-sort : (xs : List Text) → is_sorted (sort text_leb xs) ≡ true
unfolding sort
is_sorted-sort [] = refl
is_sorted-sort (x ∷ xs) = insert_is_sorted x _ (is_sorted-sort xs)

member-insert :
    (a x : Text) (ys : List Text)
    → member a (insert_sorted text_leb x ys) ≡ text_eq x a || member a ys
unfolding insert_sorted
member-insert a x [] = refl
member-insert a x (y ∷ ys) = ground (arith, member-insert a x ys)

pub member-sort : (a : Text) (xs : List Text) → member a (sort text_leb xs) ≡ member a xs
unfolding sort
member-sort a [] = refl
member-sort a (x ∷ xs) = member-insert a x _ ∙ ap (λ b. text_eq x a || b) (member-sort a xs)

-- What follows in an ascending list is above what comes before.
above :
    (x a : Text) (ys : List Text)
    → ascends_from x ys ≡ true
    → member a ys ≡ true
    → text_leb x a && not (text_eq x a) ≡ true
above x a [] h m = ground arith
above x a (y ∷ ys) h m = elim (Bool-cases (text_eq y a)) [
  | inl e ↦
      let k : y ≡ a = (text_eq_iff y a).0 e in
      subst (λ b. text_leb x b && not (text_eq x b) ≡ true) k (ground arith)
  | inr n ↦ ground (
    arith,
    above y a ys,
    text_leb_trans x y a,
    text_leb_antisym x y,
    text_eq_iff x a,
    text_eq_iff x y,
  )
]

-- No element of an ascending list comes again.
fresh : (x : Text) (ys : List Text) → ascends_from x ys ≡ true → member x ys ≡ false
fresh x ys h = elim (Bool-cases (member x ys)) [
  | inl m ↦ let k = above x x ys h m in ground (arith, text_eq_iff x x)
  | inr n ↦ n
]

tail_ascends : (x : Text) (xs : List Text) → ascends_from x xs ≡ true → is_ascending xs ≡ true
tail_ascends x [] h = refl
tail_ascends x (y ∷ ys) h = ground arith

first_eq :
    (x y : Text) (xs ys : List Text)
    → ascends_from x xs ≡ true
    → ascends_from y ys ≡ true
    → ((a : Text) → member a (x ∷ xs) ≡ member a (y ∷ ys))
    → x ≡ y
first_eq x y xs ys h k same = elim (Bool-cases (text_eq x y)) [
  | inl e ↦ (text_eq_iff x y).0 e
  | inr n ↦
      let at_y = same y in
      let at_x = same x in
      let m : member y xs ≡ true = ground (arith, text_eq_refl y) in
      let w : member x ys ≡ true =
        ground (arith, text_eq_refl x, text_eq_iff x y, text_eq_iff y x) in
      ground (arith, above x y xs h m, above y x ys k w, text_leb_antisym x y)
]

rest_same :
    (x : Text) (xs ys : List Text)
    → ascends_from x xs ≡ true
    → ascends_from x ys ≡ true
    → ((a : Text) → member a (x ∷ xs) ≡ member a (x ∷ ys))
    → (a : Text) → member a xs ≡ member a ys
rest_same x xs ys h k same a = elim (Bool-cases (text_eq x a)) [
  | inl e ↦
      let p : x ≡ a = (text_eq_iff x a).0 e in
      subst (λ b. member b xs ≡ member b ys) p (fresh x xs h ∙ sym (fresh x ys k))
  | inr n ↦ rw n at (same a)
]

-- Two ascending lists with the same members are equal.
pub ascending_eq :
    (xs ys : List Text)
    → is_ascending xs ≡ true
    → is_ascending ys ≡ true
    → ((a : Text) → member a xs ≡ member a ys)
    → xs ≡ ys
ascending_eq [] [] h k same = refl
ascending_eq [] (y ∷ ys) h k same = let m = same y in ground (arith, text_eq_refl y)
ascending_eq (x ∷ xs) [] h k same = let m = same x in ground (arith, text_eq_refl x)
ascending_eq (x ∷ xs) (y ∷ ys) h k same =
    let e : x ≡ y = first_eq x y xs ys h k same in
    let h' : ascends_from y xs ≡ true = subst (λ z. ascends_from z xs ≡ true) e h in
    let same' = subst (λ z. (a : Text) → member a (z ∷ xs) ≡ member a (y ∷ ys)) e same in
    ap (λ z. z ∷ xs) e
    ∙ ap (λ zs. y ∷ zs)
        (ascending_eq xs ys (tail_ascends x xs h) (tail_ascends y ys k)
          (rest_same y xs ys h' k same'))
