-- ===== src/Manager/Provision/Filled.antt =====
-- Replacing a text in a template (`substitute_vars` of manager/src/main.rs).
use llm_chat.Prelude.{
  ℕ, zero, suc, ◌-◌, ◌≡◌, refl, sym, ap, ◌∙◌, Text, true, false, [], ◌∷◌, ◌++◌, lit, length, drop,
  starts_with, strip_prefix, ◌==◌, ==_iff, Bool-cases, inl, inr, arith,
}
use mathlib.Core.Path.{subst}
use llm_chat.Manager.Provision.{TemplateVars, replace_from, replace, substitute_vars}

-- From left to right: where `from` stands it becomes `to`, and the search goes on behind it; where it
-- does not stand, a character stays.
pub data IsReplaced (from to : Text) : Text → Text → Type 0 where
  done : IsReplaced from to [] []
  hit : (s t : Text) → IsReplaced from to s t → IsReplaced from to (from ++ s) (to ++ t)
  miss :
      (c : ℕ) (s t : Text)
      → starts_with from (c ∷ s) ≡ false
      → IsReplaced from to s t
      → IsReplaced from to (c ∷ s) (c ∷ t)

prefix_split : (f s : Text) → starts_with f s ≡ true → s ≡ f ++ drop (length f) s
unfolding strip_prefix
prefix_split [] s h = refl
prefix_split (d ∷ f) [] h = cc
prefix_split (d ∷ f) (c ∷ s) h = elim (Bool-cases (d == c)) [
  | inl e ↦
      let same : d ≡ c = (==_iff d c).0 e in
      let k : starts_with f s ≡ true = ground arith in
      ap (λ x. x ∷ s) (sym same) ∙ ap (λ t. d ∷ t) (prefix_split f s k)
  | inr n ↦ ground arith
]

module _ (d : ℕ) (f to : Text) where
  behind : length f ≡ length (d ∷ f) - 1
  behind = omega arith

  replace_from-IsReplaced :
      (skip : ℕ) (s : Text) → IsReplaced (d ∷ f) to (drop skip s) (replace_from (d ∷ f) to skip s)
  unfolding replace_from
  replace_from-IsReplaced zero [] = done
  replace_from-IsReplaced (suc skip) [] = done
  replace_from-IsReplaced (suc skip) (c ∷ s) = replace_from-IsReplaced skip s
  replace_from-IsReplaced zero (c ∷ s) = elim (Bool-cases (starts_with (d ∷ f) (c ∷ s))) [
    | inl y ↦
        rw (y, replace_from)
          (subst (λ n. IsReplaced (d ∷ f) to (c ∷ s) (to ++ replace_from (d ∷ f) to n s)) behind
            (subst (λ x. IsReplaced (d ∷ f) to x (to ++ replace_from (d ∷ f) to (length f) s))
              (sym (prefix_split (d ∷ f) (c ∷ s) y))
              (hit (drop (length f) s) _ (replace_from-IsReplaced (length f) s))))
    | inr n ↦ rw (n, replace_from) (miss c s _ n (replace_from-IsReplaced 0 s))
  ]

  pub replace-IsReplaced : (s : Text) → IsReplaced (d ∷ f) to s (replace (d ∷ f) to s)
  unfolding replace
  replace-IsReplaced s = replace_from-IsReplaced 0 s

-- The four placeholders are replaced one after the other.
pub record IsFilledIn (name user_id app date : Text) (content filled : Text) : Type 0 where
  pub named : Text
  pub owned : Text
  pub placed : Text
  pub name_in : IsReplaced (lit "{{name}}") name content named
  pub user_in : IsReplaced (lit "{{userId}}") user_id named owned
  pub app_in : IsReplaced (lit "{{app}}") app owned placed
  pub date_in : IsReplaced (lit "{{date}}") date placed filled

pub substitute_vars-IsFilledIn :
    (content : Text) (v : TemplateVars)
    → IsFilledIn v.name v.user_id v.app v.date content (substitute_vars content v)
unfolding substitute_vars lit
substitute_vars-IsFilledIn content v = record {
  named = replace (lit "{{name}}") v.name content;
  owned = replace (lit "{{userId}}") v.user_id (replace (lit "{{name}}") v.name content);
  placed = _;
  name_in = replace-IsReplaced _ _ v.name content;
  user_in = replace-IsReplaced _ _ v.user_id _;
  app_in = replace-IsReplaced _ _ v.app _;
  date_in = replace-IsReplaced _ _ v.date _;
}
