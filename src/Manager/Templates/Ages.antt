-- ===== src/Manager/Templates/Ages.antt =====
-- The versions of all templates before and after the command `set-template` (manager/src/main.rs).
use mathlib.Core.Path.{subst}
use llm_chat.Prelude.{
  Bool, ℕ, ◌≤◌, ◌≡◌, sym, ap, ◌∙◌, Text, Option, some, unwrap_or, ok, err, arith, text_eq,
  text_eq_iff, Bool-cases, inl, inr, ◌≢◌,
}
use llm_chat.Manager.Templates.{Store, TemplateRecord, Reply, get_template, version_of}
use llm_chat.Manager.Templates.Versions.{IsStep, publication, edit, IsChange, IsOutcome}

-- A template that is there stays there, and its version never goes back.
abbrev pub NoOlder : Store → Store → Type 0
NoOlder before after =
    (code : Text)
    → (r : TemplateRecord) → (get_template code before ≡ some r)
    → (r' : TemplateRecord) × (get_template code after ≡ some r') × (r.version ≤ r'.version)

-- The two tables have the same rows.
abbrev pub SameTemplates : Store → Store → Type 0
SameTemplates store mid = (code : Text) → get_template code mid ≡ get_template code store

pub NoOlder-refl : (store : Store) → NoOlder store store
NoOlder-refl store code r h = (r, h, omega arith)

pub NoOlder-trans : (x y z : Store) → NoOlder x y → NoOlder y z → NoOlder x z
NoOlder-trans x y z f g code r h =
    let (r1, h1, l1) = f code r h in let (r2, h2, l2) = g code r1 h1 in (r2, h2, omega arith)

-- The version after a step from a row that is there.
IsStep-no_older :
    (publish : Bool) (given : Option Text) (r : TemplateRecord) (before : Option TemplateRecord)
    (version : ℕ) (instr : Option Text)
    → before ≡ some r
    → IsStep publish given before version instr
    → r.version ≤ version
IsStep-no_older publish given r before version instr e (publication b n text g i f) =
    let k : unwrap_or (version_of before) 0 ≡ r.version = ap (λ o. unwrap_or (version_of o) 0) e in
    omega arith
IsStep-no_older publish given r before version instr e (edit b n i) =
    let k : unwrap_or (version_of before) 1 ≡ r.version = ap (λ o. unwrap_or (version_of o) 1) e in
    omega arith

IsChange-NoOlder :
    (publish : Bool) (given : Option Text) (store mid after : Store) (code : Text) (version : ℕ)
    (now : Text) (json : Option Text)
    → SameTemplates store mid
    → IsChange publish given store mid after code version now json
    → NoOlder store after
IsChange-NoOlder publish given store mid after code version now json same c other r h =
    elim (Bool-cases (text_eq code other)) [
      | inl y ↦
          let e : code ≡ other = (text_eq_iff code other).0 y in
          let n =
            IsStep-no_older publish given r (get_template code store) version
              c.row.migrate_instructions (ap (λ t. get_template t store) e ∙ h) c.is_step in
          let m = c.numbered in
          (c.row, ap (λ t. get_template t after) (sym e) ∙ c.stored, omega arith)
      | inr n ↦
          let ne : code ≢ other = λ e. ground (arith, text_eq_iff code other) in
          (r, c.others other ne ∙ same other ∙ h, omega arith)
    ]

same-NoOlder : (store mid : Store) → SameTemplates store mid → NoOlder store mid
same-NoOlder store mid same code r h = (r, same code ∙ h, omega arith)

pub IsOutcome-NoOlder :
    (shape_error : Text → Option Text) (load_fails save_fails : Option Text) (publish : Bool)
    (given code json : Option Text) (time : Text) (store mid : Store) (o : Reply × Store)
    → SameTemplates store mid
    → IsOutcome shape_error load_fails save_fails publish given code json time store mid o
    → NoOlder store o.1
unfolding IsOutcome
IsOutcome-NoOlder shape_error load_fails save_fails publish given code json time store mid
      (err e, after) same (inl (w, h)) =
    subst (NoOlder store) (sym h) (NoOlder-refl store)
IsOutcome-NoOlder shape_error load_fails save_fails publish given code json time store mid
      (err e, after) same (inr (w, f, h)) =
    subst (NoOlder store) (sym h) (same-NoOlder store mid same)
IsOutcome-NoOlder shape_error load_fails save_fails publish given code json time store mid
      (ok (c, v, now), after) same (e, d, h) =
    IsChange-NoOlder publish given store mid after c v now json same h
