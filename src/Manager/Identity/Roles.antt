-- ===== src/Manager/Identity/Roles.antt =====
-- The roles that /identity (`handle_identity` of manager/src/main.rs) shows.
use mathlib.Core.Path.{subst}
use mathlib.Core.List.{append_assoc, append-nil}
use llm_chat.Prelude.{
  ◌≡◌, refl, sym, ap, ◌∙◌, ℕ, Text, true, Option, some, List, ◌++◌, lit, join, [], ◌∷◌, sort,
  text_eq, text_eq_iff, text_leb, member, sorted_from, ascends_from, is_sorted, is_ascending,
  is_sorted-sort, member-sort, ascending_eq, arith, Bool-cases, inl, inr, ok,
}
use llm_chat.Json.{Json, get_str}
use llm_chat.Manager.Identity.{
  dedup_from, dedup, sorted_roles, Identity, with_issuer, known_reply, resolve_user_label,
  handle_identity, StatusClient, parse_status_client, format_status_block, format_whoami_line,
  roles_or_dash,
}

dedup_from-ascends :
    (x : Text) (ys : List Text) → sorted_from x ys ≡ true → ascends_from x (dedup_from x ys) ≡ true
unfolding dedup_from
dedup_from-ascends x [] h = refl
dedup_from-ascends x (y ∷ ys) h = elim (Bool-cases (text_eq x y)) [
  | inl e ↦
      let p : x ≡ y = (text_eq_iff x y).0 e in
      let k : sorted_from y ys ≡ true = ground arith in
      rw e (dedup_from-ascends x ys (subst (λ z. sorted_from z ys ≡ true) (sym p) k))
  | inr n ↦
      let k : sorted_from y ys ≡ true = ground arith in
      let rest = dedup_from-ascends y ys k in rw n (ground arith)
]

member-dedup_from :
    (a x : Text) (ys : List Text) → member a (x ∷ dedup_from x ys) ≡ member a (x ∷ ys)
unfolding dedup_from
member-dedup_from a x [] = refl
member-dedup_from a x (y ∷ ys) =
    ground (arith, member-dedup_from a x ys, member-dedup_from a y ys, text_eq_iff x y)

dedup-is_ascending : (xs : List Text) → is_sorted xs ≡ true → is_ascending (dedup xs) ≡ true
unfolding dedup
dedup-is_ascending [] h = refl
dedup-is_ascending (x ∷ xs) h = dedup_from-ascends x xs h

member-dedup : (a : Text) (xs : List Text) → member a (dedup xs) ≡ member a xs
unfolding dedup
member-dedup a [] = refl
member-dedup a (x ∷ xs) = member-dedup_from a x xs

member-sorted_roles :
    (a : Text) (roles : List Text) → member a (sorted_roles roles) ≡ member a roles
unfolding sorted_roles
member-sorted_roles a roles = member-dedup a _ ∙ member-sort a roles

sorted_roles-is_ascending : (roles : List Text) → is_ascending (sorted_roles roles) ≡ true
unfolding sorted_roles
sorted_roles-is_ascending roles = dedup-is_ascending (sort text_leb roles) (is_sorted-sort roles)

-- The list that is shown has each role of the caller once and no other, in ascending order; it is
-- the only such list.
pub record IsShown (roles shown : List Text) : Type 0 where
  pub ascending : is_ascending shown ≡ true
  pub complete : (a : Text) → member a shown ≡ member a roles
  pub only :
      (other : List Text)
      → is_ascending other ≡ true
      → ((a : Text) → member a other ≡ member a roles)
      → other ≡ shown

sorted_roles-IsShown : (roles : List Text) → IsShown roles (sorted_roles roles)
sorted_roles-IsShown roles = record {
  ascending = sorted_roles-is_ascending roles;
  complete = λ a. member-sorted_roles a roles;
  only = λ other h same.
      ascending_eq other (sorted_roles roles) h (sorted_roles-is_ascending roles)
        (λ a. same a ∙ sym (member-sorted_roles a roles));
}

-- The part stands somewhere in the text.
abbrev pub Contains : Text → Text → Type 0
Contains part text = (before : Text) × (after : Text) × (text ≡ before ++ (part ++ after))

last_part : (before part : Text) → Contains part (before ++ part)
last_part before part = (before, [], ap (λ t. before ++ t) (sym (append-nil part)))

more : (part text x : Text) → Contains part text → Contains part (text ++ x)
more part text x (before, after, e) = (
  before,
  after ++ x,
  ap (λ t. t ++ x) e
      ∙ append_assoc before (part ++ after) x
      ∙ ap (λ t. before ++ t) (append_assoc part after x),
)

-- The roles as a text, with `absent` if there are none.
abbrev pub listed : Text → Text → List Text → Text
listed absent lead [] = absent
listed absent lead (r ∷ rs) = lead ++ join (lit ", ") (r ∷ rs)

-- What a reply says of a user with this label, id and list of roles: the block of `status` has a line
-- for each, and the line of `whoami` is these and no more.
pub record IsTold (v : Json) (who sub : Text) (shown : List Text) (reply : Json) : Type 0 where
  pub whoami :
      get_str v (lit "type") ≡ some (lit "whoami")
      → get_str reply (lit "line")
        ≡ some (
            lit "logged in as "
            ++ who
            ++ lit " (sub="
            ++ sub
            ++ lit ")"
            ++ listed [] (lit "\n  roles: ") shown)
  pub status :
      get_str v (lit "type") ≡ some (lit "status")
      → (block : Text) × (get_str reply (lit "block") ≡ some block)
        × Contains ((lit " user      " ++ who) ++ b'\n' ∷ []) block
        × Contains ((lit "   sub     " ++ sub) ++ b'\n' ∷ []) block
        × Contains ((lit "   roles   " ++ listed (lit "—") [] shown) ++ b'\n' ∷ []) block

module _ (show : ℕ → Text) (debug : Option Text → Text) (me : Identity) where
  block-Contains :
      (c : StatusClient) (who sub issuer project : Text) (shown : List Text)
      → Contains
          ((lit " user      " ++ who) ++ b'\n' ∷ [])
          (format_status_block show c who sub shown issuer project)
        × Contains
            ((lit "   sub     " ++ sub) ++ b'\n' ∷ [])
            (format_status_block show c who sub shown issuer project)
        × Contains
            ((lit "   roles   " ++ roles_or_dash shown) ++ b'\n' ∷ [])
            (format_status_block show c who sub shown issuer project)
  unfolding format_status_block
  block-Contains c who sub issuer project shown = (
    more _ _ _ (
        more _ _ _ (
          more _ _ _
            (more _ _ _ (more _ _ _ (more _ _ _ (more _ _ _ (more _ _ _ (last_part _ _)))))))),
    more _ _ _ (
        more _ _ _
          (more _ _ _ (more _ _ _ (more _ _ _ (more _ _ _ (more _ _ _ (last_part _ _))))))),
    more _ _ _ (more _ _ _ (more _ _ _ (more _ _ _ (more _ _ _ (more _ _ _ (last_part _ _)))))),
  )

  whoami_text :
      (who : Text) (shown : List Text)
      → some (format_whoami_line who me.user_id shown)
        ≡ some (
            lit "logged in as "
            ++ who
            ++ lit " (sub="
            ++ me.user_id
            ++ lit ")"
            ++ listed [] (lit "\n  roles: ") shown)
  unfolding format_whoami_line lit
  whoami_text who [] = refl
  whoami_text who (r ∷ rs) = refl

  listed_roles : (shown : List Text) → roles_or_dash shown ≡ listed (lit "—") [] shown
  listed_roles [] = refl
  listed_roles (r ∷ rs) = refl

  block_told :
      (c : StatusClient) (who issuer project : Text) (shown : List Text)
      → (block : Text) × (some (format_status_block show c who me.user_id shown issuer project)
          ≡ some block)
        × Contains ((lit " user      " ++ who) ++ b'\n' ∷ []) block
        × Contains ((lit "   sub     " ++ me.user_id) ++ b'\n' ∷ []) block
        × Contains ((lit "   roles   " ++ listed (lit "—") [] shown) ++ b'\n' ∷ []) block
  block_told c who issuer project shown =
      let (user, sub, roles) = block-Contains c who me.user_id issuer project shown in
      (
        _,
        refl,
        user,
        sub,
        subst
            (λ t.
              Contains ((lit "   roles   " ++ t) ++ b'\n' ∷ [])
                (format_status_block show c who me.user_id shown issuer project))
            (listed_roles shown) roles,
      )

  known_reply-IsTold :
      (issuer : Text) (v : Json) (who : Text) (shown : List Text)
      → IsTold v who me.user_id shown (known_reply show debug me issuer v who shown)
  unfolding format_whoami_line lit
  known_reply-IsTold issuer v who shown = record {
    whoami = λ e. rw e (whoami_text who shown);
    status = λ e. rw e (block_told (parse_status_client v) who issuer _ shown);
  }

  -- If an issuer is configured, there is a list of roles that has each role of the caller once and no
  -- other, in ascending order, and only one such list; the reply to `whoami` is made of the caller's
  -- label, its id and this list, and the reply to `status` has a line with each.
  pub handle_identity-IsShown :
      (v : Json) (roles : List Text) (issuer : Text)
      → me.issuer ≡ some issuer
      → (shown : List Text) × IsShown roles shown
        × IsTold v
            (resolve_user_label (me.userinfo issuer) me.email me.user_id)
            me.user_id
            shown
            (handle_identity show debug me (ok v) roles)
  unfolding handle_identity
  handle_identity-IsShown v roles issuer h = (
    sorted_roles roles,
    sorted_roles-IsShown roles,
    subst (IsTold v _ me.user_id (sorted_roles roles))
        (sym (ap (λ o. with_issuer show debug me o v roles) h))
        (known_reply-IsTold issuer v _ (sorted_roles roles)),
  )
