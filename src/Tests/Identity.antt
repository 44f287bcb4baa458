-- ===== src/Tests/Identity.antt =====
-- A caller with a role that the token names twice asks who it is.
use llm_chat.Prelude.{
  ℕ, ◌≡◌, refl, Text, Option, none, some, List, [], ◌∷◌, ◌++◌, lit, ok, sort, insert_sorted, join,
}
use llm_chat.Json.{Json, obj, str, field, end}
use llm_chat.Manager.Identity.{
  Identity, handle_identity, resolve_user_label, user_label_from_userinfo, sorted_roles, dedup,
  dedup_from, format_whoami_line,
}
use llm_chat.Manager.Identity.Roles.{IsShown, IsTold, handle_identity-IsShown}

abbrev me : Identity
me = record {
  user_id = lit "u1";
  email = some (lit "ann@x");
  userinfo = λ issuer. some (obj (field (lit "name") (str (lit "Ann")) end));
  issuer = some (lit "https://id");
  project_id = none;
  project_name = none;
}

abbrev roles : List Text
roles = lit "chat.user" ∷ lit "chat.admin" ∷ lit "chat.user" ∷ []

abbrev whoami : Json
whoami = obj (field (lit "type") (str (lit "whoami")) end)

abbrev show_number : ℕ → Text
show_number n = n ∷ []

abbrev debug_text : Option Text → Text
debug_text none = lit "None"
debug_text (some t) = t

whoami_reply :
    handle_identity show_number debug_text me (ok whoami) roles
    ≡ obj (
        field (lit "type") (str (lit "whoami")) (
          field
            (lit "line")
            (str (
              lit "logged in as Ann (sub=u1)"
              ++ (b'\n' ∷ [])
              ++ lit "  roles: chat.admin, chat.user"))
            end))
unfolding handle_identity resolve_user_label user_label_from_userinfo sorted_roles dedup dedup_from
    sort insert_sorted join format_whoami_line lit
whoami_reply = refl

handle_identity-IsShown_example :
    (shown : List Text) × IsShown roles shown
    × IsTold whoami
        (resolve_user_label (me.userinfo (lit "https://id")) me.email me.user_id)
        me.user_id
        shown
        (handle_identity show_number debug_text me (ok whoami) roles)
handle_identity-IsShown_example =
    handle_identity-IsShown show_number debug_text me whoami roles (lit "https://id") refl
