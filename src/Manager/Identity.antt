-- ===== src/Manager/Identity.antt =====
-- The /identity endpoint of manager/src/main.rs: `parse_status_client`, `format_status_block`,
-- `format_whoami_line`, `user_label_from_userinfo`, `resolve_user_label` and `handle_identity`. Its
-- request to the identity provider is a parameter, as are the printing of numbers and debug texts.
pub mod Roles
use llm_chat.Prelude.{
  ℕ, Text, Bool, true, false, Option, none, some, List, [], ◌∷◌, ◌++◌, lit, is_empty, unwrap_or,
  and_then, text_eq, text_leb, sort, join, Result, ok, err, if◌then◌else◌,
}
use llm_chat.Json.{Json, obj, end, field, str, get, get_str, get_bool, get_u64}

pub record StatusClient : Type 0 where
  pub kind : Text
  pub version : Text
  pub auth_label : Text
  pub render_mode : Text
  pub timeout_secs : ℕ
  pub manager_url : Text
  pub connected : Bool
  pub session_id : Option Text
  pub msgs_this_session : ℕ

-- A text that is missing or empty is the default.
abbrev str_or : Json → Text → Text → Text
str_or c k d = let val = unwrap_or (get_str c k) d in if is_empty val then d else val

abbrev status_client_of : Json → StatusClient
status_client_of c = record {
  kind = str_or c (lit "kind") (lit "?");
  version = str_or c (lit "version") (lit "?");
  auth_label = str_or c (lit "authLabel") (lit "—");
  render_mode = str_or c (lit "renderMode") (lit "auto");
  timeout_secs = unwrap_or (get_u64 c (lit "timeoutSecs")) 0;
  manager_url = unwrap_or (get_str c (lit "managerUrl")) [];
  connected = unwrap_or (get_bool c (lit "connected")) false;
  session_id = get_str c (lit "sessionId");
  msgs_this_session = unwrap_or (get_u64 c (lit "msgsThisSession")) 0;
}

unfoldable pub parse_status_client : Json → StatusClient
parse_status_client v = status_client_of (unwrap_or (get v (lit "client")) (obj end))

abbrev roles_or_dash : List Text → Text
roles_or_dash [] = lit "—"
roles_or_dash (r ∷ rs) = join (lit ", ") (r ∷ rs)

abbrev status_rule : Text
status_rule = lit "─────────────────────────────────────────────"

abbrev line : Text → Text
line t = t ++ (b'\n' ∷ [])

-- `show` prints a number.
unfoldable pub format_status_block :
    (show : ℕ → Text)
    → StatusClient
    → (who sub : Text) → (roles : List Text) → (issuer project : Text) → Text
unfolding join
format_status_block show c who sub roles issuer project =
    line (lit "─ status ───────────────────────────────────")
    ++ line (lit " client    llm-chat · " ++ c.kind ++ lit " · v" ++ c.version)
    ++ line (lit " auth      " ++ c.auth_label)
    ++ line (lit " user      " ++ who)
    ++ line (lit "   sub     " ++ sub)
    ++ line (lit "   roles   " ++ roles_or_dash roles)
    ++ line (
        lit " manager   "
        ++ c.manager_url
        ++ lit " · "
        ++ (if c.connected then lit "connected" else lit "disconnected"))
    ++ line (
        lit " session   "
        ++ unwrap_or c.session_id (lit "—")
        ++ lit " · "
        ++ show c.msgs_this_session
        ++ lit " msgs this session")
    ++ line (lit " issuer    " ++ issuer)
    ++ line (lit " project   " ++ project)
    ++ line (
        lit " display   render="
        ++ c.render_mode
        ++ lit " · timeout="
        ++ show c.timeout_secs
        ++ lit "s")
    ++ status_rule

abbrev roles_line : List Text → Text
roles_line [] = []
roles_line (r ∷ rs) = (b'\n' ∷ []) ++ lit "  roles: " ++ join (lit ", ") (r ∷ rs)

unfoldable pub format_whoami_line : (who sub : Text) → (roles : List Text) → Text
unfolding join
format_whoami_line who sub roles =
    lit "logged in as " ++ who ++ lit " (sub=" ++ sub ++ lit ")" ++ roles_line roles

-- `or_else`
abbrev or_else : Option Text → Option Text → Option Text
or_else none o = o
or_else (some t) o = some t

unfoldable pub user_label_from_userinfo : Json → Option Text → Text → Text
user_label_from_userinfo v email_fallback sub =
    unwrap_or
      (or_else (get_str v (lit "name")) (
        or_else (get_str v (lit "preferred_username"))
          (or_else (get_str v (lit "email")) email_fallback)))
      sub

-- What the identity provider answers, if it answers with JSON.
unfoldable pub resolve_user_label : Option Json → Option Text → Text → Text
unfolding user_label_from_userinfo
resolve_user_label none email_fallback sub = unwrap_or email_fallback sub
resolve_user_label (some v) email_fallback sub = user_label_from_userinfo v email_fallback sub

-- `dedup`: of equal neighbours the first stays.
unfoldable pub dedup_from : Text → List Text → List Text
dedup_from x [] = []
dedup_from x (y ∷ ys) =
    let same = dedup_from x ys in
    let rest = dedup_from y ys in if text_eq x y then same else y ∷ rest

unfoldable pub dedup : List Text → List Text
unfolding dedup_from
dedup [] = []
dedup (x ∷ xs) = x ∷ dedup_from x xs

unfoldable pub sorted_roles : List Text → List Text
unfolding sort dedup
sorted_roles roles = dedup (sort text_leb roles)

-- The caller, whom the handshake has verified, and what the manager knows of its provider.
pub record Identity : Type 0 where
  pub user_id : Text
  pub email : Option Text
  pub userinfo : Text → Option Json
  pub issuer : Option Text
  pub project_id : Option Text
  pub project_name : Option Text

abbrev err_frame : Text → Json
err_frame text = obj (field (lit "type") (str (lit "err")) (field (lit "text") (str text) end))

-- `debug` prints an optional text by `{:?}`.
module _ (show : ℕ → Text) (debug : Option Text → Text) (me : Identity) where
  abbrev pub known_reply : Text → Json → Text → List Text → Json
  known_reply issuer v who roles =
      if text_eq (unwrap_or (get_str v (lit "type")) []) (lit "status")
      then obj (
          field (lit "type") (str (lit "status")) (
            field (lit "block")
              (str (
                format_status_block show (parse_status_client v) who me.user_id roles issuer
                  (unwrap_or (or_else me.project_name me.project_id) (lit "—"))))
              end))
      else if text_eq (unwrap_or (get_str v (lit "type")) []) (lit "whoami")
      then obj (
          field (lit "type") (str (lit "whoami"))
            (field (lit "line") (str (format_whoami_line who me.user_id roles)) end))
      else err_frame (
          lit "unknown identity request type "
          ++ debug (get_str v (lit "type"))
          ++ lit "; expected \"status\" or \"whoami\"")

  abbrev pub with_issuer : Option Text → Json → List Text → Json
  with_issuer none v roles = err_frame (lit "identity unavailable: no issuer configured")
  with_issuer (some issuer) v roles =
      known_reply issuer v (resolve_user_label (me.userinfo issuer) me.email me.user_id)
        (sorted_roles roles)

  -- The one message of an /identity client, as serde_json parses it, and the reply.
  unfoldable pub handle_identity : Result Json Text → List Text → Json
  unfolding format_status_block parse_status_client format_whoami_line resolve_user_label
      sorted_roles
  handle_identity (err e) roles = err_frame (lit "bad JSON: " ++ e)
  handle_identity (ok v) roles = with_issuer me.issuer v roles
