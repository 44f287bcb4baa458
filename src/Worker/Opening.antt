-- ===== src/Worker/Opening.antt =====
-- Opening a session on the worker (the `open` command and `do_spawn_session` of worker/src/lib.rs),
-- for the default transport. The process of claude and the search for its program are parameters, and
-- so is what others do to the file system between the two checks of the directory.
pub mod Placed
use llm_chat.Prelude.{
  ℕ, Text, Bool, true, false, Option, none, some, List, [], ◌∷◌, ◌++◌, lit, ℤ, length, leb, is_some,
  is_none, Result, ok, err, ◌>>=◌, if◌then◌else◌,
}
use llm_chat.Json.{Json, str, field, end, get_str}
use llm_chat.Worker.RichLevel.{resolve, as_str}
use llm_chat.Worker.Session.{JsonSession, spawned}
use llm_chat.Worker.UserEnv.{
  ResolveError, bad_user, bad_path, escape, io, FilePath, Fs, path_starts_with, open_cwd,
}
use llm_chat.Worker.AppState.{AppState, max_sessions, ok_with, failed, add_session}

-- `Display` of the error.
unfoldable pub error_text : ResolveError → Text
error_text (bad_user s) = lit "bad user id: " ++ s
error_text (bad_path s) = lit "bad path: " ++ s
error_text (escape s) = lit "path escapes user dir: " ++ s
error_text (io s) = lit "io: " ++ s

-- One opening: the new session's id, what is found and fails, and what the others do meanwhile.
-- `counted` is the number of sessions when the bound was tested: the lock is given back before the
-- session is added, and other openings may come in between.
pub record Attempt (World : Type 0) : Type 0 where
  pub id : Text
  pub counted : ℕ
  pub claude_path : Option Text
  pub spawn_fails : Option Text
  pub llm_chat_rich : Option Text
  pub meantime : World → World

-- The process that was started.
pub record Spawn : Type 0 where
  pub sid : Text
  pub claude_path : Text
  pub cwd : Option FilePath
  pub rich : Text

abbrev claude_missing : Text
claude_missing = lit "claude CLI not found on PATH (set LLM_CHAT_TRANSPORT=pty for the TUI path)"

abbrev too_many : Text
too_many = lit "max session count reached (50); close some before spawning more"

-- `debug_path` prints a path as `{:?}` does.
module _ (fs : Fs) (is_dir : fs.World → FilePath → Bool) (debug_path : FilePath → Text)
    (debug : Text → Text) (show : ℤ → Text) where
  abbrev pub within : FilePath → FilePath → Result (Option FilePath) Text
  within resolved root =
      if path_starts_with resolved root
      then ok (some resolved)
      else err (
          lit "cwd "
          ++ (debug_path resolved
              ++ (lit " escapes the per-user root "
                  ++ (debug_path root ++ lit " — rejected (fail closed)"))))

  abbrev pub re_proved : FilePath → Option FilePath → Result (Option FilePath) Text
  re_proved resolved none = ok (some resolved)
  re_proved resolved (some root) = within resolved root

  abbrev pub resolved_cwd :
      fs.World → FilePath → Option FilePath → Result FilePath Text → Result (Option FilePath) Text
  resolved_cwd w p confine_root (err e) =
      err (lit "cwd " ++ (debug_path p ++ (lit " invalid: " ++ e)))
  resolved_cwd w p confine_root (ok resolved) =
      if is_dir w resolved
      then re_proved resolved confine_root
      else err (lit "cwd " ++ (debug_path resolved ++ lit " is not a directory"))

  -- The directory of the new process, checked once more.
  unfoldable pub clean_cwd :
      fs.World → Option FilePath → Option FilePath → Result (Option FilePath) Text
  clean_cwd w none confine_root = ok none
  clean_cwd w (some []) confine_root = ok none
  clean_cwd w (some (c ∷ p)) confine_root =
      resolved_cwd w (c ∷ p) confine_root (fs.canonicalize w (c ∷ p))

  module _ (a : Attempt fs.World) where
    abbrev pub started :
        Text → Option Text → Option FilePath → Option Text → AppState → Result Spawn Text × AppState
    started claude_path rich_override cwd (some e) st = (err e, st)
    started claude_path rich_override cwd none st = (
      ok (record {
        sid = a.id;
        claude_path = claude_path;
        cwd = cwd;
        rich = as_str (resolve a.llm_chat_rich rich_override);
      }),
      add_session a.id spawned st,
    )

    abbrev pub with_claude :
        Option Text → Option FilePath → Option Text → AppState → Result Spawn Text × AppState
    with_claude rich_override cwd none st = (err claude_missing, st)
    with_claude rich_override cwd (some claude_path) st =
        started claude_path rich_override cwd a.spawn_fails st

    abbrev pub in_directory :
        Option Text → Result (Option FilePath) Text → AppState → Result Spawn Text × AppState
    in_directory rich_override (err e) st = (err e, st)
    in_directory rich_override (ok cwd) st = with_claude rich_override cwd a.claude_path st

    unfoldable pub do_spawn_session :
        Option FilePath
        → Option FilePath
        → Option Text
        → fs.World
        → AppState
        → Result Spawn Text × AppState
    unfolding clean_cwd resolve as_str add_session
    do_spawn_session cwd confine_root rich_override w st =
        if leb max_sessions a.counted
        then (err too_many, st)
        else in_directory rich_override (clean_cwd w cwd confine_root) st

    -- The reply, the sessions, and the process if there is one.
    pub record Opened : Type 0 where
      pub reply : Json
      pub app : AppState
      pub process : Option Spawn

    abbrev pub refused : Text → AppState → Opened
    refused e st = record { reply = failed e; app = st; process = none }

    abbrev pub replied : Result Spawn Text × AppState → Opened
    replied (err e, st) = refused e st
    replied (ok p, st) = record {
      reply = ok_with (
          field (lit "sessionId") (str p.sid) (
            field (lit "transport") (str (lit "stream-json"))
              (field (lit "rich") (str p.rich) end)));
      app = st;
      process = some p;
    }

    abbrev pub canonical : Result FilePath Text → Option FilePath
    canonical (err e) = none
    canonical (ok p) = some p

    -- The root of the user as the request names it, if it has a canonical path.
    unfoldable pub confine_root : FilePath → Option Text → fs.World → Option FilePath
    confine_root base none w = none
    confine_root base (some uid) w = canonical (fs.canonicalize w (base ++ uid ∷ []))

    abbrev pub opened_in :
        FilePath
        → Option Text
        → Option Text
        → fs.World
        → AppState
        → Result FilePath ResolveError
        → Opened
    opened_in base user_id rich_override w st (err e) = refused (lit "env: " ++ error_text e) st
    opened_in base user_id rich_override w st (ok p) =
        replied (do_spawn_session (some p) (confine_root base user_id w) rich_override w st)

    unfoldable pub open_session : FilePath → Json → AppState → fs.World → Opened × fs.World
    unfolding do_spawn_session confine_root open_cwd error_text
    open_session base req st boxes =
        let user_id = get_str req (lit "userId") in
        let (r, w) = open_cwd fs debug show base user_id (get_str req (lit "cwd")) boxes in
        let now = a.meantime w in (opened_in base user_id (get_str req (lit "rich")) now st r, now)
