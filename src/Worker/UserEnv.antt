-- ===== src/Worker/UserEnv.antt =====
-- Per-user path confinement and box provisioning (worker/src/user_env.rs). A path is the list of
-- its components, so `join` and `push` of one component add it at the end. The file system is the
-- standard library's: it enters as the record `Fs`, with a world that its operations change.
pub mod Components
pub mod Confined
pub mod Keeps
pub mod Resolved
use llm_chat.Prelude.{
  ℕ, ◌+◌, Text, Bool, true, false, not, ◌&&◌, ◌||◌, Option, none, some, List, [], ◌∷◌, ◌++◌, lit, ℤ,
  pos, negsuc, all_chars, contains_char, is_ascii_alphanumeric, is_empty, is_none, trim, split,
  text_eq, unwrap_or, parse_i64, and_then, ◌==◌, leb, Result, ok, err, ltb, if◌then◌else◌,
}
use llm_chat.Worker.Io.{Io, pure, raise, lift, looking, map_err, ◌>>=◌, ◌>>◌}

pub data ResolveError : Type 0 where
  bad_user bad_path escape io : Text → ResolveError

abbrev pub FilePath : Type 0
FilePath = List Text

abbrev pub user_char : ℕ → Bool
user_char c = is_ascii_alphanumeric c || c == b'_' || c == b'-'

unfoldable pub valid_user_id : Text → Bool
valid_user_id user_id = not (is_empty user_id) && all_chars user_char user_id

abbrev pub is_special : Text → Bool
is_special comp = is_empty comp || text_eq comp (b'.' ∷ []) || text_eq comp (b'.' ∷ b'.' ∷ [])

abbrev pub has_bad_char : Text → Bool
has_bad_char comp = contains_char b'\\' comp || contains_char b':' comp || contains_char 0 comp

-- `{:?}` of a text, as the standard library prints it.
module _ (debug : Text → Text) where
  -- The loop of `confine_path` over the components of the subpath.
  unfoldable pub push_components : FilePath → List Text → Result FilePath ResolveError
  push_components out [] = ok out
  push_components out (comp ∷ comps) =
      if is_special comp
      then err (bad_path (lit "illegal component " ++ debug comp))
      else if has_bad_char comp
      then err (bad_path (lit "illegal char in " ++ debug comp))
      else push_components (out ++ comp ∷ []) comps

  abbrev pub confine_raw : FilePath → Text → Result FilePath ResolveError
  confine_raw root [] = ok root
  confine_raw root (c ∷ raw) =
      if c == b'/'
      then err (bad_path (lit "absolute path not allowed"))
      else push_components root (split b'/' (c ∷ raw))

  unfoldable pub confine_path : FilePath → Text → Option Text → Result FilePath ResolveError
  unfolding push_components
  confine_path base user_id subpath =
      if valid_user_id user_id
      then confine_raw (base ++ user_id ∷ []) (trim (unwrap_or subpath []))
      else err (bad_user (debug user_id))

pub record SeedEntry : Type 0 where
  pub path : Text
  pub dir : Bool
  pub content : Text

-- The calls of `std::fs` and `Path` on a world of files. An operation that fails may have changed
-- the world: `create_dir_all` may have made some of the directories.
pub record Fs : Type 1 where
  pub World : Type 0
  pub exists : World → FilePath → Bool
  pub read_to_string : World → FilePath → Option Text
  pub create_dir_all : FilePath → World → Result (Unit {0}) Text × World
  pub write : FilePath → Text → World → Result (Unit {0}) Text × World
  pub canonicalize : World → FilePath → Result FilePath Text
  -- `Path::display`
  pub display : FilePath → Text

abbrev pub path_starts_with : FilePath → FilePath → Bool
path_starts_with p [] = true
path_starts_with [] (c ∷ root) = false
path_starts_with (d ∷ p) (c ∷ root) = text_eq d c && path_starts_with p root

-- All components but the last.
abbrev pub parent : FilePath → FilePath
parent [] = []
parent (c ∷ []) = []
parent (c ∷ d ∷ p) = c ∷ parent (d ∷ p)

-- `{base}/{user_id}/{app}/.llm-chat/version`, below the user's root.
abbrev pub stamp_path : Text → Text
stamp_path app = app ++ lit "/.llm-chat/version"

unfoldable pub parse_stamp : Option Text → ℤ
unfolding trim parse_i64
parse_stamp raw = unwrap_or (and_then raw (λ s. parse_i64 (trim s))) (pos 0)

pub data ProvisionAction : Type 0 where
  provision current migrate : ProvisionAction

abbrev pub is_positive : ℤ → Bool
is_positive (pos n) = ltb 0 n
is_positive (negsuc n) = false

abbrev pub leb_ℤ : ℤ → ℤ → Bool
leb_ℤ (pos a) (pos b) = leb a b
leb_ℤ (pos a) (negsuc b) = false
leb_ℤ (negsuc a) (pos b) = true
leb_ℤ (negsuc a) (negsuc b) = leb b a

unfoldable pub decide_action : ℤ → ℤ → ProvisionAction
decide_action stamp target =
    if not (is_positive stamp) then provision else if leb_ℤ target stamp then current else migrate

abbrev pub missing_user : Text
missing_user = lit "per-user environment requires an authenticated user id"

module _ (fs : Fs) (debug : Text → Text) (show : ℤ → Text) where
  open fs use {World, exists, read_to_string, create_dir_all, write, canonicalize, display}

  abbrev pub Action : Type 0 → Type 0
  Action A = Io World ResolveError A

  -- The two canonical paths, when both exist, and whether the one lies under the other.
  unfoldable pub under_root :
      Result FilePath Text → Result FilePath Text → FilePath → Result FilePath ResolveError
  under_root (err e) root candidate = err (escape (lit "canonicalize candidate: " ++ e))
  under_root (ok real) (err e) candidate = err (escape (lit "canonicalize root: " ++ e))
  under_root (ok real) (ok root) candidate =
      if path_starts_with real root
      then ok candidate
      else err (escape (display real ++ (lit " not under " ++ display root)))

  unfoldable pub resolve_user_cwd : FilePath → Text → Option Text → Action FilePath
  unfolding under_root
  resolve_user_cwd base user_id subpath = do
    candidate ← lift (confine_path debug base user_id subpath)
    map_err (λ e. io (lit "create " ++ (display candidate ++ (lit ": " ++ e))))
        (create_dir_all candidate)
    looking λ w.
        lift
          (under_root (canonicalize w candidate) (canonicalize w (base ++ user_id ∷ [])) candidate)

  -- The user id is mandatory.
  unfoldable pub open_cwd : FilePath → Option Text → Option Text → Action FilePath
  unfolding resolve_user_cwd
  open_cwd base user_id subpath =
      let uid = trim (unwrap_or user_id []) in
      if is_empty uid then raise (bad_user missing_user) else resolve_user_cwd base uid subpath

  unfoldable pub make_dir : FilePath → Action (Unit {0})
  make_dir p =
      map_err (λ e. io (lit "create " ++ (display p ++ (lit ": " ++ e)))) (create_dir_all p)

  unfoldable pub write_file : FilePath → Text → Action (Unit {0})
  write_file p content =
      map_err (λ e. io (lit "write " ++ (display p ++ (lit ": " ++ e)))) (write p content)

  -- One entry of the loop: nothing that exists is touched. The result is the number made.
  unfoldable pub create_absent : SeedEntry → FilePath → Action ℕ
  create_absent e full =
      if e.dir
      then (do make_dir full; pure 1)
      else (do make_dir (parent full); write_file full e.content; pure 1)

  unfoldable pub unless_exists : SeedEntry → FilePath → Action ℕ
  unless_exists e full = looking λ w. if exists w full then pure 0 else create_absent e full

  unfoldable pub provision_entry : FilePath → Text → Text → SeedEntry → Action ℕ
  provision_entry base user_id app e = do
    full ← lift (confine_path debug base user_id (some (app ++ b'/' ∷ e.path)))
    unless_exists e full

  unfoldable pub provision_loop : FilePath → Text → Text → List SeedEntry → ℕ → Action ℕ
  provision_loop base user_id app [] created = pure created
  provision_loop base user_id app (e ∷ es) created = do
    n ← provision_entry base user_id app e
    provision_loop base user_id app es (created + n)

  unfoldable pub provision_entries : FilePath → Text → Text → List SeedEntry → Action ℕ
  unfolding provision_loop provision_entry resolve_user_cwd
  provision_entries base user_id app entries =
      if is_empty (trim user_id)
      then raise (bad_user missing_user)
      else (do resolve_user_cwd base user_id (some app); provision_loop base user_id app entries 0)

  unfoldable pub read_stamp : FilePath → Text → Text → Action ℤ
  unfolding parse_stamp
  read_stamp base user_id app = do
    full ← lift (confine_path debug base user_id (some (stamp_path app)))
    looking
        λ w. pure (elim (read_to_string w full) [ none ↦ pos 0 | some s ↦ parse_stamp (some s) ])

  unfoldable pub write_stamp : FilePath → Text → Text → ℤ → Action (Unit {0})
  write_stamp base user_id app version = do
    full ← lift (confine_path debug base user_id (some (stamp_path app)))
    make_dir (parent full)
    write_file full (show version ++ b'\n' ∷ [])
