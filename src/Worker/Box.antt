-- ===== src/Worker/Box.antt =====
-- The listing of a user's box (`list_box_tree`, `list_box_readonly` and `walk_box` of
-- worker/src/user_env.rs). What `read_dir` and `symlink_metadata` see of a world enters as a record.
pub mod Sorted
pub mod Walk
pub mod Complete
pub mod Listing
use llm_chat.Prelude.{
  ℕ, zero, suc, ◌-◌, ℤ, Text, Bool, true, false, not, ◌&&◌, Option, none, some, List, [], ◌∷◌, ◌++◌,
  lit, map, join, drop, length, leb, ◌==◌, is_empty, text_leb, sort, trim, unwrap_or, Result, ok,
  err, if◌then◌else◌,
}
use llm_chat.Worker.Io.{pure, raise, looking, ◌>>=◌}
use llm_chat.Worker.UserEnv.{
  ResolveError, bad_user, escape, FilePath, Fs, Action, valid_user_id, missing_user,
  resolve_user_cwd,
}

pub record DirEntry : Type 0 where
  pub path : Text
  pub dir : Bool
  pub size : ℕ

pub record Metadata : Type 0 where
  pub is_dir : Bool
  pub is_symlink : Bool
  pub len : ℕ

-- The names in a directory that opens, each of which is taken to be readable, and what an entry is,
-- a symbolic link not followed.
pub record View : Type 0 where
  pub read_dir : FilePath → Option (List Text)
  pub symlink_metadata : FilePath → Option Metadata

abbrev pub is_real_dir : Metadata → Bool
is_real_dir md = md.is_dir && not md.is_symlink

abbrev forward_slash : ℕ → ℕ
forward_slash c = if c == b'\\' then b'/' else c

-- The path below the root, of which `root` is a prefix.
abbrev relative : FilePath → FilePath → Text
relative root path = map forward_slash (join (b'/' ∷ []) (drop (length root) path))

unfoldable pub entry_of : FilePath → FilePath → Metadata → DirEntry
entry_of root path md = record {
  path = relative root path;
  dir = is_real_dir md;
  size = if is_real_dir md then 0 else md.len;
}

-- `out` and `truncated`.
pub record Walked : Type 0 where
  pub out : List DirEntry
  pub truncated : Bool

abbrev push : DirEntry → Walked → Walked
push e st = record st { out = st.out ++ e ∷ [] }

module _ (fs : View) (root : FilePath) (max_entries : ℕ) where
  open fs use {read_dir, symlink_metadata}

  -- One round of the loop, with what is done in a directory of this entry.
  abbrev pub visited : (FilePath → Walked → Walked) → FilePath → Option Metadata → Walked → Walked
  visited descend path none st = st
  visited descend path (some md) st =
      if is_real_dir md
      then descend path (push (entry_of root path md) st)
      else push (entry_of root path md) st

  -- The loop over the sorted paths of a directory. A full listing ends it.
  unfoldable pub walk_paths : (FilePath → Walked → Walked) → FilePath → List Text → Walked → Walked
  unfolding entry_of
  walk_paths descend dir [] st = st
  walk_paths descend dir (n ∷ ns) st = elim (leb max_entries (length st.out)) [
    | true ↦ record st { truncated = true }
    | false ↦
        walk_paths descend dir ns
          (visited descend (dir ++ n ∷ []) (symlink_metadata (dir ++ n ∷ [])) st)
  ]

  abbrev pub walk_names :
      (FilePath → Walked → Walked) → FilePath → Option (List Text) → Walked → Walked
  walk_names descend dir none st = st
  walk_names descend dir (some names) st = walk_paths descend dir (sort text_leb names) st

  abbrev pub has_some : Option (List Text) → Bool
  has_some none = false
  has_some (some []) = false
  has_some (some (n ∷ ns)) = true

  -- At the depth cap a directory is not read, only looked into.
  unfoldable pub capped : FilePath → Walked → Walked
  capped path st = if has_some (read_dir path) then record st { truncated = true } else st

  -- `levels` is what is left of `max_depth` below the directory: `max_depth - depth - 1`.
  unfoldable pub walk_box : ℕ → FilePath → Walked → Walked
  unfolding sort walk_paths capped
  walk_box zero dir st = walk_names capped dir (read_dir dir) st
  walk_box (suc levels) dir st = walk_names (walk_box levels) dir (read_dir dir) st

unfoldable pub path_leb : DirEntry → DirEntry → Bool
path_leb a b = text_leb a.path b.path

unfoldable pub list_at : View → FilePath → ℕ → ℕ → List DirEntry × Bool
unfolding walk_box sort path_leb
list_at fs root max_depth max_entries =
    let st =
      walk_box fs root max_entries (max_depth - 1) root (record { out = []; truncated = false }) in
    (sort path_leb st.out, st.truncated)

module _ (fs : Fs) (look : fs.World → View) (debug : Text → Text) (show : ℤ → Text) where
  unfoldable pub list_box_tree :
      FilePath → Option Text → ℕ → ℕ → Action fs debug show (List DirEntry × Bool)
  unfolding list_at
  list_box_tree base user_id max_depth max_entries =
      let uid = trim (unwrap_or user_id []) in
      if is_empty uid then raise (bad_user missing_user) else (do
        root ← resolve_user_cwd fs debug show base uid none
        looking λ w. pure (list_at (look w) root max_depth max_entries))

  abbrev listed_real :
      fs.World → ℕ → ℕ → Result FilePath Text → Result (List DirEntry × Bool) ResolveError
  listed_real w max_depth max_entries (err e) = err (escape (lit "canonicalize root: " ++ e))
  listed_real w max_depth max_entries (ok root) = ok (list_at (look w) root max_depth max_entries)

  -- It looks at the world and leaves it alone.
  unfoldable pub list_box_readonly :
      FilePath → Option Text → ℕ → ℕ → fs.World → Result (List DirEntry × Bool) ResolveError
  list_box_readonly base user_id max_depth max_entries w =
      let uid = trim (unwrap_or user_id []) in
      if valid_user_id uid
      then if fs.exists w (base ++ uid ∷ [])
        then listed_real w max_depth max_entries (fs.canonicalize w (base ++ uid ∷ []))
        else ok ([], false)
      else err (bad_user (debug uid))
