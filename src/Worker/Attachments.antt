-- ===== src/Worker/Attachments.antt =====
-- Attachments on the worker's disk (`sanitize_path_component`, `save_attachment` and
-- `cleanup_attachments` of worker/src/lib.rs). A path is the list of its components. The disk, the
-- decoding of base64 and the random name are the libraries': they are parameters.
pub mod Sanitized
pub mod Stored
use llm_chat.Prelude.{
  ℕ, ◌*◌, ◌/◌, Text, Bool, true, false, ◌||◌, List, [], ◌∷◌, ◌++◌, lit, map, any, take, length, ltb,
  ◌==◌, text_eq, byte_len, is_ascii_alphanumeric, Result, ok, err, if◌then◌else◌,
}
use llm_chat.Worker.Io.{Io, pure, raise, lift, looking, map_err, ◌>>=◌, ◌>>◌}
use llm_chat.Worker.UserEnv.{FilePath, is_special}

abbrev pub attachment_allowed_mime : List Text
attachment_allowed_mime =
    lit "image/png"
    ∷ lit "image/jpeg"
    ∷ lit "image/jpg"
    ∷ lit "image/gif"
    ∷ lit "image/webp"
    ∷ lit "application/pdf"
    ∷ []

abbrev pub max_attachment_bytes : ℕ
max_attachment_bytes = 25 * 1024 * 1024

abbrev pub safe_char : ℕ → Bool
safe_char c = is_ascii_alphanumeric c || c == b'-' || c == b'_' || c == b'.'

abbrev pub cleaned_char : ℕ → ℕ
cleaned_char c = if safe_char c then c else b'_'

unfoldable pub sanitize_path_component : Text → Text
sanitize_path_component s =
    let cleaned = map cleaned_char s in if is_special cleaned then b'_' ∷ [] else cleaned

-- The calls of `std::fs` on a disk. An operation that fails may have changed the disk.
pub record Disk : Type 1 where
  pub World : Type 0
  pub exists : World → FilePath → Bool
  pub create_dir_all : FilePath → World → Result (Unit {0}) Text × World
  pub write : FilePath → List ℕ → World → Result (Unit {0}) Text × World
  pub remove_dir_all : FilePath → World → World
  pub display : FilePath → Text

-- `root` is the directory `attachments` beside the token file. `show` prints a size.
module _ (disk : Disk) (root : FilePath) (show : ℕ → Text)
    (decode : Text → Result (List ℕ) Text) where
  open disk use {World, exists, create_dir_all, write, remove_dir_all, display}

  unfoldable pub attachment_dir : Text → FilePath
  unfolding sanitize_path_component
  attachment_dir sid = root ++ sanitize_path_component sid ∷ []

  -- `id` is the new UUID in its simple form.
  unfoldable pub attachment_path : (id sid name : Text) → FilePath
  unfolding attachment_dir
  attachment_path id sid name =
      attachment_dir sid ++ (take 8 id ++ b'-' ∷ sanitize_path_component name) ∷ []

  abbrev too_large : (about : Text) → ℕ → Text
  too_large about n =
      lit "attachment too large: "
      ++ (about ++ (show n ++ (lit " bytes (max " ++ (show max_attachment_bytes ++ b')' ∷ []))))

  -- The checks that come before the disk is touched: the decoded bytes.
  unfoldable pub checked_bytes : (mime b64 : Text) → Result (List ℕ) Text
  checked_bytes mime b64 =
      if any (λ m. text_eq m mime) attachment_allowed_mime
      then if ltb max_attachment_bytes (byte_len b64 / 4 * 3)
        then err (too_large (b'~' ∷ []) (byte_len b64 / 4 * 3))
        else elim (decode b64) [
          | err e ↦ err (lit "base64 decode: " ++ e)
          | ok bytes ↦
              if ltb max_attachment_bytes (length bytes)
              then err (too_large [] (length bytes))
              else ok bytes
        ]
      else err (lit "MIME type not allowed: " ++ mime)

  unfoldable pub make_dir : FilePath → Io World Text (Unit {0})
  make_dir dir =
      map_err (λ e. lit "mkdir " ++ (display dir ++ (lit ": " ++ e))) (create_dir_all dir)

  unfoldable pub write_file : FilePath → List ℕ → Io World Text (Unit {0})
  write_file path bytes =
      map_err (λ e. lit "write " ++ (display path ++ (lit ": " ++ e))) (write path bytes)

  unfoldable pub store : (id sid name : Text) → List ℕ → Io World Text FilePath
  unfolding attachment_path make_dir write_file
  store id sid name bytes = do
    make_dir (attachment_dir sid)
    write_file (attachment_path id sid name) bytes
    pure (attachment_path id sid name)

  unfoldable pub save_attachment : (id sid name mime b64 : Text) → Io World Text FilePath
  unfolding checked_bytes store
  save_attachment id sid name mime b64 = do
    bytes ← lift (checked_bytes mime b64)
    store id sid name bytes

  -- A failure to remove is only logged.
  unfoldable pub cleanup_attachments : Text → World → World
  unfolding attachment_dir
  cleanup_attachments sid w =
      if exists w (attachment_dir sid) then remove_dir_all (attachment_dir sid) w else w
