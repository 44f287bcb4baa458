-- ===== src/Worker/Attachments/Stored.antt =====
-- What `save_attachment` (worker/src/lib.rs) has stored when it returns, and what it leaves alone.
use llm_chat.Prelude.{
  ℕ, ◌≡◌, ◌≤◌, ap, Text, true, false, List, [], ◌∷◌, ◌++◌, all_chars, refl, any, length, take, ltb,
  text_eq, Result, ok, ok-injective, arith,
}
use mathlib.Core.Path.{subst}
use mathlib.Core.List.{append_assoc}
use llm_chat.Worker.Io as Io
use llm_chat.Worker.Io.{pure, lift, ◌>>=◌, ◌>>◌, map_err, map_err-eq-ok, outcome_eq}
use llm_chat.Worker.UserEnv.{FilePath}
use llm_chat.Worker.Attachments.{
  Disk, attachment_allowed_mime, max_attachment_bytes, safe_char, attachment_dir, attachment_path,
  checked_bytes, store, make_dir, write_file, save_attachment, sanitize_path_component,
}
use llm_chat.Worker.Attachments.Sanitized.{IsSafe, dashed-IsSafe, sanitize_path_component-IsSafe}

module _ (disk : Disk) (root : FilePath) (show : ℕ → Text)
    (decode : Text → Result (List ℕ) Text) where
  -- The bytes pass the checks: their type is allowed, they are what the text encodes, and no more
  -- than the bound.
  pub record IsAllowed (mime b64 : Text) (bytes : List ℕ) : Type 0 where
    pub allowed : any (λ m. text_eq m mime) attachment_allowed_mime ≡ true
    pub decoded : decode b64 ≡ ok bytes
    pub small : length bytes ≤ max_attachment_bytes

  -- After `save_attachment`: the bytes were written at the path, as the last thing done to the disk,
  -- and the path is two safe components below the directory of all attachments.
  pub record IsStored (id sid name mime b64 : Text) (v : disk.World) (path : FilePath)
      : Type 0 where
    pub bytes : List ℕ
    pub checks : IsAllowed mime b64 bytes
    pub before : disk.World
    pub wrote : disk.write path bytes before ≡ (ok tt, v)
    pub dir : Text
    pub file : Text
    pub place : path ≡ root ++ dir ∷ file ∷ []
    pub unique : (rest : Text) × (file ≡ take 8 id ++ b'-' ∷ rest)
    pub dir_safe : IsSafe dir
    pub file_safe : IsSafe file

  checked_bytes-IsAllowed :
      (mime b64 : Text) (bytes : List ℕ)
      → checked_bytes disk root show decode mime b64 ≡ ok bytes
      → IsAllowed mime b64 bytes
  unfolding checked_bytes
  checked_bytes-IsAllowed mime b64 bytes h =
      let (a, d) : (any (λ m. text_eq m mime) attachment_allowed_mime ≡ true)
          × ((decode b64 ≡ ok bytes) × (ltb max_attachment_bytes (length bytes) ≡ false)) =
        ground arith in
      record { allowed = a; decoded = d.0; small = ground arith }

  write_file-eq :
      (w : disk.World) (path : FilePath) (bytes : List ℕ) (u : Unit {0}) (v : disk.World)
      → write_file disk root show decode path bytes w ≡ (ok u, v)
      → disk.write path bytes w ≡ (ok u, v)
  unfolding write_file
  write_file-eq w path bytes u v h = map_err-eq-ok _ (disk.write path bytes) w v h

  attachment_path-place :
      (id sid name : Text)
      → attachment_path disk root show decode id sid name
        ≡ root
          ++ sanitize_path_component sid ∷ (take 8 id ++ b'-' ∷ sanitize_path_component name) ∷ []
  unfolding attachment_path attachment_dir
  attachment_path-place id sid name = append_assoc root _ _

  attachment_path-IsStored :
      (id sid name mime b64 : Text) (bytes : List ℕ) (v before : disk.World)
      → all_chars safe_char id ≡ true
      → IsAllowed mime b64 bytes
      → write_file disk root show decode
          (attachment_path disk root show decode id sid name)
          bytes
          before
        ≡ (ok tt, v)
      → IsStored id sid name mime b64 v (attachment_path disk root show decode id sid name)
  attachment_path-IsStored id sid name mime b64 bytes v before plain checks h = record {
    bytes = bytes;
    checks = checks;
    before = before;
    wrote = write_file-eq before _ bytes tt v h;
    dir = sanitize_path_component sid;
    file = take 8 id ++ b'-' ∷ sanitize_path_component name;
    unique = (sanitize_path_component name, refl);
    place = attachment_path-place id sid name;
    dir_safe = sanitize_path_component-IsSafe sid;
    file_safe = dashed-IsSafe id _ plain (sanitize_path_component-IsSafe name);
  }

  path-eq : (p path : FilePath) (u v : disk.World) → pure {E = Text} p u ≡ (ok path, v) → p ≡ path
  unfolding pure
  path-eq p path u v h = ok-injective (ap (λ x. x.0) h)

  world-eq : (p path : FilePath) (u v : disk.World) → pure {E = Text} p u ≡ (ok path, v) → u ≡ v
  unfolding pure
  world-eq p path u v h = ap (λ x. x.1) h

  -- When the random id is made of ASCII letters and digits, `-`, `_` and `.`, what `save_attachment`
  -- reports as saved is stored: it passed the checks of its type and size and was written last, in a
  -- file that is two safe names below the directory of the attachments, the second of which begins
  -- with the id's first eight characters and a dash.
  pub save_attachment-IsStored :
      (id sid name mime b64 : Text) (w v : disk.World) (path : FilePath)
      → all_chars safe_char id ≡ true
      → save_attachment disk root show decode id sid name mime b64 w ≡ (ok path, v)
      → IsStored id sid name mime b64 v path
  unfolding save_attachment store lift
  save_attachment-IsStored id sid name mime b64 w v path plain h =
      let (bytes, checks, h1) = Io.>>=-eq-ok _ _ w h in
      let (made, m1, h2) = Io.>>=-eq-ok _ _ _ h1 in
      let (wrote, m2, h3) = Io.>>=-eq-ok _ _ _ h2 in
      subst (IsStored id sid name mime b64 v) (path-eq _ _ _ _ h3) (
        attachment_path-IsStored id sid name mime b64 bytes v (make_dir disk root show decode _ w).1
          plain (checked_bytes-IsAllowed mime b64 bytes checks)
          (outcome_eq _ m2 (world-eq _ _ _ _ h3)))
