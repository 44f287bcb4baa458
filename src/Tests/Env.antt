-- ===== src/Tests/Env.antt =====
-- A file system that is a function from paths to contents, with one link, where every directory
-- exists.
use llm_chat.Prelude.{
  ◌≡◌, ◌≢◌, ◌↔◌, ◌&&◌, refl, Text, Bool, true, false, Option, none, some, List, [], ◌∷◌, ◌++◌, lit,
  ℤ, is_some, text_eq, text_eq_iff, trim, split, ok, if◌then◌else◌, arith,
}
use llm_chat.Worker.Io.{pure, raise, lift, looking, map_err, ◌>>=◌}
use llm_chat.Worker.UserEnv.{
  FilePath, Fs, SeedEntry, valid_user_id, push_components, confine_path, under_root,
  resolve_user_cwd,
}
use llm_chat.Worker.UserEnv.Confined.{IsConfined, confine_path_iff}
use llm_chat.Worker.UserEnv.Keeps.{Lawful}
use llm_chat.Worker.UserEnv.Resolved.{IsProven, resolve_user_cwd-IsProven}

abbrev pub path_eq : FilePath → FilePath → Bool
path_eq [] [] = true
path_eq (c ∷ p) (d ∷ q) = text_eq c d && path_eq p q
path_eq [] (d ∷ q) = false
path_eq (c ∷ p) [] = false

path_eq_sound : (p q : FilePath) → path_eq p q ≡ true → p ≡ q
path_eq_sound [] [] h = refl
path_eq_sound (c ∷ p) (d ∷ q) h = ground (arith, text_eq_iff c d, path_eq_sound p q)
path_eq_sound [] (d ∷ q) h = cc
path_eq_sound (c ∷ p) [] h = cc

abbrev pub base : FilePath
base = lit "home" ∷ []

abbrev pub ann : Text
ann = lit "ann"

abbrev pub app_file : FilePath
app_file = lit "home" ∷ lit "ann" ∷ lit "app" ∷ []

abbrev pub notes : FilePath
notes = app_file ++ lit "notes" ∷ []

-- A link beside the notes that leads to them.
abbrev shortcut : FilePath
shortcut = app_file ++ lit "shortcut" ∷ []

abbrev pub follow : FilePath → FilePath
follow p = if path_eq shortcut p then notes else p

abbrev pub files : Fs
files = record {
  World = FilePath → Option Text;
  exists = λ w p. is_some (w (follow p));
  read_to_string = λ w p. w (follow p);
  create_dir_all = λ d w. (ok tt, w);
  write = λ q c w. (ok tt, λ p. if path_eq (follow q) p then some c else w p);
  canonicalize = λ w p. ok (follow p);
  display = λ p. [];
}

abbrev written : FilePath → Text → (FilePath → Option Text) → FilePath → Option Text
written q c w p = if path_eq q p then some c else w p

pub written_other :
    (w : FilePath → Option Text) (q p : FilePath) (c : Text) → q ≢ p → written q c w p ≡ w p
written_other w q p c ne = ground (arith, path_eq_sound q p)

abbrev pub files-Lawful : Lawful files
files-Lawful = record {
  Apart = λ w q p. follow q ≢ follow p;
  absent_apart = λ w q p c n h same. absurd (cc (n, h, same));
  mkdir_keeps = λ w d p. refl;
  mkdir_apart = λ w d q p c h a. a;
  write_keeps = λ w q p c a. written_other w (follow q) (follow p) c a;
  write_apart = λ w x q p c d h a b. b;
}

abbrev pub shown : Text → Text
shown s = s

abbrev pub number : ℤ → Text
number n = []

confine_path_iff_example :
    (confine_path shown base ann (some (lit "app")) ≡ ok app_file)
    ↔ IsConfined shown base ann (some (lit "app")) app_file
confine_path_iff_example = confine_path_iff shown base ann (some (lit "app")) app_file

-- The notes are there before the template is provisioned.
abbrev pub disk : FilePath → Option Text
disk p = if path_eq notes p then some (lit "mine") else none

abbrev template : List SeedEntry
template = record { path = lit "notes"; dir = false; content = lit "theirs" } ∷ []

pub notes_there : files.read_to_string disk notes ≡ some (lit "mine")
unfolding lit
notes_there = refl

resolved :
    resolve_user_cwd files shown number base ann (some (lit "app")) disk ≡ (ok app_file, disk)
unfolding resolve_user_cwd under_root confine_path push_components valid_user_id lit trim split lift
    looking map_err pure raise ◌>>=◌
resolved = refl

resolve_user_cwd-IsProven_example :
    IsProven files shown number base ann (some (lit "app")) disk app_file
resolve_user_cwd-IsProven_example =
    resolve_user_cwd-IsProven files shown number base ann (some (lit "app")) disk disk app_file
      resolved
