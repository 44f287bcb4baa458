-- ===== src/Worker/UserEnv/Keeps.antt =====
-- The files of a world before and after provisioning (worker/src/user_env.rs).
use mathlib.Core.Path.{subst}
use llm_chat.Prelude.{
  ℕ, ◌+◌, ◌≡◌, ◌⊎◌, refl, ◌∙◌, inl, inr, Text, false, Option, some, List, [], ◌∷◌, ℤ, is_empty,
  trim, Bool-cases, ok, ◌++◌,
}
use llm_chat.Worker.Io.{
  pure, Keeps-lift_bind, Keeps, Keeps-pure, Keeps-raise, Keeps-lift, Keeps-looking, Keeps-inspect,
  Keeps-if, Keeps-bind, Keeps-map_err, io_rules,
}
use llm_chat.Worker.UserEnv.{
  FilePath, Fs, SeedEntry, resolve_user_cwd, make_dir, write_file, create_absent, unless_exists,
  provision_entry, provision_loop, provision_entries, confine_path, stamp_path, read_stamp,
  write_stamp, parent,
}

-- What the program relies on of the file system, in which links may make two paths lead to one file.
-- `Apart` holds of two paths that do not, links followed. A path that nothing exists at leads to no
-- file that can be read; making directories changes no file and brings no path to one that is there; a
-- write changes no file but the one that its path leads to, and brings no path to another.
pub record Lawful (fs : Fs) : Type 1 where
  pub Apart : fs.World → FilePath → FilePath → Type 0
  pub absent_apart :
      (w : fs.World) (q p : FilePath) (c : Text)
      → fs.exists w q ≡ false
      → fs.read_to_string w p ≡ some c
      → Apart w q p
  pub mkdir_keeps :
      (w : fs.World) (d p : FilePath)
      → fs.read_to_string (fs.create_dir_all d w).1 p ≡ fs.read_to_string w p
  pub mkdir_apart :
      (w : fs.World) (d q p : FilePath) (c : Text)
      → fs.read_to_string w p ≡ some c
      → Apart w q p
      → Apart (fs.create_dir_all d w).1 q p
  pub write_keeps :
      (w : fs.World) (q p : FilePath) (c : Text)
      → Apart w q p
      → fs.read_to_string (fs.write q c w).1 p ≡ fs.read_to_string w p
  pub write_apart :
      (w : fs.World) (x q p : FilePath) (c d : Text)
      → fs.read_to_string w p ≡ some d
      → Apart w x p
      → Apart w q p
      → Apart (fs.write x c w).1 q p

-- `Guarded` are the paths besides that are to stay apart from `p`.
module _ (fs : Fs) (law : Lawful fs) (debug : Text → Text) (show : ℤ → Text) (p : FilePath)
    (content : Text) (Guarded : FilePath → Type 0) where
  -- The file `p` is there with this content, and apart from the guarded paths.
  pub record Has (w : fs.World) : Type 0 where
    pub read : fs.read_to_string w p ≡ some content
    pub apart : (q : FilePath) → Guarded q → law.Apart w q p

  mkdir-Has : (d : FilePath) (w : fs.World) → Has w → Has (fs.create_dir_all d w).1
  mkdir-Has d w h = record {
    read = law.mkdir_keeps w d p ∙ h.read;
    apart = λ q g. law.mkdir_apart w d q p content h.read (h.apart q g);
  }

  write-Has :
      (x : FilePath) (c : Text) (w : fs.World) → law.Apart w x p → Has w → Has (fs.write x c w).1
  write-Has x c w a h = record {
    read = law.write_keeps w x p c a ∙ h.read;
    apart = λ q g. law.write_apart w x q p c content h.read a (h.apart q g);
  }

  pub make_dir-Keeps : (d : FilePath) → Keeps Has (make_dir fs debug show d)
  unfolding make_dir
  make_dir-Keeps d = Keeps-map_err _ (fs.create_dir_all d) (record { at = λ v k. mkdir-Has d v k })

  pub write_file-Keeps :
      (q : FilePath) (c : Text) → Guarded q → Keeps Has (write_file fs debug show q c)
  unfolding write_file
  write_file-Keeps q c g =
      Keeps-map_err _ (fs.write q c) (record { at = λ v k. write-Has q c v (k.apart q g) k })

  pub create_absent-Keeps :
      (e : SeedEntry) (full : FilePath)
      → Guarded full
      → Keeps Has (create_absent fs debug show e full)
  unfolding create_absent
  create_absent-Keeps e full g = search (io_rules, make_dir-Keeps, write_file-Keeps)

module _ (fs : Fs) (law : Lawful fs) (debug : Text → Text) (show : ℤ → Text) (p : FilePath)
    (content : Text) (Guarded : FilePath → Type 0) where
  -- While an entry is made, its path is guarded too: nothing is there, so it is apart.
  abbrev OrSame : FilePath → FilePath → Type 0
  OrSame full q = Guarded q ⊎ (full ≡ q)

  abbrev pub Holds : fs.World → Type 0
  Holds = Has fs law debug show p content Guarded

  guarded_more :
      (w : fs.World) (full : FilePath)
      → fs.exists w full ≡ false
      → Holds w
      → Has fs law debug show p content (OrSame full) w
  guarded_more w full n h = record {
    read = h.read;
    apart = λ q g. elim g [
      | inl old ↦ h.apart q old
      | inr same ↦ subst (λ x. law.Apart w x p) same (law.absent_apart w full p content n h.read)
    ];
  }

  guarded_less :
      (w : fs.World) (full : FilePath) → Has fs law debug show p content (OrSame full) w → Holds w
  guarded_less w full h = record { read = h.read; apart = λ q g. h.apart q (inl g) }

  unless_exists-Keeps :
      (e : SeedEntry) (full : FilePath) → Keeps Holds (unless_exists fs debug show e full)
  unfolding unless_exists
  unless_exists-Keeps e full = Keeps-looking _ (λ w h. elim (Bool-cases (fs.exists w full)) [
    | inl y ↦ rw y (unfold pure in h)
    | inr n ↦ rw n (
        guarded_less _ full (
          (create_absent-Keeps fs law debug show p content (OrSame full) e full (inr refl)).at w
            (guarded_more w full n h)))
  ])

  provision_entry-Keeps :
      (base : FilePath) (uid app : Text) (e : SeedEntry)
      → Keeps Holds (provision_entry fs debug show base uid app e)
  unfolding provision_entry
  provision_entry-Keeps base uid app e = search (io_rules, unless_exists-Keeps)

  provision_loop-Keeps :
      (base : FilePath) (uid app : Text) (es : List SeedEntry) (n : ℕ)
      → Keeps Holds (provision_loop fs debug show base uid app es n)
  unfolding provision_loop
  provision_loop-Keeps base uid app [] n = Keeps-pure n
  provision_loop-Keeps base uid app (e ∷ es) n =
      Keeps-bind _ _ (provision_entry-Keeps base uid app e)
        (λ k. provision_loop-Keeps base uid app es (n + k))

  pub resolve_user_cwd-Keeps :
      (base : FilePath) (uid : Text) (subpath : Option Text)
      → Keeps Holds (resolve_user_cwd fs debug show base uid subpath)
  unfolding resolve_user_cwd
  resolve_user_cwd-Keeps base uid subpath = Keeps-bind _ _ (Keeps-lift _) (λ candidate.
      Keeps-bind _ _
        (Keeps-map_err _ _
          (record { at = λ v k. mkdir-Has fs law debug show p content Guarded candidate v k }))
        (λ _. Keeps-inspect _))

  pub all_entries-Keeps :
      (base : FilePath) (uid app : Text) (entries : List SeedEntry) (w : fs.World)
      → Holds w
      → Holds (provision_entries fs debug show base uid app entries w).1
  unfolding provision_entries
  all_entries-Keeps base uid app entries w h =
      (Keeps-if (is_empty (trim uid)) _ _ (Keeps-raise _) (
          Keeps-bind _ _ (resolve_user_cwd-Keeps base uid (some app))
            (λ _. provision_loop-Keeps base uid app entries 0))).at
        w h

  pub read_stamp-Keeps :
      (base : FilePath) (uid app : Text) → Keeps Holds (read_stamp fs debug show base uid app)
  unfolding read_stamp
  read_stamp-Keeps base uid app =
      Keeps-bind _ _ (Keeps-lift _) (λ full. Keeps-looking _ (λ w h. unfold pure in h))

  -- A stamp is written nowhere else.
  pub write_stamp-Keeps :
      (base : FilePath) (uid app : Text) (version : ℤ)
      → ((full : FilePath)
          → confine_path debug base uid (some (stamp_path app)) ≡ ok full
          → Guarded full)
      → Keeps Holds (write_stamp fs debug show base uid app version)
  unfolding write_stamp
  write_stamp-Keeps base uid app version guarded =
      Keeps-lift_bind (confine_path debug base uid (some (stamp_path app))) _ (λ full e.
        Keeps-bind _ _ (make_dir-Keeps fs law debug show p content Guarded (parent full)) (λ _.
          write_file-Keeps fs law debug show p content Guarded full (show version ++ b'\n' ∷ [])
            (guarded full e)))
