-- ===== src/Worker/Provisioning/Preserved.antt =====
-- The files of a world before and after the provisioning of a sandbox (worker/src/lib.rs).
use llm_chat.Prelude.{◌≡◌, Text, Option, some, ℤ, ok}
use llm_chat.Json.{Json}
use llm_chat.Worker.UserEnv.{FilePath, Fs, confine_path, stamp_path}
use llm_chat.Worker.UserEnv.Keeps as Keeps
use llm_chat.Worker.UserEnv.Keeps.{Lawful}
use llm_chat.Worker.Provisioning.{ProvisionArgs, State, provision_args}

module _ (fs : Fs) (law : Lawful fs) (debug : Text → Text) (show : ℤ → Text) (base : FilePath)
    (from_str : Text → Option Json) (p : FilePath) (content : Text)
    (Guarded : FilePath → Type 0) where
  abbrev Holds : fs.World → Type 0
  Holds = Keeps.Holds fs law debug show p content Guarded

  abbrev Sandbox : Type 0
  Sandbox = State fs debug show base from_str

  -- The stamp of the sandbox is guarded.
  abbrev IsElsewhere : ProvisionArgs → Type 0
  IsElsewhere args =
      (full : FilePath)
      → confine_path debug base args.user_id (some (stamp_path args.app)) ≡ ok full
      → Guarded full

module _ (fs : Fs) (law : Lawful fs) (debug : Text → Text) (show : ℤ → Text) (base : FilePath)
    (from_str : Text → Option Json) (p : FilePath) (content : Text) where
  -- The path of the version stamp of the command's sandbox.
  abbrev pub IsStamp : Json → FilePath → Type 0
  IsStamp req full =
      confine_path debug base (provision_args req).user_id
        (some (stamp_path (provision_args req).app))
      ≡ ok full
