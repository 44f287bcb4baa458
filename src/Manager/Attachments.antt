-- ===== src/Manager/Attachments.antt =====
-- The attachments of a question (manager/src/main.rs, the reader task of `handle_chat`): each is
-- handed to the worker, which saves it and answers with its path.
pub mod Saving
use llm_chat.Prelude.{
  ℕ, Text, Bool, true, false, ◌||◌, Option, none, some, List, [], ◌∷◌, ◌++◌, lit, ℤ, pos, ◌+ℤ◌,
  is_empty, unwrap_or, Result, ok, err, ◌>>=◌, if◌then◌else◌,
}
use llm_chat.Json.{Json, str, obj, end, field, get_str, get_bool, get_array}
use llm_chat.Manager.Usage.{b64_decoded_len}

abbrev pub Save : Type 0
Save = Result (List Text) Text

-- An attachment's name, type and data.
abbrev pub att_name : Json → Text
att_name att = unwrap_or (get_str att (lit "name")) (lit "attachment")

abbrev att_text : Json → Text → Text
att_text att k = unwrap_or (get_str att k) []

unfoldable pub save_request : Text → Json → Json
save_request sid att = obj (
    field (lit "cmd") (str (lit "save_attachment")) (
      field (lit "sid") (str sid) (
        field (lit "name") (str (att_name att)) (
          field (lit "mime") (str (att_text att (lit "mime")))
            (field (lit "data") (str (att_text att (lit "data"))) end)))))

abbrev pub is_true : Option Bool → Bool
is_true none = false
is_true (some b) = b

abbrev path_of : Option Text → Result Text Text
path_of none = err (lit "backend save_attachment returned no path")
path_of (some p) = ok p

abbrev pub saved : Result Json Text → Result Text Text
saved (err e) = err (lit "backend call: " ++ e)
saved (ok reply) =
    if is_true (get_bool reply (lit "ok"))
    then path_of (get_str reply (lit "path"))
    else err (
        lit "backend save_attachment: "
        ++ unwrap_or (get_str reply (lit "error")) (lit "unknown error"))

abbrev pub sum_ℤ : List ℤ → ℤ
sum_ℤ [] = pos 0
sum_ℤ (n ∷ ns) = n +ℤ sum_ℤ ns

-- `filter_map` on the data of the attachments, and their lengths.
abbrev pub data_lens : List Json → List ℤ
data_lens [] = []
data_lens (att ∷ atts) = elim (get_str att (lit "data")) [
  | none ↦ data_lens atts
  | some d ↦ b64_decoded_len d ∷ data_lens atts
]

unfoldable pub file_bytes : Json → ℤ
file_bytes v = sum_ℤ (data_lens (unwrap_or (get_array v (lit "attachments")) []))

-- The worker's replies, its port, and the session.
module _ (call_backend : ℕ → Json → Result Json Text) (port : ℕ) (sid : Text) where
  abbrev pub attached : Json → Result Text Text
  attached att =
      if is_empty (att_text att (lit "mime")) || is_empty (att_text att (lit "data"))
      then err (lit "attachment '" ++ (att_name att ++ lit "' missing mime or data"))
      else saved (call_backend port (save_request sid att))

  -- The loop over the attachments stops at the first failure.
  unfoldable pub save_all : List Json → Save
  unfolding save_request
  save_all [] = ok []
  save_all (att ∷ atts) = do path ← attached att; paths ← save_all atts; ok (path ∷ paths)
