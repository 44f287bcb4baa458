-- ===== src/Manager/Attachments/Saving.antt =====
-- The attachments of a question (manager/src/main.rs) and the paths that the worker answers with.
use mathlib.Core.Path.{subst}
use llm_chat.Prelude.{
  >>=-eq-ok, ok-injective, err_ne_ok, ℕ, ◌≡◌, ◌↔◌, ◌||◌, refl, ap, Text, Bool, true, false, Option,
  none, some, List, [], ◌∷◌, lit, is_empty, unwrap_or, Result, ok, err, Bool-cases, inl, inr, arith,
  if◌then◌else◌,
}
use llm_chat.Json.{Json, obj, str, field, end, get_str, get_bool}
use llm_chat.Manager.Attachments.{
  att_text, is_true, path_of, saved, save_request, attached, save_all,
}

module _ (call_backend : ℕ → Json → Result Json Text) (port : ℕ) (sid : Text) where
  -- The worker saved the attachment under the path: it has a type and data, and the worker's reply to
  -- the request with its name, type and data, in this session, says so.
  pub record IsSaved (att : Json) (path : Text) : Type 0 where
    pub mime : Text
    pub payload : Text
    pub reply : Json
    pub mime_there : (get_str att (lit "mime") ≡ some mime) × (is_empty mime ≡ false)
    pub payload_there : (get_str att (lit "data") ≡ some payload) × (is_empty payload ≡ false)
    pub replied :
        call_backend port (
          obj (
            field (lit "cmd") (str (lit "save_attachment")) (
              field (lit "sid") (str sid) (
                field
                  (lit "name")
                  (str (unwrap_or (get_str att (lit "name")) (lit "attachment")))
                  (field (lit "mime") (str mime) (field (lit "data") (str payload) end))))))
        ≡ ok reply
    pub agreed : get_bool reply (lit "ok") ≡ some true
    pub named : get_str reply (lit "path") ≡ some path

  text_there : (o : Option Text) → is_empty (unwrap_or o []) ≡ false → o ≡ some (unwrap_or o [])
  text_there none h = cc
  text_there (some t) h = refl

  path_agreed :
      (b : Option Bool) (q : Option Text) (e path : Text)
      → (if is_true b then path_of q else err e) ≡ ok path
      → (b ≡ some true) × (q ≡ some path)
  path_agreed none q e path h = cc
  path_agreed (some false) q e path h = cc
  path_agreed (some true) none e path h = cc
  path_agreed (some true) (some p) e path h = (refl, ap some (ok-injective h))

  saved_agreed :
      (r : Result Json Text) (path : Text)
      → saved r ≡ ok path
      → (reply : Json) × (r ≡ ok reply)
        × (get_bool reply (lit "ok") ≡ some true)
        × (get_str reply (lit "path") ≡ some path)
  saved_agreed (err e) path h = cc
  saved_agreed (ok reply) path h =
      let (agreed, named) = path_agreed _ _ _ path h in (reply, refl, agreed, named)

  attached-IsSaved :
      (att : Json) (path : Text) → attached call_backend port sid att ≡ ok path → IsSaved att path
  unfolding save_request
  attached-IsSaved att path h =
      elim (Bool-cases
        (is_empty (att_text att (lit "mime")) || is_empty (att_text att (lit "data")))) [
          | inl y ↦ absurd (err_ne_ok (rw y at h))
          | inr n ↦
              let (a, b) : (is_empty (att_text att (lit "mime")) ≡ false)
                  × (is_empty (att_text att (lit "data")) ≡ false) =
                ground arith in
              let (reply, e, agreed, named) = saved_agreed _ path (rw n at h) in
              record {
                mime = att_text att (lit "mime");
                payload = att_text att (lit "data");
                reply = reply;
                mime_there = (text_there _ a, a);
                payload_there = (text_there _ b, b);
                replied = e;
                agreed = agreed;
                named = named;
              }
        ]

  IsSaved-attached :
      (att : Json) (path : Text) → IsSaved att path → attached call_backend port sid att ≡ ok path
  unfolding save_request
  IsSaved-attached att path s =
      rw
        (
          s.mime_there.0, s.payload_there.0, s.mime_there.1, s.payload_there.1, s.replied, s.agreed,
          s.named,
        )
        refl

  -- Each attachment is saved under the path in its place, and there are as many.
  abbrev pub AllSaved : List Json → List Text → Type 0
  AllSaved [] [] = Unit
  AllSaved [] (p ∷ ps) = false ≡ true
  AllSaved (att ∷ atts) [] = false ≡ true
  AllSaved (att ∷ atts) (p ∷ ps) = IsSaved att p × AllSaved atts ps

  save_all-AllSaved :
      (atts : List Json) (paths : List Text)
      → save_all call_backend port sid atts ≡ ok paths
      → AllSaved atts paths
  unfolding save_all
  save_all-AllSaved [] paths h = subst (AllSaved []) (ok-injective h) tt
  save_all-AllSaved (att ∷ atts) paths h =
      let (path, e1, h1) = >>=-eq-ok _ _ h in
      let (rest, e2, h2) = >>=-eq-ok _ _ h1 in
      let all : AllSaved (att ∷ atts) (path ∷ rest) =
        (attached-IsSaved att path e1, save_all-AllSaved atts rest e2) in
      subst (AllSaved (att ∷ atts)) (ok-injective h2) all

  AllSaved-save_all :
      (atts : List Json) (paths : List Text)
      → AllSaved atts paths
      → save_all call_backend port sid atts ≡ ok paths
  unfolding save_all
  AllSaved-save_all [] [] h = refl
  AllSaved-save_all [] (p ∷ ps) h = cc
  AllSaved-save_all (att ∷ atts) [] h = cc
  AllSaved-save_all (att ∷ atts) (p ∷ ps) (s, rest) =
      rw (IsSaved-attached att p s, AllSaved-save_all atts ps rest) refl

  -- The attachments of a question are saved, with these paths, exactly when there are as many paths
  -- and each attachment has a type and data and the worker, asked to save it in the session, agrees and
  -- names the path in its place.
  pub save_all_iff :
      (atts : List Json) (paths : List Text)
      → (save_all call_backend port sid atts ≡ ok paths) ↔ AllSaved atts paths
  save_all_iff atts paths = (save_all-AllSaved atts paths, AllSaved-save_all atts paths)
