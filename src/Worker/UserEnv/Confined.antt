-- ===== src/Worker/UserEnv/Confined.antt =====
-- The paths that `confine_path` (worker/src/user_env.rs) returns, by their components.
use llm_chat.Prelude.{
  ◌≡◌, ◌↔◌, refl, sym, ap, ◌∙◌, inl, inr, Text, Bool, true, not, Option, List, [], ◌∷◌, ◌++◌, All,
  split, trim, unwrap_or, ◌==◌, Bool-cases, Result, ok, err,
}
use mathlib.Core.List.{append_assoc, append-nil}
use llm_chat.Worker.UserEnv.Components.{IsSafe, IsUnflagged, IsUnflagged-iff}
use llm_chat.Worker.UserEnv.{
  ResolveError, FilePath, valid_user_id, is_special, has_bad_char, push_components, confine_raw,
  confine_path,
}

err_ne_ok :
    {e : ResolveError} {p : FilePath} → ◌≡◌ {A = Result FilePath ResolveError} (err e) (ok p) → ⊥
err_ne_ok h = cc

ok-injective : {p q : FilePath} → ◌≡◌ {A = Result FilePath ResolveError} (ok p) (ok q) → p ≡ q
ok-injective {p} h = ap (λ r. elim r [ ok x ↦ x | err e ↦ p ]) h

module _ (debug : Text → Text) where
  push_components-safe :
      (out : FilePath) (comps : List Text)
      → All IsUnflagged comps
      → push_components debug out comps ≡ ok (out ++ comps)
  unfolding push_components
  push_components-safe out [] h = ap ok (sym (append-nil out))
  push_components-safe out (c ∷ cs) ((a, b), h) =
      rw a (rw b (push_components-safe (out ++ c ∷ []) cs h ∙ ap ok (append_assoc out (c ∷ []) cs)))

  push_components-ok :
      (out p : FilePath) (comps : List Text)
      → push_components debug out comps ≡ ok p
      → All IsUnflagged comps
  unfolding push_components
  push_components-ok out p [] h = tt
  push_components-ok out p (c ∷ cs) h = elim (Bool-cases (is_special c)) [
    | inl y ↦ absurd (err_ne_ok (rw (y, push_components) at h))
    | inr n ↦ elim (Bool-cases (has_bad_char c)) [
      | inl y ↦ absurd (err_ne_ok (rw (n, y, push_components) at h))
      | inr m ↦ ((n, m), push_components-ok (out ++ c ∷ []) p cs (rw (n, m, push_components) at h))
    ]
  ]

  -- The components below the user's root that a raw subpath names.
  abbrev pub components : Text → List Text
  components [] = []
  components (c ∷ raw) = split b'/' (c ∷ raw)

  abbrev pub relative : Text → Bool
  relative [] = true
  relative (c ∷ raw) = not (c == b'/')

  confine_raw-ok :
      (root p : FilePath) (raw : Text)
      → confine_raw debug root raw ≡ ok p
      → (p ≡ root ++ components raw) × All IsUnflagged (components raw)
  confine_raw-ok root p [] h = (sym (ok-injective h) ∙ sym (append-nil root), tt)
  confine_raw-ok root p (c ∷ raw) h = elim (Bool-cases (c == b'/')) [
    | inl y ↦ absurd (err_ne_ok (rw y at h))
    | inr n ↦
        let h' : push_components debug root (split b'/' (c ∷ raw)) ≡ ok p = rw n at h in
        let safe = push_components-ok root p (split b'/' (c ∷ raw)) h' in
        (
          sym (ok-injective (sym (push_components-safe root (split b'/' (c ∷ raw)) safe) ∙ h')),
          safe,
        )
  ]

  confine_raw-safe :
      (root : FilePath) (raw : Text)
      → relative raw ≡ true
      → All IsUnflagged (components raw)
      → confine_raw debug root raw ≡ ok (root ++ components raw)
  confine_raw-safe root [] r h = ap ok (sym (append-nil root))
  confine_raw-safe root (c ∷ raw) r h = elim (Bool-cases (c == b'/')) [
    | inl y ↦ cc (ap not y, r)
    | inr n ↦ rw n (push_components-safe root (split b'/' (c ∷ raw)) h)
  ]

  confine_raw-relative :
      (root p : FilePath) (raw : Text) → confine_raw debug root raw ≡ ok p → relative raw ≡ true
  confine_raw-relative root p [] h = refl
  confine_raw-relative root p (c ∷ raw) h = elim (Bool-cases (c == b'/')) [
    | inl y ↦ absurd (err_ne_ok (rw y at h))
    | inr n ↦ ap not n
  ]

  module _ (base : FilePath) (uid : Text) (subpath : Option Text) where
    -- The subpath that is confined, without the whitespace around it.
    abbrev pub wanted : Text
    wanted = trim (unwrap_or subpath [])

    -- A path below the root of a valid user, by components that are each safe.
    pub record IsConfined (p : FilePath) : Type 0 where
      pub user : valid_user_id uid ≡ true
      pub not_absolute : relative wanted ≡ true
      pub safe : All IsSafe (components wanted)
      pub path : p ≡ base ++ uid ∷ components wanted

    confine_path-IsConfined :
        (p : FilePath) → confine_path debug base uid subpath ≡ ok p → IsConfined p
    unfolding confine_path
    confine_path-IsConfined p h = elim (Bool-cases (valid_user_id uid)) [
      | inl y ↦
          let h' : confine_raw debug (base ++ uid ∷ []) wanted ≡ ok p = rw (y, confine_path) at h in
          let (path, safe) = confine_raw-ok (base ++ uid ∷ []) p wanted h' in
          record {
            user = y;
            not_absolute = confine_raw-relative (base ++ uid ∷ []) p wanted h';
            safe = (IsUnflagged-iff _).0 safe;
            path = path ∙ append_assoc base (uid ∷ []) (components wanted);
          }
      | inr n ↦ absurd (err_ne_ok (rw (n, confine_path) at h))
    ]

    confined_of : (p : FilePath) → IsConfined p → confine_path debug base uid subpath ≡ ok p
    unfolding confine_path
    confined_of p c = rw c.user (
        confine_raw-safe (base ++ uid ∷ []) wanted c.not_absolute ((IsUnflagged-iff _).1 c.safe)
        ∙ ap ok (append_assoc base (uid ∷ []) (components wanted) ∙ sym c.path))

    -- `confine_path` returns a path exactly if the user id is valid, the trimmed subpath is not
    -- absolute and each of its components is neither empty, `.` nor `..` and holds no backslash,
    -- colon or NUL; the path is then the user's root followed by these components.
    pub confine_path_iff :
        (p : FilePath) → (confine_path debug base uid subpath ≡ ok p) ↔ IsConfined p
    confine_path_iff p = (confine_path-IsConfined p, confined_of p)
