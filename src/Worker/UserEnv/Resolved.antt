-- ===== src/Worker/UserEnv/Resolved.antt =====
-- What `resolve_user_cwd` and `open_cwd` have checked when they return a directory.
use llm_chat.Prelude.{
  ◌≡◌, refl, ap, ◌∙◌, inl, inr, Text, true, Option, [], ◌∷◌, ◌++◌, ℤ, Bool-cases, Result, ok, err,
  arith,
}
use mathlib.Core.Path.{subst}
use llm_chat.Worker.Io.{lift, looking, >>=-eq-ok}
use llm_chat.Worker.UserEnv.{
  ResolveError, FilePath, Fs, confine_path, under_root, resolve_user_cwd, path_starts_with,
}

module _ (fs : Fs) (debug : Text → Text) (show : ℤ → Text) (base : FilePath) where
  -- A directory that the lexical check allows, and whose real place lies under the real place of
  -- the user's root in the world that is left.
  pub record IsProven (uid : Text) (subpath : Option Text) (w : fs.World) (p : FilePath)
      : Type 0 where
    pub lexical : confine_path debug base uid subpath ≡ ok p
    pub real : FilePath
    pub root : FilePath
    pub real_place : fs.canonicalize w p ≡ ok real
    pub root_place : fs.canonicalize w (base ++ uid ∷ []) ≡ ok root
    pub under : path_starts_with real root ≡ true

  under_root-ok :
      (a b : Result FilePath Text) (c p : FilePath)
      → under_root fs debug show a b c ≡ ok p
      → (c ≡ p)
        × (r : FilePath) × (s : FilePath) × (a ≡ ok r)
        × (b ≡ ok s)
        × (path_starts_with r s ≡ true)
  unfolding under_root
  under_root-ok (err e) b c p h = ground arith
  under_root-ok (ok r) (err e) c p h = ground arith
  under_root-ok (ok r) (ok s) c p h = elim (Bool-cases (path_starts_with r s)) [
    | inl t ↦ (ground arith, r, s, refl, refl, t)
    | inr f ↦ ground arith
  ]

  -- The last stage leaves the world as it is.
  looking-lift :
      (q : fs.World → Result FilePath ResolveError) (w v : fs.World) (p : FilePath)
      → looking (λ u. lift (q u)) w ≡ (ok p, v)
      → (q v ≡ ok p)
  unfolding looking lift
  looking-lift q w v p h = subst (λ u. q u ≡ ok p) (ap (λ x. x.1) h) (ap (λ x. x.0) h)

  lift-ok :
      (r : Result FilePath ResolveError) (w : fs.World) (p : FilePath)
      → (lift r w).0 ≡ ok p
      → r ≡ ok p
  unfolding lift
  lift-ok r w p h = h

  placed_IsProven :
      (uid : Text) (subpath : Option Text) (v : fs.World) (c p : FilePath)
      → confine_path debug base uid subpath ≡ ok c
      → under_root fs debug show (fs.canonicalize v c) (fs.canonicalize v (base ++ uid ∷ [])) c
        ≡ ok p
      → IsProven uid subpath v p
  placed_IsProven uid subpath v c p lexical h =
      let (same, r, s, real_place, root_place, under) = under_root-ok _ _ c p h in
      record {
        lexical = lexical ∙ ap ok same;
        real = r;
        root = s;
        real_place = subst (λ x. fs.canonicalize v x ≡ ok r) same real_place;
        root_place = root_place;
        under = under;
      }

  -- When `resolve_user_cwd` returns a directory, the lexical check allows the directory for this
  -- user and subpath, and in the world that is left the canonical path of the directory lies at or
  -- below the canonical path of the user's root.
  pub resolve_user_cwd-IsProven :
      (uid : Text) (subpath : Option Text) (w v : fs.World) (p : FilePath)
      → resolve_user_cwd fs debug show base uid subpath w ≡ (ok p, v)
      → IsProven uid subpath v p
  unfolding resolve_user_cwd
  resolve_user_cwd-IsProven uid subpath w v p h =
      let (candidate, e1, h1) = >>=-eq-ok _ _ w h in
      let (made, e2, h2) = >>=-eq-ok _ _ _ h1 in
      let placed =
        looking-lift
          (λ u.
            under_root fs debug show (fs.canonicalize u candidate)
              (fs.canonicalize u (base ++ uid ∷ [])) candidate)
          _ v p h2 in
      placed_IsProven uid subpath v candidate p (lift-ok _ w candidate e1) placed
