-- ===== src/Worker/Box/Complete.antt =====
-- What a walk (worker/src/user_env.rs) that is not cut off puts out.
use mathlib.Core.List.{Memᴰ}
use mathlib.Core.List.Memᴰ
use mathlib.Core.Path.{subst}
use llm_chat.Prelude.{
  sort, unwrap_or, ℕ, zero, suc, ◌≡◌, refl, sym, ◌∙◌, ap, inl, inr, Text, true, false, Option, none,
  some, List, [], ◌∷◌, ◌++◌, length, leb, text_leb, Bool-cases, Option-cases,
}
use llm_chat.Worker.UserEnv.{FilePath}
use llm_chat.Worker.Box.{
  DirEntry, Metadata, View, Walked, is_real_dir, entry_of, visited, walk_paths, walk_names,
  walk_box, capped, has_some,
}
use llm_chat.Worker.Box.Sorted.{mem-sort}
use llm_chat.Worker.Box.Walk.{IsEntry}

-- A later state: nothing that was put out is lost, and a cut stays known.
pub record IsLater (st after : Walked) : Type 0 where
  pub stays : (e : DirEntry) → Memᴰ e st.out → Memᴰ e after.out
  pub cut : after.truncated ≡ false → st.truncated ≡ false

same : (st : Walked) → IsLater st st
same st = record { stays = λ e m. m; cut = λ h. h }

also_later : (st mid after : Walked) → IsLater st mid → IsLater mid after → IsLater st after
also_later st mid after h k = record {
  stays = λ e m. k.stays e (h.stays e m);
  cut = λ x. h.cut (k.cut x);
}

cut_off : (st : Walked) → IsLater st (record st { truncated = true })
cut_off st = record { stays = λ e m. m; cut = λ h. cc }

pushed : (st : Walked) (x : DirEntry) → IsLater st (record st { out = st.out ++ x ∷ [] })
pushed st x = record { stays = λ e m. Memᴰ.append_left (x ∷ []) m; cut = λ h. h }

some-injective : {A : Type 0} {a b : A} → some a ≡ some b → a ≡ b
some-injective {a} h = ap (λ o. unwrap_or o a) h

module _ (fs : View) (root : FilePath) (max_entries : ℕ) where
  -- The walk of a directory only adds, and if it is not cut off it has added all of its entries.
  pub record IsWalk (dir : FilePath) (st after : Walked) : Type 0 where
    pub later : IsLater st after
    pub found : after.truncated ≡ false → (e : DirEntry) → IsEntry fs root dir e → Memᴰ e after.out

  nonempty :
      (n : Text) (names : List Text)
      → Memᴰ n names
      → has_some fs root max_entries (some names) ≡ true
  nonempty n [] m = absurd (Memᴰ.not-nil m)
  nonempty n (x ∷ names) m = refl

  entry_has_some :
      (dir : FilePath) (e : DirEntry)
      → IsEntry fs root dir e
      → has_some fs root max_entries (fs.read_dir dir) ≡ true
  entry_has_some dir e (IsEntry.here names n md rd m meta) = rw rd (nonempty n names m)
  entry_has_some dir e (IsEntry.below names n md rd m meta real b) = rw rd (nonempty n names m)

  capped-IsWalk : (dir : FilePath) (st : Walked) → IsWalk dir st (capped fs root max_entries dir st)
  unfolding capped
  capped-IsWalk dir st = elim (Bool-cases (has_some fs root max_entries (fs.read_dir dir))) [
    | inl t ↦ rw t (record { later = cut_off st; found = λ h. cc })
    | inr f ↦ rw f (record { later = same st; found = λ h e x. cc (f, entry_has_some dir e x) })
  ]

  module _ (descend : FilePath → Walked → Walked)
      (walks : (dir : FilePath) (st : Walked) → IsWalk dir st (descend dir st))
      (dir : FilePath) where
    -- The entry of a name, and the entries below it, have been put out.
    record IsFound (n : Text) (md : Metadata) (after : Walked) : Type 0 where
      pub self : Memᴰ (entry_of root (dir ++ n ∷ []) md) after.out
      pub children :
          is_real_dir md ≡ true
          → (e : DirEntry) → IsEntry fs root (dir ++ n ∷ []) e
          → Memᴰ e after.out

    still :
        (n : Text) (md : Metadata) (st after : Walked)
        → IsFound n md st
        → IsLater st after
        → IsFound n md after
    still n md st after h k = record {
      self = k.stays _ h.self;
      children = λ r e x. k.stays e (h.children r e x);
    }

    visited-IsLater :
        (path : FilePath) (o : Option Metadata) (st : Walked)
        → IsLater st (visited fs root max_entries descend path o st)
    visited-IsLater path none st = same st
    visited-IsLater path (some md) st = elim (Bool-cases (is_real_dir md)) [
      | inl t ↦ rw t (also_later st _ _ (pushed st _) (walks path _).later)
      | inr f ↦ rw f (pushed st _)
    ]

    visited-IsFound :
        (n : Text) (md : Metadata) (st : Walked)
        → (visited fs root max_entries descend (dir ++ n ∷ []) (some md) st).truncated ≡ false
        → IsFound n md (visited fs root max_entries descend (dir ++ n ∷ []) (some md) st)
    visited-IsFound n md st h = elim (Bool-cases (is_real_dir md)) [
      | inl t ↦ rw t (record {
        self = (walks (dir ++ n ∷ []) _).later.stays _ (Memᴰ.append_right st.out (Memᴰ.head refl));
        children = λ r e x. (walks (dir ++ n ∷ []) _).found (rw t at h) e x;
      })
      | inr f ↦ rw f (record {
        self = Memᴰ.append_right st.out (Memᴰ.head refl);
        children = λ r e x. cc (f, r);
      })
    ]

    abbrev paths_walked : List Text → Walked → Walked
    paths_walked ns st = walk_paths fs root max_entries descend dir ns st

    walk_paths-IsLater : (ns : List Text) (st : Walked) → IsLater st (paths_walked ns st)
    unfolding walk_paths
    walk_paths-IsLater [] st = same st
    walk_paths-IsLater (n ∷ ns) st = elim (Bool-cases (leb max_entries (length st.out))) [
      | inl t ↦ rw (walk_paths, t) (cut_off st)
      | inr f ↦
          rw (walk_paths, f)
            (also_later st _ _ (visited-IsLater _ (fs.symlink_metadata (dir ++ n ∷ [])) st)
              (walk_paths-IsLater ns _))
    ]

    abbrev after_visit : Text → Walked → Walked
    after_visit x st =
        visited fs root max_entries descend (dir ++ x ∷ []) (fs.symlink_metadata (dir ++ x ∷ [])) st

    found_later :
        (x : Text) (md : Metadata) (o : Option Metadata) (st after : Walked)
        → o ≡ some md
        → IsLater (visited fs root max_entries descend (dir ++ x ∷ []) o st) after
        → after.truncated ≡ false
        → IsFound x md after
    found_later x md none st after e l h = cc
    found_later x md (some d) st after e l h =
        subst (λ k. IsFound x k after) (some-injective e)
          (still x d _ after (visited-IsFound x d st (l.cut h)) l)

    first :
        (x n : Text) (md : Metadata) (st after : Walked)
        → n ≡ x
        → fs.symlink_metadata (dir ++ n ∷ []) ≡ some md
        → IsLater (after_visit x st) after
        → after.truncated ≡ false
        → IsFound n md after
    first x n md st after p e l h =
        subst (λ k. IsFound k md after) (sym p)
          (found_later x md (fs.symlink_metadata (dir ++ x ∷ [])) st after
            (subst (λ k. fs.symlink_metadata (dir ++ k ∷ []) ≡ some md) p e) l h)

    walk_paths-IsFound :
        (ns : List Text) (st : Walked)
        → (paths_walked ns st).truncated ≡ false
        → (n : Text) → Memᴰ n ns
        → (md : Metadata) → fs.symlink_metadata (dir ++ n ∷ []) ≡ some md
        → IsFound n md (paths_walked ns st)
    unfolding walk_paths
    walk_paths-IsFound [] st h n m md e = absurd (Memᴰ.not-nil m)
    walk_paths-IsFound (x ∷ ns) st h n m md e =
        elim (Bool-cases (leb max_entries (length st.out))) [
          | inl t ↦ let cut : true ≡ false = rw (walk_paths, t) at h in cc
          | inr f ↦
              let rest = walk_paths-IsLater ns (after_visit x st) in
              let open_end : (paths_walked ns (after_visit x st)).truncated ≡ false =
                rw (walk_paths, f) at h in
              rw (walk_paths, f)
                (elim (Memᴰ.cases_cons m) [
                  | inl p ↦ first x n md st (paths_walked ns (after_visit x st)) p e rest open_end
                  | inr k ↦ walk_paths-IsFound ns (after_visit x st) open_end n k md e
                ])
        ]

    unread : {A : Type 0} → fs.read_dir dir ≡ none → (x : DirEntry) → IsEntry fs root dir x → A
    unread e x i = let y : false ≡ true = rw e at (entry_has_some dir x i) in cc

    listed :
        (names others : List Text) (n : Text)
        → fs.read_dir dir ≡ some names
        → fs.read_dir dir ≡ some others
        → Memᴰ n others
        → Memᴰ n (sort text_leb names)
    listed names others n e rd m =
        mem-sort text_leb n names (subst (Memᴰ n) (some-injective (sym rd ∙ e)) m)

    found_names :
        (names : List Text)
        → fs.read_dir dir ≡ some names
        → (st : Walked) → (paths_walked (sort text_leb names) st).truncated ≡ false
        → (x : DirEntry) → IsEntry fs root dir x
        → Memᴰ x (paths_walked (sort text_leb names) st).out
    found_names names e st h x (IsEntry.here others n md rd m meta) =
        (walk_paths-IsFound _ st h n (listed names others n e rd m) md meta).self
    found_names names e st h x (IsEntry.below others n md rd m meta real b) =
        (walk_paths-IsFound _ st h n (listed names others n e rd m) md meta).children real x b

    walk_names-IsWalk :
        (st : Walked)
        → IsWalk dir st (walk_names fs root max_entries descend dir (fs.read_dir dir) st)
    walk_names-IsWalk st = elim (Option-cases (fs.read_dir dir)) [
      | inl e ↦ rw e (record { later = same st; found = λ h x i. unread e x i })
      | inr (names, e) ↦ rw e (record {
        later = walk_paths-IsLater (sort text_leb names) st;
        found = λ h x i. found_names names e st h x i;
      })
    ]

  pub walk_box-IsWalk :
      (levels : ℕ) (dir : FilePath) (st : Walked)
      → IsWalk dir st (walk_box fs root max_entries levels dir st)
  unfolding walk_box
  walk_box-IsWalk zero dir st = walk_names-IsWalk (capped fs root max_entries) capped-IsWalk dir st
  walk_box-IsWalk (suc levels) dir st =
      walk_names-IsWalk (walk_box fs root max_entries levels) (walk_box-IsWalk levels) dir st
