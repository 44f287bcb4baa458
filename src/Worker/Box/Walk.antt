-- ===== src/Worker/Box/Walk.antt =====
-- What `walk_box` (worker/src/user_env.rs) puts out.
use llm_chat.Prelude.{
  ℕ, zero, suc, ◌≤◌, ◌≡◌, refl, inl, inr, Text, true, false, Option, none, some, List, [], ◌∷◌,
  ◌++◌, All, All-append, length, length-append, leb, text_leb, Bool-cases, Option-cases, arith,
}
use mathlib.Core.List.{Memᴰ}
use llm_chat.Worker.UserEnv.{FilePath}
use llm_chat.Worker.Box.{
  DirEntry, Metadata, View, Walked, is_real_dir, entry_of, visited, walk_paths, walk_names,
  walk_box, capped, sort, has_some,
}
use llm_chat.Worker.Box.Sorted.{mem-of_sort}

module _ (fs : View) (root : FilePath) where
  -- An entry of the directory, or of one below it that is reached through directories alone: a
  -- symbolic link is an entry, but what it points at is none.
  pub data IsEntry : FilePath → DirEntry → Type 0 where
    here :
        {dir : FilePath} (names : List Text) (n : Text) (md : Metadata)
        → fs.read_dir dir ≡ some names
        → Memᴰ n names
        → fs.symlink_metadata (dir ++ n ∷ []) ≡ some md
        → IsEntry dir (entry_of root (dir ++ n ∷ []) md)
    below :
        {dir : FilePath} {e : DirEntry} (names : List Text) (n : Text) (md : Metadata)
        → fs.read_dir dir ≡ some names
        → Memᴰ n names
        → fs.symlink_metadata (dir ++ n ∷ []) ≡ some md
        → is_real_dir md ≡ true
        → IsEntry (dir ++ n ∷ []) e
        → IsEntry dir e

  module _ (max_entries : ℕ) where
    -- The entries of the walk have a property, and there are no more than the bound.
    abbrev Bounded : (DirEntry → Type 0) → Walked → Type 0
    Bounded P st = All P st.out × (length st.out ≤ max_entries)

    module _ (P : DirEntry → Type 0) where
      -- A walk of a directory whose entries have the property keeps it.
      abbrev Keeps : (FilePath → Walked → Walked) → Type 0
      Keeps walk =
          (dir : FilePath)
          → ((e : DirEntry) → IsEntry dir e → P e)
          → (st : Walked) → Bounded P st
          → Bounded P (walk dir st)

      capped-Keeps : Keeps (capped fs root max_entries)
      unfolding capped
      capped-Keeps dir all st h =
          elim (Bool-cases (has_some fs root max_entries (fs.read_dir dir))) [
            | inl t ↦ rw t h
            | inr f ↦ rw f h
          ]

      push-Bounded :
          (e : DirEntry) (st : Walked)
          → P e
          → leb max_entries (length st.out) ≡ false
          → Bounded P st
          → Bounded P (record st { out = st.out ++ e ∷ [] })
      push-Bounded e st p room (h, k) =
          (All-append P st.out (e ∷ []) h (p, tt), ground (arith, length-append st.out (e ∷ [])))

      module _ (descend : FilePath → Walked → Walked) (keeps : Keeps descend) (dir : FilePath)
          (names : List Text) (rd : fs.read_dir dir ≡ some names)
          (all : (e : DirEntry) → IsEntry dir e → P e) where
        visited-Bounded :
            (n : Text)
            → Memᴰ n names
            → (o : Option Metadata) → fs.symlink_metadata (dir ++ n ∷ []) ≡ o
            → (st : Walked) → leb max_entries (length st.out) ≡ false
            → Bounded P st
            → Bounded P (visited fs root max_entries descend (dir ++ n ∷ []) o st)
        visited-Bounded n m none e st room h = h
        visited-Bounded n m (some md) e st room h =
            let pushed =
              push-Bounded (entry_of root (dir ++ n ∷ []) md) st
                (all _ (IsEntry.here names n md rd m e)) room h in
            elim (Bool-cases (is_real_dir md)) [
              | inl t ↦ rw t (
                  keeps (dir ++ n ∷ []) (λ x y. all x (IsEntry.below names n md rd m e t y)) _
                    pushed)
              | inr f ↦ rw f pushed
            ]

        walk_paths-Bounded :
            (ns : List Text)
            → ((n : Text) → Memᴰ n ns → Memᴰ n names)
            → (st : Walked) → Bounded P st
            → Bounded P (walk_paths fs root max_entries descend dir ns st)
        unfolding walk_paths
        walk_paths-Bounded [] sub st h = h
        walk_paths-Bounded (n ∷ ns) sub st h = elim (Bool-cases (leb max_entries (length st.out))) [
          | inl t ↦ rw (walk_paths, t) h
          | inr f ↦
              rw (walk_paths, f)
                (walk_paths-Bounded ns (λ k m. sub k (Memᴰ.tail m)) _
                  (visited-Bounded n (sub n (Memᴰ.head refl)) _ refl st f h))
        ]

      walk_names-Keeps :
          (descend : FilePath → Walked → Walked)
          → Keeps descend
          → Keeps (λ dir. walk_names fs root max_entries descend dir (fs.read_dir dir))
      walk_names-Keeps descend keeps dir all st h = elim (Option-cases (fs.read_dir dir)) [
        | inl n ↦ rw n h
        | inr (names, e) ↦ rw e (
            walk_paths-Bounded descend keeps dir names e all (sort text_leb names)
              (λ n m. mem-of_sort text_leb n names m) st h)
      ]

      pub walk_box-Keeps : (levels : ℕ) → Keeps (walk_box fs root max_entries levels)
      unfolding walk_box
      walk_box-Keeps zero = walk_names-Keeps (capped fs root max_entries) capped-Keeps
      walk_box-Keeps (suc levels) =
          walk_names-Keeps (walk_box fs root max_entries levels) (walk_box-Keeps levels)
