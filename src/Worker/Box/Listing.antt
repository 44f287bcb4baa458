-- ===== src/Worker/Box/Listing.antt =====
-- The listing of a user's box (worker/src/user_env.rs) as its callers see it.
use mathlib.Core.Path.{subst}
use mathlib.Core.List.{Memᴰ}
use mathlib.Core.List.Memᴰ
use llm_chat.Prelude.{
  ℕ, ◌-◌, ◌≤◌, ◌≡◌, sym, ap, ◌∙◌, inl, inr, Text, Bool, false, Option, none, List, [], ◌∷◌, All,
  length, ℤ, trim, unwrap_or, is_empty, Bool-cases, ok, ok-injective, err_ne_ok, arith,
}
use llm_chat.Worker.Io.{pure, raise, outcome_eq, looking, >>=-eq-ok}
use llm_chat.Worker.UserEnv.{ResolveError, FilePath, Fs}
use llm_chat.Worker.UserEnv.Resolved.{IsProven, resolve_user_cwd-IsProven}
use llm_chat.Worker.Box.{DirEntry, View, Walked, walk_box, path_leb, list_at, list_box_tree}
use llm_chat.Worker.Box.Sorted.{mem-sort, mem-of_sort, length-sort}
use llm_chat.Worker.Box.Walk.{IsEntry, walk_box-Keeps}
use llm_chat.Worker.Box.Complete.{walk_box-IsWalk}

-- A listing holds no more entries than the bound, none that is not reached from the root through
-- directories alone, and, unless it says that it is cut off, all of those.
pub record IsListing (fs : View) (root : FilePath) (max_entries : ℕ) (l : List DirEntry × Bool)
    : Type 0 where
  pub bounded : length l.0 ≤ max_entries
  pub sound : (e : DirEntry) → Memᴰ e l.0 → IsEntry fs root root e
  pub complete : l.1 ≡ false → (e : DirEntry) → IsEntry fs root root e → Memᴰ e l.0

all_mem : (P : DirEntry → Type 0) (e : DirEntry) (xs : List DirEntry) → All P xs → Memᴰ e xs → P e
all_mem P e [] h m = absurd (Memᴰ.not-nil m)
all_mem P e (x ∷ xs) (p, h) (Memᴰ.head q) = subst P (sym q) p
all_mem P e (x ∷ xs) (p, h) (Memᴰ.tail m) = all_mem P e xs h m

list_at-IsListing :
    (fs : View) (root : FilePath) (max_depth max_entries : ℕ)
    → IsListing fs root max_entries (list_at fs root max_depth max_entries)
unfolding list_at
list_at-IsListing fs root max_depth max_entries =
    let start : Walked = record { out = []; truncated = false } in
    let st = walk_box fs root max_entries (max_depth - 1) root start in
    let (all, few) =
      walk_box-Keeps fs root max_entries (IsEntry fs root root) (max_depth - 1) root (λ e i. i)
        start (tt, omega arith) in
    record {
      bounded = omega (arith, length-sort path_leb st.out);
      sound = λ e m. all_mem (IsEntry fs root root) e st.out all (mem-of_sort path_leb e st.out m);
      complete = λ h e i.
          mem-sort path_leb e st.out
            ((walk_box-IsWalk fs root max_entries (max_depth - 1) root start).found h e i);
    }

module _ (fs : Fs) (look : fs.World → View) (debug : Text → Text) (show : ℤ → Text)
    (base : FilePath) where
  -- The listing is of a root that was proven to be the user's, in the world that is left.
  pub record IsUserBox (uid : Text) (v : fs.World) (max_entries : ℕ) (l : List DirEntry × Bool)
      : Type 0 where
    pub root : FilePath
    pub proven : IsProven fs debug show base uid none v root
    pub listing : IsListing (look v) root max_entries l

  looked :
      (root : FilePath) (max_depth max_entries : ℕ) (u v : fs.World) (l : List DirEntry × Bool)
      → looking {E = ResolveError} (λ w. pure (list_at (look w) root max_depth max_entries)) u
        ≡ (ok l, v)
      → (list_at (look u) root max_depth max_entries ≡ l) × (u ≡ v)
  unfolding looking pure
  looked root max_depth max_entries u v l h = (ok-injective (ap (λ x. x.0) h), ap (λ x. x.1) h)

  refused :
      {A : Type 0} (e : ResolveError) (u v : fs.World) (l : List DirEntry × Bool)
      → raise e u ≡ (ok l, v)
      → A
  unfolding raise
  refused e u v l h = absurd (err_ne_ok (ap (λ x. x.0) h))

  -- When `list_box_tree` returns a listing, its root is the user's proven directory, and the listing
  -- has no more entries than the bound, only entries that are reached from the root without following
  -- a symbolic link, and all of those unless it says that it is cut off.
  pub list_box_tree-IsUserBox :
      (user_id : Option Text) (max_depth max_entries : ℕ) (w v : fs.World)
      (l : List DirEntry × Bool)
      → list_box_tree fs look debug show base user_id max_depth max_entries w ≡ (ok l, v)
      → IsUserBox (trim (unwrap_or user_id [])) v max_entries l
  unfolding list_box_tree
  list_box_tree-IsUserBox user_id max_depth max_entries w v l h =
      elim (Bool-cases (is_empty (trim (unwrap_or user_id [])))) [
        | inl t ↦ refused _ w v l (rw t at h)
        | inr f ↦
            let (root, e, k) = >>=-eq-ok _ _ w (rw f at h) in
            let (same, moved) = looked root max_depth max_entries _ v l k in
            record {
              root = root;
              proven =
                  resolve_user_cwd-IsProven fs debug show base _ none w v root
                    (outcome_eq _ e moved);
              listing =
                  subst (IsListing (look v) root max_entries)
                    (ap (λ x. list_at (look x) root max_depth max_entries) (sym moved) ∙ same)
                    (list_at-IsListing (look v) root max_depth max_entries);
            }
      ]
