-- ===== src/Worker/Opening/Placed.antt =====
-- Where a session that opens runs (worker/src/lib.rs).
use mathlib.Core.Path.{subst}
use llm_chat.Prelude.{
  ◌≡◌, ◌<◌, arith, refl, sym, ap, ◌∙◌, ◌⊎◌, inl, inr, Text, Bool, true, false, Option, none, some,
  [], ◌∷◌, ◌++◌, lit, ℤ, leb, trim, unwrap_or, is_empty, Result, ok, err, err_ne_ok, ok-injective,
  Bool-cases,
}
use llm_chat.Json.{Json, get_str}
use llm_chat.Worker.Io.{raise, outcome_eq}
use llm_chat.Worker.Session.{spawned}
use llm_chat.Worker.UserEnv.{ResolveError, FilePath, Fs, path_starts_with, open_cwd}
use llm_chat.Worker.UserEnv.Confined.{confine_path_iff}
use llm_chat.Worker.UserEnv.Resolved.{IsProven, resolve_user_cwd-IsProven}
use llm_chat.Worker.AppState.{AppState, max_sessions, add_session}
use llm_chat.Worker.AppState.Synced.{IsSynced, add_session-IsSynced}
use llm_chat.Worker.Opening.{
  Attempt, Spawn, Opened, clean_cwd, resolved_cwd, re_proved, started, with_claude, in_directory,
  replied, opened_in, do_spawn_session, canonical, confine_root, open_session,
}

some-injective : {A : Type 0} {x y : A} → some x ≡ some y → x ≡ y
some-injective {x} h = ap (λ o. unwrap_or o x) h

abbrev is_empty_path : FilePath → Bool
is_empty_path [] = true
is_empty_path (c ∷ p) = false

module _ (fs : Fs) (is_dir : fs.World → FilePath → Bool) (debug_path : FilePath → Text)
    (debug : Text → Text) (show : ℤ → Text) where
  -- The directory that a process is started in, for a directory that was asked for.
  pub record IsChecked (w : fs.World) (p : FilePath) (root : Option FilePath)
      (cwd : Option FilePath) : Type 0 where
    pub real : FilePath
    pub same : cwd ≡ some real
    pub real_place : fs.canonicalize w p ≡ ok real
    pub directory : is_dir w real ≡ true
    pub below : (r : FilePath) → root ≡ some r → path_starts_with real r ≡ true

  re_proved-IsChecked :
      (w : fs.World) (p real : FilePath) (root cwd : Option FilePath)
      → fs.canonicalize w p ≡ ok real
      → is_dir w real ≡ true
      → re_proved fs is_dir debug_path debug show real root ≡ ok cwd
      → IsChecked w p root cwd
  re_proved-IsChecked w p real none cwd e d h = record {
    real = real;
    same = sym (ok-injective h);
    real_place = e;
    directory = d;
    below = λ r q. cc;
  }
  re_proved-IsChecked w p real (some root) cwd e d h =
      elim (Bool-cases (path_starts_with real root)) [
        | inl y ↦ record {
          real = real;
          same = sym (ok-injective (rw y at h));
          real_place = e;
          directory = d;
          below = λ r q. subst (λ x. path_starts_with real x ≡ true) (some-injective q) y;
        }
        | inr n ↦ absurd (err_ne_ok (rw n at h))
      ]

  resolved_cwd-IsChecked :
      (w : fs.World) (p : FilePath) (root : Option FilePath) (r : Result FilePath Text)
      (cwd : Option FilePath)
      → fs.canonicalize w p ≡ r
      → resolved_cwd fs is_dir debug_path debug show w p root r ≡ ok cwd
      → IsChecked w p root cwd
  resolved_cwd-IsChecked w p root (err x) cwd e h = absurd (err_ne_ok h)
  resolved_cwd-IsChecked w p root (ok real) cwd e h = elim (Bool-cases (is_dir w real)) [
    | inl y ↦ re_proved-IsChecked w p real root cwd e y (rw y at h)
    | inr n ↦ absurd (err_ne_ok (rw n at h))
  ]

  clean_cwd-IsChecked :
      (w : fs.World) (p : FilePath) (root cwd : Option FilePath)
      → is_empty_path p ≡ false
      → clean_cwd fs is_dir debug_path debug show w (some p) root ≡ ok cwd
      → IsChecked w p root cwd
  unfolding clean_cwd
  clean_cwd-IsChecked w [] root cwd f h = cc
  clean_cwd-IsChecked w (c ∷ p) root cwd f h = resolved_cwd-IsChecked w (c ∷ p) root _ cwd refl h

  module _ (a : Attempt fs.World) (base : FilePath) (st : AppState) where
    -- Nothing happened, or a process was started of which `Q` holds, and its session was added.
    abbrev pub Outcome : (Spawn → Type 0) → Opened fs is_dir debug_path debug show a → Type 0
    Outcome Q o =
        ((o.process ≡ none) × (o.app ≡ st))
        ⊎ ((p : Spawn) × (o.process ≡ some p) × (o.app ≡ add_session a.id spawned st) × Q p)

    started-Outcome :
        (claude : Text) (rich : Option Text) (cwd : Option FilePath) (fails : Option Text)
        → Outcome
            (λ p. cwd ≡ p.cwd)
            (replied fs is_dir debug_path debug show a
              (started fs is_dir debug_path debug show a claude rich cwd fails st))
    started-Outcome claude rich cwd (some e) = inl (refl, refl)
    started-Outcome claude rich cwd none = inr (_, refl, refl, refl)

    with_claude-Outcome :
        (rich : Option Text) (cwd : Option FilePath) (claude : Option Text)
        → Outcome
            (λ p. cwd ≡ p.cwd)
            (replied fs is_dir debug_path debug show a
              (with_claude fs is_dir debug_path debug show a rich cwd claude st))
    with_claude-Outcome rich cwd none = inl (refl, refl)
    with_claude-Outcome rich cwd (some c) = started-Outcome c rich cwd a.spawn_fails

    in_directory-Outcome :
        (rich : Option Text) (r : Result (Option FilePath) Text)
        → Outcome
            (λ p. r ≡ ok p.cwd)
            (replied fs is_dir debug_path debug show a
              (in_directory fs is_dir debug_path debug show a rich r st))
    in_directory-Outcome rich (err e) = inl (refl, refl)
    in_directory-Outcome rich (ok cwd) = elim (with_claude-Outcome rich cwd a.claude_path) [
      | inl x ↦ inl x
      | inr (p, e, d, q) ↦ inr (p, e, d, ap ok q)
    ]

    do_spawn_session-Outcome :
        (rich : Option Text) (cwd root : Option FilePath) (w : fs.World)
        → Outcome
            (λ p.
              (leb max_sessions a.counted ≡ false)
              × (clean_cwd fs is_dir debug_path debug show w cwd root ≡ ok p.cwd))
            (replied fs is_dir debug_path debug show a
              (do_spawn_session fs is_dir debug_path debug show a cwd root rich w st))
    unfolding do_spawn_session
    do_spawn_session-Outcome rich cwd root w = elim (Bool-cases (leb max_sessions a.counted)) [
      | inl y ↦ rw y (inl (refl, refl))
      | inr n ↦
          rw n
            (elim (in_directory-Outcome rich
              (clean_cwd fs is_dir debug_path debug show w cwd root)) [
                | inl x ↦ inl x
                | inr (p, e, d, q) ↦ inr (p, e, d, (refl, q))
              ])
    ]

  -- A directory that `open_cwd` returned, in the world that it left.
  pub record IsOpenable (base : FilePath) (user_id subpath : Option Text) (v : fs.World)
      (c : FilePath) : Type 0 where
    pub uid : Text
    pub named : user_id ≡ some uid
    pub proven : IsProven fs debug show base (trim uid) subpath v c

  open_cwd-IsOpenable :
      (base : FilePath) (user_id subpath : Option Text) (w v : fs.World) (c : FilePath)
      → open_cwd fs debug show base user_id subpath w ≡ (ok c, v)
      → IsOpenable base user_id subpath v c
  unfolding open_cwd raise trim
  open_cwd-IsOpenable base none subpath w v c h = absurd (err_ne_ok (ap (λ x. x.0) h))
  open_cwd-IsOpenable base (some uid) subpath w v c h = elim (Bool-cases (is_empty (trim uid))) [
    | inl y ↦ absurd (err_ne_ok (ap (λ x. x.0) (rw y at h)))
    | inr n ↦ record {
      uid = uid;
      named = refl;
      proven = resolve_user_cwd-IsProven fs debug show base (trim uid) subpath w v c (rw n at h);
    }
  ]

  has_component :
      (base : FilePath) (uid : Text) (subpath : Option Text) (w : fs.World) (c : FilePath)
      → IsProven fs debug show base uid subpath w c
      → is_empty_path c ≡ false
  has_component base uid subpath w c h =
      ap is_empty_path ((confine_path_iff debug base uid subpath c).0 h.lexical).path
      ∙ at_end base _ _
    where
      at_end : (b : FilePath) (x : Text) (p : FilePath) → is_empty_path (b ++ x ∷ p) ≡ false
      at_end [] x p = refl
      at_end (y ∷ b) x p = refl

  module _ (a : Attempt fs.World) (base : FilePath) (req : Json) (st : AppState)
      (boxes : fs.World) where
    abbrev after_check : fs.World
    after_check =
        (open_cwd fs debug show base (get_str req (lit "userId")) (get_str req (lit "cwd")) boxes).1

    -- The process runs in the real place of a directory that was proven to be the user's; at the time
    -- of the start this place is a directory, and it lies below the real place of the directory with
    -- the user's name in the base, if that has one.
    pub record IsPlaced (p : Spawn) : Type 0 where
      pub candidate : FilePath
      pub openable :
          IsOpenable base
            (get_str req (lit "userId"))
            (get_str req (lit "cwd"))
            after_check
            candidate
      pub under :
          (uid : Text) (root : FilePath)
          → get_str req (lit "userId") ≡ some uid
          → fs.canonicalize (a.meantime after_check) (base ++ uid ∷ []) ≡ ok root
          → (real : FilePath) × (p.cwd ≡ some real) × (path_starts_with real root ≡ true)
      pub checked :
          IsChecked
            (a.meantime after_check)
            candidate
            (confine_root fs is_dir debug_path debug show a base
              (get_str req (lit "userId"))
              (a.meantime after_check))
            p.cwd
      pub room : a.counted < 50

    root_found :
        (uid : Text) (root : FilePath) (w : fs.World)
        → get_str req (lit "userId") ≡ some uid
        → fs.canonicalize w (base ++ uid ∷ []) ≡ ok root
        → confine_root fs is_dir debug_path debug show a base (get_str req (lit "userId")) w
          ≡ some root
    unfolding confine_root
    root_found uid root w named real_root =
        ap (λ o. confine_root fs is_dir debug_path debug show a base o w) named
        ∙ ap (λ r. canonical fs is_dir debug_path debug show a r) real_root

    opened_in-Outcome :
        (r : Result FilePath ResolveError)
        → (open_cwd fs debug show base
            (get_str req (lit "userId"))
            (get_str req (lit "cwd"))
            boxes).0
          ≡ r
        → Outcome a base st IsPlaced (
            opened_in fs is_dir debug_path debug show a base
              (get_str req (lit "userId"))
              (get_str req (lit "rich"))
              (a.meantime after_check)
              st
              r)
    opened_in-Outcome (err e) h = inl (refl, refl)
    opened_in-Outcome (ok c) h =
        let able = open_cwd-IsOpenable base _ _ boxes after_check c (outcome_eq _ h refl) in
        elim (do_spawn_session-Outcome a base st (get_str req (lit "rich")) (some c)
          (confine_root fs is_dir debug_path debug show a base (get_str req (lit "userId"))
            (a.meantime after_check))
          (a.meantime after_check)) [
            | inl x ↦ inl x
            | inr (p, e, d, (room, clean)) ↦ inr (
              p,
              e,
              d,
              record {
                candidate = c;
                openable = able;
                under = λ uid root named real_root.
                    let check =
                      clean_cwd-IsChecked _ c _ p.cwd (has_component base _ _ _ c able.proven)
                        clean in
                    (
                      check.real,
                      check.same,
                      check.below root (root_found uid root _ named real_root),
                    );
                checked =
                    clean_cwd-IsChecked _ c _ p.cwd (has_component base _ _ _ c able.proven) clean;
                room = ground arith;
              },
            )
          ]

    -- An `open` either starts nothing and leaves the sessions as they are, or starts one process, when
    -- fewer than fifty sessions were counted, and adds its session. The request then names a user, and
    -- the process runs in the real place of a directory that was proven to be the user's; whatever
    -- others did to the file system since, this place is now a directory, and it lies below the real
    -- place of the base's directory with the user id of the request, if that has one.
    pub open_session-Outcome :
        Outcome a base st IsPlaced
          (open_session fs is_dir debug_path debug show a base req st boxes).0
    unfolding open_session
    open_session-Outcome = opened_in-Outcome _ refl

    pub open_session-IsSynced :
        IsSynced st
        → IsSynced (open_session fs is_dir debug_path debug show a base req st boxes).0.app
    open_session-IsSynced h = elim open_session-Outcome [
      | inl (e, same) ↦ subst IsSynced (sym same) h
      | inr (p, e, added, q) ↦ subst IsSynced (sym added) (add_session-IsSynced a.id spawned st h)
    ]
