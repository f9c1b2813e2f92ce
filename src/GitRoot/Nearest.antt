-- ===== src/GitRoot/Nearest.antt =====
-- What the search for a .git entry finds, and how long it takes (appctx/git.go).
use cli_toolkit.Base.{
  ℕ, zero, suc, ◌≤◌, ◌<◌, true, false, List, [], ◌∷◌, ◌++◌, Option, none, some, Bytes, ◌≡◌, refl,
  sym, ap, ◌∙◌, arith, All, Bool-cases, inl, inr, bytes_eq, bytes_eq_refl, is_empty, if◌then◌else◌,
  reverse, reverse-cons, length, length-reverse, trim_space,
}
use mathlib.Core.List.{reverse-reverse}
use cli_toolkit.FilePath.{through_slash, is_abs, elems, render, clean, dir}
use cli_toolkit.FilePath.Clean.{is_abs-clean, clean-clean, IsPlain, elems-All-IsPlain, All-reverse}
use cli_toolkit.FilePath.Dir.{dir-snoc, dir-root}
use cli_toolkit.OsFs.Walk.{parent-ne, length-le-render}
use cli_toolkit.OsFs.Base.{Kind}
use cli_toolkit.GitRoot.{
  not_a_dir, GitRun, printed, failed, Logged, has_git, search_up, start_dir, found, fall_back,
  on_git, find_git_root,
}

module _ (stat : Bytes → Option Kind) where
  -- The directory nearest above the names, given from the last one on, that has a .git entry; the empty text
  -- where there is none.
  unfoldable pub nearest : List Bytes → Bytes
  nearest [] = if has_git stat (render true []) then render true [] else []
  nearest (x ∷ rev) =
      let rest = nearest rev in
      if has_git stat (render true (reverse (x ∷ rev)))
      then render true (reverse (x ∷ rev))
      else rest

  -- The number of directories looked at until then.
  abbrev looked_at : List Bytes → ℕ
  looked_at [] = 1
  looked_at (x ∷ rev) =
      let rest = suc (looked_at rev) in
      if has_git stat (render true (reverse (x ∷ rev))) then 1 else rest

  search_up-nearest :
      (fuel : ℕ) (rev : List Bytes)
      → All IsPlain rev
      → length rev < fuel
      → search_up stat fuel (render true (reverse rev)) ≡ some (nearest rev, looked_at rev)
  unfolding search_up nearest
  search_up-nearest zero rev h l = absurd (omega arith)
  search_up-nearest (suc fuel) [] h l = elim (Bool-cases (has_git stat (render true []))) [
    | inl e ↦ rw e refl
    | inr e ↦ rw (e, dir-root, bytes_eq_refl (render true [])) refl
  ]
  search_up-nearest (suc fuel) (x ∷ rev) (hx, h) l =
      let cur = render true (reverse (x ∷ rev)) in
      let plain = All-reverse IsPlain rev h in
      let named : cur ≡ render true (reverse rev ++ x ∷ []) =
        ap (render true) (reverse-cons rev x) in
      let up : dir cur ≡ render true (reverse rev) =
        ap dir named ∙ dir-snoc (reverse rev) x plain hx in
      let below : bytes_eq (render true (reverse rev)) cur ≡ false =
        ap (bytes_eq (render true (reverse rev))) named ∙ parent-ne (reverse rev) x plain hx in
      elim (Bool-cases (has_git stat cur)) [
        | inl e ↦ rw e refl
        | inr e ↦ rw (e, up, below, search_up-nearest fuel rev h (omega arith)) refl
      ]

  looked_at-le : (rev : List Bytes) → looked_at rev ≤ suc (length rev)
  looked_at-le [] = omega arith
  looked_at-le (x ∷ rev) = ground (arith, looked_at-le rev)

  -- The search from an absolute clean path ends, at the nearest directory above it, or the path itself, that has a
  -- .git entry, and asks Stat at most once for each name of the path and once for the root.
  pub search_up_total :
      (start : Bytes)
      → is_abs start ≡ true
      → clean start ≡ start
      → (calls : ℕ) × (search_up stat (suc (length start)) start
          ≡ some (nearest (reverse (elems start)), calls))
        × (calls ≤ suc (length (elems start)))
  unfolding clean
  search_up_total start a c =
      let rev = reverse (elems start) in
      let names : reverse rev ≡ elems start = reverse-reverse (elems start) in
      let path : render true (reverse rev) ≡ start =
        ap (render true) names ∙ ap (λ r. render r (elems start)) (sym a) ∙ c in
      let short : length rev < suc (length start) = omega (
        arith,
        length-reverse (elems start),
        length-le-render (elems start),
        ap (λ p. length p) (sym (ap (render true) names) ∙ path),
      ) in
      (
        looked_at rev,
        ap (search_up stat (suc (length start))) (sym path)
            ∙ search_up-nearest (suc (length start)) rev
                (All-reverse IsPlain (elems start) (elems-All-IsPlain start a)) short,
        omega (arith, looked_at-le rev, length-reverse (elems start)),
      )

-- What git printed, where that is more than white space.
abbrev pub answer_of : GitRun → Option Bytes
answer_of (failed e) = none
answer_of (printed out) = if is_empty (trim_space out) then none else some (trim_space out)

abbrev pub or_nearest : Option Bytes → Bytes → Bytes
or_nearest none root = root
or_nearest (some p) root = p

is_abs-dir : (p : Bytes) → is_abs p ≡ true → is_abs (dir p) ≡ true
unfolding dir through_slash is_abs
is_abs-dir [] h = absurd cc
is_abs-dir (c ∷ s) h = is_abs-clean _ ∙ ground arith

module _ (stat : Bytes → Option Kind) where
  found-some :
      (start root : Bytes) (calls : ℕ) (logs : Logged)
      → (logged : Logged) × (found stat start logs (some (root, calls)) ≡ some (root, logged))
  found-some start [] calls logs = (_, refl)
  found-some start (c ∷ root) calls logs = (_, refl)

  fall_back-some :
      (start : Bytes) (logs : Logged)
      → is_abs start ≡ true
      → clean start ≡ start
      → (logged : Logged) × (fall_back stat start logs
          ≡ some (nearest stat (reverse (elems start)), logged))
  unfolding fall_back
  fall_back-some start logs a c =
      let (calls, e, _) = search_up_total stat start a c in
      let (logged, f) = found-some start (nearest stat (reverse (elems start))) calls logs in
      (logged, ap (found stat start logs) e ∙ f)

  start_dir-clean :
      (start : Bytes)
      → is_abs start ≡ true
      → clean start ≡ start
      → (is_abs (start_dir stat start) ≡ true)
        × (clean (start_dir stat start) ≡ start_dir stat start)
  unfolding start_dir
  start_dir-clean start a c = elim (Bool-cases (not_a_dir stat (stat start))) [
    | inl e ↦ rw e (is_abs-dir start a, unfold dir in clean-clean _)
    | inr e ↦ rw e (a, c)
  ]

  on_git-some :
      (start : Bytes) (run : GitRun)
      → is_abs start ≡ true
      → clean start ≡ start
      → (logged : Logged) × (on_git stat start run
          ≡ some (or_nearest (answer_of run) (nearest stat (reverse (elems start))), logged))
  on_git-some start (failed e) a c = fall_back-some start _ a c
  on_git-some start (printed out) a c = elim (Bool-cases (is_empty (trim_space out))) [
    | inl e ↦ rw e (fall_back-some start _ a c)
    | inr e ↦ rw e (_, refl)
  ]

  -- From an absolute clean path FindGitRoot always has an answer: what git prints in the directory to start from,
  -- without the white space around it, where git succeeds and prints more than that; else the directory nearest to
  -- that one, itself or above it, with a .git entry, or the empty text where there is none.
  pub find_git_root_lem :
      (git : Bytes → GitRun) (start : Bytes)
      → is_abs start ≡ true
      → clean start ≡ start
      → (logged : Logged) × (find_git_root stat git start
          ≡ some (
            or_nearest
                (answer_of (git (start_dir stat start)))
                (nearest stat (reverse (elems (start_dir stat start)))),
            logged,
          ))
  unfolding find_git_root
  find_git_root_lem git start a c =
      let (a', c') = start_dir-clean start a c in
      on_git-some (start_dir stat start) (git (start_dir stat start)) a' c'
