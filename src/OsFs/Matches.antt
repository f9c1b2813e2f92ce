-- ===== src/OsFs/Matches.antt =====
-- What Glob returns of a jailed file system (toolkit/filesystem/os_fs.go).
use cli_toolkit.Base.{
  true, false, not, List, [], ◌∷◌, ◌++◌, map, Option, none, some, ◌≡◌, refl, sym, ap, ◌∙◌, subst,
  Bytes, All, if◌then◌else◌, Bool-cases, inl, inr, is_blank, bytes_eq, bytes_eq_refl,
  bytes_eq_sound, arith, Bool,
}
use cli_toolkit.FilePath.{is_abs, elems, clean, join, strip_common}
use cli_toolkit.FilePath.Clean.{clean-eq, clean-clean, is_abs-clean}
use cli_toolkit.FilePath.Rel.{strip_common-append}
use cli_toolkit.Jail.{is_in_jail, remove_jail_prefix}
use cli_toolkit.Jail.Boundary.{
  starts_dotdot, is_abs-root, is_abs-not_empty, is_in_jail_sound, is_in_jail_complete,
}
use cli_toolkit.Jail.Prefix.{elems-remove_jail_prefix, clean-remove_jail_prefix}
use cli_toolkit.OsFs.{host_path, get_jail, ensure_initialized}
use cli_toolkit.OsFs.Base.{Host, OsFs, ok, ◌>>=◌, pure}
use cli_toolkit.OsFs.Virtual.{IsAbsolute, elems-host_path}
use cli_toolkit.OsFs.Confined.{
  is_abs-not_blank, IsReady, Post, Keeps, Keeps-bind, Post-result, get_jail-Keeps,
}
use cli_toolkit.OsFs.Methods.{getwd}
use cli_toolkit.OsFs.Prefix.{PrefixChecked, check_prefix-PrefixChecked}
use cli_toolkit.OsFs.Glob.{shown, visible, virtual_pattern, answered, check_prefix, glob}

-- The names of a path below the jail, from its names and the jail's.
below_names : List Bytes → List Bytes → Option (List Bytes)
below_names [] ys = some ys
below_names (x ∷ xs) [] = none
below_names (x ∷ xs) (y ∷ ys) = let rest = below_names xs ys in if bytes_eq x y then rest else none

below_names-append : (xs ys : List Bytes) → below_names xs (xs ++ ys) ≡ some ys
unfolding below_names
below_names-append [] ys = refl
below_names-append (x ∷ xs) ys = rw (bytes_eq_refl x) (below_names-append xs ys)

below_names_sound : (xs zs ys : List Bytes) → below_names xs zs ≡ some ys → zs ≡ xs ++ ys
unfolding below_names
below_names_sound [] zs ys e = cc
below_names_sound (x ∷ xs) [] ys e = cc
below_names_sound (x ∷ xs) (z ∷ zs) ys e = elim (Bool-cases (bytes_eq x z)) [
  | inl h ↦ cc (bytes_eq_sound x z h, below_names_sound xs zs ys (ground arith))
  | inr h ↦ absurd (ground arith)
]

abbrev ordinary : Option (List Bytes) → Bool
ordinary none = false
ordinary (some rest) = not (starts_dotdot rest)

-- The paths below the jail, less those whose first name below it begins with two dots.
unfoldable pub in_jail : Bytes → List Bytes → List Bytes
unfolding below_names
in_jail jail [] = []
in_jail jail (m ∷ ms) =
    let rest = in_jail jail ms in
    if ordinary (below_names (elems jail) (elems m)) then m ∷ rest else rest

is_in_jail-ordinary :
    (jail m : Bytes)
    → is_abs jail ≡ true
    → is_abs m ≡ true
    → is_in_jail jail m ≡ ordinary (below_names (elems jail) (elems m))
is_in_jail-ordinary jail m hj hm = on_names (below_names (elems jail) (elems m)) refl
  where
    on_names :
        (o : Option (List Bytes))
        → below_names (elems jail) (elems m) ≡ o
        → is_in_jail jail m ≡ ordinary o
    on_names none e = elim (Bool-cases (is_in_jail jail m)) [
      | inl inside ↦
          let (rest, at, _) = is_in_jail_sound jail m hj hm inside in
          absurd (cc (e, ap (below_names (elems jail)) at, below_names-append (elems jail) rest))
      | inr outside ↦ outside
    ]
    on_names (some rest) e =
        is_in_jail_complete jail m hj hm rest (below_names_sound (elems jail) (elems m) rest e)

module _ (jail : Bytes) (hj : is_abs jail ≡ true) where
  -- A match in the jail, shown without the jail and put below it again.
  host_path-remove_jail_prefix :
      (m : Bytes)
      → is_abs m ≡ true
      → is_in_jail jail m ≡ true
      → host_path jail (remove_jail_prefix jail m) ≡ clean m
  host_path-remove_jail_prefix m hm inside =
      let v = remove_jail_prefix jail m in
      let (rest, e, _) = is_in_jail_sound jail m hj hm inside in
      let (hv, ev) = elems-remove_jail_prefix jail m hj hm in
      let (ha, eh) = elems-host_path jail v hj hv (clean-remove_jail_prefix jail m hj hm) in
      let shared : elems v ≡ rest =
        ev
        ∙ ap (λ x. (strip_common (elems jail) x).1) e
        ∙ ap (λ s. s.1) (strip_common-append (elems jail) rest) in
      unfold host_path in
      rw (is_abs-not_empty jail hj) (
        sym (clean-clean (join (jail ∷ v ∷ [])))
        ∙ clean-eq (clean (join (jail ∷ v ∷ []))) m (ha ∙ sym hm)
            (eh ∙ ap (λ r. elems jail ++ r) shared ∙ sym e))

  visible-in_jail :
      (wd : Bytes) (ms : List Bytes)
      → All (λ m. is_abs m ≡ true) ms
      → map (host_path jail) (visible jail wd false ms) ≡ map clean (in_jail jail ms)
  unfolding visible in_jail shown
  visible-in_jail wd [] h = refl
  visible-in_jail wd (m ∷ ms) (hm, h) =
      rw⁻¹ (is_in_jail-ordinary jail m hj hm) (elim (Bool-cases (is_in_jail jail m)) [
        | inl e ↦ rw e (
            ap (λ p. p ∷ map (host_path jail) (visible jail wd false ms))
              (host_path-remove_jail_prefix m hm e)
            ∙ ap (λ ps. clean m ∷ ps) (visible-in_jail wd ms h))
        | inr e ↦ rw e (visible-in_jail wd ms h)
      ])

virtual_pattern_abs :
    (wd pattern : Bytes) → is_abs pattern ≡ true → virtual_pattern wd pattern ≡ clean pattern
virtual_pattern_abs wd pattern h = unfold virtual_pattern in rw h

is_abs-host_path :
    (jail : Bytes)
    → is_abs jail ≡ true
    → (v : Bytes) → is_abs v ≡ true
    → clean v ≡ v
    → is_abs (host_path jail v) ≡ true
unfolding host_path
is_abs-host_path jail hj v hv cv = rw (is_abs-not_empty jail hj) (elems-host_path jail v hj hv cv).0

module _ (host : Host) (ha : IsAbsolute host) (jail : Bytes) (hj : is_abs jail ≡ true) where
  -- The directory in front of the pattern was looked at, and what Glob returns names the host's own answers, those
  -- that it does not show left out.
  abbrev pub Answered : Bytes → Bytes → List Bytes → Type 0
  Answered asked pattern vs =
      PrefixChecked host jail pattern
      × (ms : List Bytes) × (host.glob asked ≡ some ms)
      × (map (host_path jail) vs ≡ map clean (in_jail jail ms))

  getwd-Keeps : Keeps jail (λ _. Unit {0}) (getwd host)
  unfolding getwd ensure_initialized
  getwd-Keeps fs (same, inl blank) =
      rw (blank, ap is_blank same ∙ is_abs-not_blank jail hj) ((same, inr is_abs-root), tt)
  getwd-Keeps fs (same, inr wd_abs) = rw (is_abs-not_blank fs.wd wd_abs) ((same, inr wd_abs), tt)

  answered-eq-ok : (o : Option (List Bytes)) (ms : List Bytes) → answered o ≡ ok ms → o ≡ some ms
  answered-eq-ok none ms e = cc
  answered-eq-ok (some given) ms e = cc

  -- Glob behind its first two calls, of an absolute pattern.
  ask-Keeps :
      ((p : Bytes) (ms : List Bytes)
        → is_abs p ≡ true
        → host.glob p ≡ some ms
        → All (λ m. is_abs m ≡ true) ms)
      → (asked pattern : Bytes) → is_abs asked ≡ true
      → is_abs pattern ≡ true
      → (wd virtual : Bytes) → PrefixChecked host jail virtual
      → Keeps jail (Answered asked virtual) (do
        ms ← λ fs. (fs, answered (host.glob asked))
        pure (if is_blank jail then ms else visible jail wd (not (is_abs pattern)) ms))
  ask-Keeps abs asked pattern ask hp wd virtual checked =
      Keeps-bind jail (λ ms. host.glob asked ≡ some ms) (Answered asked virtual) _ _
        (λ fs r.
          Post-result jail _ fs (answered (host.glob asked)) r (answered-eq-ok (host.glob asked)))
        λ ms e fs r.
          rw (hp, is_abs-not_blank jail hj)
            (r, (checked, ms, e, visible-in_jail jail hj wd ms (abs asked ms ask e)))

module _ (host : Host) (ha : IsAbsolute host) (jail : Bytes) (hj : is_abs jail ≡ true) where
  asks-Keeps :
      (asked : Bytes) (k : List Bytes → List Bytes)
      → Keeps jail
          (λ (vs : List Bytes). Unit {0})
          (do ms ← λ fs. (fs, answered (host.glob asked)); pure (k ms))
  asks-Keeps asked k =
      Keeps-bind jail (λ (ms : List Bytes). Unit {0}) (λ (vs : List Bytes). Unit {0})
        (λ fs. (fs, answered (host.glob asked))) (λ ms. pure (k ms))
        (λ fs r. Post-result jail (λ _. Unit {0}) fs (answered (host.glob asked)) r (λ ms e. tt))
        (λ ms _ fs r. (r, tt))

  -- Of any pattern.
  pub glob-Keeps : (pattern : Bytes) → Keeps jail (λ _. Unit {0}) (glob host pattern)
  unfolding glob
  glob-Keeps pattern =
      let Any = λ (vs : List Bytes). Unit {0} in
      Keeps-bind jail (λ _. Unit {0}) Any (getwd host) _ (getwd-Keeps host ha jail hj)
        (λ wd _.
          Keeps-bind jail (λ j. j ≡ jail) Any get_jail _ (get_jail-Keeps host ha jail hj)
            λ j e. rw e (
              Keeps-bind jail (λ _. PrefixChecked host jail (virtual_pattern wd pattern)) Any
                (check_prefix host jail (virtual_pattern wd pattern)) _
                (check_prefix-PrefixChecked host ha jail hj (virtual_pattern wd pattern))
                λ _ _. asks-Keeps (host_path jail (virtual_pattern wd pattern)) _))

-- In an absolute jail, with a working directory that is unset or absolute, on a host whose Getwd and EvalSymlinks
-- answer absolute paths and whose filepath.Glob answers an absolute pattern with absolute paths: where Glob of an
-- absolute pattern succeeds, the directory in front of the pattern's first meta-character is none or the root, or
-- its place below the jail is a path that EvalSymlinks fails on or leads into the canonical jail; the host has
-- been asked for the pattern's place below the jail; and what Glob returns, put below the jail, is what the host
-- answers, less the paths that are not below the jail and those whose first name below it begins with two dots, in
-- the host's order. The file system keeps its jail, and a working directory that is unset or absolute, also where
-- Glob fails.
pub glob_sound :
    (host : Host) (jail pattern : Bytes) (fs : OsFs)
    → IsAbsolute host
    → ((p : Bytes) (ms : List Bytes)
        → is_abs p ≡ true
        → host.glob p ≡ some ms
        → All (λ m. is_abs m ≡ true) ms)
    → is_abs jail ≡ true
    → is_abs pattern ≡ true
    → IsReady jail fs
    → Post jail
        (λ vs.
          PrefixChecked host jail (clean pattern)
          × (ms : List Bytes) × (host.glob (host_path jail (clean pattern)) ≡ some ms)
          × (map (host_path jail) vs ≡ map clean (in_jail jail ms)))
        (glob host pattern fs)
unfolding glob
glob_sound host jail pattern fs ha abs hj hp r =
    let Q = Answered host ha jail hj (host_path jail (clean pattern)) (clean pattern) in
    Keeps-bind jail (λ _. Unit {0}) Q (getwd host) _ (getwd-Keeps host ha jail hj)
      (λ wd _.
        Keeps-bind jail (λ j. j ≡ jail) Q get_jail _ (get_jail-Keeps host ha jail hj)
          λ j e. rw e (
            Keeps-bind jail (λ _. PrefixChecked host jail (virtual_pattern wd pattern)) Q
              (check_prefix host jail (virtual_pattern wd pattern)) _
              (check_prefix-PrefixChecked host ha jail hj (virtual_pattern wd pattern))
              λ _ checked.
                subst
                  (λ v. Keeps jail Q (do
                    ms ← λ fs. (fs, answered (host.glob (host_path jail v)))
                    pure (if is_blank jail then ms else visible jail wd (not (is_abs pattern)) ms)))
                  (sym (virtual_pattern_abs wd pattern hp))
                  (ask-Keeps host ha jail hj abs (host_path jail (clean pattern)) pattern
                    (is_abs-host_path jail hj (clean pattern) (is_abs-clean pattern ∙ hp)
                      (clean-clean pattern))
                    hp wd (clean pattern)
                    (subst (PrefixChecked host jail) (virtual_pattern_abs wd pattern hp) checked))))
      fs r
