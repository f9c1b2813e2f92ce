-- ===== src/Runtime/Glob.antt =====
-- Runtime.Glob (toolkit/runtime.go) over any environment and file system, and over OsFS.
mod Tests
use cli_toolkit.Base.{
  true, List, [], ◌∷◌, map, Option, none, some, ◌≡◌, refl, sym, ◌∙◌, subst, Bytes, All,
  if◌then◌else◌, Bool-cases, inl, inr,
}
use cli_toolkit.FilePath.{is_abs, clean, join, rel}
use cli_toolkit.FilePath.Clean.{is_abs-clean}
use cli_toolkit.FilePath.Join.{is_abs-join}
use cli_toolkit.Jail.Boundary.{is_abs-not_empty}
use cli_toolkit.OsFs.Base.{OsFs, Result, ok, err}
use cli_toolkit.OsFs.Confined.{IsReady, Post}
use cli_toolkit.OsFs.Glob
use cli_toolkit.OsFs.Prefix.{PrefixChecked}
use cli_toolkit.OsFs.Matches.{in_jail, glob_sound}
use cli_toolkit.OsFs.Virtual.{IsAbsolute}
use cli_toolkit.OsFs.{host_path}
use cli_toolkit.Runtime.{validate, normalize_state, getwd, expanded}
use cli_toolkit.Runtime.Base.{
  Environment, FileSystem, History, Outcome, done, fail, Runtime, M, ◌>>=◌, ◌>>◌, bind_outcome,
  pure, on_fs, put_fs, run_fs,
}
use cli_toolkit.Runtime.Contract.{IsEnvironment, IsFileSystem, Keeps}
use cli_toolkit.Runtime.Kept.{
  bind-Keeps, then-Keeps, on_fs-Keeps, validate-Keeps, getwd-Keeps, expanded-Keeps, pure-Keeps,
}
use cli_toolkit.Runtime.Host.{World, StaysAbsolute, host_file_system}
use cli_toolkit.Runtime.Paths.{Yields, Yields-bind, validate-Yields, if_set}

-- The pattern that the file system is asked for.
unfoldable pub resolved_pattern : Bytes → Bytes → Bytes
resolved_pattern wd parsed = clean (if is_abs parsed then parsed else join (wd ∷ parsed ∷ []))

abbrev or_match : Option Bytes → Bytes → Bytes
or_match none m = m
or_match (some r) m = r

-- The loop over the matches, each shown from the working directory where that can be done.
unfoldable pub from_wd : Bytes → List Bytes → List Bytes
from_wd wd [] = []
from_wd wd (m ∷ ms) = or_match (rel wd m) m ∷ from_wd wd ms

unfoldable pub results : Bytes → Bytes → List Bytes → List Bytes
unfolding from_wd
results wd parsed ms = if is_abs parsed then ms else from_wd wd ms

-- Runtime.Glob
module _ (E : Environment) (F : FileSystem) where
  unfoldable pub glob : Bytes → M (Runtime E F) (List Bytes)
  unfolding validate expanded getwd on_fs resolved_pattern results
  glob pattern = do
    validate E F
    parsed ← expanded E F pattern
    wd ← getwd E F
    matches ← on_fs (F.glob (resolved_pattern wd parsed))
    pure (results wd parsed matches)

-- The runtime and its parts stay in their jail.
module _ (E : Environment) (F : FileSystem) (lf : IsFileSystem F) (j : Bytes) (le : IsEnvironment E)
    (hj : is_abs j ≡ true) (hc : clean j ≡ j) where
  pub glob-Keeps : (pattern : Bytes) → Keeps E F lf j (glob E F pattern)
  unfolding glob
  glob-Keeps pattern = then-Keeps E F lf j _ _ (validate-Keeps E F lf j) (
      bind-Keeps E F lf j _ _ (expanded-Keeps E F lf j pattern) (λ parsed.
        bind-Keeps E F lf j _ _ (getwd-Keeps E F lf j le hj hc) (λ wd.
          bind-Keeps E F lf j _ _
            (on_fs-Keeps E F lf j (F.glob (resolved_pattern wd parsed))
              (lf.glob_ready (resolved_pattern wd parsed) j))
            (λ ms. pure-Keeps E F lf j (results wd parsed ms)))))

is_abs-resolved_pattern : (wd p : Bytes) → is_abs wd ≡ true → is_abs (resolved_pattern wd p) ≡ true
unfolding resolved_pattern
is_abs-resolved_pattern wd p h = elim (Bool-cases (is_abs p)) [
  | inl e ↦ rw e (is_abs-clean p ∙ e)
  | inr e ↦ rw e (is_abs-clean (join (wd ∷ p ∷ [])) ∙ is_abs-join wd p (is_abs-not_empty wd h) ∙ h)
]

module _ {E : Environment} {F : FileSystem} where
  -- What a method gives, where it succeeds, has the property.
  abbrev pub Gives {ℓ} : {A : Type ℓ} → (A → Type 0) → Runtime E F × Outcome A → Type 0
  Gives Q (rt, done a) = Q a
  Gives Q (rt, fail e) = Unit {0}

  Gives-bind {ℓ κ} :
      {A : Type ℓ} {B : Type κ} (rt : Runtime E F) (Q : A → Type 0) (R : B → Type 0)
      (k : A → M (Runtime E F) B) (o : Runtime E F × Outcome A)
      → Yields E F rt Q o
      → ((a : A) → Q a → Gives R (k a rt))
      → Gives R (bind_outcome o k)
  Gives-bind rt Q R k (rt', done a) (same, q) hk = subst (λ r. Gives R (k a r)) (sym same) (hk a q)
  Gives-bind rt Q R k (rt', fail e) same hk = tt

  own_result :
      {A : Type 0} (rt : Runtime E F) (r : Outcome A) → Yields E F rt (λ a. r ≡ done a) (rt, r)
  own_result rt (done a) = (refl, refl)
  own_result rt (fail e) = refl

-- A call of a jailed file system, and what is made of its result.
module _ {ℓ κ} {E : Environment} {A : Type ℓ} {B : Type κ} (host : World) (jail : Bytes)
    (Q : A → Type 0) (R : B → Type 0) (f : History → OsFs → OsFs × Result A)
    (k : A → M (Runtime E (host_file_system host)) B) (rt : Runtime E (host_file_system host)) where
  put_fs-Gives :
      (o : OsFs × Result A)
      → Post jail Q o
      → ((a : A) (rt' : Runtime E (host_file_system host)) → Q a → Gives R (k a rt'))
      → Gives R (bind_outcome (put_fs rt o) k)
  put_fs-Gives (s, ok a) (r, q) hk = hk a (record rt { fs = some s }) q
  put_fs-Gives (s, err e) r hk = tt

  reads :
      (s : OsFs)
      → rt.fs ≡ some s
      → Post jail Q (f rt.calls s)
      → ((a : A) (rt' : Runtime E (host_file_system host)) → Q a → Gives R (k a rt'))
      → Gives R ((on_fs f >>= k) rt)
  unfolding on_fs
  reads s hs post hk =
      subst (λ o. Gives R (bind_outcome (run_fs (f rt.calls) o rt) k)) (sym hs)
        (put_fs-Gives (f rt.calls s) post hk)

getwd-wd :
    (E : Environment) (F : FileSystem) (rt : Runtime E F)
    → is_abs rt.wd ≡ true
    → Yields E F rt (λ wd. wd ≡ rt.wd) (getwd E F rt)
unfolding getwd
getwd-wd E F rt h =
    Yields-bind E F rt (λ u. Unit {0}) (λ wd. wd ≡ rt.wd) _ (validate E F rt)
      (validate-Yields E F rt) (λ u _. rw (if_set E F rt (normalize_state E F) h) (refl, refl))

-- Where the paths found come from: the expanded pattern, the host's answer to it, and what is visible of that.
abbrev pub Found :
    (E : Environment) (host : World)
    → Bytes
    → Bytes
    → Runtime E (host_file_system host)
    → List Bytes
    → Type 0
Found E host jail pattern rt found =
    (parsed : Bytes) × ((expanded E (host_file_system host) pattern rt).1 ≡ done parsed)
    × PrefixChecked (host rt.calls) jail (clean (resolved_pattern rt.wd parsed))
    × (vs : List Bytes) × (ms : List Bytes) × ((host rt.calls).glob
          (host_path jail (clean (resolved_pattern rt.wd parsed)))
        ≡ some ms)
    × (map (host_path jail) vs ≡ map clean (in_jail jail ms))
    × (found ≡ results rt.wd parsed vs)

pub runtime_glob_sound :
    (E : Environment) (host : World) (jail pattern : Bytes) (s : OsFs)
    (rt : Runtime E (host_file_system host))
    → StaysAbsolute host
    → ((p : Bytes) (ms : List Bytes)
        → is_abs p ≡ true
        → (host rt.calls).glob p ≡ some ms
        → All (λ m. is_abs m ≡ true) ms)
    → is_abs jail ≡ true
    → rt.fs ≡ some s
    → IsReady jail s
    → is_abs rt.wd ≡ true
    → Gives (Found E host jail pattern rt) (glob E (host_file_system host) pattern rt)
unfolding glob expanded
runtime_glob_sound E host jail pattern s rt ha abs hj hs r hw =
    let F = host_file_system host in
    let R = Found E host jail pattern rt in
    Gives-bind rt (λ u. Unit {0}) R _ (validate E F rt) (validate-Yields E F rt)
      (λ u _.
        Gives-bind rt (λ p. (expanded E F pattern rt).1 ≡ done p) R _ (expanded E F pattern rt)
          (own_result rt (expanded E F pattern rt).1)
          (λ parsed hp.
            Gives-bind rt (λ wd. wd ≡ rt.wd) R _ (getwd E F rt) (getwd-wd E F rt hw)
              (λ wd same. rw same (
                reads host jail _ R
                  (λ calls. Glob.glob (host calls) (resolved_pattern rt.wd parsed))
                  (λ ms. pure (results rt.wd parsed ms)) rt s hs
                  (glob_sound (host rt.calls) jail (resolved_pattern rt.wd parsed) s (ha rt.calls)
                    abs hj (is_abs-resolved_pattern rt.wd parsed hw) r)
                  (λ vs rt' (checked, ms, asked, e).
                    (parsed, hp, checked, vs, ms, asked, e, refl))))))
