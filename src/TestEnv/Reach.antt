-- ===== src/TestEnv/Reach.antt =====
-- Every environment that a test reaches is sound, and what Get reports after Set.
use cli_toolkit.Base.{
  true, false, [], ◌∷◌, Option, some, ◌≡◌, refl, sym, ap, ◌∙◌, subst, Bytes, codes, if◌then◌else◌,
  ◌⊎◌, inl, inr, Bool-cases, is_empty, bytes_eq, bytes_eq_sound,
}
use cli_toolkit.FilePath.{is_abs, clean, join, elems, render, push_all, push}
use cli_toolkit.FilePath.Split.{join_elems, split}
use cli_toolkit.Jail.Boundary.{is_abs-not_empty}
use cli_toolkit.FilePath.Clean.{is_abs-clean, clean-clean}
use cli_toolkit.Jail.{root}
use cli_toolkit.TestEnv.{
  lookup, insert, TestEnv, default_home, new_test_env, set_jail, get, set, unset, set_home,
  set_user, setwd,
}
use cli_toolkit.TestEnv.Vars.{lookup-insert, lookup-insert_other}
use cli_toolkit.TestEnv.Paths.{IsVirtual}
use cli_toolkit.TestEnv.Invariant.{
  IsSound, set_home-eq-some, setwd-eq-some, set-branches, set-IsSound, set_home-IsSound,
  set_user-IsSound, setwd-IsSound,
}
use cli_toolkit.TestEnv.Kept.{unset-IsSound, set_jail-IsSound}

home-IsVirtual : (name : Bytes) → IsVirtual (join (root ∷ codes "home" ∷ name ∷ []))
unfolding join join_elems is_abs
home-IsVirtual name = (
  is_abs-clean (join_elems (root ∷ codes "home" ∷ name ∷ [])),
  clean-clean (join_elems (root ∷ codes "home" ∷ name ∷ [])),
)

root-IsVirtual : IsVirtual root
unfolding clean elems render is_abs split push_all push join_elems bytes_eq
root-IsVirtual = (refl, refl)

default_home-IsVirtual : (name : Bytes) → IsVirtual (default_home [] name).1
unfolding default_home
default_home-IsVirtual name = elim (Bool-cases (bytes_eq name (codes "root"))) [
  | inl e ↦ rw e root-IsVirtual
  | inr e ↦ rw e (home-IsVirtual name)
]

default_home_given : (home name : Bytes) → is_abs home ≡ true → (default_home home name).1 ≡ home
default_home_given home name h = unfold default_home in rw (is_abs-not_empty home h)

pub new_test_env-IsSound :
    (jail home user : Bytes) → (home ≡ []) ⊎ IsVirtual home → IsSound (new_test_env jail home user)
unfolding new_test_env insert lookup bytes_eq
new_test_env-IsSound jail home user h =
    (refl, refl, inr (cwd (if is_empty user then codes "testuser" else user) h))
  where
    cwd : (name : Bytes) → (home ≡ []) ⊎ IsVirtual home → IsVirtual (default_home home name).1
    cwd name (inl e) =
        subst (λ h. IsVirtual (default_home h name).1) (sym e) (default_home-IsVirtual name)
    cwd name (inr v) = subst IsVirtual (sym (default_home_given home name v.0)) v

-- The methods that change the environment; one that fails leaves it as it was.
pub data Step (ev : Bytes → Option Bytes) : TestEnv → TestEnv → Type 0 where
  change_jail : {env : TestEnv} (new : Bytes) → Step ev env (set_jail new env)
  change_home :
      {env env' : TestEnv} (rel : Bytes) → set_home ev rel env ≡ some env' → Step ev env env'
  change_user : {env : TestEnv} (name : Bytes) → Step ev env (set_user ev name env)
  change_dir : {env env' : TestEnv} (dir : Bytes) → setwd ev dir env ≡ some env' → Step ev env env'
  assign :
      {env env' : TestEnv} (key value : Bytes) → set ev key value env ≡ some env' → Step ev env env'
  clear : {env : TestEnv} (key : Bytes) → Step ev env (unset key env)

pub data Reach (ev : Bytes → Option Bytes) (env : TestEnv) : TestEnv → Type 0 where
  here : Reach ev env env
  then_step : {t u : TestEnv} → Reach ev env t → Step ev t u → Reach ev env u

Step-IsSound :
    (ev : Bytes → Option Bytes) {env env' : TestEnv} → Step ev env env' → IsSound env → IsSound env'
Step-IsSound ev (change_jail {env = env} new) s = set_jail-IsSound new env s
Step-IsSound ev (change_home {env = env} {env' = env'} rel h) s =
    set_home-IsSound ev env env' rel s h
Step-IsSound ev (change_user {env = env} name) s = set_user-IsSound ev env name s
Step-IsSound ev (change_dir {env = env} {env' = env'} dir h) s = setwd-IsSound ev env env' dir s h
Step-IsSound ev (assign {env = env} {env' = env'} key value h) s =
    set-IsSound ev env env' key value s h
Step-IsSound ev (clear {env = env} key) s = unset-IsSound key env s

Reach-from :
    (ev : Bytes → Option Bytes) {env env' : TestEnv}
    → Reach ev env env'
    → IsSound env
    → IsSound env'
Reach-from ev here s = s
Reach-from ev (then_step r st) s = Step-IsSound ev st (Reach-from ev r s)

-- Every environment that a test reaches from NewTestEnv by any sequence of the methods, where the home
-- given is empty, or absolute and clean, is sound: the fields home and user are what the map holds for
-- HOME and USER, and PWD is unset, or absolute and clean.
pub Reach-IsSound :
    (ev : Bytes → Option Bytes) (jail home user : Bytes) (env : TestEnv)
    → (home ≡ []) ⊎ IsVirtual home
    → Reach ev (new_test_env jail home user) env
    → IsSound env
Reach-IsSound ev jail home user env h r = Reach-from ev r (new_test_env-IsSound jail home user h)

get-lookup : (env : TestEnv) (key : Bytes) → IsSound env → get env key ≡ lookup env.vars key
unfolding get
get-lookup env key (h, u, _) = elim (Bool-cases (bytes_eq key (codes "HOME"))) [
  | inl a ↦ rw a (sym h ∙ ap (lookup env.vars) (sym (bytes_eq_sound key (codes "HOME") a)))
  | inr a ↦ elim (Bool-cases (bytes_eq key (codes "USER"))) [
    | inl b ↦ rw (a, b) (sym u ∙ ap (lookup env.vars) (sym (bytes_eq_sound key (codes "USER") b)))
    | inr b ↦ rw (a, b)
  ]
]

set-vars :
    (ev : Bytes → Option Bytes) (env env' : TestEnv) (key v : Bytes)
    → set ev key v env ≡ some env'
    → (w : Bytes) × (env'.vars ≡ insert env.vars key w)
set-vars ev env env' key v h = elim (set-branches ev env env' key v h) [
  | inl (a, e) ↦
      let (w, same) = set_home-eq-some ev env env' v e in
      (
        w,
        ap (λ x. x.vars) same
            ∙ ap (λ k. insert env.vars k w) (sym (bytes_eq_sound key (codes "HOME") a)),
      )
  | inr (inl (a, e)) ↦ (
    v,
    ap (λ x. x.vars) e
        ∙ (unfold set_user in
            ap (λ k. insert env.vars k v) (sym (bytes_eq_sound key (codes "USER") a))),
  )
  | inr (inr (inl (a, e))) ↦
      let (w, _, same) = setwd-eq-some ev env env' v e in
      (
        w,
        ap (λ x. x.vars) same
            ∙ ap (λ k. insert env.vars k w) (sym (bytes_eq_sound key (codes "PWD") a)),
      )
  | inr (inr (inr (_, _, _, e))) ↦ (v, ap (λ x. x.vars) e)
]

-- In a sound environment a Set of any key that succeeds leaves what Get reports of every other key.
get-set_other :
    (ev : Bytes → Option Bytes) (env env' : TestEnv) (key v other : Bytes)
    → IsSound env
    → set ev key v env ≡ some env'
    → bytes_eq key other ≡ false
    → get env' other ≡ get env other
get-set_other ev env env' key v other s h ne =
    let (w, vars) = set-vars ev env env' key v h in
    get-lookup env' other (set-IsSound ev env env' key v s h)
    ∙ ap (λ m. lookup m other) vars
    ∙ lookup-insert_other env.vars key w other ne
    ∙ sym (get-lookup env other s)

-- In a sound environment a Set that succeeds of a key other than HOME and PWD makes Get report the
-- value; the key USER is one of these.
pub get-set :
    (ev : Bytes → Option Bytes) (env env' : TestEnv) (key v : Bytes)
    → IsSound env
    → bytes_eq key (codes "HOME") ≡ false
    → bytes_eq key (codes "PWD") ≡ false
    → set ev key v env ≡ some env'
    → get env' key ≡ v
get-set ev env env' key v s not_home not_pwd h =
    get-lookup env' key (set-IsSound ev env env' key v s h)
    ∙ (elim (set-branches ev env env' key v h) [
      | inl (a, e) ↦ absurd (cc (a, not_home))
      | inr (inl (a, e)) ↦
          ap (λ x. lookup x.vars key) e
          ∙ (unfold set_user in
              ap (λ k. lookup (insert env.vars k v) key) (sym (bytes_eq_sound key (codes "USER") a))
              ∙ lookup-insert env.vars key v)
      | inr (inr (inl (a, e))) ↦ absurd (cc (a, not_pwd))
      | inr (inr (inr (_, _, _, e))) ↦ ap (λ x. lookup x.vars key) e ∙ lookup-insert env.vars key v
    ])
