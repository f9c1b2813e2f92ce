-- ===== src/TestEnv/Homes.antt =====
-- The homes of a test's environment: what SetHome and SetJail leave for GetHome to report.
use cli_toolkit.Base.{
  true, false, [], ◌∷◌, Option, some, ◌≡◌, sym, ap, ◌∙◌, arith, Bytes, inl, inr, Option-cases,
  is_empty,
}
use cli_toolkit.FilePath.{is_abs, clean, join}
use cli_toolkit.FilePath.Clean.{is_abs-clean}
use cli_toolkit.FilePath.Join.{is_abs-join}
use cli_toolkit.Jail.{remove_jail_prefix, clean_jail}
use cli_toolkit.Jail.Boundary.{is_abs-not_empty}
use cli_toolkit.Jail.Prefix.{
  remove_jail_prefix-join-clean, clean-remove_jail_prefix, elems-remove_jail_prefix,
}
use cli_toolkit.OsFs.Confined.{is_abs-not_blank}
use cli_toolkit.TestEnv.{
  TestEnv, rejail, move_home, move_tmp, set_jail, get_home, resolve_path, set_home,
}
use cli_toolkit.TestEnv.Paths.{HasRoot, IsVirtual, resolve_path-IsVirtual}

get_home_of :
    (env : TestEnv) (v : Bytes)
    → is_abs env.jail ≡ true
    → IsVirtual v
    → env.home ≡ join (env.jail ∷ v ∷ [])
    → get_home env ≡ some v
get_home_of env v hj (va, vc) e =
    let full : is_empty env.home ≡ false =
      is_abs-not_empty env.home
        (ap is_abs e ∙ is_abs-join env.jail v (is_abs-not_empty env.jail hj) ∙ hj) in
    let back : remove_jail_prefix env.jail env.home ≡ v =
      ap (remove_jail_prefix env.jail) (e ∙ ap (λ x. join (env.jail ∷ x ∷ [])) (sym vc))
      ∙ remove_jail_prefix-join-clean env.jail v hj va
      ∙ vc in
    unfold get_home in rw (full, back)

set_home-eq-some :
    (ev : Bytes → Option Bytes) (env env' : TestEnv) (rel : Bytes)
    → set_home ev rel env ≡ some env'
    → (path : Bytes) × (resolve_path ev env rel false ≡ some path)
      × (env'.jail ≡ env.jail)
      × (env'.home ≡ join (env.jail ∷ path ∷ []))
unfolding set_home
set_home-eq-some ev env env' rel h = elim (Option-cases (resolve_path ev env rel false)) [
  | inl e ↦ absurd (ground arith)
  | inr (path, e) ↦ (path, e, ground arith, ground arith)
]

-- In an absolute jail, with a working directory that is unset, or absolute and clean: after a SetHome
-- that succeeds, GetHome reports the path that ResolvePath gave for the argument.
pub get_home-set_home :
    (ev : Bytes → Option Bytes) (env env' : TestEnv) (rel : Bytes)
    → is_abs env.jail ≡ true
    → HasRoot env
    → set_home ev rel env ≡ some env'
    → get_home env' ≡ resolve_path ev env rel false
get_home-set_home ev env env' rel hj r h =
    let (path, found, same, home) = set_home-eq-some ev env env' rel h in
    get_home_of env' path (ap is_abs same ∙ hj) (resolve_path-IsVirtual ev env rel path r found)
      (home ∙ ap (λ j. join (j ∷ path ∷ [])) (sym same))
    ∙ sym found

move_tmp-home :
    (old : Bytes) (env : TestEnv)
    → ((move_tmp old env).home ≡ env.home) × ((move_tmp old env).jail ≡ env.jail)
unfolding move_tmp
move_tmp-home old env = (ground arith, ground arith)

move_home-home :
    (old : Bytes) (env : TestEnv)
    → is_empty env.home ≡ false
    → ((move_home old env).home ≡ rejail old env.jail env.home)
      × ((move_home old env).jail ≡ env.jail)
unfolding move_home
move_home-home old env h = (ground arith, ground arith)

set_jail-home :
    (new : Bytes) (env : TestEnv)
    → is_abs new ≡ true
    → is_empty env.home ≡ false
    → ((set_jail new env).home ≡ join (clean new ∷ remove_jail_prefix env.jail env.home ∷ []))
      × ((set_jail new env).jail ≡ clean new)
set_jail-home new env hn hh =
    let jailed : TestEnv = record env { jail = clean_jail new } in
    let cleaned : clean_jail new ≡ clean new = unfold clean_jail in rw (is_abs-not_blank new hn) in
    let (h1, j1) = move_home-home env.jail jailed hh in
    let (h2, j2) = move_tmp-home env.jail (move_home env.jail jailed) in
    let moved : rejail env.jail (clean new) env.home
        ≡ join (clean new ∷ remove_jail_prefix env.jail env.home ∷ []) =
      unfold rejail in rw (is_abs-not_empty (clean new) (is_abs-clean new ∙ hn)) in
    unfold set_jail in
    (h2 ∙ h1 ∙ ap (λ j. rejail env.jail j env.home) cleaned ∙ moved, j2 ∙ j1 ∙ cleaned)

-- Between absolute jails and with an absolute home, SetJail carries the home along: GetHome reports
-- the same path before and after.
pub get_home-set_jail :
    (new : Bytes) (env : TestEnv)
    → is_abs env.jail ≡ true
    → is_abs new ≡ true
    → is_abs env.home ≡ true
    → get_home (set_jail new env) ≡ get_home env
get_home-set_jail new env hj hn hh =
    let full = is_abs-not_empty env.home hh in
    let (home, jail) = set_jail-home new env hn full in
    let v = remove_jail_prefix env.jail env.home in
    get_home_of (set_jail new env) v (ap is_abs jail ∙ is_abs-clean new ∙ hn)
      (
        (elems-remove_jail_prefix env.jail env.home hj hh).0,
        clean-remove_jail_prefix env.jail env.home hj hh,
      )
      (home ∙ ap (λ j. join (j ∷ v ∷ [])) (sym jail))
    ∙ (unfold get_home in rw full)
