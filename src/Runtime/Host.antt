-- ===== src/Runtime/Host.antt =====
-- The two parts that a sandbox puts under a `Runtime`: TestEnv as an environment and OsFS as a file system,
-- with the laws that `Runtime` counts on. SetJail and SetUser of TestEnv never fail.
use cli_toolkit.Base.{
  true, false, Option, some, Bytes, ◌≡◌, refl, sym, ap, ◌∙◌, ◌⊎◌, inl, inr, is_blank, arith,
}
use cli_toolkit.FilePath.{is_abs, clean}
use cli_toolkit.Jail.{clean_jail}
use cli_toolkit.Jail.Boundary.{is_abs-root}
use cli_toolkit.OsFs
use cli_toolkit.OsFs.Base.{Host, OsFs, Result, ok, err, bind_result, gets}
use cli_toolkit.OsFs.Checked.{Safe}
use cli_toolkit.OsFs.Glob
use cli_toolkit.OsFs.Matches.{glob-Keeps}
use cli_toolkit.OsFs.Methods
use cli_toolkit.OsFs.Methods.{Method}
use cli_toolkit.OsFs.Virtual.{IsAbsolute}
use cli_toolkit.OsFs.Confined.{
  is_abs-not_blank, IsReady, IsVirtual, Keeps, Keeps-bind, Post-result, resolve_virtual-Keeps,
}
use cli_toolkit.OsFs.Escape.{perform-Keeps, setwd-Keeps, post-eq-ok, Post-IsReady}
use cli_toolkit.TestEnv
use cli_toolkit.TestEnv.{TestEnv, insert}
use cli_toolkit.TestEnv.Invariant.{setwd-eq-some, set_home-eq-some, set-branches}
use cli_toolkit.Runtime.Base.{Environment, FileSystem, History}
use cli_toolkit.Runtime.Contract.{IsEnvironment, IsFileSystem}

-- TestEnv behind the interface Env; filepath.EvalSymlinks is the parameter.
abbrev pub test_environment : (Bytes → Option Bytes) → Environment
test_environment ev = record {
  State = TestEnv;
  get_jail = λ env. env.jail;
  set_jail = λ j env. some (TestEnv.set_jail j env);
  get = TestEnv.get;
  set = TestEnv.set ev;
  has = λ env key. TestEnv.has_key env.vars key;
  unset = TestEnv.unset;
  get_home = TestEnv.get_home;
  set_home = TestEnv.set_home ev;
  get_user = TestEnv.get_user;
  set_user = λ name env. some (TestEnv.set_user ev name env);
  getwd = TestEnv.getwd;
  setwd = TestEnv.setwd ev;
  get_temp_dir = TestEnv.get_temp_dir;
}

-- What the host answers behind each list of calls that were made of it.
abbrev pub World : Type 0
World = History → Host

abbrev pub StaysAbsolute : World → Type 0
StaysAbsolute host = (calls : History) → IsAbsolute (host calls)

-- OsFS behind the interface FileSystem, over a host that the calls change.
abbrev pub host_file_system : World → FileSystem
host_file_system host = record {
  State = OsFs;
  get_jail = λ fs. fs.jail;
  set_jail = λ j _. OsFs.set_jail j;
  getwd = λ calls. Methods.getwd (host calls);
  setwd = λ d calls. Methods.setwd (host calls) d;
  resolve_path = λ p follow calls. OsFs.resolve_virtual (host calls) p follow;
  act = λ m calls. Methods.perform (host calls) m;
  rel = λ p q calls. Methods.rel_between (host calls) p q;
  glob = λ p calls. Glob.glob (host calls) p;
}

jail-move_home : (old : Bytes) (env : TestEnv) → (TestEnv.move_home old env).jail ≡ env.jail
unfolding TestEnv.move_home
jail-move_home old env = ground arith

jail-move_tmp : (old : Bytes) (env : TestEnv) → (TestEnv.move_tmp old env).jail ≡ env.jail
unfolding TestEnv.move_tmp
jail-move_tmp old env = ground arith

jail-set_jail : (j : Bytes) (env : TestEnv) → (TestEnv.set_jail j env).jail ≡ clean_jail j
unfolding TestEnv.set_jail
jail-set_jail j env =
    let jailed : TestEnv = record env { jail = clean_jail j } in
    jail-move_tmp env.jail (TestEnv.move_home env.jail jailed) ∙ jail-move_home env.jail jailed

jail-unset : (k : Bytes) (env : TestEnv) → (TestEnv.unset k env).jail ≡ env.jail
unfolding TestEnv.unset
jail-unset k env = ground arith

jail-setwd :
    (ev : Bytes → Option Bytes) (d : Bytes) (env env' : TestEnv)
    → TestEnv.setwd ev d env ≡ some env'
    → env'.jail ≡ env.jail
jail-setwd ev d env env' h =
    let (path, _, same) = setwd-eq-some ev env env' d h in ap (λ e. e.jail) same

jail-set_home :
    (ev : Bytes → Option Bytes) (p : Bytes) (env env' : TestEnv)
    → TestEnv.set_home ev p env ≡ some env'
    → env'.jail ≡ env.jail
jail-set_home ev p env env' h =
    let (v, same) = set_home-eq-some ev env env' p h in ap (λ e. e.jail) same

jail-set_user :
    (ev : Bytes → Option Bytes) (n : Bytes) (env : TestEnv)
    → (TestEnv.set_user ev n env).jail ≡ env.jail
jail-set_user ev n env = unfold TestEnv.set_user in refl

jail-set_user_some :
    (ev : Bytes → Option Bytes) (n : Bytes) (env env' : TestEnv)
    → some (TestEnv.set_user ev n env) ≡ some env'
    → env'.jail ≡ env.jail
jail-set_user_some ev n env env' h =
    let same : TestEnv.set_user ev n env ≡ env' = cc in
    ap (λ e. e.jail) (sym same) ∙ jail-set_user ev n env

jail-set :
    (ev : Bytes → Option Bytes) (k v : Bytes) (env env' : TestEnv)
    → TestEnv.set ev k v env ≡ some env'
    → env'.jail ≡ env.jail
jail-set ev k v env env' h = elim (set-branches ev env env' k v h) [
  | inl (_, e) ↦ jail-set_home ev v env env' e
  | inr (inl (_, e)) ↦ ap (λ e. e.jail) e ∙ jail-set_user ev v env
  | inr (inr (inl (_, e))) ↦ jail-setwd ev v env env' e
  | inr (inr (inr (_, _, _, e))) ↦ ap (λ e. e.jail) e
]

-- TestEnv is an environment of the kind that Runtime counts on, whatever EvalSymlinks says.
pub test_environment-IsEnvironment :
    (ev : Bytes → Option Bytes) → IsEnvironment (test_environment ev)
test_environment-IsEnvironment ev = record {
  jail-set_jail =
      λ j env hj hc. (TestEnv.set_jail j env, refl, jail-set_jail j env ∙ clean_jail_kept j hj hc);
  jail-set = jail-set ev;
  jail-unset = jail-unset;
  jail-set_home = jail-set_home ev;
  jail-set_user = λ n env env' h. jail-set_user_some ev n env env' h;
  jail-setwd = jail-setwd ev;
}
  where
    clean_jail_kept : (j : Bytes) → is_abs j ≡ true → clean j ≡ j → clean_jail j ≡ j
    clean_jail_kept j hj hc = unfold clean_jail in rw (is_abs-not_blank j hj) hc

-- A working directory that is unset or absolute.
abbrev IsSettled : OsFs → Type 0
IsSettled fs = (is_blank fs.wd ≡ true) ⊎ (is_abs fs.wd ≡ true)

module _ (host : Host) (ha : IsAbsolute host) (jail : Bytes) (hj : is_abs jail ≡ true) where
  initialized-IsReady :
      (fs : OsFs) → IsReady jail fs → IsReady jail (OsFs.ensure_initialized host fs).0
  unfolding OsFs.ensure_initialized
  initialized-IsReady fs (same, inl blank) =
      rw (blank, ap is_blank same ∙ is_abs-not_blank jail hj) (same, inr is_abs-root)
  initialized-IsReady fs (same, inr wd_abs) = rw (is_abs-not_blank fs.wd wd_abs) (same, inr wd_abs)

  pub getwd-IsReady : (fs : OsFs) → IsReady jail fs → IsReady jail (Methods.getwd host fs).0
  unfolding Methods.getwd
  getwd-IsReady fs r = after (OsFs.ensure_initialized host fs) (initialized-IsReady fs r)
    where
      after :
          (o : OsFs × Result (Unit {0}))
          → IsReady jail o.0
          → IsReady jail (bind_result o (λ _. gets (λ fs. fs.wd))).0
      after (fs, ok u) r = r
      after (fs, err e) r = r

  pub rel_between-Keeps : (p q : Bytes) → Keeps jail (λ _. Unit {0}) (Methods.rel_between host p q)
  unfolding Methods.rel_between
  rel_between-Keeps p q =
      Keeps-bind jail IsVirtual (λ _. Unit {0}) (OsFs.resolve_virtual host p false) _
        (resolve_virtual-Keeps host ha jail hj p false)
        λ v hv.
          Keeps-bind jail IsVirtual (λ _. Unit {0}) (OsFs.resolve_virtual host q false) _
            (resolve_virtual-Keeps host ha jail hj q false)
            λ w hw fs r. Post-result jail (λ _. Unit {0}) fs _ r (λ a e. tt)

-- OsFS over a host with absolute answers is a file system of the kind that Runtime counts on.
unfoldable pub host_file_system-IsFileSystem :
    (host : World) → StaysAbsolute host → IsFileSystem (host_file_system host)
unfolding OsFs.set_jail
host_file_system-IsFileSystem host ha = record {
  Valid = IsSettled;
  Ready = λ j fs. (is_abs j ≡ true) × IsReady j fs;
  Inside = λ calls j c. Safe (host calls) j c;
  ready_valid = λ j fs r. r.1.1;
  ready_jail = λ j fs r. r.1.0;
  set_jail_ready = λ j _ fs v hj hc. ((hj, (rw (is_abs-not_blank j hj) hc, v)), refl);
  getwd_ready = λ j calls fs r. (r.0, getwd-IsReady (host calls) (ha calls) j r.0 fs r.1);
  setwd_ready = λ d j calls fs r. (
    r.0,
    Post-IsReady j (λ _. Unit {0}) (Methods.setwd (host calls) d fs)
        (setwd-Keeps (host calls) (ha calls) j r.0 d fs r.1),
  );
  resolve_path_ready = λ p b j calls fs r. (
    r.0,
    Post-IsReady j IsVirtual (OsFs.resolve_virtual (host calls) p b fs)
        (resolve_virtual-Keeps (host calls) (ha calls) j r.0 p b fs r.1),
  );
  rel_ready = λ p q j calls fs r. (
    r.0,
    Post-IsReady j (λ _. Unit {0}) (Methods.rel_between (host calls) p q fs)
        (rel_between-Keeps (host calls) (ha calls) j r.0 p q fs r.1),
  );
  glob_ready = λ p j calls fs r. (
    r.0,
    Post-IsReady j (λ _. Unit {0}) (Glob.glob (host calls) p fs)
        (glob-Keeps (host calls) (ha calls) j r.0 p fs r.1),
  );
  act_ready = λ m j calls fs r. (
    r.0,
    Post-IsReady j (Safe (host calls) j) (Methods.perform (host calls) m fs)
        (perform-Keeps (host calls) (ha calls) j r.0 m fs r.1),
  );
  act_inside = λ m j calls fs fs' c r h.
      post-eq-ok j (Safe (host calls) j) (Methods.perform (host calls) m fs) fs' c
        (perform-Keeps (host calls) (ha calls) j r.0 m fs r.1) h;
}
