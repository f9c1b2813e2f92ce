-- ===== src/Sandbox/Held.antt =====
-- A sandbox stays in its jail: its runtime, and what fixtures are copied to (sandbox/sandbox.go).
use cli_toolkit.Base.{
  Bool, true, ◌||◌, Option, none, some, Bytes, ◌≡◌, refl, subst, All, is_blank, bytes_eq,
}
use cli_toolkit.FilePath.{dot, is_abs, clean}
use cli_toolkit.OsFs.{resolve_virtual}
use cli_toolkit.OsFs.Base.{OsFs, Result, ok, err}
use cli_toolkit.OsFs.Confined.{IsVirtual, Post, resolve_virtual-Keeps}
use cli_toolkit.Runtime
use cli_toolkit.Runtime.Base.{
  Environment, FileSystem, Outcome, done, fail, bind_outcome, on_fs, put_fs, run_fs,
}
use cli_toolkit.Runtime.Contract.{IsEnvironment, IsFileSystem, FsReady, InJail, Keeps}
use cli_toolkit.Runtime.Host.{
  World, StaysAbsolute, test_environment, host_file_system, test_environment-IsEnvironment,
  host_file_system-IsFileSystem,
}
use cli_toolkit.Runtime.Kept.{validate-Keeps, getwd-Keeps, located-Keeps, Keeps_branch}
use cli_toolkit.Runtime.Sandbox.{SandboxRuntime}
use cli_toolkit.Sandbox.Base.{
  Sandbox, Answer, returned, failed, no_jail, fatal, stuck, M, bind_answer, ◌>>=◌, or_fatal, must,
  put_runtime, on_runtime,
}
use cli_toolkit.Sandbox.Below.{HasNames, CallBelow}

module _ (ev : Bytes → Option Bytes) (host : World) (absolute : StaysAbsolute host) (j : Bytes)
    (hj : is_abs j ≡ true) (hc : clean j ≡ j) where
  abbrev pub E : Environment
  E = test_environment ev

  abbrev pub F : FileSystem
  F = host_file_system host

  abbrev pub lf : IsFileSystem F
  lf = host_file_system-IsFileSystem host absolute

  abbrev pub le : IsEnvironment E
  le = test_environment-IsEnvironment ev

  abbrev pub InJailed : SandboxRuntime ev host → Type 0
  InJailed rt =
      InJail (test_environment ev) (host_file_system host)
        (host_file_system-IsFileSystem host absolute) j rt

  abbrev pub KeepsJailed {ℓ} :
      {A : Type ℓ} → (SandboxRuntime ev host → SandboxRuntime ev host × Outcome A) → Type 0
  KeepsJailed m =
      Keeps (test_environment ev) (host_file_system host)
        (host_file_system-IsFileSystem host absolute) j m

  -- What comes out at the end of two methods, where the second is known from any state in the jail.
  last_bind {ℓ κ} :
      {A : Type ℓ} {B : Type κ} (Q : B → Type 0)
      (k : A → SandboxRuntime ev host → SandboxRuntime ev host × Outcome B)
      (o : SandboxRuntime ev host × Outcome A)
      → InJailed o.0
      → ((a : A) (rt : SandboxRuntime ev host) → InJailed rt → (b : B) → (k a rt).1 ≡ done b → Q b)
      → (b : B) → (bind_outcome o k).1 ≡ done b
      → Q b
  last_bind Q k (rt, done a) h hk b e = hk a rt h b e
  last_bind Q k (rt, fail x) h hk b e = absurd cc

  resolve_virtual-IsVirtual :
      (p : Bytes) (follow : Bool) (rt : SandboxRuntime ev host)
      → InJailed rt
      → (v : Bytes) → (on_fs (λ calls. resolve_virtual (host calls) p follow) rt).1 ≡ done v
      → IsVirtual v
  unfolding on_fs host_file_system-IsFileSystem
  resolve_virtual-IsVirtual p follow rt h v e = on_state rt.fs h.1 e
    where
      on_result :
          (o : OsFs × Result Bytes)
          → Post j IsVirtual o
          → (put_fs {E = test_environment ev} {F = host_file_system host} rt o).1 ≡ done v
          → IsVirtual v
      on_result (s, ok w) (r, q) e = subst IsVirtual (cc e) q
      on_result (s, err x) r e = absurd cc

      on_state :
          (fs : Option OsFs)
          → FsReady
              (test_environment ev)
              (host_file_system host)
              (host_file_system-IsFileSystem host absolute)
              j
              fs
          → (run_fs {E = test_environment ev} {F = host_file_system host}
              (resolve_virtual (host rt.calls) p follow)
              fs
              rt).1
            ≡ done v
          → IsVirtual v
      on_state none h e = absurd h
      on_state (some s) h e =
          on_result (resolve_virtual (host rt.calls) p follow s)
            (resolve_virtual-Keeps (host rt.calls) (absolute rt.calls) j hj p follow s h.1) e

  -- The paths that ResolvePath of the runtime gives are absolute and clean.
  pub resolve_path-IsVirtual :
      (p : Bytes) (follow : Bool) (rt : SandboxRuntime ev host)
      → InJailed rt
      → (v : Bytes)
      → (Runtime.resolve_path (test_environment ev) (host_file_system host) p follow rt).1 ≡ done v
      → IsVirtual v
  unfolding Runtime.resolve_path Keeps
  resolve_path-IsVirtual p follow rt h =
      last_bind IsVirtual _ (Runtime.validate E F rt) (validate-Keeps E F lf j rt h) λ _ rt' h'.
        last_bind IsVirtual _ _
          (Keeps_branch E F lf j (is_blank p || bytes_eq p dot) _ _ (getwd-Keeps E F lf j le hj hc)
            (located-Keeps E F lf j le hj hc p) rt' h')
          λ q rt'' h''. resolve_virtual-IsVirtual (clean q) follow rt'' h''

  -- The sandbox's runtime is in the jail with its parts, what was copied went below the jail, and the fixtures
  -- have ordinary names.
  abbrev pub Held : Sandbox E F → Type 0
  Held s = InJailed s.rt × All (CallBelow j) s.copied × HasNames s.fixtures

  abbrev pub HeldWith {ℓ} : {A : Type ℓ} → (A → Type 0) → Sandbox E F × Answer A → Type 0
  HeldWith Q (s, returned a) = Held s × Q a
  HeldWith Q (s, failed e) = Held s
  HeldWith Q (s, no_jail) = Held s
  HeldWith Q (s, fatal) = Held s
  HeldWith Q (s, stuck) = Held s

  abbrev pub Holds {ℓ} : {A : Type ℓ} → (A → Type 0) → M (Sandbox E F) A → Type 0
  Holds Q m = (s : Sandbox E F) → Held s → HeldWith Q (m s)

  pub HeldWith-Held {ℓ} :
      {A : Type ℓ} (Q : A → Type 0) (o : Sandbox E F × Answer A) → HeldWith Q o → Held o.0
  HeldWith-Held Q (s, returned a) h = h.0
  HeldWith-Held Q (s, failed e) h = h
  HeldWith-Held Q (s, no_jail) h = h
  HeldWith-Held Q (s, fatal) h = h
  HeldWith-Held Q (s, stuck) h = h

  pub HeldWith-bind {ℓ κ} :
      {A : Type ℓ} {B : Type κ} (Q : A → Type 0) (R : B → Type 0) (k : A → M (Sandbox E F) B)
      (o : Sandbox E F × Answer A)
      → HeldWith Q o
      → ((a : A) → Q a → Holds R (k a))
      → HeldWith R (bind_answer o k)
  HeldWith-bind Q R k (s, returned a) (h, q) hk = hk a q s h
  HeldWith-bind Q R k (s, failed e) h hk = h
  HeldWith-bind Q R k (s, no_jail) h hk = h
  HeldWith-bind Q R k (s, fatal) h hk = h
  HeldWith-bind Q R k (s, stuck) h hk = h

  pub Holds-bind {ℓ κ} :
      {A : Type ℓ} {B : Type κ} (Q : A → Type 0) (R : B → Type 0) (m : M (Sandbox E F) A)
      (k : A → M (Sandbox E F) B)
      → Holds Q m
      → ((a : A) → Q a → Holds R (k a))
      → Holds R (m >>= k)
  Holds-bind Q R m k hm hk s h = HeldWith-bind Q R k (m s) (hm s h) hk

  pub Holds-must {ℓ} :
      {A : Type ℓ} (Q : A → Type 0) (m : M (Sandbox E F) A) → Holds Q m → Holds Q (must m)
  Holds-must {A = A} Q m hm s h = ends (m s) (hm s h)
    where
      ends : (o : Sandbox E F × Answer A) → HeldWith Q o → HeldWith Q (o.0, or_fatal o.1)
      ends (s, returned a) h = h
      ends (s, failed e) h = h
      ends (s, no_jail) h = h
      ends (s, fatal) h = h
      ends (s, stuck) h = h

  pub on_runtime-Holds {ℓ} :
      {A : Type ℓ} (Q : A → Type 0)
      (m : SandboxRuntime ev host → SandboxRuntime ev host × Outcome A)
      → KeepsJailed m
      → ((rt : SandboxRuntime ev host) → InJailed rt → (a : A) → (m rt).1 ≡ done a → Q a)
      → Holds Q (on_runtime m)
  unfolding Keeps
  on_runtime-Holds {A = A} Q m hm hq s (h, c, n) = put (m s.rt) (hm s.rt h) (hq s.rt h)
    where
      put :
          (o : SandboxRuntime ev host × Outcome A)
          → InJailed o.0
          → ((a : A) → o.1 ≡ done a → Q a)
          → HeldWith Q (put_runtime s o)
      put (rt, done a) h q = ((h, c, n), q a refl)
      put (rt, fail e) h q = (h, c, n)
