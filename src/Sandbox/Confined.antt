-- ===== src/Sandbox/Confined.antt =====
-- A sandbox's options and methods keep it in its jail (sandbox/sandbox.go over toolkit/runtime.go).
use cli_toolkit.Base.{
  ℕ, Bool, true, false, List, [], ◌∷◌, Option, none, some, Bytes, codes, ◌≡◌, refl, sym, ap, ◌∙◌,
  subst, All, is_empty,
}
use cli_toolkit.Clock.{Scheduler, set_time}
use cli_toolkit.FilePath.{is_abs, elems, clean, join}
use cli_toolkit.FilePath.Join.{elems-join-clean, is_abs-join}
use cli_toolkit.Jail.Boundary.{is_abs-not_empty}
use cli_toolkit.OsFs.Calls.{Call}
use cli_toolkit.OsFs.Confined.{IsVirtual}
use cli_toolkit.OsFs.Methods.{do_atomic_write}
use cli_toolkit.Runtime.Base.{Environment, FileSystem, Outcome}
use cli_toolkit.Runtime.Files
use cli_toolkit.Runtime.Files.{Reply}
use cli_toolkit.Runtime.Confined.{resolve_path-Keeps, setwd-Keeps, set-Keeps, act_at-Keeps}
use cli_toolkit.Runtime.Host.{
  World, StaysAbsolute, test_environment, host_file_system, test_environment-IsEnvironment,
  host_file_system-IsFileSystem,
}
use cli_toolkit.Runtime.Sandbox.{SandboxRuntime}
use cli_toolkit.Sandbox.{
  resolve_path, setwd, with_wd, with_env, with_env_map, with_clock, atomic_write_file, copy_fixture,
  copied_on, put_clock, on_clock, with_fixture, SandboxOption, env_option, env_map_option,
  wd_option, clock_option, fixture_option, apply_option, apply_options, TestSandbox,
}
use cli_toolkit.Sandbox.Base.{Answer, no_jail, fatal, M, must, on_runtime, ◌>>=◌}
use cli_toolkit.Sandbox.Below.{HasNamesIn, below-HasNames, IsBelow, CallBelow, copy_embed_dir-All}
use cli_toolkit.Sandbox.Embed.{Node, plain, folder, below, copy_embed_dir}
use cli_toolkit.Sandbox.Held.{
  KeepsJailed, resolve_path-IsVirtual, Held, HeldWith, Holds, Holds-bind, Holds-must,
  on_runtime-Holds,
}
use cli_toolkit.Runtime.Contract.{IsEnvironment, IsFileSystem}

module _ (ev : Bytes → Option Bytes) (host : World) (reply : Reply)
    (fixture_reply : List Call → Call → Bool) (absolute : StaysAbsolute host) (j : Bytes)
    (hj : is_abs j ≡ true) (hc : clean j ≡ j) where
  abbrev E : Environment
  E = test_environment ev

  abbrev F : FileSystem
  F = host_file_system host

  abbrev laws : IsFileSystem F
  laws = host_file_system-IsFileSystem host absolute

  abbrev env_laws : IsEnvironment E
  env_laws = test_environment-IsEnvironment ev

  abbrev pub Stays {ℓ} : {A : Type ℓ} → M (TestSandbox ev host fixture_reply) A → Type 0
  Stays m = Holds ev host absolute j hj hc (λ _. Unit {0}) m

  pub stays {ℓ} :
      {A : Type ℓ} (m : SandboxRuntime ev host → SandboxRuntime ev host × Outcome A)
      → KeepsJailed ev host absolute j hj hc m
      → Stays (on_runtime m)
  stays m hm = on_runtime-Holds ev host absolute j hj hc (λ _. Unit {0}) m hm (λ rt h a e. tt)

  pub must_stay {ℓ} :
      {A : Type ℓ} (m : SandboxRuntime ev host → SandboxRuntime ev host × Outcome A)
      → KeepsJailed ev host absolute j hj hc m
      → Stays (must (on_runtime m))
  must_stay m hm = Holds-must ev host absolute j hj hc (λ _. Unit {0}) (on_runtime m) (stays m hm)

  pub resolve_path-Holds :
      (rel : Bytes) → Holds ev host absolute j hj hc IsVirtual (resolve_path E F rel)
  unfolding resolve_path
  resolve_path-Holds rel =
      on_runtime-Holds ev host absolute j hj hc IsVirtual _
        (resolve_path-Keeps E F laws j env_laws hj hc rel false)
        (resolve_path-IsVirtual ev host absolute j hj hc rel false)

  pub setwd-Stays : (dir : Bytes) → Stays (setwd E F dir)
  unfolding setwd
  setwd-Stays dir =
      Holds-bind ev host absolute j hj hc IsVirtual (λ _. Unit {0}) (resolve_path E F dir) _
        (resolve_path-Holds dir) (λ path _. stays _ (setwd-Keeps E F laws j env_laws hj hc path))

  with_wd-Stays : (rel : Bytes) → Stays (with_wd E F rel)
  unfolding with_wd
  with_wd-Stays rel =
      Holds-bind ev host absolute j hj hc IsVirtual (λ _. Unit {0}) (must (resolve_path E F rel)) _
        (Holds-must ev host absolute j hj hc IsVirtual (resolve_path E F rel)
          (resolve_path-Holds rel))
        (λ path _. must_stay _ (setwd-Keeps E F laws j env_laws hj hc path))

  pub on_clock-Stays : (f : Scheduler → Option Scheduler) → Stays (on_clock E F f)
  on_clock-Stays f s h = on_state s.clock
    where
      put :
          (c : Option Scheduler)
          → HeldWith ev host absolute j hj hc (λ _. Unit {0}) (put_clock E F s c)
      put none = h
      put (some c) = (h, tt)

      on_state :
          (c : Option Scheduler)
          → HeldWith ev host absolute j hj hc
              (λ _. Unit {0})
              (elim c as (λ _. TestSandbox ev host fixture_reply × Answer (Unit {0})) [
                | none ↦ (s, fatal)
                | some c ↦ put_clock E F s (f c)
              ])
      on_state none = h
      on_state (some c) = put (f c)

  with_env_map-Stays : (entries : List (Bytes × Bytes)) → Stays (with_env_map E F entries)
  unfolding with_env_map
  with_env_map-Stays [] = λ s h. (h, tt)
  with_env_map-Stays ((key, value) ∷ entries) =
      Holds-bind ev host absolute j hj hc (λ _. Unit {0}) (λ _. Unit {0}) _
        (λ _. with_env_map E F entries)
        (must_stay _ (set-Keeps E F laws j env_laws hj hc key value))
        (λ _ _. with_env_map-Stays entries)

  IsBelow-jail : (p : Bytes) → IsVirtual p → IsBelow j (join (j ∷ p ∷ []))
  IsBelow-jail p (a, c) =
      let full = is_abs-not_empty j hj in
      (
        is_abs-join j p full ∙ hj,
        (elems p, ap (λ x. elems (join (j ∷ x ∷ []))) (sym c) ∙ elems-join-clean j p full a),
      )

  copy_fixture-Stays :
      (node : Node) (dst : Bytes) (s : TestSandbox ev host fixture_reply)
      → HasNamesIn node
      → IsBelow j dst
      → Held ev host absolute j hj hc s
      → HeldWith ev host absolute j hj hc
          (λ _. Unit {0})
          (copy_fixture E F fixture_reply (some node) dst s)
  unfolding copy_fixture
  copy_fixture-Stays (plain bytes) dst s n b h = h
  copy_fixture-Stays (folder es) dst s n b (h, c, f) =
      put (copy_embed_dir fixture_reply es dst s.copied)
        (copy_embed_dir-All fixture_reply j es dst s.copied n b c)
    where
      put :
          (o : List Call × Bool)
          → All (CallBelow j) o.0
          → HeldWith ev host absolute j hj hc (λ _. Unit {0}) (copied_on E F fixture_reply s o)
      put (calls, true) c = ((h, c, f), tt)
      put (calls, false) c = (h, c, f)

  with_fixture-Stays : (fixture path : Bytes) → Stays (with_fixture E F fixture_reply fixture path)
  unfolding with_fixture
  with_fixture-Stays fixture path s h =
      on_source (below (folder s.fixtures) (elems (join (codes "data" ∷ fixture ∷ [])))) refl
    where
      on_source :
          (o : Option Node)
          → below (folder s.fixtures) (elems (join (codes "data" ∷ fixture ∷ []))) ≡ o
          → HeldWith ev host absolute j hj hc
              (λ _. Unit {0})
              (elim o as (λ _. TestSandbox ev host fixture_reply × Answer (Unit {0})) [
                | none ↦ (s, fatal)
                | some node ↦
                    (must (resolve_path E F path) >>= λ p s.
                    copy_fixture E F fixture_reply (some node) (join (s.rt.jail ∷ p ∷ [])) s)
                      s
              ])
      on_source none e = h
      on_source (some node) e =
          Holds-bind ev host absolute j hj hc IsVirtual (λ _. Unit {0})
            (must (resolve_path E F path))
            (λ p s. copy_fixture E F fixture_reply (some node) (join (s.rt.jail ∷ p ∷ [])) s)
            (Holds-must ev host absolute j hj hc IsVirtual (resolve_path E F path)
              (resolve_path-Holds path))
            (λ p hp s' h'.
              copy_fixture-Stays node (join (s'.rt.jail ∷ p ∷ [])) s'
                (below-HasNames (folder s.fixtures) (elems (join (codes "data" ∷ fixture ∷ [])))
                  node h.2 e)
                (subst (λ q. IsBelow j (join (q ∷ p ∷ []))) (sym h'.0.0) (IsBelow-jail p hp)) h')
            s h

  pub apply_option-Stays : (opt : SandboxOption) → Stays (apply_option E F fixture_reply opt)
  unfolding apply_option with_env with_clock
  apply_option-Stays (env_option key value) =
      must_stay _ (set-Keeps E F laws j env_laws hj hc key value)
  apply_option-Stays (env_map_option entries) = with_env_map-Stays entries
  apply_option-Stays (wd_option rel) = with_wd-Stays rel
  apply_option-Stays (clock_option t) = on_clock-Stays (λ c. some (set_time c t))
  apply_option-Stays (fixture_option fixture path) = with_fixture-Stays fixture path

  pub apply_options-Stays :
      (opts : List SandboxOption) → Stays (apply_options E F fixture_reply opts)
  unfolding apply_options
  apply_options-Stays [] = λ s h. (h, tt)
  apply_options-Stays (opt ∷ opts) =
      Holds-bind ev host absolute j hj hc (λ _. Unit {0}) (λ _. Unit {0})
        (apply_option E F fixture_reply opt) _ (apply_option-Stays opt)
        (λ _ _. apply_options-Stays opts)

  pub atomic_write_file-Stays :
      (rel bytes : Bytes) (perm : ℕ) → Stays (atomic_write_file E F reply rel bytes perm)
  unfolding atomic_write_file Files.atomic_write_file
  atomic_write_file-Stays rel bytes perm s h = on_test (is_empty s.rt.jail)
    where
      on_test :
          (b : Bool)
          → HeldWith ev host absolute j hj hc
              (λ _. Unit {0})
              (elim b as (λ _. TestSandbox ev host fixture_reply × Answer Call) [
                | true ↦ (s, no_jail)
                | false ↦ on_runtime (Files.atomic_write_file E F reply rel bytes perm) s
              ])
      on_test true = h
      on_test false =
          stays (Files.atomic_write_file E F reply rel bytes perm)
            (act_at-Keeps E F laws j env_laws hj hc reply rel false
              (λ p. do_atomic_write p bytes perm))
            s h
