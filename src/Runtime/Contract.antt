-- ===== src/Runtime/Contract.antt =====
-- What `Runtime` counts on: laws of an environment and of a file system, and the state that the runtime
-- keeps over them.
use cli_toolkit.Base.{
  Bool, true, [], ◌∷◌, ◌++◌, Option, none, some, Bytes, ◌≡◌, sym, subst, append-nil, append_assoc,
}
use cli_toolkit.FilePath.{is_abs, clean}
use cli_toolkit.OsFs.Base.{ok}
use cli_toolkit.OsFs.Calls.{Call}
use cli_toolkit.OsFs.Methods.{Method}
use cli_toolkit.Runtime.Base.{Environment, FileSystem, History, Runtime, M}

-- What holds of each call, its jail and the calls before it.
abbrev pub Throughout : (History → Bytes → Call → Type 0) → History → History → Type 0
Throughout P before [] = Unit {0}
Throughout P before ((j, c) ∷ made) = P before j c × Throughout P (before ++ (j, c) ∷ []) made

pub Throughout-snoc :
    (P : History → Bytes → Call → Type 0) (before made : History) (j : Bytes) (c : Call)
    → Throughout P before made
    → P (before ++ made) j c
    → Throughout P before (made ++ (j, c) ∷ [])
Throughout-snoc P before [] j c h p = (subst (λ b. P b j c) (append-nil before) p, tt)
Throughout-snoc P before ((i, d) ∷ made) j c (q, h) p = (
  q,
  Throughout-snoc P (before ++ (i, d) ∷ []) made j c h
      (subst (λ b. P b j c) (sym (append_assoc before ((i, d) ∷ []) made)) p),
)

-- An environment takes over an absolute clean jail, and nothing else changes its jail.
pub record IsEnvironment (E : Environment) : Type 0 where
  pub jail-set_jail :
      (j : Bytes) (s : E.State)
      → is_abs j ≡ true
      → clean j ≡ j
      → (s' : E.State) × (E.set_jail j s ≡ some s') × (E.get_jail s' ≡ j)
  pub jail-set :
      (k v : Bytes) (s s' : E.State) → E.set k v s ≡ some s' → E.get_jail s' ≡ E.get_jail s
  pub jail-unset : (k : Bytes) (s : E.State) → E.get_jail (E.unset k s) ≡ E.get_jail s
  pub jail-set_home :
      (p : Bytes) (s s' : E.State) → E.set_home p s ≡ some s' → E.get_jail s' ≡ E.get_jail s
  pub jail-set_user :
      (n : Bytes) (s s' : E.State) → E.set_user n s ≡ some s' → E.get_jail s' ≡ E.get_jail s
  pub jail-setwd :
      (d : Bytes) (s s' : E.State) → E.setwd d s ≡ some s' → E.get_jail s' ≡ E.get_jail s

-- A file system has states that a jail can be set in, and among them those that stay in a jail: of these
-- each operation keeps the jail, and each call of the host names paths inside it.
pub record IsFileSystem (F : FileSystem) : Type 1 where
  pub Valid : F.State → Type 0
  pub Ready : Bytes → F.State → Type 0
  pub Inside : History → Bytes → Call → Type 0
  pub ready_valid : (j : Bytes) (s : F.State) → Ready j s → Valid s
  pub ready_jail : (j : Bytes) (s : F.State) → Ready j s → F.get_jail s ≡ j
  pub set_jail_ready :
      (j : Bytes) (h : History) (s : F.State)
      → Valid s
      → is_abs j ≡ true
      → clean j ≡ j
      → Ready j (F.set_jail j h s).0 × ((F.set_jail j h s).1 ≡ ok tt)
  pub getwd_ready : (j : Bytes) (h : History) (s : F.State) → Ready j s → Ready j (F.getwd h s).0
  pub setwd_ready :
      (d j : Bytes) (h : History) (s : F.State) → Ready j s → Ready j (F.setwd d h s).0
  pub resolve_path_ready :
      (p : Bytes) (b : Bool) (j : Bytes) (h : History) (s : F.State)
      → Ready j s
      → Ready j (F.resolve_path p b h s).0
  pub rel_ready :
      (p q j : Bytes) (h : History) (s : F.State) → Ready j s → Ready j (F.rel p q h s).0
  pub glob_ready : (p j : Bytes) (h : History) (s : F.State) → Ready j s → Ready j (F.glob p h s).0
  pub act_ready :
      (m : Method) (j : Bytes) (h : History) (s : F.State) → Ready j s → Ready j (F.act m h s).0
  pub act_inside :
      (m : Method) (j : Bytes) (h : History) (s s' : F.State) (c : Call)
      → Ready j s
      → F.act m h s ≡ (s', ok c)
      → Inside h j c

module _ (E : Environment) (F : FileSystem) (lf : IsFileSystem F) where
  abbrev pub FsReady : Bytes → Option F.State → Type 0
  FsReady j none = ⊥
  FsReady j (some s) = lf.Ready j s

  abbrev pub EnvJail : Bytes → Option E.State → Type 0
  EnvJail j none = ⊥
  EnvJail j (some s) = E.get_jail s ≡ j

  abbrev pub FsValid : Option F.State → Type 0
  FsValid none = ⊥
  FsValid (some s) = lf.Valid s

  -- Each call of the host stayed inside the jail that the runtime had then, by what the host answered then.
  abbrev pub CallsInside : History → Type 0
  CallsInside = Throughout lf.Inside []

  -- The runtime, its environment and its file system are in the one jail `j`.
  abbrev pub InJail : Bytes → Runtime E F → Type 0
  InJail j rt = (rt.jail ≡ j) × FsReady j rt.fs × EnvJail j rt.env × CallsInside rt.calls

  -- What a method leaves of that, whether it succeeds or fails.
  unfoldable pub Keeps {ℓ} : {A : Type ℓ} → Bytes → M (Runtime E F) A → Type 0
  Keeps j m = (rt : Runtime E F) → InJail j rt → InJail j (m rt).0

  pub FsReady-FsValid : (j : Bytes) (fs : Option F.State) → FsReady j fs → FsValid fs
  FsReady-FsValid j none h = h
  FsReady-FsValid j (some s) h = lf.ready_valid j s h
