-- ===== src/Cascade.antt =====
-- cfgcascade: `Cascade.Resolve` over ranked providers, and the providers that the package offers.
-- The type of the values, the type of the errors, the merge function and sort.Slice are parameters.
mod Tests
pub mod Resolve
pub mod EnvKeys
use cli_toolkit.Base.{
  ℕ, ◌+◌, Bool, true, false, List, [], ◌∷◌, ◌++◌, reverse, Option, none, some, Bytes, if◌then◌else◌,
  leb, is_empty, ◌&&◌, bytes_eq,
}
use cli_toolkit.Base.Int.{ℤ}
use cli_toolkit.TestEnv.{Vars, insert}

-- The lookup of a variable that is handed to the providers; `none` is nil.
abbrev pub Getenv : Type 0
Getenv = Option (Bytes → Bytes)

-- What Load returns: a value, an error that wraps os.ErrNotExist, or another error.
pub data Loaded (A E : Type 0) : Type 0 where
  value : A → Loaded A E
  absent : Loaded A E
  failed : E → Loaded A E

-- Provider
pub record Provider (A E : Type 0) : Type 0 where
  pub name : Bytes
  pub load : Getenv → Loaded A E

-- Layer
pub record Layer (A E : Type 0) : Type 0 where
  pub rank : ℤ
  pub provider : Provider A E

-- ResolvedValue, with the local variable haveBase of Resolve. A ProviderError is a name and an error.
pub record Resolved (A E : Type 0) : Type 0 where
  pub merged : A
  pub have_base : Bool
  pub sources : List Bytes
  pub errors : List (Bytes × E)

module _ {A E : Type 0} (merge : A → A → A) where
  -- A layer that loads: the first value is the base, and each later one is laid over it.
  unfoldable pub overlay : Bytes → A → Resolved A E → Resolved A E
  overlay name val rv = record rv {
    merged = if rv.have_base then merge rv.merged val else val;
    have_base = true;
    sources = rv.sources ++ name ∷ [];
  }

  -- One round of the loop of Resolve.
  unfoldable pub visit : Bytes → Loaded A E → Resolved A E → Resolved A E
  unfolding overlay
  visit name (value val) rv = overlay name val rv
  visit name absent rv = rv
  visit name (failed e) rv = record rv { errors = rv.errors ++ (name, e) ∷ [] }

  unfoldable pub visit_all : Getenv → List (Layer A E) → Resolved A E → Resolved A E
  visit_all getenv [] rv = rv
  visit_all getenv (layer ∷ layers) rv =
      visit_all getenv layers (visit layer.provider.name (layer.provider.load getenv) rv)

  -- Cascade.Resolve; `sort` is sort.Slice with the ranks, and `zero_value` the zero value of the type.
  unfoldable pub resolve :
      (List (Layer A E) → List (Layer A E)) → A → List (Layer A E) → Getenv → Resolved A E
  resolve sort zero_value layers getenv =
      let rv =
        visit_all getenv (sort layers)
          (record { merged = zero_value; have_base = false; sources = []; errors = [] }) in
      record rv { sources = reverse rv.sources }

-- DefaultProvider
unfoldable pub default_provider : {A E : Type 0} → Bytes → A → Provider A E
default_provider provider_name default_value = record {
  name = provider_name;
  load = λ getenv. value default_value;
}

-- FuncProvider
unfoldable pub func_provider : {A E : Type 0} → Bytes → (Getenv → Loaded A E) → Provider A E
func_provider provider_name fn = record { name = provider_name; load = fn }

-- MissingProvider
unfoldable pub missing_provider : {A E : Type 0} → Bytes → Provider A E
missing_provider provider_name = record { name = provider_name; load = λ getenv. absent }

-- strings.ToLower on ASCII.
unfoldable pub to_lower : Bytes → Bytes
to_lower [] = []
to_lower (c ∷ s) = (if leb 65 c && leb c 90 then c + 32 else c) ∷ to_lower s

-- The loop of EnvProvider.Load, over the map that is made so far.
unfoldable pub collect_keys : (Bytes → Bytes) → Bytes → List Bytes → Vars → Vars
collect_keys getenv prefix [] result = result
collect_keys getenv prefix (key ∷ keys) result = collect_keys getenv prefix keys (
    if is_empty (getenv (prefix ++ key))
    then result
    else insert result (to_lower key) (getenv (prefix ++ key)))

-- The end of EnvProvider.Load.
abbrev pub found_keys : {E : Type 0} → Vars → Loaded Vars E
found_keys [] = absent
found_keys (entry ∷ entries) = value (entry ∷ entries)

-- The lookup that EnvProvider.Load uses: os.Getenv, a parameter, in place of nil.
abbrev pub lookup_or_os : (Bytes → Bytes) → Getenv → Bytes → Bytes
lookup_or_os os_getenv none = os_getenv
lookup_or_os os_getenv (some getenv) = getenv

-- EnvProvider.Load; the map is an association list.
unfoldable pub env_load :
    {E : Type 0} → (Bytes → Bytes) → Bytes → List Bytes → Getenv → Loaded Vars E
unfolding collect_keys
env_load os_getenv prefix keys getenv =
    found_keys (collect_keys (lookup_or_os os_getenv getenv) prefix keys [])
