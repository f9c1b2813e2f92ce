-- ===== src/Cascade/Tests.antt =====
-- Three layers, one of which is absent and one of which fails, and an environment with one variable set.
use cli_toolkit.Base.{
  true, [], ◌∷◌, ◌++◌, List, some, reverse, ◌≡◌, ◌↔◌, refl, Bytes, codes, bytes_eq, if◌then◌else◌,
  All, ℕ,
}
use cli_toolkit.Base.Int.{pos}
use cli_toolkit.TestEnv.{lookup, insert}
use cli_toolkit.Cascade.{
  value, absent, failed, Layer, overlay, visit, visit_all, resolve, default_provider, func_provider,
  missing_provider, to_lower, collect_keys, env_load, lookup_or_os,
}
use cli_toolkit.Cascade.Resolve.{merge_values, loaded_values, loaded_names, failures, resolve_lem}
use cli_toolkit.Cascade.EnvKeys.{lookup-collect_keys, last_value, env_load_absent, IsUnset}

abbrev variables : Bytes → Bytes
variables key = if bytes_eq key (codes "TAP_KEG") then codes "home" else []

abbrev layers : List (Layer Bytes ℕ)
layers =
    record { rank = pos 0; provider = default_provider (codes "defaults") (codes "a") }
    ∷ record { rank = pos 1; provider = missing_provider (codes "site") }
    ∷ record { rank = pos 2; provider = func_provider (codes "user") (λ getenv. value (codes "b")) }
    ∷ record { rank = pos 3; provider = func_provider (codes "broken") (λ getenv. failed 5) }
    ∷ []

resolved : resolve ◌++◌ (λ ls. ls) [] layers (some variables) ≡ record {
  merged = codes "ab";
  have_base = true;
  sources = codes "user" ∷ codes "defaults" ∷ [];
  errors = (codes "broken", 5) ∷ [];
}
unfolding resolve visit_all visit overlay default_provider missing_provider func_provider
resolved = refl

resolve_lem_example :
    let rv = resolve ◌++◌ (λ ls. ls) [] layers (some variables) in
    (rv.merged ≡ merge_values ◌++◌ [] (loaded_values (some variables) layers))
    × (rv.sources ≡ reverse (loaded_names (some variables) layers))
    × (rv.errors ≡ failures (some variables) layers)
resolve_lem_example = resolve_lem ◌++◌ (some variables) (λ ls. ls) [] layers

keg_found :
    env_load {E = ℕ} variables (codes "TAP_") (codes "KEG" ∷ codes "LOG" ∷ []) (some variables)
    ≡ value ((codes "keg", codes "home") ∷ [])
unfolding env_load collect_keys to_lower bytes_eq insert
keg_found = refl

lookup-collect_keys_example :
    lookup (collect_keys variables (codes "TAP_") (codes "KEG" ∷ codes "LOG" ∷ []) []) (codes "keg")
    ≡ last_value variables
        (codes "TAP_")
        (codes "KEG" ∷ codes "LOG" ∷ [])
        (codes "keg")
        (lookup [] (codes "keg"))
lookup-collect_keys_example =
    lookup-collect_keys variables (codes "TAP_") (codes "KEG" ∷ codes "LOG" ∷ []) [] (codes "keg")

env_load_absent_example :
    (env_load {E = ℕ} variables (codes "TAP_") (codes "LOG" ∷ []) (some variables) ≡ absent)
    ↔ All (IsUnset (lookup_or_os variables (some variables)) (codes "TAP_")) (codes "LOG" ∷ [])
env_load_absent_example =
    env_load_absent variables (codes "TAP_") (codes "LOG" ∷ []) (some variables)
