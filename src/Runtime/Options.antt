-- ===== src/Runtime/Options.antt =====
-- NewRuntime and its options (toolkit/runtime.go).
use cli_toolkit.Base.{ℕ, List, [], ◌∷◌, Option, none, some, Bytes}
use cli_toolkit.Jail.{clean_jail}
use cli_toolkit.Runtime.{validate, normalize_state}
use cli_toolkit.Runtime.Base.{
  Environment, FileSystem, nil_env, nil_fs, nil_clock, nil_logger, nil_stream, nil_hasher, Runtime,
  M, ◌>>◌, pure, throw, modify,
}

-- RuntimeOption: `none` is the nil that an option refuses. A process is given by its value.
pub data RuntimeOption (E : Environment) (F : FileSystem) : Type 0 where
  with_env : Option E.State → RuntimeOption E F
  with_fs : Option F.State → RuntimeOption E F
  with_clock with_logger with_stream with_hasher : Option ℕ → RuntimeOption E F
  with_process : ℕ → RuntimeOption E F
  with_jail : Bytes → RuntimeOption E F

module _ (E : Environment) (F : FileSystem) where
  unfoldable pub apply_option : RuntimeOption E F → M (Runtime E F) (Unit {0})
  apply_option (with_env none) = throw nil_env
  apply_option (with_env (some s)) = modify (λ rt. record rt { env = some s })
  apply_option (with_fs none) = throw nil_fs
  apply_option (with_fs (some s)) = modify (λ rt. record rt { fs = some s })
  apply_option (with_clock none) = throw nil_clock
  apply_option (with_clock (some c)) = modify (λ rt. record rt { clock = some c })
  apply_option (with_logger none) = throw nil_logger
  apply_option (with_logger (some l)) = modify (λ rt. record rt { logger = some l })
  apply_option (with_stream none) = throw nil_stream
  apply_option (with_stream (some s)) = modify (λ rt. record rt { stream = some s })
  apply_option (with_hasher none) = throw nil_hasher
  apply_option (with_hasher (some h)) = modify (λ rt. record rt { hasher = some h })
  apply_option (with_process p) = modify (λ rt. record rt { process = some p })
  apply_option (with_jail jail_path) = modify (λ rt. record rt { jail = clean_jail jail_path })

  -- The loop of NewRuntime; an option that is nil is passed over.
  unfoldable pub apply_options : List (Option (RuntimeOption E F)) → M (Runtime E F) (Unit {0})
  unfolding apply_option
  apply_options [] = pure tt
  apply_options (none ∷ opts) = apply_options opts
  apply_options (some opt ∷ opts) = do apply_option opt; apply_options opts

  -- NewRuntime, from the runtime with its defaults.
  unfoldable pub new_runtime : List (Option (RuntimeOption E F)) → M (Runtime E F) (Unit {0})
  unfolding apply_options
  new_runtime opts = do apply_options opts; normalize_state E F; validate E F

  -- SetClock, SetLogger, SetStream and SetHasher, which refuse nil and else do what the options do.
  unfoldable pub set_clock : Option ℕ → M (Runtime E F) (Unit {0})
  unfolding apply_option
  set_clock c = apply_option (with_clock c)

  unfoldable pub set_logger : Option ℕ → M (Runtime E F) (Unit {0})
  unfolding apply_option
  set_logger l = apply_option (with_logger l)

  unfoldable pub set_stream : Option ℕ → M (Runtime E F) (Unit {0})
  unfolding apply_option
  set_stream s = apply_option (with_stream s)

  unfoldable pub set_hasher : Option ℕ → M (Runtime E F) (Unit {0})
  unfolding apply_option
  set_hasher h = apply_option (with_hasher h)
