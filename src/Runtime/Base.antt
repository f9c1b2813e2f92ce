-- ===== src/Runtime/Base.antt =====
-- What Runtime is built on: the interfaces Env and FileSystem as records of operations over a state of
-- their own, the runtime's state, and its methods' results (toolkit/runtime.go, toolkit/env/env.go,
-- toolkit/filesystem/filesystem.go).
use cli_toolkit.Base.{ℕ, Bool, List, Option, none, some, Bytes, if◌then◌else◌}
use cli_toolkit.OsFs.Base.{Error, Result, ok, err}
use cli_toolkit.OsFs.Calls.{Call}
use cli_toolkit.OsFs.Methods.{Method}

-- Env. An operation that fails leaves its state as it was.
pub record Environment : Type 1 where
  pub State : Type 0
  pub get_jail : State → Bytes
  pub set_jail : Bytes → State → Option State
  pub get : State → Bytes → Bytes
  pub set : Bytes → Bytes → State → Option State
  pub has : State → Bytes → Bool
  pub unset : Bytes → State → State
  pub get_home : State → Option Bytes
  pub set_home : Bytes → State → Option State
  pub get_user : State → Option Bytes
  pub set_user : Bytes → State → Option State
  pub getwd : State → Option Bytes
  pub setwd : Bytes → State → Option State
  pub get_temp_dir : State → Bytes

-- The calls that were made of the host, the first one first, each with the runtime's jail of that moment.
abbrev pub History : Type 0
History = List (Bytes × Call)

-- FileSystem. `act` is a method on files up to the call of the host that it ends in. What the host answers may
-- depend on the calls that were made of it before.
pub record FileSystem : Type 1 where
  pub State : Type 0
  pub get_jail : State → Bytes
  pub set_jail : Bytes → History → State → State × Result (Unit {0})
  pub getwd : History → State → State × Result Bytes
  pub setwd : Bytes → History → State → State × Result (Unit {0})
  pub resolve_path : Bytes → Bool → History → State → State × Result Bytes
  pub act : Method → History → State → State × Result Call
  pub rel : Bytes → Bytes → History → State → State × Result Bytes
  pub glob : Bytes → History → State → State × Result (List Bytes)

-- What a method of the runtime fails with. `call_failed` is an error that the host gave to a call.
pub data Fault : Type 0 where
  nil_runtime nil_env nil_fs nil_clock nil_logger nil_stream nil_hasher : Fault
  env_failed : Fault
  fs_failed : Error → Fault
  call_failed : Call → Fault

pub data Outcome {ℓ} (A : Type ℓ) : Type ℓ where
  done : A → Outcome A
  fail : Fault → Outcome A

-- Runtime. A pointer that may be nil is an Option; loggers, streams and hashers are told apart by
-- numbers, since Runtime only hands them on. `calls` is no field of the code: it lists the calls of
-- the host that were made so far, each with the runtime's jail of that moment.
pub record Runtime (E : Environment) (F : FileSystem) : Type 0 where
  pub env : Option E.State
  pub fs : Option F.State
  pub clock : Option ℕ
  pub logger : Option ℕ
  pub stream : Option ℕ
  pub hasher : Option ℕ
  pub process : Option ℕ
  pub jail : Bytes
  pub wd : Bytes
  pub calls : History

-- A method: the state afterwards, and the result or the error.
abbrev pub M {ℓ} : Type 0 → Type ℓ → Type ℓ
M S A = S → S × Outcome A

abbrev pub bind_outcome {ℓ κ} :
    {S : Type 0} {A : Type ℓ} {B : Type κ} → S × Outcome A → (A → M S B) → S × Outcome B
bind_outcome (s, done a) k = k a s
bind_outcome (s, fail e) k = (s, fail e)

infixl 5 ◌>>=◌ ◌>>◌
abbrev pub ◌>>=◌ {ℓ κ} : {S : Type 0} {A : Type ℓ} {B : Type κ} → M S A → (A → M S B) → M S B
◌>>=◌ m k s = bind_outcome (m s) k

abbrev pub ◌>>◌ {ℓ κ} : {S : Type 0} {A : Type ℓ} {B : Type κ} → M S A → M S B → M S B
◌>>◌ m k s = bind_outcome (m s) (λ _. k)

abbrev pub pure {ℓ} : {S : Type 0} {A : Type ℓ} → A → M S A
pure a s = (s, done a)

abbrev pub throw {ℓ} : {S : Type 0} {A : Type ℓ} → Fault → M S A
throw e s = (s, fail e)

abbrev pub gets {ℓ} : {S : Type 0} {A : Type ℓ} → (S → A) → M S A
gets f s = (s, done (f s))

abbrev pub modify : {S : Type 0} → (S → S) → M S (Unit {0})
modify f s = (f s, done tt)

-- A call of which the error is looked at.
abbrev pub attempt_on {ℓ κ} :
    {S : Type 0} {A : Type ℓ} {B : Type κ} → S × Outcome A → (Outcome A → M S B) → S × Outcome B
attempt_on (s, r) k = k r s

abbrev pub attempt {ℓ κ} :
    {S : Type 0} {A : Type ℓ} {B : Type κ} → M S A → (Outcome A → M S B) → M S B
attempt m k s = attempt_on (m s) k

-- A test of the state that must hold.
abbrev pub need : {S : Type 0} → (S → Bool) → Fault → M S (Unit {0})
need test e s = (s, (if test s then done tt else fail e))

-- A result of the file system's, and one of the environment's.
abbrev pub from_fs {ℓ} : {A : Type ℓ} → Result A → Outcome A
from_fs (ok a) = done a
from_fs (err e) = fail (fs_failed e)

abbrev pub from_env {ℓ} : {A : Type ℓ} → Option A → Outcome A
from_env none = fail env_failed
from_env (some a) = done a

abbrev pub read_env {ℓ} : {S : Type 0} {A : Type ℓ} → (S → Option A) → Option S → Outcome A
read_env f none = fail nil_env
read_env f (some s) = from_env (f s)

module _ {E : Environment} {F : FileSystem} where
  abbrev pub put_fs {ℓ} : {A : Type ℓ} → Runtime E F → F.State × Result A → Runtime E F × Outcome A
  put_fs rt (s, r) = (record rt { fs = some s }, from_fs r)

  abbrev pub run_fs {ℓ} :
      {A : Type ℓ} → (F.State → F.State × Result A) → Option F.State → M (Runtime E F) A
  run_fs f none rt = (rt, fail nil_fs)
  run_fs f (some s) rt = put_fs rt (f s)

  -- A call of a method of the file system.
  unfoldable pub on_fs {ℓ} :
      {A : Type ℓ} → (History → F.State → F.State × Result A) → M (Runtime E F) A
  on_fs f rt = run_fs (f rt.calls) rt.fs rt

  abbrev pub put_env : Runtime E F → Option E.State → Runtime E F × Outcome (Unit {0})
  put_env rt none = (rt, fail env_failed)
  put_env rt (some s) = (record rt { env = some s }, done tt)

  abbrev pub run_env : (E.State → Option E.State) → Option E.State → M (Runtime E F) (Unit {0})
  run_env f none rt = (rt, fail nil_env)
  run_env f (some s) rt = put_env rt (f s)

  -- A call of a method of the environment that changes it, and of one that reads it.
  unfoldable pub on_env : (E.State → Option E.State) → M (Runtime E F) (Unit {0})
  on_env f rt = run_env f rt.env rt

  unfoldable pub ask_env {ℓ} : {A : Type ℓ} → (E.State → Option A) → M (Runtime E F) A
  ask_env f rt = (rt, read_env f rt.env)
