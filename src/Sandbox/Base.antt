-- ===== src/Sandbox/Base.antt =====
-- The state of a sandbox and what its methods end in (sandbox/sandbox.go). Where the code calls Fatalf, the test
-- ends there.
use cli_toolkit.Base.{List, Option}
use cli_toolkit.Clock.{Scheduler}
use cli_toolkit.OsFs.Calls.{Call}
use cli_toolkit.Runtime.Base.{Environment, FileSystem, Fault, Outcome, done, fail, Runtime}
use cli_toolkit.Sandbox.Embed.{Entries}

-- Sandbox: `clock` is the runtime's clock where it is a TestClock, `fixtures` is the embedded file system and
-- `copied` lists the calls of the host that copying fixtures made; the last is no field of the code.
pub record Sandbox (E : Environment) (F : FileSystem) : Type 0 where
  pub rt : Runtime E F
  pub clock : Option Scheduler
  pub fixtures : Entries
  pub copied : List Call

-- What a method ends in. `stuck` is no end of the code's: the model of a clock's loop ran out of fuel.
pub data Answer {ℓ} (A : Type ℓ) : Type ℓ where
  returned : A → Answer A
  failed : Fault → Answer A
  no_jail fatal stuck : Answer A

abbrev pub M {ℓ} : Type 0 → Type ℓ → Type ℓ
M S A = S → S × Answer A

abbrev pub bind_answer {ℓ κ} :
    {S : Type 0} {A : Type ℓ} {B : Type κ} → S × Answer A → (A → M S B) → S × Answer B
bind_answer (s, returned a) k = k a s
bind_answer (s, failed e) k = (s, failed e)
bind_answer (s, no_jail) k = (s, no_jail)
bind_answer (s, fatal) k = (s, fatal)
bind_answer (s, stuck) k = (s, stuck)

infixl 5 ◌>>=◌ ◌>>◌
abbrev pub ◌>>=◌ {ℓ κ} : {S : Type 0} {A : Type ℓ} {B : Type κ} → M S A → (A → M S B) → M S B
◌>>=◌ m k s = bind_answer (m s) k

abbrev pub ◌>>◌ {ℓ κ} : {S : Type 0} {A : Type ℓ} {B : Type κ} → M S A → M S B → M S B
◌>>◌ m k s = bind_answer (m s) (λ _. k)

abbrev pub or_fatal {ℓ} : {A : Type ℓ} → Answer A → Answer A
or_fatal (returned a) = returned a
or_fatal (failed e) = fatal
or_fatal no_jail = fatal
or_fatal fatal = fatal
or_fatal stuck = stuck

-- A method of which every error ends the test.
abbrev pub must {ℓ} : {S : Type 0} {A : Type ℓ} → M S A → M S A
must m s = let (s', r) = m s in (s', or_fatal r)

abbrev pub from_outcome {ℓ} : {A : Type ℓ} → Outcome A → Answer A
from_outcome (done a) = returned a
from_outcome (fail e) = failed e

module _ {E : Environment} {F : FileSystem} where
  abbrev pub put_runtime {ℓ} :
      {A : Type ℓ} → Sandbox E F → Runtime E F × Outcome A → Sandbox E F × Answer A
  put_runtime s (rt, r) = (record s { rt = rt }, from_outcome r)

  -- A call of a method of the runtime.
  abbrev pub on_runtime {ℓ} :
      {A : Type ℓ} → (Runtime E F → Runtime E F × Outcome A) → M (Sandbox E F) A
  on_runtime m s = put_runtime s (m s.rt)
