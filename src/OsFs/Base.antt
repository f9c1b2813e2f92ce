-- ===== src/OsFs/Base.antt =====
-- The state of `OsFS`, its errors, and the host that it asks: toolkit/filesystem/os_fs.go.
use cli_toolkit.Base.{Bool, true, false, List, Option, Bytes}

-- What os.Lstat and os.Stat tell of a path, as far as the code looks.
pub data Kind : Type 0 where
  file directory symlink : Kind

-- `missing` is an error that os.IsNotExist accepts, `failed` any other.
pub data Lstat : Type 0 where
  found : Kind → Lstat
  missing failed : Lstat

abbrev pub is_symlink : Kind → Bool
is_symlink symlink = true
is_symlink file = false
is_symlink directory = false

abbrev pub is_dir : Kind → Bool
is_dir directory = true
is_dir file = false
is_dir symlink = false

-- os.Getwd, os.Lstat, os.Stat, filepath.EvalSymlinks and filepath.Glob on the host; `none` is an error.
pub record Host : Type 0 where
  pub getwd : Option Bytes
  pub lstat : Bytes → Lstat
  pub stat : Bytes → Lstat
  pub eval_symlinks : Bytes → Option Bytes
  pub glob : Bytes → Option (List Bytes)

pub record OsFs : Type 0 where
  pub jail : Bytes
  pub wd : Bytes

-- `stuck` is no error of the code: the model of a loop ran out of fuel.
pub data Error : Type 0 where
  escape_attempt : Bytes → Error
  os_error not_a_directory stuck : Error

pub data Result {ℓ} (A : Type ℓ) : Type ℓ where
  ok : A → Result A
  err : Error → Result A

-- A method: the state afterwards, and the result or the error.
abbrev pub M {ℓ} : Type ℓ → Type ℓ
M A = OsFs → OsFs × Result A

infixl 5 ◌>>=◌ ◌>>◌
abbrev pub bind_result {ℓ κ} :
    {A : Type ℓ} {B : Type κ} → OsFs × Result A → (A → M B) → OsFs × Result B
bind_result (fs, ok a) k = k a fs
bind_result (fs, err e) k = (fs, err e)

abbrev pub ◌>>=◌ {ℓ κ} : {A : Type ℓ} {B : Type κ} → M A → (A → M B) → M B
◌>>=◌ m k fs = bind_result (m fs) k

abbrev pub ◌>>◌ {ℓ κ} : {A : Type ℓ} {B : Type κ} → M A → M B → M B
◌>>◌ m k fs = bind_result (m fs) (λ _. k)

abbrev pub pure {ℓ} : {A : Type ℓ} → A → M A
pure a fs = (fs, ok a)

abbrev pub throw {ℓ} : {A : Type ℓ} → Error → M A
throw e fs = (fs, err e)

abbrev pub gets {ℓ} : {A : Type ℓ} → (OsFs → A) → M A
gets f fs = (fs, ok (f fs))
