-- ===== src/User/Tests.antt =====
-- A user whose home is known and whose directory for state is spelled with a detour.
use cli_toolkit.Base.{[], some, ◌≡◌, refl, codes, if◌then◌else◌, bytes_eq}
use cli_toolkit.User.{Env, user_state_path}

abbrev bob : Env
bob = record {
  get = λ key. if bytes_eq key (codes "XDG_STATE_HOME") then codes "/var/../state" else [];
  get_home = some (codes "/home/bob");
}

state_not_cleaned : user_state_path bob ≡ some (codes "/var/../state")
unfolding user_state_path bytes_eq
state_not_cleaned = refl
