-- ===== src/Expand/Tests.antt =====
-- Texts with variables of each spelling.
use cli_toolkit.Base.{[], ◌≡◌, refl, Bytes, codes, if◌then◌else◌, bytes_eq}
use cli_toolkit.Expand.{
  has_close, start_name, start_output, plain_mode, plain_output, step, finish, expand_in,
  expand_env,
}

abbrev get : Bytes → Bytes
get key =
    if bytes_eq key (codes "HOME")
    then codes "/home/bob"
    else if bytes_eq key (codes "$")
    then codes "7"
    else []

each_spelling :
    expand_env get (codes "$HOME/a-${HOME}-$$-$ -${}-$NO-$")
    ≡ codes "/home/bob/a-/home/bob-7-$ ---$"
unfolding expand_env expand_in step finish has_close start_name start_output plain_mode plain_output
    bytes_eq
each_spelling = refl

unclosed_eaten : expand_env get (codes "a${HOME$HOME") ≡ codes "aHOME/home/bob"
unfolding expand_env expand_in step finish has_close start_name start_output plain_mode plain_output
    bytes_eq
unclosed_eaten = refl
