-- ===== src/Runtime/Reach.antt =====
-- The methods of `Runtime` that change its state as steps, and what holds after any number of them.
use cli_toolkit.Base.{
  ℕ, Bool, true, false, Option, none, some, Bytes, ◌≡◌, sym, ◌∙◌, subst, inl, inr,
}
use cli_toolkit.FilePath.{is_abs, clean}
use cli_toolkit.FilePath.Clean.{is_abs-clean, clean-clean}
use cli_toolkit.OsFs.Methods.{
  do_read_file, do_write_file, do_mkdir, do_remove, do_rename, do_stat, do_read_dir, do_symlink,
  do_append_file, do_open_file, do_chmod, do_chown, do_lchown, do_chtimes, do_atomic_write,
}
use cli_toolkit.Runtime.{
  getwd, setwd, set_jail, abs_path, resolve_path, relative_path, set, set_home, set_user, unset,
}
use cli_toolkit.Runtime.Base.{Environment, FileSystem, Runtime, M}
use cli_toolkit.Runtime.Files.{Reply}
use cli_toolkit.Runtime.Files
use cli_toolkit.Runtime.Glob.{glob, glob-Keeps}
use cli_toolkit.Runtime.Options.{apply_option, set_clock, set_logger, set_stream, set_hasher}
use cli_toolkit.Runtime.Contract.{IsEnvironment, IsFileSystem, InJail, Keeps, FsReady-FsValid}
use cli_toolkit.Runtime.Kept.{getwd-Keeps}
use cli_toolkit.Runtime.Confined.{
  setwd-Keeps, abs_path-Keeps, resolve_path-Keeps, relative_path-Keeps, set-Keeps, set_home-Keeps,
  set_user-Keeps, unset-Keeps, act_at-Keeps, act_below-Keeps, act_between-Keeps, rel_between-Keeps,
}
use cli_toolkit.Runtime.Sync.{set_jail-InJail, set_jail-branches}

-- The methods with their arguments, SetJail included; Clone makes another runtime.
pub data Operation : Type 0 where
  op_set_jail op_setwd op_abs_path op_set_home op_set_user op_unset op_glob : Bytes → Operation
  op_getwd : Operation
  op_resolve_path : Bytes → Bool → Operation
  op_relative_path op_set op_rename op_symlink op_rel : Bytes → Bytes → Operation
  op_read_file op_read_dir : Bytes → Operation
  op_write_file op_append_file op_atomic_write_file : Bytes → Bytes → ℕ → Operation
  op_open_file op_chown op_lchown op_chtimes : Bytes → ℕ → ℕ → Operation
  op_mkdir : Bytes → ℕ → Bool → Operation
  op_remove op_stat : Bytes → Bool → Operation
  op_chmod : Bytes → ℕ → Operation
  op_set_clock op_set_logger op_set_stream op_set_hasher : Option ℕ → Operation

module _ (E : Environment) (F : FileSystem) (reply : Reply) where
  abbrev after {ℓ} : {A : Type ℓ} → M (Runtime E F) A → Runtime E F → Runtime E F
  after m rt = (m rt).0

  -- The state that a method leaves.
  unfoldable pub run : Operation → Runtime E F → Runtime E F
  run (op_set_jail p) = after (set_jail E F p)
  run (op_setwd p) = after (setwd E F p)
  run (op_abs_path p) = after (abs_path E F p)
  run (op_set_home p) = after (set_home E F p)
  run (op_set_user n) = after (set_user E F n)
  run (op_unset k) = after (unset E F k)
  run op_getwd = after (getwd E F)
  run (op_glob p) = after (glob E F p)
  run (op_resolve_path p follow) = after (resolve_path E F p follow)
  run (op_relative_path b p) = after (relative_path E F b p)
  run (op_set k v) = after (set E F k v)
  run (op_rename p q) = after (Files.rename E F reply p q)
  run (op_symlink p q) = after (Files.symlink E F reply p q)
  run (op_rel p q) = after (Files.rel_between E F reply p q)
  run (op_read_file p) = after (Files.read_file E F reply p)
  run (op_read_dir p) = after (Files.read_dir E F reply p)
  run (op_write_file p b m) = after (Files.write_file E F reply p b m)
  run (op_append_file p b m) = after (Files.append_file E F reply p b m)
  run (op_atomic_write_file p b m) = after (Files.atomic_write_file E F reply p b m)
  run (op_open_file p f m) = after (Files.open_file E F reply p f m)
  run (op_chown p u g) = after (Files.chown E F reply p u g)
  run (op_lchown p u g) = after (Files.lchown E F reply p u g)
  run (op_chtimes p a m) = after (Files.chtimes E F reply p a m)
  run (op_mkdir p m all) = after (Files.mkdir E F reply p m all)
  run (op_remove p all) = after (Files.remove E F reply p all)
  run (op_stat p follow) = after (Files.stat E F reply p follow)
  run (op_chmod p m) = after (Files.chmod E F reply p m)
  run (op_set_clock c) = after (set_clock E F c)
  run (op_set_logger l) = after (set_logger E F l)
  run (op_set_stream s) = after (set_stream E F s)
  run (op_set_hasher h) = after (set_hasher E F h)

  -- The paths that SetJail is given are absolute.
  abbrev pub Allowed : Operation → Type 0
  Allowed (op_set_jail p) = is_abs p ≡ true
  Allowed other = Unit {0}

  -- A method is called, and succeeds or fails.
  pub data Step : Runtime E F → Runtime E F → Type 0 where
    call_method : {rt : Runtime E F} (op : Operation) → Allowed op → Step rt (run op rt)

  pub data Reach (start : Runtime E F) : Runtime E F → Type 0 where
    here : Reach start start
    then_step : {rt rt' : Runtime E F} → Reach start rt → Step rt rt' → Reach start rt'

  module _ (le : IsEnvironment E) (lf : IsFileSystem F) where
    -- The parts are in one jail, an absolute path in its clean form.
    abbrev pub Together : Runtime E F → Type 0
    Together rt = (j : Bytes) × (is_abs j ≡ true) × (clean j ≡ j) × InJail E F lf j rt

    set_jail-Together :
        (p : Bytes) (rt : Runtime E F)
        → is_abs p ≡ true
        → Together rt
        → Together (set_jail E F p rt).0
    set_jail-Together p rt hp (j, hj, hc, h) = elim (set_jail-branches E F p rt) [
      | inl valid ↦ (
        clean p,
        is_abs-clean p ∙ hp,
        clean-clean p,
        set_jail-InJail E F le lf p rt hp valid (FsReady-FsValid E F lf j rt.fs h.1) h.3,
      )
      | inr same ↦ subst Together (sym same) (j, hj, hc, h)
    ]

    kept :
        {A : Type 0} (m : M (Runtime E F) A) (rt : Runtime E F)
        → ((j : Bytes) → is_abs j ≡ true → clean j ≡ j → Keeps E F lf j m)
        → Together rt
        → Together (after m rt)
    unfolding Keeps
    kept m rt hm (j, hj, hc, h) = (j, hj, hc, hm j hj hc rt h)

    run-Together :
        (op : Operation) (rt : Runtime E F) → Allowed op → Together rt → Together (run op rt)
    unfolding run Files.rename Files.symlink Files.read_file Files.read_dir Files.write_file
        Files.append_file Files.atomic_write_file Files.open_file Files.chown Files.lchown
        Files.chtimes Files.mkdir Files.remove Files.stat Files.chmod set_clock set_logger
        set_stream set_hasher apply_option
    run-Together (op_set_jail p) rt hp t = set_jail-Together p rt hp t
    run-Together (op_setwd p) rt _ t = kept _ rt (λ j hj hc. setwd-Keeps E F lf j le hj hc p) t
    run-Together (op_abs_path p) rt _ t =
        kept _ rt (λ j hj hc. abs_path-Keeps E F lf j le hj hc p) t
    run-Together (op_set_home p) rt _ t =
        kept _ rt (λ j hj hc. set_home-Keeps E F lf j le hj hc p) t
    run-Together (op_set_user n) rt _ t =
        kept _ rt (λ j hj hc. set_user-Keeps E F lf j le hj hc n) t
    run-Together (op_unset k) rt _ t = kept _ rt (λ j hj hc. unset-Keeps E F lf j le hj hc k) t
    run-Together (op_glob p) rt _ t = kept _ rt (λ j hj hc. glob-Keeps E F lf j le hj hc p) t
    run-Together op_getwd rt _ t = kept _ rt (λ j hj hc. getwd-Keeps E F lf j le hj hc) t
    run-Together (op_resolve_path p follow) rt _ t =
        kept _ rt (λ j hj hc. resolve_path-Keeps E F lf j le hj hc p follow) t
    run-Together (op_relative_path b p) rt _ t =
        kept _ rt (λ j hj hc. relative_path-Keeps E F lf j le hj hc b p) t
    run-Together (op_set k v) rt _ t = kept _ rt (λ j hj hc. set-Keeps E F lf j le hj hc k v) t
    run-Together (op_rename p q) rt _ t =
        kept _ rt (λ j hj hc. act_between-Keeps E F lf j le hj hc reply p q do_rename) t
    run-Together (op_symlink p q) rt _ t =
        kept _ rt (λ j hj hc. act_between-Keeps E F lf j le hj hc reply p q do_symlink) t
    run-Together (op_rel p q) rt _ t =
        kept _ rt (λ j hj hc. rel_between-Keeps E F lf j le hj hc reply p q) t
    run-Together (op_read_file p) rt _ t =
        kept _ rt (λ j hj hc. act_at-Keeps E F lf j le hj hc reply p false do_read_file) t
    run-Together (op_read_dir p) rt _ t =
        kept _ rt (λ j hj hc. act_at-Keeps E F lf j le hj hc reply p false do_read_dir) t
    run-Together (op_write_file p b m) rt _ t =
        kept _ rt (λ j hj hc. act_below-Keeps E F lf j le hj hc reply p (λ p. do_write_file p b m))
          t
    run-Together (op_append_file p b m) rt _ t =
        kept _ rt (λ j hj hc. act_below-Keeps E F lf j le hj hc reply p (λ p. do_append_file p b m))
          t
    run-Together (op_atomic_write_file p b m) rt _ t =
        kept _ rt
          (λ j hj hc. act_at-Keeps E F lf j le hj hc reply p false (λ p. do_atomic_write p b m)) t
    run-Together (op_open_file p f m) rt _ t =
        kept _ rt (λ j hj hc. act_below-Keeps E F lf j le hj hc reply p (λ p. do_open_file p f m)) t
    run-Together (op_chown p u g) rt _ t =
        kept _ rt (λ j hj hc. act_at-Keeps E F lf j le hj hc reply p false (λ p. do_chown p u g)) t
    run-Together (op_lchown p u g) rt _ t =
        kept _ rt (λ j hj hc. act_at-Keeps E F lf j le hj hc reply p false (λ p. do_lchown p u g)) t
    run-Together (op_chtimes p a m) rt _ t =
        kept _ rt (λ j hj hc. act_at-Keeps E F lf j le hj hc reply p false (λ p. do_chtimes p a m))
          t
    run-Together (op_mkdir p m all) rt _ t =
        kept _ rt (λ j hj hc. act_at-Keeps E F lf j le hj hc reply p false (λ p. do_mkdir p m all))
          t
    run-Together (op_remove p all) rt _ t =
        kept _ rt (λ j hj hc. act_at-Keeps E F lf j le hj hc reply p false (λ p. do_remove p all)) t
    run-Together (op_stat p follow) rt _ t =
        kept _ rt (λ j hj hc. act_at-Keeps E F lf j le hj hc reply p follow (λ p. do_stat p follow))
          t
    run-Together (op_chmod p m) rt _ t =
        kept _ rt (λ j hj hc. act_at-Keeps E F lf j le hj hc reply p false (λ p. do_chmod p m)) t
    run-Together (op_set_clock none) rt _ t = t
    run-Together (op_set_clock (some c)) rt _ t = t
    run-Together (op_set_logger none) rt _ t = t
    run-Together (op_set_logger (some c)) rt _ t = t
    run-Together (op_set_stream none) rt _ t = t
    run-Together (op_set_stream (some c)) rt _ t = t
    run-Together (op_set_hasher none) rt _ t = t
    run-Together (op_set_hasher (some c)) rt _ t = t

    Step-Together : {rt rt' : Runtime E F} → Step rt rt' → Together rt → Together rt'
    Step-Together (call_method {rt = rt} op allowed) t = run-Together op rt allowed t

    -- Over any environment and file system with the laws, every sequence of calls of one runtime's methods but
    -- Clone that gives SetJail absolute paths only keeps the runtime, its environment and its file system in one
    -- jail together, and each call that the file system makes inside the jail of its moment.
    pub Reach-Together : {start rt : Runtime E F} → Reach start rt → Together start → Together rt
    Reach-Together here t = t
    Reach-Together (then_step r step) t = Step-Together step (Reach-Together r t)
