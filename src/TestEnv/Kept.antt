-- ===== src/TestEnv/Kept.antt =====
-- Unset and SetJail of a test's environment keep its fields and its map together.
use cli_toolkit.Base.{
  true, [], ◌≡◌, refl, sym, ap, ◌∙◌, subst, Bytes, codes, if◌then◌else◌, ◌⊎◌, inl, inr, Bool-cases,
  is_empty, bytes_eq, bytes_eq_sound, ◌&&◌, not,
}
use cli_toolkit.Jail.{clean_jail, is_in_jail}
use cli_toolkit.TestEnv.{
  lookup, insert, delete, TestEnv, rejail, move_home, move_tmp, set_jail, unset,
}
use cli_toolkit.TestEnv.Vars.{lookup-delete, lookup-delete_other}
use cli_toolkit.TestEnv.Paths.{HasRoot, IsVirtual}
use cli_toolkit.TestEnv.Invariant.{IsSound, IsSound-insert}

unset-eq :
    (key : Bytes) (env : TestEnv)
    → ((unset key env).vars ≡ delete env.vars key)
      × ((unset key env).home ≡ (if bytes_eq key (codes "HOME") then [] else env.home))
      × ((bytes_eq key (codes "HOME") ≡ true)
          ⊎ ((unset key env).user ≡ (if bytes_eq key (codes "USER") then [] else env.user)))
unfolding unset
unset-eq key env = elim (Bool-cases (bytes_eq key (codes "HOME"))) [
  | inl a ↦ (rw a (ap (delete env.vars) (sym (bytes_eq_sound key (codes "HOME") a))), rw a, inl a)
  | inr a ↦ elim (Bool-cases (bytes_eq key (codes "USER"))) [
    | inl b ↦ (
      rw (a, b) (ap (delete env.vars) (sym (bytes_eq_sound key (codes "USER") b))),
      rw (a, b),
      inr (rw (a, b)),
    )
    | inr b ↦ (rw (a, b), rw (a, b), inr (rw (a, b)))
  ]
]

unset-user :
    (key : Bytes) (env : TestEnv)
    → (unset key env).user ≡ (if bytes_eq key (codes "USER") then [] else env.user)
unfolding unset bytes_eq
unset-user key env = elim (Bool-cases (bytes_eq key (codes "HOME"))) [
  | inl a ↦ rw (a, ap (λ k. bytes_eq k (codes "USER")) (bytes_eq_sound key (codes "HOME") a))
  | inr a ↦ elim (Bool-cases (bytes_eq key (codes "USER"))) [
    | inl b ↦ rw (a, b)
    | inr b ↦ rw (a, b)
  ]
]

pub unset-IsSound : (key : Bytes) (env : TestEnv) → IsSound env → IsSound (unset key env)
unset-IsSound key env (h, u, r) =
    let (vars, home, _) = unset-eq key env in
    (
      field (codes "HOME") env.home h ∙ sym home,
      field (codes "USER") env.user u ∙ sym (unset-user key env),
      directory,
    )
  where
    field :
        (name old : Bytes)
        → lookup env.vars name ≡ old
        → lookup (unset key env).vars name ≡ (if bytes_eq key name then [] else old)
    field name old was = elim (Bool-cases (bytes_eq key name)) [
      | inl a ↦
          rw (a, (unset-eq key env).0, bytes_eq_sound key name a) (lookup-delete env.vars name)
      | inr a ↦ rw (a, (unset-eq key env).0) (lookup-delete_other env.vars key name a ∙ was)
    ]

    directory : HasRoot (unset key env)
    directory = elim (Bool-cases (bytes_eq key (codes "PWD"))) [
      | inl a ↦ inl (field (codes "PWD") (lookup env.vars (codes "PWD")) refl ∙ (rw a))
      | inr a ↦
          let same = field (codes "PWD") (lookup env.vars (codes "PWD")) refl ∙ (rw a) in
          elim r [
            | inl none_set ↦ inl (same ∙ none_set)
            | inr virtual ↦ inr (subst IsVirtual (sym same) virtual)
          ]
    ]

move_home-IsSound : (old : Bytes) (env : TestEnv) → IsSound env → IsSound (move_home old env)
unfolding move_home bytes_eq
move_home-IsSound old env s = elim (Bool-cases (is_empty env.home)) [
  | inl e ↦ rw e s
  | inr e ↦ rw e (
      IsSound-insert env
        (record env {
          home = rejail old env.jail env.home;
          vars = insert env.vars (codes "HOME") (rejail old env.jail env.home);
        })
        (codes "HOME") (rejail old env.jail env.home) s refl (inl (refl, refl)) (inr (refl, refl))
        (inr refl))
]

move_tmp-IsSound : (old : Bytes) (env : TestEnv) → IsSound env → IsSound (move_tmp old env)
unfolding move_tmp
move_tmp-IsSound old env s =
    elim (Bool-cases (
      not (is_empty (lookup env.vars (codes "TMPDIR")))
      && (not (is_empty old) && is_in_jail old (lookup env.vars (codes "TMPDIR"))))) [
        | inl e ↦ rw e moved
        | inr e ↦ rw e s
      ]
  where
    moved : IsSound (record env {
      vars =
          insert env.vars (codes "TMPDIR") (rejail old env.jail (lookup env.vars (codes "TMPDIR")));
    })
    moved =
        IsSound-insert env
          (record env {
            vars =
                insert env.vars (codes "TMPDIR")
                  (rejail old env.jail (lookup env.vars (codes "TMPDIR")));
          })
          (codes "TMPDIR") (rejail old env.jail (lookup env.vars (codes "TMPDIR"))) s refl
          (inr (unfold bytes_eq in refl, refl)) (inr (unfold bytes_eq in refl, refl))
          (inr (unfold bytes_eq in refl))

pub set_jail-IsSound : (new : Bytes) (env : TestEnv) → IsSound env → IsSound (set_jail new env)
unfolding set_jail
set_jail-IsSound new env s =
    move_tmp-IsSound env.jail (move_home env.jail (record env { jail = clean_jail new }))
      (move_home-IsSound env.jail (record env { jail = clean_jail new }) s)
