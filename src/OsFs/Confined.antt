-- ===== src/OsFs/Confined.antt =====
-- A jailed `OsFS` as a whole: a postcondition with a rule for `>>=`, and the resolvers and methods
-- against it.
use cli_toolkit.Base.{
  Bool, true, false, [], ◌∷◌, ◌++◌, ◌≡◌, refl, sym, ap, ◌∙◌, subst, arith, Bytes, if◌then◌else◌,
  ◌⊎◌, inl, inr, is_blank, HasPrefix,
}
use cli_toolkit.FilePath.{is_abs, elems, clean, join}
use cli_toolkit.Jail.{root}
use cli_toolkit.Jail.Boundary.{is_abs-root, starts_dotdot}
use cli_toolkit.OsFs.{
  get_jail, ensure_initialized, canonical_jail, lexical, resolve_in, resolve_virtual,
}
use cli_toolkit.OsFs.Base.{Host, OsFs, escape_attempt, Result, ok, err, M, ◌>>=◌, bind_result}
use cli_toolkit.OsFs.Virtual.{
  IsAbsolute, is_abs-lexical, clean-lexical, resolve_in-lexical, resolve_in-Followed, Followed,
  elems-host_path,
}

-- An absolute path is no white space.
pub is_abs-not_blank : (p : Bytes) → is_abs p ≡ true → is_blank p ≡ false
unfolding is_abs is_blank
is_abs-not_blank [] h = cc
is_abs-not_blank (c ∷ p) h = ground arith

-- The state of an `OsFS` with the jail `jail`.
abbrev pub IsReady : Bytes → OsFs → Type 0
IsReady jail fs = (fs.jail ≡ jail) × ((is_blank fs.wd ≡ true) ⊎ (is_abs fs.wd ≡ true))

-- Whatever comes out, the state is as good as it was, and a result has the property.
abbrev pub Post {ℓ} : {A : Type ℓ} → Bytes → (A → Type 0) → OsFs × Result A → Type 0
Post jail Q (fs, ok a) = IsReady jail fs × Q a
Post jail Q (fs, err e) = IsReady jail fs

abbrev pub Keeps {ℓ} : {A : Type ℓ} → Bytes → (A → Type 0) → M A → Type 0
Keeps jail Q m = (fs : OsFs) → IsReady jail fs → Post jail Q (m fs)

Post-bind {ℓ κ} :
    {A : Type ℓ} {B : Type κ} (jail : Bytes) (Q : A → Type 0) (R : B → Type 0) (k : A → M B)
    (o : OsFs × Result A)
    → Post jail Q o
    → ((a : A) → Q a → Keeps jail R (k a))
    → Post jail R (bind_result o k)
Post-bind jail Q R k (fs, ok a) (r, q) hk = hk a q fs r
Post-bind jail Q R k (fs, err e) r hk = r

pub Keeps-bind {ℓ κ} :
    {A : Type ℓ} {B : Type κ} (jail : Bytes) (Q : A → Type 0) (R : B → Type 0) (m : M A)
    (k : A → M B)
    → Keeps jail Q m
    → ((a : A) → Q a → Keeps jail R (k a))
    → Keeps jail R (m >>= k)
Keeps-bind jail Q R m k hm hk fs r = Post-bind jail Q R k (m fs) (hm fs r) hk

-- A result with no effect on the state.
pub Post-result {ℓ} :
    {A : Type ℓ} (jail : Bytes) (Q : A → Type 0) (fs : OsFs) (o : Result A)
    → IsReady jail fs
    → ((a : A) → o ≡ ok a → Q a)
    → Post jail Q (fs, o)
Post-result jail Q fs (ok a) r h = (r, h a refl)
Post-result jail Q fs (err e) r h = r

-- An absolute path in its clean form.
abbrev pub IsVirtual : Bytes → Type 0
IsVirtual v = (is_abs v ≡ true) × (clean v ≡ v)

-- An absolute path of the host with the jail's names first, in the jail's own spelling or the host's.
abbrev pub Inside : Host → Bytes → Bytes → Type 0
Inside host jail h =
    (is_abs h ≡ true)
    × (HasPrefix (elems jail) (elems h) ⊎ HasPrefix (elems (canonical_jail host jail)) (elems h))

module _ (host : Host) (ha : IsAbsolute host) (jail : Bytes) (hj : is_abs jail ≡ true) where
  pub get_jail-Keeps : Keeps jail (λ j. j ≡ jail) get_jail
  unfolding get_jail
  get_jail-Keeps fs r = (r, r.0)

  -- A jailed state is initialised with no call of the host, to an absolute working directory.
  pub resolve_virtual-initialized :
      (path : Bytes) (follow : Bool) (fs : OsFs)
      → IsReady jail fs
      → (wd : Bytes) × (is_abs wd ≡ true)
        × (resolve_virtual host path follow fs
            ≡ (record fs { wd = wd }, resolve_in host fs.jail wd path follow))
  unfolding resolve_virtual ensure_initialized
  resolve_virtual-initialized path follow fs (same, inl blank) =
      (root, is_abs-root, rw (blank, ap is_blank same ∙ is_abs-not_blank jail hj))
  resolve_virtual-initialized path follow fs (same, inr wd_abs) =
      (fs.wd, wd_abs, rw (is_abs-not_blank fs.wd wd_abs))

  -- What holds of every result of the resolver in an absolute working directory.
  resolve_virtual-any :
      (Q : Bytes → Type 0) (path : Bytes) (follow : Bool)
      → ((wd v : Bytes) → is_abs wd ≡ true → resolve_in host jail wd path follow ≡ ok v → Q v)
      → Keeps jail Q (resolve_virtual host path follow)
  resolve_virtual-any Q path follow hq fs (same, w) =
      let (wd, hw, e) = resolve_virtual-initialized path follow fs (same, w) in
      subst (Post jail Q) (sym e) (
        Post-result jail Q (record fs { wd = wd }) (resolve_in host fs.jail wd path follow)
          (same, inr hw)
          λ v h. hq wd v hw (ap (λ j. resolve_in host j wd path follow) (sym same) ∙ h))

  not_escaped :
      (wd path v : Bytes) (b : Bool)
      → (if b
          then err (escape_attempt (clean (join (jail ∷ lexical wd path ∷ []))))
          else ok (lexical wd path))
        ≡ ok v
      → lexical wd path ≡ v
  not_escaped wd path v true h = cc
  not_escaped wd path v false h = cc

  IsVirtual-unfollowed :
      (path wd v : Bytes)
      → is_abs wd ≡ true
      → resolve_in host jail wd path false ≡ ok v
      → IsVirtual v
  IsVirtual-unfollowed path wd v hw h =
      let lex : lexical wd path ≡ v =
        not_escaped wd path v (starts_dotdot (elems (lexical wd path)))
          (sym (resolve_in-lexical host jail wd path hj (inr hw)) ∙ h) in
      (
        ap is_abs (sym lex) ∙ is_abs-lexical wd path (inr hw),
        subst (λ x. clean x ≡ x) lex (clean-lexical wd path),
      )

  places :
      (wd path : Bytes)
      → is_abs wd ≡ true
      → (is_abs (clean (join (jail ∷ lexical wd path ∷ []))) ≡ true)
        × (elems (clean (join (jail ∷ lexical wd path ∷ [])))
            ≡ elems jail ++ elems (lexical wd path))
  places wd path hw =
      elems-host_path jail (lexical wd path) hj (is_abs-lexical wd path (inr hw))
        (clean-lexical wd path)

  -- What a followed path comes to, where the path itself has the names of the jail in front.
  abbrev pub FollowedBelow : Bytes → Type 0
  FollowedBelow v = (full : Bytes) × HasPrefix (elems jail) (elems full) × Followed host jail full v

  pub resolve_virtual-FollowedBelow :
      (path : Bytes) → Keeps jail FollowedBelow (resolve_virtual host path true)
  resolve_virtual-FollowedBelow path = resolve_virtual-any FollowedBelow path true λ wd v hw h. (
    clean (join (jail ∷ lexical wd path ∷ [])),
    (elems (lexical wd path), (places wd path hw).1),
    resolve_in-Followed host ha jail wd path v hj (inr hw) h,
  )

  pub resolve_virtual-Keeps :
      (path : Bytes) (follow : Bool) → Keeps jail IsVirtual (resolve_virtual host path follow)
  resolve_virtual-Keeps path true = resolve_virtual-any IsVirtual path true λ wd v hw h.
      let (_, _, v_abs, v_clean, _) = resolve_in-Followed host ha jail wd path v hj (inr hw) h in
      (v_abs, v_clean)
  resolve_virtual-Keeps path false =
      resolve_virtual-any IsVirtual path false (IsVirtual-unfollowed path)
