-- ===== src/OsFs/Escape.antt =====
-- What a method of a jailed `OsFS` hands the host: paths with the names of the jail in front, which have passed the
-- checks of links that belong to the call (toolkit/filesystem/os_fs.go).
use cli_toolkit.Base.{
  Bool, true, false, [], ◌∷◌, ◌++◌, some, ◌≡◌, ◌≢◌, HasPrefix, append-nil, refl, sym, ap, ◌∙◌,
  subst, arith, Bytes, ◌⊎◌, inl, inr, Option-cases, is_blank,
}
use cli_toolkit.FilePath.{is_abs, elems, clean, join}
use cli_toolkit.FilePath.Clean.{clean-clean}
use cli_toolkit.Jail.{is_in_jail}
use cli_toolkit.Jail.Boundary.{is_abs-not_empty, is_in_jail_sound}
use cli_toolkit.OsFs.{
  get_jail, canonical_jail, resolve_virtual, host_path, resolve_host, create_in_jail,
  resolve_host_for_create, open_link, open_in_jail, resolve_host_for_open,
}
use cli_toolkit.OsFs.Base.{
  Host, OsFs, Result, ok, err, M, ◌>>=◌, pure, Lstat, found, missing, failed, file, directory,
  symlink,
}
use cli_toolkit.OsFs.Calls.{Call}
use cli_toolkit.OsFs.Checked.{Linkless, Attached, Opened, Safe}
use cli_toolkit.OsFs.Methods.{
  perform, setwd, enter, Method, do_read_file, do_write_file, do_mkdir, do_remove, do_rename,
  do_stat, do_read_dir, do_symlink, do_append_file, do_open_file, do_chmod, do_chown, do_lchown,
  do_chtimes, do_atomic_write,
}
use cli_toolkit.OsFs.Virtual.{IsAbsolute, elems-host_path, is_abs-canonical_jail}
use cli_toolkit.OsFs.Create.{create_in_jail_sound}
use cli_toolkit.OsFs.Confined.{
  is_abs-not_blank, IsReady, Post, Keeps, Keeps-bind, Post-result, IsVirtual, Inside,
  get_jail-Keeps, resolve_virtual-Keeps, FollowedBelow, resolve_virtual-FollowedBelow,
}

module _ (host : Host) (jail full h : Bytes) where
  open_link-eq-ok :
      open_link host jail full ≡ ok h
      → (host.eval_symlinks full ≡ some h) × (is_in_jail (canonical_jail host jail) h ≡ true)
  unfolding open_link
  open_link-eq-ok d = elim (Option-cases (host.eval_symlinks full)) [
    | inl e ↦ absurd (ground arith)
    | inr (q, e) ↦ ground arith
  ]

  open_in_jail-eq-ok :
      is_blank jail ≡ false
      → open_in_jail host jail full ≡ ok h
      → ((host.lstat full ≢ found symlink) × (h ≡ full))
        ⊎ ((host.lstat full ≡ found symlink) × (open_link host jail full ≡ ok h))
  unfolding open_in_jail
  open_in_jail-eq-ok set d = on_lstat (host.lstat full) refl
    where
      on_lstat :
          (l : Lstat)
          → host.lstat full ≡ l
          → ((host.lstat full ≢ found symlink) × (h ≡ full))
            ⊎ ((host.lstat full ≡ found symlink) × (open_link host jail full ≡ ok h))
      on_lstat missing e = inl (λ f. cc (e, f), ground arith)
      on_lstat failed e = inl (λ f. cc (e, f), ground arith)
      on_lstat (found file) e = inl (λ f. cc (e, f), ground arith)
      on_lstat (found directory) e = inl (λ f. cc (e, f), ground arith)
      on_lstat (found symlink) e = inr (e, ground arith)

module _ (host : Host) (ha : IsAbsolute host) (jail : Bytes) (hj : is_abs jail ≡ true) where
  abbrev pub Within : Bytes → Type 0
  Within = Inside host jail

  jailed_host_path : (v : Bytes) → host_path jail v ≡ clean (join (jail ∷ v ∷ []))
  jailed_host_path v = unfold host_path in rw (is_abs-not_empty jail hj)

  host_path-Within : (v : Bytes) → IsVirtual v → Within (host_path jail v)
  host_path-Within v (va, vc) =
      let (a, e) = elems-host_path jail v hj va vc in rw (jailed_host_path v) (a, inl (elems v, e))

  create-Attached :
      (v h : Bytes)
      → IsVirtual v
      → create_in_jail host jail (host_path jail v) ≡ ok h
      → Attached host jail h
  create-Attached v h (va, vc) done =
      let (a, e) = elems-host_path jail v hj va vc in
      let full = clean (join (jail ∷ v ∷ [])) in
      elim (create_in_jail_sound host ha jail full (elems v) hj a (clean-clean _) e
        (is_abs-not_blank jail hj) h
        (ap (create_in_jail host jail) (sym (jailed_host_path v)) ∙ done)) [
          | inl (same, none_below) ↦ (
            full,
            (elems v, e),
            inl (same, e ∙ ap (λ es. elems jail ++ es) none_below ∙ append-nil (elems jail)),
          )
          | inr made ↦ (full, (elems v, e), inr made)
        ]

  create-Within :
      (v h : Bytes) → IsVirtual v → create_in_jail host jail (host_path jail v) ≡ ok h → Within h
  create-Within v h (va, vc) done =
      let (a, e) = elems-host_path jail v hj va vc in
      let full = clean (join (jail ∷ v ∷ [])) in
      elim (create_in_jail_sound host ha jail full (elems v) hj a (clean-clean _) e
        (is_abs-not_blank jail hj) h
        (ap (create_in_jail host jail) (sym (jailed_host_path v)) ∙ done)) [
          | inl (same, _) ↦ rw same (a, inl (elems v, e))
          | inr (_, names, rest, _, _, _, _, h_abs, h_elems) ↦ (h_abs, inr (rest ++ names, h_elems))
        ]

  open_link-below :
      (full h : Bytes)
      → is_abs full ≡ true
      → open_link host jail full ≡ ok h
      → (host.eval_symlinks full ≡ some h)
        × (is_abs h ≡ true)
        × HasPrefix (elems (canonical_jail host jail)) (elems h)
  open_link-below full h hf done =
      let (e, inside) = open_link-eq-ok host jail full h done in
      let h_abs = ha.eval_abs full h hf e in
      let (rest, below, _) =
        is_in_jail_sound (canonical_jail host jail) h (is_abs-canonical_jail host ha jail hj) h_abs
          inside in
      (e, h_abs, (rest, below))

  open-Opened :
      (full h : Bytes)
      → Within full
      → Attached host jail full
      → open_in_jail host jail full ≡ ok h
      → Within h × Opened host jail h
  open-Opened full h w made done =
      elim (open_in_jail-eq-ok host jail full h (is_abs-not_blank jail hj) done) [
        | inl (no_link, same) ↦ (rw same w, (full, made, inl (no_link, same)))
        | inr (link, linked) ↦
            let (e, h_abs, below) = open_link-below full h w.0 linked in
            ((h_abs, inr below), (full, made, inr (link, e, below)))
      ]

  followed-Linkless :
      (v : Bytes) → FollowedBelow host ha jail hj v → Linkless host jail (host_path jail v)
  followed-Linkless v (full, below, (resolved, e, va, vc, same)) =
      let (_, names) = elems-host_path jail v hj va vc in
      (full, resolved, elems v, below, e, same, ap elems (jailed_host_path v) ∙ names)

  followed-Within : (v : Bytes) → FollowedBelow host ha jail hj v → Within (host_path jail v)
  followed-Within v (full, below, (resolved, e, va, vc, same)) = host_path-Within v (va, vc)

  pub resolve_host-Keeps :
      (path : Bytes) (follow : Bool) → Keeps jail Within (resolve_host host path follow)
  unfolding resolve_host
  resolve_host-Keeps path follow =
      Keeps-bind jail IsVirtual Within (resolve_virtual host path follow) _
        (resolve_virtual-Keeps host ha jail hj path follow)
        λ v hv.
          Keeps-bind jail (λ j. j ≡ jail) Within get_jail _ (get_jail-Keeps host ha jail hj)
            λ j e fs r. (r, subst (λ k. Within (host_path k v)) (sym e) (host_path-Within v hv))

  resolve_host-Linkless :
      (path : Bytes)
      → Keeps jail (λ h. Within h × Linkless host jail h) (resolve_host host path true)
  unfolding resolve_host
  resolve_host-Linkless path =
      let Q = λ (h : Bytes). Within h × Linkless host jail h in
      Keeps-bind jail (FollowedBelow host ha jail hj) Q (resolve_virtual host path true) _
        (resolve_virtual-FollowedBelow host ha jail hj path)
        λ v hv.
          Keeps-bind jail (λ j. j ≡ jail) Q get_jail _ (get_jail-Keeps host ha jail hj)
            λ j e fs r. (
              r,
              subst (λ k. Q (host_path k v)) (sym e) (followed-Within v hv, followed-Linkless v hv),
            )

  resolve_host_for_create-Keeps :
      (path : Bytes)
      → Keeps jail (λ h. Within h × Attached host jail h) (resolve_host_for_create host path)
  unfolding resolve_host_for_create
  resolve_host_for_create-Keeps path =
      let Q = λ (h : Bytes). Within h × Attached host jail h in
      Keeps-bind jail IsVirtual Q (resolve_virtual host path false) _
        (resolve_virtual-Keeps host ha jail hj path false)
        λ v hv.
          Keeps-bind jail (λ j. j ≡ jail) Q get_jail _ (get_jail-Keeps host ha jail hj)
            λ j e fs r. Post-result jail Q fs (create_in_jail host j (host_path j v)) r λ h done.
              let done' = ap (λ k. create_in_jail host k (host_path k v)) (sym e) ∙ done in
              (create-Within v h hv done', create-Attached v h hv done')

  resolve_host_for_open-Keeps :
      (path : Bytes)
      → Keeps jail (λ h. Within h × Opened host jail h) (resolve_host_for_open host path)
  unfolding resolve_host_for_open
  resolve_host_for_open-Keeps path =
      let Q = λ (h : Bytes). Within h × Opened host jail h in
      Keeps-bind jail (λ h. Within h × Attached host jail h) Q (resolve_host_for_create host path) _
        (resolve_host_for_create-Keeps path)
        λ full w.
          Keeps-bind jail (λ j. j ≡ jail) Q get_jail _ (get_jail-Keeps host ha jail hj)
            λ j e fs r. Post-result jail Q fs (open_in_jail host j full) r λ h done.
              open-Opened full h w.0 w.1 (ap (λ k. open_in_jail host k full) (sym e) ∙ done)

  -- One resolved path, one call that names it.
  one_path :
      (Q : Bytes → Type 0) (m : M Bytes) (c : Bytes → Call)
      → Keeps jail Q m
      → ((h : Bytes) → Q h → Safe host jail (c h))
      → Keeps jail (Safe host jail) (m >>= λ h. pure (c h))
  one_path Q m c hm hc =
      Keeps-bind jail Q (Safe host jail) m (λ h. pure (c h)) hm λ h w fs r. (r, hc h w)

  pub perform-Keeps : (method : Method) → Keeps jail (Safe host jail) (perform host method)
  unfolding perform
  perform-Keeps (do_read_file p) = one_path _ _ _ (resolve_host-Linkless p) λ h w. ((w.0, tt), w.1)
  perform-Keeps (do_write_file p bytes perm) =
      one_path _ _ _ (resolve_host_for_open-Keeps p) λ h w. ((w.0, tt), w.1)
  perform-Keeps (do_mkdir p perm true) =
      one_path _ _ _ (resolve_host_for_create-Keeps p) λ h w. ((w.0, tt), w.1)
  perform-Keeps (do_mkdir p perm false) =
      one_path _ _ _ (resolve_host_for_create-Keeps p) λ h w. ((w.0, tt), w.1)
  perform-Keeps (do_remove p true) =
      one_path _ _ _ (resolve_host_for_create-Keeps p) λ h w. ((w.0, tt), w.1)
  perform-Keeps (do_remove p false) =
      one_path _ _ _ (resolve_host_for_create-Keeps p) λ h w. ((w.0, tt), w.1)
  perform-Keeps (do_rename src dst) =
      Keeps-bind jail _ (Safe host jail) (resolve_host_for_create host src) _
        (resolve_host_for_create-Keeps src)
        λ p wp.
          one_path _ _ _ (resolve_host_for_create-Keeps dst)
            λ q wq. ((wp.0, (wq.0, tt)), (wp.1, wq.1))
  perform-Keeps (do_stat p true) = one_path _ _ _ (resolve_host-Linkless p) λ h w. ((w.0, tt), w.1)
  perform-Keeps (do_stat p false) =
      one_path _ _ _ (resolve_host_for_create-Keeps p) λ h w. ((w.0, tt), w.1)
  perform-Keeps (do_read_dir p) = one_path _ _ _ (resolve_host-Linkless p) λ h w. ((w.0, tt), w.1)
  perform-Keeps (do_symlink old_name new_name) =
      Keeps-bind jail Within (Safe host jail) (resolve_host host old_name false) _
        (resolve_host-Keeps old_name false)
        λ p wp.
          one_path _ _ _ (resolve_host_for_create-Keeps new_name) λ q wq. ((wp, (wq.0, tt)), wq.1)
  perform-Keeps (do_append_file p bytes perm) =
      one_path _ _ _ (resolve_host_for_open-Keeps p) λ h w. ((w.0, tt), w.1)
  perform-Keeps (do_open_file p flag perm) =
      one_path _ _ _ (resolve_host_for_open-Keeps p) λ h w. ((w.0, tt), w.1)
  perform-Keeps (do_chmod p mode) = one_path _ _ _ (resolve_host-Linkless p) λ h w. ((w.0, tt), w.1)
  perform-Keeps (do_chown p uid gid) =
      one_path _ _ _ (resolve_host-Linkless p) λ h w. ((w.0, tt), w.1)
  perform-Keeps (do_lchown p uid gid) =
      one_path _ _ _ (resolve_host_for_create-Keeps p) λ h w. ((w.0, tt), w.1)
  perform-Keeps (do_chtimes p atime mtime) =
      one_path _ _ _ (resolve_host-Linkless p) λ h w. ((w.0, tt), w.1)
  perform-Keeps (do_atomic_write p bytes perm) =
      one_path _ _ _ (resolve_host_for_open-Keeps p) λ h w. ((w.0, tt), w.1)

  enter-Keeps :
      (v : Bytes) (l : Lstat) → is_abs v ≡ true → Keeps jail (λ _. Unit {0}) (enter host v l)
  unfolding enter
  enter-Keeps v failed hv fs r = r
  enter-Keeps v missing hv fs r = ((r.0, inr hv), tt)
  enter-Keeps v (found directory) hv fs r = ((r.0, inr hv), tt)
  enter-Keeps v (found file) hv fs r = r
  enter-Keeps v (found symlink) hv fs r = r

  pub setwd-Keeps : (path : Bytes) → Keeps jail (λ _. Unit {0}) (setwd host path)
  unfolding setwd
  setwd-Keeps path =
      Keeps-bind jail IsVirtual (λ _. Unit {0}) (resolve_virtual host path false) _
        (resolve_virtual-Keeps host ha jail hj path false)
        λ v hv.
          Keeps-bind jail (λ j. j ≡ jail) (λ _. Unit {0}) get_jail _
            (get_jail-Keeps host ha jail hj) λ j e. enter-Keeps v (host.stat (host_path j v)) hv.0

pub post-eq-ok {ℓ} :
    {A : Type ℓ} (jail : Bytes) (Q : A → Type 0) (o : OsFs × Result A) (fs : OsFs) (a : A)
    → Post jail Q o
    → o ≡ (fs, ok a)
    → Q a
post-eq-ok jail Q o fs a h e = (subst (Post jail Q) e h).1

pub Post-IsReady {ℓ} :
    {A : Type ℓ} (jail : Bytes) (Q : A → Type 0) (o : OsFs × Result A)
    → Post jail Q o
    → IsReady jail o.0
Post-IsReady jail Q (fs, ok a) h = h.0
Post-IsReady jail Q (fs, err e) h = h

pub perform_confined :
    (host : Host) (method : Method) (fs : OsFs) {fs' : OsFs} {call : Call}
    → IsAbsolute host
    → is_abs fs.jail ≡ true
    → (is_blank fs.wd ≡ true) ⊎ (is_abs fs.wd ≡ true)
    → perform host method fs ≡ (fs', ok call)
    → Safe host fs.jail call
perform_confined host method fs {fs'} {call} absolute jailed wd h =
    post-eq-ok fs.jail _ (perform host method fs) fs' call
      (perform-Keeps host absolute fs.jail jailed method fs (refl, wd)) h

-- No method, and no change of directory, moves an absolute jail, whether it succeeds or fails; and the
-- working directory stays unset or absolute.
methods_keep_jail :
    (host : Host) (method : Method) (path : Bytes) (fs : OsFs)
    → IsAbsolute host
    → is_abs fs.jail ≡ true
    → (is_blank fs.wd ≡ true) ⊎ (is_abs fs.wd ≡ true)
    → IsReady fs.jail (perform host method fs).0 × IsReady fs.jail (setwd host path fs).0
methods_keep_jail host method path fs absolute jailed wd = (
  Post-IsReady fs.jail _ (perform host method fs)
      (perform-Keeps host absolute fs.jail jailed method fs (refl, wd)),
  Post-IsReady fs.jail _ (setwd host path fs)
      (setwd-Keeps host absolute fs.jail jailed path fs (refl, wd)),
)
