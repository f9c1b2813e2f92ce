-- ===== src/Jail/Prefix.antt =====
-- RemoveJailPrefix: the way back from a path of the host to a path of the jail.
use cli_toolkit.Base.{
  true, false, List, [], ◌∷◌, ◌≡◌, refl, sym, ap, ◌∙◌, Bytes, All, is_empty, bytes_eq, Bool-cases,
  inl, inr, append-nil,
}
use mathlib.Core.List.{reverse-reverse}
use cli_toolkit.FilePath.Split.{Lacks, slash, split}
use cli_toolkit.FilePath.{is_abs, push, push_all, elems, render, clean, join, strip_common}
use cli_toolkit.FilePath.Clean.{
  IsPlain, elems-All-IsPlain, elems-clean, is_abs-clean, clean-eq, push_all-split-render,
  push_all-IsPlain,
}
use cli_toolkit.FilePath.Join.{elems-join, elems-join-clean, is_abs-join, clean-join}
use cli_toolkit.FilePath.Rel.{ups, rel-is_abs, rel_mixed, All-strip_common, strip_common-append}
use cli_toolkit.Jail.{remove_jail_prefix, root}
use cli_toolkit.Jail.Boundary.{is_abs-not_empty}

ups-Lacks : (bs ts : List Bytes) → All IsPlain ts → All (Lacks slash) (ups bs ts)
ups-Lacks [] [] h = tt
ups-Lacks [] (t ∷ ts) (ht, h) = (ht.3, ups-Lacks [] ts h)
ups-Lacks (b ∷ bs) ts h = ((refl, (refl, tt)), ups-Lacks bs ts h)

-- At the root every `..` is dropped.
push_all-ups : (bs ts : List Bytes) → push_all true [] (ups bs ts) ≡ push_all true [] ts
unfolding push_all push bytes_eq
push_all-ups [] ts = refl
push_all-ups (b ∷ bs) ts = push_all-ups bs ts

elems-join-root :
    (bs ts : List Bytes) → All IsPlain ts → elems (join (root ∷ render false (ups bs ts) ∷ [])) ≡ ts
elems-join-root bs ts h = rw (elems-join root (render false (ups bs ts)) refl) (
    unfold elems is_abs split push_all push in
    rw (
      push_all-split-render true false [] (ups bs ts) (ups-Lacks bs ts h),
      push_all-ups bs ts,
      push_all-IsPlain true [] ts h,
      append-nil,
      reverse-reverse,
    ))

module _ (j p : Bytes) (hj : is_abs j ≡ true) (hp : is_abs p ≡ true) where
  remove_jail_prefix-join :
      remove_jail_prefix j p
      ≡ join (
          root
          ∷ render false
              (ups (strip_common (elems j) (elems p)).0 (strip_common (elems j) (elems p)).1)
          ∷ [])
  unfolding remove_jail_prefix
  remove_jail_prefix-join = rw (
    is_abs-not_empty (clean j) (is_abs-clean j ∙ hj),
    rel-is_abs (clean j) (clean p) (is_abs-clean j ∙ hj) (is_abs-clean p ∙ hp),
    elems-clean j,
    elems-clean p,
  )

  -- Between absolute paths the result is the root followed by the names of the path behind the longest
  -- prefix that it shares with the jail, whether or not the path is in the jail.
  pub elems-remove_jail_prefix :
      (is_abs (remove_jail_prefix j p) ≡ true)
      × (elems (remove_jail_prefix j p) ≡ (strip_common (elems j) (elems p)).1)
  elems-remove_jail_prefix =
      let parts =
        All-strip_common IsPlain (elems j) (elems p) (elems-All-IsPlain j hj)
          (elems-All-IsPlain p hp) in
      rw remove_jail_prefix-join
        (is_abs-join root _ refl ∙ (unfold is_abs in refl), elems-join-root _ _ parts.1)

  pub clean-remove_jail_prefix : clean (remove_jail_prefix j p) ≡ remove_jail_prefix j p
  clean-remove_jail_prefix = rw (remove_jail_prefix-join, clean-join root _ refl)

-- A cleaned path placed below the jail comes back as it was.
pub remove_jail_prefix-join-clean :
    (j v : Bytes)
    → is_abs j ≡ true
    → is_abs v ≡ true
    → remove_jail_prefix j (join (j ∷ clean v ∷ [])) ≡ clean v
remove_jail_prefix-join-clean j v hj hv =
    let full = is_abs-not_empty j hj in
    let host = is_abs-join j (clean v) full ∙ hj in
    let back = elems-remove_jail_prefix j (join (j ∷ clean v ∷ [])) hj host in
    sym (clean-remove_jail_prefix j (join (j ∷ clean v ∷ [])) hj host)
    ∙ clean-eq _ v (back.0 ∙ sym hv) (
        back.1
        ∙ ap (λ es. (strip_common (elems j) es).1) (elems-join-clean j v full hv)
        ∙ ap (λ s. s.1) (strip_common-append (elems j) (elems v)))

-- A path of a relative kind is only cleaned.
pub remove_jail_prefix_mixed :
    (j p : Bytes) → is_abs j ≡ false → is_abs p ≡ true → remove_jail_prefix j p ≡ clean p
unfolding remove_jail_prefix
remove_jail_prefix_mixed j p hj hp = elim (Bool-cases (is_empty (clean j))) [
  | inl e ↦ rw e
  | inr e ↦ rw (e, rel_mixed (clean j) (clean p) (is_abs-clean j ∙ hj) (is_abs-clean p ∙ hp))
]
