-- ===== src/Log/Shared.antt =====
-- A handler made from another one shares what is logged (mylog/logger_testutils.go).
use cli_toolkit.Base.{
  ℕ, zero, suc, ◌≤◌, Bool, Bool-cases, List, [], ◌∷◌, ◌++◌, none, some, Option-cases, ◌⊎◌, inl, inr,
  ◌≡◌, refl, sym, ap, ◌∙◌, subst, arith, if◌then◌else◌, length, length-append,
}
use cli_toolkit.Log.Handler.{
  Attrs, Record, LoggedEntry, TestHandler, Store, empty_handler, handler_at, update_at, root_from,
  root_of, put_attrs, entry_of, with_entry, handle, with_attrs, matching, find_entries,
}

-- Each handler was made after its parent.
pub record IsWellFormed (s : Store) : Type 0 where
  pub parent_before : (h p : ℕ) → (handler_at s h).parent ≡ some p → suc p ≤ h

-- The handler that following the parents ends in.
data RootIs (s : Store) : ℕ → ℕ → Type 0 where
  at_root : {h : ℕ} → (handler_at s h).parent ≡ none → RootIs s h h
  above : {h p r : ℕ} → (handler_at s h).parent ≡ some p → RootIs s p r → RootIs s h r

RootIs-root_from : (s : Store) (n h : ℕ) → IsWellFormed s → h ≤ n → RootIs s h (root_from n s h)
unfolding root_from
RootIs-root_from s zero h w le = elim (Option-cases (handler_at s h).parent) [
  | inl e ↦ at_root e
  | inr (p, e) ↦ absurd (let before = w.parent_before h p e in omega arith)
]
RootIs-root_from s (suc n) h w le = elim (Option-cases (handler_at s h).parent) [
  | inl e ↦ rw e (at_root e)
  | inr (p, e) ↦
      let before = w.parent_before h p e in rw e (above e (RootIs-root_from s n p w (omega arith)))
]

same_root : (s : Store) (h r r' : ℕ) → RootIs s h r → RootIs s h r' → r ≡ r'
same_root s h r r' (at_root e) (at_root e') = refl
same_root s h r r' (at_root e) (above e' a) = absurd cc
same_root s h r r' (above e a) (at_root e') = absurd cc
same_root s h r r' (above {p = p} e a) (above {p = p'} e' a') =
    let same : p ≡ p' = cc in same_root s p' r r' (subst (λ q. RootIs s q r) same a) a'

root_not_after : (s : Store) (h r : ℕ) → IsWellFormed s → RootIs s h r → r ≤ h
root_not_after s h r w (at_root e) = omega arith
root_not_after s h r w (above {p = p} e a) =
    let before = w.parent_before h p e in let below = root_not_after s p r w a in omega arith

handler_at-append :
    (s t : Store) (h : ℕ) → suc h ≤ length s → handler_at (s ++ t) h ≡ handler_at s h
unfolding handler_at
handler_at-append [] t h le = absurd (omega arith)
handler_at-append (x ∷ s) t zero le = refl
handler_at-append (x ∷ s) t (suc h) le = handler_at-append s t h (omega arith)

handler_at_last : (s : Store) (x : TestHandler) → handler_at (s ++ x ∷ []) (length s) ≡ x
unfolding handler_at
handler_at_last [] x = refl
handler_at_last (y ∷ s) x = handler_at_last s x

handler_at-update_at :
    (s : Store) (h : ℕ) (f : TestHandler → TestHandler)
    → suc h ≤ length s
    → handler_at (update_at s h f) h ≡ f (handler_at s h)
unfolding handler_at update_at
handler_at-update_at [] h f le = absurd (omega arith)
handler_at-update_at (x ∷ s) zero f le = refl
handler_at-update_at (x ∷ s) (suc h) f le = handler_at-update_at s h f (omega arith)

root_kept :
    (s t : Store) (h r : ℕ) → IsWellFormed s → suc h ≤ length s → RootIs s h r → RootIs (s ++ t) h r
root_kept s t h r w le (at_root e) = at_root (ap (λ x. x.parent) (handler_at-append s t h le) ∙ e)
root_kept s t h r w le (above {p = p} e a) =
    let before = w.parent_before h p e in
    above (ap (λ x. x.parent) (handler_at-append s t h le) ∙ e)
      (root_kept s t p r w (omega arith) a)

matching-append :
    (pred : LoggedEntry → Bool) (es : List LoggedEntry) (e : LoggedEntry)
    → matching pred (es ++ e ∷ []) ≡ matching pred es ++ (if pred e then e ∷ [] else [])
matching-append pred [] e = refl
matching-append pred (d ∷ es) e = elim (Bool-cases (pred d)) [
  | inl h ↦ rw h (ap (λ l. d ∷ l) (matching-append pred es e))
  | inr h ↦ rw h (matching-append pred es e)
]

handler_at_outside : (s : Store) (h : ℕ) → length s ≤ h → handler_at s h ≡ empty_handler
unfolding handler_at
handler_at_outside [] h le = refl
handler_at_outside (x ∷ s) zero le = absurd (omega arith)
handler_at_outside (x ∷ s) (suc h) le = handler_at_outside s h (omega arith)

order-cases : (m n : ℕ) → (suc m ≤ n) ⊎ ((m ≡ n) ⊎ (suc n ≤ m))
order-cases zero zero = inr (inl refl)
order-cases zero (suc n) = inl (omega arith)
order-cases (suc m) zero = inr (inr (omega arith))
order-cases (suc m) (suc n) = elim (order-cases m n) [
  | inl a ↦ inl (omega arith)
  | inr (inl b) ↦ inr (inl (omega arith))
  | inr (inr c) ↦ inr (inr (omega arith))
]

-- A handler that is made from one of the store comes after it.
pub extended-IsWellFormed :
    (s : Store) (h : ℕ) (t : TestHandler)
    → IsWellFormed s
    → suc h ≤ length s
    → t.parent ≡ some h
    → IsWellFormed (s ++ t ∷ [])
extended-IsWellFormed s h t w le e = record { parent_before = before }
  where
    before : (k p : ℕ) → (handler_at (s ++ t ∷ []) k).parent ≡ some p → suc p ≤ k
    before k p f = elim (order-cases k (length s)) [
      | inl a ↦
          w.parent_before k p (sym (ap (λ x. x.parent) (handler_at-append s (t ∷ []) k a)) ∙ f)
      | inr (inl b) ↦
          let here : t.parent ≡ some p =
            sym (ap (λ x. x.parent) (ap (handler_at (s ++ t ∷ [])) b ∙ handler_at_last s t)) ∙ f in
          let same : h ≡ p = cc in omega arith
      | inr (inr c) ↦
          let nothing : none ≡ some p =
            sym (
              ap (λ x. x.parent)
                (handler_at_outside (s ++ t ∷ []) k (omega (arith, length-append s (t ∷ [])))))
            ∙ f in
          absurd cc
    ]

-- What the handler `child` made from `h` logs is found at the handler that `h` itself logs to.
root_of-child :
    (s : Store) (h : ℕ) (t : TestHandler)
    → IsWellFormed s
    → suc h ≤ length s
    → t.parent ≡ some h
    → root_of (s ++ t ∷ []) (length s) ≡ root_of s h
unfolding root_of
root_of-child s h t w le e =
    let s' = s ++ t ∷ [] in
    let w' = extended-IsWellFormed s h t w le e in
    let up_one = ap (λ x. x.parent) (handler_at_last s t) ∙ e in
    same_root s' (length s) (root_from (length s) s' (length s)) (root_from h s h)
      (RootIs-root_from s' (length s) (length s) w' (omega arith))
      (above up_one
        (root_kept s (t ∷ []) h (root_from h s h) w le (RootIs-root_from s h h w (omega arith))))

found_at_root :
    (s : Store) (h : ℕ) (t : TestHandler) (r : Record) (pred : LoggedEntry → Bool)
    → IsWellFormed s
    → suc h ≤ length s
    → t.parent ≡ some h
    → find_entries (handle (s ++ t ∷ []) (length s) r) (root_of s h) pred
      ≡ find_entries s (root_of s h) pred ++ (if pred (entry_of t r) then entry_of t r ∷ [] else [])
unfolding find_entries handle
found_at_root s h t r pred w le e =
    let s' = s ++ t ∷ [] in
    let top = root_of s h in
    let below : top ≤ h =
      unfold root_of in
      root_not_after s h (root_from h s h) w (RootIs-root_from s h h w (omega arith)) in
    let long = length-append s (t ∷ []) in
    rw (root_of-child s h t w le e, handler_at_last s t)
      (ap (λ x. matching pred x.entries)
          (handler_at-update_at s' top (with_entry (entry_of t r)) (omega arith)
            ∙ ap (with_entry (entry_of t r)) (handler_at-append s (t ∷ []) top (omega arith)))
        ∙ matching-append pred (handler_at s top).entries (entry_of t r))

-- A handler that WithAttrs made from a handler of the store: what it logs is found, after what was there
-- and as far as it satisfies the predicate, at the root of the handler that it was made from; and the
-- entry has the attributes of that handler, those given, and those of the record, the later ones in
-- place of earlier ones of the same key.
pub find_entries-handle-with_attrs :
    (s : Store) (h : ℕ) (attrs : Attrs) (r : Record) (pred : LoggedEntry → Bool)
    → IsWellFormed s
    → suc h ≤ length s
    → let (s', child) = with_attrs s h attrs in
      let e : LoggedEntry = record {
        level = r.level;
        message = r.message;
        stamp = r.stamp;
        attrs = put_attrs (put_attrs [] ((handler_at s h).attrs ++ attrs)) r.attrs;
      } in
      find_entries (handle s' child r) (root_of s h) pred
      ≡ find_entries s (root_of s h) pred ++ (if pred e then e ∷ [] else [])
unfolding with_attrs entry_of
find_entries-handle-with_attrs s h attrs r pred w le =
    found_at_root s h
      (record { entries = []; attrs = (handler_at s h).attrs ++ attrs; parent = some h }) r pred w
      le refl
