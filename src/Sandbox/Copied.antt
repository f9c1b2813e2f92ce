-- ===== src/Sandbox/Copied.antt =====
-- What copyEmbedDir writes (sandbox/sandbox.go).
use cli_toolkit.Base.{
  Bool, true, false, List, [], ◌∷◌, ◌++◌, some, Bytes, bytes_eq, bytes_eq_sound, Bool-cases,
  Option-cases, ◌≡◌, refl, sym, ap, ◌∙◌, arith, inl, inr, append_assoc, append-nil,
}
use cli_toolkit.FilePath.{join}
use cli_toolkit.OsFs.Calls.{Call, os_mkdir_all, os_write_file}
use cli_toolkit.OsFs.{reattach}
use cli_toolkit.Sandbox.Embed.{
  Entries, end, file, directory, go_on, Writer, issue, copy_entries, copy_embed_dir, Node, plain,
  folder, entry, below,
}

-- The calls that write a directory's entries, each directory's before those of what is in it.
unfoldable pub planned : Entries → Bytes → List Call
planned end dst = []
planned (file name bytes rest) dst =
    os_write_file (join (dst ∷ name ∷ [])) bytes 420 ∷ planned rest dst
planned (directory name sub rest) dst =
    os_mkdir_all (join (dst ∷ name ∷ [])) 493
    ∷ (planned sub (join (dst ∷ name ∷ [])) ++ planned rest dst)

-- Calls made one after the other, up to the first that fails.
unfoldable pub issue_all : (List Call → Call → Bool) → List Call → Writer
issue_all reply [] made = (made, true)
issue_all reply (c ∷ cs) made = go_on (issue reply c made) (issue_all reply cs)

module _ (reply : List Call → Call → Bool) where
  go_on-go_on :
      (o : List Call × Bool) (k k' : Writer)
      → go_on (go_on o k) k' ≡ go_on o (λ made. go_on (k made) k')
  go_on-go_on (made, true) k k' = refl
  go_on-go_on (made, false) k k' = refl

  go_on_same :
      (o : List Call × Bool) (k k' : Writer)
      → ((made : List Call) → k made ≡ k' made)
      → go_on o k ≡ go_on o k'
  go_on_same (made, true) k k' h = h made
  go_on_same (made, false) k k' h = refl

  issue_all-append :
      (xs ys : List Call) (made : List Call)
      → issue_all reply (xs ++ ys) made ≡ go_on (issue_all reply xs made) (issue_all reply ys)
  unfolding issue_all
  issue_all-append [] ys made = refl
  issue_all-append (x ∷ xs) ys made =
      go_on_same (issue reply x made) _ _ (issue_all-append xs ys)
      ∙ sym (go_on-go_on (issue reply x made) (issue_all reply xs) (issue_all reply ys))

  copy_entries-issue_all :
      (es : Entries) (dst : Bytes) (made : List Call)
      → copy_entries reply es dst made ≡ issue_all reply (planned es dst) made
  unfolding copy_entries planned issue_all
  copy_entries-issue_all end dst made = refl
  copy_entries-issue_all (file name bytes rest) dst made =
      go_on_same (issue reply _ made) _ _ (copy_entries-issue_all rest dst)
  copy_entries-issue_all (directory name sub rest) dst made =
      let here = join (dst ∷ name ∷ []) in
      let first = issue reply (os_mkdir_all here 493) made in
      go_on-go_on first (copy_entries reply sub here) (copy_entries reply rest dst)
      ∙ go_on_same first _ _ λ made'.
        ap (λ o. go_on o (copy_entries reply rest dst)) (copy_entries-issue_all sub here made')
        ∙ go_on_same (issue_all reply (planned sub here) made') _ _
            (copy_entries-issue_all rest dst)
        ∙ sym (issue_all-append (planned sub here) (planned rest dst) made')

  -- Copying a tree makes the directory itself and then the calls planned for its entries, in that order and
  -- up to the first call that fails; it succeeds where none does.
  pub copy_embed_dir-issue_all :
      (es : Entries) (dst : Bytes) (made : List Call)
      → copy_embed_dir reply es dst made
        ≡ issue_all reply (os_mkdir_all dst 493 ∷ planned es dst) made
  unfolding copy_embed_dir issue_all
  copy_embed_dir-issue_all es dst made =
      go_on_same (issue reply _ made) _ _ (copy_entries-issue_all es dst)

-- `part` stands in `cs`, in one piece.
abbrev Infix : List Call → List Call → Type 0
Infix part cs = (xs : List Call) × (ys : List Call) × (cs ≡ xs ++ (part ++ ys))

-- In `cs` the call `c` stands before `d`.
abbrev pub Before : Call → Call → List Call → Type 0
Before c d cs =
    (xs : List Call) × (ys : List Call) × (zs : List Call) × (cs ≡ xs ++ (c ∷ (ys ++ (d ∷ zs))))

Infix-cons : (x : Call) (part cs : List Call) → Infix part cs → Infix part (x ∷ cs)
Infix-cons x part cs (xs, ys, e) = (x ∷ xs, ys, ap (λ l. x ∷ l) e)

Infix-append : (ls part cs : List Call) → Infix part cs → Infix part (ls ++ cs)
Infix-append ls part cs (xs, ys, e) =
    (ls ++ xs, ys, ap (λ l. ls ++ l) e ∙ sym (append_assoc ls xs (part ++ ys)))

-- The calls planned for one entry.
abbrev planned_node : Bytes → Node → List Call
planned_node p (plain bytes) = os_write_file p bytes 420 ∷ []
planned_node p (folder es) = os_mkdir_all p 493 ∷ planned es p

renamed :
    (dst n name : Bytes) (es : Entries) (found node : Node)
    → n ≡ name
    → found ≡ node
    → Infix (planned_node (join (dst ∷ n ∷ [])) found) (planned es dst)
    → Infix (planned_node (join (dst ∷ name ∷ [])) node) (planned es dst)
renamed dst n name es found node same at = rw (same, at) (λ i. i)

Infix-planned :
    (es : Entries) (dst name : Bytes) (node : Node)
    → entry es name ≡ some node
    → Infix (planned_node (join (dst ∷ name ∷ [])) node) (planned es dst)
unfolding entry planned
Infix-planned end dst name node = λ h. absurd (cc h)
Infix-planned (file n bytes rest) dst name node = elim (Bool-cases (bytes_eq n name)) [
  | inl e ↦ rw e (λ h.
      renamed dst n name (file n bytes rest) (plain bytes) node (bytes_eq_sound n name e) (cc h)
        ([], planned rest dst, refl))
  | inr e ↦ rw e (λ h. Infix-cons _ _ _ (Infix-planned rest dst name node h))
]
Infix-planned (directory n sub rest) dst name node = elim (Bool-cases (bytes_eq n name)) [
  | inl e ↦ rw e (λ h.
      renamed dst n name (directory n sub rest) (folder sub) node (bytes_eq_sound n name e) (cc h)
        ([], planned rest dst, refl))
  | inr e ↦ rw e (λ h.
      Infix-cons _ _ _ (Infix-append (planned sub _) _ _ (Infix-planned rest dst name node h)))
]

-- A path of names that leads to a file passes its first name.
below-entry :
    (es : Entries) (name : Bytes) (names : List Bytes) (node : Node)
    → below (folder es) (name ∷ names) ≡ some node
    → (next : Node) × (entry es name ≡ some next) × (below next names ≡ some node)
unfolding below
below-entry es name names node h = elim (Option-cases (entry es name)) [
  | inl e ↦ absurd (ground arith)
  | inr (next, e) ↦ (next, e, passed next e ∙ h)
]
  where
    passed :
        (next : Node)
        → entry es name ≡ some next
        → below next names ≡ below (folder es) (name ∷ names)
    passed next e = rw (below, e) refl

below-plain :
    (bytes : Bytes) (names : List Bytes) (name : Bytes) (node : Node)
    → below (plain bytes) (names ++ name ∷ []) ≡ some node
    → ⊥
unfolding below
below-plain bytes [] name node h = cc h
below-plain bytes (n ∷ names) name node h = cc h

Before-Infix : (c d : Call) (part cs : List Call) → Before c d part → Infix part cs → Before c d cs
Before-Infix c d part cs (xs, ys, zs, e) (ls, rs, f) =
    (ls ++ xs, ys, zs ++ rs, rw (f, e) (simp append_assoc))

-- Each file below a copied directory is written with its contents, behind the call that makes the directory it
-- is in.
pub Before-planned :
    (es : Entries) (dst : Bytes) (names : List Bytes) (name bytes : Bytes)
    → below (folder es) (names ++ name ∷ []) ≡ some (plain bytes)
    → Before
        (os_mkdir_all (reattach dst names) 493)
        (os_write_file (join (reattach dst names ∷ name ∷ [])) bytes 420)
        (os_mkdir_all dst 493 ∷ planned es dst)
unfolding below reattach
Before-planned es dst [] name bytes h =
    let (node, at, same) = below-entry es name [] (plain bytes) h in
    let (xs, ys, e) = Infix-planned es dst name (plain bytes) (at ∙ same) in
    ([], xs, ys, ap (λ cs. os_mkdir_all dst 493 ∷ cs) e)
Before-planned es dst (n ∷ names) name bytes h =
    let (node, at, rest) = below-entry es n (names ++ name ∷ []) (plain bytes) h in
    on_node (λ sub inner. Before-planned sub (join (dst ∷ n ∷ [])) names name bytes inner) node at
      rest
  where
    on_node :
        ((sub : Entries)
          → below (folder sub) (names ++ name ∷ []) ≡ some (plain bytes)
          → Before
              (os_mkdir_all (reattach (join (dst ∷ n ∷ [])) names) 493)
              (os_write_file (join (reattach (join (dst ∷ n ∷ [])) names ∷ name ∷ [])) bytes 420)
              (os_mkdir_all (join (dst ∷ n ∷ [])) 493 ∷ planned sub (join (dst ∷ n ∷ []))))
        → (node : Node) → entry es n ≡ some node
        → below node (names ++ name ∷ []) ≡ some (plain bytes)
        → Before
            (os_mkdir_all (reattach (join (dst ∷ n ∷ [])) names) 493)
            (os_write_file (join (reattach (join (dst ∷ n ∷ [])) names ∷ name ∷ [])) bytes 420)
            (os_mkdir_all dst 493 ∷ planned es dst)
    on_node inside (plain other) at rest = absurd (below-plain other names name (plain bytes) rest)
    on_node inside (folder sub) at rest =
        let here = join (dst ∷ n ∷ []) in
        let written = os_write_file (join (reattach here names ∷ name ∷ [])) bytes 420 in
        Before-Infix (os_mkdir_all (reattach here names) 493) written
          (os_mkdir_all here 493 ∷ planned sub here) (os_mkdir_all dst 493 ∷ planned es dst)
          (inside sub rest)
          (Infix-cons (os_mkdir_all dst 493) (os_mkdir_all here 493 ∷ planned sub here)
            (planned es dst) (Infix-planned es dst n (folder sub) at))

module _ (reply : List Call → Call → Bool) where
  made_by :
      (o : List Call × Bool) (k : Writer) (result : List Call)
      → go_on o k ≡ (result, true)
      → (o.1 ≡ true) × (k o.0 ≡ (result, true))
  made_by (made, true) k result h = (refl, h)
  made_by (made, false) k result h = absurd cc

  issue_all-eq-true :
      (cs made result : List Call) → issue_all reply cs made ≡ (result, true) → result ≡ made ++ cs
  unfolding issue_all issue
  issue_all-eq-true [] made result h = ap (λ o. o.0) (sym h) ∙ sym (append-nil made)
  issue_all-eq-true (c ∷ cs) made result h =
      issue_all-eq-true cs (made ++ c ∷ []) result
        (made_by (issue reply c made) (issue_all reply cs) result h).1
      ∙ append_assoc made (c ∷ []) cs

  -- Where a fixture's tree is copied with success, each file of the tree has been written to its place with its
  -- contents, behind the call that made the directory above it.
  pub copy_embed_dir_written :
      (es : Entries) (dst : Bytes) (made result : List Call) (names : List Bytes)
      (name bytes : Bytes)
      → copy_embed_dir reply es dst made ≡ (result, true)
      → below (folder es) (names ++ name ∷ []) ≡ some (plain bytes)
      → Before
          (os_mkdir_all (reattach dst names) 493)
          (os_write_file (join (reattach dst names ∷ name ∷ [])) bytes 420)
          result
  copy_embed_dir_written es dst made result names name bytes done h =
      let calls = os_mkdir_all dst 493 ∷ planned es dst in
      let same =
        issue_all-eq-true calls made result
          (sym (copy_embed_dir-issue_all reply es dst made) ∙ done) in
      Before-Infix _ _ calls result (Before-planned es dst names name bytes h)
        (made, [], same ∙ ap (λ cs. made ++ cs) (sym (append-nil calls)))
