-- ===== src/Sandbox/Below.antt =====
-- Where copyEmbedDir writes (sandbox/sandbox.go).
use cli_toolkit.Base.{
  Option, none, some, subst, Bool-cases, inl, inr, bytes_eq, Bool, true, false, List, [], ◌∷◌, ◌++◌,
  Bytes, ◌≡◌, refl, ap, ◌∙◌, All, HasPrefix, All-append, append_assoc,
}
use cli_toolkit.FilePath.{join, elems, is_abs}
use cli_toolkit.FilePath.Clean.{IsPlain}
use cli_toolkit.FilePath.Join.{elems-join-IsPlain, is_abs-join}
use cli_toolkit.Jail.Boundary.{is_abs-not_empty}
use cli_toolkit.OsFs.Calls.{Call, os_mkdir_all, targets}
use cli_toolkit.Sandbox.Embed.{
  Node, plain, folder, entry, below, Entries, end, file, directory, go_on, Writer, issue,
  copy_embed_dir,
}
use cli_toolkit.Sandbox.Copied.{planned, issue_all, copy_embed_dir-issue_all}

-- The names of a tree are ordinary: none is empty, `.` or `..`, or has a separator.
abbrev pub HasNames : Entries → Type 0
HasNames end = Unit
HasNames (file name bytes rest) = IsPlain name × HasNames rest
HasNames (directory name sub rest) = IsPlain name × HasNames sub × HasNames rest

-- An absolute path that begins with the names of a directory, and a call that names such paths only.
abbrev pub IsBelow : Bytes → Bytes → Type 0
IsBelow dir p = (is_abs p ≡ true) × HasPrefix (elems dir) (elems p)

abbrev pub CallBelow : Bytes → Call → Type 0
CallBelow dir c = All (IsBelow dir) (targets c)

IsBelow-join :
    (dir dst name : Bytes) → IsBelow dir dst → IsPlain name → IsBelow dir (join (dst ∷ name ∷ []))
IsBelow-join dir dst name (a, (rest, e)) h =
    let full = is_abs-not_empty dst a in
    (
      is_abs-join dst name full ∙ a,
      (
        rest ++ name ∷ [],
        elems-join-IsPlain dst name full h
            ∙ ap (λ es. es ++ name ∷ []) e
            ∙ append_assoc (elems dir) rest (name ∷ []),
      ),
    )

planned-All :
    (dir : Bytes) (es : Entries) (dst : Bytes)
    → HasNames es
    → IsBelow dir dst
    → All (CallBelow dir) (planned es dst)
unfolding planned
planned-All dir end dst h b = tt
planned-All dir (file name bytes rest) dst (hn, h) b =
    ((IsBelow-join dir dst name b hn, tt), planned-All dir rest dst h b)
planned-All dir (directory name sub rest) dst (hn, hs, h) b =
    let here = IsBelow-join dir dst name b hn in
    (
      (here, tt),
      All-append (CallBelow dir) _ _ (planned-All dir sub _ hs here) (planned-All dir rest dst h b),
    )

module _ (reply : List Call → Call → Bool) (P : Call → Type 0) where
  go_on-All :
      (o : List Call × Bool) (k : Writer)
      → All P o.0
      → ((made : List Call) → All P made → All P (k made).0)
      → All P (go_on o k).0
  go_on-All (made, true) k h hk = hk made h
  go_on-All (made, false) k h hk = h

  issue_all-All : (cs made : List Call) → All P cs → All P made → All P (issue_all reply cs made).0
  unfolding issue_all issue
  issue_all-All [] made hc hm = hm
  issue_all-All (c ∷ cs) made (h, hc) hm =
      go_on-All (issue reply c made) (issue_all reply cs) (All-append P made (c ∷ []) hm (h, tt))
        (λ made' hm'. issue_all-All cs made' hc hm')

-- Copying a tree with ordinary names to an absolute place below `dir` names paths below `dir` only, whether it
-- succeeds or fails.
pub copy_embed_dir-All :
    (reply : List Call → Call → Bool) (dir : Bytes) (es : Entries) (dst : Bytes) (made : List Call)
    → HasNames es
    → IsBelow dir dst
    → All (CallBelow dir) made
    → All (CallBelow dir) (copy_embed_dir reply es dst made).0
copy_embed_dir-All reply dir es dst made h b hm = rw (copy_embed_dir-issue_all reply es dst made) (
    issue_all-All reply (CallBelow dir) (os_mkdir_all dst 493 ∷ planned es dst) made
      ((b, tt), planned-All dir es dst h b) hm)

-- What is found in a tree with ordinary names is such a tree.
abbrev pub HasNamesIn : Node → Type 0
HasNamesIn (plain bytes) = Unit
HasNamesIn (folder es) = HasNames es

same_node-HasNames : (x node : Node) → some x ≡ some node → HasNamesIn x → HasNamesIn node
same_node-HasNames x node e h = let same : x ≡ node = cc e in subst HasNamesIn same h

entry-HasNames :
    (es : Entries) (name : Bytes) (node : Node)
    → HasNames es
    → entry es name ≡ some node
    → HasNamesIn node
unfolding entry
entry-HasNames end name node = λ h e. absurd (cc e)
entry-HasNames (file n bytes rest) name node = elim (Bool-cases (bytes_eq n name)) [
  | inl t ↦ rw t (λ h e. same_node-HasNames (plain bytes) node e tt)
  | inr t ↦ rw t (λ h e. entry-HasNames rest name node h.1 e)
]
entry-HasNames (directory n sub rest) name node = elim (Bool-cases (bytes_eq n name)) [
  | inl t ↦ rw t (λ h e. same_node-HasNames (folder sub) node e h.1)
  | inr t ↦ rw t (λ h e. entry-HasNames rest name node h.2 e)
]

pub below-HasNames :
    (node : Node) (names : List Bytes) (found : Node)
    → HasNamesIn node
    → below node names ≡ some found
    → HasNamesIn found
unfolding below
below-HasNames node [] found h e = same_node-HasNames node found e h
below-HasNames (plain bytes) (name ∷ names) found h e = absurd cc
below-HasNames (folder es) (name ∷ names) found h e =
    on_entry (entry es name) refl
      (λ node at inner. below-HasNames node names found (entry-HasNames es name node h at) inner) e
  where
    on_entry :
        (o : Option Node)
        → entry es name ≡ o
        → ((node : Node)
            → entry es name ≡ some node
            → below node names ≡ some found
            → HasNamesIn found)
        → elim o as (λ _. Option Node) [ none ↦ none | some node ↦ below node names ] ≡ some found
        → HasNamesIn found
    on_entry none at deeper e = absurd cc
    on_entry (some node) at deeper e = deeper node at e
