-- ===== src/Sandbox/Embed.antt =====
-- sandbox/sandbox.go: a fixture's tree and copyEmbedDir, which writes it with calls of package os. `reply` says
-- whether a call succeeds, from the calls before it.
use cli_toolkit.Base.{
  Bool, true, false, List, [], ◌∷◌, ◌++◌, Option, none, some, Bytes, bytes_eq, if◌then◌else◌,
}
use cli_toolkit.FilePath.{join}
use cli_toolkit.OsFs.Calls.{Call, os_mkdir_all, os_write_file}

-- The entries of an embedded directory in the order of ReadDir: files with their contents, and directories. Of
-- what such a tree lists, ReadDir and ReadFile have no error.
pub data Entries : Type 0 where
  end : Entries
  file : Bytes → Bytes → Entries → Entries
  directory : Bytes → Entries → Entries → Entries

-- Calls of the host: those that were made, and whether the last one succeeded.
abbrev pub Writer : Type 0
Writer = List Call → List Call × Bool

abbrev pub go_on : List Call × Bool → Writer → List Call × Bool
go_on (made, true) next = next made
go_on (made, false) next = (made, false)

module _ (reply : List Call → Call → Bool) where
  unfoldable pub issue : Call → Writer
  issue c made = (made ++ c ∷ [], reply made c)

  -- The loop of copyEmbedDir, with the modes 0o755 and 0o644.
  unfoldable pub copy_entries : Entries → Bytes → Writer
  unfolding issue
  copy_entries end dst made = (made, true)
  copy_entries (file name bytes rest) dst made =
      go_on (issue (os_write_file (join (dst ∷ name ∷ [])) bytes 420) made) (copy_entries rest dst)
  copy_entries (directory name sub rest) dst made =
      go_on
        (go_on (issue (os_mkdir_all (join (dst ∷ name ∷ [])) 493) made)
          (copy_entries sub (join (dst ∷ name ∷ []))))
        (copy_entries rest dst)

  -- copyEmbedDir of a directory.
  unfoldable pub copy_embed_dir : Entries → Bytes → Writer
  unfolding issue copy_entries
  copy_embed_dir entries dst made =
      go_on (issue (os_mkdir_all dst 493) made) (copy_entries entries dst)

-- What a name stands for in a directory, and what is at a path of names below it.
pub data Node : Type 0 where
  plain : Bytes → Node
  folder : Entries → Node

unfoldable pub entry : Entries → Bytes → Option Node
entry end name = none
entry (file n bytes rest) name = if bytes_eq n name then some (plain bytes) else entry rest name
entry (directory n sub rest) name = if bytes_eq n name then some (folder sub) else entry rest name

unfoldable pub below : Node → List Bytes → Option Node
below node [] = some node
below (plain bytes) (name ∷ names) = none
below (folder es) (name ∷ names) = elim (entry es name) [
  | none ↦ none
  | some node ↦ below node names
]
