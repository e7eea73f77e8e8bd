-- ===== src/Filesystem/State.antt =====
-- The part of a POSIX file system that src/kavita_ingest/filesystem.py uses: a table of paths, and
-- inodes that several paths may share. A path is absolute and resolved, its components stand leaf
-- first, and no component is a symbolic link.
use kavita_ingest.Prelude.{
  ℕ, suc, String, Bool, true, false, not, Option, none, some, List, [], ◌∷◌, ◌==◌, texts_Eq, nat_Eq,
  lookup, insert, erase, any, is_some, if◌then◌else◌,
}

abbrev pub FilePath : Type 0
FilePath = List String

-- path.parent, path / name and path.relative_to(root) without its result
abbrev pub parent : FilePath → FilePath
parent [] = []
parent (name ∷ p) = p

abbrev pub child : FilePath → String → FilePath
child p name = name ∷ p

unfoldable pub is_relative_to : FilePath → FilePath → Bool
is_relative_to [] root = [] == root
is_relative_to (name ∷ p) root =
    let rest = is_relative_to p root in if (name ∷ p) == root then true else rest

-- The contents of a file are its bytes.
abbrev pub Bytes : Type 0
Bytes = List ℕ

pub data Node : Type 0 where
  directory : ℕ → Node
  file : ℕ → Node

pub record Inode : Type 0 where
  pub bytes : Bytes
  pub mode : ℕ

pub record Files : Type 0 where
  pub nodes : List (FilePath × Node)
  pub inodes : List (ℕ × Inode)
  pub next : ℕ

unfoldable pub node_at : Files → FilePath → Option Node
node_at fs p = lookup p fs.nodes

unfoldable pub inode_at : Files → ℕ → Option Inode
inode_at fs i = lookup i fs.inodes

abbrev pub file_inode : Option Node → Option ℕ
file_inode (some (file i)) = some i
file_inode _ = none

-- path.exists(), path.is_file(), path.is_dir() and the contents behind a path
unfoldable pub exists : FilePath → Files → Bool
exists p fs = is_some (node_at fs p)

unfoldable pub is_file : FilePath → Files → Bool
is_file p fs = is_some (file_inode (node_at fs p))

abbrev pub node_is_dir : Option Node → Bool
node_is_dir (some (directory m)) = true
node_is_dir _ = false

unfoldable pub is_dir : FilePath → Files → Bool
is_dir p fs = node_is_dir (node_at fs p)

abbrev pub inode_number : FilePath → Files → Option ℕ
inode_number p fs = file_inode (node_at fs p)

abbrev pub inode_under : Files → Option ℕ → Option Inode
inode_under fs none = none
inode_under fs (some i) = inode_at fs i

unfoldable pub stat : FilePath → Files → Option Inode
stat p fs = inode_under fs (inode_number p fs)

abbrev under : FilePath → FilePath × Node → Bool
under p (q, n) = elim q [ [] ↦ false | name ∷ dir ↦ dir == p ]

-- Whether a directory holds no entry, as `rmdir` wants.
unfoldable pub is_empty : FilePath → Files → Bool
is_empty p fs = not (any (under p) fs.nodes)

-- The changes. Each is made only where the caller found that it may be made.
unfoldable pub set_node : FilePath → Node → Files → Files
set_node p n fs = record fs { nodes = insert p n fs.nodes }

unfoldable pub drop_node : FilePath → Files → Files
drop_node p fs = record fs { nodes = erase p fs.nodes }

unfoldable pub set_inode : ℕ → Inode → Files → Files
set_inode i d fs = record fs { inodes = insert i d fs.inodes }

-- A new file has an inode of its own.
unfoldable pub new_file : FilePath → Inode → Files → Files
new_file p d fs = record fs {
  nodes = insert p (file fs.next) fs.nodes;
  inodes = insert fs.next d fs.inodes;
  next = suc fs.next;
}
