-- ===== src/Repairs.antt =====
-- `_remove_colliding_actions` of src/kavita_ingest/library_repair.py: which repairs of a library are left
-- to the user. Of an action it reads the source and the destination.
pub mod Distinct
use kavita_ingest.Prelude.{
  ℕ, String, Bool, true, false, not, ◌&&◌, ◌||◌, List, [], ◌∷◌, ◌==◌, string_Eq, texts_Eq, ltb, any,
  length, map, select, if◌then◌else◌,
}
use kavita_ingest.Filesystem.State.{FilePath, Node, Files, parent, exists, is_dir}
use kavita_ingest.Effect.{Result, done, error, exception, not_a_directory}

pub record RepairAction : Type 0 where
  pub source : FilePath
  pub destination : FilePath

-- `_collision_key`; `fold` is Python's `casefold`.
abbrev pub collision_key : (String → String) → RepairAction → FilePath
collision_key fold action = map fold action.destination

abbrev pub name_of : FilePath → String
name_of [] = ""
name_of (name ∷ p) = name

abbrev pub is_child : FilePath → FilePath × Node → Bool
is_child directory ([], node) = false
is_child directory (name ∷ p, node) = p == directory

-- directory.iterdir()
abbrev pub children : FilePath → Files → List (FilePath × Node)
children directory fs = select (is_child directory) fs.nodes

unfoldable pub competing : (String → String) → RepairAction → List RepairAction → ℕ
competing fold action actions =
    length (select (λ other. collision_key fold other == collision_key fold action) actions)

abbrev pub is_taken : Files → RepairAction → Bool
is_taken fs action = exists action.destination fs && not (action.destination == action.source)

abbrev pub is_sibling : (String → String) → RepairAction → FilePath × Node → Bool
is_sibling fold action child =
    fold (name_of child.0) == fold (name_of action.destination) && not (child.0 == action.source)

-- The parent is there; iterdir() raises where it is a file.
abbrev pub has_sibling : (String → String) → Files → RepairAction → Result Bool
has_sibling fold fs action =
    if is_dir (parent action.destination) fs
    then done (any (is_sibling fold action) (children (parent action.destination) fs))
    else error (exception not_a_directory "Not a directory")

unfoldable pub collides : (String → String) → Files → List RepairAction → RepairAction → Result Bool
collides fold fs actions action =
    if ltb 1 (competing fold action actions)
    then done true
    else if is_taken fs action
    then done true
    else if exists (parent action.destination) fs
    then has_sibling fold fs action
    else done false

abbrev pub put :
    RepairAction
    → Result Bool
    → Result (List RepairAction × List RepairAction)
    → Result (List RepairAction × List RepairAction)
put action (error e) later = error e
put action (done collision) (error e) = error e
put action (done true) (done (safe, manual)) = done (safe, action ∷ manual)
put action (done false) (done (safe, manual)) = done (action ∷ safe, manual)

-- The loop over the actions, of which `all_actions` are all.
unfoldable pub sort_out :
    (String → String)
    → Files
    → List RepairAction
    → List RepairAction
    → Result (List RepairAction × List RepairAction)
sort_out fold fs all_actions [] = done ([], [])
sort_out fold fs all_actions (action ∷ rest) =
    put action (collides fold fs all_actions action) (sort_out fold fs all_actions rest)

-- The safe actions, and those that are left to the user.
unfoldable pub remove_colliding_actions :
    (String → String) → Files → List RepairAction → Result (List RepairAction × List RepairAction)
remove_colliding_actions fold fs actions = sort_out fold fs actions actions
