-- ===== src/Tests/Moves.antt =====
-- Two files that want the same name up to case, and one that does not.
use kavita_ingest.Prelude.{
  ◌≡◌, refl, String, [], List, ◌∷◌, ◌==◌, string_Eq, if◌then◌else◌, lookup, select, texts_eq,
}
use kavita_ingest.Filesystem.State.{exists, is_dir, node_at}
use kavita_ingest.Effect.{done}
use kavita_ingest.Repairs.{RepairAction, remove_colliding_actions, sort_out, collides, competing}
use kavita_ingest.Repairs.Distinct.{IsConflictFree, remove_colliding_actions-IsConflictFree}
use kavita_ingest.Tests.{start_files}

abbrev fold_b : String → String
fold_b name = if name == "B.epub" then "b.epub" else name

abbrev moves : List RepairAction
moves =
    record { source = "1" ∷ "inbox" ∷ []; destination = "B.epub" ∷ "library" ∷ [] }
    ∷ record { source = "2" ∷ "inbox" ∷ []; destination = "b.epub" ∷ "library" ∷ [] }
    ∷ record { source = "3" ∷ "inbox" ∷ []; destination = "c.epub" ∷ "library" ∷ [] }
    ∷ []

abbrev shared_moves : List RepairAction
shared_moves =
    record { source = "1" ∷ "inbox" ∷ []; destination = "B.epub" ∷ "library" ∷ [] }
    ∷ record { source = "2" ∷ "inbox" ∷ []; destination = "b.epub" ∷ "library" ∷ [] }
    ∷ []

abbrev single_move : List RepairAction
single_move = record { source = "3" ∷ "inbox" ∷ []; destination = "c.epub" ∷ "library" ∷ [] } ∷ []

are_sorted : remove_colliding_actions fold_b start_files moves ≡ done (single_move, shared_moves)
unfolding remove_colliding_actions sort_out collides competing exists is_dir node_at lookup select
    texts_eq
are_sorted = refl

remove_colliding_actions-IsConflictFree_example :
    IsConflictFree fold_b start_files moves single_move shared_moves
remove_colliding_actions-IsConflictFree_example =
    remove_colliding_actions-IsConflictFree fold_b start_files moves single_move shared_moves
      are_sorted
