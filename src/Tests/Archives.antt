-- ===== src/Tests/Archives.antt =====
-- An inventory of a directory and a page.
use kavita_ingest.Prelude.{◌≡◌, ◌≤◌, ◌↔◌, true, false, none, List, [], ◌∷◌, length, All}
use kavita_ingest.ArchiveSafety.{Text, ArchiveMember, ArchiveLimits, validate_inventory}
use kavita_ingest.ArchiveSafety.Sound.{total_size}
use kavita_ingest.ArchiveSafety.Ends.{AllApart}
use kavita_ingest.ArchiveSafety.Described.{IsSafeMember, validate_inventory_iff}

abbrev limits : ArchiveLimits
limits = record {
  max_entries = 5000;
  max_entry_bytes = 536870912;
  max_total_bytes = 4294967296;
  max_path_depth = 20;
  ratio = 1000;
  ratio_unit = 1;
}

-- "p/" and "p\1"
abbrev pages : List ArchiveMember
pages =
    record { filename = 112 ∷ 47 ∷ []; file_size = 0; compress_size = 0; is_dir = true }
    ∷ record { filename = 112 ∷ 92 ∷ 49 ∷ []; file_size = 900; compress_size = 300; is_dir = false }
    ∷ []

abbrev same : Text → Text
same name = name

validate_inventory_iff_example : (validate_inventory same limits [] [] pages ≡ none) ↔ (
    (length pages ≤ 5000)
    × All (IsSafeMember limits [] []) pages
    × AllApart same pages
    × (total_size pages ≤ 4294967296))
validate_inventory_iff_example = validate_inventory_iff same limits [] [] pages
