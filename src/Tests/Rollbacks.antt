-- ===== src/Tests/Rollbacks.antt =====
-- A preserved source, and its copy in the library.
use kavita_ingest.Prelude.{String, ◌≡◌, refl, none, some, [], ◌∷◌, string_Eq, lookup, texts_eq}
use kavita_ingest.Filesystem.State.{Bytes, file, node_at, inode_at, exists, is_file, stat}
use kavita_ingest.Journal.States.{ItemState, preserve}
use kavita_ingest.Journal.Rows.{ApplyItem}
use kavita_ingest.Effect.{Env, World, ok, proceed, pure, look, system, ◌>>=◌}
use kavita_ingest.Linux.{sha256_file}
use kavita_ingest.Engine.Recover.{file_matches}
use kavita_ingest.Rollback.{
  remove_unchanged_destination, offered, preview_preserved, preview_published, preview_item,
}
use kavita_ingest.Rollback.Evidence.{IsJustified, preview_item-IsJustified}

abbrev digest : Bytes → String
digest [] = "empty"
digest (b ∷ bytes) = "digest"

abbrev calm : Env
calm = record { fault = λ t. proceed; random = λ t. "token"; now = λ t. t; sha256 = digest }

abbrev done_row : ApplyItem
done_row = record {
  run_id = "r1";
  item_id = "i1";
  state = ItemState.complete;
  source_path = "a.epub" ∷ "inbox" ∷ [];
  planned_source_hash = "digest";
  staging_path = none;
  staged_hash = some "digest";
  staged_size = some 2;
  verification = none;
  destination_path = "A.epub" ∷ "library" ∷ [];
  destination_hash = some "digest";
  lifecycle_policy = preserve;
  archive_path = none;
  cleanup_path = none;
  updated_at = 0;
  completed_at = some 0;
  error = none;
  recovery_detail = none;
}

abbrev published : World
published = record {
  files = record {
    nodes = ("a.epub" ∷ "inbox" ∷ [], file 0) ∷ ("A.epub" ∷ "library" ∷ [], file 1) ∷ [];
    inodes =
        (0, record { bytes = 7 ∷ 9 ∷ []; mode = 420 })
        ∷ (1, record { bytes = 7 ∷ []; mode = 420 })
        ∷ [];
    next = 2;
  };
  db = record { runs = []; items = []; events = [] };
  tick = 0;
}

done_row-answer :
    (preview_item done_row calm published).0
    ≡ ok (
        offered done_row remove_unchanged_destination
          "the exact original source is still preserved")
unfolding preview_item preview_published preview_preserved file_matches sha256_file system look pure
    ◌>>=◌ is_file exists stat node_at inode_at lookup texts_eq
done_row-answer = refl

preview_item-IsJustified_example :
    IsJustified calm published.files done_row remove_unchanged_destination
preview_item-IsJustified_example =
    preview_item-IsJustified calm done_row published
      (offered done_row remove_unchanged_destination "the exact original source is still preserved")
      done_row-answer refl
