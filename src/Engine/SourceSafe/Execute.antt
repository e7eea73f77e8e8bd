-- ===== src/Engine/SourceSafe/Execute.antt =====
-- Executing an item gives up its source only behind a verified copy.
use kavita_ingest.Prelude.{◌≡◌, ◌⊎◌, String, Option, none, some}
use kavita_ingest.Filesystem.State.{FilePath, Bytes, Files}
use kavita_ingest.Filesystem.Kept.{IsBounded, Fresh}
use kavita_ingest.Filesystem.Contents.{HasBytes}
use kavita_ingest.Journal.Rows.{Evidence}
use kavita_ingest.Journal.Keeping.{Anything, Anything-Journaling}
use kavita_ingest.Effect.{Env, World, Outcome, ok, raised, crashed, M}
use kavita_ingest.Effect.Keeps.{Keeps, keeps_rules}
use kavita_ingest.Linux.Kept.{KeptIn}
use kavita_ingest.Effect.Triples.{Triple, Triple-bind, Triple-then, Ends}
use kavita_ingest.Linux.Methods.{commit-Kept, set_file_mode-Kept}
use kavita_ingest.Engine.Item.{PreparedItem, Externals, staging_name}
use kavita_ingest.Engine.Execute.{commit_verified, verify_and_commit, execute_item}
use kavita_ingest.Engine.Touch.{Staging, Touchable, Staging-Area}
use kavita_ingest.Engine.NoClobber.{stage-Kept, file_calls}
use kavita_ingest.Engine.SourceSafe.{IsPublished}
use kavita_ingest.Engine.SourceSafe.Finish.{
  Safe, Held, Here, Here-Safe, stays, verify_committed-Triple, Both, Both-Safe, stays-Both,
  finish_lifecycle-Safe,
}

Ends-anyway : {A : Type 0} (G : World → Type 0) (o : Outcome A × World) → Ends (λ a. G) G o → G o.1
Ends-anyway G (ok a, w) h = h
Ends-anyway G (raised e, w) h = h
Ends-anyway G (crashed, w) h = h

module _ (env : Env) (x : Externals) (item : PreparedItem) (original : Bytes)
    (source_apart : ¬ Staging item none item.source)
    (destination_apart : ¬ Touchable item none item.destination)
    (archive_apart : (archive : FilePath)
      → item.archive_path ≡ some archive
      → ¬ Touchable item none archive) where
  abbrev Fine : World → Type 0
  Fine = Safe env x item original source_apart destination_apart archive_apart

  abbrev HereIn : World → Type 0
  HereIn =
      Held env x item original source_apart destination_apart archive_apart
        (Here env x item original source_apart destination_apart archive_apart)

  abbrev BothIn : World → Type 0
  BothIn =
      Held env x item original source_apart destination_apart archive_apart
        (Both env x item original source_apart destination_apart archive_apart)

  both : (w : World) → BothIn w → Fine w
  both = Both-Safe env x item original source_apart destination_apart archive_apart

  fine : (w : World) → HereIn w → Fine w
  fine = Here-Safe env x item original source_apart destination_apart archive_apart

  keeps :
      {A : Type 0} (m : M A)
      → ((base : Files) → Keeps env (KeptIn base (Staging item none) Anything) m)
      → Keeps env HereIn m
  keeps = stays env x item original source_apart destination_apart archive_apart

  Keeps-both :
      {A : Type 0} (m : M A)
      → ((base : Files) → Keeps env (KeptIn base (Staging item none) Anything) m)
      → Keeps env BothIn m
  Keeps-both = stays-Both env x item original source_apart destination_apart archive_apart

  commit_verified-Safe :
      (run_id : String) (staging : FilePath) (e : Option Evidence)
      → ((base : Files) → Fresh base (Staging item none) staging)
      → Triple env HereIn (commit_verified x run_id item staging e) (λ u. Fine) Fine
  unfolding commit_verified
  commit_verified-Safe run_id staging e fresh =
      Triple-then _ _ (keeps _ (λ base. search file_calls)) fine λ u.
        Triple-then _ _ (search keeps_rules) fine λ taken.
          Triple-then _ _ (search keeps_rules) fine λ u2.
            Triple-then _ _ (keeps _ (λ base. search file_calls)) fine λ u3.
              Triple-then _ _ (keeps _ (λ base. search (file_calls, Anything-Journaling))) fine λ t.
                Triple-then _ _
                  (keeps _ (λ base. commit-Kept staging item.destination (fresh base))) fine
                  λ u4.
                    Triple-bind _ _
                      (verify_committed-Triple env x item original source_apart destination_apart
                        archive_apart e)
                      λ u5. Triple-then _ _ (search keeps_rules) both λ evidence.
                        Triple-then _ _
                          (Keeps-both _ (λ base. search (file_calls, Anything-Journaling))) both
                          λ t2.
                            finish_lifecycle-Safe env x item original source_apart destination_apart
                              archive_apart run_id

  verify_and_commit-Safe :
      (run_id : String) (staging : FilePath)
      → ((base : Files) → Fresh base (Staging item none) staging)
      → Triple env HereIn (verify_and_commit x run_id item staging) (λ u. Fine) Fine
  unfolding verify_and_commit
  verify_and_commit-Safe run_id staging fresh =
      Triple-then _ _ (keeps _ (λ base. search file_calls)) fine λ verified.
        Triple-then _ _ (keeps _ (λ base. search file_calls)) fine λ u.
          Triple-then _ _
            (keeps _ (λ base. set_file_mode-Kept staging item.published_file_mode (fresh base)))
            fine
            λ u2. Triple-then _ _ (keeps _ (λ base. search file_calls)) fine λ u3.
              Triple-then _ _ (keeps _ (λ base. search file_calls)) fine λ evidence.
                Triple-then _ _ (keeps _ (λ base. search (file_calls, Anything-Journaling))) fine
                  λ t. commit_verified-Safe run_id staging (some evidence) fresh

  execute_item-Safe :
      (run_id : String) → Triple env HereIn (execute_item x run_id item) (λ u. Fine) Fine
  unfolding execute_item
  execute_item-Safe run_id = Triple-then _ _ (keeps _ (λ base. search file_calls)) fine λ u.
      Triple-then _ _ (keeps _ (λ base. search file_calls)) fine λ u2.
        Triple-then _ _ (keeps _ (λ base. search file_calls)) fine λ token.
          Triple-then _ _ (keeps _ (λ base. search (file_calls, Anything-Journaling))) fine λ t.
            Triple-then _ _
              (keeps _
                (λ base. stage-Kept x item _ ((Staging-Area base item none).named "output-" token)))
              fine
              λ result. Triple-then _ _ (keeps _ (λ base. search file_calls)) fine λ u3.
                Triple-then _ _ (keeps _ (λ base. search (file_calls, Anything-Journaling))) fine
                  λ t2.
                    verify_and_commit-Safe run_id (staging_name "output-" token item)
                      (λ base. (Staging-Area base item none).named "output-" token)

-- Whatever fails and wherever the process dies while an item is executed, its source is still there
-- with its bytes afterwards; or its lifecycle gives the source up, and the destination then holds a
-- file whose bytes passed the verification against the source's, and where the lifecycle wants an
-- archive, the planned archive path holds a file of the planned hash. At the start the files are
-- well formed and the source is there; it does not lie in the item's staging area, and neither the
-- destination nor the archive is a path that the item may touch otherwise.
pub execute_item-keeps_source :
    (env : Env) (x : Externals) (item : PreparedItem) (original : Bytes)
    (source_apart : ¬ Staging item none item.source)
    (destination_apart : ¬ Touchable item none item.destination)
    (archive_apart : (archive : FilePath)
      → item.archive_path ≡ some archive
      → ¬ Touchable item none archive)
    (run_id : String) (w : World)
    → IsBounded w.files
    → HasBytes item.source original w.files
    → HasBytes item.source original (execute_item x run_id item env w).1.files
      ⊎ IsPublished env x item original (execute_item x run_id item env w).1.files
execute_item-keeps_source env x item original source_apart destination_apart archive_apart run_id w
      bounded there =
    Ends-anyway (Safe env x item original source_apart destination_apart archive_apart)
      (execute_item x run_id item env w)
      ((execute_item-Safe env x item original source_apart destination_apart archive_apart
          run_id).at
        w (record { bounded = bounded; holds = there }))
