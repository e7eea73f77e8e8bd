-- ===== src/Tests/Sources.antt =====
-- An item whose source is to be archived, while the process dies at the ninth effect.
use mathlib.Core.Path.{subst}
use kavita_ingest.Prelude.{
  ◌≡◌, ◌≢◌, ◌⊎◌, refl, ap, false, none, some, [], ◌∷◌, ◌==◌, texts_Eq, lookup, texts_eq, eq_refl,
}
use kavita_ingest.Filesystem.State.{FilePath, node_at, inode_at, is_relative_to, parent}
use kavita_ingest.Filesystem.Contents.{HasBytes}
use kavita_ingest.Journal.States.{archive_after_verify}
use kavita_ingest.Engine.Item.{PreparedItem}
use kavita_ingest.Engine.Execute.{execute_item}
use kavita_ingest.Engine.Touch.{
  Staging, in_staging, over_staging, is_recorded, Touchable, is_source, in_area,
}
use kavita_ingest.Engine.SourceSafe.{IsPublished}
use kavita_ingest.Engine.SourceSafe.Execute.{execute_item-keeps_source}
use kavita_ingest.Tests.{book, tools, fatal, start, start_files, start-IsBounded}

abbrev shelf : FilePath
shelf = "a.epub" ∷ "archive" ∷ []

abbrev archived_book : PreparedItem
archived_book = record book { lifecycle_policy = archive_after_verify; archive_path = some shelf }

differ : (p q : FilePath) → (p == q) ≡ false → p ≢ q
differ p q e same = cc (e, eq_refl {K = FilePath} q, ap (λ r. r == q) same)

apart :
    (item : PreparedItem) (p : FilePath)
    → is_relative_to p item.staging_directory ≡ false
    → (p == parent item.staging_directory) ≡ false
    → ¬ Staging item none p
apart item p outside other (in_staging e) = cc
apart item p outside other (over_staging e) = differ p _ other e
apart item p outside other (is_recorded e) = cc

apart_from_all :
    (item : PreparedItem) (p : FilePath)
    → (p == item.source) ≡ false
    → ¬ Staging item none p
    → ¬ Touchable item none p
apart_from_all item p other outside (is_source e) = differ p _ other e
apart_from_all item p other outside (in_area h) = outside h

not_staged :
    (p : FilePath)
    → is_relative_to p archived_book.staging_directory ≡ false
    → (p == parent archived_book.staging_directory) ≡ false
    → ¬ Staging archived_book none p
not_staged = apart archived_book

some_injective : {A : Type 0} {x y : A} → some x ≡ some y → x ≡ y
some_injective e = cc

shelf_apart : ¬ Touchable archived_book none shelf
unfolding is_relative_to texts_eq
shelf_apart = apart_from_all archived_book shelf refl (not_staged shelf refl refl)

destination_apart : ¬ Touchable archived_book none archived_book.destination
unfolding is_relative_to texts_eq
destination_apart =
    apart_from_all archived_book archived_book.destination refl
      (not_staged archived_book.destination refl refl)

source_apart : ¬ Staging archived_book none archived_book.source
unfolding is_relative_to texts_eq
source_apart = not_staged archived_book.source refl refl

source_there : HasBytes archived_book.source (7 ∷ 9 ∷ []) start_files
unfolding node_at inode_at lookup texts_eq
source_there = record { inode = 0; names = refl; holds = refl }

execute_item-keeps_source_example :
    HasBytes archived_book.source
      (7 ∷ 9 ∷ [])
      (execute_item tools "r1" archived_book fatal start).1.files
    ⊎ IsPublished fatal tools archived_book
        (7 ∷ 9 ∷ [])
        (execute_item tools "r1" archived_book fatal start).1.files
execute_item-keeps_source_example =
    execute_item-keeps_source fatal tools archived_book (7 ∷ 9 ∷ []) source_apart destination_apart
      (λ archive e. subst (λ p. ¬ Touchable archived_book none p) (some_injective e) shelf_apart)
      "r1" start start-IsBounded source_there
