-- ===== src/Engine/Item.antt =====
-- What the engine knows of an item, and what it calls outside the journal and the file system
-- (src/kavita_ingest/apply_engine.py, src/kavita_ingest/writers/common.py).
use Prim.Native.Char.{code}
use Prim.Native.String.{◌++◌ as concat}
use kavita_ingest.Prelude.{
  ℕ, String, Bool, Option, none, some, List, [], ◌∷◌, ◌==◌, nat_Eq, string_Eq, if◌then◌else◌,
}
use kavita_ingest.Filesystem.State.{FilePath, Bytes}
use kavita_ingest.Journal.States.{Policy}
use kavita_ingest.Effect.{Exception}

-- `PreparedItem`. Of the plan's document it keeps the library root and the writer versions.
pub record PreparedItem : Type 0 where
  pub item_id : String
  pub library_root : FilePath
  pub writer_versions : List (String × String)
  pub source : FilePath
  pub source_hash : String
  pub source_size : ℕ
  pub source_format : String
  pub destination : FilePath
  pub lifecycle_policy : Policy
  pub archive_path : Option FilePath
  pub staging_directory : FilePath
  pub published_file_mode : ℕ
  pub created_directory_mode : ℕ

-- `VerificationResult` of writers/common.py
pub record Verification : Type 0 where
  pub valid : Bool
  pub checks : List String
  pub errors : List String

-- How a writer ends: it has written the staged file and says what it checked, or it raises, and
-- may leave part of the file.
pub data Staged : Type 0 where
  written : Bytes → Verification → Staged
  failed : Option Bytes → Exception → Staged

-- What the engine is given: the writers and verifiers for the formats, over the source's bytes,
-- and the versions of the packages and tools that are installed. `calibre` is `none` where
-- `require_safe_calibre_executable` refuses, and `unrar` where no such program is found.
pub record Externals : Type 0 where
  pub stage : PreparedItem → Bytes → Staged
  pub verify : PreparedItem → Bytes → Bytes → Verification
  pub package_version : String → String
  pub calibre : Option String
  pub unrar : Option String

-- The part of a name from its last dot, where this is neither the first nor the last character.
abbrev last_dot : String → Option String
last_dot String.[] = none
last_dot (String.◌∷◌ c s) = elim (last_dot s) [
  | some t ↦ some t
  | none ↦ if code c == 46 then some (String.◌∷◌ c s) else none
]

unfoldable pub suffix_of : String → String
suffix_of String.[] = ""
suffix_of (String.◌∷◌ c s) = elim (last_dot s) [ none ↦ "" | some t ↦ if t == "." then "" else t ]

abbrev pub suffix : FilePath → String
suffix [] = ""
suffix (name ∷ p) = suffix_of name

-- staging_directory / f"{prefix}{token}{destination.suffix}"
unfoldable pub staging_name : String → String → PreparedItem → FilePath
staging_name prefix token item =
    concat prefix (concat token (suffix item.destination)) ∷ item.staging_directory
