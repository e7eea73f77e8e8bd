-- ===== src/Providers/Store.antt =====
-- `ProviderStore` of src/kavita_ingest/provider_store.py: answers of providers by the key of their
-- request. A candidate is the schema it was normalised to and the rest of its fields as JSON; a row
-- holds the candidates and the raw answer themselves, where the table holds their JSON text.
use kavita_ingest.Prelude.{
  ℕ, String, Bool, true, false, not, Option, none, some, List, [], ◌∷◌, ◌==◌, string_Eq, nat_Eq,
  leb, all, length, select, if◌then◌else◌,
}
use kavita_ingest.Json.{Json}

pub record Candidate : Type 0 where
  pub provider_schema_version : ℕ
  pub fields : Json

pub record CacheRow : Type 0 where
  pub cache_key : String
  pub provider : String
  pub operation : String
  pub request : Json
  pub candidates : List Candidate
  pub raw : Json
  pub schema_version : ℕ
  pub fetched_at : ℕ
  pub expires_at : ℕ

-- `CacheEntry`
pub record CacheEntry : Type 0 where
  pub candidates : List Candidate
  pub raw : Json
  pub schema_version : ℕ
  pub fetched_at : ℕ
  pub expires_at : ℕ
  pub stale : Bool

unfoldable pub row_of : String → List CacheRow → Option CacheRow
row_of key [] = none
row_of key (row ∷ rest) =
    let later = row_of key rest in if row.cache_key == key then some row else later

abbrev entry_of : ℕ → CacheRow → CacheEntry
entry_of now row = record {
  candidates = row.candidates;
  raw = row.raw;
  schema_version = row.schema_version;
  fetched_at = row.fetched_at;
  expires_at = row.expires_at;
  stale = leb row.expires_at now;
}

unfoldable pub get_cache : String → ℕ → List CacheRow → Option CacheEntry
get_cache key now rows = elim (row_of key rows) [ none ↦ none | some row ↦ some (entry_of now row) ]

abbrev pub is_of_schema : ℕ → Candidate → Bool
is_of_schema schema candidate = candidate.provider_schema_version == schema

unfoldable pub update_row : String → List Candidate → ℕ → List CacheRow → List CacheRow
update_row key candidates schema [] = []
update_row key candidates schema (row ∷ rest) =
    (if row.cache_key == key
      then record row { candidates = candidates; schema_version = schema }
      else row)
    ∷ update_row key candidates schema rest

-- `_normalized_json`, true where nothing is raised
abbrev pub fits_schema : List Candidate → ℕ → Bool
fits_schema candidates schema = all (is_of_schema schema) candidates

-- How `rewrite_cache_normalization` ends: a ValueError, a KeyError, or with the rows.
pub data Rewritten : Type 0 where
  incompatible missing : Rewritten
  rewritten : List CacheRow → Rewritten

abbrev is_some_row : Option CacheRow → Bool
is_some_row none = false
is_some_row (some row) = true

unfoldable pub rewrite_cache_normalization : String → List Candidate → ℕ → List CacheRow → Rewritten
rewrite_cache_normalization key candidates schema rows =
    if not (fits_schema candidates schema)
    then incompatible
    else if is_some_row (row_of key rows)
    then rewritten (update_row key candidates schema rows)
    else missing

-- ON CONFLICT the provider, the operation and the request stay as they were.
unfoldable pub upsert_row : CacheRow → List CacheRow → List CacheRow
upsert_row new [] = new ∷ []
upsert_row new (row ∷ rest) =
    let others = upsert_row new rest in
    if row.cache_key == new.cache_key
    then record row {
      candidates = new.candidates;
      raw = new.raw;
      schema_version = new.schema_version;
      fetched_at = new.fetched_at;
      expires_at = new.expires_at;
    }
      ∷ rest
    else row ∷ others

-- `none` is the ValueError.
unfoldable pub put_cache : CacheRow → List CacheRow → Option (List CacheRow)
put_cache new rows =
    if fits_schema new.candidates new.schema_version then some (upsert_row new rows) else none

unfoldable pub cache_counts : ℕ → List CacheRow → ℕ × ℕ
cache_counts now rows = (length rows, length (select (λ row. leb row.expires_at now) rows))
