-- ===== src/Engine/Capabilities.antt =====
-- `_check_capabilities` of src/kavita_ingest/apply_engine.py.
use kavita_ingest.Prelude.{
  String, Bool, not, Option, none, some, List, [], ◌∷◌, ◌==◌, string_Eq, all, any, if◌then◌else◌,
}
use kavita_ingest.Engine.Item.{PreparedItem, Externals}
use kavita_ingest.Engine.Versions.{codes, version_satisfies}
use kavita_ingest.Effect.{M, apply_refused, pure, refuse_if, from_option, ◌>>=◌, ◌>>◌}

abbrev pub required_keys : String → Option (List String)
required_keys format =
    if format == "epub"
    then some ("ebook-meta" ∷ "opf_patcher" ∷ [])
    else if format == "cbz"
    then some ("comicinfo_schema" ∷ "comicinfo_profile" ∷ [])
    else if format == "cbr"
    then some ("comicinfo_schema" ∷ "comicinfo_profile" ∷ "rarfile" ∷ "unrar" ∷ [])
    else if format == "pdf"
    then some ("ebook-meta" ∷ "pikepdf" ∷ [])
    else none

abbrev pub supported_profiles : List String
supported_profiles = "strict-2.1-v1" ∷ "2.1-imagehash-preserve-v1" ∷ []

abbrev has_key : List (String × String) → String → Bool
has_key requirements key = any (λ entry. entry.0 == key) requirements

-- The version that the plan's requirement is compared with, if there is one.
abbrev pub current_version : Externals → String → Option String
current_version x key =
    if key == "ebook-meta"
    then x.calibre
    else if key == "unrar"
    then x.unrar
    else if key == "kavita_ingest"
    then some (x.package_version "kavita-ingest")
    else if key == "comicinfo_schema"
    then some "2.1"
    else if key == "opf_patcher"
    then some "1"
    else if key == "pikepdf"
    then some (x.package_version "pikepdf")
    else if key == "rarfile"
    then some (x.package_version "rarfile")
    else none

abbrev refusal : String → String
refusal key =
    if key == "ebook-meta"
    then "unsafe or missing Calibre helper"
    else if key == "unrar"
    then "required helper is unavailable"
    else "unknown writer capability in plan"

unfoldable pub check_requirement : Externals → String → String → M (Unit {0})
check_requirement x key expected =
    if key == "comicinfo_profile"
    then refuse_if (not (any (λ p. p == expected) supported_profiles)) apply_refused
        "writer capability mismatch for comicinfo_profile"
    else do
      actual ← from_option (current_version x key) apply_refused (refusal key)
      refuse_if (not (version_satisfies (codes expected) (codes actual))) apply_refused
          "writer capability mismatch"

unfoldable pub check_requirements : Externals → List (String × String) → M (Unit {0})
check_requirements x [] = pure tt
check_requirements x ((key, expected) ∷ rest) = do
  check_requirement x key expected
  check_requirements x rest

unfoldable pub check_capabilities : Externals → PreparedItem → M (Unit {0})
check_capabilities x item = do
  keys ←
      from_option (required_keys item.source_format) apply_refused
        "unsupported planned source format"
  refuse_if (not (all (has_key item.writer_versions) keys)) apply_refused
      "plan lacks required writer versions"
  check_requirements x item.writer_versions
