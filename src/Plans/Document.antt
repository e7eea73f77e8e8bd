-- ===== src/Plans/Document.antt =====
-- `validate_plan_payload`, `require_current_planning_policy` and what else
-- src/kavita_ingest/planning.py reads of a plan's document. A payload is the list of its bytes.
use kavita_ingest.Prelude.{
  ℕ, ◌+◌, ◌-◌, ◌*◌, ◌/◌, ◌%◌, String, Bool, true, false, not, ◌&&◌, ◌||◌, Option, none, some, List,
  [], ◌∷◌, ◌==◌, string_Eq, nat_Eq, codes_Eq, ltb, leb, all, any, if◌then◌else◌,
}
use kavita_ingest.Filesystem.State.{Bytes}
use kavita_ingest.Json.{
  Json, is_null, get, has, is_object, as_list, as_text, as_number, as_int, is_true, json_equal,
}
use kavita_ingest.Effect.{Result, done, error, exception, value_error, type_error}
use kavita_ingest.Engine.Versions.{codes}

-- Python's `json`: what a payload says, if it is JSON, and the canonical text of a value (ASCII,
-- names in order, no spaces).
pub record Codec : Type 0 where
  pub loads : Bytes → Option Json
  pub dumps : Json → Bytes

abbrev pub supported_versions : List ℕ
supported_versions = 1 ∷ 2 ∷ 3 ∷ []

-- document.get(…) in {…}
abbrev pub number_in : List ℕ → Option ℕ → Bool
number_in ns none = false
number_in ns (some n) = any (λ m. m == n) ns

abbrev pub is_octal : ℕ → Bool
is_octal c = leb 48 c && leb c 55

abbrev pub octal_value : ℕ → ℕ → ℕ → ℕ
octal_value a b c = (a - 48) * 64 + (b - 48) * 8 + (c - 48)

-- re.fullmatch(r"0[0-7]{3}", value) and int(value, 8)
abbrev pub octal_mode : List ℕ → Option ℕ
octal_mode (z ∷ a ∷ b ∷ c ∷ []) =
    if z == 48 && (is_octal a && (is_octal b && is_octal c)) then some (octal_value a b c) else none
octal_mode _ = none

-- mode & 0o002, mode & 0o700 != 0o700, mode & 0o111
abbrev pub others_write : ℕ → Bool
others_write mode = mode / 2 % 2 == 1

abbrev pub owner_all : ℕ → Bool
owner_all mode = mode / 64 % 8 == 7

abbrev pub executable : ℕ → Bool
executable mode = mode % 2 == 1 || (mode / 8 % 2 == 1 || mode / 64 % 2 == 1)

abbrev pub mode_of : Json → Option ℕ
mode_of j = elim (as_text j) [ none ↦ none | some s ↦ octal_mode (codes s) ]

-- `_validate_permission_value`, true where nothing is raised
unfoldable pub valid_permission : Json → Bool → Bool
valid_permission j is_directory = elim (mode_of j) [
  | none ↦ false
  | some mode ↦ not (
      others_write mode
      || ((is_directory && not (owner_all mode)) || (not is_directory && executable mode)))
]

unfoldable pub valid_policy : Json → Bool
valid_policy policy =
    is_object policy
    && (number_in (1 ∷ 2 ∷ []) (as_number (get "version" policy))
        && (not (number_in (2 ∷ []) (as_number (get "version" policy)))
            || (is_object (get "permissions" policy)
                && (valid_permission (get "file_mode" (get "permissions" policy)) false
                    && valid_permission (get "directory_mode" (get "permissions" policy)) true))))

abbrev pub signatures : List String
signatures = "pdf" ∷ "rar" ∷ "zip" ∷ "zip-epub" ∷ []

abbrev pub known_signature : Json → Bool
known_signature j = elim (as_text j) [ none ↦ false | some s ↦ any (λ t. t == s) signatures ]

-- The checks of one item. From the second schema on its policy is that of the document.
unfoldable pub valid_item : ℕ → Json → Json → Bool
valid_item version policy item =
    is_object item
    && (has "item_id" item
        && (has "source" item
            && (is_object (get "source" item)
                && ((ltb version 3 || known_signature (get "signature" (get "source" item)))
                    && ((is_null (get "kavita_projection" item)
                          || (is_object (get "provenance" item)
                              && is_true (get "explicit_approval" (get "provenance" item))))
                        && (ltb version 2 || json_equal (get "planning_policy" item) policy))))))

abbrev pub plan_items : Json → List Json
plan_items document = elim (as_list (get "items" document)) [ none ↦ [] | some items ↦ items ]

abbrev pub is_list : Json → Bool
is_list j = elim (as_list j) [ none ↦ false | some items ↦ true ]

abbrev pub version_or_zero : Option ℕ → ℕ
version_or_zero none = 0
version_or_zero (some n) = n

abbrev pub schema_version : Json → ℕ
schema_version document = version_or_zero (as_number (get "schema_version" document))

-- The tests of `validate_plan_payload` in their order.
unfoldable pub valid_document : Json → Bool
valid_document document =
    is_object document
    && (number_in supported_versions (as_number (get "schema_version" document))
        && (is_list (get "items" document)
            && ((ltb (schema_version document) 2 || valid_policy (get "planning_policy" document))
                && all (valid_item (schema_version document) (get "planning_policy" document))
                    (plan_items document))))

-- A list and an object have no hash: where a version is tested, they are a TypeError.
abbrev is_unhashable : Json → Bool
is_unhashable j = is_object j || is_list j

abbrev reaches_policy : Json → Bool
reaches_policy document =
    number_in supported_versions (as_number (get "schema_version" document))
    && (is_list (get "items" document)
        && (not (ltb (schema_version document) 2) && is_object (get "planning_policy" document)))

abbrev pub tests_unhashable : Json → Bool
tests_unhashable document =
    is_object document
    && (is_unhashable (get "schema_version" document)
        || (reaches_policy document
            && is_unhashable (get "version" (get "planning_policy" document))))

-- Every other failure is a ValueError.
abbrev pub checked : Codec → Bytes → Option Json → Result Json
checked codec payload none = error (exception value_error "invalid plan JSON")
checked codec payload (some document) =
    if tests_unhashable document
    then error (exception type_error "unhashable type")
    else if not (valid_document document)
    then error (exception value_error "plan document is not valid")
    else if not (codec.dumps document == payload)
    then error (exception value_error "plan is not in authoritative canonical JSON encoding")
    else done document

unfoldable pub validate_plan_payload : Codec → Bytes → Result Json
validate_plan_payload codec payload = checked codec payload (codec.loads payload)

unfoldable pub planning_policy_version : Json → Option ℕ
planning_policy_version document =
    if is_object (get "planning_policy" document)
    then as_int (get "version" (get "planning_policy" document))
    else none

-- `require_current_planning_policy`, true where nothing is raised
unfoldable pub has_current_policy : Json → Bool
has_current_policy document = number_in (2 ∷ []) (planning_policy_version document)
