-- ===== src/Decisions.antt =====
-- `DecisionRepository` of src/kavita_ingest/decisions.py, and what is decided from its rows: an
-- append-only table. An id is the number of the row. Of a source it reads the digest of its bytes
-- and its media signature.
pub mod Isbn
pub mod Errors
pub mod Recorded
use kavita_ingest.Prelude.{
  ℕ, suc, ◌+◌, String, Bool, true, false, not, ◌&&◌, ◌||◌, Option, none, some, List, [], ◌∷◌, ◌++◌,
  ◌==◌, string_Eq, nat_Eq, any, length, select, last_of, insert, erase, if◌then◌else◌,
}
use kavita_ingest.Json.{
  Json, boolean, text, array, object, empty, field, nil, item, fields_of, get, is_object, as_list,
  as_text, members_of,
}
use kavita_ingest.Effect.{Result, done, error, exception, value_error}
use kavita_ingest.Plans.Rows.{Precondition, PlanTables, invalidate_where}
use kavita_ingest.Plans.Store.{Tools, str_of}

pub data DecisionType : Type 0 where
  accepted work_accepted rejected manual_override : DecisionType
  manual_identity unresolved skipped : DecisionType

pub record DecisionRecord : Type 0 where
  pub id : ℕ
  pub source_fingerprint : String
  pub media_signature : String
  pub decision_type : DecisionType
  pub candidate_key : Option String
  pub source_evidence_hash : String
  pub candidate_data_hash : Option String
  pub payload : Json
  pub created_at : String
  pub supersedes_id : Option ℕ
  pub batch_id : Option String

pub record Source : Type 0 where
  pub sha256 : String
  pub media_signature : String

pub record DecisionTables : Type 0 where
  pub decisions : List DecisionRecord
  pub plans : PlanTables

abbrev pub is_of : Source → DecisionRecord → Bool
is_of source d =
    d.source_fingerprint == source.sha256 && d.media_signature == source.media_signature

-- WHERE … ORDER BY id
unfoldable pub decision_history : Source → List DecisionRecord → List DecisionRecord
decision_history source decisions = select (is_of source) decisions

-- ORDER BY id DESC LIMIT 1
unfoldable pub latest_decision : Source → List DecisionRecord → Option DecisionRecord
latest_decision source decisions = last_of (decision_history source decisions)

abbrev decision_id : Option DecisionRecord → Option ℕ
decision_id none = none
decision_id (some d) = some d.id

-- What a caller of `add` gives beside the source and the type.
pub record Entry : Type 0 where
  pub evidence_hash : String
  pub candidate_key : Option String
  pub candidate_data_hash : Option String
  pub payload : Json
  pub batch_id : Option String

abbrev pub recorded : Source → DecisionType → Entry → String → List DecisionRecord → DecisionRecord
recorded source type entry now decisions = record {
  id = suc (length decisions);
  source_fingerprint = source.sha256;
  media_signature = source.media_signature;
  decision_type = type;
  candidate_key = entry.candidate_key;
  source_evidence_hash = entry.evidence_hash;
  candidate_data_hash = entry.candidate_data_hash;
  payload = entry.payload;
  created_at = now;
  supersedes_id = decision_id (latest_decision source decisions);
  batch_id = entry.batch_id;
}

-- source_fingerprint=? AND decision_head_id<>?
abbrev pub rests_on_other : String → ℕ → Precondition → Bool
rests_on_other fingerprint decision p =
    p.source_fingerprint == fingerprint && not (p.decision_head_id == decision)

-- `DecisionRepository.add`
unfoldable pub add_decision :
    Source → DecisionType → Entry → String → DecisionTables → DecisionRecord × DecisionTables
add_decision source type entry now tables =
    let d = recorded source type entry now tables.decisions in
    (
      d,
      record {
        decisions = tables.decisions ++ d ∷ [];
        plans = record (tables.plans) {
          invalidations =
              invalidate_where (rests_on_other source.sha256 d.id)
                "explicit identity decision changed after plan creation" now
                tables.plans.preconditions tables.plans.invalidations;
        };
      },
    )

abbrev is_rejected : DecisionType → Bool
is_rejected rejected = true
is_rejected _ = false

abbrev is_text : Option String → String → Bool
is_text none s = false
is_text (some t) s = t == s

abbrev suppressed : String → String → Option DecisionRecord → Bool
suppressed evidence candidate none = false
suppressed evidence candidate (some d) =
    is_rejected d.decision_type
    && (d.source_evidence_hash == evidence && is_text d.candidate_data_hash candidate)

unfoldable pub rejection_suppresses : Source → String → String → String → List DecisionRecord → Bool
rejection_suppresses source key evidence candidate decisions =
    suppressed evidence candidate
      (last_of (select (λ d. is_of source d && is_text d.candidate_key key) decisions))

-- A dictionary of overrides, by field.
abbrev pub Overrides : Type 0
Overrides = List (String × Json)

unfoldable pub update : List (String × Json) → Overrides → Overrides
update [] output = output
update ((name, j) ∷ rest) output = update rest (insert name j output)

unfoldable pub pop_each : Tools → List Json → Overrides → Overrides
pop_each tools [] output = output
pop_each tools (j ∷ rest) output = pop_each tools rest (erase (str_of tools j) output)

abbrev cleared_of : Option (List Json) → List Json
cleared_of none = []
cleared_of (some fields) = fields

abbrev pub overridden : Tools → DecisionType → Json → Overrides → Overrides
overridden tools DecisionType.manual_override payload output =
    pop_each tools (cleared_of (as_list (get "cleared_fields" payload)))
      (update (members_of (get "overrides" payload)) output)
overridden tools _ payload output = output

unfoldable pub override_each : Tools → List DecisionRecord → Overrides → Overrides
override_each tools [] output = output
override_each tools (d ∷ rest) output =
    override_each tools rest (overridden tools d.decision_type d.payload output)

unfoldable pub manual_overrides : Tools → Source → List DecisionRecord → Overrides
manual_overrides tools source decisions = override_each tools (decision_history source decisions) []

unfoldable pub clear_rejection :
    Source → String → String → String → DecisionTables → DecisionRecord × DecisionTables
clear_rejection source key evidence now tables =
    add_decision source DecisionType.unresolved
      (record {
        evidence_hash = evidence;
        candidate_key = some key;
        candidate_data_hash = none;
        payload = object (field "cleared_rejection" (boolean true) empty);
        batch_id = none;
      })
      now tables

abbrev plain_entry : String → Json → Entry
plain_entry evidence payload = record {
  evidence_hash = evidence;
  candidate_key = none;
  candidate_data_hash = none;
  payload = payload;
  batch_id = none;
}

abbrev reopened :
    Source
    → String
    → DecisionTables
    → Option DecisionRecord
    → Result (DecisionRecord × DecisionTables)
reopened source now tables none =
    error (exception value_error "source has no current review decision to reopen")
reopened source now tables (some previous) = done (
    add_decision source DecisionType.unresolved
      (plain_entry previous.source_evidence_hash
        (object (field "reason" (text "review_reopened") (field "explicit" (boolean false) empty))))
      now tables)

unfoldable pub reopen_review :
    Source → String → DecisionTables → Result (DecisionRecord × DecisionTables)
reopen_review source now tables =
    reopened source now tables (latest_decision source tables.decisions)

abbrev has_override : String → Overrides → Bool
has_override name output = any (λ f. f.0 == name) output

-- `add_manual_override`, behind `validate_manual_override`
unfoldable pub add_manual_override :
    Tools
    → Source
    → String
    → String
    → Json
    → String
    → DecisionTables
    → DecisionRecord × DecisionTables
add_manual_override tools source evidence name value now tables =
    add_decision source DecisionType.manual_override
      (plain_entry evidence (
        object (
          field "overrides"
            (object
              (fields_of (insert name value (manual_overrides tools source tables.decisions))))
            (field "provenance" (text "user") empty))))
      now tables

unfoldable pub clear_manual_override :
    Tools
    → Source
    → String
    → String
    → String
    → DecisionTables
    → Result (DecisionRecord × DecisionTables)
clear_manual_override tools source evidence name now tables =
    if has_override name (manual_overrides tools source tables.decisions)
    then done (
        add_decision source DecisionType.manual_override
          (plain_entry evidence (
            object (
              field "cleared_fields" (array (item (text name) nil))
                (field "provenance" (text "user") empty))))
          now tables)
    else error (exception value_error "manual override is not set")

-- REVIEW_COMPLETE_DECISION_TYPES
abbrev pub is_review_complete : DecisionType → Bool
is_review_complete manual_override = false
is_review_complete _ = true

abbrev reopens : DecisionType → Option String → Bool
reopens DecisionType.unresolved (some reason) =
    reason == "run_group_changed" || reason == "review_reopened"
reopens _ reason = false

abbrev is_number : ℕ → Option ℕ → Bool
is_number n none = false
is_number n (some m) = n == m

-- The reason of a payload is a text.
unfoldable pub decision_needs_review : Option DecisionRecord → String → Option ℕ → Bool → Bool
decision_needs_review none evidence required_newer_than require_newer = true
decision_needs_review (some d) evidence required_newer_than require_newer =
    not (d.source_evidence_hash == evidence)
    || (not (is_review_complete d.decision_type)
        || (reopens d.decision_type (as_text (get "reason" d.payload))
            || (require_newer && is_number d.id required_newer_than)))
