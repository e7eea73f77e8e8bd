-- ===== src/Engine/Prepare.antt =====
-- What the engine reads of a plan's item: `_publication_modes` and `_lifecycle` of
-- src/kavita_ingest/apply_engine.py.
pub mod Modes
use kavita_ingest.Prelude.{
  ℕ, String, Bool, true, false, not, ◌&&◌, ◌||◌, Option, none, some, List, [], ◌∷◌, ◌==◌, string_Eq,
  nat_Eq, last_of, if◌then◌else◌,
}
use kavita_ingest.Filesystem.State.{FilePath}
use kavita_ingest.Json.{Json, get, has, is_object, as_list, as_text, as_number}
use kavita_ingest.Journal.States.{Policy, preserve, move_after_verify, archive_after_verify}
use kavita_ingest.Effect.{Result, done, error, exception, apply_refused}
use kavita_ingest.Plans.Document.{octal_mode, number_in}
use kavita_ingest.Plans.Store.{legacy_message}
use kavita_ingest.Engine.Versions.{codes}

-- What is given: `str` of other values, `int` with base 8 of texts that are not four octal digits, and
-- `Path(…).expanduser()`.
pub record Reading : Type 0 where
  pub str : Json → String
  pub int_8 : String → Option ℕ
  pub path : String → FilePath

abbrev text_of : Reading → Json → String
text_of r j = elim (as_text j) [ none ↦ r.str j | some s ↦ s ]

abbrev pub base_8 : Reading → String → Option ℕ
base_8 r s = elim (octal_mode (codes s)) [ none ↦ r.int_8 s | some n ↦ some n ]

-- int(str(permissions[name]), 8); a KeyError, a TypeError and a ValueError are refused alike.
abbrev pub mode_at : Reading → String → Json → Option ℕ
mode_at r name permissions =
    if has name permissions then base_8 r (text_of r (get name permissions)) else none

abbrev pub modes_of : Option ℕ → Option ℕ → Result (ℕ × ℕ)
modes_of none directory =
    error (exception apply_refused "invalid immutable publication permissions")
modes_of (some file) none =
    error (exception apply_refused "invalid immutable publication permissions")
modes_of (some file) (some directory) = done (file, directory)

-- A policy without permissions has `{}` there, which has no mode.
unfoldable pub publication_modes : Reading → Json → Result (ℕ × ℕ)
publication_modes r item =
    if not (
      is_object (get "planning_policy" item)
      && number_in (2 ∷ []) (as_number (get "version" (get "planning_policy" item))))
    then error (exception apply_refused legacy_message)
    else if has "permissions" (get "planning_policy" item)
        && not (is_object (get "permissions" (get "planning_policy" item)))
    then error (exception apply_refused "immutable planning policy lacks publication permissions")
    else modes_of (mode_at r "file_mode" (get "permissions" (get "planning_policy" item)))
        (mode_at r "directory_mode" (get "permissions" (get "planning_policy" item)))

abbrev policy_named : String → Option Policy
policy_named s =
    if s == "remove_source_after_verified_commit" || s == "move_after_verify"
    then some move_after_verify
    else if s == "retain_source" || s == "preserve"
    then some preserve
    else if s == "archive_after_verify"
    then some archive_after_verify
    else none

abbrev archive_at : Reading → Option String → Result (Policy × Option FilePath)
archive_at r none =
    error (exception apply_refused "archive lifecycle lacks an immutable archive path")
archive_at r (some value) =
    if value == ""
    then error (exception apply_refused "archive lifecycle lacks an immutable archive path")
    else done (archive_after_verify, some (r.path value))

abbrev lifecycle_by : Reading → Json → Option Policy → Result (Policy × Option FilePath)
lifecycle_by r final none = error (exception apply_refused "unsupported planned source lifecycle")
lifecycle_by r final (some archive_after_verify) = archive_at r (as_text (get "archive_path" final))
lifecycle_by r final (some policy) = done (policy, none)

abbrev actions_of : Json → List Json
actions_of j = elim (as_list j) [ none ↦ [] | some actions ↦ actions ]

-- `_lifecycle`: the last action counts.
unfoldable pub lifecycle : Reading → Json → Result (Policy × Option FilePath)
lifecycle r item = elim (last_of (actions_of (get "lifecycle_actions" item))) [
  | none ↦ error (exception apply_refused "plan item has no source lifecycle action")
  | some final ↦ lifecycle_by r final (policy_named (text_of r (get "action" final)))
]
