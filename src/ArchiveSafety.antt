-- ===== src/ArchiveSafety.antt =====
-- `validate_inventory` of src/kavita_ingest/archive_safety.py. A name is the list of its code
-- points, `casefold` is Python's, and the ratio of two sizes is compared with a fraction by
-- multiplying out, where the source divides floats.
pub mod Sound
pub mod Names
pub mod Pieces
pub mod Ends
pub mod Described
use kavita_ingest.Prelude.{
  ℕ, ◌+◌, ◌*◌, Bool, true, false, not, ◌&&◌, ◌||◌, Option, none, some, List, [], ◌∷◌, ◌==◌,
  codes_Eq, nat_Eq, ltb, leb, length, any, if◌then◌else◌,
}

abbrev pub Text : Type 0
Text = List ℕ

pub record ArchiveMember : Type 0 where
  pub filename : Text
  pub file_size : ℕ
  pub compress_size : ℕ
  pub is_dir : Bool

-- max_ratio = ratio / ratio_unit
pub record ArchiveLimits : Type 0 where
  pub max_entries : ℕ
  pub max_entry_bytes : ℕ
  pub max_total_bytes : ℕ
  pub max_path_depth : ℕ
  pub ratio : ℕ
  pub ratio_unit : ℕ

-- The reasons to raise `UnsafeArchive`.
pub data Unsafe : Type 0 where
  too_many_entries unsafe_path too_deep duplicate link encrypted too_large total_too_large : Unsafe
  ratio_too_high : Unsafe

-- filename.replace("\\", "/")
unfoldable pub forward_slashes : Text → Text
forward_slashes [] = []
forward_slashes (c ∷ s) = (if c == 92 then 47 else c) ∷ forward_slashes s

abbrev pub cons_first : ℕ → List Text → List Text
cons_first c [] = (c ∷ []) ∷ []
cons_first c (first ∷ rest) = (c ∷ first) ∷ rest

unfoldable pub split : Text → List Text
split [] = [] ∷ []
split (c ∷ s) = let rest = split s in if c == 47 then [] ∷ rest else cons_first c rest

abbrev pub dot : Text
dot = 46 ∷ []

abbrev pub dot_dot : Text
dot_dot = 46 ∷ 46 ∷ []

abbrev pub is_component : Text → Bool
is_component [] = false
is_component (c ∷ s) = not ((c ∷ s) == dot)

unfoldable pub components : List Text → List Text
components [] = []
components (name ∷ rest) =
    let others = components rest in if is_component name then name ∷ others else others

-- PurePosixPath(name).parts, of a name that is not absolute
abbrev pub parts : Text → List Text
parts name = components (split name)

abbrev pub is_letter : ℕ → Bool
is_letter c = leb 65 c && leb c 90 || leb 97 c && leb c 122

-- not name, path.is_absolute(), re.match(r"^[A-Za-z]:", name)
abbrev pub has_bad_start : Text → Bool
has_bad_start [] = true
has_bad_start (c ∷ []) = c == 47
has_bad_start (c ∷ d ∷ s) = c == 47 || is_letter c && d == 58

abbrev pub is_unsafe_path : Text → Bool
is_unsafe_path name = has_bad_start name || any (λ p. p == dot_dot) (parts name)

-- rstrip("/")
unfoldable pub strip_end : Text → Text
strip_end [] = []
strip_end (c ∷ s) = elim (strip_end s) [ [] ↦ if c == 47 then [] else c ∷ [] | d ∷ t ↦ c ∷ d ∷ t ]

abbrev pub is_among : Text → List Text → Bool
is_among name names = any (λ n. n == name) names

abbrev pub exceeds_ratio : ArchiveLimits → ArchiveMember → Bool
exceeds_ratio limits member =
    ltb 0 member.compress_size
    && ltb (limits.ratio * member.compress_size) (member.file_size * limits.ratio_unit)

module _ (casefold : Text → Text) (limits : ArchiveLimits) (links encrypted : List Text) where
  abbrev pub folded : ArchiveMember → Text
  folded member = strip_end (casefold (forward_slashes member.filename))

  -- The loop over the members; `none` is that nothing is raised.
  unfoldable pub check_members : List Text → ℕ → List ArchiveMember → Option Unsafe
  check_members seen total [] = none
  check_members seen total (member ∷ rest) =
      let name = forward_slashes member.filename in
      let skipped = check_members (folded member ∷ seen) total rest in
      let counted = check_members (folded member ∷ seen) (total + member.file_size) rest in
      if is_unsafe_path name
      then some unsafe_path
      else if ltb limits.max_path_depth (length (parts name))
      then some too_deep
      else if is_among (folded member) seen
      then some duplicate
      else if is_among name links
      then some link
      else if is_among name encrypted
      then some Unsafe.encrypted
      else if member.is_dir
      then skipped
      else if ltb limits.max_entry_bytes member.file_size
      then some too_large
      else if ltb limits.max_total_bytes (total + member.file_size)
      then some total_too_large
      else if exceeds_ratio limits member
      then some ratio_too_high
      else counted

  unfoldable pub validate_inventory : List ArchiveMember → Option Unsafe
  validate_inventory members =
      if ltb limits.max_entries (length members)
      then some too_many_entries
      else check_members [] 0 members
