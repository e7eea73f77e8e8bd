-- ===== src/Engine/Preparation.antt =====
-- Two checks of src/kavita_ingest/apply_engine.py from before a run: `_safe_item_id` and
-- `_estimated_space`.
use kavita_ingest.Prelude.{
  ℕ, ◌+◌, ◌*◌, ◌/◌, String, Bool, ◌&&◌, ◌||◌, Option, none, some, List, [], ◌∷◌, ◌==◌, string_Eq,
  nat_Eq, leb, all, if◌then◌else◌,
}
use kavita_ingest.Engine.Item.{PreparedItem}
use kavita_ingest.Engine.Versions.{codes}

abbrev is_id_char : ℕ → Bool
is_id_char c =
    leb 97 c && leb c 122 || leb 65 c && leb c 90 || leb 48 c && leb c 57 || c == 45 || c == 95

-- `none` is that ApplyRefused is raised.
unfoldable pub safe_item_id : String → Option String
safe_item_id text =
    if text == "" then none else if all is_id_char (codes text) then some text else none

abbrev sum : List ℕ → ℕ
sum [] = 0
sum (n ∷ ns) = n + sum ns

abbrev larger : ℕ → ℕ → ℕ
larger a b = if leb a b then b else a

-- The sizes are those of the plan's expected inventory; int(estimate * 1.25) is exact below 2 ^ 53.
unfoldable pub estimated_space : PreparedItem → List ℕ → ℕ
estimated_space item inventory = larger 67108864 (
    (5
      * (if item.source_format == "cbr"
          then larger (item.source_size * 4) (sum inventory * 2 + item.source_size)
          else larger (item.source_size * 2) (sum inventory + item.source_size)))
    / 4)
