-- ===== src/Engine/Versions.antt =====
-- `_version_satisfies` of src/kavita_ingest/apply_engine.py, over the code points of the texts.
use Prim.Native.Char.{code}
use Prim.Native.String.{String}
use kavita_ingest.Prelude.{
  ℕ, ◌+◌, ◌-◌, ◌*◌, Bool, true, false, ◌&&◌, ◌||◌, Option, none, some, List, [], ◌∷◌, ◌==◌, nat_Eq,
  leb, length, if◌then◌else◌,
}

abbrev pub codes : String → List ℕ
codes String.[] = []
codes (String.◌∷◌ c s) = code c ∷ codes s

unfoldable pub starts_with : List ℕ → List ℕ → Bool
starts_with [] text = true
starts_with (c ∷ prefix) [] = false
starts_with (c ∷ prefix) (d ∷ text) = c == d && starts_with prefix text

-- `expected in actual`
unfoldable pub contains : List ℕ → List ℕ → Bool
unfolding starts_with
contains part [] = starts_with part []
contains part (d ∷ text) = starts_with part (d ∷ text) || contains part text

abbrev pub is_digit : ℕ → Bool
is_digit c = leb 48 c && leb c 57

abbrev digit_follows : List ℕ → Bool
digit_follows [] = false
digit_follows (c ∷ text) = is_digit c

-- The numbers of a dotted version that begins in the digits whose value so far is `value`.
unfoldable pub dotted : ℕ → List ℕ → List ℕ
dotted value [] = value ∷ []
dotted value (c ∷ text) =
    let more = dotted (value * 10 + (c - 48)) text in
    let next = value ∷ dotted 0 text in
    if is_digit c then more else if c == 46 && digit_follows text then next else value ∷ []

-- The numbers of the first match of \d+(?:\.\d+)+
unfoldable pub version_numbers : List ℕ → Option (List ℕ)
unfolding dotted
version_numbers [] = none
version_numbers (c ∷ text) =
    let later = version_numbers text in
    if is_digit c && leb 2 (length (dotted (c - 48) text))
    then some (dotted (c - 48) text)
    else later

abbrev keep_unless_zero : ℕ → List ℕ → List ℕ
keep_unless_zero n [] = if n == 0 then [] else n ∷ []
keep_unless_zero n (m ∷ rest) = n ∷ m ∷ rest

-- while numbers and numbers[-1] == 0: numbers = numbers[:-1]
unfoldable pub drop_zeros : List ℕ → List ℕ
drop_zeros [] = []
drop_zeros (n ∷ rest) = keep_unless_zero n (drop_zeros rest)

unfoldable pub numbers_eq : List ℕ → List ℕ → Bool
numbers_eq [] [] = true
numbers_eq (n ∷ ns) (m ∷ ms) = n == m && numbers_eq ns ms
numbers_eq [] (m ∷ ms) = false
numbers_eq (n ∷ ns) [] = false

abbrev is_nonempty : List ℕ → Bool
is_nonempty [] = false
is_nonempty (n ∷ ns) = true

unfoldable pub same_numbers : Option (List ℕ) → Option (List ℕ) → Bool
unfolding drop_zeros numbers_eq
same_numbers (some ns) (some ms) =
    is_nonempty (drop_zeros ns) && numbers_eq (drop_zeros ns) (drop_zeros ms)
same_numbers (some ns) none = false
same_numbers none ms = false

unfoldable pub version_satisfies : List ℕ → List ℕ → Bool
unfolding contains version_numbers same_numbers
version_satisfies expected actual =
    if contains expected actual
    then true
    else same_numbers (version_numbers expected) (version_numbers actual)
