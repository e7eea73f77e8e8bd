-- ===== src/Decisions/Isbn.antt =====
-- `_valid_isbn` of src/kavita_ingest/decisions.py. A value is the list of its characters' codes, of
-- which only the digits and X (88) are left there.
use kavita_ingest.Prelude.{
  ℕ, ◌+◌, ◌-◌, ◌*◌, ◌%◌, Bool, false, ◌&&◌, Option, none, some, List, [], ◌∷◌, ◌==◌, nat_Eq, leb,
  all, length, if◌then◌else◌,
}

abbrev pub is_digit : ℕ → Bool
is_digit c = leb 48 c && leb c 57

-- int(char); `none` is the ValueError for X.
abbrev pub digit : ℕ → Option ℕ
digit c = if is_digit c then some (c - 48) else none

-- 10 if char == "X" and index == 9 else int(char)
abbrev pub check_digit : ℕ → Option ℕ
check_digit c = if c == 88 then some 10 else digit c

abbrev pub plus : Option ℕ → Option ℕ → Option ℕ
plus none n = none
plus (some m) none = none
plus (some m) (some n) = some (m + n)

abbrev pub times : ℕ → Option ℕ → Option ℕ
times w none = none
times w (some d) = some (w * d)

abbrev pub digit_at : ℕ → ℕ → Option ℕ
digit_at weight c = if weight == 1 then check_digit c else digit c

-- sum((10 - index) * digit for …), from the weight `10 - index` on
unfoldable pub sum_10 : ℕ → List ℕ → Option ℕ
sum_10 weight [] = some 0
sum_10 weight (c ∷ rest) = plus (times weight (digit_at weight c)) (sum_10 (weight - 1) rest)

abbrev pub weight_13 : ℕ → ℕ
weight_13 index = if index % 2 == 0 then 1 else 3

-- sum(int(char) * (1 if index % 2 == 0 else 3) for …)
unfoldable pub sum_13 : ℕ → List ℕ → Option ℕ
sum_13 index [] = some 0
sum_13 index (c ∷ rest) = plus (times (weight_13 index) (digit c)) (sum_13 (index + 1) rest)

abbrev pub is_multiple : Option ℕ → (ℕ → ℕ) → Option Bool
is_multiple none remainder = none
is_multiple (some n) remainder = some (remainder n == 0)

-- `none` is the ValueError of int().
unfoldable pub valid_isbn : List ℕ → Option Bool
valid_isbn value =
    if length value == 10
    then is_multiple (sum_10 10 value) (λ n. n % 11)
    else if length value == 13 && all is_digit value
    then is_multiple (sum_13 0 value) (λ n. n % 10)
    else some false
