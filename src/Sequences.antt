-- ===== src/Sequences.antt =====
-- `SequenceNumber` of src/kavita_ingest/domain.py, over texts of ASCII characters: a text is the list
-- of its codes. `int` is that of Python with its limit on the digits of a text at the default, 4300.
pub mod RoundTrip
use kavita_ingest.Prelude.{
  ℕ, zero, suc, ◌+◌, ◌-◌, ◌*◌, Bool, true, false, not, ◌&&◌, ◌||◌, Option, none, some, List, [],
  ◌∷◌, ◌++◌, ◌==◌, nat_Eq, ltb, leb, all, length, map, if◌then◌else◌,
}

abbrev pub Text : Type 0
Text = List ℕ

pub data SequenceKind : Type 0 where
  integer decimal alphanumeric range symbolic : SequenceKind

pub record SequenceNumber : Type 0 where
  pub raw : Text
  pub normalized : Text
  pub kind : SequenceKind
  pub sort_key : ℕ × ℕ × Text
  pub width : Option ℕ

abbrev pub is_space : ℕ → Bool
is_space c = leb 9 c && leb c 13 || leb 28 c && leb c 32

abbrev pub is_digit : ℕ → Bool
is_digit c = leb 48 c && leb c 57

abbrev is_upper : ℕ → Bool
is_upper c = leb 65 c && leb c 90

abbrev is_lower : ℕ → Bool
is_lower c = leb 97 c && leb c 122

abbrev pub is_letter : ℕ → Bool
is_letter c = is_upper c || is_lower c

abbrev upper : ℕ → ℕ
upper c = if is_lower c then c - 32 else c

abbrev lower : ℕ → ℕ
lower c = if is_upper c then c + 32 else c

unfoldable pub drop_start : (ℕ → Bool) → Text → Text
drop_start test [] = []
drop_start test (c ∷ s) = let rest = drop_start test s in if test c then rest else c ∷ s

abbrev put_end : Bool → ℕ → Text → Text
put_end true c [] = []
put_end false c [] = c ∷ []
put_end b c (d ∷ s) = c ∷ d ∷ s

unfoldable pub drop_end : (ℕ → Bool) → Text → Text
drop_end test [] = []
drop_end test (c ∷ s) = put_end (test c) c (drop_end test s)

unfoldable pub strip : Text → Text
strip s = drop_end is_space (drop_start is_space s)

-- The digits at the start, and what follows them.
unfoldable pub span : Text → Text × Text
span [] = ([], [])
span (c ∷ s) = let (digits, rest) = span s in if is_digit c then (c ∷ digits, rest) else ([], c ∷ s)

-- int(…) of digits
unfoldable pub value : ℕ → Text → ℕ
value n [] = n
value n (c ∷ s) = value (n * 10 + (c - 48)) s

abbrev pub is_zero : ℕ → Bool
is_zero c = c == 48

abbrev pub or_zero : Text → Text
or_zero [] = 48 ∷ []
or_zero (c ∷ s) = c ∷ s

-- str(int(…)) of digits: without the zeros at the start
unfoldable pub int_text : Text → Text
int_text s = or_zero (drop_start is_zero s)

unfoldable pub zeros : ℕ → Text
zeros zero = []
zeros (suc n) = 48 ∷ zeros n

-- f"{int(s):0{width}d}"
unfoldable pub padded : ℕ → Text → Text
padded width s = zeros (width - length (int_text s)) ++ int_text s

-- fraction.rstrip("0") or "0", and .ljust(18, "0")
abbrev fraction_text : Text → Text
fraction_text s = or_zero (drop_end is_zero s)

-- re.sub(r"\s+", " ", s)
abbrev collapsed : Bool → ℕ → Text → Text
collapsed false c s = c ∷ s
collapsed true c [] = 32 ∷ []
collapsed true c (d ∷ s) = if d == 32 then d ∷ s else 32 ∷ d ∷ s

unfoldable pub collapse : Text → Text
collapse [] = []
collapse (c ∷ s) = collapsed (is_space c) c (collapse s)

abbrev pub symbolic_of : Text → SequenceNumber
symbolic_of raw =
    let normalized = map upper (collapse raw) in
    record {
      raw = raw;
      normalized = normalized;
      kind = symbolic;
      sort_key = (4, 0, map lower normalized);
      width = none;
    }

abbrev pub number_of : Text → Text → SequenceNumber
number_of raw digits = record {
  raw = raw;
  normalized = int_text digits;
  kind = integer;
  sort_key = (0, value 0 digits, []);
  width = some (length raw);
}

abbrev pub decimal_of : Text → Text → Text → SequenceNumber
decimal_of raw whole fraction = record {
  raw = raw;
  normalized = int_text whole ++ 46 ∷ fraction_text fraction;
  kind = decimal;
  sort_key =
      (1, value 0 whole, fraction_text fraction ++ zeros (18 - length (fraction_text fraction)));
  width = none;
}

abbrev pub alphanumeric_of : Text → Text → Text → SequenceNumber
alphanumeric_of raw digits suffix = record {
  raw = raw;
  normalized = int_text digits ++ map upper suffix;
  kind = alphanumeric;
  sort_key = (2, value 0 digits, map lower suffix);
  width = none;
}

abbrev pub range_of : Text → Text → Text → SequenceNumber
range_of raw start end = record {
  raw = raw;
  normalized = int_text start ++ 45 ∷ int_text end;
  kind = range;
  sort_key = (3, value 0 start, padded 9 end);
  width = none;
}

abbrev pub are_digits : Text → Bool
are_digits [] = false
are_digits (c ∷ s) = all is_digit (c ∷ s)

-- sys.get_int_max_str_digits()
abbrev pub max_digits : ℕ
max_digits = 4300

-- int(…) of digits raises ValueError where they are too many.
abbrev pub with_int : Text → Option SequenceNumber → Option SequenceNumber
with_int digits result = if leb (length digits) max_digits then result else none

abbrev pub ranged : Text → Text → Text → Option SequenceNumber
ranged raw start [] = some (symbolic_of raw)
ranged raw start (c ∷ s) =
    if c == 45 && are_digits (drop_start is_space s)
    then with_int start
        (with_int (drop_start is_space s) (some (range_of raw start (drop_start is_space s))))
    else some (symbolic_of raw)

-- What follows the digits at the start decides the kind.
abbrev pub followed : Text → Text → Text → Option SequenceNumber
followed raw [] rest = some (symbolic_of raw)
followed raw (d ∷ digits) [] = with_int (d ∷ digits) (some (number_of raw (d ∷ digits)))
followed raw (d ∷ digits) (c ∷ s) =
    if c == 46 && are_digits s
    then with_int (d ∷ digits) (some (decimal_of raw (d ∷ digits) s))
    else if all is_letter (c ∷ s)
    then with_int (d ∷ digits) (some (alphanumeric_of raw (d ∷ digits) (c ∷ s)))
    else ranged raw (d ∷ digits) (drop_start is_space (c ∷ s))

abbrev pub parsed : Text → Option SequenceNumber
parsed [] = none
parsed (c ∷ s) = followed (c ∷ s) (span (c ∷ s)).0 (span (c ∷ s)).1

-- `parse`; `none` is the ValueError.
unfoldable pub parse : Text → Option SequenceNumber
parse v = parsed (strip v)

abbrev pub width_or_zero : Option ℕ → ℕ
width_or_zero none = 0
width_or_zero (some n) = n

abbrev pub larger : ℕ → ℕ → ℕ
larger m n = if ltb m n then n else m

abbrev pub rendered : ℕ → SequenceKind → SequenceNumber → Text
rendered minimum integer s = padded (larger minimum (width_or_zero s.width)) s.normalized
rendered minimum _ s = s.normalized

unfoldable pub render : ℕ → SequenceNumber → Text
render minimum s = rendered minimum s.kind s
