-- ===== src/Sequences/RoundTrip.antt =====
-- A sequence number that is printed and read again.
use mathlib.Core.Path.{subst}
use kavita_ingest.Prelude.{
  ℕ, zero, suc, ◌+◌, ◌-◌, ◌*◌, ◌≡◌, ◌≢◌, refl, sym, ap, ◌∙◌, Bool, true, false, ◌&&◌, some, [], ◌∷◌,
  ◌++◌, ◌==◌, nat_Eq, all, leb, ◌≤◌, Option, none, length, if◌then◌else◌, if_cases, arith,
}
use kavita_ingest.Sequences.{
  Text, SequenceNumber, integer, is_space, is_digit, is_zero, drop_start, drop_end, put_end, strip,
  span, value, or_zero, int_text, zeros, padded, number_of, ranged, are_digits, is_letter, followed,
  parsed, parse, larger, render, max_digits, with_int,
}

both : (a b : Bool) → (a && b) ≡ true → (a ≡ true) × (b ≡ true)
both true b e = (refl, e)
both false b e = cc

joined : (a b : Bool) → a ≡ true → b ≡ true → (a && b) ≡ true
joined true b e h = h
joined false b e h = cc

digit_not_space : (c : ℕ) → is_digit c ≡ true → is_space c ≡ false
digit_not_space c e = ground (arith, e)

span-all : (s : Text) → all is_digit s ≡ true → span s ≡ (s, [])
unfolding span
span-all [] e = refl
span-all (c ∷ s) e =
    let (first, rest) = both (is_digit c) (all is_digit s) e in
    ap (λ p. if is_digit c then (c ∷ p.0, p.1) else ([], c ∷ s)) (span-all s rest)
    ∙ ap (λ b. if b then (c ∷ s, []) else ([], c ∷ s)) first

all-span : (s : Text) → all is_digit (span s).0 ≡ true
unfolding span
all-span [] = refl
all-span (c ∷ s) =
    if_cases {A = Text × Text} (λ p. all is_digit p.0 ≡ true) (is_digit c)
      (λ e. joined (is_digit c) (all is_digit (span s).0) e (all-span s)) (λ e. refl)

drop_end-all : (s : Text) → all is_digit s ≡ true → drop_end is_space s ≡ s
unfolding drop_end
drop_end-all [] e = refl
drop_end-all (c ∷ s) e =
    let (first, rest) = both (is_digit c) (all is_digit s) e in
    ap (λ t. put_end (is_space c) c t) (drop_end-all s rest)
    ∙ ap (λ b. put_end b c s) (digit_not_space c first)
    ∙ plain s
  where
    plain : (s : Text) → put_end false c s ≡ c ∷ s
    plain [] = refl
    plain (d ∷ s) = refl

strip-all : (s : Text) → all is_digit s ≡ true → strip s ≡ s
unfolding strip drop_start
strip-all [] e = drop_end-all [] refl
strip-all (c ∷ s) e =
    ap (λ b. drop_end is_space (if b then drop_start is_space s else c ∷ s))
      (digit_not_space c (both (is_digit c) (all is_digit s) e).0)
    ∙ drop_end-all (c ∷ s) e

-- A text of digits is an integer.
parse-all :
    (s : Text)
    → all is_digit s ≡ true
    → s ≢ []
    → leb (length s) max_digits ≡ true
    → parse s ≡ some (number_of s s)
unfolding parse
parse-all [] e h few = absurd (h refl)
parse-all (c ∷ s) e h few =
    ap parsed (strip-all (c ∷ s) e)
    ∙ ap (λ p. followed (c ∷ s) p.0 p.1) (span-all (c ∷ s) e)
    ∙ ap (λ b. if b then some (number_of (c ∷ s) (c ∷ s)) else none) few

span-join : (s : Text) → (span s).0 ++ (span s).1 ≡ s
unfolding span
span-join [] = refl
span-join (c ∷ s) =
    if_cases {A = Text × Text} (λ p. p.0 ++ p.1 ≡ c ∷ s) (is_digit c)
      (λ e. ap (λ t. c ∷ t) (span-join s)) (λ e. refl)

length-zeros : (k : ℕ) (s : Text) → length (zeros k ++ s) ≡ k + length s
unfolding zeros
length-zeros zero s = omega arith
length-zeros (suc k) s = omega (arith, length-zeros k s)

length-drop_start : (test : ℕ → Bool) (s : Text) → length (drop_start test s) ≤ length s
unfolding drop_start
length-drop_start test [] = omega arith
length-drop_start test (c ∷ s) = by (test c) (length-drop_start test s)
  where
    by :
        (b : Bool)
        → length (drop_start test s) ≤ length s
        → length (if b then drop_start test s else c ∷ s) ≤ length (c ∷ s)
    by true h = omega (arith, h)
    by false h = omega arith

length-int_text : (s : Text) (n : ℕ) → length s ≤ n → 1 ≤ n → length (int_text s) ≤ n
unfolding int_text
length-int_text s n h one = by (drop_start is_zero s) (length-drop_start is_zero s)
  where
    by : (t : Text) → length t ≤ length s → length (or_zero t) ≤ n
    by [] e = one
    by (c ∷ t) e = omega (arith, e, h)

int_text-zeros : (k : ℕ) (s : Text) → int_text (zeros k ++ s) ≡ int_text s
unfolding int_text zeros drop_start
int_text-zeros zero s = refl
int_text-zeros (suc k) s = int_text-zeros k s

value-zeros : (k : ℕ) (s : Text) → value 0 (zeros k ++ s) ≡ value 0 s
unfolding value zeros
value-zeros zero s = refl
value-zeros (suc k) s = value-zeros k s

drop_start-twice :
    (test : ℕ → Bool) (s : Text) → drop_start test (drop_start test s) ≡ drop_start test s
unfolding drop_start
drop_start-twice test [] = refl
drop_start-twice test (c ∷ s) =
    if_cases (λ t. drop_start test t ≡ t) (test c) (λ e. drop_start-twice test s)
      (λ e. ap (λ b. if b then drop_start test s else c ∷ s) e)

all-drop_start : (s : Text) → all is_digit s ≡ true → all is_digit (drop_start is_zero s) ≡ true
unfolding drop_start
all-drop_start [] e = refl
all-drop_start (c ∷ s) e =
    if_cases (λ t. all is_digit t ≡ true) (is_zero c)
      (λ h. all-drop_start s (both (is_digit c) (all is_digit s) e).1) (λ h. e)

int_text-twice : (s : Text) → int_text (int_text s) ≡ int_text s
unfolding int_text drop_start
int_text-twice s = by (drop_start is_zero s) (drop_start-twice is_zero s)
  where
    by :
        (t : Text) → drop_start is_zero t ≡ t → or_zero (drop_start is_zero (or_zero t)) ≡ or_zero t
    by [] e = refl
    by (c ∷ t) e = ap or_zero e

value-drop_start : (s : Text) → value 0 (drop_start is_zero s) ≡ value 0 s
unfolding value drop_start
value-drop_start [] = refl
value-drop_start (c ∷ s) =
    if_cases (λ t. value 0 t ≡ value 0 (c ∷ s)) (is_zero c)
      (λ e. value-drop_start s ∙ ap (λ n. value n s) (zero_digit c e)) (λ e. refl)
  where
    zero_digit : (c : ℕ) → is_zero c ≡ true → 0 ≡ 0 * 10 + (c - 48)
    zero_digit c e = ground (arith, e)

value-int_text : (s : Text) → value 0 (int_text s) ≡ value 0 s
unfolding value int_text
value-int_text s = by (drop_start is_zero s) (value-drop_start s)
  where
    by : (t : Text) → value 0 t ≡ value 0 s → value 0 (or_zero t) ≡ value 0 s
    by [] e = e
    by (c ∷ t) e = e

all-int_text : (s : Text) → all is_digit s ≡ true → all is_digit (int_text s) ≡ true
unfolding int_text
all-int_text s e = by (drop_start is_zero s) (all-drop_start s e)
  where
    by : (t : Text) → all is_digit t ≡ true → all is_digit (or_zero t) ≡ true
    by [] e = refl
    by (c ∷ t) e = e

all-zeros : (k : ℕ) (s : Text) → all is_digit s ≡ true → all is_digit (zeros k ++ s) ≡ true
unfolding zeros
all-zeros zero s e = e
all-zeros (suc k) s e = all-zeros k s e

zeros-nonempty : (k : ℕ) (s : Text) → (zeros k ++ int_text s) ≢ []
unfolding zeros int_text
zeros-nonempty zero s e = by (drop_start is_zero s) e
  where
    by : (t : Text) → or_zero t ≡ [] → ⊥
    by [] e = cc
    by (c ∷ t) e = cc
zeros-nonempty (suc k) s e = cc

-- What parses as an integer.
record IsInteger (s : SequenceNumber) : Type 0 where
  digits : Text
  all_digits : all is_digit digits ≡ true
  few : leb (length digits) max_digits ≡ true
  same : s ≡ number_of digits digits

module _ (s : SequenceNumber) (is_integer : s.kind ≡ integer) where
  some_injective : {x y : SequenceNumber} → some x ≡ some y → x ≡ y
  some_injective e = cc

  abbrev Fits : Option SequenceNumber → Type 0
  Fits o = o ≡ some s → IsInteger s

  Fits-other : (n : SequenceNumber) → (n.kind ≡ integer → ⊥) → Fits (some n)
  Fits-other n apart e = absurd (apart (ap (λ x. x.kind) (some_injective e) ∙ is_integer))

  Fits-with_int : (digits : Text) (o : Option SequenceNumber) → Fits o → Fits (with_int digits o)
  Fits-with_int digits o h =
      if_cases Fits (leb (length digits) max_digits) (λ few. h) (λ many e. cc)

  Fits-ranged : (raw start rest : Text) → Fits (ranged raw start rest)
  Fits-ranged raw start [] = Fits-other _ (λ k. cc)
  Fits-ranged raw start (c ∷ t) =
      if_cases Fits (c == 45 && are_digits (drop_start is_space t))
        (λ h.
          Fits-with_int start _ (Fits-with_int (drop_start is_space t) _ (Fits-other _ (λ k. cc))))
        (λ h. Fits-other _ (λ k. cc))

  Fits-followed :
      (raw digits rest : Text)
      → all is_digit digits ≡ true
      → digits ++ rest ≡ raw
      → Fits (followed raw digits rest)
  Fits-followed raw [] rest all_digits whole = Fits-other _ (λ k. cc)
  Fits-followed raw (d ∷ digits) [] all_digits whole =
      if_cases Fits (leb (length (d ∷ digits)) max_digits)
        (λ few e. record {
          digits = d ∷ digits;
          all_digits = all_digits;
          few = few;
          same =
              sym (some_injective e)
              ∙ ap (λ t. number_of t (d ∷ digits)) (sym whole ∙ append_nil (d ∷ digits));
        })
        (λ many e. cc)
    where
      append_nil : (t : Text) → t ++ [] ≡ t
      append_nil [] = refl
      append_nil (c ∷ t) = ap (λ u. c ∷ u) (append_nil t)
  Fits-followed raw (d ∷ digits) (c ∷ t) all_digits whole =
      if_cases Fits (c == 46 && are_digits t)
        (λ h. Fits-with_int (d ∷ digits) _ (Fits-other _ (λ k. cc)))
        λ h.
          if_cases Fits (all is_letter (c ∷ t))
            (λ h. Fits-with_int (d ∷ digits) _ (Fits-other _ (λ k. cc)))
            λ h. Fits-ranged raw (d ∷ digits) (drop_start is_space (c ∷ t))

  parse-IsInteger : (v : Text) → parse v ≡ some s → IsInteger s
  unfolding parse
  parse-IsInteger v = by (strip v)
    where
      by : (t : Text) → parsed t ≡ some s → IsInteger s
      by [] e = cc
      by (c ∷ t) e =
          Fits-followed (c ∷ t) (span (c ∷ t)).0 (span (c ∷ t)).1 (all-span (c ∷ t))
            (span-join (c ∷ t)) e

printed :
    (digits : Text) (minimum : ℕ)
    → all is_digit digits ≡ true
    → leb (length digits) max_digits ≡ true
    → minimum ≤ max_digits
    → let n = number_of digits digits in
      (t : SequenceNumber) × (parse (render minimum n) ≡ some t)
      × (t.kind ≡ n.kind)
      × (t.normalized ≡ n.normalized)
      × (t.sort_key ≡ n.sort_key)
unfolding render padded
printed digits minimum e few low =
    let same = int_text-twice digits in
    let all_there = all-int_text (int_text digits) (all-int_text digits e) in
    (
      number_of text text,
      parse-all text (all-zeros fill (int_text (int_text digits)) all_there)
          (zeros-nonempty fill (int_text digits)) fits,
      refl,
      int_text-zeros fill (int_text (int_text digits)) ∙ int_text-twice (int_text digits) ∙ same,
      ap (λ n. (0, n, []))
          (value-zeros fill (int_text (int_text digits))
            ∙ value-int_text (int_text digits)
            ∙ value-int_text digits),
    )
  where
    fill : ℕ
    fill = larger minimum (length digits) - length (int_text (int_text digits))

    text : Text
    text = zeros fill ++ int_text (int_text digits)

    within :
        (m n k : ℕ)
        → m ≤ max_digits
        → leb n max_digits ≡ true
        → k ≤ max_digits
        → leb ((larger m n - k) + k) max_digits ≡ true
    within m n k a b c = ground (arith, a, b, c)

    fits : leb (length text) max_digits ≡ true
    fits =
        let at_most : length digits ≤ max_digits = ground (arith, few) in
        let inner = length-int_text digits max_digits at_most (omega arith) in
        let short = length-int_text (int_text digits) max_digits inner (omega arith) in
        ap (λ n. leb n max_digits) (length-zeros fill (int_text (int_text digits)))
        ∙ within minimum (length digits) (length (int_text (int_text digits))) low few short

-- An integer that was read from a text is read again from its rendering, at every width up to the
-- 4300 digits that `int` takes: with the same value, and with the same normal form and sort key.
pub parse-render :
    (v : Text) (s : SequenceNumber) (minimum : ℕ)
    → parse v ≡ some s
    → s.kind ≡ integer
    → minimum ≤ max_digits
    → (t : SequenceNumber) × (parse (render minimum s) ≡ some t)
      × (t.kind ≡ s.kind)
      × (t.normalized ≡ s.normalized)
      × (t.sort_key ≡ s.sort_key)
parse-render v s minimum e k low =
    let h = parse-IsInteger s k v e in
    subst
      (λ n.
        (t : SequenceNumber) × (parse (render minimum n) ≡ some t)
        × (t.kind ≡ n.kind)
        × (t.normalized ≡ n.normalized)
        × (t.sort_key ≡ n.sort_key))
      (sym h.same) (printed h.digits minimum h.all_digits h.few low)
