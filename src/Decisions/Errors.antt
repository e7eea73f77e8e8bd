-- ===== src/Decisions/Errors.antt =====
-- The check digit of an ISBN finds every error in one character.
use mathlib.Core.Path.{subst}
use kavita_ingest.Prelude.{
  ℕ, zero, suc, ◌+◌, ◌-◌, ◌*◌, ◌%◌, ◌≤◌, ◌<◌, ◌≡◌, ◌≢◌, refl, sym, ap, ◌∙◌, ◌⊎◌, inl, inr, Bool,
  true, false, not, ◌&&◌, Option, none, some, List, [], ◌∷◌, ◌++◌, ◌==◌, nat_Eq, all, length,
  length-append, if_cases, arith,
}
use kavita_ingest.Decisions.Isbn.{
  is_digit, digit, digit_at, plus, times, sum_10, sum_13, weight_13, is_multiple, valid_isbn,
}

-- Two weighted sums over texts that differ in one character, whose weight is `w`.
record Differs (w a b s t : ℕ) (read : ℕ → Option ℕ) : Type 0 where
  x : ℕ
  y : ℕ
  first : read a ≡ some x
  second : read b ≡ some y
  balance : s + w * y ≡ t + w * x

plus_parts :
    (m n : Option ℕ) (s : ℕ)
    → plus m n ≡ some s
    → (x : ℕ) × (y : ℕ) × (m ≡ some x) × (n ≡ some y) × (s ≡ x + y)
plus_parts none n s e = cc
plus_parts (some x) none s e = cc
plus_parts (some x) (some y) s e = (x, y, refl, refl, cc)

times_part :
    (w : ℕ) (d : Option ℕ) (s : ℕ) → times w d ≡ some s → (x : ℕ) × (d ≡ some x) × (s ≡ w * x)
times_part w none s e = cc
times_part w (some x) s e = (x, refl, cc)

some_injective : {x y : ℕ} → some x ≡ some y → x ≡ y
some_injective e = cc

-- The same rest behind two different characters.
apart_here :
    (w a b : ℕ) (read : ℕ → Option ℕ) (rest : Option ℕ) (s t : ℕ)
    → plus (times w (read a)) rest ≡ some s
    → plus (times w (read b)) rest ≡ some t
    → Differs w a b s t read
apart_here w a b read rest s t e f =
    let (p, q, e0, e1, e2) = plus_parts (times w (read a)) rest s e in
    let (p', q', f0, f1, f2) = plus_parts (times w (read b)) rest t f in
    let (x, g, h) = times_part w (read a) p e0 in
    let (y, g', h') = times_part w (read b) p' f0 in
    record {
      x = x;
      y = y;
      first = g;
      second = g';
      balance = omega (arith, e2, f2, h, h', some_injective (sym e1 ∙ f1));
    }

-- Another character in front of both.
apart_later :
    (v : ℕ) (m : Option ℕ) (one two : Option ℕ) (a b : ℕ) (read : ℕ → Option ℕ) (s t : ℕ)
    → ((s' t' : ℕ) → one ≡ some s' → two ≡ some t' → Differs v a b s' t' read)
    → plus m one ≡ some s
    → plus m two ≡ some t
    → Differs v a b s t read
apart_later v m one two a b read s t ih e f =
    let (p, q, e0, e1, e2) = plus_parts m one s e in
    let (p', q', f0, f1, f2) = plus_parts m two t f in
    let d = ih q q' e1 f1 in
    record {
      x = d.x;
      y = d.y;
      first = d.first;
      second = d.second;
      balance = omega (arith, e2, f2, d.balance, some_injective (sym e0 ∙ f0));
    }

sums_10 :
    (v w : ℕ) (front back : List ℕ) (a b s t : ℕ)
    → w ≡ v + length front
    → sum_10 w (front ++ a ∷ back) ≡ some s
    → sum_10 w (front ++ b ∷ back) ≡ some t
    → Differs v a b s t (digit_at v)
unfolding sum_10
sums_10 v w [] back a b s t at e f =
    subst (λ n. Differs n a b s t (digit_at n)) (at ∙ omega arith)
      (apart_here w a b (digit_at w) (sum_10 (w - 1) back) s t e f)
sums_10 v w (c ∷ front) back a b s t at e f =
    apart_later v (times w (digit_at w c)) (sum_10 (w - 1) (front ++ a ∷ back))
      (sum_10 (w - 1) (front ++ b ∷ back)) a b (digit_at v) s t
      (λ s' t'. sums_10 v (w - 1) front back a b s' t' (omega (arith, at))) e f

sums_13 :
    (index : ℕ) (front back : List ℕ) (a b s t : ℕ)
    → sum_13 index (front ++ a ∷ back) ≡ some s
    → sum_13 index (front ++ b ∷ back) ≡ some t
    → (w : ℕ) × (w ≡ 1 ⊎ w ≡ 3) × Differs w a b s t digit
unfolding sum_13
sums_13 index [] back a b s t e f = (
  weight_13 index,
  if_cases (λ w. w ≡ 1 ⊎ w ≡ 3) (index % 2 == 0) (λ h. inl refl) (λ h. inr refl),
  apart_here (weight_13 index) a b digit (sum_13 (index + 1) back) s t e f,
)
sums_13 index (c ∷ front) back a b s t e f =
    let (p, q, e0, e1, e2) = plus_parts (times (weight_13 index) (digit c)) _ s e in
    let (p', q', f0, f1, f2) = plus_parts (times (weight_13 index) (digit c)) _ t f in
    let (w, weighs, d) = sums_13 (index + 1) front back a b q q' e1 f1 in
    (
      w,
      weighs,
      record {
        x = d.x;
        y = d.y;
        first = d.first;
        second = d.second;
        balance = omega (arith, e2, f2, d.balance, some_injective (sym e0 ∙ f0));
      },
    )

digit_value : (c x : ℕ) → digit c ≡ some x → (c ≡ 48 + x) × (x ≤ 9)
digit_value c x e = ground arith

abbrev all_below : (ℕ → Bool) → ℕ → Bool
all_below test zero = true
all_below test (suc n) = test n && all_below test n

below : (test : ℕ → Bool) (n k : ℕ) → all_below test n ≡ true → k < n → test k ≡ true
below test zero k e h = absurd (omega (arith, h))
below test (suc n) k e h = elim (nat_cases k n (omega (arith, h))) [
  | inl same ↦ subst (λ m. test m ≡ true) (sym same) (both (test n) (all_below test n) e).0
  | inr less ↦ below test n k (both (test n) (all_below test n) e).1 less
]
  where
    both : (a b : Bool) → (a && b) ≡ true → (a ≡ true) × (b ≡ true)
    both true b e = (refl, e)
    both false b e = cc

    nat_cases : (k n : ℕ) → k ≤ n → k ≡ n ⊎ k < n
    nat_cases k n h = omega (arith, h)

-- No product of a weight and a difference of digits is a multiple of the modulus.
abbrev not_multiple : (ℕ → ℕ) → ℕ → ℕ → Bool
not_multiple remainder w d = not (remainder (suc w * suc d) == 0)

no_multiple_11 : all_below (λ w. all_below (not_multiple (λ n. n % 11) w) 10) 10 ≡ true
no_multiple_11 = refl

gap_11 :
    (w y d s t : ℕ)
    → s + w * y ≡ t + w * (y + suc d)
    → s % 11 ≡ 0
    → t % 11 ≡ 0
    → (w * suc d) % 11 ≡ 0
gap_11 w y d s t e f g = omega arith

gap_10 :
    (w y d s t : ℕ)
    → s + w * y ≡ t + w * (y + suc d)
    → s % 10 ≡ 0
    → t % 10 ≡ 0
    → (w * suc d) % 10 ≡ 0
gap_10 w y d s t e f g = omega arith

data Compared (x y : ℕ) : Type 0 where
  same : x ≡ y → Compared x y
  more : (d : ℕ) → x ≡ y + suc d → Compared x y
  less : (d : ℕ) → y ≡ x + suc d → Compared x y

compared : (x y : ℕ) → Compared x y
compared x y = elim (by_size x y) [
  | inl e ↦ same e
  | inr (inl h) ↦ more (x - y - 1) (omega (arith, h))
  | inr (inr h) ↦ less (y - x - 1) (omega (arith, h))
]
  where
    by_size : (x y : ℕ) → (x ≡ y) ⊎ ((y < x) ⊎ (x < y))
    by_size x y = omega arith

-- Where no product of the weight and a difference is a multiple, balanced sums have equal digits.
equal_digits :
    (remainder : ℕ → ℕ) (w x y s t bound : ℕ)
    → ((y d : ℕ) → s + suc w * y ≡ t + suc w * (y + suc d) → remainder (suc w * suc d) ≡ 0)
    → ((x d : ℕ) → t + suc w * x ≡ s + suc w * (x + suc d) → remainder (suc w * suc d) ≡ 0)
    → all_below (not_multiple remainder w) bound ≡ true
    → x ≤ bound
    → y ≤ bound
    → s + suc w * y ≡ t + suc w * x
    → x ≡ y
equal_digits remainder w x y s t bound up down h hx hy e = by (compared x y)
  where
    never : (d : ℕ) → d < bound → remainder (suc w * suc d) ≡ 0 → ⊥
    never d small zero_there =
        let test = below (not_multiple remainder w) bound d h small in
        ground (arith, test, zero_there)

    by : Compared x y → x ≡ y
    by (same q) = q
    by (more d q) =
        absurd
          (never d (omega (arith, q, hx)) (up y d (subst (λ n. s + suc w * y ≡ t + suc w * n) q e)))
    by (less d q) = absurd (
        never d (omega (arith, q, hy))
          (down x d (subst (λ n. t + suc w * x ≡ s + suc w * n) q (sym e))))

record Sum (total : Option ℕ) (remainder : ℕ → ℕ) : Type 0 where
  value : ℕ
  is_sum : total ≡ some value
  divides : remainder value ≡ 0

Sum-of :
    (total : Option ℕ) (remainder : ℕ → ℕ)
    → is_multiple total remainder ≡ some true
    → Sum total remainder
Sum-of none remainder e = cc
Sum-of (some n) remainder e = record { value = n; is_sum = refl; divides = ground (arith, e) }

data Form (value : List ℕ) : Type 0 where
  ten : length value ≡ 10 → Sum (sum_10 10 value) (λ n. n % 11) → Form value
  thirteen : length value ≡ 13 → Sum (sum_13 0 value) (λ n. n % 10) → Form value

Form-of : (value : List ℕ) → valid_isbn value ≡ some true → Form value
unfolding valid_isbn
Form-of value =
    if_cases (λ r. r ≡ some true → Form value) (length value == 10)
      (λ is_ten e. ten (ground (arith, is_ten)) (Sum-of _ _ e))
      λ other.
        if_cases (λ r. r ≡ some true → Form value) (length value == 13 && all is_digit value)
          (λ fits e. thirteen (ground (arith, fits)) (Sum-of _ _ e)) (λ h e. cc)

digit_at_value : (w c x : ℕ) → digit_at w c ≡ some x → x ≤ 10
digit_at_value w c x e = ground arith

digit_at_injective : (w a b x : ℕ) → digit_at w a ≡ some x → digit_at w b ≡ some x → a ≡ b
digit_at_injective w a b x e f = ground arith

error_10 :
    (v : ℕ) (a b s t : ℕ)
    → v < 10
    → Differs (suc v) a b s t (digit_at (suc v))
    → s % 11 ≡ 0
    → t % 11 ≡ 0
    → a ≡ b
error_10 v a b s t small d e f =
    let equal =
      equal_digits (λ n. n % 11) v d.x d.y s t 10 (λ y k h. gap_11 (suc v) y k s t h e f)
        (λ x k h. gap_11 (suc v) x k t s h f e)
        (below (λ w. all_below (not_multiple (λ n. n % 11) w) 10) 10 v no_multiple_11 small)
        (digit_at_value (suc v) a d.x d.first) (digit_at_value (suc v) b d.y d.second) d.balance in
    digit_at_injective (suc v) a b d.x d.first (d.second ∙ ap some (sym equal))

error_13 :
    (v : ℕ) (a b s t : ℕ)
    → all_below (not_multiple (λ n. n % 10) v) 9 ≡ true
    → Differs (suc v) a b s t digit
    → s % 10 ≡ 0
    → t % 10 ≡ 0
    → a ≡ b
error_13 v a b s t h d e f =
    let (from_a, small_a) = digit_value a d.x d.first in
    let (from_b, small_b) = digit_value b d.y d.second in
    let equal =
      equal_digits (λ n. n % 10) v d.x d.y s t 9 (λ y k g. gap_10 (suc v) y k s t g e f)
        (λ x k g. gap_10 (suc v) x k t s g f e) h small_a small_b d.balance in
    omega (arith, from_a, from_b, equal)

same_character :
    (front back : List ℕ) (a b : ℕ)
    → valid_isbn (front ++ a ∷ back) ≡ some true
    → valid_isbn (front ++ b ∷ back) ≡ some true
    → a ≡ b
same_character front back a b one two =
    by (Form-of (front ++ a ∷ back) one) (Form-of (front ++ b ∷ back) two)
  where
    sizes : (c : ℕ) → length (front ++ c ∷ back) ≡ length front + suc (length back)
    sizes c = length-append front (c ∷ back)

    by : Form (front ++ a ∷ back) → Form (front ++ b ∷ back) → a ≡ b
    by (ten n s) (ten m t) =
        let v = 9 - length front in
        error_10 v a b s.value t.value (omega arith)
          (sums_10 (suc v) 10 front back a b s.value t.value (omega (arith, n, sizes a)) s.is_sum
            t.is_sum)
          s.divides t.divides
    by (ten n s) (thirteen m t) = absurd (omega (arith, n, m, sizes a, sizes b))
    by (thirteen n s) (ten m t) = absurd (omega (arith, n, m, sizes a, sizes b))
    by (thirteen n s) (thirteen m t) =
        weighted (sums_13 0 front back a b s.value t.value s.is_sum t.is_sum)
      where
        weighted : (w : ℕ) × (w ≡ 1 ⊎ w ≡ 3) × Differs w a b s.value t.value digit → a ≡ b
        weighted (w, inl q, d) =
            error_13 0 a b s.value t.value refl
              (subst (λ k. Differs k a b s.value t.value digit) q d) s.divides t.divides
        weighted (w, inr q, d) =
            error_13 2 a b s.value t.value refl
              (subst (λ k. Differs k a b s.value t.value digit) q d) s.divides t.divides

-- A text that differs from a valid ISBN of either form in exactly one character, at any position, is
-- not accepted.
pub valid_isbn-single_error :
    (front back : List ℕ) (a b : ℕ)
    → valid_isbn (front ++ a ∷ back) ≡ some true
    → a ≢ b
    → valid_isbn (front ++ b ∷ back) ≢ some true
valid_isbn-single_error front back a b one apart two = apart (same_character front back a b one two)
