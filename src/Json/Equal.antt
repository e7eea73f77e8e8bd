-- ===== src/Json/Equal.antt =====
-- What equal values have in common.
use mathlib.Core.Path.{subst}
use kavita_ingest.Prelude.{
  ℕ, String, ◌≡◌, ◌≢◌, refl, sym, ap, ◌∙◌, Bool, true, false, ◌&&◌, ◌||◌, ◌⊎◌, Option, none, some,
  ◌==◌, string_Eq, nat_Eq, eq_iff, nat_eq_iff, Bool-cases, inl, inr, if◌then◌else◌,
}
use kavita_ingest.Json.{
  Json, null, boolean, number, real, text, array, object, Items, Fields, empty, field, field_at,
  or_null, get, as_text, as_number, numbers_equal, is_null, real_text, same_number, same_text,
  as_items, as_fields, has, is_object, json_equal, items_equal, fields_equal,
}

both : (a b : Bool) → (a && b) ≡ true → (a ≡ true) × (b ≡ true)
both true b e = (refl, e)
both false b e = cc

same_number_eq : (m n : Option ℕ) → same_number m n ≡ true → m ≡ n
same_number_eq (some m) (some n) e = ap some ((nat_eq_iff m n).0 e)
same_number_eq none n e = cc
same_number_eq (some m) none e = cc

same_text_eq : (s t : Option String) → same_text s t ≡ true → (s ≡ t) × (t ≢ none)
same_text_eq (some s) (some t) e = (ap some ((eq_iff s t).0 e), λ e. cc)
same_text_eq none t e = cc
same_text_eq (some s) none e = cc

-- What is no object, list, text or null is a number.
real_number :
    (j : Json)
    → real_text j ≢ none
    → (as_number j ≡ none) × (as_text j ≡ none) × (as_fields j ≡ none)
real_number (real none x s) h = (refl, refl, refl)
real_number (real (some n) x s) h = absurd (h refl)
real_number null h = absurd (h refl)
real_number (boolean b) h = absurd (h refl)
real_number (number n) h = absurd (h refl)
real_number (text s) h = absurd (h refl)
real_number (array xs) h = absurd (h refl)
real_number (object xs) h = absurd (h refl)

is_null_only : (k : Json) → is_null k ≡ true → k ≡ null
is_null_only null e = refl
is_null_only (boolean b) e = cc
is_null_only (number n) e = cc
is_null_only (real v x s) e = cc
is_null_only (text s) e = cc
is_null_only (array xs) e = cc
is_null_only (object xs) e = cc

numeric : (k : Json) → as_number k ≢ none → (as_text k ≡ none) × (as_fields k ≡ none)
numeric (boolean b) h = (refl, refl)
numeric (number n) h = (refl, refl)
numeric (real v x s) h = (refl, refl)
numeric null h = absurd (h refl)
numeric (text s) h = absurd (h refl)
numeric (array xs) h = absurd (h refl)
numeric (object xs) h = absurd (h refl)

of_text : (k : Json) (s : String) → as_text k ≡ some s → (as_number k ≡ none) × (as_fields k ≡ none)
of_text (text t) s e = (refl, refl)
of_text null s e = cc
of_text (boolean b) s e = cc
of_text (number n) s e = cc
of_text (real v x t) s e = cc
of_text (array xs) s e = cc
of_text (object xs) s e = cc

of_items :
    (k : Json) (xs : Items)
    → as_items k ≡ some xs
    → (as_number k ≡ none) × (as_text k ≡ none) × (as_fields k ≡ none)
of_items (array xs) ys e = (refl, refl, refl)
of_items null xs e = cc
of_items (boolean b) xs e = cc
of_items (number n) xs e = cc
of_items (real v x t) xs e = cc
of_items (text s) xs e = cc
of_items (object ys) xs e = cc

of_fields :
    (k : Json) (xs : Fields) → as_fields k ≡ some xs → (as_number k ≡ none) × (as_text k ≡ none)
of_fields (object xs) ys e = (refl, refl)
of_fields null xs e = cc
of_fields (boolean b) xs e = cc
of_fields (number n) xs e = cc
of_fields (real v x t) xs e = cc
of_fields (text s) xs e = cc
of_fields (array ys) xs e = cc

-- Two values have no fields, or equal ones.
pub data Fielded : Option Fields → Option Fields → Type 0 where
  neither : Fielded none none
  each : (xs ys : Fields) → fields_equal xs ys ≡ true → Fielded (some xs) (some ys)

-- What the source reads of two equal values is alike.
pub record Alike (j k : Json) : Type 0 where
  pub numbers : as_number j ≡ as_number k
  pub texts : as_text j ≡ as_text k
  pub fields : Fielded (as_fields j) (as_fields k)

plain :
    (j k : Json)
    → as_number j ≡ as_number k
    → as_text j ≡ none
    → as_text k ≡ none
    → as_fields j ≡ none
    → as_fields k ≡ none
    → Alike j k
plain j k n s t f g = record {
  numbers = n;
  texts = s ∙ sym t;
  fields = subst (λ x. Fielded x (as_fields k)) (sym f) (subst (Fielded none) (sym g) neither);
}

numbers-Alike :
    (j k : Json) → as_text j ≡ none → as_fields j ≡ none → numbers_equal j k ≡ true → Alike j k
numbers-Alike j k s f e = by (Bool-cases (same_number (as_number j) (as_number k)))
  where
    other : (a b : Bool) → a ≡ false → (a || b) ≡ true → b ≡ true
    other true b h g = cc
    other false b h g = g

    some_number : (m n : Option ℕ) → same_number m n ≡ true → n ≢ none
    some_number (some m) (some n) e h = cc
    some_number none n e h = cc
    some_number (some m) none e h = cc

    some_text : (s t : Option String) → same_text s t ≡ true → s ≢ none
    some_text (some s) t e h = cc
    some_text none t e h = cc

    by :
        (same_number (as_number j) (as_number k) ≡ true)
          ⊎ (same_number (as_number j) (as_number k) ≡ false)
        → Alike j k
    by (inl h) =
        let kinds = numeric k (some_number (as_number j) (as_number k) h) in
        plain j k (same_number_eq _ _ h) s kinds.0 f kinds.1
    by (inr h) =
        let texts = other _ (same_text (real_text j) (real_text k)) h e in
        let first = real_number j (some_text (real_text j) (real_text k) texts) in
        let second = real_number k (same_text_eq (real_text j) (real_text k) texts).1 in
        plain j k (first.0 ∙ sym second.0) s second.1 f second.2

pub json_equal-Alike : (j k : Json) → json_equal j k ≡ true → Alike j k
unfolding json_equal
json_equal-Alike null k e =
    subst (Alike null) (sym (is_null_only k e)) (plain null null refl refl refl refl refl)
json_equal-Alike (boolean b) k e = numbers-Alike (boolean b) k refl refl e
json_equal-Alike (number n) k e = numbers-Alike (number n) k refl refl e
json_equal-Alike (real v x s) k e = numbers-Alike (real v x s) k refl refl e
json_equal-Alike (text s) k e =
    let same = (same_text_eq (some s) (as_text k) e).0 in
    let kinds = of_text k s (sym same) in
    record {
      numbers = sym kinds.0;
      texts = same;
      fields = subst (Fielded none) (sym kinds.1) neither;
    }
json_equal-Alike (array xs) k e = by (as_items k) refl e
  where
    by :
        (o : Option Items)
        → as_items k ≡ o
        → elim o [ none ↦ false | some ys ↦ items_equal xs ys ] ≡ true
        → Alike (array xs) k
    by none at e = cc
    by (some ys) at e =
        let kinds = of_items k ys at in plain (array xs) k (sym kinds.0) refl kinds.1 refl kinds.2
json_equal-Alike (object xs) k e = by (as_fields k) refl e
  where
    by :
        (o : Option Fields)
        → as_fields k ≡ o
        → elim o [ none ↦ false | some ys ↦ fields_equal xs ys ] ≡ true
        → Alike (object xs) k
    by none at e = cc
    by (some ys) at e =
        let kinds = of_fields k ys at in
        record {
          numbers = sym kinds.0;
          texts = sym kinds.1;
          fields = subst (Fielded (some xs)) (sym at) (each xs ys e);
        }

get_of :
    (name : String) (j : Json)
    → get name j ≡ (elim (as_fields j) [ none ↦ null | some xs ↦ or_null (field_at name xs) ])
unfolding get
get_of name null = refl
get_of name (boolean b) = refl
get_of name (number n) = refl
get_of name (real v x s) = refl
get_of name (text s) = refl
get_of name (array xs) = refl
get_of name (object xs) = refl

field_at-equal :
    (name : String) (xs ys : Fields)
    → fields_equal xs ys ≡ true
    → json_equal (or_null (field_at name xs)) (or_null (field_at name ys)) ≡ true
unfolding json_equal items_equal fields_equal field_at
field_at-equal name empty empty e = refl
field_at-equal name empty (field n k ys) e = cc
field_at-equal name (field m j xs) empty e = cc
field_at-equal name (field m j xs) (field n k ys) e =
    let (names, rest) = both (m == n) (json_equal j k && fields_equal xs ys) e in
    let (values, others) = both (json_equal j k) (fields_equal xs ys) rest in
    subst
      (λ x.
        json_equal (or_null (if m == name then some j else field_at name xs))
          (or_null (if x == name then some k else field_at name ys))
        ≡ true)
      ((eq_iff m n).0 names) (by (m == name) values (field_at-equal name xs ys others))
  where
    by :
        (b : Bool)
        → json_equal j k ≡ true
        → json_equal (or_null (field_at name xs)) (or_null (field_at name ys)) ≡ true
        → json_equal
            (or_null (if b then some j else field_at name xs))
            (or_null (if b then some k else field_at name ys))
          ≡ true
    by true here later = here
    by false here later = later

-- Equal values have equal fields.
pub get-equal :
    (name : String) (j k : Json)
    → json_equal j k ≡ true
    → json_equal (get name j) (get name k) ≡ true
unfolding json_equal
get-equal name j k e =
    subst (λ x. json_equal x (get name k) ≡ true) (sym (get_of name j))
      (subst (λ y. json_equal (value (as_fields j)) y ≡ true) (sym (get_of name k))
        (by (as_fields j) (as_fields k) (json_equal-Alike j k e).fields))
  where
    value : Option Fields → Json
    value o = elim o [ none ↦ null | some xs ↦ or_null (field_at name xs) ]

    by : (m n : Option Fields) → Fielded m n → json_equal (value m) (value n) ≡ true
    by _ _ neither = refl
    by _ _ (each xs ys h) = field_at-equal name xs ys h

pub has-text :
    (name : String) (j : Json) (s : String) → as_text (get name j) ≡ some s → has name j ≡ true
unfolding get has
has-text name (object xs) s e = by (field_at name xs) e
  where
    by :
        (o : Option Json)
        → as_text (or_null o) ≡ some s
        → elim o [ none ↦ false | some j ↦ true ] ≡ true
    by none e = cc
    by (some j) e = refl
has-text name null s e = cc
has-text name (boolean b) s e = cc
has-text name (number n) s e = cc
has-text name (real v x t) s e = cc
has-text name (text t) s e = cc
has-text name (array xs) s e = cc

is_object_fields : (j : Json) → is_object j ≡ true → as_fields j ≢ none
is_object_fields (object xs) e h = cc
is_object_fields null e h = cc
is_object_fields (boolean b) e h = cc
is_object_fields (number n) e h = cc
is_object_fields (real v x s) e h = cc
is_object_fields (text s) e h = cc
is_object_fields (array xs) e h = cc

fields_is_object : (j : Json) → as_fields j ≢ none → is_object j ≡ true
fields_is_object (object xs) h = refl
fields_is_object null h = absurd (h refl)
fields_is_object (boolean b) h = absurd (h refl)
fields_is_object (number n) h = absurd (h refl)
fields_is_object (real v x s) h = absurd (h refl)
fields_is_object (text s) h = absurd (h refl)
fields_is_object (array xs) h = absurd (h refl)

pub is_object-equal : (j k : Json) → json_equal j k ≡ true → is_object k ≡ true → is_object j ≡ true
is_object-equal j k e h =
    fields_is_object j
      (by (as_fields j) (as_fields k) (json_equal-Alike j k e).fields (is_object_fields k h))
  where
    by : (m n : Option Fields) → Fielded m n → n ≢ none → m ≢ none
    by _ _ neither h = h
    by _ _ (each xs ys g) h = λ e. cc
