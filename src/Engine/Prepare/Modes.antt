-- ===== src/Engine/Prepare/Modes.antt =====
-- The permissions with which an eligible plan publishes.
use mathlib.Core.Path.{subst}
use kavita_ingest.Prelude.{
  ℕ, ◌≤◌, ◌<◌, String, ◌≡◌, refl, ap, ◌∙◌, Bool, true, false, not, ◌&&◌, ◌||◌, Option, none, some,
  List, [], ◌∷◌, ◌==◌, string_Eq, nat_Eq, codes_Eq, ltb, all, All, if◌then◌else◌, if_cases, arith,
}
use kavita_ingest.Filesystem.State.{Bytes}
use kavita_ingest.Json.{Json, get, has, is_object, as_text, as_number, as_int, json_equal}
use kavita_ingest.Json.Equal.{json_equal-Alike, get-equal, has-text, is_object-equal}
use kavita_ingest.Effect.{Result, Exception, done, error}
use kavita_ingest.Plans.Rows.{StoredPlan, PlanTables}
use kavita_ingest.Plans.Document.{
  Codec, octal_mode, octal_value, is_octal, others_write, owner_all, executable, valid_permission,
  valid_policy, valid_item, valid_document, tests_unhashable, checked, validate_plan_payload,
  plan_items, schema_version, version_or_zero, number_in, has_current_policy,
  planning_policy_version, supported_versions, is_list,
}
use kavita_ingest.Engine.Versions.{codes}
use kavita_ingest.Engine.Eligible.{Current, has_current_schema}
use kavita_ingest.Engine.Eligible.Sound.{IsEligible}
use kavita_ingest.Engine.Prepare.{Reading, base_8, mode_at, modes_of, publication_modes}

-- Nobody but the owner and the group may write, directories are open to their owner, and no file is
-- executable.
pub record IsSafe (file directory : ℕ) : Type 0 where
  pub file_bound : file < 512
  pub directory_bound : directory < 512
  pub file_private : others_write file ≡ false
  pub directory_private : others_write directory ≡ false
  pub file_plain : executable file ≡ false
  pub directory_usable : owner_all directory ≡ true

-- A mode that passed `_validate_permission_value`.
record IsValid (j : Json) (is_directory : Bool) : Type 0 where
  mode : ℕ
  text_of : String
  is_text : as_text j ≡ some text_of
  is_mode : octal_mode (codes text_of) ≡ some mode
  passes :
      (others_write mode
        || ((is_directory && not (owner_all mode)) || (not is_directory && executable mode)))
      ≡ false

both : (a b : Bool) → (a && b) ≡ true → (a ≡ true) × (b ≡ true)
both true b e = (refl, e)
both false b e = cc

neither : (a b : Bool) → (a || b) ≡ false → (a ≡ false) × (b ≡ false)
neither true b e = cc
neither false b e = (refl, e)

permission-IsValid :
    (j : Json) (is_directory : Bool)
    → valid_permission j is_directory ≡ true
    → IsValid j is_directory
unfolding valid_permission
permission-IsValid j is_directory e = by (as_text j) refl e
  where
    test : ℕ → Bool
    test mode =
        others_write mode
        || ((is_directory && not (owner_all mode)) || (not is_directory && executable mode))

    passed : Option ℕ → Bool
    passed m = elim m [ none ↦ false | some mode ↦ not (test mode) ]

    mode :
        (s : String)
        → as_text j ≡ some s
        → (m : Option ℕ) → octal_mode (codes s) ≡ m
        → passed m ≡ true
        → IsValid j is_directory
    mode s at none is e = cc
    mode s at (some n) is e = record {
      mode = n;
      text_of = s;
      is_text = at;
      is_mode = is;
      passes = not_true (test n) e;
    }
      where
        not_true : (b : Bool) → not b ≡ true → b ≡ false
        not_true true e = cc
        not_true false e = refl

    by :
        (o : Option String)
        → as_text j ≡ o
        → passed (elim o [ none ↦ none | some s ↦ octal_mode (codes s) ]) ≡ true
        → IsValid j is_directory
    by none at e = cc
    by (some s) at e = mode s at (octal_mode (codes s)) refl e

octal_bound : (a b c : ℕ) → a ≤ 55 → b ≤ 55 → c ≤ 55 → octal_value a b c < 512
octal_bound a b c ha hb hc = omega arith

octal_mode-bound : (s : List ℕ) (n : ℕ) → octal_mode s ≡ some n → n < 512
octal_mode-bound [] n e = cc
octal_mode-bound (z ∷ []) n e = cc
octal_mode-bound (z ∷ a ∷ []) n e = cc
octal_mode-bound (z ∷ a ∷ b ∷ []) n e = cc
octal_mode-bound (z ∷ a ∷ b ∷ c ∷ d ∷ s) n e = cc
octal_mode-bound (z ∷ a ∷ b ∷ c ∷ []) n e =
    if_cases (λ o. o ≡ some n → n < 512) (z == 48 && (is_octal a && (is_octal b && is_octal c)))
      (λ digits e.
        let (zero_first, rest) = both (z == 48) (is_octal a && (is_octal b && is_octal c)) digits in
        let (first, others) = both (is_octal a) (is_octal b && is_octal c) rest in
        let (second, third) = both (is_octal b) (is_octal c) others in
        subst (λ m. m < 512) (some_injective e)
          (octal_bound a b c (digit_bound a first) (digit_bound b second) (digit_bound c third)))
      (λ h e. cc) e
  where
    some_injective : {x y : ℕ} → some x ≡ some y → x ≡ y
    some_injective e = cc

    digit_bound : (c : ℕ) → is_octal c ≡ true → c ≤ 55
    digit_bound c h = ground (arith, h)

-- Equal values have the same mode, as `int(str(…), 8)` reads it.
mode_at-IsValid :
    (r : Reading) (name : String) (permissions planned : Json) (is_directory : Bool)
    (h : IsValid (get name planned) is_directory)
    → json_equal permissions planned ≡ true
    → mode_at r name permissions ≡ some h.mode
mode_at-IsValid r name permissions planned is_directory h e =
    let text_there : as_text (get name permissions) ≡ some h.text_of =
      (json_equal-Alike (get name permissions) (get name planned)
        (get-equal name permissions planned e)).texts
      ∙ h.is_text in
    ap
      (λ b.
        if b
        then base_8 r (elim (as_text (get name permissions)) [
          | none ↦ r.str (get name permissions)
          | some s ↦ s
        ])
        else none)
      (has-text name permissions h.text_of text_there)
    ∙ ap (λ o. base_8 r (elim o [ none ↦ r.str (get name permissions) | some s ↦ s ])) text_there
    ∙ ap (λ o. elim o [ none ↦ r.int_8 h.text_of | some n ↦ some n ]) h.is_mode

-- The policy that the plan carries.
record IsCurrent (policy : Json) : Type 0 where
  shape : is_object policy ≡ true
  version : number_in (2 ∷ []) (as_number (get "version" policy)) ≡ true
  grouped : is_object (get "permissions" policy) ≡ true
  file : IsValid (get "file_mode" (get "permissions" policy)) false
  directory : IsValid (get "directory_mode" (get "permissions" policy)) true

policy-IsCurrent :
    (policy : Json)
    → valid_policy policy ≡ true
    → number_in (2 ∷ []) (as_number (get "version" policy)) ≡ true
    → IsCurrent policy
unfolding valid_policy
policy-IsCurrent policy e v =
    let (shape, rest) = both (is_object policy) _ e in
    let (known, permitted) =
      both (number_in (1 ∷ 2 ∷ []) (as_number (get "version" policy))) _ rest in
    let required = second (number_in (2 ∷ []) (as_number (get "version" policy))) _ v permitted in
    let (grouped, modes) = both (is_object (get "permissions" policy)) _ required in
    let (file, directory) =
      both (valid_permission (get "file_mode" (get "permissions" policy)) false) _ modes in
    record {
      shape = shape;
      version = v;
      grouped = grouped;
      file = permission-IsValid (get "file_mode" (get "permissions" policy)) false file;
      directory =
          permission-IsValid (get "directory_mode" (get "permissions" policy)) true directory;
    }
  where
    second : (a b : Bool) → a ≡ true → (not a || b) ≡ true → b ≡ true
    second true b e h = h
    second false b e h = cc

valid-IsSafe :
    (f d : Json) (file : IsValid f false) (directory : IsValid d true)
    → IsSafe file.mode directory.mode
valid-IsSafe f d file directory =
    let (file_private, file_rest) = neither (others_write file.mode) _ file.passes in
    let (directory_private, directory_rest) =
      neither (others_write directory.mode) _ directory.passes in
    record {
      file_bound = octal_mode-bound (codes file.text_of) file.mode file.is_mode;
      directory_bound = octal_mode-bound (codes directory.text_of) directory.mode directory.is_mode;
      file_private = file_private;
      directory_private = directory_private;
      file_plain = file_rest;
      directory_usable = usable (owner_all directory.mode) directory_rest;
    }
  where
    usable : (b : Bool) → (not b || false) ≡ false → b ≡ true
    usable true e = refl
    usable false e = cc

-- The modes with which an item is published, where they are read without a refusal.
pub record IsPublishable (r : Reading) (item : Json) : Type 0 where
  pub file : ℕ
  pub directory : ℕ
  pub found : publication_modes r item ≡ done (file, directory)
  pub safe : IsSafe file directory

item-IsPublishable :
    (r : Reading) (item policy : Json)
    → IsCurrent policy
    → json_equal (get "planning_policy" item) policy ≡ true
    → IsPublishable r item
unfolding publication_modes
item-IsPublishable r item policy h e = record {
  file = h.file.mode;
  directory = h.directory.mode;
  found =
      if_cases (λ o. o ≡ done (h.file.mode, h.directory.mode))
        (not (is_object own && number_in (2 ∷ []) (as_number (get "version" own))))
        (λ g. absurd (old g))
        λ g.
          if_cases (λ o. o ≡ done (h.file.mode, h.directory.mode))
            (has "permissions" own && not (is_object (get "permissions" own)))
            (λ g. absurd (shapeless g))
            λ g.
              ap (λ m. modes_of m (mode_at r "directory_mode" (get "permissions" own))) file_mode
              ∙ ap (λ m. modes_of (some h.file.mode) m) directory_mode;
  safe =
      valid-IsSafe (get "file_mode" (get "permissions" policy))
        (get "directory_mode" (get "permissions" policy)) h.file h.directory;
}
  where
    own : Json
    own = get "planning_policy" item

    is_own : is_object own ≡ true
    is_own = is_object-equal own policy e h.shape

    own_version : number_in (2 ∷ []) (as_number (get "version" own)) ≡ true
    own_version =
        ap (number_in (2 ∷ []))
          (json_equal-Alike (get "version" own) (get "version" policy)
            (get-equal "version" own policy e)).numbers
        ∙ h.version

    old : not (is_object own && number_in (2 ∷ []) (as_number (get "version" own))) ≡ true → ⊥
    old g =
        never (is_object own) (number_in (2 ∷ []) (as_number (get "version" own))) is_own
          own_version g
      where
        never : (a b : Bool) → a ≡ true → b ≡ true → not (a && b) ≡ true → ⊥
        never true true e f g = cc
        never true false e f g = cc
        never false b e f g = cc

    grouped : json_equal (get "permissions" own) (get "permissions" policy) ≡ true
    grouped = get-equal "permissions" own policy e

    shapeless : (has "permissions" own && not (is_object (get "permissions" own))) ≡ true → ⊥
    shapeless g =
        never (is_object (get "permissions" own))
          (is_object-equal (get "permissions" own) (get "permissions" policy) grouped h.grouped)
          (both (has "permissions" own) (not (is_object (get "permissions" own))) g).1
      where
        never : (b : Bool) → b ≡ true → not b ≡ true → ⊥
        never true e f = cc
        never false e f = cc

    file_mode : mode_at r "file_mode" (get "permissions" own) ≡ some h.file.mode
    file_mode =
        mode_at-IsValid r "file_mode" (get "permissions" own) (get "permissions" policy) false
          h.file grouped

    directory_mode : mode_at r "directory_mode" (get "permissions" own) ≡ some h.directory.mode
    directory_mode =
        mode_at-IsValid r "directory_mode" (get "permissions" own) (get "permissions" policy) true
          h.directory grouped

-- What a validated payload says of its document.
payload_valid :
    (codec : Codec) (payload : Bytes) (document : Json)
    → validate_plan_payload codec payload ≡ done document
    → valid_document document ≡ true
unfolding validate_plan_payload
payload_valid codec payload document = by (codec.loads payload)
  where
    by :
        (o : Option Json) → checked codec payload o ≡ done document → valid_document document ≡ true
    by none e = cc
    by (some read) e =
        if_cases Sound (tests_unhashable read) (λ g e. absurd (never e))
          (λ hashable.
            if_cases Sound (not (valid_document read)) (λ g e. absurd (never e))
              λ g.
                if_cases Sound (not (codec.dumps read == payload)) (λ g e. absurd (never e))
                  λ f e.
                    subst (λ j. valid_document j ≡ true) (done_injective e)
                      (valid (valid_document read) g))
          e
      where
        Sound : Result Json → Type 0
        Sound r = r ≡ done document → valid_document document ≡ true

        never : {x : Exception} → error x ≡ done document → ⊥
        never e = cc

        done_injective : {x y : Json} → done x ≡ done y → x ≡ y
        done_injective e = cc

        valid : (b : Bool) → not b ≡ false → b ≡ true
        valid true e = refl
        valid false e = cc

int_number :
    (ns : List ℕ) (j : Json) → number_in ns (as_int j) ≡ true → number_in ns (as_number j) ≡ true
int_number ns (Json.boolean true) e = e
int_number ns (Json.boolean false) e = e
int_number ns (Json.number n) e = e
int_number ns Json.null e = cc
int_number ns (Json.real v x s) e = cc
int_number ns (Json.text s) e = cc
int_number ns (Json.array xs) e = cc
int_number ns (Json.object xs) e = cc

policy_version :
    (document : Json)
    → has_current_policy document ≡ true
    → number_in (2 ∷ []) (as_number (get "version" (get "planning_policy" document))) ≡ true
unfolding has_current_policy planning_policy_version
policy_version document e =
    if_cases
      (λ o.
        number_in (2 ∷ []) o ≡ true
        → number_in (2 ∷ []) (as_number (get "version" (get "planning_policy" document))) ≡ true)
      (is_object (get "planning_policy" document))
      (λ h. int_number (2 ∷ []) (get "version" (get "planning_policy" document))) (λ h e. cc) e

schema_three : (document : Json) → has_current_schema document ≡ true → schema_version document ≡ 3
unfolding has_current_schema
schema_three document = by (as_number (get "schema_version" document))
  where
    by : (o : Option ℕ) → number_in (3 ∷ []) o ≡ true → version_or_zero o ≡ 3
    by none e = cc
    by (some n) e = ground arith

item_policy :
    (version : ℕ) (policy item : Json)
    → version ≡ 3
    → valid_item version policy item ≡ true
    → json_equal (get "planning_policy" item) policy ≡ true
unfolding valid_item
item_policy version policy item three e =
    let a = (both (is_object item) _ e).1 in
    let b = (both (has "item_id" item) _ a).1 in
    let c = (both (has "source" item) _ b).1 in
    let d = (both (is_object (get "source" item)) _ c).1 in
    let f = (both _ _ d).1 in
    let g = (both _ _ f).1 in later (ltb version 2) _ (ground (arith, three)) g
  where
    later : (a b : Bool) → a ≡ false → (a || b) ≡ true → b ≡ true
    later true b e h = cc
    later false b e h = h

-- The items of an eligible plan of the current schema are published with modes that are read without a
-- refusal, fit into nine bits, let nobody else write, make no file executable and leave every directory
-- usable for its owner.
pub publication_modes-IsPublishable :
    (r : Reading) (c : Current) (tables : PlanTables) (plan_id : ℕ) (plan : StoredPlan)
    (document : Json)
    → IsEligible c tables plan_id plan document
    → has_current_schema document ≡ true
    → All (IsPublishable r) (plan_items document)
unfolding valid_document
publication_modes-IsPublishable r c tables plan_id plan document eligible schema =
    let valid = payload_valid c.tools.codec plan.canonical_json document eligible.payload in
    let three = schema_three document schema in
    let (_, a) = both (is_object document) _ valid in
    let (_, b) =
      both (number_in supported_versions (as_number (get "schema_version" document))) _ a in
    let (_, d) = both (is_list (get "items" document)) _ b in
    let (policy, items) =
      both (ltb (schema_version document) 2 || valid_policy (get "planning_policy" document)) _ d in
    let current =
      policy_version_of
        (later (ltb (schema_version document) 2) _ (ground (arith, three)) policy) in
    published current three (plan_items document) items
  where
    later : (a b : Bool) → a ≡ false → (a || b) ≡ true → b ≡ true
    later true b e h = cc
    later false b e h = h

    policy_version_of :
        valid_policy (get "planning_policy" document) ≡ true
        → IsCurrent (get "planning_policy" document)
    policy_version_of h =
        policy-IsCurrent (get "planning_policy" document) h
          (policy_version document eligible.policy)

    published :
        IsCurrent (get "planning_policy" document)
        → schema_version document ≡ 3
        → (items : List Json)
        → all (valid_item (schema_version document) (get "planning_policy" document)) items ≡ true
        → All (IsPublishable r) items
    published current three [] e = tt
    published current three (item ∷ rest) e =
        let (first, others) =
          both (valid_item (schema_version document) (get "planning_policy" document) item) _ e in
        (
          item-IsPublishable r item (get "planning_policy" document) current (
              item_policy (schema_version document) (get "planning_policy" document) item three
                first),
          published current three rest others,
        )
