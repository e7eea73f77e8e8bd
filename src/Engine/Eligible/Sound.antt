-- ===== src/Engine/Eligible/Sound.antt =====
-- Which plans are eligible.
use mathlib.Core.Path.{subst}
use kavita_ingest.Prelude.{
  ℕ, String, ◌≡◌, ◌≢◌, refl, sym, ap, ◌∙◌, ◌↔◌, ◌⊎◌, inl, inr, Bool, true, false, not, ◌&&◌, ◌||◌,
  Option, none, some, List, [], ◌∷◌, ◌==◌, string_Eq, eq_iff, nat_Eq, any, All, arith,
}
use kavita_ingest.Json.{Json, get, truthy}
use kavita_ingest.Effect.{Result, done, error}
use kavita_ingest.Plans.Rows.{
  PlanStatus, draft, approved, StoredPlan, Precondition, PlanTables, is_invalidated,
}
use kavita_ingest.Plans.Step.{pure, ◌>>=◌, lift_iff, test_iff}
use kavita_ingest.Plans.Document.{
  validate_plan_payload, plan_items, has_current_policy, supported_versions, number_in,
}
use kavita_ingest.Plans.Store.{get_plan, is_superseded}
use kavita_ingest.Engine.Eligible.{
  Current, decision_head, run_head, has_stale_decision, has_stale_run, Refusals, refuse_first,
  standing, content, refused, require_policy, eligible_plan, is_approved, is_digest, differs,
  is_same, run_is_stale, is_blocked_item, is_empty,
}

-- A precondition of the plan names the newest decision on its source, if there is one,
pub data RestsOnNewest (c : Current) (plan_id : ℕ) (p : Precondition) : Type 0 where
  not_of_plan : p.plan_id ≢ plan_id → RestsOnNewest c plan_id p
  undecided : decision_head p.source_fingerprint c.decisions ≡ none → RestsOnNewest c plan_id p
  newest :
      decision_head p.source_fingerprint c.decisions ≡ some p.decision_head_id
      → RestsOnNewest c plan_id p

-- and the newest of its run group, if it has one.
pub data RestsOnRun (c : Current) (plan_id : ℕ) (p : Precondition) : Type 0 where
  run_of_other : p.plan_id ≢ plan_id → RestsOnRun c plan_id p
  ungrouped : p.run_group_key ≡ none → RestsOnRun c plan_id p
  newest_run :
      (key : String)
      → p.run_group_key ≡ some key
      → p.run_group_decision_id ≡ run_head key c.run_decisions
      → RestsOnRun c plan_id p

pub record IsEligible (c : Current) (tables : PlanTables) (plan_id : ℕ) (plan : StoredPlan)
    (document : Json) : Type 0 where
  pub stored : get_plan (c.tools) plan_id tables ≡ done plan
  pub status : plan.status ≡ approved
  pub digest : plan.approval_digest ≡ some plan.sha256
  pub version : number_in supported_versions (some plan.schema_version) ≡ true
  pub valid : is_invalidated plan_id tables.invalidations ≡ false
  pub current : is_superseded plan_id tables.supersessions ≡ false
  pub decisions : All (RestsOnNewest c plan_id) tables.preconditions
  pub runs : All (RestsOnRun c plan_id) tables.preconditions
  pub payload : validate_plan_payload c.tools.codec plan.canonical_json ≡ done document
  pub policy : has_current_policy document ≡ true
  pub conflicts : truthy (get "conflicts" document) ≡ false
  pub items :
      All
        (λ j. (truthy (get "blocked" j) ≡ false) × (truthy (get "conflicts" j) ≡ false))
        (plan_items document)
  pub actionable : plan_items document ≢ []

pub refuse_first_iff :
    (checks : Refusals) → (refuse_first checks ≡ done tt) ↔ All (λ g. g.0 ≡ false) checks
unfolding refuse_first
refuse_first_iff [] = (λ e. tt, λ h. refl)
refuse_first_iff ((true, message) ∷ rest) = (λ e. cc, λ h. cc)
refuse_first_iff ((false, message) ∷ rest) =
    let ih = refuse_first_iff rest in (λ e. (refl, ih.0 e), λ h. ih.1 h.1)

any-false_iff :
    {A : Type 0} (q : A → Bool) (P : A → Type 0) (xs : List A)
    → ((x : A) → (q x ≡ false) ↔ P x)
    → (any q xs ≡ false) ↔ All P xs
any-false_iff q P [] h = (λ e. tt, λ h. refl)
any-false_iff q P (x ∷ xs) h =
    let ih = any-false_iff q P xs h in
    (
      λ e. let (one, rest) = parts (q x) (any q xs) e in ((h x).0 one, ih.0 rest),
      λ (one, rest). joined (q x) (any q xs) ((h x).1 one) (ih.1 rest),
    )
  where
    parts : (a b : Bool) → (a || b) ≡ false → (a ≡ false) × (b ≡ false)
    parts true b e = cc
    parts false b e = (refl, e)

    joined : (a b : Bool) → a ≡ false → b ≡ false → (a || b) ≡ false
    joined a b e f = rw e f

and_false : (a b : Bool) → (a && b) ≡ false → (a ≡ false) ⊎ (b ≡ false)
and_false true b e = inr e
and_false false b e = inl refl

false_and : (a b : Bool) → (a ≡ false) ⊎ (b ≡ false) → (a && b) ≡ false
false_and true b (inl e) = cc
false_and true b (inr e) = e
false_and false b h = refl

apart_iff : (m n : ℕ) → ((m == n) ≡ false) ↔ (m ≢ n)
apart_iff m n = ground arith

differs_iff :
    (n : ℕ) (head : Option ℕ) → (differs n head ≡ false) ↔ ((head ≡ none) ⊎ (head ≡ some n))
differs_iff n none = (λ e. inl refl, λ h. refl)
differs_iff n (some head) = ground arith

is_same_iff : (m n : Option ℕ) → (not (is_same m n) ≡ false) ↔ (m ≡ n)
is_same_iff none none = (λ e. refl, λ h. refl)
is_same_iff none (some n) = (λ e. cc, λ h. cc)
is_same_iff (some m) none = (λ e. cc, λ h. cc)
is_same_iff (some m) (some n) = ground arith

newest_iff :
    (c : Current) (plan_id : ℕ) (p : Precondition)
    → ((p.plan_id == plan_id
          && differs p.decision_head_id (decision_head p.source_fingerprint c.decisions))
        ≡ false)
      ↔ RestsOnNewest c plan_id p
newest_iff c plan_id p = (
  λ e. elim (and_false _ _ e) [
    | inl a ↦ not_of_plan ((apart_iff _ _).0 a)
    | inr b ↦ there ((differs_iff _ _).0 b)
  ],
  back,
)
  where
    there :
        (decision_head p.source_fingerprint c.decisions ≡ none)
          ⊎ (decision_head p.source_fingerprint c.decisions ≡ some p.decision_head_id)
        → RestsOnNewest c plan_id p
    there (inl e) = undecided e
    there (inr e) = newest e

    back :
        RestsOnNewest c plan_id p
        → (p.plan_id == plan_id
            && differs p.decision_head_id (decision_head p.source_fingerprint c.decisions))
          ≡ false
    back (not_of_plan e) = false_and _ _ (inl ((apart_iff _ _).1 e))
    back (undecided e) = false_and _ _ (inr ((differs_iff _ _).1 (inl e)))
    back (newest e) = false_and _ _ (inr ((differs_iff _ _).1 (inr e)))

newest_run_iff :
    (c : Current) (plan_id : ℕ) (p : Precondition)
    → ((p.plan_id == plan_id
          && run_is_stale p.run_group_key p.run_group_decision_id c.run_decisions)
        ≡ false)
      ↔ RestsOnRun c plan_id p
newest_run_iff c plan_id p = (
  λ e. elim (and_false _ _ e) [
    | inl a ↦ run_of_other ((apart_iff _ _).0 a)
    | inr b ↦ there p.run_group_key refl b
  ],
  back,
)
  where
    there :
        (key : Option String)
        → p.run_group_key ≡ key
        → run_is_stale key p.run_group_decision_id c.run_decisions ≡ false
        → RestsOnRun c plan_id p
    there none at e = ungrouped at
    there (some key) at e = newest_run key at ((is_same_iff _ _).0 e)

    back :
        RestsOnRun c plan_id p
        → (p.plan_id == plan_id
            && run_is_stale p.run_group_key p.run_group_decision_id c.run_decisions)
          ≡ false
    back (run_of_other e) = false_and _ _ (inl ((apart_iff _ _).1 e))
    back (ungrouped e) =
        false_and _ _ (inr (ap (λ k. run_is_stale k p.run_group_decision_id c.run_decisions) e))
    back (newest_run key e f) = false_and _ _ (
        inr (
          ap (λ k. run_is_stale k p.run_group_decision_id c.run_decisions) e
          ∙ (is_same_iff _ _).1 f))

approved_iff :
    (plan : StoredPlan)
    → (not (is_approved plan.status && is_digest plan.approval_digest plan.sha256) ≡ false)
      ↔ ((plan.status ≡ approved) × (plan.approval_digest ≡ some plan.sha256))
approved_iff plan = by plan.status plan.approval_digest
  where
    by :
        (s : PlanStatus) (d : Option String)
        → (not (is_approved s && is_digest d plan.sha256) ≡ false)
          ↔ ((s ≡ approved) × (d ≡ some plan.sha256))
    by draft d = (λ e. cc, λ h. cc)
    by approved none = (λ e. cc, λ h. cc)
    by approved (some d) =
        let same = eq_iff d plan.sha256 in
        (λ e. (refl, ap some (same.0 (not_false _ e))), λ h. rw (same.1 (some_injective h.1)) refl)
      where
        not_false : (b : Bool) → not b ≡ false → b ≡ true
        not_false true e = refl
        not_false false e = cc

        some_injective : {x y : String} → some x ≡ some y → x ≡ y
        some_injective e = cc

item_iff :
    (j : Json)
    → (is_blocked_item j ≡ false)
      ↔ ((truthy (get "blocked" j) ≡ false) × (truthy (get "conflicts" j) ≡ false))
item_iff j = by (truthy (get "blocked" j)) (truthy (get "conflicts" j))
  where
    by : (a b : Bool) → ((a || b) ≡ false) ↔ ((a ≡ false) × (b ≡ false))
    by true b = (λ e. cc, λ h. cc)
    by false b = (λ e. (refl, e), λ h. h.1)

nonempty_iff : (js : List Json) → (is_empty js ≡ false) ↔ (js ≢ [])
nonempty_iff [] = (λ e. cc, λ h. absurd (h refl))
nonempty_iff (j ∷ js) = (λ e. cc, λ h. refl)

standing_iff :
    (c : Current) (plan : StoredPlan) (plan_id : ℕ) (tables : PlanTables)
    → (refuse_first (standing c plan plan_id tables) ≡ done tt) ↔ (
        ((plan.status ≡ approved) × (plan.approval_digest ≡ some plan.sha256))
        × (not (number_in supported_versions (some plan.schema_version)) ≡ false)
        × (is_invalidated plan_id tables.invalidations ≡ false)
        × (is_superseded plan_id tables.supersessions ≡ false)
        × All (RestsOnNewest c plan_id) tables.preconditions
        × All (RestsOnRun c plan_id) tables.preconditions)
unfolding standing has_stale_decision has_stale_run
standing_iff c plan plan_id tables =
    let guards = refuse_first_iff (standing c plan plan_id tables) in
    let decided =
      any-false_iff _ (RestsOnNewest c plan_id) tables.preconditions (newest_iff c plan_id) in
    let grouped =
      any-false_iff _ (RestsOnRun c plan_id) tables.preconditions (newest_run_iff c plan_id) in
    (
      λ e.
          let (a, (b, (v, (s, (d, (r, end)))))) = guards.0 e in
          ((approved_iff plan).0 a, b, v, s, decided.0 d, grouped.0 r),
      λ (a, b, v, s, d, r).
          guards.1 ((approved_iff plan).1 a, (b, (v, (s, (decided.1 d, (grouped.1 r, tt)))))),
    )

content_iff :
    (document : Json)
    → (refuse_first (content document) ≡ done tt) ↔ (
        (truthy (get "conflicts" document) ≡ false)
        × All
            (λ j. (truthy (get "blocked" j) ≡ false) × (truthy (get "conflicts" j) ≡ false))
            (plan_items document)
        × (plan_items document ≢ []))
unfolding content
content_iff document =
    let guards = refuse_first_iff (content document) in
    let free = any-false_iff is_blocked_item _ (plan_items document) item_iff in
    (
      λ e.
          let (a, (b, (n, end))) = guards.0 e in
          (a, free.0 b, (nonempty_iff (plan_items document)).0 n),
      λ (a, b, n). guards.1 (a, (free.1 b, ((nonempty_iff (plan_items document)).1 n, tt))),
    )

refused_done : {A : Type 0} (r : Result A) (a : A) → refused r ≡ done a → r ≡ done a
refused_done (done b) a e = e
refused_done (error x) a e = cc

not_iff : (b : Bool) → (not b ≡ false) ↔ (b ≡ true)
not_iff true = (λ e. refl, λ e. refl)
not_iff false = (λ e. cc, λ e. cc)

module _ (c : Current) (plan_id : ℕ) (now : String) (tables : PlanTables) where
  IsEligible-of :
      (plan : StoredPlan) (document : Json)
      → refused (get_plan (c.tools) plan_id tables) ≡ done plan
      → refuse_first (standing c plan plan_id tables) ≡ done tt
      → validate_plan_payload c.tools.codec plan.canonical_json ≡ done document
      → has_current_policy document ≡ true
      → refuse_first (content document) ≡ done tt
      → IsEligible c tables plan_id plan document
  IsEligible-of plan document found stands read policy contains =
      let (a, v, i, s, d, r) = (standing_iff c plan plan_id tables).0 stands in
      let (t, b, n) = (content_iff document).0 contains in
      record {
        stored = refused_done (get_plan (c.tools) plan_id tables) plan found;
        status = a.0;
        digest = a.1;
        version = (not_iff _).0 v;
        valid = i;
        current = s;
        decisions = d;
        runs = r;
        payload = read;
        policy = policy;
        conflicts = t;
        items = b;
        actionable = n;
      }

  -- A plan is eligible exactly if it is stored with the length and the digest of its bytes, was
  -- approved for just that digest in a supported schema, is neither invalidated nor superseded, rests
  -- on the newest decisions on its sources and run groups, and its bytes are a canonical document of
  -- the current policy with items, none of them blocked and nothing in conflict; and the tables are
  -- then as before.
  pub eligible_plan_iff :
      (plan : StoredPlan) (document : Json) (after : PlanTables)
      → (eligible_plan c plan_id now tables ≡ (done (plan, document), after))
        ↔ (IsEligible c tables plan_id plan document × (after ≡ tables))
  unfolding eligible_plan ◌>>=◌ require_policy
  eligible_plan_iff plan document after = (sound, λ (h, same). complete h same)
    where
      ends :
          (found : StoredPlan) (read : Json)
          → IsEligible c tables plan_id found read
          → pure {A = StoredPlan × Json} (found, read) tables ≡ (done (plan, document), after)
          → IsEligible c tables plan_id plan document × (after ≡ tables)
      ends found read h e =
          let pair : (found, read) ≡ (plan, document) = done_injective (ap (λ r. r.0) e) in
          (subst (λ x. IsEligible c tables plan_id x.0 x.1) pair h, sym (ap (λ r. r.1) e))
        where
          done_injective : {A : Type 0} {x y : A} → done x ≡ done y → x ≡ y
          done_injective e = cc

      sound :
          eligible_plan c plan_id now tables ≡ (done (plan, document), after)
          → IsEligible c tables plan_id plan document × (after ≡ tables)
      sound e =
          let (found, is_found, e1) =
            (lift_iff tables after (plan, document) (refused (get_plan (c.tools) plan_id tables))
                _).0
              e in
          let (u, stands, e2) =
            (lift_iff tables after (plan, document) (refuse_first (standing c found plan_id tables))
                _).0
              e1 in
          let (read, is_read, e3) =
            (lift_iff tables after (plan, document)
                (validate_plan_payload c.tools.codec found.canonical_json) _).0
              e2 in
          let (is_policy, e4) =
            (test_iff tables after (plan, document) (has_current_policy read) _ tt _ _).0 e3 in
          let (v, contains, e5) =
            (lift_iff tables after (plan, document) (refuse_first (content read)) _).0 e4 in
          ends found read (IsEligible-of found read is_found stands is_read is_policy contains) e5

      complete :
          IsEligible c tables plan_id plan document
          → after ≡ tables
          → eligible_plan c plan_id now tables ≡ (done (plan, document), after)
      complete h same =
          (lift_iff tables after (plan, document) (refused (get_plan (c.tools) plan_id tables)) _).1
            (
              plan,
              ap refused h.stored,
              (lift_iff tables after (plan, document)
                    (refuse_first (standing c plan plan_id tables)) _).1
                  (
                    tt,
                    (standing_iff c plan plan_id tables).1 (
                      (h.status, h.digest),
                      (not_iff _).1 h.version,
                      h.valid,
                      h.current,
                      h.decisions,
                      h.runs,
                    ),
                    (lift_iff tables after (plan, document)
                          (validate_plan_payload c.tools.codec plan.canonical_json) _).1
                        (
                          document,
                          h.payload,
                          (test_iff tables after (plan, document) (has_current_policy document) _ tt
                                _ _).1
                              (
                                h.policy,
                                (lift_iff tables after (plan, document)
                                      (refuse_first (content document)) _).1
                                    (
                                      tt,
                                      (content_iff document).1 (h.conflicts, h.items, h.actionable),
                                      ap (λ t. pure {A = StoredPlan × Json} (plan, document) t)
                                          (sym same),
                                    ),
                              ),
                        ),
                  ),
            )
