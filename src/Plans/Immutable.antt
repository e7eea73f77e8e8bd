-- ===== src/Plans/Immutable.antt =====
-- What the store never changes: the payload of a plan, and all of an approved one.
use mathlib.Core.Path.{subst}
use kavita_ingest.Prelude.{
  ℕ, suc, ◌+◌, ◌≤◌, String, ◌≡◌, refl, sym, ap, ◌∙◌, inl, inr, Bool, true, false, ◌&&◌, some, List,
  [], ◌∷◌, ◌++◌, ◌==◌, string_Eq, nat_Eq, nat_eq_iff, length, if◌then◌else◌, if_cases, Bool-cases,
  arith,
}
use kavita_ingest.Plans.Rows.{PlanStatus, draft, approved, StoredPlan}
use kavita_ingest.Plans.Store.{is_draft, approve_rows, find_plan}

-- A row is as before, or it was a draft and is now approved for its own digest.
pub data Kept (p q : StoredPlan) : Type 0 where
  same : q ≡ p → Kept p q
  was_approved :
      (now : String)
      → p.status ≡ draft
      → q ≡ record p { status = approved; approved_at = some now; approval_digest = some p.sha256 }
      → Kept p q

-- Rows are added at the end only, and the earlier ones are kept.
pub data Extends : List StoredPlan → List StoredPlan → Type 0 where
  added : (qs : List StoredPlan) → Extends [] qs
  kept :
      (p q : StoredPlan) (ps qs : List StoredPlan)
      → Kept p q
      → Extends ps qs
      → Extends (p ∷ ps) (q ∷ qs)

-- The ids count the rows, behind the first `n`.
pub data IsNumbered : ℕ → List StoredPlan → Type 0 where
  none_left : (n : ℕ) → IsNumbered n []
  numbered :
      (n : ℕ) (p : StoredPlan) (ps : List StoredPlan)
      → p.id ≡ suc n
      → IsNumbered (suc n) ps
      → IsNumbered n (p ∷ ps)

pub Extends-refl : (ps : List StoredPlan) → Extends ps ps
Extends-refl [] = added []
Extends-refl (p ∷ ps) = kept p p ps ps (same refl) (Extends-refl ps)

Kept-trans : (p q r : StoredPlan) → Kept p q → Kept q r → Kept p r
Kept-trans p q r (same e) k = subst (λ x. Kept x r) e k
Kept-trans p q r (was_approved now d e) (same f) = was_approved now d (f ∙ e)
Kept-trans p q r (was_approved now d e) (was_approved later d' f) =
    absurd (apart (sym d' ∙ ap (λ x. x.status) e))
  where
    apart : draft ≡ approved → ⊥
    apart e = cc

pub Extends-trans : (ps qs rs : List StoredPlan) → Extends ps qs → Extends qs rs → Extends ps rs
Extends-trans _ _ rs (added qs) g = added rs
Extends-trans _ _ _ (kept p q ps qs k f) (kept _ r _ rs l g) =
    kept p r ps rs (Kept-trans p q r k l) (Extends-trans ps qs rs f g)

pub Extends-append : (ps qs : List StoredPlan) → Extends ps (ps ++ qs)
Extends-append [] qs = added qs
Extends-append (p ∷ ps) qs = kept p p ps (ps ++ qs) (same refl) (Extends-append ps qs)

pub IsNumbered-append :
    (n : ℕ) (ps : List StoredPlan) (p : StoredPlan)
    → IsNumbered n ps
    → p.id ≡ suc (n + length ps)
    → IsNumbered n (ps ++ p ∷ [])
IsNumbered-append n [] p h e = numbered n p [] (omega (arith, e)) (none_left (suc n))
IsNumbered-append n (q ∷ ps) p (numbered _ _ _ f h) e =
    numbered n q (ps ++ p ∷ []) f (IsNumbered-append (suc n) ps p h (omega (arith, e)))

module _ (plan_id : ℕ) (digest now : String) where
  -- No row behind the one with an id has that id.
  approve_rows_later :
      (n : ℕ) (ps : List StoredPlan)
      → IsNumbered n ps
      → plan_id ≤ n
      → approve_rows plan_id digest now ps ≡ ps
  unfolding approve_rows
  approve_rows_later n [] h low = refl
  approve_rows_later n (p ∷ ps) (numbered _ _ _ e h) low =
      if_cases (λ q. q ∷ approve_rows plan_id digest now ps ≡ p ∷ ps)
        (p.id == plan_id && is_draft p.status) (λ hit. absurd (ground (arith, hit, e, low)))
        (λ miss. ap (λ qs. p ∷ qs) (approve_rows_later (suc n) ps h (omega (arith, low))))

  abbrev approving : StoredPlan → StoredPlan
  approving p = record p {
    status = approved;
    approved_at = some now;
    approval_digest = some digest;
  }

  abbrev updated : StoredPlan → StoredPlan
  updated p = if p.id == plan_id && is_draft p.status then approving p else p

  updated-id : (p : StoredPlan) → (updated p).id ≡ p.id
  updated-id p =
      if_cases {A = StoredPlan} (λ q. q.id ≡ p.id) (p.id == plan_id && is_draft p.status)
        (λ h. refl) (λ h. refl)

  pub approve_rows-IsNumbered :
      (n : ℕ) (ps : List StoredPlan)
      → IsNumbered n ps
      → IsNumbered n (approve_rows plan_id digest now ps)
  unfolding approve_rows
  approve_rows-IsNumbered n [] h = none_left n
  approve_rows-IsNumbered n (p ∷ ps) (numbered _ _ _ e h) =
      numbered n (updated p) (approve_rows plan_id digest now ps) (updated-id p ∙ e)
        (approve_rows-IsNumbered (suc n) ps h)

  updated-Kept : (p : StoredPlan) → digest ≡ p.sha256 → Kept p (updated p)
  updated-Kept p same_digest =
      if_cases (λ q. Kept p q) (p.id == plan_id && is_draft p.status)
        (λ h. was_approved now (drafted p.status (both (p.id == plan_id) (is_draft p.status) h).1) (
          ap (λ d. record p { status = approved; approved_at = some now; approval_digest = some d })
            same_digest))
        (λ h. same refl)
    where
      both : (a b : Bool) → (a && b) ≡ true → (a ≡ true) × (b ≡ true)
      both true b e = (refl, e)
      both false b e = cc

      drafted : (s : PlanStatus) → is_draft s ≡ true → s ≡ draft
      drafted draft e = refl
      drafted approved e = cc

  -- The rows behind an approval for the digest of the plan with that id.
  pub approve_rows-Extends :
      (n : ℕ) (ps : List StoredPlan) (plan : StoredPlan)
      → IsNumbered n ps
      → find_plan plan_id ps ≡ some plan
      → digest ≡ plan.sha256
      → Extends ps (approve_rows plan_id digest now ps)
  unfolding approve_rows find_plan
  approve_rows-Extends n [] plan h found e = added []
  approve_rows-Extends n (p ∷ ps) plan (numbered _ _ _ f h) found e =
      let ih : find_plan plan_id ps ≡ some plan → Extends ps (approve_rows plan_id digest now ps) =
        λ there. approve_rows-Extends (suc n) ps plan h there e in
      elim (Bool-cases (p.id == plan_id)) [ inl hit ↦ here hit | inr miss ↦ behind miss ih ]
    where
      some_injective : {x y : StoredPlan} → some x ≡ some y → x ≡ y
      some_injective e = cc

      here : (p.id == plan_id) ≡ true → Extends (p ∷ ps) (approve_rows plan_id digest now (p ∷ ps))
      here hit =
          let is_plan : p ≡ plan =
            some_injective
              (sym (ap (λ b. if b then some p else find_plan plan_id ps) hit) ∙ found) in
          kept p (updated p) ps (approve_rows plan_id digest now ps)
            (updated-Kept p (e ∙ ap (λ q. q.sha256) (sym is_plan)))
            (subst (λ qs. Extends ps qs)
              (sym (approve_rows_later (suc n) ps h (omega (arith, (nat_eq_iff _ _).0 hit, f))))
              (Extends-refl ps))

      behind :
          (p.id == plan_id) ≡ false
          → (find_plan plan_id ps ≡ some plan → Extends ps (approve_rows plan_id digest now ps))
          → Extends (p ∷ ps) (approve_rows plan_id digest now (p ∷ ps))
      behind miss ih =
          kept p (updated p) ps (approve_rows plan_id digest now ps)
            (same (ap (λ b. if b && is_draft p.status then approving p else p) miss))
            (ih (sym (ap (λ b. if b then some p else find_plan plan_id ps) miss) ∙ found))
