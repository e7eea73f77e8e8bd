-- ===== src/ArchiveSafety/Ends.antt =====
-- Names that are alike but for case and the slashes at their ends (`folded` in
-- src/kavita_ingest/archive_safety.py).
use kavita_ingest.Prelude.{
  ℕ, zero, suc, ◌+◌, ◌≡◌, refl, sym, ap, ◌∙◌, ◌↔◌, inl, inr, false, codes_eq_iff, List, [], ◌∷◌,
  ◌++◌, ◌==◌, nat_Eq, nat_eq_iff, codes_Eq, map, All, arith, if◌then◌else◌, Bool-cases,
}
use kavita_ingest.ArchiveSafety.{Text, ArchiveMember, ArchiveLimits, strip_end, folded}
use kavita_ingest.ArchiveSafety.Sound.{Distinct}
use kavita_ingest.ArchiveSafety.Names.{slashed, forward_slashes-slashed}

unfoldable pub slashes : ℕ → Text
slashes zero = []
slashes (suc n) = 47 ∷ slashes n

slashes-add : (m n : ℕ) → slashes m ++ slashes n ≡ slashes (m + n)
unfolding slashes
slashes-add zero n = ap slashes (omega arith)
slashes-add (suc m) n = ap (λ t. 47 ∷ t) (slashes-add m n) ∙ ap slashes (sum m n)
  where
    sum : (m n : ℕ) → suc (m + n) ≡ suc m + n
    sum m n = omega arith

append_assoc : (s t u : Text) → (s ++ t) ++ u ≡ s ++ (t ++ u)
append_assoc [] t u = refl
append_assoc (c ∷ s) t u = ap (λ x. c ∷ x) (append_assoc s t u)

append_nil : (s : Text) → s ++ [] ≡ s
append_nil [] = refl
append_nil (c ∷ s) = ap (λ x. c ∷ x) (append_nil s)

abbrev stripped : ℕ → Text → Text
stripped c t = elim t [ [] ↦ if c == 47 then [] else c ∷ [] | d ∷ u ↦ c ∷ d ∷ u ]

strip_end-slashes : (s : Text) (n : ℕ) → strip_end (s ++ slashes n) ≡ strip_end s
unfolding strip_end slashes
strip_end-slashes [] zero = refl
strip_end-slashes [] (suc n) = ap (stripped 47) (strip_end-slashes [] n)
strip_end-slashes (c ∷ s) n = ap (stripped c) (strip_end-slashes s n)

-- What is stripped is slashes.
strip_end-whole : (s : Text) → (n : ℕ) × (s ≡ strip_end s ++ slashes n)
unfolding strip_end slashes
strip_end-whole [] = (0, refl)
strip_end-whole (c ∷ s) = by (strip_end s) (strip_end-whole s)
  where
    by : (t : Text) → (n : ℕ) × (s ≡ t ++ slashes n) → (n : ℕ) × (c ∷ s ≡ stripped c t ++ slashes n)
    by (d ∷ u) (n, e) = (n, ap (λ x. c ∷ x) e)
    by [] (n, e) = elim (Bool-cases (c == 47)) [
      | inl hit ↦ (
        suc n,
        ap (λ x. c ∷ x) e
            ∙ ap (λ x. x ∷ slashes n) ((nat_eq_iff c 47).0 hit)
            ∙ ap (λ b. (if b then [] else c ∷ []) ++ 47 ∷ slashes n) (sym hit),
      )
      | inr miss ↦
          (n, ap (λ x. c ∷ x) e ∙ ap (λ b. (if b then [] else c ∷ []) ++ slashes n) (sym miss))
    ]

module _ (casefold : Text → Text) where
  abbrev cased : ArchiveMember → Text
  cased member = casefold (slashed member.filename)

  -- After case folding the names differ in slashes at their ends only.
  pub record IsAlike (a b : ArchiveMember) : Type 0 where
    pub left : ℕ
    pub right : ℕ
    pub same :
        casefold (slashed a.filename) ++ slashes left
        ≡ casefold (slashed b.filename) ++ slashes right

  -- No two members at different places are alike.
  abbrev pub AllApart : List ArchiveMember → Type 0
  AllApart [] = Unit
  AllApart (a ∷ rest) = All (λ b. IsAlike a b → ⊥) rest × AllApart rest

  IsAlike-of : (a b : ArchiveMember) → strip_end (cased a) ≡ strip_end (cased b) → IsAlike a b
  IsAlike-of a b e =
      let (m, whole_a) = strip_end-whole (cased a) in
      let (n, whole_b) = strip_end-whole (cased b) in
      record {
        left = n;
        right = m;
        same =
            ap (λ t. t ++ slashes n) whole_a
            ∙ append_assoc (strip_end (cased a)) (slashes m) (slashes n)
            ∙ ap (λ t. strip_end (cased a) ++ t) (swap m n)
            ∙ ap (λ t. t ++ (slashes n ++ slashes m)) e
            ∙ sym (append_assoc (strip_end (cased b)) (slashes n) (slashes m))
            ∙ ap (λ t. t ++ slashes m) (sym whole_b);
      }
    where
      swap : (m n : ℕ) → slashes m ++ slashes n ≡ slashes n ++ slashes m
      swap m n = slashes-add m n ∙ ap slashes (omega arith) ∙ sym (slashes-add n m)

  IsAlike-stripped : (a b : ArchiveMember) → IsAlike a b → strip_end (cased a) ≡ strip_end (cased b)
  IsAlike-stripped a b h =
      sym (strip_end-slashes (cased a) h.left)
      ∙ ap strip_end h.same
      ∙ strip_end-slashes (cased b) h.right

  module _ (limits : ArchiveLimits) (links encrypted : List Text) where
    abbrev fold : ArchiveMember → Text
    fold member = folded casefold limits links encrypted member

    fold-cased : (member : ArchiveMember) → fold member ≡ strip_end (cased member)
    fold-cased member = ap (λ t. strip_end (casefold t)) (forward_slashes-slashed member.filename)

    apart_iff :
        (a : ArchiveMember) (rest : List ArchiveMember)
        → All (λ y. (fold a == y) ≡ false) (map fold rest) ↔ All (λ b. IsAlike a b → ⊥) rest
    apart_iff a [] = (λ h. tt, λ h. tt)
    apart_iff a (b ∷ rest) =
        let later = apart_iff a rest in (λ h. (to h.0, later.0 h.1), λ h. (from h.0, later.1 h.1))
      where
        to : (fold a == fold b) ≡ false → IsAlike a b → ⊥
        to e h = cc (
          (codes_eq_iff (fold a) (fold b)).1
              (fold-cased a ∙ IsAlike-stripped a b h ∙ sym (fold-cased b)),
          e,
        )

        from : (IsAlike a b → ⊥) → (fold a == fold b) ≡ false
        from h = elim (Bool-cases (fold a == fold b)) [
          | inl e ↦ absurd (
              h (
                IsAlike-of a b
                  (sym (fold-cased a) ∙ (codes_eq_iff (fold a) (fold b)).0 e ∙ fold-cased b)))
          | inr e ↦ e
        ]

    pub AllApart-iff :
        (members : List ArchiveMember) → Distinct (map fold members) ↔ AllApart members
    AllApart-iff [] = (λ h. tt, λ h. tt)
    AllApart-iff (a ∷ rest) =
        let here = apart_iff a rest in
        let later = AllApart-iff rest in
        (λ h. (here.0 h.0, later.0 h.1), λ h. (here.1 h.0, later.1 h.1))
