-- ===== src/ArchiveSafety/Pieces.antt =====
-- Names that stay inside and are not too deep, said by their pieces (`PurePosixPath.parts` in
-- src/kavita_ingest/archive_safety.py).
use mathlib.Core.Path.{subst}
use kavita_ingest.Prelude.{
  ℕ, suc, ◌≤◌, ◌≡◌, ◌≢◌, refl, sym, ap, ◌∙◌, ◌↔◌, inl, inr, false, not, codes_eq, codes_eq_iff,
  List, [], ◌∷◌, ◌++◌, ◌==◌, nat_Eq, nat_eq_iff, codes_Eq, length, All, if_cases, if◌then◌else◌,
  Bool-cases,
}
use kavita_ingest.ArchiveSafety.{
  Text, cons_first, split, dot, dot_dot, is_component, components, parts,
}

-- The pieces with slashes between them.
unfoldable pub join : List Text → Text
join [] = []
join (piece ∷ []) = piece
join (piece ∷ next ∷ rest) = let later = join (next ∷ rest) in piece ++ 47 ∷ later

abbrev pub HasNoSlash : Text → Type 0
HasNoSlash piece = All (λ c. c ≢ 47) piece

-- How many of the pieces are neither empty nor a single dot.
pub data Counts : List Text → ℕ → Type 0 where
  nothing : Counts [] 0
  skip_empty : (rest : List Text) (n : ℕ) → Counts rest n → Counts ([] ∷ rest) n
  skip_dot : (rest : List Text) (n : ℕ) → Counts rest n → Counts ((46 ∷ []) ∷ rest) n
  count :
      (piece : Text) (rest : List Text) (n : ℕ)
      → piece ≢ []
      → piece ≢ 46 ∷ []
      → Counts rest n
      → Counts (piece ∷ rest) (suc n)

-- The name is made of pieces without slashes; none is "..", and not too many count.
pub record IsInside (depth : ℕ) (name : Text) : Type 0 where
  pub pieces : List Text
  pub plain : All HasNoSlash pieces
  pub joined : join pieces ≡ name
  pub no_parent : All (λ piece. piece ≢ 46 ∷ 46 ∷ []) pieces
  pub levels : ℕ
  pub counted : Counts pieces levels
  pub shallow : levels ≤ depth

module _ (c : ℕ) where
  join-cons_first : (p : Text) (ps : List Text) → join (cons_first c (p ∷ ps)) ≡ c ∷ join (p ∷ ps)
  unfolding join
  join-cons_first p [] = refl
  join-cons_first p (q ∷ ps) = refl

split_nonempty : (s : Text) → split s ≢ []
unfolding split
split_nonempty [] e = cc
split_nonempty (c ∷ s) e =
    if_cases (λ l. l ≢ []) (c == 47) {x = [] ∷ split s} {y = cons_first c (split s)} (λ h e. cc)
      (λ h. first_nonempty (split s)) e
  where
    first_nonempty : (l : List Text) → cons_first c l ≢ []
    first_nonempty [] e = cc
    first_nonempty (p ∷ ps) e = cc

join-split : (s : Text) → join (split s) ≡ s
unfolding join split
join-split [] = refl
join-split (c ∷ s) =
    if_cases (λ l. join l ≡ c ∷ s) (c == 47)
      (λ h.
        behind (split s) (split_nonempty s)
        ∙ ap (λ t. 47 ∷ t) (join-split s)
        ∙ ap (λ x. x ∷ s) (sym ((nat_eq_iff c 47).0 h)))
      (λ h. first (split s) (split_nonempty s) ∙ ap (λ t. c ∷ t) (join-split s))
  where
    behind : (l : List Text) → l ≢ [] → join ([] ∷ l) ≡ 47 ∷ join l
    behind [] h = absurd (h refl)
    behind (p ∷ ps) h = refl

    first : (l : List Text) → l ≢ [] → join (cons_first c l) ≡ c ∷ join l
    first [] h = absurd (h refl)
    first (p ∷ ps) h = join-cons_first c p ps

split-HasNoSlash : (s : Text) → All HasNoSlash (split s)
unfolding split
split-HasNoSlash [] = (tt, tt)
split-HasNoSlash (c ∷ s) =
    if_cases (All HasNoSlash) (c == 47) (λ h. (tt, split-HasNoSlash s))
      (λ h. first (λ e. cc ((nat_eq_iff c 47).1 e, h)) (split s) (split-HasNoSlash s))
  where
    first : c ≢ 47 → (l : List Text) → All HasNoSlash l → All HasNoSlash (cons_first c l)
    first apart [] h = ((apart, tt), tt)
    first apart (p ∷ ps) h = ((apart, h.0), h.1)

-- A text has no other pieces.
split-join : (p : Text) (ps : List Text) → All HasNoSlash (p ∷ ps) → split (join (p ∷ ps)) ≡ p ∷ ps
unfolding join split
split-join [] [] h = refl
split-join [] (q ∷ ps) h = ap (λ l. [] ∷ l) (split-join q ps h.1)
split-join (c ∷ p) [] h =
    ap (λ b. if b then [] ∷ split p else cons_first c (split p)) (miss h.0.0)
    ∙ ap (cons_first c) (split-join p [] (h.0.1, tt))
  where
    miss : c ≢ 47 → (c == 47) ≡ false
    miss apart = elim (Bool-cases (c == 47)) [
      | inl e ↦ absurd (apart ((nat_eq_iff c 47).0 e))
      | inr e ↦ e
    ]
split-join (c ∷ p) (q ∷ ps) h =
    ap (λ b. if b then [] ∷ split (join (p ∷ q ∷ ps)) else cons_first c (split (join (p ∷ q ∷ ps))))
      (miss h.0.0)
    ∙ ap (cons_first c) (split-join p (q ∷ ps) (h.0.1, h.1))
  where
    miss : c ≢ 47 → (c == 47) ≡ false
    miss apart = elim (Bool-cases (c == 47)) [
      | inl e ↦ absurd (apart ((nat_eq_iff c 47).0 e))
      | inr e ↦ e
    ]

Counts-components : (ps : List Text) → Counts ps (length (components ps))
unfolding components
Counts-components [] = nothing
Counts-components ([] ∷ ps) = skip_empty ps _ (Counts-components ps)
Counts-components ((c ∷ p) ∷ ps) = elim (Bool-cases ((c ∷ p) == dot)) [
  | inl e ↦
      subst
        (λ b.
          Counts ((c ∷ p) ∷ ps) (length (if not b then (c ∷ p) ∷ components ps else components ps)))
        (sym e)
        (subst (λ q. Counts (q ∷ ps) (length (components ps)))
          (sym ((codes_eq_iff (c ∷ p) dot).0 e)) (skip_dot ps _ (Counts-components ps)))
  | inr e ↦
      subst
        (λ b.
          Counts ((c ∷ p) ∷ ps) (length (if not b then (c ∷ p) ∷ components ps else components ps)))
        (sym e)
        (count (c ∷ p) ps _ (λ h. cc) (λ h. cc ((codes_eq_iff (c ∷ p) dot).1 h, e))
          (Counts-components ps))
]

-- There is one count.
Counts-length : (ps : List Text) (n : ℕ) → Counts ps n → length (components ps) ≡ n
unfolding components codes_eq
Counts-length _ _ nothing = refl
Counts-length _ _ (skip_empty ps n h) = Counts-length ps n h
Counts-length _ _ (skip_dot ps n h) = Counts-length ps n h
Counts-length _ _ (count [] ps n full other h) = absurd (full refl)
Counts-length _ _ (count (c ∷ p) ps n full other h) = elim (Bool-cases ((c ∷ p) == dot)) [
  | inl e ↦ absurd (other ((codes_eq_iff (c ∷ p) dot).0 e))
  | inr e ↦
      ap (λ b. length (if not b then (c ∷ p) ∷ components ps else components ps)) e
      ∙ ap suc (Counts-length ps n h)
]

-- None of the parts is "..", whether all pieces are asked or those that count.
no_parent_iff :
    (ps : List Text)
    → All (λ p. (p == dot_dot) ≡ false) (components ps) ↔ All (λ p. p ≢ 46 ∷ 46 ∷ []) ps
unfolding components codes_eq
no_parent_iff [] = (λ h. tt, λ h. tt)
no_parent_iff (p ∷ ps) =
    if_cases
      (λ l.
        All (λ q. (q == dot_dot) ≡ false) l ↔ ((p ≢ 46 ∷ 46 ∷ []) × All (λ q. q ≢ 46 ∷ 46 ∷ []) ps))
      (is_component p)
      (λ e. (
        λ h. ((λ same. cc ((codes_eq_iff p dot_dot).1 same, h.0)), (no_parent_iff ps).0 h.1),
        λ h. (unlike h.0, (no_parent_iff ps).1 h.1),
      ))
      (λ e. (λ h. ((λ same. apart e same), (no_parent_iff ps).0 h), λ h. (no_parent_iff ps).1 h.1))
  where
    unlike : p ≢ 46 ∷ 46 ∷ [] → (p == dot_dot) ≡ false
    unlike h = elim (Bool-cases (p == dot_dot)) [
      | inl e ↦ absurd (h ((codes_eq_iff p dot_dot).0 e))
      | inr e ↦ e
    ]

    apart : is_component p ≡ false → p ≡ 46 ∷ 46 ∷ [] → ⊥
    apart e same = never (sym (ap is_component same) ∙ e)
      where
        never : is_component (46 ∷ 46 ∷ []) ≡ false → ⊥
        never h = cc

pub IsInside-of :
    (depth : ℕ) (name : Text)
    → All (λ p. (p == dot_dot) ≡ false) (parts name)
    → length (parts name) ≤ depth
    → IsInside depth name
IsInside-of depth name inside few = record {
  pieces = split name;
  plain = split-HasNoSlash name;
  joined = join-split name;
  no_parent = (no_parent_iff (split name)).0 inside;
  levels = length (parts name);
  counted = Counts-components (split name);
  shallow = few;
}

pub IsInside-parts :
    (depth : ℕ) (name : Text)
    → name ≢ []
    → IsInside depth name
    → All (λ p. (p == dot_dot) ≡ false) (parts name) × (length (parts name) ≤ depth)
unfolding join
IsInside-parts depth name full h = by h.pieces h.plain h.joined h.no_parent h.counted
  where
    by :
        (ps : List Text)
        → All HasNoSlash ps
        → join ps ≡ name
        → All (λ p. p ≢ 46 ∷ 46 ∷ []) ps
        → Counts ps h.levels
        → All (λ p. (p == dot_dot) ≡ false) (parts name) × (length (parts name) ≤ depth)
    by [] plain joined none_up counted = absurd (full (sym joined))
    by (p ∷ ps) plain joined none_up counted =
        let same : split name ≡ p ∷ ps = ap split (sym joined) ∙ split-join p ps plain in
        let few = h.shallow in
        (
          subst (λ l. All (λ q. (q == dot_dot) ≡ false) (components l)) (sym same)
              ((no_parent_iff (p ∷ ps)).1 none_up),
          subst (λ l. length (components l) ≤ depth) (sym same)
              (subst (λ n. n ≤ depth) (sym (Counts-length (p ∷ ps) h.levels counted)) few),
        )
