-- ===== src/ArchiveSafety/Names.antt =====
-- Names that are relative, said without the test `has_bad_start` (`validate_inventory` of
-- src/kavita_ingest/archive_safety.py).
use mathlib.Core.Path.{subst}
use kavita_ingest.Prelude.{
  ℕ, ◌≤◌, ◌≡◌, ◌≢◌, refl, sym, ap, ◌↔◌, ◌⊎◌, inl, inr, Bool, true, false, ◌&&◌, ◌||◌, [], ◌∷◌, ◌==◌,
  nat_Eq, nat_eq_iff, codes_Eq, leb, map, arith, if◌then◌else◌, Bool-cases,
}
use kavita_ingest.ArchiveSafety.{Text, forward_slashes, is_letter, has_bad_start}

-- Backslashes count as slashes.
abbrev pub to_slash : ℕ → ℕ
to_slash c = if c == 92 then 47 else c

abbrev pub slashed : Text → Text
slashed name = map to_slash name

-- A letter and a colon at the start.
pub record HasDrive (name : Text) : Type 0 where
  pub letter : ℕ
  pub rest : Text
  pub at : name ≡ letter ∷ 58 ∷ rest
  pub range : ((65 ≤ letter) × (letter ≤ 90)) ⊎ ((97 ≤ letter) × (letter ≤ 122))

pub record IsRelative (name : Text) : Type 0 where
  pub nonempty : name ≢ []
  pub not_absolute : (rest : Text) → name ≢ 47 ∷ rest
  pub no_drive : HasDrive name → ⊥

head_same : {c d : ℕ} {s t : Text} → c ∷ s ≡ d ∷ t → c ≡ d
head_same e = cc

second_same : {b c d e : ℕ} {s t : Text} → b ∷ c ∷ s ≡ d ∷ e ∷ t → c ≡ e
second_same h = cc

single : {c d e : ℕ} {t : Text} → c ∷ [] ≡ d ∷ e ∷ t → ⊥
single h = cc

letter_range : (c : ℕ) → is_letter c ≡ true → ((65 ≤ c) × (c ≤ 90)) ⊎ ((97 ≤ c) × (c ≤ 122))
letter_range c e = by (Bool-cases (leb 65 c && leb c 90))
  where
    by :
        ((leb 65 c && leb c 90) ≡ true) ⊎ ((leb 65 c && leb c 90) ≡ false)
        → ((65 ≤ c) × (c ≤ 90)) ⊎ ((97 ≤ c) × (c ≤ 122))
    by (inl h) = inl (ground (arith, h), ground (arith, h))
    by (inr h) = inr (ground (arith, h, e), ground (arith, h, e))

range_letter : (c : ℕ) → ((65 ≤ c) × (c ≤ 90)) ⊎ ((97 ≤ c) × (c ≤ 122)) → is_letter c ≡ true
range_letter c (inl (a, b)) = ground (arith, a, b)
range_letter c (inr (a, b)) = ground (arith, a, b)

pub has_bad_start-IsRelative : (name : Text) → (has_bad_start name ≡ false) ↔ IsRelative name
has_bad_start-IsRelative [] = (λ e. cc, λ r. absurd (r.nonempty refl))
has_bad_start-IsRelative (c ∷ []) = (
  λ e. record {
    nonempty = λ h. cc;
    not_absolute = λ rest h. cc ((nat_eq_iff c 47).1 (head_same h), e);
    no_drive = λ d. single d.at;
  },
  λ r. elim (Bool-cases (c == 47)) [
    | inl hit ↦ absurd (r.not_absolute [] (ap (λ x. x ∷ []) ((nat_eq_iff c 47).0 hit)))
    | inr miss ↦ miss
  ],
)
has_bad_start-IsRelative (c ∷ d ∷ s) = (
  λ e. record {
    nonempty = λ h. cc;
    not_absolute = λ rest h. apart e (head_same h);
    no_drive = λ v.
        colon e (range_letter c (subst InRange (sym (head_same v.at)) v.range)) (second_same v.at);
  },
  λ r. by r (Bool-cases (c == 47)) (Bool-cases (is_letter c)) (Bool-cases (d == 58)),
)
  where
    InRange : ℕ → Type 0
    InRange l = ((65 ≤ l) × (l ≤ 90)) ⊎ ((97 ≤ l) × (l ≤ 122))

    apart : has_bad_start (c ∷ d ∷ s) ≡ false → c ≡ 47 → ⊥
    apart e h = neither (c == 47) _ e ((nat_eq_iff c 47).1 h)
      where
        neither : (a b : Bool) → (a || b) ≡ false → a ≡ true → ⊥
        neither true b e h = cc
        neither false b e h = cc

    colon : has_bad_start (c ∷ d ∷ s) ≡ false → is_letter c ≡ true → d ≡ 58 → ⊥
    colon e l h = neither (c == 47) (is_letter c) (d == 58) e l ((nat_eq_iff d 58).1 h)
      where
        neither : (a b f : Bool) → (a || b && f) ≡ false → b ≡ true → f ≡ true → ⊥
        neither true b f e h g = cc
        neither false true true e h g = cc
        neither false true false e h g = cc
        neither false false f e h g = cc

    by :
        IsRelative (c ∷ d ∷ s)
        → ((c == 47) ≡ true) ⊎ ((c == 47) ≡ false)
        → (is_letter c ≡ true) ⊎ (is_letter c ≡ false)
        → ((d == 58) ≡ true) ⊎ ((d == 58) ≡ false)
        → has_bad_start (c ∷ d ∷ s) ≡ false
    by r (inl hit) l f =
        absurd (r.not_absolute (d ∷ s) (ap (λ x. x ∷ d ∷ s) ((nat_eq_iff c 47).0 hit)))
    by r (inr miss) (inl l) (inl f) = absurd (
        r.no_drive record {
          letter = c;
          rest = s;
          at = ap (λ x. c ∷ x ∷ s) ((nat_eq_iff d 58).0 f);
          range = letter_range c l;
        })
    by r (inr miss) (inr l) f = off (c == 47) (is_letter c) (d == 58) miss l
      where
        off : (a b f : Bool) → a ≡ false → b ≡ false → (a || b && f) ≡ false
        off false false f e h = refl
        off true b f e h = cc
        off false true f e h = cc
    by r (inr miss) (inl l) (inr f) = off (c == 47) (is_letter c) (d == 58) miss f
      where
        off : (a b f : Bool) → a ≡ false → f ≡ false → (a || b && f) ≡ false
        off false true false e h = refl
        off false false f e h = refl
        off true b f e h = cc
        off false true true e h = cc

pub forward_slashes-slashed : (name : Text) → forward_slashes name ≡ slashed name
unfolding forward_slashes
forward_slashes-slashed [] = refl
forward_slashes-slashed (c ∷ s) = ap (λ t. to_slash c ∷ t) (forward_slashes-slashed s)
