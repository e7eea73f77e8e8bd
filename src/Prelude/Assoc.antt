-- ===== src/Prelude/Assoc.antt =====
-- Decidable keys, and maps as association lists over them.
use Prim.Native.Nat.{ℕ}
use Prim.Native.String.{String}
use mathlib.Core.Path.{◌≡◌, refl}
use mathlib.Core.Logic.{◌↔◌}
use mathlib.Core.Bool.{Bool, true, false, ◌&&◌}
use mathlib.Core.Option.{Option, none, some}
use mathlib.Core.List.{List, [], ◌∷◌}
use native.Mathlib.Omega.{arith}
use text.Mathlib.Text.{◌==◌ as str_eq}
use text.Mathlib.TextEquality.{eq_iff}
use kavita_ingest.Prelude.Tests.{nat_eq, nat_eq_iff, if◌then◌else◌}

-- A type with a Boolean test of equality.
pub record Eq {κ} (Key : Type κ) : Type κ where
  pub beq : Key → Key → Bool
  pub beq_iff : (j k : Key) → (beq j k ≡ true) ↔ (j ≡ k)

infix 50 ◌==◌
abbrev pub ◌==◌ {κ} : {Key : Type κ} ⦃keys : Eq Key⦄ → Key → Key → Bool
◌==◌ ⦃keys⦄ = keys.beq

instance abbrev pub string_Eq : Eq String
string_Eq = record { beq = str_eq; beq_iff = eq_iff }

instance abbrev pub nat_Eq : Eq ℕ
nat_Eq = record { beq = nat_eq; beq_iff = nat_eq_iff }

-- Lists of texts, compared from the head.
unfoldable pub texts_eq : List String → List String → Bool
texts_eq [] [] = true
texts_eq (x ∷ xs) (y ∷ ys) = str_eq x y && texts_eq xs ys
texts_eq [] (y ∷ ys) = false
texts_eq (x ∷ xs) [] = false

pub texts_eq_iff : (xs ys : List String) → (texts_eq xs ys ≡ true) ↔ (xs ≡ ys)
unfolding texts_eq
texts_eq_iff [] [] = ground arith
texts_eq_iff (x ∷ xs) (y ∷ ys) = ground (arith, texts_eq_iff xs ys, eq_iff x y)
texts_eq_iff [] (y ∷ ys) = ground arith
texts_eq_iff (x ∷ xs) [] = ground arith

instance abbrev pub texts_Eq : Eq (List String)
texts_Eq = record { beq = texts_eq; beq_iff = texts_eq_iff }

module _ {κ υ} {Key : Type κ} {V : Type υ} ⦃keys : Eq Key⦄ where
  unfoldable pub lookup : Key → List (Key × V) → Option V
  lookup k [] = none
  lookup k ((j, found) ∷ table) = if j == k then some found else lookup k table

  -- A key that is there is overwritten where it stands.
  unfoldable pub insert : Key → V → List (Key × V) → List (Key × V)
  insert k new [] = (k, new) ∷ []
  insert k new ((j, old) ∷ table) =
      if j == k then (k, new) ∷ table else (j, old) ∷ insert k new table

  unfoldable pub erase : Key → List (Key × V) → List (Key × V)
  erase k [] = []
  erase k ((j, old) ∷ table) = let rest = erase k table in if j == k then rest else (j, old) ∷ rest

  pub lookup-insert :
      (k sought : Key) (new : V) (table : List (Key × V))
      → lookup sought (insert k new table) ≡ (if k == sought then some new else lookup sought table)
  unfolding lookup insert
  lookup-insert k sought new [] = refl
  lookup-insert k sought new ((j, old) ∷ table) = ground (
    arith,
    keys.beq_iff j sought,
    keys.beq_iff j k,
    keys.beq_iff k sought,
    lookup-insert k sought new table,
  )

  pub lookup-erase :
      (k sought : Key) (table : List (Key × V))
      → lookup sought (erase k table) ≡ (if k == sought then none else lookup sought table)
  unfolding lookup erase
  lookup-erase k sought [] = ground arith
  lookup-erase k sought ((j, old) ∷ table) = ground (
    arith,
    keys.beq_iff j sought,
    keys.beq_iff j k,
    keys.beq_iff k sought,
    lookup-erase k sought table,
  )

pub eq_refl {ℓ} : {K : Type ℓ} ⦃e : Eq K⦄ (k : K) → (k == k) ≡ true
eq_refl ⦃e⦄ k = (e.beq_iff k k).1 refl

-- Texts as the lists of their code points.
unfoldable pub codes_eq : List ℕ → List ℕ → Bool
codes_eq [] [] = true
codes_eq (x ∷ xs) (y ∷ ys) = nat_eq x y && codes_eq xs ys
codes_eq [] (y ∷ ys) = false
codes_eq (x ∷ xs) [] = false

pub codes_eq_iff : (xs ys : List ℕ) → (codes_eq xs ys ≡ true) ↔ (xs ≡ ys)
unfolding codes_eq
codes_eq_iff [] [] = ground arith
codes_eq_iff (x ∷ xs) (y ∷ ys) = ground (arith, codes_eq_iff xs ys, nat_eq_iff x y)
codes_eq_iff [] (y ∷ ys) = ground arith
codes_eq_iff (x ∷ xs) [] = ground arith

instance abbrev pub codes_Eq : Eq (List ℕ)
codes_Eq = record { beq = codes_eq; beq_iff = codes_eq_iff }
