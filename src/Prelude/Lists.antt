-- ===== src/Prelude/Lists.antt =====
-- Lists measured and tested over the native numbers and Booleans.
use Prim.Native.Nat.{ℕ, suc, ◌+◌}
use mathlib.Core.Path.{◌≡◌, refl}
use mathlib.Core.Logic.{◌⊎◌}
use mathlib.Core.Bool.{Bool, true, false, ◌&&◌, ◌||◌}
use mathlib.Core.Option.{Option, none, some}
use mathlib.Core.List.{List, [], ◌∷◌, ◌++◌}
use kavita_ingest.Prelude.Tests.{if◌then◌else◌}
use native.Mathlib.Omega.{arith}

module _ {ℓ} {A : Type ℓ} where
  abbrev pub length : List A → ℕ
  length [] = 0
  length (x ∷ xs) = suc (length xs)

  abbrev pub all : (A → Bool) → List A → Bool
  all p [] = true
  all p (x ∷ xs) = p x && all p xs

  abbrev pub any : (A → Bool) → List A → Bool
  any p [] = false
  any p (x ∷ xs) = p x || any p xs

  pub length-append : (xs ys : List A) → length (xs ++ ys) ≡ length xs + length ys
  length-append [] ys = omega arith
  length-append (x ∷ xs) ys = omega (arith, length-append xs ys)

module _ {ℓ} {A : Type ℓ} where
  -- The elements that pass a test, in their order.
  unfoldable pub select : (A → Bool) → List A → List A
  select test [] = []
  select test (x ∷ xs) = let others = select test xs in if test x then x ∷ others else others

  unfoldable pub last_of : List A → Option A
  last_of [] = none
  last_of (x ∷ xs) = elim (last_of xs) [ none ↦ some x | some later ↦ some later ]

  pub select-append :
      (test : A → Bool) (xs : List A) (x : A)
      → test x ≡ true
      → select test (xs ++ x ∷ []) ≡ select test xs ++ x ∷ []
  unfolding select
  select-append test [] x h = rw h refl
  select-append test (y ∷ xs) x h = ground (arith, select-append test xs x h)

  pub last_of-append : (xs : List A) (x : A) → last_of (xs ++ x ∷ []) ≡ some x
  unfolding last_of
  last_of-append [] x = refl
  last_of-append (y ∷ xs) x = rw (last_of-append xs x) refl

module _ {ℓ κ} {A : Type ℓ} where
  -- A predicate of every element, which computes to a tuple.
  abbrev pub All : (A → Type κ) → List A → Type κ
  All P [] = Unit
  All P (x ∷ xs) = P x × All P xs

  pub All-append :
      (P : A → Type κ) (front back : List A) → All P front → All P back → All P (front ++ back)
  All-append P [] back f b = b
  All-append P (x ∷ front) back f b = (f.0, All-append P front back f.1 b)

  pub All-map : (P Q : A → Type κ) (xs : List A) → ((x : A) → P x → Q x) → All P xs → All Q xs
  All-map P Q [] f h = tt
  All-map P Q (x ∷ xs) f h = (f x h.0, All-map P Q xs f h.1)

module _ {ℓ} {A : Type ℓ} where
  -- A predicate of some element.
  abbrev pub Any : (A → Type 0) → List A → Type 0
  Any P [] = ⊥
  Any P (x ∷ xs) = P x ⊎ Any P xs
