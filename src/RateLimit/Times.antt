-- ===== src/RateLimit/Times.antt =====
-- Time stamps filtered and put in order.
use kavita_ingest.Prelude.{
  ℕ, suc, ◌+◌, ◌≤◌, ◌<◌, ◌≡◌, refl, String, Bool, true, false, ◌⊎◌, inl, inr, List, [], ◌∷◌, ◌++◌,
  string_Eq, ltb, leb, length, All, arith, if◌then◌else◌, if_cases,
}
use kavita_ingest.RateLimit.{Reserved, times, recent, place, in_order, last_from}

pub recent-All : (now window : ℕ) (ts : List ℕ) → All (λ t. now < t + window) (recent now window ts)
unfolding recent
recent-All now window [] = tt
recent-All now window (t ∷ ts) =
    by (ltb now (t + window)) (λ e. ground arith) (recent-All now window ts)
  where
    by :
        (b : Bool)
        → (b ≡ true → now < t + window)
        → All (λ u. now < u + window) (recent now window ts)
        → All (λ u. now < u + window) (if b then t ∷ recent now window ts else recent now window ts)
    by true in_time h = (in_time refl, h)
    by false in_time h = h

-- What holds of all the time stamps that are in the window holds, or they are out of it.
pub recent-outside :
    (P : ℕ → Type 0) (now window : ℕ) (ts : List ℕ)
    → All P (recent now window ts)
    → All (λ t. P t ⊎ (t + window ≤ now)) ts
unfolding recent
recent-outside P now window [] h = tt
recent-outside P now window (t ∷ ts) h =
    if_cases (λ l. All P l → All (λ u. P u ⊎ (u + window ≤ now)) (t ∷ ts)) (ltb now (t + window))
      (λ e g. (inl g.0, recent-outside P now window ts g.1))
      (λ e g. (inr (ground arith), recent-outside P now window ts g)) h

module _ (P : ℕ → Type 0) where
  place-All : (t : ℕ) (us : List ℕ) → P t → All P us → All P (place t us)
  unfolding place
  place-All t [] p h = (p, tt)
  place-All t (u ∷ us) p h =
      if_cases (All P) (leb t u) (λ e. (p, h)) (λ e. (h.0, place-All t us p h.1))

  pub in_order-All : (ts : List ℕ) → All P ts → All P (in_order ts)
  unfolding in_order
  in_order-All [] h = tt
  in_order-All (t ∷ ts) h = place-All t (in_order ts) h.0 (in_order-All ts h.1)

  All-place : (t : ℕ) (us : List ℕ) → All P (place t us) → P t × All P us
  unfolding place
  All-place t [] h = h
  All-place t (u ∷ us) h =
      if_cases (λ l. All P l → P t × All P (u ∷ us)) (leb t u) (λ e g. g)
        (λ e g. let rest = All-place t us g.1 in (rest.0, (g.0, rest.1))) h

  pub All-in_order : (ts : List ℕ) → All P (in_order ts) → All P ts
  unfolding in_order
  All-in_order [] h = tt
  All-in_order (t ∷ ts) h =
      let both = All-place t (in_order ts) h in (both.0, All-in_order ts both.1)

length-place : (t : ℕ) (us : List ℕ) → length (place t us) ≡ suc (length us)
unfolding place
length-place t [] = refl
length-place t (u ∷ us) = ground (arith, length-place t us)

pub length-in_order : (ts : List ℕ) → length (in_order ts) ≡ length ts
unfolding in_order
length-in_order [] = refl
length-in_order (t ∷ ts) = ground (arith, length-place t (in_order ts), length-in_order ts)

abbrev pub IsSorted : List ℕ → Type 0
IsSorted [] = Unit
IsSorted (t ∷ ts) = All (λ u. t ≤ u) ts × IsSorted ts

below-All : (s t : ℕ) (us : List ℕ) → s ≤ t → All (λ u. t ≤ u) us → All (λ u. s ≤ u) us
below-All s t [] st h = tt
below-All s t (u ∷ us) st h = (omega (arith, h.0), below-All s t us st h.1)

place-IsSorted : (t : ℕ) (us : List ℕ) → IsSorted us → IsSorted (place t us)
unfolding place
place-IsSorted t [] h = (tt, tt)
place-IsSorted t (u ∷ us) h =
    if_cases IsSorted (leb t u) (λ e. ((ground arith, below-All t u us (ground arith) h.0), h))
      (λ e. (place-All (λ v. u ≤ v) t us (ground arith) h.0, place-IsSorted t us h.1))

pub in_order-IsSorted : (ts : List ℕ) → IsSorted (in_order ts)
unfolding in_order
in_order-IsSorted [] = tt
in_order-IsSorted (t ∷ ts) = place-IsSorted t (in_order ts) (in_order-IsSorted ts)

-- The last of a sorted list bounds it.
pub IsSorted-last_from :
    (t : ℕ) (ts : List ℕ) → IsSorted (t ∷ ts) → All (λ u. u ≤ last_from t ts) (t ∷ ts)
IsSorted-last_from t [] h = (omega arith, tt)
IsSorted-last_from t (u ∷ us) h =
    let rest = IsSorted-last_from u us h.1 in (omega (arith, h.0.0, rest.0), rest)

pub times-append :
    (provider bucket : String) (rows new : List Reserved)
    → times provider bucket (rows ++ new) ≡ times provider bucket rows ++ times provider bucket new
unfolding times
times-append provider bucket [] new = refl
times-append provider bucket (row ∷ rest) new =
    ground (arith, times-append provider bucket rest new)
