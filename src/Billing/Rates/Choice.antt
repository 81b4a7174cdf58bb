-- ===== src/Billing/Rates/Choice.antt =====
-- The choice of the rate in billing/rates.py.
use yadakchi.Prelude.{
  ◌≡◌, refl, subst, ◌⊎◌, inl, inr, ℕ, Bool, true, false, none, some, List, [], ◌∷◌, arith, select,
  All, Bool-cases, Option-cases,
}
use yadakchi.Prelude.Int.{ℤ}
use yadakchi.Billing.Models.{CpcRate}
use yadakchi.Billing.Rates.{
  is_active_at, active_rates, in_band, lowest_first, highest_first, sooner, first_by,
  resolve_cpc_rate,
}

highest_first_trans :
    (a b c : CpcRate)
    → highest_first a b ≡ false
    → highest_first b c ≡ false
    → highest_first a c ≡ false
unfolding highest_first
highest_first_trans a b c h k = ground arith

highest_first_asym : (a b : CpcRate) → highest_first a b ≡ true → highest_first b a ≡ false
unfolding highest_first
highest_first_asym a b h = ground arith

highest_first_irrefl : (a : CpcRate) → highest_first a a ≡ false
unfolding highest_first
highest_first_irrefl a = ground arith

lowest_first_trans :
    (a b c : CpcRate)
    → lowest_first a b ≡ false
    → lowest_first b c ≡ false
    → lowest_first a c ≡ false
unfolding lowest_first
lowest_first_trans a b c h k = ground arith

lowest_first_asym : (a b : CpcRate) → lowest_first a b ≡ true → lowest_first b a ≡ false
unfolding lowest_first
lowest_first_asym a b h = ground arith

lowest_first_irrefl : (a : CpcRate) → lowest_first a a ≡ false
unfolding lowest_first
lowest_first_irrefl a = ground arith

-- A strict order in which standing apart is transitive.
module _ (before : CpcRate → CpcRate → Bool)
    (trans : (a b c : CpcRate) → before a b ≡ false → before b c ≡ false → before a c ≡ false)
    (asym : (a b : CpcRate) → before a b ≡ true → before b a ≡ false)
    (irrefl : (a : CpcRate) → before a a ≡ false) where
  later-rows :
      (r s : CpcRate) (xs : List CpcRate)
      → before s r ≡ false
      → All (λ t. before t s ≡ false) xs
      → All (λ t. before t r ≡ false) xs
  later-rows r s [] h k = tt
  later-rows r s (t ∷ xs) h k = (trans t s r k.0 h, later-rows r s xs h k.1)

  none-nil :
      (x : CpcRate) (xs : List CpcRate)
      → first_by before xs ≡ none
      → All (λ t. before t x ≡ false) xs
  unfolding first_by
  none-nil x [] h = tt
  none-nil x (y ∷ ys) h = absurd (cc h)

  sooner-first : (x s : CpcRate) → before s x ≡ false → sooner before x (some s) ≡ x
  sooner-first x s e = rw (sooner, e) refl

  sooner-second : (x s : CpcRate) → before s x ≡ true → sooner before x (some s) ≡ s
  sooner-second x s e = rw (sooner, e) refl

  -- No row stands before the one that is chosen.
  first_by-first :
      (xs : List CpcRate) (r : CpcRate)
      → first_by before xs ≡ some r
      → All (λ t. before t r ≡ false) xs
  unfolding first_by
  first_by-first [] r e = absurd (cc)
  first_by-first (x ∷ xs) r e = elim (Option-cases (first_by before xs)) [
    | inl empty ↦
        let same : x ≡ r = cc (rw empty at e) in
        subst (λ z. All (λ t. before t z ≡ false) (x ∷ xs)) same (irrefl x, none-nil x xs empty)
    | inr (s, best) ↦ elim (Bool-cases (before s x)) [
      | inr first ↦
          let same : x ≡ r = cc (sooner-first x s first, rw best at e) in
          subst (λ z. All (λ t. before t z ≡ false) (x ∷ xs)) same
            (irrefl x, later-rows x s xs first (first_by-first xs s best))
      | inl second ↦
          let same : s ≡ r = cc (sooner-second x s second, rw best at e) in
          subst (λ z. All (λ t. before t z ≡ false) (x ∷ xs)) same
            (asym s x second, first_by-first xs s best)
    ]
  ]

  -- The chosen row has what every row has.
  first_by-All :
      (P : CpcRate → Type 0) (xs : List CpcRate) (r : CpcRate)
      → All P xs
      → first_by before xs ≡ some r
      → P r
  unfolding first_by
  first_by-All P [] r h e = absurd (cc)
  first_by-All P (x ∷ xs) r h e = elim (Option-cases (first_by before xs)) [
    | inl empty ↦ let same : x ≡ r = cc (rw empty at e) in rw (← same) h.0
    | inr (s, best) ↦ elim (Bool-cases (before s x)) [
      | inr first ↦ let same : x ≡ r = cc (sooner-first x s first, rw best at e) in subst P same h.0
      | inl second ↦
          let same : s ≡ r = cc (sooner-second x s second, rw best at e) in
          subst P same (first_by-All P xs s h.1 best)
    ]
  ]

select-All : (p : CpcRate → Bool) (xs : List CpcRate) → All (λ r. p r ≡ true) (select p xs)
select-All p [] = tt
select-All p (x ∷ xs) = elim (Bool-cases (p x)) [
  | inl hit ↦ rw hit (hit, select-All p xs)
  | inr miss ↦ rw miss (select-All p xs)
]

select-keeps-All :
    (P : CpcRate → Type 0) (p : CpcRate → Bool) (xs : List CpcRate) → All P xs → All P (select p xs)
select-keeps-All P p [] h = tt
select-keeps-All P p (x ∷ xs) h = elim (Bool-cases (p x)) [
  | inl hit ↦ rw hit (h.0, select-keeps-All P p xs h.1)
  | inr miss ↦ rw miss (select-keeps-All P p xs h.1)
]

-- What holds of the selected rows, of all rows.
unselected :
    (P : CpcRate → Type 0) (p : CpcRate → Bool) (xs : List CpcRate)
    → All P (select p xs)
    → All (λ r. (p r ≡ false) ⊎ P r) xs
unselected P p [] h = tt
unselected P p (x ∷ xs) h = elim (Bool-cases (p x)) [
  | inl hit ↦ let h' = rw hit at h in (inr h'.0, unselected P p xs h'.1)
  | inr miss ↦ (inl miss, unselected P p xs (rw miss at h))
]

-- The rate of a click with a price is active at its time and its band holds the price; no rate of
-- the table that is active and holds the price stands before it in the order by lower bound,
-- highest first, and then by start, latest first.
pub resolve_cpc_rate-best :
    (price : ℤ) (at : ℕ) (rates : List CpcRate) (r : CpcRate)
    → resolve_cpc_rate (some price) at rates ≡ some r
    → (is_active_at at r ≡ true)
      × (in_band price r ≡ true)
      × All
          (λ s.
            (is_active_at at s ≡ false) ⊎ ((in_band price s ≡ false) ⊎ (highest_first s r ≡ false)))
          rates
unfolding resolve_cpc_rate active_rates
resolve_cpc_rate-best price at rates r e =
    let active = select (is_active_at at) rates in
    (
      first_by-All highest_first highest_first_trans highest_first_asym highest_first_irrefl
          (λ x. is_active_at at x ≡ true) (select (in_band price) active) r
          (select-keeps-All (λ x. is_active_at at x ≡ true) (in_band price) active
            (select-All (is_active_at at) rates))
          e,
      first_by-All highest_first highest_first_trans highest_first_asym highest_first_irrefl
          (λ x. in_band price x ≡ true) (select (in_band price) active) r
          (select-All (in_band price) active) e,
      unselected (λ s. (in_band price s ≡ false) ⊎ (highest_first s r ≡ false)) (is_active_at at)
          rates
          (unselected (λ s. highest_first s r ≡ false) (in_band price) active
            (first_by-first highest_first highest_first_trans highest_first_asym
              highest_first_irrefl (select (in_band price) active) r e)),
    )

-- The rate of a click without a price is active at its time, and no active rate of the table
-- stands before it in the order by lower bound, lowest first, and then by start, latest first.
pub resolve_cpc_rate-lowest :
    (at : ℕ) (rates : List CpcRate) (r : CpcRate)
    → resolve_cpc_rate none at rates ≡ some r
    → (is_active_at at r ≡ true)
      × All (λ s. (is_active_at at s ≡ false) ⊎ (lowest_first s r ≡ false)) rates
unfolding resolve_cpc_rate active_rates
resolve_cpc_rate-lowest at rates r e =
    let active = select (is_active_at at) rates in
    (
      first_by-All lowest_first lowest_first_trans lowest_first_asym lowest_first_irrefl
          (λ x. is_active_at at x ≡ true) active r (select-All (is_active_at at) rates) e,
      unselected (λ s. lowest_first s r ≡ false) (is_active_at at) rates
          (first_by-first lowest_first lowest_first_trans lowest_first_asym lowest_first_irrefl
            active r e),
    )
