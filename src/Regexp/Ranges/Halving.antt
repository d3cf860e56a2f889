-- ===== src/Regexp/Ranges/Halving.antt =====
-- The search by halves over sorted intervals, for whatever reads give the bounds.
use quickjs_rs.Base.{
  ℕ, zero, suc, ◌+◌, ◌-◌, ◌/◌, ◌^◌, ◌≤◌, ◌<◌, ◌≡◌, ◌⊎◌, inl, inr, refl, arith, Option, none, some,
  Bool, true, false, ltb, leb, u32, Bool-cases, ltb→lt, ◌==◌,
}
use quickjs_rs.Regexp.Search.{Bound, search}

module _ (n : ℕ) (lo hi : ℕ → ℕ) (c : ℕ) where
  -- The answer is there, and it is whether `c` is in one of the `n` intervals.
  abbrev pub Decided : Option Bool → Type 0
  Decided none = ⊥
  Decided (some true) = (i : ℕ) × (i < n) × (lo i ≤ c) × (c ≤ hi i)
  Decided (some false) = (i : ℕ) → i < n → (c < lo i) ⊎ (hi i < c)

-- The two tests of a round.
pub probe_cases :
    (P : Option Bool → Type 0) (x y : Bool) {lower upper hit : Option Bool}
    → (x ≡ true → P lower)
    → (x ≡ false → y ≡ true → P upper)
    → (x ≡ false → y ≡ false → P hit)
    → P (elim x [ true ↦ lower | false ↦ elim y [ true ↦ upper | false ↦ hit ] ])
probe_cases P true y l u h = l refl
probe_cases P false true l u h = u refl refl
probe_cases P false false l u h = h refl refl

-- Intervals in order, with a gap before the next one or none.
pub record Intervals (n : ℕ) (lo hi : ℕ → ℕ) : Type 0 where
  pub proper : (i : ℕ) → i < n → lo i ≤ hi i
  pub apart : (i j : ℕ) → i < j → j < n → hi i < lo j

module _ (n : ℕ) (lo hi : ℕ → ℕ) (sorted : Intervals n lo hi) (c : ℕ) where
  pub below : (m : ℕ) → m < n → hi m < c → (i : ℕ) → i < m + 1 → hi i < c
  below m mn h i im = elim (Bool-cases (i == m)) [
    | inl e ↦ let same : i ≡ m = ground arith in rw (same) h
    | inr e ↦
        let before : i < m = ground arith in
        omega (arith, sorted.apart i m before mn, sorted.proper m mn)
  ]

  pub beyond : (m : ℕ) → m < n → c < lo m → (i : ℕ) → m ≤ i → i < n → c < lo i
  beyond m mn h i mi i_n = elim (Bool-cases (i == m)) [
    | inl e ↦ let same : i ≡ m = ground arith in rw (same) h
    | inr e ↦
        let after : m < i = ground arith in
        omega (arith, sorted.apart m i after i_n, sorted.proper m mn)
  ]

module _ (n : ℕ) (lo hi : ℕ → ℕ) (sorted : Intervals n lo hi) (small : n < 2 ^ 16)
    (low high : Bound) (low_is : (i : ℕ) → i < n → low i ≡ some (lo i))
    (high_is : (i : ℕ) → i < n → high i ≡ some (hi i)) (c : ℕ) (above : lo 0 ≤ c) where
  abbrev middle : ℕ → ℕ → ℕ
  middle a b = u32 (a + b) / 2

  previous : (m : ℕ) → m < n → c < lo m → (u32 (m + 2 ^ 32 - 1) ≡ m - 1) × (0 < m)
  previous zero mn h = absurd (omega arith)
  previous (suc m) mn h = (omega arith, omega arith)

  outside :
      (a b : ℕ)
      → b < a
      → ((i : ℕ) → i < a → hi i < c)
      → ((i : ℕ) → b < i → i < n → c < lo i)
      → (i : ℕ) → i < n
      → (c < lo i) ⊎ (hi i < c)
  outside a b ba under over i i_n = elim (Bool-cases (ltb i a)) [
    | inl e ↦ inr (under i (ltb→lt i a e))
    | inr e ↦ let after : a ≤ i = ground arith in inl (over i (omega arith) i_n)
  ]

  pub search-Decided :
      (fuel a b : ℕ)
      → b < n
      → a ≤ b + 1
      → b + 2 ≤ fuel + a
      → ((i : ℕ) → i < a → hi i < c)
      → ((i : ℕ) → b < i → i < n → c < lo i)
      → Decided n lo hi c (search fuel low high c a b)
  unfolding search
  search-Decided zero a b bn ab enough under over = absurd (omega arith)
  search-Decided (suc fuel) a b bn ab enough under over = elim (Bool-cases (leb a b)) [
    | inr e ↦ rw (e, search) (λ i h. outside a b (ground arith) under over i h)
    | inl e ↦
        let ordered : a ≤ b = ground arith in
        let mn : middle a b < n = omega arith in
        rw (e, search, low_is (middle a b) mn, high_is (middle a b) mn)
          (probe_cases (Decided n lo hi c) (ltb c (lo (middle a b))) (ltb (hi (middle a b)) c)
            (λ e1.
              let before : c < lo (middle a b) = ltb→lt c _ e1 in
              let (down, positive) = previous (middle a b) mn before in
              rw (down) (
                search-Decided fuel a (middle a b - 1) (omega arith) (omega arith) (omega arith)
                  under
                  (λ i mi i_n. beyond n lo hi sorted c (middle a b) mn before i (omega arith) i_n)))
            (λ e1 e2.
              let after : hi (middle a b) < c = ltb→lt _ c e2 in
              let up : u32 (middle a b + 1) ≡ middle a b + 1 = omega arith in
              rw (up) (
                search-Decided fuel (middle a b + 1) b bn (omega arith) (omega arith)
                  (below n lo hi sorted c (middle a b) mn after) over))
            (λ e1 e2. (middle a b, mn, ground arith, ground arith)))
  ]
