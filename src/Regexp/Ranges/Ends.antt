-- ===== src/Regexp/Ranges/Ends.antt =====
-- The ends of the intervals in the two forms of the instruction: which codes the words stand for.
use quickjs_rs.Base.{
  ℕ, zero, suc, ◌+◌, ◌-◌, ◌*◌, ◌^◌, ◌≤◌, ◌<◌, ◌≡◌, ◌≢◌, ◌⊎◌, inl, inr, refl, ap, arith, Option,
  none, some, List, [], ◌∷◌, Bool, true, false, ◌==◌, if◌then◌else◌, length, get_elem?, get_or, u32,
  All, Bool-cases,
}
use quickjs_rs.CharRange.Meaning.{contains, Strict}
use quickjs_rs.Regexp.Emit.{uint32_max, last_code16, highest}
use quickjs_rs.Regexp.Ranges.Halving.{Intervals}
use quickjs_rs.Regexp.Ranges.Match.{Decided16}
use quickjs_rs.Regexp.Ranges.Points.{low_of, end_of, high_of, Strict-lt, contains-in, contains-out}
use quickjs_rs.Regexp.Ranges.Runs.{last_code32}

get_elem?-get_or : (l : List ℕ) (i : ℕ) → i < length l → get_elem? l i ≡ some (get_or l i 0)
get_elem?-get_or [] i h = absurd (omega arith)
get_elem?-get_or (x ∷ l) zero h = refl
get_elem?-get_or (x ∷ l) (suc i) h = get_elem?-get_or l i (omega arith)

-- The point that decides between the two forms.
abbrev pub point_of : List ℕ → ℕ
point_of ps =
    if get_or ps (length ps - 1) 0 == uint32_max
    then get_or ps (length ps - 2) 0
    else get_or ps (length ps - 1) 0

pub get_or-All :
    (bound : ℕ) (l : List ℕ) (i : ℕ) → All (λ p. p ≤ bound) l → i < length l → get_or l i 0 ≤ bound
get_or-All bound [] i a h = absurd (omega arith)
get_or-All bound (x ∷ l) zero a h = a.0
get_or-All bound (x ∷ l) (suc i) a h = get_or-All bound l i a.1 (omega arith)

module _ (ps : List ℕ) (n : ℕ) (strict : Strict 0 ps) (even : length ps ≡ 2 * n) where
  -- The points in the order of their indices.
  at_most : (i j : ℕ) → i ≤ j → j < length ps → get_or ps i 0 ≤ get_or ps j 0
  at_most i j h k = elim (Bool-cases (i == j)) [
    | inl e ↦ let same : i ≡ j = ground arith in omega (arith, ap (λ i. get_or ps i 0) same)
    | inr e ↦ let before : i < j = ground arith in omega (arith, Strict-lt 0 ps i j strict before k)
  ]

  pub low_end : (i : ℕ) → i < n → low_of ps i < end_of ps i
  low_end i h = Strict-lt 0 ps (2 * i) (2 * i + 1) strict (omega arith) (omega arith)

  pub end_low : (i j : ℕ) → i < j → j < n → end_of ps i < low_of ps j
  end_low i j h k = Strict-lt 0 ps (2 * i + 1) (2 * j) strict (omega arith) (omega arith)

  module _ (bounded : All (λ p. p ≤ uint32_max) ps) where
    pub code32 : (i : ℕ) → i < n → last_code32 (end_of ps i) ≡ high_of ps i
    code32 i h =
        omega (arith, low_end i h, get_or-All uint32_max ps (2 * i + 1) bounded (omega arith))

    pub high_point : 0 < n → highest ps ≡ some (point_of ps)
    unfolding highest
    high_point p =
        rw (get_elem?-get_or ps (length ps - 1) (omega arith))
          (picked (get_or ps (length ps - 1) 0 == uint32_max))
      where
        picked :
            (b : Bool)
            → (if b then get_elem? ps (length ps - 2) else some (get_or ps (length ps - 1) 0))
              ≡ some (if b then get_or ps (length ps - 2) 0 else get_or ps (length ps - 1) 0)
        picked true = get_elem?-get_or ps (length ps - 2) (omega arith)
        picked false = refl

    -- The point that decides is no more than 0xffff.
    module _ (high : ℕ) (high_is : point_of ps ≡ high) (narrow : high ≤ 0xffff) where
      pub low_narrow : (i : ℕ) → i < n → low_of ps i ≤ 0xffff
      low_narrow i h = elim (Bool-cases (get_or ps (length ps - 1) 0 == uint32_max)) [
        | inl e ↦
            let high_is' : get_or ps (length ps - 2) 0 ≡ high = rw (e) at high_is in
            omega (arith, at_most (2 * i) (length ps - 2) (omega arith) (omega arith))
        | inr e ↦
            let high_is' : get_or ps (length ps - 1) 0 ≡ high = rw (e) at high_is in
            omega (arith, at_most (2 * i) (length ps - 1) (omega arith) (omega arith))
      ]

      pub end_narrow : (i : ℕ) → i < n → (end_of ps i ≤ 0xffff) ⊎ (end_of ps i ≡ uint32_max)
      end_narrow i h = elim (Bool-cases (get_or ps (length ps - 1) 0 == uint32_max)) [
        | inr e ↦
            let high_is' : get_or ps (length ps - 1) 0 ≡ high = rw (e) at high_is in
            inl (omega (arith, at_most (2 * i + 1) (length ps - 1) (omega arith) (omega arith)))
        | inl e ↦
            let high_is' : get_or ps (length ps - 2) 0 ≡ high = rw (e) at high_is in
            elim (Bool-cases (2 * i + 1 == length ps - 1)) [
              | inl last ↦
                  let same : 2 * i + 1 ≡ length ps - 1 = ground arith in
                  inr (rw (same) (ground arith))
              | inr inner ↦
                  let apart : 2 * i + 1 ≢ length ps - 1 = ground arith in
                  inl (
                    omega (
                      arith,
                      apart,
                      at_most (2 * i + 1) (length ps - 2) (omega arith) (omega arith),
                    ))
            ]
      ]

      -- The word at the end of an interval.
      pub code16 :
          (i : ℕ)
          → i < n
          → ((end_of ps i ≤ 0xffff) × (last_code16 (end_of ps i) ≡ end_of ps i - 1))
            ⊎ ((end_of ps i ≡ uint32_max) × (last_code16 (end_of ps i) ≡ 0xffff))
      unfolding last_code16
      code16 i h = elim (end_narrow i h) [
        | inl e ↦
            let positive : 0 < end_of ps i = omega (arith, low_end i h) in
            let wrapped : u32 (end_of ps i + 2 ^ 32 - 1) ≡ end_of ps i - 1 = omega arith in
            let other : (u32 (end_of ps i + 2 ^ 32 - 1) == uint32_max - 1) ≡ false =
              ground (arith, wrapped) in
            inl (e, rw (other) wrapped)
        | inr e ↦ inr (e, rw (e) refl)
      ]

      pub intervals16 : Intervals n (low_of ps) (λ i. last_code16 (end_of ps i))
      intervals16 = record {
        proper = λ i h. elim (code16 i h) [
          | inl e ↦ omega (arith, e.1, low_end i h)
          | inr e ↦ omega (arith, e.1, low_narrow i h)
        ];
        apart = λ i j h k. elim (code16 i (omega arith)) [
          | inl e ↦ omega (arith, e.1, end_low i j h k, low_end i (omega arith))
          | inr e ↦ absurd (omega (arith, e.0, end_low i j h k, low_narrow j k))
        ];
      }

      pub narrow16 : (i : ℕ) → i < n → last_code16 (end_of ps i) ≤ 0xffff
      narrow16 i h = elim (code16 i h) [
        | inl e ↦ omega (arith, e.0, e.1)
        | inr e ↦ omega (arith, e.1)
      ]

      pub Decided16-contains :
          (c : ℕ) (o : Option Bool)
          → c < uint32_max
          → Decided16 n (low_of ps) (λ i. last_code16 (end_of ps i)) c o
          → o ≡ some (contains ps c)
      Decided16-contains c none small d = absurd d
      Decided16-contains c (some true) small d =
          let before : c < end_of ps d.0 = elim (code16 d.0 d.1) [
            | inl e ↦ elim d.3 [
              | inl k ↦ omega (arith, e.1, k, low_end d.0 d.1)
              | inr k ↦ absurd (omega (arith, e.0, e.1, k, low_end d.0 d.1))
            ]
            | inr e ↦ omega (arith, e.0)
          ] in
          rw (contains-in ps n c d.0 even d.1 d.2 before) refl
      Decided16-contains c (some false) small d =
          rw
            (contains-out ps n c even (λ i h. elim (d i h) [
              | inl l ↦ inl l
              | inr k ↦
                  inr (elim (code16 i h) [
                    | inl e ↦ omega (arith, e.1, k.0)
                    | inr e ↦ absurd (k.1 e.1)
                  ])
            ]))
            refl
