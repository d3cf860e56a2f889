-- ===== src/Regexp/Ranges/Points.antt =====
-- Canonical points, read as intervals by their index.
use quickjs_rs.Base.{
  ℕ, zero, suc, ◌+◌, ◌-◌, ◌*◌, ◌≤◌, ◌<◌, ◌≡◌, ◌⊎◌, inl, inr, refl, arith, Option, none, some, List,
  [], ◌∷◌, Bool, true, false, ltb, leb, ◌&&◌, length, get_or,
}
use quickjs_rs.CharRange.Meaning.{contains, Strict}
use quickjs_rs.Regexp.Ranges.Halving.{Decided, Intervals}

module _ (ps : List ℕ) where
  abbrev pub low_of : ℕ → ℕ
  low_of i = get_or ps (2 * i) 0

  abbrev pub end_of : ℕ → ℕ
  end_of i = get_or ps (2 * i + 1) 0

  abbrev pub high_of : ℕ → ℕ
  high_of i = end_of i - 1

Strict-ge : (lo : ℕ) (ps : List ℕ) (i : ℕ) → Strict lo ps → i < length ps → lo ≤ get_or ps i 0
Strict-ge lo [] i s h = absurd (omega arith)
Strict-ge lo (p ∷ ps) zero s h = s.0
Strict-ge lo (p ∷ ps) (suc i) s h = omega (arith, s.0, Strict-ge (p + 1) ps i s.1 (omega arith))

pub Strict-lt :
    (lo : ℕ) (ps : List ℕ) (i j : ℕ)
    → Strict lo ps
    → i < j
    → j < length ps
    → get_or ps i 0 < get_or ps j 0
Strict-lt lo [] i j s h k = absurd (omega arith)
Strict-lt lo (p ∷ ps) i zero s h k = absurd (omega arith)
Strict-lt lo (p ∷ ps) zero (suc j) s h k = omega (arith, Strict-ge (p + 1) ps j s.1 (omega arith))
Strict-lt lo (p ∷ ps) (suc i) (suc j) s h k =
    Strict-lt (p + 1) ps i j s.1 (omega arith) (omega arith)

pub points-Intervals :
    (ps : List ℕ) (n : ℕ) → Strict 0 ps → length ps ≡ 2 * n → Intervals n (low_of ps) (high_of ps)
points-Intervals ps n s e = record {
  proper = λ i h. omega (arith, Strict-lt 0 ps (2 * i) (2 * i + 1) s (omega arith) (omega arith));
  apart = λ i j h k. omega (
    arith,
    Strict-lt 0 ps (2 * i + 1) (2 * j) s (omega arith) (omega arith),
    Strict-lt 0 ps (2 * i) (2 * i + 1) s (omega arith) (omega arith),
  );
}

-- A pair of points moves the index by one.
pub shift_low : (p q : ℕ) (ps : List ℕ) (i : ℕ) → low_of (p ∷ q ∷ ps) (suc i) ≡ low_of ps i
shift_low p q ps i = let e : 2 * suc i ≡ suc (suc (2 * i)) = omega arith in rw (e) refl

pub shift_end : (p q : ℕ) (ps : List ℕ) (i : ℕ) → end_of (p ∷ q ∷ ps) (suc i) ≡ end_of ps i
shift_end p q ps i = let e : 2 * suc i + 1 ≡ suc (suc (2 * i + 1)) = omega arith in rw (e) refl

first_low : (p q : ℕ) (ps : List ℕ) → low_of (p ∷ q ∷ ps) 0 ≡ p
first_low p q ps = refl

pub contains-in :
    (ps : List ℕ) (n c i : ℕ)
    → length ps ≡ 2 * n
    → i < n
    → low_of ps i ≤ c
    → c < end_of ps i
    → contains ps c ≡ true
contains-in [] n c i e h l k = absurd (omega arith)
contains-in (p ∷ []) n c i e h l k = absurd (omega arith)
contains-in (p ∷ q ∷ ps) n c zero e h l k =
    let inside : (leb p c && ltb c q) ≡ true = ground arith in rw (inside) refl
contains-in (p ∷ q ∷ ps) zero c (suc i) e h l k = absurd (omega arith)
contains-in (p ∷ q ∷ ps) (suc n) c (suc i) e h l k =
    let rest : contains ps c ≡ true =
      contains-in ps n c i (omega arith) (omega arith) (omega (arith, shift_low p q ps i))
        (omega (arith, shift_end p q ps i)) in
    ground arith

pub contains-out :
    (ps : List ℕ) (n c : ℕ)
    → length ps ≡ 2 * n
    → ((i : ℕ) → i < n → (c < low_of ps i) ⊎ (end_of ps i ≤ c))
    → contains ps c ≡ false
contains-out [] n c e out = refl
contains-out (p ∷ []) n c e out = refl
contains-out (p ∷ q ∷ ps) zero c e out = absurd (omega arith)
contains-out (p ∷ q ∷ ps) (suc n) c e out =
    let rest : contains ps c ≡ false = contains-out ps n c (omega arith) (λ i h.
      elim (out (suc i) (omega arith)) [
        | inl l ↦ inl (omega (arith, l, shift_low p q ps i))
        | inr k ↦ inr (omega (arith, k, shift_end p q ps i))
      ]) in
    let apart : (leb p c && ltb c q) ≡ false = elim (out 0 (omega arith)) [
      | inl l ↦ let before : c < p = l in ground arith
      | inr k ↦ let after : q ≤ c = k in ground arith
    ] in
    rw (apart) rest

-- The answer of the search is whether the code is in the set.
pub Decided-contains :
    (ps : List ℕ) (n c : ℕ) (o : Option Bool)
    → Strict 0 ps
    → length ps ≡ 2 * n
    → Decided n (low_of ps) (high_of ps) c o
    → o ≡ some (contains ps c)
Decided-contains ps n c none s e d = absurd d
Decided-contains ps n c (some true) s e d =
    rw
      (contains-in ps n c d.0 e d.1 d.2 (
        omega (
          arith,
          d.3,
          d.2,
          Strict-lt 0 ps (2 * d.0) (2 * d.0 + 1) s (omega arith) (omega (arith, d.1)),
        )))
      refl
Decided-contains ps n c (some false) s e d =
    rw
      (contains-out ps n c e
        (λ i h. elim (d i h) [ inl l ↦ inl l | inr k ↦ inr (omega (arith, k)) ]))
      refl
