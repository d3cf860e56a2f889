-- ===== src/CharRange/Squeeze.antt =====
-- What `cr_compress` is to compute, as a function of the list of points: empty intervals go, and
-- intervals that touch are joined.
use quickjs_rs.Base.{All}
use quickjs_rs.Base.{ℕ, ◌+◌, ◌≤◌, ◌<◌, ◌≡◌, refl, arith, leb, ◌==◌}
use quickjs_rs.Base.{
  List, [], ◌∷◌, Bool, true, false, xor, length, if◌then◌else◌, ◌∙◌, ap, if_cases, Bool-cases, inl,
  inr,
}
use quickjs_rs.CharRange.Meaning.{odd_below, Ascending, Strict, Strict-weaken, IsEven}

mutual
  -- Nothing is kept back.
  pub squeeze : List ℕ → List ℕ
  squeeze [] = []
  squeeze (x ∷ []) = []
  squeeze (x ∷ y ∷ r) = if x == y then squeeze r else extend x y r

  -- The interval from `lo` to `hi` is kept back, since the next may touch it.
  pub extend : ℕ → ℕ → List ℕ → List ℕ
  extend lo hi [] = lo ∷ hi ∷ []
  extend lo hi (x ∷ []) = lo ∷ hi ∷ []
  extend lo hi (x ∷ y ∷ r) =
      if hi == x then extend lo y r else lo ∷ hi ∷ (if x == y then squeeze r else extend x y r)

equal_pair : (x y c : ℕ) (rest : Bool) → (x == y) ≡ true → rest ≡ xor (leb x c) (xor (leb y c) rest)
equal_pair x y c rest e = ground arith

touching :
    (hi x c : ℕ) (rest : Bool) → (hi == x) ≡ true → rest ≡ xor (leb hi c) (xor (leb x c) rest)
touching hi x c rest e = equal_pair hi x c rest e

-- Joining and dropping keep the parity at every code.
mutual
  unfolding squeeze extend

  squeeze_parity : (l : List ℕ) (c : ℕ) → IsEven l → odd_below (squeeze l) c ≡ odd_below l c
  squeeze_parity [] c e = refl
  squeeze_parity (x ∷ []) c e = elim e [ ]
  squeeze_parity (x ∷ y ∷ r) c e = elim (Bool-cases (x == y)) [
    | inl same ↦ rw same (squeeze_parity r c e ∙ equal_pair x y c (odd_below r c) same)
    | inr differ ↦ rw differ (extend_parity x y r c e)
  ]

  extend_parity :
      (lo hi : ℕ) (l : List ℕ) (c : ℕ)
      → IsEven l
      → odd_below (extend lo hi l) c ≡ xor (leb lo c) (xor (leb hi c) (odd_below l c))
  extend_parity lo hi [] c e = refl
  extend_parity lo hi (x ∷ []) c e = elim e [ ]
  extend_parity lo hi (x ∷ y ∷ r) c e = elim (Bool-cases (hi == x)) [
    | inl touch ↦ rw touch (
        extend_parity lo y r c e
        ∙ ap (xor (leb lo c)) (touching hi x c (xor (leb y c) (odd_below r c)) touch))
    | inr apart ↦ rw apart (
        ap (λ b. xor (leb lo c) (xor (leb hi c) b))
          (elim (Bool-cases (x == y)) [
            | inl same ↦ rw same (squeeze_parity r c e ∙ equal_pair x y c (odd_below r c) same)
            | inr differ ↦ rw differ (extend_parity x y r c e)
          ]))
  ]

-- The points that come out increase, so no interval is empty and no two touch.
mutual
  unfolding squeeze extend

  squeeze-Strict : (lo : ℕ) (l : List ℕ) → Ascending lo l → Strict lo (squeeze l)
  squeeze-Strict lo [] s = tt
  squeeze-Strict lo (x ∷ []) s = tt
  squeeze-Strict lo (x ∷ y ∷ r) s =
      if_cases (Strict lo) (x == y)
        (λ same. Strict-weaken y lo (squeeze r) (omega arith) (squeeze-Strict y r s.1.1))
        (λ differ. Strict-weaken x lo (extend x y r) s.0 (extend-Strict x y r (ground arith) s.1.1))

  extend-Strict : (lo hi : ℕ) (l : List ℕ) → lo < hi → Ascending hi l → Strict lo (extend lo hi l)
  extend-Strict lo hi [] h s = omega arith
  extend-Strict lo hi (x ∷ []) h s = omega arith
  extend-Strict lo hi (x ∷ y ∷ r) h s =
      if_cases (Strict lo) (hi == x) (λ touch. extend-Strict lo y r (omega arith) s.1.1)
        (λ apart. (
          omega arith,
          (
            omega arith,
            if_cases (Strict (hi + 1)) (x == y)
                (λ same.
                  Strict-weaken y (hi + 1) (squeeze r) (ground arith) (squeeze-Strict y r s.1.1))
                (λ differ.
                  Strict-weaken x (hi + 1) (extend x y r) (ground arith)
                    (extend-Strict x y r (ground arith) s.1.1)),
          ),
        ))

mutual
  unfolding squeeze extend

  squeeze-IsEven : (l : List ℕ) → IsEven (squeeze l)
  squeeze-IsEven [] = tt
  squeeze-IsEven (x ∷ []) = tt
  squeeze-IsEven (x ∷ y ∷ r) =
      if_cases IsEven (x == y) (λ same. squeeze-IsEven r) (λ differ. extend-IsEven x y r)

  extend-IsEven : (lo hi : ℕ) (l : List ℕ) → IsEven (extend lo hi l)
  extend-IsEven lo hi [] = tt
  extend-IsEven lo hi (x ∷ []) = tt
  extend-IsEven lo hi (x ∷ y ∷ r) =
      if_cases IsEven (hi == x) (λ touch. extend-IsEven lo y r)
        (λ apart.
          if_cases IsEven (x == y) (λ same. squeeze-IsEven r) (λ differ. extend-IsEven x y r))

pub odd_below-squeeze : (l : List ℕ) (c : ℕ) → IsEven l → odd_below (squeeze l) c ≡ odd_below l c
odd_below-squeeze = squeeze_parity

pub Strict-squeeze : (lo : ℕ) (l : List ℕ) → Ascending lo l → Strict lo (squeeze l)
Strict-squeeze = squeeze-Strict

pub IsEven-squeeze : (l : List ℕ) → IsEven (squeeze l)
IsEven-squeeze = squeeze-IsEven

-- An interval that the next does not touch is let go.
pub extend_stop :
    (lo hi : ℕ) (l : List ℕ)
    → ((x y : ℕ) (r : List ℕ) → l ≡ x ∷ y ∷ r → (hi == x) ≡ false)
    → extend lo hi l ≡ lo ∷ hi ∷ squeeze l
unfolding extend squeeze
extend_stop lo hi [] apart = refl
extend_stop lo hi (x ∷ []) apart = refl
extend_stop lo hi (x ∷ y ∷ r) apart = rw (apart x y r refl)

pub extend_join :
    (lo hi x y : ℕ) (r : List ℕ) → (hi == x) ≡ true → extend lo hi (x ∷ y ∷ r) ≡ extend lo y r
unfolding extend
extend_join lo hi x y r e = rw e

pub squeeze_skip : (x y : ℕ) (r : List ℕ) → (x == y) ≡ true → squeeze (x ∷ y ∷ r) ≡ squeeze r
unfolding squeeze
squeeze_skip x y r e = rw e

pub squeeze_start : (x y : ℕ) (r : List ℕ) → (x == y) ≡ false → squeeze (x ∷ y ∷ r) ≡ extend x y r
unfolding squeeze
squeeze_start x y r e = rw e

pub squeeze_short : (l : List ℕ) → length l ≤ 1 → squeeze l ≡ []
unfolding squeeze
squeeze_short [] h = refl
squeeze_short (x ∷ []) h = refl
squeeze_short (x ∷ y ∷ r) h = absurd (omega arith)

-- No point is new.
mutual
  unfolding squeeze extend

  All-squeeze : (P : ℕ → Type 0) (l : List ℕ) → All P l → All P (squeeze l)
  All-squeeze P [] f = tt
  All-squeeze P (x ∷ []) f = tt
  All-squeeze P (x ∷ y ∷ r) f =
      if_cases (All P) (x == y) (λ same. All-squeeze P r f.1.1)
        (λ differ. All-extend P x y r f.0 f.1.0 f.1.1)

  All-extend :
      (P : ℕ → Type 0) (lo hi : ℕ) (l : List ℕ) → P lo → P hi → All P l → All P (extend lo hi l)
  All-extend P lo hi [] a b f = (a, (b, tt))
  All-extend P lo hi (x ∷ []) a b f = (a, (b, tt))
  All-extend P lo hi (x ∷ y ∷ r) a b f =
      if_cases (All P) (hi == x) (λ touch. All-extend P lo y r a f.1.0 f.1.1)
        (λ apart. (
          a,
          (
            b,
            if_cases (All P) (x == y) (λ same. All-squeeze P r f.1.1)
                (λ differ. All-extend P x y r f.0 f.1.0 f.1.1),
          ),
        ))

pub squeeze-All : (P : ℕ → Type 0) (l : List ℕ) → All P l → All P (squeeze l)
squeeze-All = All-squeeze
