-- ===== src/CharRange/Meaning.antt =====
-- The set that a list of points stands for, and the order of the points.
use quickjs_rs.Base.{ℕ, suc, ◌+◌, ◌%◌, ◌≤◌, ◌<◌, ◌≡◌, refl, arith, ltb, leb}
use quickjs_rs.Base.{List, [], ◌∷◌, ◌++◌, Bool, false, not, ◌&&◌, ◌||◌, xor, length, length-append}
use quickjs_rs.CharRange.{is_odd}
use quickjs_rs.Base.{dec_lt}

-- `c` lies in one of the intervals; a point with no partner stands for none.
abbrev pub contains : List ℕ → ℕ → Bool
contains [] c = false
contains (lo ∷ []) c = false
contains (lo ∷ hi ∷ r) c = (leb lo c && ltb c hi) || contains r c

-- The number of points up to `c` is odd.
abbrev pub odd_below : List ℕ → ℕ → Bool
odd_below [] c = false
odd_below (p ∷ ps) c = xor (leb p c) (odd_below ps c)

-- Increasing, where points may be equal; all of them from `lo` on.
abbrev pub Ascending : ℕ → List ℕ → Type 0
Ascending lo [] = Unit
Ascending lo (p ∷ ps) = (lo ≤ p) × Ascending p ps

-- Increasing, no two points equal: no empty interval, and no two that touch.
abbrev pub Strict : ℕ → List ℕ → Type 0
Strict lo [] = Unit
Strict lo (p ∷ ps) = (lo ≤ p) × Strict (p + 1) ps

-- An even number of points.
abbrev pub IsEven : List ℕ → Type 0
IsEven [] = Unit
IsEven (p ∷ []) = ⊥
IsEven (p ∷ q ∷ ps) = IsEven ps

pub Ascending-weaken : (lo lo' : ℕ) (ps : List ℕ) → lo' ≤ lo → Ascending lo ps → Ascending lo' ps
Ascending-weaken lo lo' [] h s = tt
Ascending-weaken lo lo' (p ∷ ps) h s = (omega arith, s.1)

pub Strict-weaken : (lo lo' : ℕ) (ps : List ℕ) → lo' ≤ lo → Strict lo ps → Strict lo' ps
Strict-weaken lo lo' [] h s = tt
Strict-weaken lo lo' (p ∷ ps) h s = (omega arith, s.1)

pub Strict-Ascending : (lo : ℕ) (ps : List ℕ) → Strict lo ps → Ascending lo ps
Strict-Ascending lo [] s = tt
Strict-Ascending lo (p ∷ ps) s =
    (s.0, Ascending-weaken (p + 1) p ps (omega arith) (Strict-Ascending (p + 1) ps s.1))

-- Above `c` no point counts.
pub odd_below_above :
    (lo : ℕ) (ps : List ℕ) (c : ℕ) → Ascending lo ps → c < lo → odd_below ps c ≡ false
odd_below_above lo [] c s h = refl
odd_below_above lo (p ∷ ps) c s h =
    let rest = odd_below_above p ps c s.1 (omega arith) in ground arith

contains_above : (lo : ℕ) (ps : List ℕ) (c : ℕ) → Ascending lo ps → c < lo → contains ps c ≡ false
contains_above lo [] c s h = refl
contains_above lo (p ∷ []) c s h = refl
contains_above lo (p ∷ q ∷ ps) c s h =
    let rest = contains_above q ps c s.1.1 (omega arith) in ground arith

before_end :
    (p q c : ℕ) → c < q → ((leb p c && ltb c q) || false) ≡ xor (leb p c) (xor (leb q c) false)
before_end p q c h = ground arith

past_end :
    (p q c : ℕ) (rest : Bool)
    → p ≤ q
    → q ≤ c
    → ((leb p c && ltb c q) || rest) ≡ xor (leb p c) (xor (leb q c) rest)
past_end p q c rest h k = ground arith

-- On sorted points, an odd number below means an interval around.
pub contains-eq-odd_below :
    (lo : ℕ) (ps : List ℕ) (c : ℕ) → Ascending lo ps → IsEven ps → contains ps c ≡ odd_below ps c
contains-eq-odd_below lo [] c s e = refl
contains-eq-odd_below lo (p ∷ []) c s e = elim e [ ]
contains-eq-odd_below lo (p ∷ q ∷ ps) c s e = elim (dec_lt c q) [
  | yes h ↦ rw (contains_above q ps c s.1.1 h, odd_below_above q ps c s.1.1 h) (before_end p q c h)
  | no h ↦
      rw (contains-eq-odd_below q ps c s.1.1 e)
        (past_end p q c (odd_below ps c) s.1.0 (omega arith))
]

pub odd_below-append :
    (ps qs : List ℕ) (c : ℕ) → odd_below (ps ++ qs) c ≡ xor (odd_below ps c) (odd_below qs c)
odd_below-append [] qs c = ground arith
odd_below-append (p ∷ ps) qs c = ground (arith, odd_below-append ps qs c)

pub is_odd-nil : is_odd [] ≡ false
unfolding is_odd
is_odd-nil = refl

-- One more point changes the parity.
pub is_odd-snoc : (ps : List ℕ) (p : ℕ) → is_odd (ps ++ (p ∷ [])) ≡ not (is_odd ps)
unfolding is_odd
is_odd-snoc ps p = ground (arith, length-append ps (p ∷ []))

pub two_more : (n : ℕ) → suc (suc n) % 2 ≡ n % 2
two_more n = omega arith

pub IsEven-of_parity : (ps : List ℕ) → is_odd ps ≡ false → IsEven ps
unfolding is_odd
IsEven-of_parity [] h = tt
IsEven-of_parity (p ∷ []) h = absurd (let no : ⊥ = cc in no)
IsEven-of_parity (p ∷ q ∷ ps) h = IsEven-of_parity ps (rw (two_more (length ps)) at h)

pub is_odd_of_IsEven : (ps : List ℕ) → IsEven ps → is_odd ps ≡ false
unfolding is_odd
is_odd_of_IsEven [] e = refl
is_odd_of_IsEven (p ∷ []) e = elim e [ ]
is_odd_of_IsEven (p ∷ q ∷ ps) e = rw (two_more (length ps)) (is_odd_of_IsEven ps e)

pub is_odd-cons : (p : ℕ) (ps : List ℕ) → is_odd (p ∷ ps) ≡ not (is_odd ps)
unfolding is_odd
is_odd-cons p ps = ground arith
