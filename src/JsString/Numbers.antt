-- ===== src/JsString/Numbers.antt =====
-- `is_num_string` reads the decimal numerals of the numbers below 2 ^ 32, and no other strings.
use quickjs_rs.Base.{
  ℕ, zero, suc, ◌+◌, ◌-◌, ◌*◌, ◌^◌, ◌≤◌, ◌<◌, ◌≡◌, ◌≢◌, ◌↔◌, refl, ap, ◌∙◌, ◌⊎◌, inl, inr, ◌==◌,
  ltb, ◌||◌, ◌>>>◌, if◌then◌else◌, Option, none, some, List, [], ◌∷◌, length, Bool, true,
  Bool-cases, arith, All,
}
use quickjs_rs.JsString.{JsString, is_num, num_loop, is_num_string}

abbrev pub IsDigit : ℕ → Type 0
IsDigit c = (48 ≤ c) × (c ≤ 57)

-- The value of digits behind a number.
abbrev pub value_from : ℕ → List ℕ → ℕ
value_from n [] = n
value_from n (c ∷ cs) = value_from (n * 10 + (c - 48)) cs

-- The decimal numeral of a number: digits, with no 0 in front unless it is alone.
abbrev pub IsNumeral : List ℕ → ℕ → Type 0
IsNumeral [] n = ⊥
IsNumeral (c ∷ cs) n =
    IsDigit c × All IsDigit cs × (value_from (c - 48) cs ≡ n) × ((c ≢ 48) ⊎ (cs ≡ []))

value_ge : (n : ℕ) (cs : List ℕ) → n ≤ value_from n cs
value_ge n [] = omega arith
value_ge n (c ∷ cs) = omega (arith, value_ge (n * 10 + (c - 48)) cs)

abbrev scaled : ℕ → ℕ → ℕ
scaled n zero = n
scaled n (suc k) = scaled (n * 10) k

scaled_mono : (n m k : ℕ) → n ≤ m → scaled n k ≤ scaled m k
scaled_mono n m zero h = h
scaled_mono n m (suc k) h = scaled_mono (n * 10) (m * 10) k (omega arith)

scaled_more : (n j k : ℕ) → j ≤ k → scaled n j ≤ scaled n k
scaled_more n zero zero h = omega arith
scaled_more n zero (suc k) h = omega (arith, scaled_more (n * 10) zero k (omega arith))
scaled_more n (suc j) zero h = absurd (omega arith)
scaled_more n (suc j) (suc k) h = scaled_more (n * 10) j k (omega arith)

value_scaled : (n : ℕ) (cs : List ℕ) → scaled n (length cs) ≤ value_from n cs
value_scaled n [] = omega arith
value_scaled n (c ∷ cs) = omega (
  arith,
  value_scaled (n * 10 + (c - 48)) cs,
  scaled_mono (n * 10) (n * 10 + (c - 48)) (length cs) (omega arith),
)

-- More than ten digits are too much.
value_long : (n : ℕ) (cs : List ℕ) → 0 < n → 10 ≤ length cs → 2 ^ 32 ≤ value_from n cs
value_long n cs h k =
    omega (arith, value_scaled n cs, scaled_more n 10 (length cs) k, scaled_mono 1 n 10 h)

is_num_iff : (c : ℕ) → (is_num c ≡ true) ↔ IsDigit c
unfolding is_num
is_num_iff c = ground arith

num_loop_to :
    (cs : List ℕ) (n v : ℕ)
    → n < 2 ^ 32
    → num_loop cs n ≡ some v
    → All IsDigit cs × (value_from n cs ≡ v) × (v < 2 ^ 32)
unfolding num_loop
num_loop_to [] n v h e = let same : n ≡ v = cc in (tt, same, omega arith)
num_loop_to (c ∷ cs) n v h e = elim (Bool-cases (is_num c)) [
  | inr d ↦ absurd (let stuck : none ≡ some v = rw (d, num_loop) at e in cc)
  | inl d ↦ elim (Bool-cases ((n * 10 + (c - 48)) >>> 32 == 0)) [
    | inr o ↦ absurd (let stuck : none ≡ some v = rw (d, num_loop, o) at e in cc)
    | inl o ↦
        let next : num_loop cs (n * 10 + (c - 48)) ≡ some v = rw (d, num_loop, o) at e in
        let rest = num_loop_to cs (n * 10 + (c - 48)) v (ground arith) next in
        (((is_num_iff c).0 d, rest.0), rest.1, rest.2)
  ]
]

num_loop_from :
    (cs : List ℕ) (n : ℕ)
    → All IsDigit cs
    → value_from n cs < 2 ^ 32
    → num_loop cs n ≡ some (value_from n cs)
unfolding num_loop
num_loop_from [] n a h = refl
num_loop_from (c ∷ cs) n a h =
    let small : ((n * 10 + (c - 48)) >>> 32 == 0) ≡ true =
      (let bound = value_ge (n * 10 + (c - 48)) cs in ground arith) in
    rw ((is_num_iff c).1 a.0, num_loop, small) (num_loop_from cs (n * 10 + (c - 48)) a.1 h)

-- The first digit, of no more than ten.
first_digit : ℕ → List ℕ → Option ℕ
first_digit c cs =
    if is_num c
    then (if c == 48 then (if length (c ∷ cs) == 1 then some 0 else none) else num_loop cs (c - 48))
    else none

first_to :
    (c : ℕ) (cs : List ℕ) (v : ℕ) → first_digit c cs ≡ some v → IsNumeral (c ∷ cs) v × (v < 2 ^ 32)
unfolding first_digit
first_to c cs v e = elim (Bool-cases (is_num c)) [
  | inr d ↦ absurd (let stuck : none ≡ some v = rw (d, first_digit) at e in cc)
  | inl d ↦ elim (Bool-cases (c == 48)) [
    | inr z ↦
        let next : num_loop cs (c - 48) ≡ some v = rw (d, first_digit, z) at e in
        let digit = (is_num_iff c).0 d in
        let rest = num_loop_to cs (c - 48) v (omega arith) next in
        ((digit, rest.0, rest.1, inl (ground arith)), rest.2)
    | inl z ↦ elim (Bool-cases (length (c ∷ cs) == 1)) [
      | inr l ↦ absurd (let stuck : none ≡ some v = rw (d, first_digit, z, l) at e in cc)
      | inl l ↦
          let next : some 0 ≡ some v = rw (d, first_digit, z, l) at e in
          alone c cs v ((is_num_iff c).0 d) (ground arith) (ground arith)
            (let same : 0 ≡ v = cc in same)
    ]
  ]
]
  where
    alone :
        (c : ℕ) (cs : List ℕ) (v : ℕ)
        → IsDigit c
        → c ≡ 48
        → length cs ≡ 0
        → 0 ≡ v
        → IsNumeral (c ∷ cs) v × (v < 2 ^ 32)
    alone c [] v d z l e = ((d, tt, omega arith, inr refl), omega arith)
    alone c (x ∷ cs) v d z l e = absurd (omega arith)

first_from :
    (c : ℕ) (cs : List ℕ) (v : ℕ) → IsNumeral (c ∷ cs) v → v < 2 ^ 32 → first_digit c cs ≡ some v
unfolding first_digit
first_from c cs v n small = elim (Bool-cases (c == 48)) [
  | inr z ↦
      rw ((is_num_iff c).1 n.0, first_digit, z)
        (num_loop_from cs (c - 48) n.1 (omega (arith, n.2)) ∙ ap some n.2)
  | inl z ↦ zero_alone c cs v n z
]
  where
    zero_alone :
        (c : ℕ) (cs : List ℕ) (v : ℕ)
        → IsNumeral (c ∷ cs) v
        → (c == 48) ≡ true
        → first_digit c cs ≡ some v
    zero_alone c [] v n z =
        let nothing : 0 ≡ v = ground (arith, n.2) in
        rw ((is_num_iff c).1 n.0, first_digit, z) (ap some nothing)
    zero_alone c (x ∷ cs) v n z = elim n.3 [
      | inl other ↦ absurd (other (ground arith))
      | inr e ↦ absurd (let impossible : ⊥ = cc (e) in impossible)
    ]

too_long : (c : ℕ) (cs : List ℕ) (v : ℕ) → 10 < length (c ∷ cs) → IsNumeral (c ∷ cs) v → 2 ^ 32 ≤ v
too_long c cs v h n = elim n.3 [
  | inl other ↦ omega (arith, n.2, value_long (c - 48) cs (omega (arith, other, n.0)) (omega arith))
  | inr e ↦ absurd (omega (arith, ap length e))
]

read_to :
    (w : Bool) (units : List ℕ) (v : ℕ)
    → is_num_string (record { is_wide_char = w; units = units }) ≡ some v
    → IsNumeral units v × (v < 2 ^ 32)
unfolding is_num_string
read_to w [] v e = absurd (let stuck : none ≡ some v = e in cc)
read_to w (c ∷ cs) v e = elim (Bool-cases (length (c ∷ cs) == 0 || ltb 10 (length (c ∷ cs)))) [
  | inl l ↦ absurd (let stuck : none ≡ some v = rw (l) at e in cc)
  | inr l ↦ first_to c cs v (unfold first_digit in rw (l) at e)
]

read_from :
    (w : Bool) (units : List ℕ) (v : ℕ)
    → IsNumeral units v
    → v < 2 ^ 32
    → is_num_string (record { is_wide_char = w; units = units }) ≡ some v
unfolding is_num_string
read_from w [] v n small = absurd n
read_from w (c ∷ cs) v n small =
    elim (Bool-cases (length (c ∷ cs) == 0 || ltb 10 (length (c ∷ cs)))) [
      | inl l ↦ absurd (omega (arith, too_long c cs v (ground arith) n))
      | inr l ↦ rw (l) (unfold first_digit in first_from c cs v n small)
    ]

-- `is_num_string` returns TRUE with a number exactly on the decimal numeral of a number below
-- 2 ^ 32: not on an empty string, a 0 in front of other digits, or a larger number.
pub is_num_string_iff :
    (p : JsString) (v : ℕ) → (is_num_string p ≡ some v) ↔ (IsNumeral p.units v × (v < 2 ^ 32))
unfolding is_num_string
is_num_string_iff p v =
    (read_to p.is_wide_char p.units v, λ h. read_from p.is_wide_char p.units v h.0 h.1)
