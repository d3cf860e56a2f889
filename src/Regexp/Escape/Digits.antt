-- ===== src/Regexp/Escape/Digits.antt =====
-- The number that `parse_digits` reads.
use quickjs_rs.Base.{
  ℕ, ◌+◌, ◌-◌, ◌*◌, ◌^◌, ◌≤◌, ◌<◌, ◌≡◌, refl, arith, min, leb, none, some, List, [], ◌∷◌, Bool,
  true, false, ◌&&◌, not, if◌then◌else◌, inl, inr, Bool-cases, ◌∙◌,
}
use quickjs_rs.Regexp.Escape.{is_digit, digits_loop, parse_digits}
use quickjs_rs.Regexp.Escape.Reads.{Terminated, Terminated-tail}

-- INT32_MAX
abbrev pub limit : ℕ
limit = 2 ^ 31 - 1

-- The decimal number in front of the text, from `v` on, and the text behind it.
unfoldable pub number : List ℕ → ℕ → ℕ
number [] v = v
number (c ∷ p) v = elim (is_digit c) [ true ↦ number p (v * 10 + (c - b'0')) | false ↦ v ]

unfoldable pub behind : List ℕ → List ℕ
behind [] = []
behind (c ∷ p) = elim (is_digit c) [ true ↦ behind p | false ↦ c ∷ p ]

digit_range : (c : ℕ) → is_digit c ≡ true → (b'0' ≤ c) × (c ≤ b'9')
unfolding is_digit
digit_range c e = ground arith

number-le : (p : List ℕ) (v : ℕ) → v ≤ number p v
unfolding number
number-le [] v = omega arith
number-le (c ∷ p) v = elim (Bool-cases (is_digit c)) [
  | inl e ↦ rw (e, number) (omega (arith, number-le p (v * 10 + (c - b'0'))))
  | inr e ↦ rw (e, number) (omega arith)
]

-- With overflow allowed, the value so far is that of the digits, capped.
capped :
    (p : List ℕ) (v w : ℕ)
    → v ≡ min w limit
    → Terminated p
    → digits_loop true p v ≡ some (some (min (number p w) limit, behind p))
unfolding digits_loop number behind
capped [] v w e t = absurd t
capped (c ∷ p) v w e t = elim (Bool-cases (is_digit c)) [
  | inr stop ↦ rw (stop, digits_loop, number, behind, e) refl
  | inl go ↦
      let r : (b'0' ≤ c) × (c ≤ b'9') = digit_range c go in
      let tail : Terminated p = Terminated-tail c p t (omega (arith, r.0)) in
      elim (Bool-cases (leb (2 ^ 31 - 1) (v * 10 + c - b'0'))) [
        | inl large ↦
            rw (go, digits_loop, number, behind, large)
              (capped p (2 ^ 31 - 1) (w * 10 + (c - b'0')) (ground (arith, r.0, r.1)) tail)
        | inr small ↦
            rw (go, digits_loop, number, behind, small)
              (capped p (v * 10 + c - b'0') (w * 10 + (c - b'0')) (ground (arith, r.0, r.1)) tail)
      ]
]

-- Without, the loop ends at the first value that is too large.
exact :
    (p : List ℕ) (v : ℕ)
    → v < limit
    → Terminated p
    → digits_loop false p v
      ≡ some (if leb limit (number p v) then none else some (number p v, behind p))
unfolding digits_loop number behind
exact [] v h t = absurd t
exact (c ∷ p) v h t = elim (Bool-cases (is_digit c)) [
  | inr stop ↦ rw (stop, digits_loop, number, behind) (ground arith)
  | inl go ↦
      let r : (b'0' ≤ c) × (c ≤ b'9') = digit_range c go in
      let tail : Terminated p = Terminated-tail c p t (omega (arith, r.0)) in
      elim (Bool-cases (leb (2 ^ 31 - 1) (v * 10 + c - b'0'))) [
        | inl large ↦
            let above : leb limit (number p (v * 10 + (c - b'0'))) ≡ true =
              ground (arith, number-le p (v * 10 + (c - b'0')), r.0) in
            rw (go, digits_loop, number, behind, large, above) refl
        | inr small ↦
            let same : v * 10 + c - b'0' ≡ v * 10 + (c - b'0') = omega (arith, r.0) in
            rw (go, digits_loop, number, behind, small, same)
              (exact p (v * 10 + (c - b'0')) (ground (arith, r.0, r.1)) tail)
      ]
]

-- On a text with a NUL, `parse_digits` reads the decimal number in front and stops behind its last
-- digit. A number from INT32_MAX on gives INT32_MAX where overflow is allowed, and -1 where not.
pub parse_digits_value :
    (p : List ℕ) (allow_overflow : Bool)
    → Terminated p
    → parse_digits p allow_overflow
      ≡ some (
          if leb limit (number p 0) && not allow_overflow
          then none
          else some (min (number p 0) limit, behind p))
unfolding parse_digits
parse_digits_value p true t = capped p 0 0 (omega arith) t ∙ ground arith
parse_digits_value p false t = exact p 0 (omega arith) t ∙ ground arith
