-- ===== src/JsString/Order.antt =====
-- The comparison of strings is the order of the lists of their units.
use mathlib.Core.Path.{subst}
use quickjs_rs.Base.{
  ℕ, zero, suc, ◌-◌, ◌≤◌, ◌<◌, ◌≡◌, refl, sym, ap₂, ◌⊎◌, inl, inr, ◌==◌, ltb, min, if◌then◌else◌,
  Option, none, some, List, [], ◌∷◌, length, Bool, true, false, arith, if_cases, ltb→lt,
}
use quickjs_rs.Base.Partial.{◌>>=◌}
use quickjs_rs.Base.Int.{ℤ, pos, negsuc, sub_ℕ}
use quickjs_rs.JsString.{
  JsString, is_zero, neg, memcmp16, memcmp16_8, js_string_memcmp, js_string_compare,
}

abbrev pub IsNegative : ℤ → Type 0
IsNegative (pos n) = ⊥
IsNegative (negsuc n) = Unit

abbrev pub IsPositive : ℤ → Type 0
IsPositive (pos n) = 0 < n
IsPositive (negsuc n) = ⊥

-- The order of a dictionary.
abbrev pub Before : List ℕ → List ℕ → Type 0
Before [] [] = ⊥
Before [] (y ∷ ys) = Unit
Before (x ∷ xs) [] = ⊥
Before (x ∷ xs) (y ∷ ys) = (x < y) ⊎ ((x ≡ y) × Before xs ys)

-- The first units are the same.
abbrev Agree : ℕ → List ℕ → List ℕ → Type 0
Agree zero xs ys = Unit
Agree (suc n) [] ys = ⊥
Agree (suc n) (x ∷ xs) [] = ⊥
Agree (suc n) (x ∷ xs) (y ∷ ys) = (x ≡ y) × Agree n xs ys

Agree-sym : (n : ℕ) (xs ys : List ℕ) → Agree n xs ys → Agree n ys xs
Agree-sym zero xs ys a = tt
Agree-sym (suc n) [] ys a = absurd a
Agree-sym (suc n) (x ∷ xs) [] a = absurd a
Agree-sym (suc n) (x ∷ xs) (y ∷ ys) a = (sym a.0, Agree-sym n xs ys a.1)

Agree-Before :
    (n : ℕ) (xs ys : List ℕ) → Agree n xs ys → length xs ≡ n → n < length ys → Before xs ys
Agree-Before zero [] [] a e h = absurd (omega arith)
Agree-Before zero [] (y ∷ ys) a e h = tt
Agree-Before zero (x ∷ xs) ys a e h = absurd (omega arith)
Agree-Before (suc n) [] ys a e h = absurd a
Agree-Before (suc n) (x ∷ xs) [] a e h = absurd a
Agree-Before (suc n) (x ∷ xs) (y ∷ ys) a e h =
    inr (a.0, Agree-Before n xs ys a.1 (omega arith) (omega arith))

Agree-eq : (n : ℕ) (xs ys : List ℕ) → Agree n xs ys → length xs ≡ n → length ys ≡ n → xs ≡ ys
Agree-eq zero [] [] a e h = refl
Agree-eq zero [] (y ∷ ys) a e h = absurd (omega arith)
Agree-eq zero (x ∷ xs) ys a e h = absurd (omega arith)
Agree-eq (suc n) [] ys a e h = absurd a
Agree-eq (suc n) (x ∷ xs) [] a e h = absurd a
Agree-eq (suc n) (x ∷ xs) (y ∷ ys) a e h =
    ap₂ (λ z l. z ∷ l) a.0 (Agree-eq n xs ys a.1 (omega arith) (omega arith))

-- What the sign of a result says of two lists, where `E` says that no unit was different.
abbrev pub Signed : Type 0 → List ℕ → List ℕ → ℤ → Type 0
Signed E xs ys z = (IsNegative z × Before xs ys) ⊎ ((z ≡ pos 0) × E) ⊎ (IsPositive z × Before ys xs)

abbrev pub Compared : List ℕ → List ℕ → ℤ → Type 0
Compared xs ys z = Signed (xs ≡ ys) xs ys z

flip_sign :
    (E F : Type 0) (xs ys : List ℕ) (z : ℤ) → (E → F) → Signed E ys xs z → Signed F xs ys (neg z)
unfolding neg
flip_sign E F xs ys (pos zero) f (inl c) = absurd c.0
flip_sign E F xs ys (pos zero) f (inr (inl c)) = inr (inl (refl, f c.1))
flip_sign E F xs ys (pos zero) f (inr (inr c)) = absurd (omega (arith, c.0))
flip_sign E F xs ys (pos (suc n)) f (inl c) = absurd c.0
flip_sign E F xs ys (pos (suc n)) f (inr (inl c)) = absurd (let no_sign : ⊥ = cc (c.0) in no_sign)
flip_sign E F xs ys (pos (suc n)) f (inr (inr c)) = inl (tt, c.1)
flip_sign E F xs ys (negsuc n) f (inl c) = inr (inr (omega arith, c.1))
flip_sign E F xs ys (negsuc n) f (inr (inl c)) = absurd (let no_sign : ⊥ = cc (c.0) in no_sign)
flip_sign E F xs ys (negsuc n) f (inr (inr c)) = absurd c.0

-- The result is there, with a property.
abbrev pub Yields : (ℤ → Type 0) → Option ℤ → Type 0
Yields P none = ⊥
Yields P (some z) = P z

sub_less : (a b : ℕ) → a < b → sub_ℕ a b ≡ negsuc (b - a - 1)
sub_less a b h = ground arith

sub_same : (a b : ℕ) → a ≡ b → sub_ℕ a b ≡ pos 0
sub_same a b h = ground arith

sub_more : (a b : ℕ) → b < a → (d : ℕ) × (sub_ℕ a b ≡ pos (suc d))
sub_more a b h = (a - b - 1, ground arith)

-- A first pair of units decides, or leaves it to the rest.
unit_step :
    (a b : ℕ) (xs ys : List ℕ) (n : ℕ) (rest : Option ℤ)
    → Yields (Signed (Agree n xs ys) xs ys) rest
    → Yields
        (Signed (Agree (suc n) (a ∷ xs) (b ∷ ys)) (a ∷ xs) (b ∷ ys))
        (elim (is_zero (sub_ℕ a b)) [ false ↦ some (sub_ℕ a b) | true ↦ rest ])
unfolding is_zero
unit_step a b xs ys n rest r = elim (three_ways a b) [
  | inl less ↦ at_sign (sub_less a b less) (inl (tt, inl less))
  | inr (inl same) ↦ at_sign (sub_same a b same) (lifted rest r same)
  | inr (inr more) ↦
      let (d, e) = sub_more a b more in
      let other : (suc d == 0) ≡ false = ground arith in
      at_sign e (rw (other) (inr (inr (omega arith, inl more))))
]
  where
    After : ℤ → Type 0
    After z =
        Yields (Signed (Agree (suc n) (a ∷ xs) (b ∷ ys)) (a ∷ xs) (b ∷ ys))
          (elim (is_zero z) [ false ↦ some z | true ↦ rest ])

    at_sign : {z : ℤ} → sub_ℕ a b ≡ z → After z → After (sub_ℕ a b)
    at_sign e t = subst After (sym e) t

    three_ways : (a b : ℕ) → (a < b) ⊎ (a ≡ b) ⊎ (b < a)
    three_ways a b = ground arith

    lifted :
        (rest : Option ℤ)
        → Yields (Signed (Agree n xs ys) xs ys) rest
        → a ≡ b
        → Yields (Signed (Agree (suc n) (a ∷ xs) (b ∷ ys)) (a ∷ xs) (b ∷ ys)) rest
    lifted none r same = r
    lifted (some z) (inl c) same = inl (c.0, inr (same, c.1))
    lifted (some z) (inr (inl c)) same = inr (inl (c.0, (same, c.1)))
    lifted (some z) (inr (inr c)) same = inr (inr (c.0, inr (sym same, c.1)))

memcmp16-Signed :
    (xs ys : List ℕ) (n : ℕ)
    → n ≤ length xs
    → n ≤ length ys
    → Yields (Signed (Agree n xs ys) xs ys) (memcmp16 xs ys n)
unfolding memcmp16
memcmp16-Signed xs ys zero h k = inr (inl (refl, tt))
memcmp16-Signed [] ys (suc n) h k = absurd (omega arith)
memcmp16-Signed (x ∷ xs) [] (suc n) h k = absurd (omega arith)
memcmp16-Signed (x ∷ xs) (y ∷ ys) (suc n) h k =
    unit_step x y xs ys n (memcmp16 xs ys n) (memcmp16-Signed xs ys n (omega arith) (omega arith))

memcmp-Signed :
    (p q : JsString) (n : ℕ)
    → n ≤ length p.units
    → n ≤ length q.units
    → Yields (Signed (Agree n p.units q.units) p.units q.units) (js_string_memcmp p q n)
unfolding js_string_memcmp memcmp16_8
memcmp-Signed p q n h k = widths p.is_wide_char q.is_wide_char
  where
    swapped :
        (o : Option ℤ)
        → Yields (Signed (Agree n q.units p.units) q.units p.units) o
        → Yields (Signed (Agree n p.units q.units) p.units q.units) (o >>= λ res. some (neg res))
    swapped none s = s
    swapped (some z) s =
        flip_sign (Agree n q.units p.units) (Agree n p.units q.units) p.units q.units z
          (Agree-sym n q.units p.units) s

    widths :
        (w1 w2 : Bool)
        → Yields (Signed (Agree n p.units q.units) p.units q.units) (
            if w1
            then (if w2 then memcmp16 p.units q.units n else memcmp16 p.units q.units n)
            else if w2
            then (memcmp16 q.units p.units n >>= λ res. some (neg res))
            else memcmp16 p.units q.units n)
    widths true true = memcmp16-Signed p.units q.units n h k
    widths true false = memcmp16-Signed p.units q.units n h k
    widths false true = swapped (memcmp16 q.units p.units n) (memcmp16-Signed q.units p.units n k h)
    widths false false = memcmp16-Signed p.units q.units n h k

-- Whatever the widths, `js_string_compare` reads no unit out of a string, and its result is negative
-- where the units of the first string come before those of the second in the order of a dictionary,
-- 0 where they are the same, and positive where they come behind.
pub js_string_compare-Compared :
    (p q : JsString) → Yields (Compared p.units q.units) (js_string_compare p q)
unfolding js_string_compare is_zero
js_string_compare-Compared p q =
    finished (js_string_memcmp p q n) (memcmp-Signed p q n (omega arith) (omega arith))
  where
    n : ℕ
    n = min (length p.units) (length q.units)

    by_length :
        Agree n p.units q.units
        → Compared p.units q.units (
            if length p.units == length q.units
            then pos 0
            else if ltb (length p.units) (length q.units)
            then negsuc 0
            else pos 1)
    by_length a =
        if_cases (Compared p.units q.units) (length p.units == length q.units)
          (λ e.
            let same : length p.units ≡ length q.units = ground arith in
            inr (inl (refl, Agree-eq n p.units q.units a (omega arith) (omega arith))))
          (λ e.
            if_cases (Compared p.units q.units) (ltb (length p.units) (length q.units))
              (λ f.
                let shorter : length p.units < length q.units = ltb→lt _ _ f in
                inl (tt, Agree-Before n p.units q.units a (omega arith) (omega arith)))
              (λ f.
                let longer : length q.units < length p.units = ground arith in
                inr (
                  inr (
                    omega arith,
                    Agree-Before n q.units p.units (Agree-sym n p.units q.units a) (omega arith)
                        (omega arith),
                  ))))

    finished :
        (o : Option ℤ)
        → Yields (Signed (Agree n p.units q.units) p.units q.units) o
        → Yields (Compared p.units q.units) (
            o >>= λ res.
            if is_zero res
            then some (
                if length p.units == length q.units
                then pos 0
                else if ltb (length p.units) (length q.units)
                then negsuc 0
                else pos 1)
            else some res)
    finished none s = s
    finished (some (pos zero)) (inl s) = absurd s.0
    finished (some (pos zero)) (inr (inl s)) = by_length s.1
    finished (some (pos zero)) (inr (inr s)) = absurd (omega (arith, s.0))
    finished (some (pos (suc k))) (inl s) = absurd s.0
    finished (some (pos (suc k))) (inr (inl s)) = absurd (let no_sign : ⊥ = cc (s.0) in no_sign)
    finished (some (pos (suc k))) (inr (inr s)) =
        let other : (suc k == 0) ≡ false = ground arith in rw (other) (inr (inr s))
    finished (some (negsuc k)) (inl s) = inl s
    finished (some (negsuc k)) (inr (inl s)) = absurd (let no_sign : ⊥ = cc (s.0) in no_sign)
    finished (some (negsuc k)) (inr (inr s)) = absurd s.0
