-- ===== src/Regexp/Escape/Reads.antt =====
-- An escape is read within the text, up to its NUL, and has the code of a character.
use quickjs_rs.Base.{
  ℕ, zero, suc, ◌+◌, ◌*◌, ◌≤◌, ◌<◌, ◌≡◌, refl, arith, ltb, ◌==◌, some, List, [], ◌∷◌, drop, ◌&&◌,
  bit_and, bit_or, ◌<<<◌, ◌⊎◌, inl, inr, Bool-cases, Option-cases, if_cases,
}
use quickjs_rs.Base.Bits.{bit_and-ones, bit_or-fields}
use quickjs_rs.Regexp.Chars.{is_high, is_low, from_surrogates}
use quickjs_rs.Regexp.Escape.{
  Escape, malformed, other, fault, char, from_hex, peek, hex_braces, hex_digits, low_half,
  escaped_pair, after_digits,
}

-- There is a NUL in the text.
abbrev pub Terminated : List ℕ → Type 0
Terminated [] = ⊥
Terminated (c ∷ p) = (c ≡ 0) ⊎ Terminated p

-- No read behind the text; a code is one of Unicode, and the pointer is still before a NUL.
abbrev pub InBounds : Escape → Type 0
InBounds malformed = Unit
InBounds other = Unit
InBounds fault = ⊥
InBounds (char c q) = (c ≤ 0x10FFFF) × Terminated q

pub Terminated-tail : (c : ℕ) (p : List ℕ) → Terminated (c ∷ p) → 0 < c → Terminated p
Terminated-tail c p (inl e) h = absurd (omega arith)
Terminated-tail c p (inr t) h = t

pub Terminated-drop_1 :
    (c : ℕ) (p q : List ℕ) → p ≡ c ∷ q → Terminated p → 0 < c → Terminated (drop 1 p)
Terminated-drop_1 c [] q e t h = t
Terminated-drop_1 c (x ∷ p) q e t h =
    Terminated-tail x p t (let same : x ≡ c = cc in omega (arith, same))

pub Terminated-drop_2 :
    (p : List ℕ) (y : ℕ) (q : List ℕ)
    → drop 1 p ≡ y ∷ q
    → Terminated (drop 1 p)
    → 0 < y
    → Terminated (drop 2 p)
Terminated-drop_2 [] y q e t lt = t
Terminated-drop_2 (x ∷ []) y q e t lt = t
Terminated-drop_2 (x ∷ z ∷ p) y q e t lt =
    Terminated-tail z p t (let same : z ≡ y = cc in omega (arith, same))

pub peek-InBounds :
    (p : List ℕ) (k : ℕ → Escape)
    → Terminated p
    → ((x : ℕ) (q : List ℕ) → p ≡ x ∷ q → InBounds (k x))
    → InBounds (peek p k)
unfolding peek
peek-InBounds [] k t h = t
peek-InBounds (x ∷ p) k t h = h x p refl

from_hex-lt : (d h : ℕ) → from_hex d ≡ some h → (0 < d) × (h < 16)
unfolding from_hex
from_hex-lt d h e = ground arith

hex_step : (c h : ℕ) → h < 16 → bit_or (c <<< 4) h ≡ c * 16 + h
hex_step c h lt = omega (arith, bit_or-fields 4 c h lt)

pub octal_step : (c h : ℕ) → h < 8 → bit_or (c <<< 3) h ≡ c * 8 + h
octal_step c h lt = omega (arith, bit_or-fields 3 c h lt)

from_surrogates-le : (hi lo : ℕ) → from_surrogates hi lo ≤ 0x10FFFF
unfolding from_surrogates
from_surrogates-le hi lo = omega (
  arith,
  bit_and-ones 10 hi,
  bit_and-ones 10 lo,
  bit_or-fields 10 (bit_and hi 0x3ff) (bit_and lo 0x3ff) (omega (arith, bit_and-ones 10 lo)),
)

pub hex_braces-InBounds : (p : List ℕ) (c : ℕ) → Terminated p → InBounds (hex_braces p c)
unfolding hex_braces
hex_braces-InBounds [] c t = t
hex_braces-InBounds (d ∷ p) c t = elim (Option-cases (from_hex d)) [
  | inl e ↦ rw (e, hex_braces) tt
  | inr (h, e) ↦
      let tail : Terminated p = Terminated-tail d p t (from_hex-lt d h e).0 in
      elim (Bool-cases (ltb 0x10FFFF (bit_or (c <<< 4) h))) [
        | inl large ↦ rw (e, hex_braces, large) tt
        | inr small ↦
            rw (e, hex_braces, small)
              (peek-InBounds p _ tail λ x q e'. elim (Bool-cases (x == b'}')) [
                | inl last ↦ rw last (ground arith, Terminated-drop_1 x p q e' tail (ground arith))
                | inr more ↦ rw more (hex_braces-InBounds p (bit_or (c <<< 4) h) tail)
              ])
      ]
]

-- The largest code that so many digits lead to is one of Unicode.
abbrev pub Room : ℕ → ℕ → Type 0
Room zero c = c ≤ 0x10FFFF
Room (suc left) c = Room left (c * 16 + 15)

Room-le : (left c c' : ℕ) → c ≤ c' → Room left c' → Room left c
Room-le zero c c' h r = omega (arith, h, r)
Room-le (suc left) c c' h r = Room-le left (c * 16 + 15) (c' * 16 + 15) (omega arith) r

pub hex_digits-InBounds :
    (left : ℕ) (p : List ℕ) (c : ℕ) → Terminated p → Room left c → InBounds (hex_digits left p c)
unfolding hex_digits
hex_digits-InBounds zero p c t r = (r, t)
hex_digits-InBounds (suc left) [] c t r = t
hex_digits-InBounds (suc left) (d ∷ p) c t r = elim (Option-cases (from_hex d)) [
  | inl e ↦ rw (e, hex_digits) tt
  | inr (h, e) ↦
      let b : (0 < d) × (h < 16) = from_hex-lt d h e in
      rw (e, hex_digits)
        (hex_digits-InBounds left p (bit_or (c <<< 4) h) (Terminated-tail d p t b.0) (
          Room-le left (bit_or (c <<< 4) h) (c * 16 + 15) (omega (arith, hex_step c h b.1, b.1)) r))
]

low_half-InBounds :
    (c : ℕ) (p : List ℕ) (half : Escape)
    → c ≤ 0x10FFFF
    → Terminated p
    → InBounds half
    → InBounds (low_half c p half)
unfolding low_half
low_half-InBounds c p (char c1 q) h t b =
    if_cases InBounds (is_low c1) (λ pair. (from_surrogates-le c c1, b.1)) (λ alone. (h, t))
low_half-InBounds c p malformed h t b = (h, t)
low_half-InBounds c p other h t b = (h, t)
low_half-InBounds c p fault h t b = b

escaped_pair-InBounds :
    (u c : ℕ) (p : List ℕ) → c ≤ 0x10FFFF → Terminated p → InBounds (escaped_pair u c p)
unfolding escaped_pair
escaped_pair-InBounds u c p h t = elim (Bool-cases (is_high c && u == 2)) [
  | inr e ↦ rw (e, escaped_pair) (h, t)
  | inl e ↦
      rw (e, escaped_pair)
        (peek-InBounds p _ t λ x q ex. elim (Bool-cases (x == b'\\')) [
          | inr e1 ↦ rw e1 (h, t)
          | inl e1 ↦
              let t1 : Terminated (drop 1 p) = Terminated-drop_1 x p q ex t (ground arith) in
              rw e1 (
                peek-InBounds (drop 1 p) _ t1 λ y q' ey. elim (Bool-cases (y == b'u')) [
                  | inr e2 ↦ rw e2 (h, t)
                  | inl e2 ↦ rw e2 (
                      low_half-InBounds c p _ h t (
                        hex_digits-InBounds 4 (drop 2 p) 0
                          (Terminated-drop_2 p y q' ey t1 (ground arith)) (omega arith)))
                ])
        ])
]

pub after_digits-InBounds : (u : ℕ) (r : Escape) → InBounds r → InBounds (after_digits u r)
unfolding after_digits
after_digits-InBounds u (char c p) b = escaped_pair-InBounds u c p b.0 b.1
after_digits-InBounds u malformed b = tt
after_digits-InBounds u other b = tt
after_digits-InBounds u fault b = b
