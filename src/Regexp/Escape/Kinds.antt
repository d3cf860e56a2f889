-- ===== src/Regexp/Escape/Kinds.antt =====
-- Each kind of escape, and the escape as a whole.
use quickjs_rs.Base.{
  ℕ, ◌+◌, ◌-◌, ◌*◌, ◌≤◌, ◌<◌, ◌≡◌, arith, leb, ◌==◌, some, List, [], ◌∷◌, drop, true, ◌&&◌, not,
  bit_or, ◌<<<◌, inl, inr, Bool-cases, Option-cases, if_cases,
}
use quickjs_rs.Regexp.Escape.{
  is_digit, hex_escape, octal_digit, octal_escape, digit_escape, control_code, parse_kind,
  lre_parse_escape,
}
use quickjs_rs.Regexp.Escape.Reads.{
  Terminated, InBounds, Terminated-tail, Terminated-drop_1, Terminated-drop_2, peek-InBounds,
  octal_step, Room, hex_braces-InBounds, hex_digits-InBounds, after_digits-InBounds,
}

hex_escape-InBounds : (u n : ℕ) (p : List ℕ) → Room n 0 → Terminated p → InBounds (hex_escape u n p)
unfolding hex_escape
hex_escape-InBounds u n p r t = peek-InBounds p _ t λ x q e.
    elim (Bool-cases (x == b'{' && not (u == 0))) [
      | inl brace ↦
          rw brace (hex_braces-InBounds (drop 1 p) 0 (Terminated-drop_1 x p q e t (ground arith)))
      | inr plain ↦ rw plain (after_digits-InBounds u _ (hex_digits-InBounds n p 0 t r))
    ]

octal_value : (c x : ℕ) → octal_digit x ≡ true → bit_or (c <<< 3) (x - b'0') ≡ c * 8 + (x - b'0')
unfolding octal_digit
octal_value c x e = octal_step c (x - b'0') (ground arith)

octal_digit-lt : (x : ℕ) → octal_digit x ≡ true → (0 < x) × (x - b'0' < 8)
unfolding octal_digit
octal_digit-lt x e = ground arith

octal_escape-InBounds : (c : ℕ) (p : List ℕ) → c < 8 → Terminated p → InBounds (octal_escape c p)
unfolding octal_escape
octal_escape-InBounds c p h t = peek-InBounds p _ t λ x q ex. elim (Bool-cases (octal_digit x)) [
  | inr e ↦ rw e (omega (arith, h), t)
  | inl e ↦
      let v : bit_or (c <<< 3) (x - b'0') ≡ c * 8 + (x - b'0') = octal_value c x e in
      let b : (0 < x) × (x - b'0' < 8) = octal_digit-lt x e in
      let t1 : Terminated (drop 1 p) = Terminated-drop_1 x p q ex t b.0 in
      rw e (elim (Bool-cases (leb 32 (bit_or (c <<< 3) (x - b'0')))) [
        | inl two ↦ rw two (omega (arith, v, b.1, h), t1)
        | inr three ↦ rw three (
            peek-InBounds (drop 1 p) _ t1 λ y q' ey. elim (Bool-cases (octal_digit y)) [
              | inr e' ↦ rw e' (omega (arith, v, b.1, h), t1)
              | inl e' ↦ rw e' (
                (omega (
                  arith,
                  v,
                  b.1,
                  h,
                  octal_value (bit_or (c <<< 3) (x - b'0')) y e',
                  octal_digit-lt y e',
                )),
                Terminated-drop_2 p y q' ey t1 (octal_digit-lt y e').0,
              )
            ])
      ])
]

digit_escape-InBounds :
    (u c : ℕ) (p : List ℕ) → c < 8 → Terminated p → InBounds (digit_escape u c p)
unfolding digit_escape
digit_escape-InBounds u c p h t = elim (Bool-cases (u == 2)) [
  | inr e ↦ rw (e, digit_escape) (octal_escape-InBounds c p h t)
  | inl e ↦ elim (Bool-cases (c == 0)) [
    | inr e' ↦ rw (e, digit_escape, e') tt
    | inl e' ↦
        rw (e, digit_escape, e')
          (peek-InBounds p _ t
            λ x q ex. if_cases InBounds (is_digit x) (λ digit. tt) (λ end. (omega arith, t)))
  ]
]

control_code-le : (c code : ℕ) → control_code c ≡ some code → (0 < c) × (code ≤ 13)
unfolding control_code
control_code-le c code e = ground arith

parse_kind-InBounds : (u c : ℕ) (p : List ℕ) → Terminated (c ∷ p) → InBounds (parse_kind u c p)
unfolding parse_kind
parse_kind-InBounds u c p t = elim (Option-cases (control_code c)) [
  | inr (code, e) ↦
      let b : (0 < c) × (code ≤ 13) = control_code-le c code e in
      rw (e, parse_kind) (omega (arith, b.1), Terminated-tail c p t b.0)
  | inl e ↦ elim (Bool-cases (c == b'x')) [
    | inl ex ↦
        rw (e, parse_kind, ex)
          (hex_escape-InBounds u 2 p (omega arith) (Terminated-tail c p t (ground arith)))
    | inr nx ↦ elim (Bool-cases (c == b'u')) [
      | inl eu ↦
          rw (e, parse_kind, nx, eu)
            (hex_escape-InBounds u 4 p (omega arith) (Terminated-tail c p t (ground arith)))
      | inr nu ↦ elim (Bool-cases (octal_digit c)) [
        | inr last ↦ rw (e, parse_kind, nx, nu, last) tt
        | inl eo ↦
            let b : (0 < c) × (c - b'0' < 8) = octal_digit-lt c eo in
            rw (e, parse_kind, nx, nu, eo)
              (digit_escape-InBounds u (c - b'0') p b.1 (Terminated-tail c p t b.0))
      ]
    ]
  ]
]

-- On a text with a NUL, `lre_parse_escape` reads no byte behind it, whatever escapes are allowed;
-- and where it returns a code, that is at most 0x10FFFF, and the text it leaves still has the NUL.
pub lre_parse_escape-InBounds :
    (p : List ℕ) (allow_utf16 : ℕ) → Terminated p → InBounds (lre_parse_escape p allow_utf16)
unfolding lre_parse_escape
lre_parse_escape-InBounds [] allow_utf16 t = t
lre_parse_escape-InBounds (c ∷ p) allow_utf16 t = parse_kind-InBounds allow_utf16 c p t
