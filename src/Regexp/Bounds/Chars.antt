-- ===== src/Regexp/Bounds/Chars.antt =====
-- The index that a macro that reads the subject goes on to.
use quickjs_rs.Base.{
  ℕ, ◌+◌, ◌-◌, ◌≤◌, ◌<◌, ◌≡◌, refl, arith, some, List, Bool, true, false, length, get_elem?,
  lt_of_get_elem?, ltb, ◌==◌, ◌&&◌, if◌then◌else◌,
}
use quickjs_rs.Base.Partial.{◌>>=◌, check}
use quickjs_rs.Regexp.Chars.{get_char, get_prev_char, prev_char, pair_with, is_high, is_low}
use quickjs_rs.Regexp.Bounds.{Ensures, Ensures-bind, Ensures-then, Ensures-seq}

-- The index that comes out is that of one unit or of two.
pair_with_index :
    (P : ℕ → Type 0) (cbuf : List ℕ) (test : Bool) (at : ℕ) (fits : ℕ → Bool) (joined : ℕ → ℕ × ℕ)
    (alone : ℕ × ℕ)
    → P alone.1
    → (test ≡ true → (c : ℕ) → P (joined c).1)
    → Ensures (λ (r : ℕ × ℕ). P r.1) (pair_with cbuf test at fits joined alone)
unfolding pair_with
pair_with_index P cbuf false at fits joined alone one two = one
pair_with_index P cbuf true at fits joined alone one two =
    Ensures-then (λ (r : ℕ × ℕ). P r.1) (get_elem? cbuf at) _ λ c. pick (fits c) c
  where
    pick : (b : Bool) (c : ℕ) → P (if b then joined c else alone).1
    pick true c = two refl c
    pick false c = one

module _ (cbuf_type : ℕ) (cbuf : List ℕ) where
  -- `GET_CHAR` goes on by one unit or two, and not past the subject.
  pub get_char-le :
      (cptr : ℕ)
      → Ensures
          (λ (r : ℕ × ℕ). (cptr < r.1) × (r.1 ≤ length cbuf))
          (get_char cbuf_type cbuf (length cbuf) cptr)
  unfolding get_char
  get_char-le cptr =
      Ensures-bind (λ (r : ℕ × ℕ). (cptr < r.1) × (r.1 ≤ length cbuf)) (get_elem? cbuf cptr) _
        λ c e.
          pair_with_index (λ p. (cptr < p) × (p ≤ length cbuf)) cbuf _ (cptr + 1) is_low _
            (c, cptr + 1) (omega (arith, lt_of_get_elem? cbuf cptr c e)) (λ t c1. two_units c t)
    where
      two_units :
          (c : ℕ)
          → (is_high c && (cbuf_type == 2 && ltb (cptr + 1) (length cbuf))) ≡ true
          → (cptr < cptr + 2) × (cptr + 2 ≤ length cbuf)
      two_units c t = (omega arith, ground arith)

  -- `GET_PREV_CHAR` goes back.
  pub get_prev_char-lt :
      (cbuf_start cptr : ℕ)
      → Ensures (λ (r : ℕ × ℕ). r.1 < cptr) (get_prev_char cbuf_type cbuf cbuf_start cptr)
  unfolding get_prev_char
  get_prev_char-lt cbuf_start cptr =
      Ensures-bind (λ (r : ℕ × ℕ). r.1 < cptr) (check (ltb 0 cptr)) _
        λ u e.
          Ensures-then (λ (r : ℕ × ℕ). r.1 < cptr) (get_elem? cbuf (cptr - 1)) _
            λ c.
              pair_with_index (λ p. p < cptr) cbuf _ (cptr - 2) is_high _ (c, cptr - 1)
                (back 1 (omega arith) e) (λ t c1. back 2 (omega arith) e)
    where
      back : (k : ℕ) → 0 < k → check (ltb 0 cptr) ≡ some tt → cptr - k < cptr
      back k h e = ground arith

  pub prev_char-lt :
      (cbuf_start cptr : ℕ) → Ensures (λ p. p < cptr) (prev_char cbuf_type cbuf cbuf_start cptr)
  unfolding prev_char
  prev_char-lt cbuf_start cptr =
      Ensures-bind (λ p. p < cptr) (check (ltb 0 cptr)) _ λ u e. by_type (cbuf_type == 2) e
    where
      by_type :
          (b : Bool)
          → check (ltb 0 cptr) ≡ some tt
          → Ensures
              (λ p. p < cptr)
              (elim b [
                | true ↦ get_prev_char cbuf_type cbuf cbuf_start cptr >>= λ r. some r.1
                | false ↦ some (cptr - 1)
              ])
      by_type true e =
          Ensures-seq (λ (r : ℕ × ℕ). r.1 < cptr) (λ p. p < cptr)
            (get_prev_char cbuf_type cbuf cbuf_start cptr) _ (get_prev_char-lt cbuf_start cptr)
            (λ r h. h)
      by_type false e = ground arith
