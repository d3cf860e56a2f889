-- ===== src/Regexp/Bounds/Defined.antt =====
-- Where the reads of the subject and of the bytecode are defined.
use quickjs_rs.Base.{
  ℕ, zero, suc, ◌+◌, ◌-◌, ◌*◌, ◌/◌, ◌^◌, ◌≤◌, ◌<◌, ◌≡◌, refl, arith, Option, none, some, List, [],
  ◌∷◌, Bool, true, false, length, get_elem?, ltb, leb, ◌==◌, ◌&&◌, u32, Bool-cases, inl, inr,
}
use quickjs_rs.Base.Partial.{◌>>=◌, check}
use quickjs_rs.Regexp.Opcode.{get_u8, get_u16, get_u32}
use quickjs_rs.Regexp.Chars.{
  get_char, peek_char, get_prev_char, peek_prev_char, prev_char, pair_with, is_high, is_low,
  from_surrogates,
}
use quickjs_rs.Regexp.Search.{
  Bound, search, low16, high16, low32, high32, match_range, match_range32,
}

-- A computation that has a value.
abbrev pub IsDefined {ℓ} : {A : Type ℓ} → Option A → Type 0
IsDefined none = ⊥
IsDefined (some a) = Unit

pub IsDefined-bind {ℓ κ} :
    {A : Type ℓ} {B : Type κ} (m : Option A) (f : A → Option B)
    → IsDefined m
    → ((a : A) → m ≡ some a → IsDefined (f a))
    → IsDefined (m >>= f)
IsDefined-bind none f d h = absurd d
IsDefined-bind (some a) f d h = h a refl

-- A property of a case on a truth value, from one proof for each branch.
pub elim_cases {ℓ κ} :
    {A : Type ℓ} (P : A → Type κ) (b : Bool) {x y : A}
    → (b ≡ true → P x)
    → (b ≡ false → P y)
    → P (elim b [ true ↦ x | false ↦ y ])
elim_cases P true t f = t refl
elim_cases P false t f = f refl

pub get_elem?-IsDefined {ℓ} :
    {A : Type ℓ} (xs : List A) (i : ℕ) → i < length xs → IsDefined (get_elem? xs i)
get_elem?-IsDefined [] i h = absurd (omega arith)
get_elem?-IsDefined (x ∷ xs) zero h = tt
get_elem?-IsDefined (x ∷ xs) (suc i) h = get_elem?-IsDefined xs i (omega arith)

pub check-IsDefined : (a b : ℕ) → a < b → IsDefined (check (ltb a b))
check-IsDefined a b h = elim (Bool-cases (ltb a b)) [
  | inl e ↦ rw e tt
  | inr e ↦ absurd (let less : ⊥ = ground arith in less)
]

module _ (bc : List ℕ) (pos : ℕ) where
  pub get_u8-IsDefined : pos < length bc → IsDefined (get_u8 bc pos)
  unfolding get_u8
  get_u8-IsDefined h = get_elem?-IsDefined bc pos h

  pub get_u16-IsDefined : pos + 1 < length bc → IsDefined (get_u16 bc pos)
  unfolding get_u16
  get_u16-IsDefined h =
      IsDefined-bind (get_elem? bc pos) _ (get_elem?-IsDefined bc pos (omega arith)) λ b0 e0.
        IsDefined-bind (get_elem? bc (pos + 1)) _ (get_elem?-IsDefined bc (pos + 1) h) λ b1 e1. tt

  pub get_u32-IsDefined : pos + 3 < length bc → IsDefined (get_u32 bc pos)
  unfolding get_u32
  get_u32-IsDefined h =
      IsDefined-bind (get_elem? bc pos) _ (get_elem?-IsDefined bc pos (omega arith)) λ b0 e0.
        IsDefined-bind (get_elem? bc (pos + 1)) _ (get_elem?-IsDefined bc _ (omega arith)) λ b1 e1.
          IsDefined-bind (get_elem? bc (pos + 2)) _ (get_elem?-IsDefined bc _ (omega arith))
            λ b2 e2.
              IsDefined-bind (get_elem? bc (pos + 3)) _ (get_elem?-IsDefined bc _ h) λ b3 e3. tt

pair_with-IsDefined :
    (cbuf : List ℕ) (test : Bool) (at : ℕ) (fits : ℕ → Bool) (joined : ℕ → ℕ × ℕ) (alone : ℕ × ℕ)
    → (test ≡ true → at < length cbuf)
    → IsDefined (pair_with cbuf test at fits joined alone)
unfolding pair_with
pair_with-IsDefined cbuf false at fits joined alone h = tt
pair_with-IsDefined cbuf true at fits joined alone h =
    IsDefined-bind (get_elem? cbuf at) _ (get_elem?-IsDefined cbuf at (h refl)) λ c e. tt

module _ (cbuf_type : ℕ) (cbuf : List ℕ) (cptr : ℕ) where
  pub get_char-IsDefined :
      (cbuf_end : ℕ)
      → cptr < length cbuf
      → cbuf_end ≤ length cbuf
      → IsDefined (get_char cbuf_type cbuf cbuf_end cptr)
  unfolding get_char
  get_char-IsDefined cbuf_end h le =
      IsDefined-bind (get_elem? cbuf cptr) _ (get_elem?-IsDefined cbuf cptr h)
        λ c e. pair_with-IsDefined cbuf _ (cptr + 1) _ _ _ λ t. second c t
    where
      second :
          (c : ℕ)
          → (is_high c && (cbuf_type == 2 && ltb (cptr + 1) cbuf_end)) ≡ true
          → cptr + 1 < length cbuf
      second c t = ground arith

  pub peek_char-IsDefined :
      cptr < length cbuf → IsDefined (peek_char cbuf_type cbuf (length cbuf) cptr)
  unfolding peek_char
  peek_char-IsDefined h =
      IsDefined-bind (get_char cbuf_type cbuf (length cbuf) cptr) _
        (get_char-IsDefined (length cbuf) h (omega arith)) λ r e. tt

  module _ (inner : 0 < cptr) (within : cptr ≤ length cbuf) where
    pub get_prev_char-IsDefined :
        (cbuf_start : ℕ) → IsDefined (get_prev_char cbuf_type cbuf cbuf_start cptr)
    unfolding get_prev_char
    get_prev_char-IsDefined cbuf_start =
        IsDefined-bind (check (ltb 0 cptr)) _ (check-IsDefined 0 cptr inner) λ u e.
          IsDefined-bind (get_elem? cbuf (cptr - 1)) _ (get_elem?-IsDefined cbuf _ (omega arith))
            λ c e'. pair_with-IsDefined cbuf _ (cptr - 2) _ _ _ λ t. omega arith

    pub peek_prev_char-IsDefined :
        (cbuf_start : ℕ) → IsDefined (peek_prev_char cbuf_type cbuf cbuf_start cptr)
    unfolding peek_prev_char
    peek_prev_char-IsDefined cbuf_start =
        IsDefined-bind (check (ltb 0 cptr)) _ (check-IsDefined 0 cptr inner) λ u e.
          IsDefined-bind (get_elem? cbuf (cptr - 1)) _ (get_elem?-IsDefined cbuf _ (omega arith))
            λ c e'.
              IsDefined-bind
                (pair_with cbuf (is_low c && (cbuf_type == 2 && leb (cbuf_start + 2) cptr))
                  (cptr - 2) is_high (λ c1. (from_surrogates c1 c, cptr - 2)) (c, cptr - 1))
                _ (pair_with-IsDefined cbuf _ (cptr - 2) _ _ _ λ t. omega arith) λ r e2. tt

    pub prev_char-IsDefined :
        (cbuf_start : ℕ) → IsDefined (prev_char cbuf_type cbuf cbuf_start cptr)
    unfolding prev_char
    prev_char-IsDefined cbuf_start =
        IsDefined-bind (check (ltb 0 cptr)) _ (check-IsDefined 0 cptr inner) λ u e.
          elim_cases IsDefined (cbuf_type == 2)
            (λ wide.
              IsDefined-bind (get_prev_char cbuf_type cbuf cbuf_start cptr) _
                (get_prev_char-IsDefined cbuf_start) λ r e. tt)
            (λ narrow. tt)

-- The search by halves reads only the `n` intervals: at the first one `c` is not below.
module _ (low high : Bound) (n c lo0 : ℕ) (small : n < 2 ^ 31) (first : low 0 ≡ some lo0)
    (above : lo0 ≤ c) (lows : (i : ℕ) → i < n → IsDefined (low i))
    (highs : (i : ℕ) → i < n → IsDefined (high i)) where
  pub search-IsDefined : (fuel a b : ℕ) → b < n → IsDefined (search fuel low high c a b)
  unfolding search
  search-IsDefined zero a b bn = tt
  search-IsDefined (suc fuel) a b bn = elim (Bool-cases (leb a b)) [
    | inr e ↦ rw (e, search) tt
    | inl e ↦
        let ordered : a ≤ b = ground arith in
        let mn : u32 (a + b) / 2 < n = omega arith in
        rw (e, search)
          (IsDefined-bind (low (u32 (a + b) / 2)) _ (lows _ mn) λ lo el.
            IsDefined-bind (high (u32 (a + b) / 2)) _ (highs _ mn) λ hi eh.
              elim_cases IsDefined (ltb c lo)
                (λ below. search-IsDefined fuel a _ (lower (u32 (a + b) / 2) lo mn el below))
                (λ not_below.
                  elim_cases IsDefined (ltb hi c) (λ over. search-IsDefined fuel _ b bn)
                    (λ hit. tt)))
  ]
    where
      lower : (m lo : ℕ) → m < n → low m ≡ some lo → ltb c lo ≡ true → u32 (m + 2 ^ 32 - 1) < n
      lower zero lo mn e below =
          let same : lo ≡ lo0 = cc in absurd (let less : ⊥ = ground (arith, same) in less)
      lower (suc m) lo mn e below = omega arith

last-lt : (n : ℕ) → 0 < n → n < 2 ^ 31 → u32 (n + 2 ^ 32 - 1) < n
last-lt n p h = omega arith

module _ (bc : List ℕ) (pc n c : ℕ) (positive : 0 < n) (small : n < 2 ^ 31) where
  pub match_range-IsDefined : pc + n * 4 ≤ length bc → IsDefined (match_range bc pc n c)
  unfolding match_range
  match_range-IsDefined fits = IsDefined-bind (low16 bc pc 0) _ (lows 0 positive) λ lo0 e0.
      elim_cases IsDefined (ltb c lo0) (λ below. tt)
        λ not_below.
          IsDefined-bind (high16 bc pc (u32 (n + 2 ^ 32 - 1))) _
            (highs _ (last-lt n positive small))
            λ hi e1.
              elim_cases IsDefined (leb 0xffff c && hi == 0xffff) (λ top. tt)
                λ not_top.
                  elim_cases IsDefined (ltb hi c) (λ over. tt)
                    λ not_over.
                      search-IsDefined (low16 bc pc) (high16 bc pc) n c lo0 small e0 (ground arith)
                        lows highs (n + 1) 0 _ (last-lt n positive small)
    where
      lows : (i : ℕ) → i < n → IsDefined (low16 bc pc i)
      lows i h = get_u16-IsDefined bc (pc + i * 4) (omega arith)

      highs : (i : ℕ) → i < n → IsDefined (high16 bc pc i)
      highs i h = get_u16-IsDefined bc (pc + i * 4 + 2) (omega arith)

  pub match_range32-IsDefined : pc + n * 8 ≤ length bc → IsDefined (match_range32 bc pc n c)
  unfolding match_range32
  match_range32-IsDefined fits = IsDefined-bind (low32 bc pc 0) _ (lows 0 positive) λ lo0 e0.
      elim_cases IsDefined (ltb c lo0) (λ below. tt)
        λ not_below.
          IsDefined-bind (high32 bc pc (u32 (n + 2 ^ 32 - 1))) _
            (highs _ (last-lt n positive small))
            λ hi e1.
              elim_cases IsDefined (ltb hi c) (λ over. tt)
                λ not_over.
                  search-IsDefined (low32 bc pc) (high32 bc pc) n c lo0 small e0 (ground arith) lows
                    highs (n + 1) 0 _ (last-lt n positive small)
    where
      lows : (i : ℕ) → i < n → IsDefined (low32 bc pc i)
      lows i h = get_u32-IsDefined bc (pc + i * 8) (omega arith)

      highs : (i : ℕ) → i < n → IsDefined (high32 bc pc i)
      highs i h = get_u32-IsDefined bc (pc + i * 8 + 4) (omega arith)
