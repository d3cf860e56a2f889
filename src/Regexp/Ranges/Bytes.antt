-- ===== src/Regexp/Ranges/Bytes.antt =====
-- The bytes of the intervals, and what a read at an index gives back.
use mathlib.Core.List.{append_assoc}
use native.Mathlib.Nat.{suc-mul}
use quickjs_rs.Base.{
  ℕ, zero, suc, ◌+◌, ◌*◌, ◌^◌, ◌<◌, ◌≡◌, refl, sym, ap, ◌∙◌, arith, Option, some, List, [], ◌∷◌,
  ◌++◌, length, length-append, get_elem?, u8, ◌>>>◌,
}
use quickjs_rs.DynBuf.{le_bytes}
use quickjs_rs.DynBuf.Run.{joined}
use quickjs_rs.Regexp.Opcode.{get_u16, get_u32}
use quickjs_rs.Regexp.Ranges.Points.{low_of, end_of, shift_low, shift_end}

-- The pieces that the loops append: words of `k` bytes, `g` giving the last code of an interval.
abbrev pub blocks : ℕ → (ℕ → ℕ) → List ℕ → List (List ℕ)
blocks k g [] = []
blocks k g (lo ∷ []) = []
blocks k g (lo ∷ hi ∷ ps) = le_bytes k lo ∷ le_bytes k (g hi) ∷ blocks k g ps

pub get_elem?-append :
    (pre l : List ℕ) (k : ℕ) → get_elem? (pre ++ l) (length pre + k) ≡ get_elem? l k
get_elem?-append [] l k = ap (get_elem? l) (omega arith)
get_elem?-append (x ∷ pre) l k =
    let e : length (x ∷ pre) + k ≡ suc (length pre + k) = omega arith in
    rw (e) (get_elem?-append pre l k)

pub read_at :
    (pre l : List ℕ) (pos : ℕ) → pos ≡ length pre → get_elem? (pre ++ l) pos ≡ get_elem? l 0
read_at pre l pos e = rw (e, sym (plus_zero (length pre))) (get_elem?-append pre l 0)
  where
    plus_zero : (n : ℕ) → n + 0 ≡ n
    plus_zero n = omega arith

pub length-le_bytes : (k v : ℕ) → length (le_bytes k v) ≡ k
unfolding le_bytes
length-le_bytes zero v = refl
length-le_bytes (suc k) v = ap suc (length-le_bytes k (v >>> 8))

-- A read of a word of `k` bytes from where it was written.
abbrev pub Reads : ℕ → (List ℕ → ℕ → Option ℕ) → Type 0
Reads k get =
    (pre post : List ℕ) (pos v : ℕ)
    → pos ≡ length pre
    → v < 2 ^ (8 * k)
    → get (pre ++ (le_bytes k v ++ post)) pos ≡ some v

pub get_u16-Reads : Reads 2 get_u16
unfolding get_u16 le_bytes
get_u16-Reads pre post pos v e small =
    let l : List ℕ = u8 v ∷ u8 (v >>> 8) ∷ post in
    rw (e, read_at pre l (length pre) refl, get_elem?-append pre l 1) (ap some (omega arith))

pub get_u32-Reads : Reads 4 get_u32
unfolding get_u32 le_bytes
get_u32-Reads pre post pos v e small =
    let l : List ℕ = u8 v ∷ u8 (v >>> 8) ∷ u8 (v >>> 8 >>> 8) ∷ u8 (v >>> 8 >>> 8 >>> 8) ∷ post in
    rw
      (
        e,
        read_at pre l (length pre) refl,
        get_elem?-append pre l 1,
        get_elem?-append pre l 2,
        get_elem?-append pre l 3,
      )
      (ap some (omega arith))

module _ (k : ℕ) (get : List ℕ → ℕ → Option ℕ) (reads : Reads k get) (g : ℕ → ℕ) where
  -- Behind the first two words.
  two_words :
      (pre a b rest post : List ℕ)
      → pre ++ ((a ++ (b ++ rest)) ++ post) ≡ (pre ++ (a ++ b)) ++ (rest ++ post)
  two_words pre a b rest post =
      ap (λ l. pre ++ l)
        (append_assoc a (b ++ rest) post
          ∙ ap (λ l. a ++ l) (append_assoc b rest post)
          ∙ sym (append_assoc a b (rest ++ post)))
      ∙ sym (append_assoc pre (a ++ b) (rest ++ post))

  behind_first :
      (pre a b rest post : List ℕ)
      → pre ++ ((a ++ (b ++ rest)) ++ post) ≡ (pre ++ a) ++ (b ++ (rest ++ post))
  behind_first pre a b rest post =
      ap (λ l. pre ++ l)
        (append_assoc a (b ++ rest) post ∙ ap (λ l. a ++ l) (append_assoc b rest post))
      ∙ sym (append_assoc pre a (b ++ (rest ++ post)))

  measured :
      (pre : List ℕ) (p q : ℕ) → length (pre ++ (le_bytes k p ++ le_bytes k q)) ≡ length pre + 2 * k
  measured pre p q = omega (
    arith,
    length-append pre (le_bytes k p ++ le_bytes k q),
    length-append (le_bytes k p) (le_bytes k q),
    length-le_bytes k p,
    length-le_bytes k q,
  )

  module _ (w : ℕ) (w_is : w ≡ 2 * k) where
    pub blocks-low :
        (ps pre post : List ℕ) (n i pos : ℕ)
        → length ps ≡ 2 * n
        → i < n
        → low_of ps i < 2 ^ (8 * k)
        → pos ≡ length pre + i * w
        → get (pre ++ (joined (blocks k g ps) ++ post)) pos ≡ some (low_of ps i)
    blocks-low [] pre post n i pos e h small at = absurd (omega arith)
    blocks-low (p ∷ []) pre post n i pos e h small at = absurd (omega arith)
    blocks-low (p ∷ q ∷ ps) pre post n zero pos e h small at =
        rw (append_assoc (le_bytes k p) (le_bytes k (g q) ++ joined (blocks k g ps)) post)
          (reads pre _ pos p (omega arith) small)
    blocks-low (p ∷ q ∷ ps) pre post zero (suc i) pos e h small at = absurd (omega arith)
    blocks-low (p ∷ q ∷ ps) pre post (suc n) (suc i) pos e h small at =
        rw
          (
            two_words pre (le_bytes k p) (le_bytes k (g q)) (joined (blocks k g ps)) post,
            shift_low p q ps i,
          )
          (blocks-low ps (pre ++ (le_bytes k p ++ le_bytes k (g q))) post n i pos (omega arith)
            (omega arith) (omega (arith, small, shift_low p q ps i))
            (omega (arith, at, measured pre p (g q), suc-mul i w, w_is)))

    pub blocks-high :
        (ps pre post : List ℕ) (n i pos : ℕ)
        → length ps ≡ 2 * n
        → i < n
        → g (end_of ps i) < 2 ^ (8 * k)
        → pos ≡ length pre + i * w + k
        → get (pre ++ (joined (blocks k g ps) ++ post)) pos ≡ some (g (end_of ps i))
    blocks-high [] pre post n i pos e h small at = absurd (omega arith)
    blocks-high (p ∷ []) pre post n i pos e h small at = absurd (omega arith)
    blocks-high (p ∷ q ∷ ps) pre post n zero pos e h small at =
        rw (behind_first pre (le_bytes k p) (le_bytes k (g q)) (joined (blocks k g ps)) post) (
          reads (pre ++ le_bytes k p) _ pos (g q)
            (omega (arith, at, length-append pre (le_bytes k p), length-le_bytes k p)) small)
    blocks-high (p ∷ q ∷ ps) pre post zero (suc i) pos e h small at = absurd (omega arith)
    blocks-high (p ∷ q ∷ ps) pre post (suc n) (suc i) pos e h small at =
        rw
          (
            two_words pre (le_bytes k p) (le_bytes k (g q)) (joined (blocks k g ps)) post,
            shift_end p q ps i,
          )
          (blocks-high ps (pre ++ (le_bytes k p ++ le_bytes k (g q))) post n i pos (omega arith)
            (omega arith) (rw (shift_end p q ps i) at small)
            (omega (arith, at, measured pre p (g q), suc-mul i w, w_is)))
