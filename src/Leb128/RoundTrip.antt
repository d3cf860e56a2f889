-- ===== src/Leb128/RoundTrip.antt =====
-- `get_leb128` reads what `dbuf_put_leb128` has written.
use quickjs_rs.Base.{
  ℕ, zero, suc, ◌+◌, ◌*◌, ◌/◌, ◌%◌, ◌^◌, ◌≤◌, ◌<◌, ◌≡◌, arith, ◌==◌, List, ◌∷◌, ◌++◌, Option, some,
  true, false, length, ◌>>>◌, inl, inr, ◌⊎◌, Bool-cases, bit_and, ap, ◌∙◌,
}
use native.Mathlib.Nat.{pow-suc}
use quickjs_rs.DynBuf.{DynBuf}
use quickjs_rs.DynBuf.Memory.{Allocator}
use quickjs_rs.DynBuf.Invariant.{IsValid, contents}
use quickjs_rs.Leb128.{
  dbuf_put_leb128, dbuf_put_sleb128, get_loop, get_leb128, get_sleb128, zigzag, groups,
}
use quickjs_rs.Leb128.Bits.{bit_and-top, joined_group, zigzag-lt, unzigzag-zigzag}
use quickjs_rs.Leb128.Encode.{leb_bytes, length-leb_bytes, dbuf_put_leb128-Joined}

-- A byte with the mark, and one without.
get_more :
    (left shift acc g : ℕ) (p : List ℕ)
    → g < 128
    → acc < 2 ^ shift
    → g * 2 ^ shift < 2 ^ 32
    → get_loop (suc left) shift acc ((g + 128) ∷ p)
      ≡ get_loop left (shift + 7) (acc + g * 2 ^ shift) p
unfolding get_loop
get_more left shift acc g p h small fits =
    let digit : (g + 128) % 128 ≡ g = omega arith in
    let goes_on : (bit_and (g + 128) 0x80 == 0) ≡ false = ground (arith, bit_and-top (g + 128)) in
    rw (goes_on, get_loop)
      (ap (λ v. get_loop left (shift + 7) v p)
        (joined_group shift acc (g + 128) small (rw digit fits)
          ∙ ap (λ d. acc + d * 2 ^ shift) digit))

get_last :
    (left shift acc g : ℕ) (p : List ℕ)
    → g < 128
    → acc < 2 ^ shift
    → g * 2 ^ shift < 2 ^ 32
    → get_loop (suc left) shift acc (g ∷ p) ≡ some (acc + g * 2 ^ shift, p)
unfolding get_loop
get_last left shift acc g p h small fits =
    let digit : g % 128 ≡ g = omega arith in
    let ends : (bit_and g 0x80 == 0) ≡ true = ground (arith, bit_and-top g) in
    rw (ends, get_loop)
      (ap (λ v. some (v, p))
        (joined_group shift acc g small (rw digit fits) ∙ ap (λ d. acc + d * 2 ^ shift) digit))

-- So many groups are enough for the number.
abbrev Fits : ℕ → ℕ → Type 0
Fits zero v = ⊥
Fits (suc left) v = (v < 128) ⊎ Fits left (v / 128)

split_group : (v t : ℕ) → v * t ≡ v % 128 * t + v / 128 * (t * 128)
split_group v t =
    let parts : v ≡ v % 128 + v / 128 * 128 = omega arith in ap (λ x. x * t) parts ∙ grind arith

low_group : (v t : ℕ) → v % 128 * t ≤ 127 * t
low_group v t = let r : v % 128 ≤ 127 = omega arith in grind (arith, r)

abbrev suc_7 : ℕ → ℕ
suc_7 s = suc (suc (suc (suc (suc (suc (suc s))))))

pow_7 : (s : ℕ) → 2 ^ (s + 7) ≡ 2 ^ s * 128
pow_7 s =
    ap (λ n. 2 ^ n) (let same : s + 7 ≡ suc_7 s = omega arith in same)
    ∙ omega (
      arith,
      pow-suc 2 s,
      pow-suc 2 (suc s),
      pow-suc 2 (suc (suc s)),
      pow-suc 2 (suc (suc (suc s))),
      pow-suc 2 (suc (suc (suc (suc s)))),
      pow-suc 2 (suc (suc (suc (suc (suc s))))),
      pow-suc 2 (suc (suc (suc (suc (suc (suc s)))))),
    )

-- From bit `shift` on, the groups of a number that fits the word are put together again.
get_loop-leb_bytes :
    (left shift acc v : ℕ) (rest : List ℕ)
    → acc < 2 ^ shift
    → v * 2 ^ shift < 2 ^ 32
    → Fits left v
    → get_loop left shift acc (leb_bytes left v ++ rest) ≡ some (acc + v * 2 ^ shift, rest)
unfolding leb_bytes
get_loop-leb_bytes zero shift acc v rest small word fits = absurd fits
get_loop-leb_bytes (suc left) shift acc v rest small word fits = elim (Bool-cases (v >>> 7 == 0)) [
  | inl e ↦
      let same : v % 128 ≡ v = ground arith in
      rw (e, leb_bytes, same) (get_last left shift acc v rest (ground arith) small word)
  | inr e ↦
      let parts : v * 2 ^ shift ≡ v % 128 * 2 ^ shift + v / 128 * (2 ^ shift * 128) =
        split_group v (2 ^ shift) in
      let next : 2 ^ (shift + 7) ≡ 2 ^ shift * 128 = pow_7 shift in
      let inner : Fits left (v / 128) = elim fits [
        | inl one ↦ absurd (let no : ⊥ = ground arith in no)
        | inr more ↦ more
      ] in
      rw (e, leb_bytes)
        (get_more left shift acc (v % 128) _ (omega arith) small (omega (arith, parts))
          ∙ get_loop-leb_bytes left (shift + 7) _ (v / 128) rest
              (rw next (omega (arith, small, low_group v (2 ^ shift))))
              (rw next (omega (arith, parts))) inner
          ∙ ap (λ x. some (x, rest)) (rw next (omega (arith, parts))))
]

-- The groups of a word are read back, whatever follows them, and the pointer is behind them.
get_leb128-leb_bytes :
    (v : ℕ) (rest : List ℕ) → v < 2 ^ 32 → get_leb128 (leb_bytes groups v ++ rest) ≡ some (v, rest)
unfolding get_leb128
get_leb128-leb_bytes v rest h =
    get_loop-leb_bytes groups 0 0 v rest (omega arith) (omega arith) five
    ∙ ap (λ x. some (x, rest)) (let same : 0 + v * 2 ^ 0 ≡ v = omega arith in same)
  where
    five : Fits groups v
    five = inr (inr (inr (inr (inl (omega arith)))))

get_sleb128-zigzag :
    (v : ℕ) (rest : List ℕ)
    → v < 2 ^ 32
    → get_sleb128 (leb_bytes groups (zigzag v) ++ rest) ≡ some (v, rest)
unfolding get_sleb128
get_sleb128-zigzag v rest h =
    rw (get_leb128-leb_bytes (zigzag v) rest (zigzag-lt v h), get_sleb128)
      (ap (λ x. some (x, rest)) (unzigzag-zigzag v h))

-- What a writer leaves: the buffer with some bytes behind the old contents, which `get` reads back
-- as `v`, whatever follows them; they are five at most.
pub record Written {H : Type 0} (get : List ℕ → Option (ℕ × List ℕ)) (s : DynBuf) (v : ℕ)
    (r : Option (H × DynBuf)) : Type 0 where
  pub heap : H
  pub last : DynBuf
  pub returns : r ≡ some (heap, last)
  pub valid : IsValid last
  pub bytes : List ℕ
  pub few : length bytes ≤ groups
  pub clear : last.error ≡ false → contents last ≡ contents s ++ bytes
  pub reads : (rest : List ℕ) → get (bytes ++ rest) ≡ some (v, rest)

module _ {H : Type 0} (alloc : Allocator H) where
  -- `dbuf_put_leb128` of a word, with room for five bytes below the range of `size_t`, touches
  -- nothing out of the block, and if `error` is clear at the end, it has appended at most five
  -- bytes that `get_leb128` reads back as the word, with the pointer behind them.
  pub dbuf_put_leb128-Written :
      (h : H) (s : DynBuf) (v : ℕ)
      → IsValid s
      → s.size + groups < 2 ^ 64
      → v < 2 ^ 32
      → Written get_leb128 s v (dbuf_put_leb128 alloc h s v)
  dbuf_put_leb128-Written h s v ok fits word =
      let j = dbuf_put_leb128-Joined alloc h s v ok fits in
      record {
        heap = j.heap;
        last = j.last;
        returns = j.returns;
        valid = j.valid;
        bytes = leb_bytes groups v;
        few = length-leb_bytes groups v;
        clear = λ e. (j.clear e).1;
        reads = λ rest. get_leb128-leb_bytes v rest word;
      }

  -- The same of `dbuf_put_sleb128` and `get_sleb128`, with a signed word in two's complement.
  pub dbuf_put_sleb128-Written :
      (h : H) (s : DynBuf) (v : ℕ)
      → IsValid s
      → s.size + groups < 2 ^ 64
      → v < 2 ^ 32
      → Written get_sleb128 s v (dbuf_put_sleb128 alloc h s v)
  unfolding dbuf_put_sleb128
  dbuf_put_sleb128-Written h s v ok fits word =
      let j = dbuf_put_leb128-Joined alloc h s (zigzag v) ok fits in
      record {
        heap = j.heap;
        last = j.last;
        returns = j.returns;
        valid = j.valid;
        bytes = leb_bytes groups (zigzag v);
        few = length-leb_bytes groups (zigzag v);
        clear = λ e. (j.clear e).1;
        reads = λ rest. get_sleb128-zigzag v rest word;
      }
