-- ===== src/Leb128/Encode.antt =====
-- The bytes that `dbuf_put_leb128` appends.
use quickjs_rs.Base.{
  ℕ, zero, suc, ◌+◌, ◌/◌, ◌%◌, ◌^◌, ◌≤◌, ◌<◌, ◌≡◌, refl, arith, ◌==◌, List, [], ◌∷◌, ◌++◌, Option,
  none, some, Bool, true, false, length, ◌>>>◌, inl, inr, Bool-cases, u8, bit_and, bit_or, ap, ◌∙◌,
}
use quickjs_rs.Base.Bits.{bit_and-ones}
use quickjs_rs.DynBuf.{DynBuf, dbuf_putc, dbuf_put}
use quickjs_rs.DynBuf.Memory.{Allocator}
use quickjs_rs.DynBuf.Invariant.{IsValid, contents}
use quickjs_rs.DynBuf.Run.{puts, Joined, joined, total, puts-Joined}
use quickjs_rs.Leb128.{put_loop, dbuf_put_leb128, groups}
use quickjs_rs.Leb128.Bits.{marked}

-- The groups of a number from the lowest on, each but the last with the mark.
unfoldable pub leb_bytes : ℕ → ℕ → List ℕ
leb_bytes zero v = []
leb_bytes (suc left) v = elim (v >>> 7 == 0) [
  | true ↦ v % 128 ∷ []
  | false ↦ (v % 128 + 128) ∷ leb_bytes left (v / 128)
]

abbrev pub singles : List ℕ → List (List ℕ)
singles [] = []
singles (b ∷ bs) = (b ∷ []) ∷ singles bs

joined-singles : (bs : List ℕ) → joined (singles bs) ≡ bs
joined-singles [] = refl
joined-singles (b ∷ bs) = ap (λ l. b ∷ l) (joined-singles bs)

total-singles : (bs : List ℕ) → total (singles bs) ≡ length bs
total-singles [] = refl
total-singles (b ∷ bs) = omega (arith, total-singles bs)

pub length-leb_bytes : (left v : ℕ) → length (leb_bytes left v) ≤ left
unfolding leb_bytes
length-leb_bytes zero v = omega arith
length-leb_bytes (suc left) v = elim (Bool-cases (v >>> 7 == 0)) [
  | inl e ↦ rw (e, leb_bytes) (omega arith)
  | inr e ↦ rw (e, leb_bytes) (omega (arith, length-leb_bytes left (v / 128)))
]

module _ {H : Type 0} (alloc : Allocator H) where
  last_byte : (v : ℕ) → u8 (bit_and v 0x7f) ≡ v % 128
  last_byte v = omega (arith, bit_and-ones 7 v)

  more_byte : (v : ℕ) → u8 (bit_or (bit_and v 0x7f) 0x80) ≡ v % 128 + 128
  more_byte v = omega (arith, marked v)

  put_loop-puts :
      (left : ℕ) (h : H) (s : DynBuf) (v : ℕ)
      → put_loop alloc left h s v ≡ puts alloc h s (singles (leb_bytes left v))
  unfolding put_loop leb_bytes puts dbuf_putc
  put_loop-puts zero h s v = refl
  put_loop-puts (suc left) h s v = elim (Bool-cases (v >>> 7 == 0)) [
    | inl e ↦ rw (e, put_loop, leb_bytes, last_byte v) (one (dbuf_put alloc h s (v % 128 ∷ [])))
    | inr e ↦
        rw (e, put_loop, leb_bytes, more_byte v)
          (more (dbuf_put alloc h s ((v % 128 + 128) ∷ []))
            (λ h' s'. put_loop-puts left h' s' (v / 128)))
  ]
    where
      one :
          (d : Option (H × DynBuf × Bool))
          → ◌≡◌ {A = Option (H × DynBuf)}
              (elim d [ none ↦ none | some (h', s', _) ↦ some (h', s') ])
              (elim d [ none ↦ none | some (h', s', _) ↦ puts alloc h' s' [] ])
      one none = refl
      one (some (h', s', b)) = refl

      more :
          (d : Option (H × DynBuf × Bool))
          → ((h' : H) (s' : DynBuf)
              → put_loop alloc left h' s' (v / 128)
                ≡ puts alloc h' s' (singles (leb_bytes left (v / 128))))
          → ◌≡◌ {A = Option (H × DynBuf)}
              (elim d [ none ↦ none | some (h', s', _) ↦ put_loop alloc left h' s' (v >>> 7) ])
              (elim d [
                | none ↦ none
                | some (h', s', _) ↦ puts alloc h' s' (singles (leb_bytes left (v / 128)))
              ])
      more none rest = refl
      more (some (h', s', b)) rest = rest h' s'

  -- `dbuf_put_leb128` on a buffer with five bytes to go to the range of `size_t` touches nothing out
  -- of the block; and if `error` is clear at the end, the bytes of the number's groups stand behind
  -- the old contents.
  pub dbuf_put_leb128-Joined :
      (h : H) (s : DynBuf) (v : ℕ)
      → IsValid s
      → s.size + groups < 2 ^ 64
      → Joined s (leb_bytes groups v) (dbuf_put_leb128 alloc h s v)
  unfolding dbuf_put_leb128
  dbuf_put_leb128-Joined h s v valid fits =
      let bytes = leb_bytes groups v in
      let j =
        puts-Joined alloc h s (singles bytes) valid
          (omega (arith, total-singles bytes, length-leb_bytes groups v)) in
      rw (put_loop-puts groups h s v) (record {
        heap = j.heap;
        last = j.last;
        returns = j.returns;
        valid = j.valid;
        clear =
            λ e. ((j.clear e).0, (j.clear e).1 ∙ ap (λ l. contents s ++ l) (joined-singles bytes));
      })
