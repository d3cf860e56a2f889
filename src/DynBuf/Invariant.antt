-- ===== src/DynBuf/Invariant.antt =====
-- The invariant of a `DynBuf`, and what `dbuf_realloc` keeps.
use quickjs_rs.Base.{ℕ, ◌+◌, ◌*◌, ◌/◌, ◌^◌, ◌≤◌, ◌<◌, ◌≡◌, refl, arith, min, size_t, ltb, ◌⊎◌, none}
use quickjs_rs.Base.{if◌then◌else◌, some, List, Bool, true, false, Option-cases, inl, inr}
use quickjs_rs.Base.{length, take, ◌∙◌, sym, ap, ltb→lt, if_cases}
use quickjs_rs.Base.Slices.{take-take}
use quickjs_rs.DynBuf.{DynBuf, grow, dbuf_realloc, dbuf_init, make_room}
use quickjs_rs.DynBuf.Memory.{Allocator}

pub record IsValid (s : DynBuf) : Type 0 where
  pub block : length s.buf ≡ s.allocated_size
  pub room : s.size ≤ s.allocated_size
  pub width : s.allocated_size < 2 ^ 64

-- What the buffer holds: the first `size` bytes of the block.
abbrev pub contents : DynBuf → List ℕ
contents s = take s.size s.buf

pub dbuf_init-IsValid : IsValid dbuf_init
unfolding dbuf_init
dbuf_init-IsValid = omega arith

-- The size of a larger block: half as large again, or more where `n` bytes want more.
abbrev pub larger_size : DynBuf → ℕ → ℕ
larger_size s n =
    if ltb n (size_t (s.allocated_size * 3) / 2) then size_t (s.allocated_size * 3) / 2 else n

-- When a growth to `n` bytes fails: the block has fewer, and either a call failed before, or the
-- allocator has no larger block.
abbrev pub Refused : {H : Type 0} → Allocator H → H → DynBuf → ℕ → Type 0
Refused alloc h s n =
    (s.allocated_size < n)
    × ((s.error ≡ true) ⊎ ((alloc.realloc h s.buf (larger_size s n)).1 ≡ none))

-- The result of a growth to `n` bytes: it fails if and only if it is refused, the contents stay,
-- and a failure is recorded in `error`.
pub record Grown {H : Type 0} (alloc : Allocator H) (h : H) (s : DynBuf) (n : ℕ)
    (r : H × DynBuf × Bool) : Type 0 where
  pub refused : r.2 ≡ false → Refused alloc h s n
  pub refuses : Refused alloc h s n → r.2 ≡ false
  pub valid : IsValid r.1
  pub same_size : r.1.size ≡ s.size
  pub same : contents r.1 ≡ contents s
  pub enough : r.2 ≡ true → n ≤ r.1.allocated_size
  pub failed : r.2 ≡ false → r.1.error ≡ true
  pub quiet : r.2 ≡ true → r.1.error ≡ s.error

unchanged :
    {H : Type 0} (alloc : Allocator H) (h : H) (s : DynBuf) (n : ℕ)
    → IsValid s
    → n ≤ s.allocated_size
    → Grown alloc h s n (h, s, true)
unchanged alloc h s n v le = record {
  refused = λ p. absurd (cc);
  refuses = λ w. absurd (let small : ⊥ = omega (arith, w.0) in small);
  valid = v;
  same_size = refl;
  same = refl;
  enough = λ p. le;
  failed = λ p. absurd (cc);
  quiet = λ p. refl;
}

module _ {H : Type 0} (alloc : Allocator H) where
  grow-Grown :
      (h : H) (s : DynBuf) (n : ℕ)
      → IsValid s
      → n < 2 ^ 64
      → s.allocated_size < n
      → s.error ≡ false
      → Grown alloc h s n (grow alloc h s n)
  unfolding grow
  grow-Grown h s n v fits larger good = elim (Option-cases (alloc.realloc h s.buf wanted).1) [
    | inl e ↦
        rw (e, grow)
          (record {
            valid = record { block = v.block; room = v.room; width = v.width };
            same_size = refl;
            same = refl;
            refused = λ p. (larger, inr e);
            refuses = λ w. refl;
            enough = λ p. absurd (cc);
            failed = λ p. refl;
            quiet = λ p. absurd (cc);
          })
    | inr (b, e) ↦
        rw (e, grow)
          (record {
            valid = record {
              block = alloc.size h s.buf wanted b e;
              room = omega (arith, v.room, wanted_ge);
              width = wanted_lt;
            };
            same_size = refl;
            same = kept b e;
            refused = λ p. absurd (cc);
            refuses = λ w. absurd (given b e w.1);
            enough = λ p. wanted_ge;
            failed = λ p. absurd (cc);
            quiet = λ p. refl;
          })
  ]
    where
      wanted : ℕ
      wanted = larger_size s n

      given :
          (b : List ℕ)
          → (alloc.realloc h s.buf wanted).1 ≡ some b
          → (s.error ≡ true) ⊎ ((alloc.realloc h s.buf wanted).1 ≡ none)
          → ⊥
      given b e (inl bad) = cc
      given b e (inr gone) = cc

      wanted_ge : n ≤ wanted
      wanted_ge = ground arith

      wanted_lt : wanted < 2 ^ 64
      wanted_lt = ground arith

      kept :
          (b : List ℕ)
          → (alloc.realloc h s.buf wanted).1 ≡ some b
          → take s.size b ≡ take s.size s.buf
      kept b e =
          let m = min (length s.buf) wanted in
          let le : s.size ≤ m = omega (arith, v.block, v.room, wanted_ge) in
          sym (take-take b s.size m le)
          ∙ ap (take s.size) (alloc.keeps h s.buf wanted b e)
          ∙ take-take s.buf s.size m le

  pub dbuf_realloc-Grown :
      (h : H) (s : DynBuf) (n : ℕ)
      → IsValid s
      → n < 2 ^ 64
      → Grown alloc h s n (dbuf_realloc alloc h s n)
  unfolding dbuf_realloc
  dbuf_realloc-Grown h s n v fits =
      if_cases (Grown alloc h s n) (ltb s.allocated_size n)
        (λ larger.
          if_cases (Grown alloc h s n) s.error
            (λ bad. record {
              refused = λ p. (ltb→lt _ _ larger, inl bad);
              refuses = λ w. refl;
              valid = v;
              same_size = refl;
              same = refl;
              enough = λ p. absurd (cc);
              failed = λ p. bad;
              quiet = λ p. refl;
            })
            (λ good. grow-Grown h s n v fits (ltb→lt _ _ larger) good))
        (λ small. unchanged alloc h s n v (ground arith))

  pub make_room-Grown :
      (h : H) (s : DynBuf) (len : ℕ)
      → IsValid s
      → s.size + len < 2 ^ 64
      → Grown alloc h s (s.size + len) (make_room alloc h s len)
  unfolding make_room
  make_room-Grown h s len v fits =
      let same : size_t (s.size + len) ≡ s.size + len = omega arith in
      rw same (
        if_cases (Grown alloc h s (s.size + len)) (ltb s.allocated_size (s.size + len))
          (λ larger. dbuf_realloc-Grown h s (s.size + len) v fits)
          (λ small. unchanged alloc h s (s.size + len) v (ground arith)))
