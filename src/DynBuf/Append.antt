-- ===== src/DynBuf/Append.antt =====
-- `dbuf_put` and `dbuf_put_self` append, or fail where the growth is refused.
use quickjs_rs.Base.{ℕ, ◌+◌, ◌-◌, ◌^◌, ◌≤◌, ◌<◌, ◌≡◌, refl, arith, size_t}
use quickjs_rs.Base.{if◌then◌else◌, Option, some, List, ◌++◌, Bool, true, false}
use quickjs_rs.Base.{length, take, drop, length-drop, ◌∙◌, sym, ap}
use quickjs_rs.Base.Slices.{take-take, drop-take, length-take_le}
use quickjs_rs.DynBuf.{DynBuf, make_room, store, put_copy, dbuf_put, dbuf_put_self}
use quickjs_rs.DynBuf.Memory.{Allocator, memcpy_lem, memread, memread_lem}
use quickjs_rs.DynBuf.Invariant.{IsValid, contents, Refused, Grown, make_room-Grown}

-- The result of an append: no access out of the block, the invariant, and either the bytes behind
-- the old contents, or, if and only if the growth is refused, the old contents and `error`.
pub record Appended {H : Type 0} (alloc : Allocator H) (h : H) (s : DynBuf) (bytes : List ℕ)
    (r : Option (H × DynBuf × Bool)) : Type 0 where
  pub result : H × DynBuf × Bool
  pub returns : r ≡ some result
  pub valid : IsValid result.1
  pub added : result.2 ≡ true → contents result.1 ≡ contents s ++ bytes
  pub counted : result.2 ≡ true → result.1.size ≡ s.size + length bytes
  pub quiet : result.2 ≡ true → result.1.error ≡ s.error
  pub kept : result.2 ≡ false → contents result.1 ≡ contents s
  pub uncounted : result.2 ≡ false → result.1.size ≡ s.size
  pub failed : result.2 ≡ false → result.1.error ≡ true
  pub refused : result.2 ≡ false → Refused alloc h s (s.size + length bytes)
  pub refuses : Refused alloc h s (s.size + length bytes) → result.2 ≡ false

module _ {H : Type 0} (alloc : Allocator H) where
  store-Appended :
      (h : H) (s : DynBuf) (bytes : List ℕ)
      → IsValid s
      → s.size + length bytes ≤ s.allocated_size
      → Appended alloc h s bytes (store alloc h s bytes)
  unfolding store
  store-Appended h s bytes v room =
      let m = memcpy_lem s.buf s.size bytes (rw v.block room) in
      let sum : size_t (s.size + length bytes) ≡ s.size + length bytes = omega (arith, v.width) in
      record {
        result = (h, record s { buf = m.0; size = s.size + length bytes }, true);
        returns = ground (arith, m.1, sum);
        valid = record { block = m.2 ∙ v.block; room = room; width = v.width };
        added = λ p. m.3;
        counted = λ p. refl;
        quiet = λ p. refl;
        kept = λ p. absurd (cc);
        uncounted = λ p. absurd (cc);
        failed = λ p. absurd (cc);
        refused = λ p. absurd (cc);
        refuses = λ w. absurd (let small : ⊥ = omega (arith, w.0) in small);
      }

  -- After a growth that kept the contents.
  store-Grown :
      (h h' : H) (s s' : DynBuf) (bytes : List ℕ)
      → Grown alloc h s (s.size + length bytes) (h', s', true)
      → Appended alloc h s bytes (store alloc h' s' bytes)
  store-Grown h h' s s' bytes g =
      let room : s'.size + length bytes ≤ s'.allocated_size = rw g.same_size (g.enough refl) in
      let a = store-Appended h' s' bytes g.valid room in
      record {
        result = a.result;
        returns = a.returns;
        valid = a.valid;
        added = λ p. a.added p ∙ ap (λ l. l ++ bytes) g.same;
        counted = λ p. a.counted p ∙ ap (λ n. n + length bytes) g.same_size;
        quiet = λ p. a.quiet p ∙ g.quiet refl;
        kept = λ p. a.kept p ∙ g.same;
        uncounted = λ p. a.uncounted p ∙ g.same_size;
        failed = a.failed;
        refused = λ p. absurd (let fits : ⊥ = omega (arith, (a.refused p).0, room) in fits);
        refuses = λ w. absurd (let contrary : true ≡ false = g.refuses w in cc);
      }

  not_stored :
      (h h' : H) (s s' : DynBuf) (n : ℕ) (bytes : List ℕ)
      → n ≡ s.size + length bytes
      → Grown alloc h s n (h', s', false)
      → Appended alloc h s bytes (some (h', s', false))
  not_stored h h' s s' n bytes e g = record {
    result = (h', s', false);
    returns = refl;
    valid = g.valid;
    added = λ p. absurd (cc);
    counted = λ p. absurd (cc);
    quiet = λ p. absurd (cc);
    kept = λ p. g.same;
    uncounted = λ p. g.same_size;
    failed = λ p. g.failed refl;
    refused = λ p. rw (sym e) (g.refused refl);
    refuses = λ w. refl;
  }

  -- On a valid buffer, with `size + len` in the range of `size_t`, `dbuf_put` touches nothing out of the block. It
  -- puts the bytes behind the contents and leaves `error` as it is; or it returns -1, leaves the
  -- contents and has `error` set. It returns -1 if and only if the block is too small and `error`
  -- was set before or the allocator has no block of the larger size, which is the size needed or
  -- half as much again as the old one.
  pub dbuf_put-Appended :
      (h : H) (s : DynBuf) (bytes : List ℕ)
      → IsValid s
      → s.size + length bytes < 2 ^ 64
      → Appended alloc h s bytes (dbuf_put alloc h s bytes)
  unfolding dbuf_put
  dbuf_put-Appended h s bytes v fits =
      go (make_room alloc h s (length bytes)) (make_room-Grown alloc h s (length bytes) v fits)
    where
      go :
          (r : H × DynBuf × Bool)
          → Grown alloc h s (s.size + length bytes) r
          → Appended alloc h s bytes
              (if r.2 then store alloc r.0 r.1 bytes else some (r.0, r.1, false))
      go (h', s', true) g = store-Grown h h' s s' bytes g
      go (h', s', false) g = not_stored h h' s s' _ bytes refl g

  -- For a part of the contents of a valid buffer, with `size + len` in the range of `size_t`, `dbuf_put_self` touches
  -- nothing out of the block. It puts a copy of the part behind the contents and leaves `error` as
  -- it is; or it returns -1, leaves the contents and has `error` set. It returns -1 if and only if
  -- the block is too small and `error` was set before or the allocator has no larger block.
  pub dbuf_put_self-Appended :
      (h : H) (s : DynBuf) (offset len : ℕ)
      → IsValid s
      → offset + len ≤ s.size
      → s.size + len < 2 ^ 64
      → Appended alloc h s
          (take len (drop offset (contents s)))
          (dbuf_put_self alloc h s offset len)
  unfolding dbuf_put_self put_copy
  dbuf_put_self-Appended h s offset len v inside fits =
      go (make_room alloc h s len) (make_room-Grown alloc h s len v fits)
    where
      part : List ℕ
      part = take len (drop offset (contents s))

      part_length : length part ≡ len
      part_length = length-take_le len (drop offset (contents s)) (
          omega (
            arith,
            length-drop offset (contents s),
            length-take_le s.size s.buf (rw v.block v.room),
          ))

      -- The bytes are read from the new block, within the contents that were kept.
      same_part :
          (b : List ℕ) (n : ℕ)
          → n ≡ s.size
          → take n b ≡ contents s
          → take len (drop offset b) ≡ part
      same_part b n e same =
          sym (
            ap (take len) (drop-take b offset (n - offset) n (omega arith))
            ∙ take-take (drop offset b) len (n - offset) (omega arith))
          ∙ ap (λ l. take len (drop offset l)) same

      go :
          (r : H × DynBuf × Bool)
          → Grown alloc h s (s.size + len) r
          → Appended alloc h s part (
              if r.2
              then put_copy alloc r.0 r.1 (memread r.1.buf offset len)
              else some (r.0, r.1, false))
      go (h', s', true) g =
          let read = memread_lem s'.buf offset len (rw g.valid.block (omega arith)) in
          rw (read.0, put_copy, same_part s'.buf s'.size g.same_size g.same)
            (store-Grown h h' s s' part (rw part_length g))
      go (h', s', false) g = not_stored h h' s s' _ part (rw part_length refl) g
