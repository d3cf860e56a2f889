-- ===== src/DynBuf/Insert.antt =====
-- `dbuf_insert` opens a gap, or fails where the growth is refused.
use quickjs_rs.Base.{ℕ, ◌+◌, ◌-◌, ◌^◌, ◌≤◌, ◌<◌, ◌≡◌, refl, arith, size_t}
use quickjs_rs.Base.{if◌then◌else◌, Option, some, List, ◌++◌, Bool, true, false}
use quickjs_rs.Base.{length, take, drop, ◌∙◌, sym, ap}
use quickjs_rs.Base.Slices.{take-take, drop-take, take-append_le, length-take_le, drop-append}
use quickjs_rs.DynBuf.{DynBuf, dbuf_realloc, move_tail, dbuf_insert}
use quickjs_rs.DynBuf.Memory.{Allocator, memcpy, memcpy_lem, memread, memread_lem}
use quickjs_rs.DynBuf.Invariant.{IsValid, contents, Refused, Grown, dbuf_realloc-Grown}

-- `len` bytes of any value between the first `pos` bytes and the others.
pub record Opened {H : Type 0} (alloc : Allocator H) (h : H) (s : DynBuf) (pos len : ℕ)
    (r : Option (H × DynBuf × Bool)) : Type 0 where
  pub result : H × DynBuf × Bool
  pub returns : r ≡ some result
  pub valid : IsValid result.1
  pub before : result.2 ≡ true → take pos (contents result.1) ≡ take pos (contents s)
  pub behind : result.2 ≡ true → drop (pos + len) (contents result.1) ≡ drop pos (contents s)
  pub counted : result.2 ≡ true → result.1.size ≡ s.size + len
  pub kept : result.2 ≡ false → contents result.1 ≡ contents s
  pub failed : result.2 ≡ false → result.1.error ≡ true
  pub uncounted : result.2 ≡ false → result.1.size ≡ s.size
  pub quiet : result.2 ≡ true → result.1.error ≡ s.error
  pub refused : result.2 ≡ false → Refused alloc h s (s.size + len)
  pub refuses : Refused alloc h s (s.size + len) → result.2 ≡ false

-- The contents after the gap, from the block that `memmove` leaves.
gap_before :
    (buf tail new : List ℕ) (pos len size : ℕ)
    → pos ≤ size
    → size + len ≤ length buf
    → take (size + len) new ≡ take (pos + len) buf ++ tail
    → take pos (take (size + len) new) ≡ take pos (take size buf)
gap_before buf tail new pos len size inside room start =
    ap (take pos) start
    ∙ take-append_le (take (pos + len) buf) tail pos
        (omega (arith, length-take_le (pos + len) buf (omega arith)))
    ∙ take-take buf pos (pos + len) (omega arith)
    ∙ sym (take-take buf pos size inside)

gap_behind :
    (buf new : List ℕ) (pos len size : ℕ)
    → pos ≤ size
    → size + len ≤ length buf
    → take (size + len) new ≡ take (pos + len) buf ++ take (size - pos) (drop pos buf)
    → drop (pos + len) (take (size + len) new) ≡ drop pos (take size buf)
gap_behind buf new pos len size inside room start =
    ap (drop (pos + len)) start
    ∙ drop-append (take (pos + len) buf) (take (size - pos) (drop pos buf)) (pos + len)
        (length-take_le (pos + len) buf (omega arith))
    ∙ sym (drop-take buf pos (size - pos) size (omega arith))

module _ {H : Type 0} (alloc : Allocator H) where
  move_tail-Opened :
      (h : H) (s : DynBuf) (pos len : ℕ)
      → IsValid s
      → pos ≤ s.size
      → s.size + len ≤ s.allocated_size
      → Opened alloc h s pos len
          (move_tail alloc h s pos len (memread s.buf pos (size_t (s.size + 2 ^ 64 - pos))))
  unfolding move_tail
  move_tail-Opened h s pos len v inside room =
      go (memcpy_lem s.buf (pos + len) tail (omega (arith, v.block, r.1)))
    where
      tail : List ℕ
      tail = take (s.size - pos) (drop pos s.buf)

      r : (memread s.buf pos (s.size - pos) ≡ some tail) × (length tail ≡ s.size - pos)
      r = memread_lem s.buf pos (s.size - pos) (omega (arith, v.block))

      count : size_t (s.size + 2 ^ 64 - pos) ≡ s.size - pos
      count = omega (arith, v.width)

      end : pos + len + length tail ≡ s.size + len
      end = omega (arith, r.1)

      go :
          (b : List ℕ) × (memcpy s.buf (pos + len) tail ≡ some b)
            × (length b ≡ length s.buf)
            × (take (pos + len + length tail) b ≡ take (pos + len) s.buf ++ tail)
            × (drop (pos + len + length tail) b ≡ drop (pos + len + length tail) s.buf)
          → Opened alloc h s pos len
              (move_tail alloc h s pos len (memread s.buf pos (size_t (s.size + 2 ^ 64 - pos))))
      go (b, written, same_length, start, _) =
          let start' : take (s.size + len) b ≡ take (pos + len) s.buf ++ tail =
            ap (λ n. take n b) (sym end) ∙ start in
          record {
            result = (h, record s { buf = b; size = s.size + len }, true);
            returns = rw (count, r.0, move_tail) (ground (arith, written, v.width));
            valid = record { block = same_length ∙ v.block; room = room; width = v.width };
            before = λ p. gap_before s.buf tail b pos len s.size inside (rw v.block room) start';
            behind = λ p. gap_behind s.buf b pos len s.size inside (rw v.block room) start';
            counted = λ p. refl;
            kept = λ p. absurd (cc);
            failed = λ p. absurd (cc);
            uncounted = λ p. absurd (cc);
            quiet = λ p. refl;
            refused = λ p. absurd (cc);
            refuses = λ w. absurd (let small : ⊥ = omega (arith, w.0) in small);
          }

  -- For `pos` in the contents of a valid buffer, with `size + len` in the range of `size_t`, `dbuf_insert` moves the
  -- bytes from `pos` on by `len`, within the block, and leaves those before `pos` and `error`; or it
  -- returns -1, leaves the contents and has `error` set. It returns -1 if and only if the block is
  -- too small and `error` was set before or the allocator has no larger block.
  pub dbuf_insert-Opened :
      (h : H) (s : DynBuf) (pos len : ℕ)
      → IsValid s
      → pos ≤ s.size
      → s.size + len < 2 ^ 64
      → Opened alloc h s pos len (dbuf_insert alloc h s pos len)
  unfolding dbuf_insert
  dbuf_insert-Opened h s pos len v inside fits = rw same (
      go (dbuf_realloc alloc h s (s.size + len))
        (dbuf_realloc-Grown alloc h s (s.size + len) v fits))
    where
      same : size_t (s.size + len) ≡ s.size + len
      same = omega arith

      go :
          (r : H × DynBuf × Bool)
          → Grown alloc h s (s.size + len) r
          → Opened alloc h s pos len (
              if r.2
              then move_tail alloc r.0 r.1 pos len
                  (memread r.1.buf pos (size_t (r.1.size + 2 ^ 64 - pos)))
              else some (r.0, r.1, false))
      go (h', s', true) g =
          let room : s'.size + len ≤ s'.allocated_size = rw g.same_size (g.enough refl) in
          let o = move_tail-Opened h' s' pos len g.valid (rw g.same_size inside) room in
          record {
            result = o.result;
            returns = o.returns;
            valid = o.valid;
            before = λ p. o.before p ∙ ap (take pos) g.same;
            behind = λ p. o.behind p ∙ ap (drop pos) g.same;
            counted = λ p. o.counted p ∙ ap (λ n. n + len) g.same_size;
            kept = λ p. o.kept p ∙ g.same;
            failed = o.failed;
            uncounted = λ p. o.uncounted p ∙ g.same_size;
            quiet = λ p. o.quiet p ∙ g.quiet refl;
            refused = λ p. absurd (let fits : ⊥ = omega (arith, (o.refused p).0, room) in fits);
            refuses = λ w. absurd (let contrary : true ≡ false = g.refuses w in cc);
          }
      go (h', s', false) g = record {
        result = (h', s', false);
        returns = refl;
        valid = g.valid;
        before = λ p. absurd (cc);
        behind = λ p. absurd (cc);
        counted = λ p. absurd (cc);
        kept = λ p. g.same;
        failed = λ p. g.failed refl;
        uncounted = λ p. g.same_size;
        quiet = λ p. absurd (cc);
        refused = λ p. g.refused refl;
        refuses = λ w. refl;
      }
