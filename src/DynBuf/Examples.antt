-- ===== src/DynBuf/Examples.antt =====
-- An allocator that never fails, one that always does, and the theorems at runs with them.
use quickjs_rs.Base.{ℕ, ◌-◌, ◌≡◌, min, refl, arith, List, [], ◌∷◌, ◌++◌, length, take}
use quickjs_rs.Base.{
  replicate, length-append, length-take, length-replicate, some, none, true, false, ap, ◌∙◌, sym,
}
use quickjs_rs.Base.Slices.{take-append_le, take-take}
use quickjs_rs.DynBuf.{
  DynBuf, dbuf_put, dbuf_put_self, dbuf_insert, dbuf_realloc, make_room, store, grow, move_tail,
}
use quickjs_rs.DynBuf.Memory.{Allocator, memcpy, memread}
use quickjs_rs.DynBuf.Invariant.{IsValid}
use quickjs_rs.DynBuf.Append.{Appended, dbuf_put-Appended, dbuf_put_self-Appended}
use quickjs_rs.DynBuf.Run.{Joined, puts, puts-Joined}
use quickjs_rs.DynBuf.Insert.{Opened, dbuf_insert-Opened}

abbrev resized : List ℕ → ℕ → List ℕ
resized old n = take n old ++ replicate (n - length old) 0

pub resized_size :
    (old : List ℕ) (n : ℕ) (new : List ℕ) → some (resized old n) ≡ some new → length new ≡ n
resized_size old n new e =
    let same : resized old n ≡ new = cc in
    ap length (sym same)
    ∙ omega (
      arith,
      length-append (take n old) (replicate (n - length old) 0),
      length-take n old,
      length-replicate {A = ℕ} (n - length old) 0,
    )

pub resized_keeps :
    (old : List ℕ) (n : ℕ) (new : List ℕ)
    → some (resized old n) ≡ some new
    → take (min (length old) n) new ≡ take (min (length old) n) old
resized_keeps old n new e =
    let same : resized old n ≡ new = cc in
    let m = min (length old) n in
    ap (take m) (sym same)
    ∙ take-append_le (take n old) (replicate (n - length old) 0) m
        (omega (arith, length-take n old))
    ∙ take-take old m n (omega arith)

abbrev pub generous : Allocator (Unit {0})
generous = record {
  realloc = λ h old n. (tt, some (resized old n));
  size = λ h old n new e. resized_size old n new e;
  keeps = λ h old n new e. resized_keeps old n new e;
}

no_block : (new : List ℕ) → none ≡ some new → ⊥
no_block new e = cc

abbrev exhausted : Allocator (Unit {0})
exhausted = record {
  realloc = λ h old n. (tt, none);
  size = λ h old n new e. absurd (no_block new e);
  keeps = λ h old n new e. absurd (no_block new e);
}

-- Four bytes in a block of five.
abbrev pub some_bytes : DynBuf
some_bytes = record { buf = 1 ∷ 2 ∷ 3 ∷ 4 ∷ 0 ∷ []; size = 4; allocated_size = 5; error = false }

pub some_bytes-IsValid : IsValid some_bytes
some_bytes-IsValid = omega arith

-- The growth goes to 5 * 3 / 2 bytes; a refused one sets `error` and keeps the rest.
put_runs :
    (dbuf_put generous tt some_bytes (5 ∷ 6 ∷ [])
      ≡ some (
        tt,
        record {
          buf = 1 ∷ 2 ∷ 3 ∷ 4 ∷ 5 ∷ 6 ∷ 0 ∷ [];
          size = 6;
          allocated_size = 7;
          error = false;
        },
        true,
      ))
    × (dbuf_put exhausted tt some_bytes (5 ∷ 6 ∷ [])
        ≡ some (tt, record some_bytes { error = true }, false))
unfolding dbuf_put make_room dbuf_realloc grow store memcpy
put_runs = (refl, refl)

insert_run :
    dbuf_insert generous tt some_bytes 1 1
    ≡ some (
      tt,
      record { buf = 1 ∷ 2 ∷ 2 ∷ 3 ∷ 4 ∷ []; size = 5; allocated_size = 5; error = false },
      true,
    )
unfolding dbuf_insert dbuf_realloc move_tail memcpy memread
insert_run = refl

dbuf_put-Appended_example :
    Appended generous tt some_bytes (5 ∷ 6 ∷ []) (dbuf_put generous tt some_bytes (5 ∷ 6 ∷ []))
dbuf_put-Appended_example =
    dbuf_put-Appended generous tt some_bytes (5 ∷ 6 ∷ []) some_bytes-IsValid (omega arith)

dbuf_put_self-Appended_example :
    Appended generous tt some_bytes (2 ∷ 3 ∷ []) (dbuf_put_self generous tt some_bytes 1 2)
dbuf_put_self-Appended_example =
    dbuf_put_self-Appended generous tt some_bytes 1 2 some_bytes-IsValid (omega arith) (omega arith)

puts-Joined_example :
    Joined some_bytes (5 ∷ 6 ∷ 7 ∷ []) (puts generous tt some_bytes ((5 ∷ 6 ∷ []) ∷ (7 ∷ []) ∷ []))
puts-Joined_example =
    puts-Joined generous tt some_bytes ((5 ∷ 6 ∷ []) ∷ (7 ∷ []) ∷ []) some_bytes-IsValid
      (omega arith)

dbuf_insert-Opened_example :
    Opened generous tt some_bytes 1 2 (dbuf_insert generous tt some_bytes 1 2)
dbuf_insert-Opened_example =
    dbuf_insert-Opened generous tt some_bytes 1 2 some_bytes-IsValid (omega arith) (omega arith)
