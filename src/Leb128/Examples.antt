-- ===== src/Leb128/Examples.antt =====
-- The coding of some words, and the theorems at a buffer with three bytes.
use quickjs_rs.Base.{◌≡◌, refl, arith, [], ◌∷◌, some, none}
use quickjs_rs.DynBuf.Examples.{generous, some_bytes, some_bytes-IsValid}
use quickjs_rs.Leb128.{dbuf_put_leb128, dbuf_put_sleb128, get_leb128, get_sleb128, zigzag, negated}
use quickjs_rs.Leb128.Encode.{leb_bytes}
use quickjs_rs.Leb128.RoundTrip.{Written, dbuf_put_leb128-Written, dbuf_put_sleb128-Written}

coded :
    (leb_bytes 5 624485 ≡ 0xe5 ∷ 0x8e ∷ 0x26 ∷ [])
    × (get_leb128 (0xe5 ∷ 0x8e ∷ 0x26 ∷ 7 ∷ []) ≡ some (624485, 7 ∷ []))
    × (get_leb128 (0x80 ∷ 0x80 ∷ []) ≡ none)
    × (zigzag 4294967295 ≡ 1)
unfolding leb_bytes get_leb128 zigzag negated
coded = (refl, refl, refl, refl)

dbuf_put_leb128-Written_example :
    Written get_leb128 some_bytes 624485 (dbuf_put_leb128 generous tt some_bytes 624485)
dbuf_put_leb128-Written_example =
    dbuf_put_leb128-Written generous tt some_bytes 624485 some_bytes-IsValid (omega arith)
      (omega arith)

dbuf_put_sleb128-Written_example :
    Written get_sleb128 some_bytes 4294967295 (dbuf_put_sleb128 generous tt some_bytes 4294967295)
dbuf_put_sleb128-Written_example =
    dbuf_put_sleb128-Written generous tt some_bytes 4294967295 some_bytes-IsValid (omega arith)
      (omega arith)
