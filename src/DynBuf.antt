-- ===== src/DynBuf.antt =====
-- The growing byte buffers of libquickjs-sys/embed/quickjs/cutils.c (`DynBuf`), with the two
-- words of cutils.h and `dbuf_insert` of libregexp.c. The allocator is a parameter: `realloc`
-- takes the state of the memory, the old block and the size wanted.
pub mod Memory
pub mod Invariant
pub mod Append
pub mod Run
pub mod Insert
pub mod Examples
use quickjs_rs.Base.{
  ℕ, zero, suc, ◌+◌, ◌-◌, ◌*◌, ◌/◌, ◌%◌, ◌^◌, ◌≤◌, ◌≡◌, size_t, min, ltb, leb, u8,
}
use quickjs_rs.Base.{if◌then◌else◌, Option, none, some, List, [], ◌∷◌, ◌++◌, Bool, true, false}
use quickjs_rs.Base.{length, take, drop, ◌>>>◌}
use quickjs_rs.DynBuf.Memory.{memcpy, memread, Allocator}

-- `DynBuf`. A null `buf` is the empty block; `realloc_func` and `opaque` are the allocator.
pub record DynBuf : Type 0 where
  pub buf : List ℕ
  pub size : ℕ
  pub allocated_size : ℕ
  pub error : Bool

-- `dbuf_init2`
pub dbuf_init : DynBuf
dbuf_init = record { buf = []; size = 0; allocated_size = 0; error = false }

-- The bytes of a word in the memory of a little-endian machine, `n` of them.
unfoldable pub le_bytes : ℕ → ℕ → List ℕ
le_bytes zero v = []
le_bytes (suc n) v = u8 v ∷ le_bytes n (v >>> 8)

module _ {H : Type 0} (alloc : Allocator H) where
  -- What an operation leaves: the heap, the buffer, and whether it returned 0.
  abbrev pub Done : Type 0
  Done = H × DynBuf × Bool

  -- `dbuf_realloc` past its two tests.
  unfoldable pub grow : H → DynBuf → ℕ → Done
  grow h s new_size =
      let size = size_t (s.allocated_size * 3) / 2 in
      let wanted = if ltb new_size size then size else new_size in
      let (h', block) = alloc.realloc h s.buf wanted in
      elim block [
        | none ↦ (h', record s { error = true }, false)
        | some b ↦ (h', record s { buf = b; allocated_size = wanted }, true)
      ]

  unfoldable pub dbuf_realloc : H → DynBuf → ℕ → Done
  dbuf_realloc h s new_size =
      if ltb s.allocated_size new_size
      then (if s.error then (h, s, false) else grow h s new_size)
      else (h, s, true)

  -- `memcpy(s->buf + s->size, bytes, len); s->size += len; return 0`; `none` is a write out of
  -- the block.
  unfoldable pub store : H → DynBuf → List ℕ → Option Done
  store h s bytes = elim (memcpy s.buf s.size bytes) [
    | none ↦ none
    | some b ↦ some (h, record s { buf = b; size = size_t (s.size + length bytes) }, true)
  ]

  -- The growth that `dbuf_put` and `dbuf_put_self` ask for only where it is needed.
  unfoldable pub make_room : H → DynBuf → ℕ → Done
  make_room h s len =
      if ltb s.allocated_size (size_t (s.size + len))
      then dbuf_realloc h s (size_t (s.size + len))
      else (h, s, true)

  unfoldable pub dbuf_put : H → DynBuf → List ℕ → Option Done
  dbuf_put h s bytes =
      let (h', s', room) = make_room h s (length bytes) in
      if room then store h' s' bytes else some (h', s', false)

  -- The bytes are read from the buffer as it is after the growth.
  pub put_copy : H → DynBuf → Option (List ℕ) → Option Done
  put_copy h s none = none
  put_copy h s (some bytes) = store h s bytes

  pub dbuf_put_self : H → DynBuf → ℕ → ℕ → Option Done
  dbuf_put_self h s offset len =
      let (h', s', room) = make_room h s len in
      if room then put_copy h' s' (memread s'.buf offset len) else some (h', s', false)

  unfoldable pub dbuf_putc : H → DynBuf → ℕ → Option Done
  dbuf_putc h s c = dbuf_put h s (u8 c ∷ [])

  -- `str` is the text before its terminating zero.
  pub dbuf_putstr : H → DynBuf → List ℕ → Option Done
  dbuf_putstr h s str = dbuf_put h s str

  unfoldable pub dbuf_put_u16 : H → DynBuf → ℕ → Option Done
  dbuf_put_u16 h s val = dbuf_put h s (le_bytes 2 val)

  unfoldable pub dbuf_put_u32 : H → DynBuf → ℕ → Option Done
  dbuf_put_u32 h s val = dbuf_put h s (le_bytes 4 val)

  pub dbuf_put_u64 : H → DynBuf → ℕ → Option Done
  dbuf_put_u64 h s val = dbuf_put h s (le_bytes 8 val)

  pub write_at : H → DynBuf → ℕ → List ℕ → ℕ → Option Done
  write_at h s offset bytes end = elim (memcpy s.buf offset bytes) [
    | none ↦ none
    | some b ↦ some (h, record s { buf = b; size = if ltb s.size end then end else s.size }, true)
  ]

  pub dbuf_write : H → DynBuf → ℕ → List ℕ → Option Done
  dbuf_write h s offset bytes =
      let end = size_t (offset + length bytes) in
      let (h', s', room) = dbuf_realloc h s end in
      if room then write_at h' s' offset bytes end else some (h', s', false)

  -- `memmove` of the tail, from `pos` to `pos + len`.
  pub move_tail : H → DynBuf → ℕ → ℕ → Option (List ℕ) → Option Done
  move_tail h s pos len none = none
  move_tail h s pos len (some tail) = elim (memcpy s.buf (pos + len) tail) [
    | none ↦ none
    | some b ↦ some (h, record s { buf = b; size = size_t (s.size + len) }, true)
  ]

  pub dbuf_insert : H → DynBuf → ℕ → ℕ → Option Done
  dbuf_insert h s pos len =
      let (h', s', room) = dbuf_realloc h s (size_t (s.size + len)) in
      if room
      then move_tail h' s' pos len (memread s'.buf pos (size_t (s'.size + 2 ^ 64 - pos)))
      else some (h', s', false)

  pub dbuf_free : H → DynBuf → H × DynBuf
  unfolding dbuf_init
  dbuf_free h s = elim s.buf [ [] ↦ (h, dbuf_init) | _ ↦ ((alloc.realloc h s.buf 0).0, dbuf_init) ]

pub dbuf_set_error : DynBuf → DynBuf
dbuf_set_error s = record s { error = true }
