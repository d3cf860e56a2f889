-- ===== src/UnicodeTable.antt =====
-- The property tables of libunicode.c (libquickjs-sys/embed/quickjs): `lre_is_in_table` and the index
-- that it starts from. The tables are generated and are arguments; `none` is a read out of one.
pub mod Index
pub mod Examples
use quickjs_rs.Base.{
  ℕ, zero, suc, ◌+◌, ◌-◌, ◌*◌, ◌/◌, ◌^◌, ltb, leb, if◌then◌else◌, ◌<<<◌, ◌>>>◌, bit_and, bit_or,
  u32, Option, none, some, List, [], ◌∷◌, length, get_elem?, drop, Bool, true, false, not,
}
use quickjs_rs.Base.Partial.{◌>>=◌}

unfoldable pub get_le24 : List ℕ → ℕ → Option ℕ
get_le24 tab ptr = do
  b0 ← get_elem? tab ptr
  b1 ← get_elem? tab (ptr + 1)
  b2 ← get_elem? tab (ptr + 2)
  some (bit_or (bit_or b0 (b1 <<< 8)) (b2 <<< 16))

-- `v & ((1 << 21) - 1)`
unfoldable pub entry_code : ℕ → ℕ
entry_code v = bit_and v (2 ^ 21 - 1)

-- The `while` loop of `get_index_pos`, which comes to `idx_min`.
unfoldable pub index_loop : ℕ → List ℕ → ℕ → ℕ → ℕ → Option ℕ
unfolding get_le24 entry_code
index_loop zero index_table c idx_min idx_max = none
index_loop (suc left) index_table c idx_min idx_max = elim (ltb 1 (idx_max - idx_min)) [
  | false ↦ some idx_min
  | true ↦ get_le24 index_table ((idx_max + idx_min) / 2 * 3) >>= λ v. elim (ltb c (entry_code v)) [
    | true ↦ index_loop left index_table c idx_min ((idx_max + idx_min) / 2)
    | false ↦ index_loop left index_table c ((idx_max + idx_min) / 2) idx_max
  ]
]

-- The position and the code of an entry that was found.
unfoldable pub block_of : List ℕ → ℕ → Option (ℕ × ℕ)
unfolding get_le24 entry_code
block_of index_table idx =
    get_le24 index_table (idx * 3) >>= λ v. some ((idx + 1) * 32 + (v >>> 21), entry_code v)

-- `get_index_pos`: `some none` is -1, else the position and `*pcode`.
unfoldable pub get_index_pos : ℕ → List ℕ → ℕ → Option (Option (ℕ × ℕ))
unfolding get_le24 entry_code index_loop block_of
get_index_pos c index_table index_table_len = do
  v ← get_le24 index_table 0
  elim (ltb c (entry_code v)) [
    | true ↦ some (some (0, 0))
    | false ↦ do
      code ← get_le24 index_table ((index_table_len - 1) * 3)
      elim (leb code c) [
        | true ↦ some none
        | false ↦ do
          idx ← index_loop index_table_len index_table c 0 (index_table_len - 1)
          block ← block_of index_table idx
          some (some block)
      ]
  ]

-- The four forms of a byte that starts a run, as the tests tell them apart.
pub data Form : Type 0 where
  two_runs one_byte two_bytes three_bytes : Form

unfoldable pub form : ℕ → Form
form b =
    if ltb b 64
    then two_runs
    else if leb 0x80 b
    then one_byte
    else if ltb b 0x60
    then two_bytes
    else three_bytes

-- `code += n; if (c < code) return bit; bit ^= 1` for each length, and then the next round.
unfoldable pub test_runs : ℕ → List ℕ → (ℕ → Bool → Option Bool) → ℕ → Bool → Option Bool
test_runs c [] next code bit = next code bit
test_runs c (n ∷ ns) next code bit =
    if ltb c (u32 (code + n)) then some bit else test_runs c ns next (u32 (code + n)) (not bit)

-- The lengths of the runs that a byte stands for, with the bytes behind it, if there are so many.
unfoldable pub run_lengths : Form → ℕ → ℕ → ℕ → List ℕ
run_lengths two_runs b p0 p1 = ((b >>> 3) + 1) ∷ (bit_and b 7 + 1) ∷ []
run_lengths one_byte b p0 p1 = (b - 0x80 + 1) ∷ []
run_lengths two_bytes b p0 p1 = (bit_or ((b - 0x40) <<< 8) p0 + 1) ∷ []
run_lengths three_bytes b p0 p1 = (bit_or (bit_or ((b - 0x60) <<< 16) (p0 <<< 8)) p1 + 1) ∷ []

-- The loop of `lre_is_in_table`, on the bytes from `p` on.
unfoldable pub table_loop : ℕ → List ℕ → ℕ → Bool → Option Bool
unfolding form test_runs run_lengths
table_loop c [] code bit = none
table_loop c (b ∷ []) code bit = elim (form b) [
  | two_runs ↦ test_runs c (run_lengths two_runs b 0 0) (table_loop c []) code bit
  | one_byte ↦ test_runs c (run_lengths one_byte b 0 0) (table_loop c []) code bit
  | two_bytes ↦ none
  | three_bytes ↦ none
]
table_loop c (b ∷ p0 ∷ []) code bit = elim (form b) [
  | two_runs ↦ test_runs c (run_lengths two_runs b p0 0) (table_loop c (p0 ∷ [])) code bit
  | one_byte ↦ test_runs c (run_lengths one_byte b p0 0) (table_loop c (p0 ∷ [])) code bit
  | two_bytes ↦ test_runs c (run_lengths two_bytes b p0 0) (table_loop c []) code bit
  | three_bytes ↦ none
]
table_loop c (b ∷ p0 ∷ p1 ∷ r) code bit = elim (form b) [
  | two_runs ↦ test_runs c (run_lengths two_runs b p0 p1) (table_loop c (p0 ∷ p1 ∷ r)) code bit
  | one_byte ↦ test_runs c (run_lengths one_byte b p0 p1) (table_loop c (p0 ∷ p1 ∷ r)) code bit
  | two_bytes ↦ test_runs c (run_lengths two_bytes b p0 p1) (table_loop c (p1 ∷ r)) code bit
  | three_bytes ↦ test_runs c (run_lengths three_bytes b p0 p1) (table_loop c r) code bit
]

unfoldable pub lre_is_in_table : ℕ → List ℕ → List ℕ → ℕ → Option Bool
unfolding get_index_pos table_loop
lre_is_in_table c table index_table index_table_len =
    get_index_pos c index_table index_table_len >>= λ found. elim found [
      | none ↦ some false
      | some block ↦ table_loop c (drop block.0 table) block.1 false
    ]
