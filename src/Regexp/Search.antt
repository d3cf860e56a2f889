-- ===== src/Regexp/Search.antt =====
-- The character classes of the bytecode: `REOP_range` (16-bit bounds) and `REOP_range32`.
use quickjs_rs.Base.{ℕ, zero, suc, ◌+◌, ◌-◌, ◌*◌, ◌/◌, ◌^◌, ltb, leb, ◌==◌, ◌&&◌}
use quickjs_rs.Base.{Option, some, List, Bool, true, false, u32}
use quickjs_rs.Base.Partial.{◌>>=◌}
use quickjs_rs.Regexp.Opcode.{get_u16, get_u32}

-- Reads of the bounds of an interval, by its index.
abbrev pub Bound : Type 0
Bound = ℕ → Option ℕ

-- The search by halves: `idx_min` and `idx_max` are `uint32_t`.
unfoldable pub search : ℕ → Bound → Bound → ℕ → ℕ → ℕ → Option Bool
search zero low high c idx_min idx_max = some false
search (suc fuel) low high c idx_min idx_max =
    let idx = u32 (idx_min + idx_max) / 2 in
    elim (leb idx_min idx_max) [
      | false ↦ some false
      | true ↦ do
        lo ← low idx
        hi ← high idx
        elim (ltb c lo) [
          | true ↦ search fuel low high c idx_min (u32 (idx + 2 ^ 32 - 1))
          | false ↦ elim (ltb hi c) [
            | true ↦ search fuel low high c (u32 (idx + 1)) idx_max
            | false ↦ some true
          ]
        ]
    ]

abbrev pub low16 : List ℕ → ℕ → Bound
low16 bc pc idx = get_u16 bc (pc + idx * 4)

abbrev pub high16 : List ℕ → ℕ → Bound
high16 bc pc idx = get_u16 bc (pc + idx * 4 + 2)

abbrev pub low32 : List ℕ → ℕ → Bound
low32 bc pc idx = get_u32 bc (pc + idx * 8)

abbrev pub high32 : List ℕ → ℕ → Bound
high32 bc pc idx = get_u32 bc (pc + idx * 8 + 4)

-- Whether `c` is in the class of `n` intervals at `pc`. The interval searched halves or better, so
-- `n` rounds and one are enough.
unfoldable pub match_range : List ℕ → ℕ → ℕ → ℕ → Option Bool
match_range bc pc n c = do
  low ← low16 bc pc 0
  elim (ltb c low) [
    | true ↦ some false
    | false ↦ do
      let last = u32 (n + 2 ^ 32 - 1)
      high ← high16 bc pc last
      elim (leb 0xffff c && high == 0xffff) [
        | true ↦ some true
        | false ↦ elim (ltb high c) [
          | true ↦ some false
          | false ↦ search (n + 1) (low16 bc pc) (high16 bc pc) c 0 last
        ]
      ]
  ]

unfoldable pub match_range32 : List ℕ → ℕ → ℕ → ℕ → Option Bool
match_range32 bc pc n c = do
  low ← low32 bc pc 0
  elim (ltb c low) [
    | true ↦ some false
    | false ↦ do
      let last = u32 (n + 2 ^ 32 - 1)
      high ← high32 bc pc last
      elim (ltb high c) [
        | true ↦ some false
        | false ↦ search (n + 1) (low32 bc pc) (high32 bc pc) c 0 last
      ]
  ]
