-- ===== src/UnicodeTable/Examples.antt =====
-- A small table: 32 runs of one code each, then ten codes out and five in, with an index of two entries.
use quickjs_rs.Base.{
  ℕ, zero, suc, ◌+◌, ◌-◌, ◌<◌, ◌≡◌, refl, arith, some, List, [], ◌∷◌, ◌++◌, replicate, drop, ◌>>>◌,
  ◌*◌, true, false, ltb, if◌then◌else◌,
}
use quickjs_rs.UnicodeTable.{
  lre_is_in_table, table_loop, get_index_pos, index_loop, block_of, get_le24, entry_code, form,
  test_runs, run_lengths,
}
use quickjs_rs.UnicodeTable.Index.{IsIndex, skip, lre_is_in_table-eq-table_loop}

abbrev table : List ℕ
table = replicate 32 0x80 ++ (0x89 ∷ 0x84 ∷ [])

abbrev index_table : List ℕ
index_table = 32 ∷ 0 ∷ 0 ∷ 47 ∷ 0 ∷ 0 ∷ []

abbrev entries : ℕ → ℕ
entries zero = 32
entries (suc i) = 47

runs :
    (lre_is_in_table 40 table index_table 2 ≡ some false)
    × (lre_is_in_table 44 table index_table 2 ≡ some true)
    × (lre_is_in_table 31 table index_table 2 ≡ some true)
    × (lre_is_in_table 47 table index_table 2 ≡ some false)
unfolding lre_is_in_table table_loop get_index_pos index_loop block_of get_le24 entry_code form
    test_runs run_lengths
runs = (refl, refl, refl, refl)

table-IsIndex : IsIndex table index_table 2 entries
unfolding get_le24 entry_code form run_lengths
table-IsIndex = record {
  several = omega arith;
  reads = reads;
  rounds = λ i. 32;
  reached = reached;
  ascending = omega arith;
}
  where
    reads : (i : ℕ) → i < 2 → get_le24 index_table (i * 3) ≡ some (entries i)
    reads zero h = refl
    reads (suc zero) h = refl
    reads (suc (suc i)) h = absurd (omega arith)

    reached :
        (i : ℕ)
        → i + 1 < 2
        → skip 32 table 0 false
          ≡ some (drop ((i + 1) * 32 + (entries i >>> 21)) table, entry_code (entries i), false)
    reached zero h = refl
    reached (suc i) h = absurd (omega arith)

lre_is_in_table-eq-table_loop_example :
    lre_is_in_table 44 table index_table 2
    ≡ (if ltb 44 (entries (2 - 1)) then table_loop 44 table 0 false else some false)
lre_is_in_table-eq-table_loop_example =
    lre_is_in_table-eq-table_loop table index_table 2 entries 44 table-IsIndex
