-- ===== src/UnicodeTable/Index.antt =====
-- The index of a table only saves time: the answer is that of the runs from the start of the table.
use quickjs_rs.Base.{
  ℕ, zero, suc, ◌+◌, ◌-◌, ◌*◌, ◌/◌, ◌^◌, ◌≤◌, ◌<◌, ◌≡◌, refl, sym, ap, ◌∙◌, inl, inr, arith, ltb,
  leb, ltb→lt, if◌then◌else◌, ◌>>>◌, u32, Option, none, some, List, [], ◌∷◌, drop, Bool, true,
  false, not, Bool-cases,
}
use quickjs_rs.Base.Partial.{◌>>=◌, bind_some}
use quickjs_rs.UnicodeTable.{
  get_le24, entry_code, index_loop, block_of, get_index_pos, Form, two_runs, one_byte, two_bytes,
  three_bytes, form, run_lengths, test_runs, table_loop, lre_is_in_table,
}

-- The lengths of the first runs of a table, and the bytes behind them.
abbrev from_form : Form → ℕ → List ℕ → Option (List ℕ × List ℕ)
from_form two_runs b p = some (run_lengths two_runs b 0 0, p)
from_form one_byte b p = some (run_lengths one_byte b 0 0, p)
from_form two_bytes b [] = none
from_form two_bytes b (p0 ∷ q) = some (run_lengths two_bytes b p0 0, q)
from_form three_bytes b [] = none
from_form three_bytes b (p0 ∷ []) = none
from_form three_bytes b (p0 ∷ p1 ∷ r) = some (run_lengths three_bytes b p0 p1, r)

abbrev pub next_runs : List ℕ → Option (List ℕ × List ℕ)
next_runs [] = none
next_runs (b ∷ p) = from_form (form b) b p

-- Past runs of these lengths, in 32 bits.
abbrev pub advance : List ℕ → ℕ → Bool → Option (ℕ × Bool)
advance [] code bit = some (code, bit)
advance (n ∷ ns) code bit =
    let rest = advance ns (code + n) (not bit) in if ltb (code + n) (2 ^ 32) then rest else none

-- Past the runs of `k` rounds.
abbrev pub skip : ℕ → List ℕ → ℕ → Bool → Option (List ℕ × ℕ × Bool)
skip zero table code bit = some (table, code, bit)
skip (suc k) table code bit =
    next_runs table >>= λ runs. advance runs.0 code bit >>= λ s. skip k runs.1 s.0 s.1

-- A round of the loop, by the form of its byte.
loop_last :
    (c : ℕ) (b : ℕ) (code : ℕ) (bit : Bool) (f : Form)
    → form b ≡ f
    → table_loop c (b ∷ []) code bit
      ≡ (next_runs (b ∷ []) >>= λ runs. test_runs c runs.0 (table_loop c runs.1) code bit)
unfolding table_loop run_lengths
loop_last c b code bit two_runs e = rw (e, table_loop) refl
loop_last c b code bit one_byte e = rw (e, table_loop) refl
loop_last c b code bit two_bytes e = rw (e, table_loop) refl
loop_last c b code bit three_bytes e = rw (e, table_loop) refl

loop_two :
    (c : ℕ) (b p0 : ℕ) (code : ℕ) (bit : Bool) (f : Form)
    → form b ≡ f
    → table_loop c (b ∷ p0 ∷ []) code bit
      ≡ (next_runs (b ∷ p0 ∷ []) >>= λ runs. test_runs c runs.0 (table_loop c runs.1) code bit)
unfolding table_loop run_lengths
loop_two c b p0 code bit two_runs e = rw (e, table_loop) refl
loop_two c b p0 code bit one_byte e = rw (e, table_loop) refl
loop_two c b p0 code bit two_bytes e = rw (e, table_loop) refl
loop_two c b p0 code bit three_bytes e = rw (e, table_loop) refl

loop_more :
    (c : ℕ) (b p0 p1 : ℕ) (r : List ℕ) (code : ℕ) (bit : Bool) (f : Form)
    → form b ≡ f
    → table_loop c (b ∷ p0 ∷ p1 ∷ r) code bit
      ≡ (next_runs (b ∷ p0 ∷ p1 ∷ r) >>= λ runs. test_runs c runs.0 (table_loop c runs.1) code bit)
unfolding table_loop run_lengths
loop_more c b p0 p1 r code bit two_runs e = rw (e, table_loop) refl
loop_more c b p0 p1 r code bit one_byte e = rw (e, table_loop) refl
loop_more c b p0 p1 r code bit two_bytes e = rw (e, table_loop) refl
loop_more c b p0 p1 r code bit three_bytes e = rw (e, table_loop) refl

loop-next_runs :
    (c : ℕ) (table : List ℕ) (code : ℕ) (bit : Bool)
    → table_loop c table code bit
      ≡ (next_runs table >>= λ runs. test_runs c runs.0 (table_loop c runs.1) code bit)
unfolding table_loop
loop-next_runs c [] code bit = refl
loop-next_runs c (b ∷ []) code bit = loop_last c b code bit (form b) refl
loop-next_runs c (b ∷ p0 ∷ []) code bit = loop_two c b p0 code bit (form b) refl
loop-next_runs c (b ∷ p0 ∷ p1 ∷ r) code bit = loop_more c b p0 p1 r code bit (form b) refl

advance-ge :
    (ns : List ℕ) (code : ℕ) (bit : Bool) (s : ℕ × Bool) → advance ns code bit ≡ some s → code ≤ s.0
advance-ge [] code bit s e = let same : code ≡ s.0 = cc in omega arith
advance-ge (n ∷ ns) code bit s e = elim (Bool-cases (ltb (code + n) (2 ^ 32))) [
  | inl fits ↦
      let rest : advance ns (code + n) (not bit) ≡ some s = rw (fits) at e in
      omega (arith, advance-ge ns (code + n) (not bit) s rest)
  | inr over ↦ let stuck : none ≡ some s = rw (over) at e in absurd (let never : ⊥ = cc in never)
]

-- A code behind the runs is in none of them.
tests-advance :
    (c : ℕ) (ns : List ℕ) (next : ℕ → Bool → Option Bool) (code : ℕ) (bit : Bool) (s : ℕ × Bool)
    → advance ns code bit ≡ some s
    → s.0 ≤ c
    → test_runs c ns next code bit ≡ next s.0 s.1
unfolding test_runs
tests-advance c [] next code bit s e h = ap (λ o. elim o [ none ↦ none | some s ↦ next s.0 s.1 ]) e
tests-advance c (n ∷ ns) next code bit s e h = elim (Bool-cases (ltb (code + n) (2 ^ 32))) [
  | inl fits ↦
      let rest : advance ns (code + n) (not bit) ≡ some s = rw (fits) at e in
      let small : code + n < 2 ^ 32 = ltb→lt _ _ fits in
      let exact : u32 (code + n) ≡ code + n = omega arith in
      let behind : ltb c (code + n) ≡ false =
        (let ge = advance-ge ns (code + n) (not bit) s rest in ground arith) in
      rw (exact, test_runs, behind) (tests-advance c ns next (code + n) (not bit) s rest h)
  | inr over ↦ let stuck : none ≡ some s = rw (over) at e in absurd (let never : ⊥ = cc in never)
]

bind_inv :
    {A B : Type 0} (o : Option A) (f : A → Option B) (b : B)
    → (o >>= f) ≡ some b
    → (a : A) × (o ≡ some a) × (f a ≡ some b)
bind_inv none f b e = absurd (let never : ⊥ = cc in never)
bind_inv (some a) f b e = (a, refl, e)

-- The parts of a round that is skipped.
skip_round :
    (k : ℕ) (table : List ℕ) (code : ℕ) (bit : Bool) (last : List ℕ × ℕ × Bool)
    → skip (suc k) table code bit ≡ some last
    → (runs : List ℕ × List ℕ) × (s : ℕ × Bool) × (next_runs table ≡ some runs)
      × (advance runs.0 code bit ≡ some s)
      × (skip k runs.1 s.0 s.1 ≡ some last)
skip_round k table code bit last e =
    let (runs, e1, rest) = bind_inv (next_runs table) _ last e in
    let (s, e2, e3) = bind_inv (advance runs.0 code bit) _ last rest in (runs, s, e1, e2, e3)

skip-ge :
    (k : ℕ) (table : List ℕ) (code : ℕ) (bit : Bool) (last : List ℕ × ℕ × Bool)
    → skip k table code bit ≡ some last
    → code ≤ last.1
skip-ge zero table code bit last e =
    let same : code ≡ last.1 = ap (λ o. elim o [ none ↦ code | some s ↦ s.1 ]) e in omega arith
skip-ge (suc k) table code bit last e =
    let (runs, s, e1, e2, e3) = skip_round k table code bit last e in
    omega (arith, advance-ge runs.0 code bit s e2, skip-ge k runs.1 s.0 s.1 last e3)

-- Rounds up to a code that is not above `c` change nothing.
skip-loop :
    (c k : ℕ) (table : List ℕ) (code : ℕ) (bit : Bool) (last : List ℕ × ℕ × Bool)
    → skip k table code bit ≡ some last
    → last.1 ≤ c
    → table_loop c table code bit ≡ table_loop c last.0 last.1 last.2
skip-loop c zero table code bit last e h =
    ap (λ o. elim o [ none ↦ table_loop c table code bit | some s ↦ table_loop c s.0 s.1 s.2 ]) e
skip-loop c (suc k) table code bit last e h =
    let (runs, s, e1, e2, e3) = skip_round k table code bit last e in
    loop-next_runs c table code bit
    ∙ bind_some (next_runs table) runs _ e1
    ∙ tests-advance c runs.0 (table_loop c runs.1) code bit s e2
        (omega (arith, skip-ge k runs.1 s.0 s.1 last e3))
    ∙ skip-loop c k runs.1 s.0 s.1 last e3 h

-- An index that goes with its table: each entry but the last has the place and the code that the
-- runs come to after some rounds, where the bit is 0.
pub record IsIndex (table index_table : List ℕ) (n : ℕ) (entry : ℕ → ℕ) : Type 0 where
  pub several : 2 ≤ n
  pub reads : (i : ℕ) → i < n → get_le24 index_table (i * 3) ≡ some (entry i)
  pub rounds : ℕ → ℕ
  pub reached :
      (i : ℕ)
      → i + 1 < n
      → skip (rounds i) table 0 false
        ≡ some (drop ((i + 1) * 32 + (entry i >>> 21)) table, entry_code (entry i), false)
  pub ascending : entry_code (entry 0) ≤ entry (n - 1)

module _ (table index_table : List ℕ) (n : ℕ) (entry : ℕ → ℕ)
    (x : IsIndex table index_table n entry) (c : ℕ) where
  -- Any entry whose code is not above `c` would do.
  abbrev IsBlock : Option ℕ → Type 0
  IsBlock none = ⊥
  IsBlock (some i) = (i + 1 < n) × (entry_code (entry i) ≤ c)

  index_loop-IsBlock :
      (fuel a b : ℕ)
      → entry_code (entry a) ≤ c
      → a < b
      → b < n
      → b < fuel + a
      → IsBlock (index_loop fuel index_table c a b)
  unfolding index_loop
  index_loop-IsBlock zero a b h ab bn enough = absurd (omega arith)
  index_loop-IsBlock (suc left) a b h ab bn enough = elim (Bool-cases (ltb 1 (b - a))) [
    | inr e ↦ rw (e, index_loop) (omega arith, h)
    | inl e ↦
        let wide : 1 < b - a = ltb→lt _ _ e in
        elim (Bool-cases (ltb c (entry_code (entry ((b + a) / 2))))) [
          | inl under ↦
              rw (e, index_loop, x.reads ((b + a) / 2) (omega arith), ◌>>=◌, under)
                (index_loop-IsBlock left a ((b + a) / 2) h (omega arith) (omega arith)
                  (omega arith))
          | inr over ↦
              rw (e, index_loop, x.reads ((b + a) / 2) (omega arith), ◌>>=◌, over)
                (index_loop-IsBlock left ((b + a) / 2) b (ground arith) (omega arith) bn
                  (omega arith))
        ]
  ]

  -- From the block that is found, as from the start.
  from_block :
      (o : Option ℕ)
      → IsBlock o
      → (o >>= λ idx. block_of index_table idx >>= λ block. some (some block)) >>= (λ found.
          elim found [
            | none ↦ some false
            | some block ↦ table_loop c (drop block.0 table) block.1 false
          ])
        ≡ table_loop c table 0 false
  unfolding block_of
  from_block none h = absurd h
  from_block (some i) h =
      rw (x.reads i (omega (arith, h.0)), ◌>>=◌)
        (sym (skip-loop c (x.rounds i) table 0 false _ (x.reached i h.0) h.1))

  is_in_table_eq :
      lre_is_in_table c table index_table n
      ≡ (if ltb c (entry (n - 1)) then table_loop c table 0 false else some false)
  unfolding lre_is_in_table get_index_pos
  is_in_table_eq = elim (Bool-cases (ltb c (entry_code (entry 0)))) [
    | inl e ↦
        let below : ltb c (entry (n - 1)) ≡ true = (let up = x.ascending in ground arith) in
        rw (x.reads 0 (omega (arith, x.several)), ◌>>=◌, e, below) refl
    | inr e ↦ elim (Bool-cases (leb (entry (n - 1)) c)) [
      | inl past ↦
          let above : ltb c (entry (n - 1)) ≡ false = ground arith in
          rw
            (
              x.reads 0 (omega (arith, x.several)),
              ◌>>=◌,
              e,
              x.reads (n - 1) (omega (arith, x.several)),
              past,
              above,
            )
            refl
      | inr inside ↦
          let below : ltb c (entry (n - 1)) ≡ true = ground arith in
          rw
            (
              x.reads 0 (omega (arith, x.several)),
              ◌>>=◌,
              e,
              x.reads (n - 1) (omega (arith, x.several)),
              inside,
              below,
            )
            (from_block (index_loop n index_table c 0 (n - 1)) (
              index_loop-IsBlock n 0 (n - 1) (ground arith) (omega (arith, x.several))
                (omega (arith, x.several)) (omega (arith, x.several))))
    ]
  ]

-- With an index that goes with the table, `lre_is_in_table` answers as its loop does from the start of
-- the table, and it answers no from the last entry of the index on.
pub lre_is_in_table-eq-table_loop :
    (table index_table : List ℕ) (n : ℕ) (entry : ℕ → ℕ) (c : ℕ)
    → IsIndex table index_table n entry
    → lre_is_in_table c table index_table n
      ≡ (if ltb c (entry (n - 1)) then table_loop c table 0 false else some false)
lre_is_in_table-eq-table_loop table index_table n entry c x =
    is_in_table_eq table index_table n entry x c
