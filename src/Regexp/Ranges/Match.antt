-- ===== src/Regexp/Ranges/Match.antt =====
-- `REOP_range` and `REOP_range32` decide whether a code is in one of the intervals.
use quickjs_rs.Base.{
  ℕ, ◌+◌, ◌-◌, ◌^◌, ◌≤◌, ◌<◌, ◌≡◌, ◌≢◌, ◌⊎◌, inl, inr, refl, arith, Option, none, some, List, Bool,
  true, false, ltb, leb, ◌==◌, ◌&&◌, u32, Bool-cases, ltb→lt,
}
use quickjs_rs.Base.Partial.{◌>>=◌}
use quickjs_rs.Regexp.Search.{low16, high16, low32, high32, match_range, match_range32}
use quickjs_rs.Regexp.Ranges.Halving.{
  Decided, Intervals, probe_cases, below, beyond, search-Decided,
}

-- With 16 bits, 0xffff as the end of an interval is infinity.
abbrev pub Decided16 : ℕ → (ℕ → ℕ) → (ℕ → ℕ) → ℕ → Option Bool → Type 0
Decided16 n lo hi c none = ⊥
Decided16 n lo hi c (some true) = (i : ℕ) × (i < n) × (lo i ≤ c) × ((c ≤ hi i) ⊎ (hi i ≡ 0xffff))
Decided16 n lo hi c (some false) = (i : ℕ) → i < n → (c < lo i) ⊎ ((hi i < c) × (hi i ≢ 0xffff))

widened :
    (n : ℕ) (lo hi : ℕ → ℕ) (c : ℕ) (o : Option Bool)
    → c ≤ 0xffff
    → Decided n lo hi c o
    → Decided16 n lo hi c o
widened n lo hi c none h d = d
widened n lo hi c (some true) h d = (d.0, d.1, d.2, inl d.3)
widened n lo hi c (some false) h d =
    λ i i_n. elim (d i i_n) [ inl e ↦ inl e | inr e ↦ inr (e, omega arith) ]

one_test :
    (P : Option Bool → Type 0) (x : Bool) {over inside : Option Bool}
    → (x ≡ true → P over)
    → (x ≡ false → P inside)
    → P (elim x [ true ↦ over | false ↦ inside ])
one_test P true o s = o refl
one_test P false o s = s refl

both_top : (c h : ℕ) → ((leb 0xffff c) && (h == 0xffff)) ≡ true → (0xffff ≤ c) × (h ≡ 0xffff)
both_top c h e = ground arith

last_index : (n : ℕ) → 0 < n → n < 2 ^ 16 → u32 (n + 2 ^ 32 - 1) ≡ n - 1
last_index n p h = omega arith

module _ (bc : List ℕ) (pc n : ℕ) (lo hi : ℕ → ℕ) (sorted : Intervals n lo hi)
    (some_interval : 0 < n) (small : n < 2 ^ 16) (c : ℕ) where
  module _ (low_is : (i : ℕ) → i < n → low32 bc pc i ≡ some (lo i))
      (high_is : (i : ℕ) → i < n → high32 bc pc i ≡ some (hi i)) where
    pub match_range32-Decided : Decided n lo hi c (match_range32 bc pc n c)
    unfolding match_range32
    match_range32-Decided = elim (Bool-cases (ltb c (lo 0))) [
      | inl e ↦
          rw (low_is 0 some_interval, ◌>>=◌, e)
            (λ i i_n.
              inl (beyond n lo hi sorted c 0 some_interval (ltb→lt c _ e) i (omega arith) i_n))
      | inr e ↦
          rw
            (
              low_is 0 some_interval,
              ◌>>=◌,
              e,
              last_index n some_interval small,
              high_is (n - 1) (omega arith),
            )
            (one_test (Decided n lo hi c) (ltb (hi (n - 1)) c)
              (λ e2 i i_n.
                inr (below n lo hi sorted c (n - 1) (omega arith) (ltb→lt _ c e2) i (omega arith)))
              (λ e2. rw (last_index n some_interval small) (
                search-Decided n lo hi sorted small (low32 bc pc) (high32 bc pc) low_is high_is c
                  (ground arith) (n + 1) 0 (n - 1) (omega arith) (omega arith) (omega arith)
                  (λ i h. absurd (omega arith)) (λ i h i_n. absurd (omega arith)))))
    ]

  module _ (low_is : (i : ℕ) → i < n → low16 bc pc i ≡ some (lo i))
      (high_is : (i : ℕ) → i < n → high16 bc pc i ≡ some (hi i))
      (narrow : (i : ℕ) → i < n → hi i ≤ 0xffff) where
    -- Past the last interval, if that has an end.
    past :
        ((leb 0xffff c) && (hi (n - 1) == 0xffff)) ≡ false
        → hi (n - 1) < c
        → Decided16 n lo hi c (some false)
    past other h i i_n = inr (
      below n lo hi sorted c (n - 1) (omega arith) h i (omega arith),
      elim (Bool-cases (i == n - 1)) [
        | inl e ↦
            let same : i ≡ n - 1 = ground arith in
            rw (same) (let bounded = narrow (n - 1) (omega arith) in ground arith)
        | inr e ↦
            let before : i < n - 1 = ground arith in
            omega (
              arith,
              sorted.apart i (n - 1) before (omega arith),
              sorted.proper (n - 1) (omega arith),
              narrow (n - 1) (omega arith),
            )
      ],
    )

    at_top : ((leb 0xffff c) && (hi (n - 1) == 0xffff)) ≡ true → Decided16 n lo hi c (some true)
    at_top e =
        let (wide, top) = both_top c (hi (n - 1)) e in
        (n - 1, omega arith, omega (arith, wide, top, sorted.proper (n - 1) (omega arith)), inr top)

    below_last :
        ((leb 0xffff c) && (hi (n - 1) == 0xffff)) ≡ false → ltb (hi (n - 1)) c ≡ false → c ≤ 0xffff
    below_last other e = let bounded = narrow (n - 1) (omega arith) in ground arith

    pub match_range-Decided : Decided16 n lo hi c (match_range bc pc n c)
    unfolding match_range
    match_range-Decided = elim (Bool-cases (ltb c (lo 0))) [
      | inl e ↦
          rw (low_is 0 some_interval, ◌>>=◌, e)
            (λ i i_n.
              inl (beyond n lo hi sorted c 0 some_interval (ltb→lt c _ e) i (omega arith) i_n))
      | inr e ↦
          rw
            (
              low_is 0 some_interval,
              ◌>>=◌,
              e,
              last_index n some_interval small,
              high_is (n - 1) (omega arith),
            )
            (probe_cases (Decided16 n lo hi c) ((leb 0xffff c) && (hi (n - 1) == 0xffff))
              (ltb (hi (n - 1)) c) (λ e2. at_top e2) (λ e2 e3. past e2 (ltb→lt _ c e3))
              (λ e2 e3. widened n lo hi c _ (below_last e2 e3) (
                rw (last_index n some_interval small) (
                  search-Decided n lo hi sorted small (low16 bc pc) (high16 bc pc) low_is high_is c
                    (ground arith) (n + 1) 0 (n - 1) (omega arith) (omega arith) (omega arith)
                    (λ i h. absurd (omega arith)) (λ i h i_n. absurd (omega arith))))))
    ]
