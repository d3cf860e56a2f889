-- ===== src/CharRange/Compress.antt =====
-- The loops of `cr_compress` work in place; they compute `squeeze`.
use quickjs_rs.Base.{ℕ, zero, suc, ◌+◌, ◌≤◌, ◌<◌, ◌≡◌, refl, arith, ltb, ◌==◌}
use quickjs_rs.Base.{List, [], ◌∷◌, ◌++◌, true, false, ◌&&◌, length, ◌∙◌, sym, ap, ap₂, if_cases}
use quickjs_rs.Base.{take, drop, set, get_or, length-drop, length-set}
use quickjs_rs.CharRange.{CharRange, join_end, compress_loop, cr_compress}
use quickjs_rs.CharRange.Squeeze.{
  squeeze, extend, extend_stop, extend_join, squeeze_skip, squeeze_start, squeeze_short,
}
use mathlib.Core.List.{append-nil, append_assoc}

abbrev at : List ℕ → ℕ → ℕ
at pt i = get_or pt i 0

drop_cons : (pt : List ℕ) (i : ℕ) → i < length pt → drop i pt ≡ at pt i ∷ drop (i + 1) pt
drop_cons [] i h = absurd (omega arith)
drop_cons (x ∷ pt) zero h = refl
drop_cons (x ∷ pt) (suc i) h =
    let e : suc i + 1 ≡ suc (i + 1) = omega arith in rw e (drop_cons pt i (omega arith))

-- Two points from `i` on.
drop_pair :
    (pt : List ℕ) (i : ℕ)
    → i + 1 < length pt
    → drop i pt ≡ at pt i ∷ at pt (i + 1) ∷ drop (i + 2) pt
drop_pair pt i h =
    drop_cons pt i (omega arith)
    ∙ ap (λ l. at pt i ∷ l)
        (drop_cons pt (i + 1) h ∙ ap (λ n. at pt (i + 1) ∷ drop n pt) (omega arith))

first_of_two : (x y : ℕ) (r : List ℕ) (x' y' : ℕ) (r' : List ℕ) → x ∷ y ∷ r ≡ x' ∷ y' ∷ r' → x ≡ x'
first_of_two x y r x' y' r' e = cc

-- The inner loop ends at the last interval of a row that touch.
record Row (pt : List ℕ) (lo j end : ℕ) : Type 0 where
  from_j : j ≤ end
  inside : end + 1 < length pt
  joined :
      extend lo (at pt (j + 1)) (drop (j + 2) pt)
      ≡ lo ∷ at pt (end + 1) ∷ squeeze (drop (end + 2) pt)

join_end-Row :
    (fuel : ℕ) (pt : List ℕ) (lo j : ℕ)
    → j + 1 < length pt
    → length pt ≤ j + fuel
    → Row pt lo j (join_end fuel pt (length pt) j)
unfolding join_end
join_end-Row zero pt lo j inside enough = absurd (omega arith)
join_end-Row (suc fuel) pt lo j inside enough =
    if_cases (Row pt lo j) (ltb (j + 3) (length pt) && (at pt (j + 1) == at pt (j + 2)))
      (λ touch.
        further (join_end-Row fuel pt lo (j + 2) (ground arith) (omega arith)) (ground arith)
          (ground arith))
      (λ apart. record {
        from_j = omega arith;
        inside = inside;
        joined = extend_stop lo (at pt (j + 1)) (drop (j + 2) pt) (λ x y r e. stop x y r e apart);
      })
  where
    further :
        {end : ℕ}
        → Row pt lo (j + 2) end
        → j + 3 < length pt
        → (at pt (j + 1) == at pt (j + 2)) ≡ true
        → Row pt lo j end
    further w room touch = record {
      from_j = omega (arith, w.from_j);
      inside = w.inside;
      joined =
          ap (extend lo (at pt (j + 1))) (drop_pair pt (j + 2) (omega arith))
          ∙ extend_join lo (at pt (j + 1)) (at pt (j + 2)) (at pt (j + 2 + 1)) (drop (j + 2 + 2) pt)
              touch
          ∙ w.joined;
    }

    stop :
        (x y : ℕ) (r : List ℕ)
        → drop (j + 2) pt ≡ x ∷ y ∷ r
        → (ltb (j + 3) (length pt) && (at pt (j + 1) == at pt (j + 2))) ≡ false
        → (at pt (j + 1) == x) ≡ false
    stop x y r e apart =
        let two : length (drop (j + 2) pt) ≡ suc (suc (length r)) = ap length e in
        let room : j + 3 < length pt = omega (arith, two, length-drop (j + 2) pt) in
        let same : at pt (j + 2) ≡ x =
          first_of_two _ _ _ x y r (sym (drop_pair pt (j + 2) (omega arith)) ∙ e) in
        ground arith

-- Two writes at `k` end the first `k + 2` points, and leave those behind.
module _ {ℓ} {A : Type ℓ} where
  take-set-suc :
      (xs : List A) (k : ℕ) (v : A)
      → k < length xs
      → take (suc k) (set xs k v) ≡ take k xs ++ (v ∷ [])
  take-set-suc [] k v h = absurd (omega arith)
  take-set-suc (x ∷ xs) zero v h = refl
  take-set-suc (x ∷ xs) (suc k) v h = ap (λ l. x ∷ l) (take-set-suc xs k v (omega arith))

  take-set_le : (xs : List A) (n k : ℕ) (v : A) → n ≤ k → take n (set xs k v) ≡ take n xs
  take-set_le xs zero k v h = refl
  take-set_le [] (suc n) k v h = refl
  take-set_le (x ∷ xs) (suc n) zero v h = absurd (omega arith)
  take-set_le (x ∷ xs) (suc n) (suc k) v h = ap (λ l. x ∷ l) (take-set_le xs n k v (omega arith))

  drop-set : (xs : List A) (n k : ℕ) (v : A) → k < n → drop n (set xs k v) ≡ drop n xs
  drop-set xs zero k v h = absurd (omega arith)
  drop-set [] (suc n) k v h = refl
  drop-set (x ∷ xs) (suc n) zero v h = refl
  drop-set (x ∷ xs) (suc n) (suc k) v h = drop-set xs n k v (omega arith)

copied_pair : (pt : List ℕ) (k u w : ℕ) → List ℕ
copied_pair pt k u w = set (set pt k u) (k + 1) w

take-copied :
    (pt : List ℕ) (k u w : ℕ)
    → k + 1 < length pt
    → take (k + 2) (copied_pair pt k u w) ≡ take k pt ++ (u ∷ w ∷ [])
unfolding copied_pair
take-copied pt k u w h =
    ap (λ n. take n (set (set pt k u) (k + 1) w)) two
    ∙ take-set-suc (set pt k u) (k + 1) w (rw length-set h)
    ∙ ap (λ l. l ++ (w ∷ []))
        (ap (λ n. take n (set pt k u)) one ∙ take-set-suc pt k u (omega arith))
    ∙ append_assoc (take k pt) (u ∷ []) (w ∷ [])
  where
    two : k + 2 ≡ suc (k + 1)
    two = omega arith

    one : k + 1 ≡ suc k
    one = omega arith

drop-copied : (pt : List ℕ) (k u w n : ℕ) → k + 1 < n → drop n (copied_pair pt k u w) ≡ drop n pt
unfolding copied_pair
drop-copied pt k u w n h = drop-set (set pt k u) n (k + 1) w h ∙ drop-set pt n k u (omega arith)

length-copied : (pt : List ℕ) (k u w : ℕ) → length (copied_pair pt k u w) ≡ length pt
unfolding copied_pair
length-copied pt k u w = length-set (set pt k u) (k + 1) w ∙ length-set pt k u

-- What the outer loop leaves: the points written so far, and those still to come, squeezed.
abbrev Compressed : List ℕ → ℕ → ℕ → List ℕ × ℕ → Type 0
Compressed pt i k r = take r.1 r.0 ≡ take k pt ++ squeeze (drop i pt)

-- Nothing is left that makes an interval.
at_end : (pt : List ℕ) (i k : ℕ) → length pt ≤ i + 1 → Compressed pt i k (pt, k)
at_end pt i k h = sym (
    ap (λ l. take k pt ++ l) (squeeze_short (drop i pt) (omega (arith, length-drop i pt)))
    ∙ append-nil (take k pt))

-- An empty interval is passed over.
past_empty :
    (pt : List ℕ) (i k : ℕ) (r : List ℕ × ℕ)
    → i + 1 < length pt
    → (at pt i == at pt (i + 1)) ≡ true
    → Compressed pt (i + 2) k r
    → Compressed pt i k r
past_empty pt i k r room same h =
    h
    ∙ ap (λ l. take k pt ++ l)
        (sym (
          ap squeeze (drop_pair pt i room)
          ∙ squeeze_skip (at pt i) (at pt (i + 1)) (drop (i + 2) pt) same))

-- A row of intervals is copied as one.
past-Row :
    (pt : List ℕ) (i k j : ℕ) (r : List ℕ × ℕ)
    → k ≤ i
    → i + 1 < length pt
    → (at pt i == at pt (i + 1)) ≡ false
    → Row pt (at pt i) i j
    → Compressed (copied_pair pt k (at pt i) (at pt (j + 1))) (j + 2) (k + 2) r
    → Compressed pt i k r
past-Row pt i k j r behind room differ w h =
    h
    ∙ ap₂ ◌++◌ (take-copied pt k u v (omega (arith, w.from_j)))
        (ap squeeze (drop-copied pt k u v (j + 2) (omega (arith, w.from_j))))
    ∙ append_assoc (take k pt) (u ∷ v ∷ []) (squeeze (drop (j + 2) pt))
    ∙ ap (λ l. take k pt ++ l)
        (sym (
          ap squeeze (drop_pair pt i room)
          ∙ squeeze_start u (at pt (i + 1)) (drop (i + 2) pt) differ
          ∙ w.joined))
  where
    u : ℕ
    u = at pt i

    v : ℕ
    v = at pt (j + 1)

compress_loop-Compressed :
    (fuel : ℕ) (pt : List ℕ) (len i k : ℕ)
    → len ≡ length pt
    → k ≤ i
    → length pt ≤ i + fuel
    → Compressed pt i k (compress_loop fuel pt len i k)
unfolding compress_loop copied_pair
compress_loop-Compressed zero pt len i k e behind enough = at_end pt i k (omega arith)
compress_loop-Compressed (suc fuel) pt len i k e behind enough =
    if_cases (Compressed pt i k) (ltb (i + 1) len)
      (λ more.
        if_cases (Compressed pt i k) (at pt i == at pt (i + 1))
          (λ same.
            past_empty pt i k (compress_loop fuel pt len (i + 2) k) (ground arith) same
              (compress_loop-Compressed fuel pt len (i + 2) k e (omega arith) (omega arith)))
          (λ differ.
            let w = row (ground arith) in
            past-Row pt i k (join_end len pt len i)
              (compress_loop fuel (copied_pair pt k (at pt i) (at pt (join_end len pt len i + 1)))
                len (join_end len pt len i + 2) (k + 2))
              behind (ground arith) differ w
              (compress_loop-Compressed fuel
                (copied_pair pt k (at pt i) (at pt (join_end len pt len i + 1))) len
                (join_end len pt len i + 2) (k + 2) (e ∙ sym (length-copied pt k _ _))
                (omega (arith, w.from_j))
                (rw (length-copied pt k (at pt i) (at pt (join_end len pt len i + 1)))
                  (omega (arith, w.from_j))))))
      (λ no_more. at_end pt i k (ground arith))
  where
    row : i + 1 < length pt → Row pt (at pt i) i (join_end len pt len i)
    row room = rw e (join_end-Row (length pt) pt (at pt i) i room (omega arith))

-- `cr_compress` leaves the squeezed points.
pub cr_compress-squeeze :
    (cr : CharRange) → cr_compress cr ≡ record cr { points = squeeze cr.points }
unfolding cr_compress
cr_compress-squeeze cr =
    ap (λ l. record cr { points = l })
      (compress_loop-Compressed (length cr.points) cr.points (length cr.points) 0 0 refl
        (omega arith) (omega arith))
