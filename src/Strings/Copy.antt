-- ===== src/Strings/Copy.antt =====
-- `pstrcpy` and `pstrcat` on a block of bytes: what they copy, and what they cut off.
use quickjs_rs.Base.{
  ℕ, zero, suc, ◌+◌, ◌-◌, ◌≤◌, ◌<◌, ◌≡◌, refl, arith, min, ltb, leb, ◌==◌, some, List, [], ◌∷◌,
  ◌++◌, length, set, take, drop, true, false, ◌||◌, All, ap, ◌∙◌, sym, length-append,
}
use mathlib.Core.List.{append_assoc}
use quickjs_rs.Strings.{store, copy_loop, pstrcpy, strlen, pstrcat}

set-append :
    (pre rest : List ℕ) (x v : ℕ) → set (pre ++ (x ∷ rest)) (length pre) v ≡ pre ++ (v ∷ rest)
set-append [] rest x v = refl
set-append (p ∷ pre) rest x v = ap (λ l. p ∷ l) (set-append pre rest x v)

store-append :
    (pre rest : List ℕ) (x v : ℕ)
    → store (pre ++ (x ∷ rest)) (length pre) v ≡ some (pre ++ (v ∷ rest))
unfolding store
store-append pre rest x v =
    let inside : ltb (length pre) (length (pre ++ (x ∷ rest))) ≡ true =
      ground (arith, length-append pre (x ∷ rest)) in
    rw (inside, store) (ap some (set-append pre rest x v))

-- A text without NUL.
abbrev pub IsText : List ℕ → Type 0
IsText s = All (λ c. 0 < c) s

-- From the end of `pre` on, with `k` bytes and one for the NUL.
copy_loop-append :
    (s more pre rest : List ℕ) (k : ℕ)
    → IsText s
    → k < length rest
    → copy_loop (s ++ (0 ∷ more)) (pre ++ rest) (length pre) (length pre + k)
      ≡ some (pre ++ (take k s ++ (0 ∷ drop (min (length s) k + 1) rest)))
unfolding copy_loop
copy_loop-append s more pre [] k text h = absurd (omega arith)
copy_loop-append [] more pre (x ∷ rest) zero text h = store-append pre rest x 0
copy_loop-append [] more pre (x ∷ rest) (suc k) text h =
    store-append pre rest x 0
    ∙ ap (λ n. some (pre ++ (0 ∷ drop n (x ∷ rest))))
        (let one : 1 ≡ min 0 (suc k) + 1 = omega arith in one)
copy_loop-append (c ∷ s) more pre (x ∷ rest) zero text h =
    let full : (c == 0 || leb (length pre + 0) (length pre)) ≡ true = ground arith in
    rw (full, copy_loop)
      (store-append pre rest x 0
        ∙ ap (λ n. some (pre ++ (0 ∷ drop n (x ∷ rest))))
            (let one : 1 ≡ min (suc (length s)) 0 + 1 = omega arith in one))
copy_loop-append (c ∷ s) more pre (x ∷ rest) (suc k) text h =
    let room : (c == 0 || leb (length pre + suc k) (length pre)) ≡ false = ground arith in
    let longer : length pre + 1 ≡ length (pre ++ (c ∷ [])) =
      omega (arith, length-append pre (c ∷ [])) in
    let last : length pre + suc k ≡ length (pre ++ (c ∷ [])) + k =
      omega (arith, length-append pre (c ∷ [])) in
    rw (room, copy_loop, store-append pre rest x c, longer, last)
      (ap
          (λ b.
            copy_loop (s ++ (0 ∷ more)) b (length (pre ++ (c ∷ []))) (length (pre ++ (c ∷ [])) + k))
          (sym (append_assoc pre (c ∷ []) rest))
        ∙ copy_loop-append s more (pre ++ (c ∷ [])) rest k text.1 (omega arith)
        ∙ ap some (append_assoc pre (c ∷ []) _)
        ∙ ap (λ n. some (pre ++ (c ∷ (take k s ++ (0 ∷ drop n (x ∷ rest))))))
            (let next : suc (min (length s) k + 1) ≡ min (suc (length s)) (suc k) + 1 =
                omega arith in
              next))

-- `pstrcpy` of a text without NUL to the `buf_size` bytes from `off` on, which the block holds: it
-- writes the text's first `buf_size - 1` bytes and a NUL behind them, and leaves the rest of the
-- block.
pub pstrcpy_lem :
    (before after s more : List ℕ) (buf_size : ℕ)
    → IsText s
    → 0 < buf_size
    → buf_size ≤ length after
    → pstrcpy (before ++ after) (length before) buf_size (s ++ (0 ∷ more))
      ≡ some (
          before ++ (take (buf_size - 1) s ++ (0 ∷ drop (min (length s) (buf_size - 1) + 1) after)))
unfolding pstrcpy
pstrcpy_lem before after s more zero text some_room fits = absurd (omega arith)
pstrcpy_lem before after s more (suc k) text some_room fits =
    let last : length before + suc k - 1 ≡ length before + k = omega arith in
    let room : suc k - 1 ≡ k = omega arith in
    let not_empty : (suc k == 0) ≡ false = ground arith in
    rw (not_empty, pstrcpy, last, room) (copy_loop-append s more before after k text (omega arith))

pub strlen-append : (s more : List ℕ) → IsText s → strlen (s ++ (0 ∷ more)) ≡ some (length s)
unfolding strlen
strlen-append [] more text = refl
strlen-append (c ∷ s) more text =
    let not_end : (c == 0) ≡ false = ground arith in
    rw (not_end, strlen, strlen-append s more text.1)
      (ap some (let next : length s + 1 ≡ suc (length s) = omega arith in next))

-- `pstrcat` on a block of `buf_size` bytes that begins with a text `s` and a NUL: it ends the text
-- with as much of `t` as there is room for, and a NUL.
pub pstrcat_lem :
    (s old t more : List ℕ)
    → IsText s
    → IsText t
    → pstrcat (s ++ (0 ∷ old)) (length s + 1 + length old) (t ++ (0 ∷ more))
      ≡ some (s ++ (take (length old) t ++ (0 ∷ drop (min (length t) (length old) + 1) (0 ∷ old))))
unfolding pstrcat
pstrcat_lem s old t more text text' =
    let fits : ltb (length s) (length s + 1 + length old) ≡ true = ground arith in
    let left : length s + 1 + length old - length s ≡ suc (length old) = omega arith in
    rw (strlen-append s old text, pstrcat, fits, left)
      (pstrcpy_lem s (0 ∷ old) t more (suc (length old)) text' (omega arith) (omega arith)
        ∙ ap (λ n. some (s ++ (take n t ++ (0 ∷ drop (min (length t) n + 1) (0 ∷ old)))))
            (let room : suc (length old) - 1 ≡ length old = omega arith in room))
