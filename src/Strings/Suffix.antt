-- ===== src/Strings/Suffix.antt =====
-- `has_suffix` finds the end of a text.
use mathlib.Core.List.{append_assoc}
use quickjs_rs.Base.{
  ℕ, zero, suc, ◌-◌, ◌≤◌, ◌≡◌, refl, sym, ap, ◌∙◌, arith, leb, ◌==◌, some, List, [], ◌∷◌, ◌++◌,
  length, take, drop, take-append-drop, length-append, length-drop, true, false, inl, inr,
  Bool-cases, ◌↔◌,
}
use quickjs_rs.Base.Partial.{bind_some}
use quickjs_rs.Base.Slices.{drop-append, length-take_le}
use quickjs_rs.Strings.{same_bytes, has_suffix}
use quickjs_rs.Strings.Copy.{IsText, strlen-append}

same_bytes_eq : (w rest rest' : List ℕ) → same_bytes (length w) (w ++ rest) (w ++ rest') ≡ some true
unfolding same_bytes
same_bytes_eq [] rest rest' = refl
same_bytes_eq (c ∷ w) rest rest' =
    let same : (c == c) ≡ true = ground arith in rw (same, same_bytes) (same_bytes_eq w rest rest')

same_bytes_only :
    (n : ℕ) (w v rest rest' : List ℕ)
    → length w ≡ n
    → length v ≡ n
    → same_bytes n (w ++ rest) (v ++ rest') ≡ some true
    → w ≡ v
unfolding same_bytes
same_bytes_only zero [] [] rest rest' e k h = refl
same_bytes_only zero [] (d ∷ v) rest rest' e k h = absurd (omega arith)
same_bytes_only zero (c ∷ w) v rest rest' e k h = absurd (omega arith)
same_bytes_only (suc n) [] v rest rest' e k h = absurd (omega arith)
same_bytes_only (suc n) (c ∷ w) [] rest rest' e k h = absurd (omega arith)
same_bytes_only (suc n) (c ∷ w) (d ∷ v) rest rest' e k h = elim (Bool-cases (c == d)) [
  | inl same ↦
      let next : same_bytes n (w ++ rest) (v ++ rest') ≡ some true = rw (same, same_bytes) at h in
      let first : c ≡ d = ground arith in
      let tail : w ≡ v = same_bytes_only n w v rest rest' (omega arith) (omega arith) next in cc
  | inr other ↦
      let stuck : some false ≡ some true = rw (other, same_bytes) at h in
      absurd (let never : ⊥ = cc in never)
]

drop_inside : (k : ℕ) (s rest : List ℕ) → k ≤ length s → drop k (s ++ rest) ≡ drop k s ++ rest
drop_inside k s rest h =
    ap (λ l. drop k (l ++ rest)) (sym (take-append-drop k s))
    ∙ ap (drop k) (append_assoc (take k s) (drop k s) rest)
    ∙ drop-append (take k s) (drop k s ++ rest) k (length-take_le k s h)

module _ (s v more more' : List ℕ) (text : IsText s) (text' : IsText v) where
  abbrev tail : ℕ → List ℕ
  tail k = drop k (s ++ (0 ∷ more))

  by_length : has_suffix (s ++ (0 ∷ more)) (v ++ (0 ∷ more')) ≡ elim (leb (length v) (length s)) [
    | false ↦ some false
    | true ↦ same_bytes (length v) (tail (length s - length v)) (v ++ (0 ∷ more'))
  ]
  unfolding has_suffix
  by_length =
      bind_some _ (length s) _ (strlen-append s more text)
      ∙ bind_some _ (length v) _ (strlen-append v more' text')

  suffix_found :
      (u : List ℕ) → s ≡ u ++ v → has_suffix (s ++ (0 ∷ more)) (v ++ (0 ∷ more')) ≡ some true
  suffix_found u e =
      let long : leb (length v) (length s) ≡ true =
        ground (arith, ap length e, length-append u v) in
      let cut : length u ≡ length s - length v = omega (arith, ap length e, length-append u v) in
      let at_v : tail (length s - length v) ≡ v ++ (0 ∷ more) =
        ap (λ l. drop (length s - length v) (l ++ (0 ∷ more))) e
        ∙ ap (drop (length s - length v)) (append_assoc u v (0 ∷ more))
        ∙ drop-append u (v ++ (0 ∷ more)) (length s - length v) cut in
      by_length ∙ rw (long, at_v) (same_bytes_eq v (0 ∷ more) (0 ∷ more'))

  suffix_only :
      has_suffix (s ++ (0 ∷ more)) (v ++ (0 ∷ more')) ≡ some true → (u : List ℕ) × (s ≡ u ++ v)
  suffix_only e = elim (Bool-cases (leb (length v) (length s))) [
    | inr short ↦
        let stuck : some false ≡ some true = rw (by_length, short) at e in
        absurd (let never : ⊥ = cc in never)
    | inl long ↦
        let fits : length v ≤ length s = ground arith in
        let same : same_bytes (length v) (tail (length s - length v)) (v ++ (0 ∷ more'))
            ≡ some true =
          rw (by_length, long) at e in
        let same' : same_bytes (length v) (drop (length s - length v) s ++ (0 ∷ more))
              (v ++ (0 ∷ more'))
            ≡ some true =
          rw (drop_inside (length s - length v) s (0 ∷ more) (omega arith)) at same in
        let ends : drop (length s - length v) s ≡ v =
          same_bytes_only (length v) (drop (length s - length v) s) v (0 ∷ more) (0 ∷ more')
            (omega (arith, length-drop (length s - length v) s)) refl same' in
        (
          take (length s - length v) s,
          sym (take-append-drop (length s - length v) s)
              ∙ ap (λ l. take (length s - length v) s ++ l) ends,
        )
  ]

-- For texts without NUL, `has_suffix` returns 1 exactly when the first ends with the second.
pub has_suffix_iff :
    (s v more more' : List ℕ)
    → IsText s
    → IsText v
    → (has_suffix (s ++ (0 ∷ more)) (v ++ (0 ∷ more')) ≡ some true) ↔ ((u : List ℕ) × (s ≡ u ++ v))
has_suffix_iff s v more more' text text' =
    (suffix_only s v more more' text text', λ h. suffix_found s v more more' text text' h.0 h.1)
