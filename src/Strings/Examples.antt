-- ===== src/Strings/Examples.antt =====
-- Strings that are copied and compared, and the theorems at them.
use quickjs_rs.Base.{
  ℕ, List, ◌≡◌, refl, arith, [], ◌∷◌, ◌++◌, ◌+◌, ◌-◌, length, take, drop, min, some, true, ◌↔◌,
}
use quickjs_rs.Strings.{
  pstrcpy, pstrcat, strstart, has_suffix, copy_loop, store, strlen, same_bytes,
}
use quickjs_rs.Strings.Copy.{pstrcpy_lem, pstrcat_lem}
use quickjs_rs.Strings.Suffix.{has_suffix_iff}
use quickjs_rs.Strings.Prefix.{strstart_iff}

-- "abc" into three bytes; "ab" and "cd" in four; the prefix "ab" and the suffix "bc" of "abc".
runs :
    (pstrcpy (9 ∷ 9 ∷ 9 ∷ []) 0 3 (97 ∷ 98 ∷ 99 ∷ 0 ∷ []) ≡ some (97 ∷ 98 ∷ 0 ∷ []))
    × (pstrcat (97 ∷ 98 ∷ 0 ∷ 9 ∷ []) 4 (99 ∷ 100 ∷ 0 ∷ []) ≡ some (97 ∷ 98 ∷ 99 ∷ 0 ∷ []))
    × (strstart (97 ∷ 98 ∷ 99 ∷ 0 ∷ []) (97 ∷ 98 ∷ 0 ∷ []) ≡ some (some (99 ∷ 0 ∷ [])))
    × (has_suffix (97 ∷ 98 ∷ 99 ∷ 0 ∷ []) (98 ∷ 99 ∷ 0 ∷ []) ≡ some true)
unfolding pstrcpy pstrcat strstart has_suffix copy_loop store strlen same_bytes
runs = (refl, refl, refl, refl)

abbrev block : List ℕ
block = 9 ∷ 9 ∷ 9 ∷ []

abbrev start : List ℕ
start = 7 ∷ []

abbrev ab : List ℕ
ab = 97 ∷ 98 ∷ []

pstrcpy_lem_example :
    pstrcpy (start ++ block) (length start) 2 (ab ++ (0 ∷ []))
    ≡ some (start ++ (take (2 - 1) ab ++ (0 ∷ drop (min (length ab) (2 - 1) + 1) block)))
pstrcpy_lem_example = pstrcpy_lem start block ab [] 2 (omega arith) (omega arith) (omega arith)

pstrcat_lem_example :
    pstrcat (start ++ (0 ∷ block)) (length start + 1 + length block) (ab ++ (0 ∷ []))
    ≡ some (
        start
        ++ (take (length block) ab ++ (0 ∷ drop (min (length ab) (length block) + 1) (0 ∷ block))))
pstrcat_lem_example = pstrcat_lem start block ab [] (omega arith) (omega arith)

strstart_iff_example : (strstart ab (start ++ (0 ∷ [])) ≡ some (some block)) ↔ (ab ≡ start ++ block)
strstart_iff_example = strstart_iff ab start block [] (omega arith)

has_suffix_iff_example :
    (has_suffix (ab ++ (0 ∷ [])) (start ++ (0 ∷ [])) ≡ some true)
    ↔ ((u : List ℕ) × (ab ≡ u ++ start))
has_suffix_iff_example = has_suffix_iff ab start [] [] (omega arith) (omega arith)
