-- ===== src/Strings/Prefix.antt =====
-- `strstart` finds a prefix.
use quickjs_rs.Base.{
  ℕ, ◌≡◌, arith, ◌==◌, none, some, List, [], ◌∷◌, ◌++◌, true, false, inl, inr, Bool-cases, ap, ◌↔◌,
}
use quickjs_rs.Strings.{strstart}
use quickjs_rs.Strings.Copy.{IsText}

found : (p v r more : List ℕ) → IsText v → p ≡ v ++ r → strstart p (v ++ (0 ∷ more)) ≡ some (some r)
unfolding strstart
found p [] r more text e = ap (λ l. some (some l)) e
found [] (c ∷ v) r more text e = absurd (let never : ⊥ = cc in never)
found (x ∷ p) (c ∷ v) r more text e =
    let inner : (c == 0) ≡ false = ground arith in
    let first : x ≡ c = cc in
    let same : (x == c) ≡ true = ground arith in
    rw (inner, strstart, same) (found p v r more text.1 (let tail : p ≡ v ++ r = cc in tail))

only : (p v r more : List ℕ) → IsText v → strstart p (v ++ (0 ∷ more)) ≡ some (some r) → p ≡ v ++ r
unfolding strstart
only p [] r more text e = cc
only [] (c ∷ v) r more text e =
    let inner : (c == 0) ≡ false = ground arith in
    let stuck : none ≡ some (some r) = rw (inner, strstart) at e in
    absurd (let never : ⊥ = cc in never)
only (x ∷ p) (c ∷ v) r more text e =
    let inner : (c == 0) ≡ false = ground arith in
    elim (Bool-cases (x == c)) [
      | inr other ↦
          let stuck : some none ≡ some (some r) = rw (inner, strstart, other) at e in
          absurd (let never : ⊥ = cc in never)
      | inl same ↦
          let rest : strstart p (v ++ (0 ∷ more)) ≡ some (some r) =
            rw (inner, strstart, same) at e in
          let first : x ≡ c = ground arith in
          let tail : p ≡ v ++ r = only p v r more text.1 rest in cc
    ]

-- For a text `v` without NUL, `strstart` returns 1 with `*ptr` at `r` exactly when the string is `v`
-- followed by `r`.
pub strstart_iff :
    (p v r more : List ℕ) → IsText v → (strstart p (v ++ (0 ∷ more)) ≡ some (some r)) ↔ (p ≡ v ++ r)
strstart_iff p v r more text = (only p v r more text, found p v r more text)
