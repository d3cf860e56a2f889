-- ===== src/Regexp/Static/Ends.antt =====
-- The loop of the passes ends.
use mathlib.Core.Path.{subst}
use quickjs_rs.Base.{
  ℕ, zero, suc, ◌+◌, ◌≤◌, ◌<◌, ◌≢◌, arith, ltb, Option, none, some, List, length, Bool-cases, inl,
  inr,
}
use quickjs_rs.Regexp.Opcode.{Opcode}
use quickjs_rs.Regexp.Bounds.{Ensures}
use quickjs_rs.Regexp.Static.{
  Verdict, proceed, return, bad, Scan, done, returned, fault, out_of_fuel, scan, scan_all,
  opcode_at, length_at,
}
use quickjs_rs.Regexp.Static.Path.{length_at-pos}

-- Whether a loop came to its end.
abbrev HasEnded : {S : Type 0} → Scan S → Type 0
HasEnded (done s) = Unit
HasEnded returned = Unit
HasEnded fault = Unit
HasEnded out_of_fuel = ⊥

module _ {S : Type 0} (bc : List ℕ) (visit : Opcode → ℕ → S → Verdict S) where
  -- A round, from what it reads and from what the loop comes to behind it.
  round_ends :
      (o : Option Opcode) (pos : ℕ) (s : S) (left : ℕ)
      → ((len : ℕ) → 0 < len → (s' : S) → HasEnded (scan bc visit left (pos + len) s'))
      → HasEnded (elim o [
        | none ↦ fault
        | some op ↦ elim (visit op pos s) [
          | bad ↦ fault
          | return ↦ returned
          | proceed s' ↦ elim (length_at bc pos op) [
            | none ↦ fault
            | some len ↦ scan bc visit left (pos + len) s'
          ]
        ]
      ])
  round_ends none pos s left next = tt
  round_ends (some op) pos s left next =
      judged (visit op pos s) (length_at bc pos op) (length_at-pos bc pos op)
    where
      judged :
          (v : Verdict S) (l : Option ℕ)
          → Ensures (λ len. 0 < len) l
          → HasEnded (elim v [
            | bad ↦ fault
            | return ↦ returned
            | proceed s' ↦ elim l [ none ↦ fault | some len ↦ scan bc visit left (pos + len) s' ]
          ])
      judged bad l e = tt
      judged return l e = tt
      judged (proceed s') none e = tt
      judged (proceed s') (some len) e = next len e s'

  scan_ends :
      (fuel pos : ℕ) (s : S)
      → length bc + 1 ≤ fuel + pos
      → 0 < fuel
      → HasEnded (scan bc visit fuel pos s)
  unfolding scan
  scan_ends zero pos s enough h = absurd (omega arith)
  scan_ends (suc left) pos s enough h = elim (Bool-cases (ltb pos (length bc))) [
    | inr e ↦ rw (e, scan) tt
    | inl e ↦
        let inside : pos < length bc = ground arith in
        rw (e, scan)
          (round_ends (opcode_at bc pos) pos s left
            (λ len positive s'. scan_ends left (pos + len) s' (omega arith) (omega arith)))
  ]

  no_end : (r : Scan S) → HasEnded r → r ≢ out_of_fuel
  no_end r h e = subst HasEnded e h

  -- Whatever a pass does at an instruction, its loop ends within the bytes of the bytecode.
  pub scan_all-ne-out_of_fuel : (s : S) → scan_all bc visit s ≢ out_of_fuel
  unfolding scan_all
  scan_all-ne-out_of_fuel s =
      no_end (scan bc visit (length bc + 1) 0 s)
        (scan_ends (length bc + 1) 0 s (omega arith) (omega arith))
