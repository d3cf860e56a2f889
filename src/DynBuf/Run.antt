-- ===== src/DynBuf/Run.antt =====
-- A caller that ignores what each `dbuf_put` returns and asks `dbuf_error` once, at the end.
use quickjs_rs.Base.{ℕ, ◌+◌, ◌^◌, ◌<◌, ◌≡◌, refl, arith, some, none, Option}
use quickjs_rs.Base.{List, [], ◌∷◌, ◌++◌, length, false, ◌∙◌, sym, ap, Bool-cases, inl, inr}
use mathlib.Core.List.{append-nil, append_assoc}
use quickjs_rs.DynBuf.{DynBuf, dbuf_put}
use quickjs_rs.DynBuf.Memory.{Allocator}
use quickjs_rs.DynBuf.Invariant.{IsValid, contents}
use quickjs_rs.DynBuf.Append.{Appended, dbuf_put-Appended}

abbrev pub total : List (List ℕ) → ℕ
total [] = 0
total (c ∷ cs) = length c + total cs

abbrev pub joined : List (List ℕ) → List ℕ
joined [] = []
joined (c ∷ cs) = c ++ joined cs

-- What a run of appends leaves, where nothing out of the block was touched.
pub record Joined {H : Type 0} (s : DynBuf) (bytes : List ℕ) (r : Option (H × DynBuf))
    : Type 0 where
  pub heap : H
  pub last : DynBuf
  pub returns : r ≡ some (heap, last)
  pub valid : IsValid last
  pub clear : last.error ≡ false → (s.error ≡ false) × (contents last ≡ contents s ++ bytes)

module _ {H : Type 0} (alloc : Allocator H) where
  unfoldable pub puts : H → DynBuf → List (List ℕ) → Option (H × DynBuf)
  puts h s [] = some (h, s)
  puts h s (c ∷ cs) = elim (dbuf_put alloc h s c) [ none ↦ none | some (h', s', _) ↦ puts h' s' cs ]

  -- The step: one append, and a run from what it leaves.
  Joined-cons :
      (h : H) (s : DynBuf) (c : List ℕ) (cs : List (List ℕ))
      (a : Appended alloc h s c (dbuf_put alloc h s c))
      → Joined a.result.1 (joined cs) (puts a.result.0 a.result.1 cs)
      → Joined s (c ++ joined cs) (puts h s (c ∷ cs))
  unfolding puts
  Joined-cons h s c cs a j = record {
    heap = j.heap;
    last = j.last;
    returns = rw (a.returns, puts) j.returns;
    valid = j.valid;
    clear = λ e. elim (Bool-cases a.result.2) [
      | inl good ↦ (
        sym (a.quiet good) ∙ (j.clear e).0,
        (j.clear e).1
            ∙ ap (λ l. l ++ joined cs) (a.added good)
            ∙ append_assoc (contents s) c (joined cs),
      )
      | inr bad ↦ absurd (let no : ⊥ = cc (a.failed bad, (j.clear e).0) in no)
    ];
  }

  -- On a valid buffer, with the size of all pieces in the range of `size_t`: however the calls turn
  -- out one by one, nothing out of the block is touched; and if `error` is clear at the end, it was
  -- at the start, and the pieces stand in order behind the old contents.
  pub puts-Joined :
      (h : H) (s : DynBuf) (cs : List (List ℕ))
      → IsValid s
      → s.size + total cs < 2 ^ 64
      → Joined s (joined cs) (puts h s cs)
  unfolding puts
  puts-Joined h s [] v fits = record {
    heap = h;
    last = s;
    returns = refl;
    valid = v;
    clear = λ e. (e, sym (append-nil (contents s)));
  }
  puts-Joined h s (c ∷ cs) v fits =
      let a = dbuf_put-Appended alloc h s c v (omega arith) in
      let small : a.result.1.size + total cs < 2 ^ 64 = elim (Bool-cases a.result.2) [
        | inl good ↦ omega (arith, a.counted good)
        | inr bad ↦ omega (arith, a.uncounted bad)
      ] in
      Joined-cons h s c cs a (puts-Joined a.result.0 a.result.1 cs a.valid small)
