-- ===== src/Collector/Invariants.antt =====
-- What the passes of the collector rest on: the counts that they find, and the statements that hold
-- between two steps of a pass.
use quickjs_rs.Base.{
  ℕ, ◌+◌, ◌≤◌, ◌<◌, ◌≡◌, refl, arith, Option, none, some, List, [], ◌∷◌, ◌++◌, false, ◌==◌,
}
use quickjs_rs.Base.Partial.{◌>>=◌}
use quickjs_rs.Collector.Marking.{Objects, children, mark_each, mark_children}
use quickjs_rs.Collector.Passes.{Gc, assign}
use quickjs_rs.Collector.Sums.{sum, count, kids, refs}

-- A computation ends with a value, and the value satisfies `P`.
abbrev pub Yields {ℓ} : {A : Type ℓ} → (A → Type 0) → Option A → Type 0
Yields P none = ⊥
Yields P (some a) = P a

pub Yields-bind {ℓ κ} :
    {A : Type ℓ} {B : Type κ} (P : A → Type 0) (Q : B → Type 0) (o : Option A) (f : A → Option B)
    → Yields P o
    → ((a : A) → P a → Yields Q (f a))
    → Yields Q (o >>= f)
Yields-bind P Q none f h k = absurd h
Yields-bind P Q (some a) f h k = k a h

pub Yields-mono {ℓ} :
    {A : Type ℓ} {P Q : A → Type 0} (o : Option A) → Yields P o → ((a : A) → P a → Q a) → Yields Q o
Yields-mono none h k = absurd h
Yields-mono (some a) h k = k a h

-- The state that the collector starts from: every count is the number of the references from the
-- heap and from outside of it, and every object that has a reference is listed once, not marked, and
-- no variable reference that is listed is still on the stack.
pub record WellCounted (m : Objects) (external : ℕ → ℕ) (s : Gc) : Type 0 where
  pub distinct : (o : ℕ) → count o s.gc_obj_list ≤ 1
  pub counted : (o : ℕ) → s.ref_count o ≡ external o + refs m o s.gc_obj_list
  pub listed : (o : ℕ) → 0 < s.ref_count o → 0 < count o s.gc_obj_list
  pub unmarked : (o : ℕ) → s.mark o ≡ 0
  pub markable : (o : ℕ) → 0 < count o s.gc_obj_list → children m o ≡ some (kids m o)

-- The objects that a path of references leads to from outside of the heap.
pub data Reach (m : Objects) (external : ℕ → ℕ) : ℕ → Type 0 where
  root : {o : ℕ} → 0 < external o → Reach m external o
  child : {p o : ℕ} → Reach m external p → 0 < count o (kids m p) → Reach m external o

-- The first pass. The references from `visited` are taken off the counts, but for `pending`; the
-- objects of `marked` are marked, and they are in `seen` or moved to the other list, by their counts
-- (but for `except`); the objects of `rest` are still to come.
pub record Decref (m : Objects) (rc0 : ℕ → ℕ) (visited marked rest pending except : List ℕ) (s : Gc)
    : Type 0 where
  pub seen : List ℕ
  pub list : s.gc_obj_list ≡ seen ++ rest
  pub balance : (o : ℕ) → s.ref_count o + refs m o visited ≡ rc0 o + count o pending
  pub marks : (o : ℕ) → s.mark o ≡ count o marked
  pub sums : (f : ℕ → ℕ) → sum f seen + sum f s.tmp_obj_list ≡ sum f marked
  pub positive : (o : ℕ) → 0 < count o seen → 0 < s.ref_count o + count o except
  pub dead : (o : ℕ) → 0 < count o s.tmp_obj_list → s.ref_count o ≡ 0

-- The second pass. The references of `visited` are back on the counts, but for `pending`; the
-- objects with a count are in `gc_obj_list`, and each of them is reached from outside.
pub record Scan (m : Objects) (external : ℕ → ℕ) (objs visited pending : List ℕ) (s : Gc)
    : Type 0 where
  pub todo : List ℕ
  pub list : s.gc_obj_list ≡ visited ++ todo
  pub balance : (o : ℕ) → s.ref_count o + count o pending ≡ external o + refs m o visited
  pub sums : (f : ℕ → ℕ) → sum f s.gc_obj_list + sum f s.tmp_obj_list ≡ sum f objs
  pub positive : (o : ℕ) → 0 < count o s.gc_obj_list → 0 < s.ref_count o
  pub dead : (o : ℕ) → 0 < count o s.tmp_obj_list → s.ref_count o ≡ 0
  pub clean : (o : ℕ) → 0 < count o visited → s.mark o ≡ 0
  pub reached : (o : ℕ) → 0 < count o s.gc_obj_list → Reach m external o
  pub reached_next : (o : ℕ) → 0 < count o pending → Reach m external o
  pub listed_next : (o : ℕ) → 0 < count o pending → 0 < count o objs

pub assign-at : (f : ℕ → ℕ) (p v : ℕ) → assign f p v p ≡ v
unfolding assign
assign-at f p v = ground arith

pub assign-away : (f : ℕ → ℕ) (p v x : ℕ) → (x == p) ≡ false → assign f p v x ≡ f x
unfolding assign
assign-away f p v x e = rw (e) refl

-- `mark_children` keeps what its callback keeps, if that takes one object off what is pending.
pub mark_each-Yields :
    (P : List ℕ → Gc → Type 0) (f : ℕ → Gc → Option Gc)
    → ((c : ℕ) (ps : List ℕ) (s : Gc) → P (c ∷ ps) s → Yields (P ps) (f c s))
    → (ps : List ℕ) (s : Gc) → P ps s
    → Yields (P []) (mark_each f ps s)
unfolding mark_each
mark_each-Yields P f step [] s h = h
mark_each-Yields P f step (c ∷ ps) s h =
    Yields-bind (P ps) (P []) (f c s) (mark_each f ps) (step c ps s h)
      (λ s' h'. mark_each-Yields P f step ps s' h')

pub mark_children-Yields :
    (m : Objects) (p : ℕ) (P : List ℕ → Gc → Type 0) (f : ℕ → Gc → Option Gc)
    → children m p ≡ some (kids m p)
    → ((c : ℕ) (ps : List ℕ) (s : Gc) → P (c ∷ ps) s → Yields (P ps) (f c s))
    → (s : Gc) → P (kids m p) s
    → Yields (P []) (mark_children m p f s)
unfolding mark_children
mark_children-Yields m p P f ok step s h = rw (ok) (mark_each-Yields P f step (kids m p) s h)
