-- ===== src/Regexp/Bounds.antt =====
-- One instruction: every index into the subject stays in it (`cptr`, the saved ones and the
-- captures), and where its operands are in order, it is defined.
pub mod Chars
pub mod Defined
pub mod Dispatch
pub mod Handlers
pub mod Progress
pub mod Reference
pub mod Stack
pub mod Subject
pub mod Taking
use quickjs_rs.Base.{
  ℕ, zero, suc, ◌+◌, ◌-◌, ◌*◌, ◌≤◌, ◌<◌, ◌≡◌, refl, arith, Option, none, some, List, [], ◌∷◌, Bool,
  true, false, length, set, All,
}
use quickjs_rs.Base.Partial.{◌>>=◌}
use quickjs_rs.Regexp.State.{
  ExecState, Machine, Regs, Quantifier, Step, next, accept, reject, error, quantify,
}

-- A capture is NULL, or lies in the subject of `n` units, its end included.
abbrev pub InText : ℕ → Option ℕ → Type 0
InText n none = Unit
InText n (some p) = p ≤ n

abbrev pub AllInText : ℕ → List (Option ℕ) → Type 0
AllInText n [] = Unit
AllInText n (c ∷ cs) = InText n c × AllInText n cs

abbrev pub SavedInText : ℕ → List ExecState → Type 0
SavedInText n [] = Unit
SavedInText n (rs ∷ states) = (rs.cptr ≤ n) × AllInText n rs.capture × SavedInText n states

pub record MachineInText (n : ℕ) (m : Machine) : Type 0 where
  pub captures : AllInText n m.capture
  pub saved : SavedInText n m.states

pub record RegsInText (n : ℕ) (r : Regs) : Type 0 where
  pub machine : MachineInText n r.machine
  pub at : r.cptr ≤ n

abbrev pub StepInText : ℕ → Step → Type 0
StepInText n (next r) = RegsInText n r
StepInText n (accept r) = RegsInText n r
StepInText n (reject m) = MachineInText n m
StepInText n (error m) = MachineInText n m
StepInText n (quantify q) = RegsInText n q.regs

-- A statement about the value of a computation, if it is defined.
abbrev pub Ensures {ℓ κ} : {A : Type ℓ} → (A → Type κ) → Option A → Type κ
Ensures P none = Unit
Ensures P (some a) = P a

pub Ensures-bind {ℓ ℓ' κ} :
    {A : Type ℓ} {B : Type ℓ'} (P : B → Type κ) (m : Option A) (f : A → Option B)
    → ((a : A) → m ≡ some a → Ensures P (f a))
    → Ensures P (m >>= f)
Ensures-bind P none f h = tt
Ensures-bind P (some a) f h = h a refl

-- Where the value that is bound does not matter.
pub Ensures-then {ℓ ℓ' κ} :
    {A : Type ℓ} {B : Type ℓ'} (P : B → Type κ) (m : Option A) (f : A → Option B)
    → ((a : A) → Ensures P (f a))
    → Ensures P (m >>= f)
Ensures-then P none f h = tt
Ensures-then P (some a) f h = h a

-- A value of which something is known goes on.
pub Ensures-seq {ℓ ℓ' κ κ'} :
    {A : Type ℓ} {B : Type ℓ'} (Q : A → Type κ') (P : B → Type κ) (m : Option A) (f : A → Option B)
    → Ensures Q m
    → ((a : A) → Q a → Ensures P (f a))
    → Ensures P (m >>= f)
Ensures-seq Q P none f e h = tt
Ensures-seq Q P (some a) f e h = h a e

pub Bool_split {κ} : (P : Bool → Type κ) (b : Bool) → P true → P false → P b
Bool_split P true t f = t
Bool_split P false t f = f

pub AllInText-set :
    (n : ℕ) (cs : List (Option ℕ)) (i : ℕ) (c : Option ℕ)
    → InText n c
    → AllInText n cs
    → AllInText n (set cs i c)
AllInText-set n [] i c h a = tt
AllInText-set n (x ∷ cs) zero c h a = (h, a.1)
AllInText-set n (x ∷ cs) (suc i) c h a = (a.0, AllInText-set n cs i c h a.1)
