-- ===== src/Base/Partial.antt =====
-- `do` blocks over `Option`: `none` is an access out of bounds, or a failed assertion.
use quickjs_rs.Base.{Option, none, some, Bool, true, false, ◌≡◌, refl, ap}

infixl 5 ◌>>=◌ ◌>>◌
abbrev pub ◌>>=◌ {ℓ κ} : {A : Type ℓ} {B : Type κ} → Option A → (A → Option B) → Option B
none >>= f = none
some a >>= f = f a

abbrev pub ◌>>◌ {ℓ} : {B : Type ℓ} → Option (Unit {0}) → Option B → Option B
m >> k = m >>= λ _. k

-- `assert`
abbrev pub check : Bool → Option (Unit {0})
check true = some tt
check false = none

-- Laws of `>>=`.
module _ {ℓ κ} {A : Type ℓ} {B : Type κ} where
  pub bind_some : (o : Option A) (a : A) (f : A → Option B) → o ≡ some a → (o >>= f) ≡ f a
  bind_some o a f e = ap (λ o. o >>= f) e

  pub bind_ext : (o : Option A) (f g : A → Option B) → ((a : A) → f a ≡ g a) → (o >>= f) ≡ (o >>= g)
  bind_ext none f g h = refl
  bind_ext (some a) f g h = h a

  pub bind_assoc {μ} :
      {C : Type μ} (o : Option A) (f : A → Option B) (g : B → Option C)
      → ((o >>= f) >>= g) ≡ (o >>= λ a. f a >>= g)
  bind_assoc none f g = refl
  bind_assoc (some a) f g = refl
