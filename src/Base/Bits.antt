-- ===== src/Base/Bits.antt =====
-- `&`, `|` and `^` at variables: masks of low bits, and disjoint fields.
use Prim.Native.Nat.{ℕ, zero, suc, ◌+◌, ◌-◌, ◌*◌, ◌/◌, ◌%◌, ◌^◌, ◌≤◌, ◌<◌, min, max}
use Prim.Native.Nat.{bit_and, bit_or, bit_xor, digits, bitwise, differ}
use Prim.Native.Nat.{bit_and-bitwise, bit_or-bitwise, bit_xor-bitwise}
use mathlib.Core.Path.{◌≡◌, refl, ap, sym, ◌∙◌}
use native.Mathlib.Nat.{pow-suc, one-le-pow, le_refl, div-div-eq-div-mul}
use native.Mathlib.Omega.{arith}

-- The native operations mean `bitwise`, which recurs on digits with the number as fuel.
module _ (edge : ℕ → ℕ) (op : ℕ → ℕ → ℕ) where
  any_fuel :
      (x y few many : ℕ) → x ≤ few → x ≤ many → digits edge op few x y ≡ digits edge op many x y
  any_fuel zero y zero zero lo hi = refl
  any_fuel zero y zero (suc many) lo hi = refl
  any_fuel zero y (suc few) zero lo hi = refl
  any_fuel zero y (suc few) (suc many) lo hi = refl
  any_fuel (suc x) y zero many lo hi = absurd (omega arith)
  any_fuel (suc x) y (suc few) zero lo hi = absurd (omega arith)
  any_fuel (suc x) y (suc few) (suc many) lo hi =
      rw (any_fuel (suc x / 2) (y / 2) few many (omega arith) (omega arith))

  low_digit :
      (x y : ℕ)
      → bitwise edge op (suc x) y ≡ bitwise edge op (suc x / 2) (y / 2) * 2 + op (suc x % 2) (y % 2)
  low_digit x y =
      omega (arith, any_fuel (suc x / 2) (y / 2) x (suc x / 2) (omega arith) (le_refl _))

pub bit_and-low : (x y : ℕ) → bit_and x y ≡ bit_and (x / 2) (y / 2) * 2 + min (x % 2) (y % 2)
bit_and-low zero y = simp bit_and-bitwise (omega arith)
bit_and-low (suc x) y = simp bit_and-bitwise (low_digit (λ d. 0) min x y)

pub bit_or-low : (x y : ℕ) → bit_or x y ≡ bit_or (x / 2) (y / 2) * 2 + max (x % 2) (y % 2)
bit_or-low zero y = simp bit_or-bitwise (omega arith)
bit_or-low (suc x) y = simp bit_or-bitwise (low_digit (λ d. d) max x y)

bit_and-nil : (fuel x : ℕ) → x ≤ fuel → bit_and x 0 ≡ 0
bit_and-nil zero zero h = refl
bit_and-nil zero (suc x) h = absurd (omega arith)
bit_and-nil (suc fuel) x h = omega (arith, bit_and-low x 0, bit_and-nil fuel (x / 2) (omega arith))

bit_or-nil : (fuel x : ℕ) → x ≤ fuel → bit_or x 0 ≡ x
bit_or-nil zero zero h = refl
bit_or-nil zero (suc x) h = absurd (omega arith)
bit_or-nil (suc fuel) x h = omega (arith, bit_or-low x 0, bit_or-nil fuel (x / 2) (omega arith))

mul-pow-suc : (q k : ℕ) → q * 2 ^ suc k ≡ q * 2 ^ k * 2
mul-pow-suc q k = omega (arith, ap (λ (t : ℕ). q * t) (pow-suc 2 k))

bit_and-field : (k q r : ℕ) → r < 2 ^ k → bit_and (q * 2 ^ k + r) (2 ^ k - 1) ≡ r
bit_and-field zero q r h = omega (arith, bit_and-nil (q * 2 ^ 0 + r) (q * 2 ^ 0 + r) (le_refl _))
bit_and-field (suc k) q r h = ground (
  arith,
  pow-suc 2 k,
  mul-pow-suc q k,
  one-le-pow k 2,
  bit_and-low (q * 2 ^ suc k + r) (2 ^ suc k - 1),
  bit_and-field k q (r / 2),
)

-- `x & ((1 << k) - 1)`
pub bit_and-ones : (k x : ℕ) → bit_and x (2 ^ k - 1) ≡ x % 2 ^ k
bit_and-ones k x = ground (arith, one-le-pow k 2, bit_and-field k (x / 2 ^ k) (x % 2 ^ k))

-- `(q << k) | r` where `r` has `k` bits.
pub bit_or-fields : (k q r : ℕ) → r < 2 ^ k → bit_or (q * 2 ^ k) r ≡ q * 2 ^ k + r
bit_or-fields zero q r h = ground (arith, bit_or-nil q q)
bit_or-fields (suc k) q r h =
    ground
      (arith, pow-suc 2 k, mul-pow-suc q k, bit_or-low (q * 2 ^ suc k) r, bit_or-fields k q (r / 2))

-- `r | (q << k)`, the fields the other way round.
bit_or_comm_fuel : (fuel x y : ℕ) → x ≤ fuel → y ≤ fuel → bit_or x y ≡ bit_or y x
bit_or_comm_fuel zero x y h k = rw (zero_of x h, zero_of y k)
  where
    zero_of : (n : ℕ) → n ≤ 0 → n ≡ 0
    zero_of n h = omega arith
bit_or_comm_fuel (suc fuel) x y h k = omega (
  arith,
  bit_or-low x y,
  bit_or-low y x,
  bit_or_comm_fuel fuel (x / 2) (y / 2) (omega arith) (omega arith),
)

pub bit_or_comm : (x y : ℕ) → bit_or x y ≡ bit_or y x
bit_or_comm x y = bit_or_comm_fuel (x + y) x y (omega arith) (omega arith)

pub bit_xor-low : (x y : ℕ) → bit_xor x y ≡ bit_xor (x / 2) (y / 2) * 2 + differ (x % 2) (y % 2)
bit_xor-low zero y = simp bit_xor-bitwise (ground arith)
bit_xor-low (suc x) y = simp bit_xor-bitwise (low_digit (λ d. d) differ x y)

differ-zero : (d : ℕ) → differ d 0 ≡ d
differ-zero zero = refl
differ-zero (suc d) = refl

differ-one : (d : ℕ) → d < 2 → differ d 1 ≡ 1 - d
differ-one zero h = refl
differ-one (suc zero) h = refl
differ-one (suc (suc d)) h = absurd (omega arith)

bit_xor-zero_fuel : (fuel x : ℕ) → x ≤ fuel → bit_xor x 0 ≡ x
bit_xor-zero_fuel zero zero h = refl
bit_xor-zero_fuel zero (suc x) h = absurd (omega arith)
bit_xor-zero_fuel (suc fuel) x h =
    omega
      (arith, bit_xor-low x 0, bit_xor-zero_fuel fuel (x / 2) (omega arith), differ-zero (x % 2))

pub bit_xor-zero : (x : ℕ) → bit_xor x 0 ≡ x
bit_xor-zero x = bit_xor-zero_fuel x x (omega arith)

-- `x ^ ((1 << k) - 1)` turns `k` bits over.
pub bit_xor-ones : (k x : ℕ) → x < 2 ^ k → bit_xor x (2 ^ k - 1) ≡ 2 ^ k - 1 - x
bit_xor-ones zero x h = omega (arith, bit_xor-zero x)
bit_xor-ones (suc k) x h = ground (
  arith,
  pow-suc 2 k,
  one-le-pow k 2,
  bit_xor-low x (2 ^ suc k - 1),
  bit_xor-ones k (x / 2),
  differ-one (x % 2) (omega arith),
)

div_pow-suc : (x k : ℕ) → x / 2 / 2 ^ k ≡ x / 2 ^ suc k
div_pow-suc x k =
    div-div-eq-div-mul x 2 (2 ^ k)
    ∙ ap (λ m. x / m) (let power : 2 * 2 ^ k ≡ 2 ^ suc k = omega (arith, pow-suc 2 k) in power)

-- `x & (1 << k)`
pub bit_and-power : (k x : ℕ) → bit_and x (2 ^ k) ≡ x / 2 ^ k % 2 * 2 ^ k
bit_and-power zero x = omega (arith, bit_and-ones 1 x)
bit_and-power (suc k) x =
    let halved : bit_and x (2 ^ suc k) ≡ bit_and (x / 2) (2 ^ k) * 2 =
      ground (arith, pow-suc 2 k, one-le-pow k 2, bit_and-low x (2 ^ suc k)) in
    halved
    ∙ ap (λ t. t * 2) (bit_and-power k (x / 2))
    ∙ ap (λ t. t % 2 * 2 ^ k * 2) (div_pow-suc x k)
    ∙ sym (mul-pow-suc (x / 2 ^ suc k % 2) k)
