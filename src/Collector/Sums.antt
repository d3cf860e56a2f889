-- ===== src/Collector/Sums.antt =====
-- Sums over lists of objects, of which counting and the number of references are instances: a list
-- is compared with another by its sums, so their order does not matter.
use quickjs_rs.Base.{
  ℕ, zero, suc, ◌+◌, ◌≤◌, ◌<◌, ◌≡◌, ◌≢◌, refl, ap, arith, none, some, List, [], ◌∷◌, ◌++◌, true,
  false, ◌==◌, if◌then◌else◌, length, Bool-cases, inl, inr, ◌⊎◌,
}
use quickjs_rs.Collector.Marking.{Objects, children}
use quickjs_rs.Collector.Passes.{remove, first, after}

abbrev pub sum : (ℕ → ℕ) → List ℕ → ℕ
sum f [] = 0
sum f (x ∷ l) = f x + sum f l

abbrev pub bit : ℕ → ℕ → ℕ
bit o x = if x == o then 1 else 0

abbrev pub count : ℕ → List ℕ → ℕ
count o l = sum (bit o) l

-- The objects an object refers to, where `children` does not abort.
abbrev pub kids : Objects → ℕ → List ℕ
kids m p = elim (children m p) [ none ↦ [] | some ps ↦ ps ]

-- How often the objects of a list refer to `o`.
abbrev pub refs : Objects → ℕ → List ℕ → ℕ
refs m o l = sum (λ p. count o (kids m p)) l

pub sum-append : (f : ℕ → ℕ) (l k : List ℕ) → sum f (l ++ k) ≡ sum f l + sum f k
sum-append f [] k = omega arith
sum-append f (x ∷ l) k = omega (arith, sum-append f l k)

pub zero_or_positive : (n : ℕ) → (n ≡ 0) ⊎ (0 < n)
zero_or_positive zero = inl refl
zero_or_positive (suc n) = inr (omega arith)

pub length-sum : (l : List ℕ) → length l ≡ sum (λ x. 1) l
length-sum [] = refl
length-sum (x ∷ l) = omega (arith, length-sum l)

pub bit_self : (o : ℕ) → bit o o ≡ 1
bit_self o = ground arith

pub bit-apart : (o x : ℕ) → x ≢ o → bit o x ≡ 0
bit-apart o x d = ground arith

count-skip : (x y : ℕ) (l : List ℕ) → (y == x) ≡ false → count x (y ∷ l) ≡ count x l
count-skip x y l e = rw (e) (omega arith)

count-here : (x y : ℕ) (l : List ℕ) → (y == x) ≡ true → count x (y ∷ l) ≡ 1 + count x l
count-here x y l e = rw (e) refl

remove-skip : (x y : ℕ) (l : List ℕ) → (y == x) ≡ false → remove x (y ∷ l) ≡ y ∷ remove x l
unfolding remove
remove-skip x y l e = rw (e) refl

remove-here : (x y : ℕ) (l : List ℕ) → (y == x) ≡ true → remove x (y ∷ l) ≡ l
unfolding remove
remove-here x y l e = rw (e) refl

sum-remove_after :
    (f : ℕ → ℕ) (x y : ℕ) (l : List ℕ)
    → (0 < count x l → sum f (remove x l) + f x ≡ sum f l)
    → 0 < count x (y ∷ l)
    → sum f (remove x (y ∷ l)) + f x ≡ sum f (y ∷ l)
sum-remove_after f x y l ih h = elim (Bool-cases (y == x)) [
  | inl e ↦ let same : x ≡ y = ground arith in rw (remove-here x y l e) (omega (arith, ap f same))
  | inr e ↦
      rw (remove-skip x y l e) (let ih' = ih (omega (arith, count-skip x y l e)) in omega arith)
]

pub sum-remove :
    (f : ℕ → ℕ) (x : ℕ) (l : List ℕ) → 0 < count x l → sum f (remove x l) + f x ≡ sum f l
sum-remove f x [] h = omega arith
sum-remove f x (y ∷ l) h = sum-remove_after f x y l (sum-remove f x l) h

-- The sum is at least the summand of each member.
pub summand_le : (f : ℕ → ℕ) (x : ℕ) (l : List ℕ) → 0 < count x l → f x ≤ sum f l
summand_le f x l h = omega (arith, sum-remove f x l h)

pub remove-absent : (x : ℕ) (l : List ℕ) → count x l ≡ 0 → remove x l ≡ l
unfolding remove
remove-absent x [] h = refl
remove-absent x (y ∷ l) h = elim (Bool-cases (y == x)) [
  | inl e ↦ absurd (omega (arith, count-here x y l e))
  | inr e ↦ rw (e) (ap (λ k. y ∷ k) (remove-absent x l (omega (arith, count-skip x y l e))))
]

pub remove-append : (x : ℕ) (l k : List ℕ) → 0 < count x l → remove x (l ++ k) ≡ remove x l ++ k
unfolding remove
remove-append x [] k h = absurd (omega arith)
remove-append x (y ∷ l) k h = elim (Bool-cases (y == x)) [
  | inl e ↦ rw (e) refl
  | inr e ↦ rw (e) (ap (λ k. y ∷ k) (remove-append x l k (omega (arith, count-skip x y l e))))
]

pub after-append : (p : ℕ) (l k : List ℕ) → count p l ≡ 0 → after p (l ++ (p ∷ k)) ≡ some (first k)
unfolding after
after-append p [] k h = let e : (p == p) ≡ true = ground arith in rw (e) refl
after-append p (y ∷ l) k h = elim (Bool-cases (y == p)) [
  | inl e ↦ absurd (omega (arith, count-here p y l e))
  | inr e ↦ rw (e) (after-append p l k (omega (arith, count-skip p y l e)))
]
