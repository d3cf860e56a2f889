-- ===== src/Base/Slices.antt =====
-- Lists cut at an index.
use quickjs_rs.Base.{ℕ, zero, suc, ◌+◌, ◌-◌, ◌≤◌, ◌≡◌, refl, ap, ◌∙◌, arith}
use quickjs_rs.Base.{List, [], ◌∷◌, ◌++◌, length, take, drop, length-take}

module _ {ℓ} {A : Type ℓ} where
  pub take-append : (xs ys : List A) (n : ℕ) → length xs ≡ n → take n (xs ++ ys) ≡ xs
  take-append [] ys zero e = refl
  take-append [] ys (suc n) e = absurd (omega arith)
  take-append (x ∷ xs) ys zero e = absurd (omega arith)
  take-append (x ∷ xs) ys (suc n) e = ap (λ l. x ∷ l) (take-append xs ys n (omega arith))

  pub drop-append : (xs ys : List A) (n : ℕ) → length xs ≡ n → drop n (xs ++ ys) ≡ ys
  drop-append [] ys zero e = refl
  drop-append [] ys (suc n) e = absurd (omega arith)
  drop-append (x ∷ xs) ys zero e = absurd (omega arith)
  drop-append (x ∷ xs) ys (suc n) e = drop-append xs ys n (omega arith)

  pub take-append_le : (xs ys : List A) (n : ℕ) → n ≤ length xs → take n (xs ++ ys) ≡ take n xs
  take-append_le xs ys zero h = refl
  take-append_le [] ys (suc n) h = absurd (omega arith)
  take-append_le (x ∷ xs) ys (suc n) h = ap (λ l. x ∷ l) (take-append_le xs ys n (omega arith))

  pub take-append_ge :
      (xs ys : List A) (n k : ℕ) → length xs ≡ k → k ≤ n → take n (xs ++ ys) ≡ xs ++ take (n - k) ys
  take-append_ge [] ys n k e h = ap (λ m. take m ys) (omega arith)
  take-append_ge (x ∷ xs) ys zero k e h = absurd (omega arith)
  take-append_ge (x ∷ xs) ys (suc n) zero e h = absurd (omega arith)
  take-append_ge (x ∷ xs) ys (suc n) (suc k) e h =
      ap (λ l. x ∷ l)
        (take-append_ge xs ys n k (omega arith) (omega arith)
          ∙ ap (λ m. xs ++ take m ys) (omega arith))

  pub take-take : (xs : List A) (n m : ℕ) → n ≤ m → take n (take m xs) ≡ take n xs
  take-take xs zero m h = refl
  take-take [] (suc n) zero h = refl
  take-take [] (suc n) (suc m) h = refl
  take-take (x ∷ xs) (suc n) zero h = absurd (omega arith)
  take-take (x ∷ xs) (suc n) (suc m) h = ap (λ l. x ∷ l) (take-take xs n m (omega arith))

  pub take_all : (xs : List A) (n : ℕ) → length xs ≤ n → take n xs ≡ xs
  take_all [] zero h = refl
  take_all [] (suc n) h = refl
  take_all (x ∷ xs) zero h = absurd (omega arith)
  take_all (x ∷ xs) (suc n) h = ap (λ l. x ∷ l) (take_all xs n (omega arith))

  pub drop-take : (xs : List A) (n m k : ℕ) → k ≡ n + m → drop n (take k xs) ≡ take m (drop n xs)
  drop-take xs zero m k e = ap (λ j. take j xs) (omega arith)
  drop-take [] (suc n) zero zero e = refl
  drop-take [] (suc n) (suc m) zero e = refl
  drop-take [] (suc n) zero (suc k) e = refl
  drop-take [] (suc n) (suc m) (suc k) e = refl
  drop-take (x ∷ xs) (suc n) m zero e = absurd (omega arith)
  drop-take (x ∷ xs) (suc n) m (suc k) e = drop-take xs n m k (omega arith)

-- `take n` fits where there are `n` items.
pub length-take_le {ℓ} : {A : Type ℓ} (n : ℕ) (xs : List A) → n ≤ length xs → length (take n xs) ≡ n
length-take_le n xs h = omega (arith, length-take n xs)
