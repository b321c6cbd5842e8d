-- ===== src/Handler/Counting.antt =====
-- How often a reference stands in a list.
use clibdpa.Base.{ℕ, ◌+◌, ◌≡◌, ◌≢◌, List, [], ◌∷◌, ◌++◌, All, ◌==◌, if◌then◌else◌, arith}

abbrev pub count : ℕ → List ℕ → ℕ
count i [] = 0
count i (x ∷ xs) = (if x == i then 1 else 0) + count i xs

pub count-append : (i : ℕ) (xs ys : List ℕ) → count i (xs ++ ys) ≡ count i xs + count i ys
count-append i [] ys = omega arith
count-append i (x ∷ xs) ys = omega (arith, count-append i xs ys)

-- A list in which it does not stand.
pub count-All : (i : ℕ) (xs : List ℕ) → count i xs ≡ 0 → All (λ j. j ≢ i) xs
count-All i [] h = tt
count-All i (x ∷ xs) h = (λ e. ground arith, count-All i xs (ground arith))
