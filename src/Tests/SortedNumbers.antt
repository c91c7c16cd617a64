-- ===== src/Tests/SortedNumbers.antt =====
-- A vector of 1100 numbers that omp/omp_mergesort/src/mergesort.hpp sorts in two halves, and the extremes
-- of a small one.
use concurrente2025a_evan_ch.Base.{
  Bool, false, if◌then◌else◌, ℕ, zero, suc, ◌≡◌, refl, some, List, [], ◌∷◌, arith, length, ltb,
  ltb→lt, ltb_false→le, le→ltb_false,
}
use mathlib.Core.List.{Perm}
use mathlib.Core.List.Perm
use concurrente2025a_evan_ch.Mergesort.{NumericLimits, merge, mergesort_all, minimum, maximum}
use concurrente2025a_evan_ch.Mergesort.Merge.{
  IsOrder, IsSorted, merge-IsSorted, merge-Perm, length-merge,
}
use concurrente2025a_evan_ch.Mergesort.Sorted.{IsSort}
use concurrente2025a_evan_ch.Mergesort.Unique.{IsAntisymmetric, mergesort-sort}
use concurrente2025a_evan_ch.Mergesort.Extremes.{sort-minimum-maximum}

ltb-IsOrder : IsOrder ltb
ltb-IsOrder = record {
  le_of_less = λ a b h. le→ltb_false b a (omega (arith, ltb→lt a b h));
  le_trans = λ a b c h k. le→ltb_false c a (omega (arith, ltb_false→le b a h, ltb_false→le c b k));
}

ltb-IsAntisymmetric : IsAntisymmetric ltb
ltb-IsAntisymmetric a b h k = omega (arith, ltb_false→le b a h, ltb_false→le a b k)

-- A sort by insertion.
abbrev insertion : List ℕ → List ℕ
insertion [] = []
insertion (x ∷ xs) = merge ltb (x ∷ []) (insertion xs)

insertion-sorts : (xs : List ℕ) → IsSorted ltb (insertion xs)
insertion-sorts [] = tt
insertion-sorts (x ∷ xs) =
    merge-IsSorted ltb ltb-IsOrder (x ∷ []) (insertion xs) (tt, tt) (insertion-sorts xs)

insertion-permutes : (xs : List ℕ) → Perm (insertion xs) xs
insertion-permutes [] = Perm.refl []
insertion-permutes (x ∷ xs) =
    Perm.trans (merge-Perm ltb (x ∷ []) (insertion xs)) (Perm.cons x (insertion-permutes xs))

length-insertion : (xs : List ℕ) → length (insertion xs) ≡ length xs
length-insertion [] = refl
length-insertion (x ∷ xs) =
    omega (arith, length-merge ltb (x ∷ []) (insertion xs), length-insertion xs)

insertion-IsSort : IsSort ltb insertion
insertion-IsSort = record {
  sorts = insertion-sorts;
  permutes = insertion-permutes;
  keeps_length = length-insertion;
}

unfoldable countdown : ℕ → List ℕ
countdown zero = []
countdown (suc n) = n ∷ countdown n

length-countdown : (n : ℕ) → length (countdown n) ≡ n
unfolding countdown
length-countdown zero = refl
length-countdown (suc n) = omega (arith, length-countdown n)

-- The second task goes first.
abbrev second_first : ℕ → ℕ → List Bool
second_first left past = false ∷ []

mergesort-sort_example :
    mergesort_all ltb insertion second_first 1101 (countdown 1100)
    ≡ some (insertion (countdown 1100))
mergesort-sort_example =
    mergesort-sort ltb ltb-IsOrder insertion insertion-IsSort ltb-IsAntisymmetric second_first 1101
      (countdown 1100) (omega (arith, length-countdown 1100))

-- A type whose `min` is not its least value.
abbrev limits : NumericLimits ℕ
limits = record { max = 9; min = 8 }

sort-minimum-maximum_example :
    (minimum ltb limits (4 ∷ 2 ∷ 7 ∷ []) ≡ (if ltb 2 9 then 2 else 9))
    × (maximum ltb limits (4 ∷ 2 ∷ 7 ∷ []) ≡ (if ltb 8 7 then 7 else 8))
sort-minimum-maximum_example =
    sort-minimum-maximum ltb ltb-IsOrder insertion insertion-IsSort ltb-IsAntisymmetric limits 2 7
      (4 ∷ 2 ∷ 7 ∷ []) (4 ∷ 7 ∷ []) (2 ∷ 4 ∷ []) refl refl
