-- ===== src/Mergesort.antt =====
-- omp/omp_mergesort/src/mergesort.hpp: the sort of a vector by tasks for its halves, and minimum and
-- maximum of omp/omp_stats/src/stats.hpp. A vector is the list of its elements, and `less` is the
-- operator < of their type. `sort` is std::sort on a range.
pub mod Merge
pub mod Slices
pub mod Tasks
pub mod Sorted
pub mod Unique
pub mod Extremes
use concurrente2025a_evan_ch.Base.{
  ℕ, zero, suc, ◌+◌, ◌-◌, ◌/◌, Bool, true, false, Option, none, some, List, [], ◌∷◌, ◌++◌, ltb,
  if◌then◌else◌, ◌>>=◌, take, drop, length,
}

module _ {A : Type 0} where
  -- The elements from index `left` up to `past`, and their replacement.
  abbrev pub slice : (left past : ℕ) → List A → List A
  slice left past values = take (past - left) (drop left values)

  abbrev pub replace : (left past : ℕ) (range values : List A) → List A
  replace left past range values = take left values ++ (range ++ drop past values)

-- What a task does to the vector at once: it sorts a range, or merges two neighbouring ranges and copies
-- the result back. Tasks that run at the same time work on ranges that do not overlap.
pub data Step : Type 0 where
  sort_range : (left past : ℕ) → Step
  merge_range : (left middle past : ℕ) → Step

-- The steps of two tasks in the order that a scheduler chooses: `true` lets the first task go on. What is
-- left when the choices or one of the tasks have ended follows.
unfoldable pub shuffle : List Bool → (first second : List Step) → List Step
shuffle [] first second = first ++ second
shuffle (choice ∷ choices) [] second = second
shuffle (choice ∷ choices) (x ∷ first) [] = x ∷ first
shuffle (true ∷ choices) (x ∷ first) (y ∷ second) = x ∷ shuffle choices first (y ∷ second)
shuffle (false ∷ choices) (x ∷ first) (y ∷ second) = y ∷ shuffle choices (x ∷ first) second

module _ (choices : ℕ → ℕ → List Bool) where
  -- The steps of `mergesort` on a range, with those of its tasks; the scheduler's choices are given for
  -- each range. `past` is `right + 1`; `none` has used up its fuel. The count that is compared with 1024
  -- is one less than the number of elements. `taskwait` waits for both tasks, so the merge comes last.
  unfoldable pub mergesort : (fuel left past : ℕ) → Option (List Step)
  unfolding shuffle
  mergesort zero left past = none
  mergesort (suc fuel) left past =
      let middle = (left + past - 1) / 2 + 1 in
      let halves =
        (mergesort fuel left middle >>= λ first. mergesort fuel middle past >>= λ second.
        some (shuffle (choices left past) first second ++ (merge_range left middle past ∷ []))) in
      if ltb (left + 1025) past then halves else some (sort_range left past ∷ [])

-- std::numeric_limits of the elements' type. `max` is its greatest finite value; `min` is the least value
-- of an integer type, but the least positive value of a floating-point type.
pub record NumericLimits (A : Type 0) : Type 0 where
  pub max : A
  pub min : A

module _ {A : Type 0} (less : A → A → Bool) where
  -- `std::merge` while the first range begins with `x`; `rest` merges what follows `x`.
  abbrev pub merge_with : (rest : List A → List A) (x : A) (xs ys : List A) → List A
  merge_with rest x xs [] = x ∷ xs
  merge_with rest x xs (y ∷ ys) =
      if less y x then y ∷ merge_with rest x xs ys else x ∷ rest (y ∷ ys)

  abbrev pub merge : (xs ys : List A) → List A
  merge [] ys = ys
  merge (x ∷ xs) ys = merge_with (merge xs) x xs ys

  module _ (sort : List A → List A) where
    abbrev pub perform_step : Step → List A → List A
    perform_step (sort_range left past) values =
        replace left past (sort (slice left past values)) values
    perform_step (merge_range left middle past) values =
        replace left past (merge (slice left middle values) (slice middle past values)) values

    abbrev pub perform : List Step → List A → List A
    perform [] values = values
    perform (step ∷ steps) values = perform steps (perform_step step values)

    -- The whole vector, by the single thread that starts the tasks.
    abbrev pub mergesort_all : (choices : ℕ → ℕ → List Bool) (fuel : ℕ) → List A → Option (List A)
    mergesort_all choices fuel values = do
      steps ← mergesort choices fuel 0 (length values)
      some (perform steps values)

  unfoldable pub least_from : (result : A) → List A → A
  least_from result [] = result
  least_from result (v ∷ values) = least_from (if less v result then v else result) values

  unfoldable pub greatest_from : (result : A) → List A → A
  greatest_from result [] = result
  greatest_from result (v ∷ values) = greatest_from (if less result v then v else result) values

  abbrev pub minimum : NumericLimits A → List A → A
  minimum limits values = least_from limits.max values

  abbrev pub maximum : NumericLimits A → List A → A
  maximum limits values = greatest_from limits.min values
