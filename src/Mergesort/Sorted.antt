-- ===== src/Mergesort/Sorted.antt =====
-- mergesort of omp/omp_mergesort/src/mergesort.hpp sorts its range, whatever the order of its tasks.
use concurrente2025a_evan_ch.Base.{
  ℕ, zero, suc, ◌+◌, ◌-◌, ◌/◌, ◌<◌, ◌≤◌, ◌≡◌, refl, sym, ap, ◌∙◌, subst, Bool, Option, some, List,
  [], ◌∷◌, ◌++◌, arith, length, length-append, length-take, take, drop, lt→ltb, le→ltb_false, ◌>>=◌,
  dec_lt,
}
use mathlib.Core.List.{Perm}
use mathlib.Core.List.Perm
use concurrente2025a_evan_ch.Mergesort.{
  Step, sort_range, merge_range, shuffle, merge, perform, mergesort, mergesort_all,
}
use concurrente2025a_evan_ch.Mergesort.Merge.{
  IsOrder, IsSorted, merge-IsSorted, merge-Perm, length-merge,
}
use concurrente2025a_evan_ch.Mergesort.Slices.{append-Perm, take-drop}
use concurrente2025a_evan_ch.Mergesort.Tasks.{
  Trace, Trace-shuffle, Trace-last, Trace-perform, sort-Acts, merge-Acts,
}

-- What std::sort promises of a range.
pub record IsSort {A : Type 0} (less : A → A → Bool) (sort : List A → List A) : Type 0 where
  pub sorts : (xs : List A) → IsSorted less (sort xs)
  pub permutes : (xs : List A) → Perm (sort xs) xs
  pub keeps_length : (xs : List A) → length (sort xs) ≡ length xs

module _ {A : Type 0} (less : A → A → Bool) (order : IsOrder less) (sort : List A → List A)
    (is : IsSort less sort) where
  module _ (choices : ℕ → ℕ → List Bool) where
    -- The steps on a range end, and sort it.
    abbrev IsDone : (fuel left past : ℕ) (range : List A) → Type 0
    IsDone fuel left past range =
        (steps : List Step) × (sorted : List A) × (mergesort choices fuel left past ≡ some steps)
        × Trace less sort left steps range sorted
        × IsSorted less sorted
        × Perm sorted range
        × (length sorted ≡ length range)

    -- From the two sorted halves to the sorted range.
    join-IsDone :
        (fuel left middle past : ℕ) (a b : List A)
        → middle ≡ left + length a
        → past ≡ left + length a + length b
        → left + 1025 < past
        → middle ≡ (left + past - 1) / 2 + 1
        → IsDone fuel left middle a
        → IsDone fuel middle past b
        → IsDone (suc fuel) left past (a ++ b)
    unfolding mergesort
    join-IsDone fuel left middle past a b f g long m (first, a', run, t, so, pe, le)
          (second, b', run', t', so', pe', le') =
        let shuffled = shuffle (choices left past) first second in
        (
          shuffled ++ (merge_range left middle past ∷ []),
          merge less a' b',
          rw (lt→ltb (left + 1025) past long, sym m)
              (ap
                  (λ (o : Option (List Step)). o >>= λ xs.
                    mergesort choices fuel middle past >>= λ ys.
                    some (shuffle (choices left past) xs ys ++ (merge_range left middle past ∷ [])))
                  run
                ∙ ap
                    (λ (o : Option (List Step)). o >>= λ ys.
                      some (
                        shuffle (choices left past) first ys
                        ++ (merge_range left middle past ∷ [])))
                    run'),
          Trace-last less sort left shuffled (merge_range left middle past) (a ++ b) (a' ++ b')
              (merge less a' b')
              (Trace-shuffle less sort (choices left past) left first second a a' b b' t
                (subst (λ (n : ℕ). Trace less sort n second b b') f t'))
              (merge-Acts less sort left middle past a' b' (omega arith) (omega arith))
              (length-merge less a' b' ∙ sym (length-append a' b')),
          merge-IsSorted less order a' b' so so',
          Perm.trans (merge-Perm less a' b') (append-Perm pe pe'),
          omega (arith, length-merge less a' b', length-append a b),
        )

    mergesort_lem :
        (fuel left past : ℕ) (range : List A)
        → past ≡ left + length range
        → length range < fuel
        → IsDone fuel left past range
    unfolding mergesort
    mergesort_lem zero left past range f enough = absurd (omega arith)
    mergesort_lem (suc fuel) left past range f enough = elim (dec_lt (left + 1025) past) [
      | no short ↦ (
        sort_range left past ∷ [],
        sort range,
        rw (le→ltb_false (left + 1025) past (omega arith)),
        (sort range, sort-Acts less sort left past range f, is.keeps_length range, refl),
        is.sorts range,
        is.permutes range,
        is.keeps_length range,
      )
      | yes long ↦
          let middle = (left + past - 1) / 2 + 1 in
          let k = middle - left in
          let a = take k range in
          let b = drop k range in
          let parts : a ++ b ≡ range = take-drop k range in
          let bounds : (left + 1 ≤ middle) × (middle + 1 ≤ past) = (omega arith, omega arith) in
          let left_length : length a ≡ k = length-take k range (omega arith) in
          let lengths : length a + length b ≡ length range =
            sym (length-append a b) ∙ ap length parts in
          subst (λ r. IsDone (suc fuel) left past r) parts
            (join-IsDone fuel left middle past a b (omega arith) (omega arith) long refl
              (mergesort_lem fuel left middle a (omega arith) (omega arith))
              (mergesort_lem fuel middle past b (omega arith) (omega arith)))
    ]

    -- For an order that is total and transitive and a std::sort that sorts: with more fuel than there are
    -- elements, whatever the order of the tasks' steps, mergesort ends, the vector is sorted, and it is a
    -- permutation of what it was.
    pub mergesort-IsSorted :
        (fuel : ℕ) (values : List A)
        → length values < fuel
        → (sorted : List A) × (mergesort_all less sort choices fuel values ≡ some sorted)
          × IsSorted less sorted
          × Perm sorted values
    mergesort-IsSorted fuel values enough =
        let (steps, sorted, runs, trace, so, pe, le) =
          mergesort_lem fuel 0 (length values) values (omega arith) enough in
        (
          sorted,
          ap (λ (o : Option (List Step)). o >>= λ xs. some (perform less sort xs values)) runs
              ∙ ap some (Trace-perform less sort steps values sorted trace),
          so,
          pe,
        )
