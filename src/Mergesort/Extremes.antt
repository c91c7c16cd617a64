-- ===== src/Mergesort/Extremes.antt =====
-- minimum and maximum of omp/omp_stats/src/stats.hpp are the ends of the sorted vector.
use concurrente2025a_evan_ch.Base.{
  ◌≡◌, refl, sym, ◌∙◌, subst, Bool, false, List, [], ◌∷◌, ◌++◌, All, of_append-All, if◌then◌else◌,
  Bool-cases, inl, inr,
}
use mathlib.Core.List.{Mem, mem-cons_self, mem-append_right}
use mathlib.Core.List.Perm
use mathlib.Core.Bool.{Bool-set}
use concurrente2025a_evan_ch.Mergesort.{NumericLimits, least_from, greatest_from, minimum, maximum}
use concurrente2025a_evan_ch.Mergesort.Merge.{Le, IsOrder, IsSorted, All-le}
use concurrente2025a_evan_ch.Mergesort.Sorted.{IsSort}
use concurrente2025a_evan_ch.Mergesort.Unique.{
  IsAntisymmetric, Le-refl, All-Mem, All-of_mem, All-Perm,
}

module _ {A : Type 0} (less : A → A → Bool) (order : IsOrder less) where
  least_from-above :
      (x result : A) (values : List A)
      → Le less x result
      → All (Le less x) values
      → Le less x (least_from less result values)
  unfolding least_from
  least_from-above x result [] h k = h
  least_from-above x result (v ∷ values) h (k, ks) = elim (Bool-cases (less v result)) [
    | inl e ↦ rw e (least_from-above x v values k ks)
    | inr e ↦ rw e (least_from-above x result values h ks)
  ]

  least_from-below :
      (x result : A) (values : List A)
      → Le less result x
      → Le less (least_from less result values) x
  unfolding least_from
  least_from-below x result [] h = h
  least_from-below x result (v ∷ values) h = elim (Bool-cases (less v result)) [
    | inl e ↦
        rw e
          (least_from-below x v values (order.le_trans v result x (order.le_of_less v result e) h))
    | inr e ↦ rw e (least_from-below x result values h)
  ]

  smaller_le : (v result : A) → Le less (if less v result then v else result) v
  smaller_le v result = elim (Bool-cases (less v result)) [
    | inl e ↦ rw e (Le-refl less order v)
    | inr e ↦ rw e e
  ]

  least_from-least :
      (result : A) (values : List A) → All (Le less (least_from less result values)) values
  unfolding least_from
  least_from-least result [] = tt
  least_from-least result (v ∷ values) =
      let smaller = if less v result then v else result in
      (least_from-below v smaller values (smaller_le v result), least_from-least smaller values)

  -- The lesser of the least element and the value that the loop begins with.
  least_from_lem :
      IsAntisymmetric less
      → (x limit : A) (values : List A) → Mem x values
      → All (Le less x) values
      → least_from less limit values ≡ (if less x limit then x else limit)
  least_from_lem anti x limit values m least = elim (Bool-cases (less x limit)) [
    | inl e ↦ rw e (
        anti (least_from less limit values) x below_x
          (least_from-above x limit values (order.le_of_less x limit e) least))
    | inr e ↦ rw e (
        anti (least_from less limit values) limit
          (least_from-below limit limit values (Le-refl less order limit))
          (least_from-above limit limit values (Le-refl less order limit)
            (All-le less order limit x values e least)))
  ]
    where
      below_x : Le less (least_from less limit values) x
      below_x =
          All-Mem less order (Le less (least_from less limit values))
            (λ v. Bool-set (less v (least_from less limit values)) false) values
            (least_from-least limit values) x m

module _ {A : Type 0} (less : A → A → Bool) where
  -- The opposite order.
  abbrev more : A → A → Bool
  more a b = less b a

  more-IsOrder : IsOrder less → IsOrder more
  more-IsOrder order = record {
    le_of_less = λ a b. order.le_of_less b a;
    le_trans = λ a b c h k. order.le_trans c b a k h;
  }

  greatest_from_lem :
      (result : A) (values : List A)
      → greatest_from less result values ≡ least_from more result values
  unfolding least_from greatest_from
  greatest_from_lem result [] = refl
  greatest_from_lem result (v ∷ values) =
      greatest_from_lem (if less result v then v else result) values

  last-greatest :
      IsOrder less
      → (xs : List A) (x : A) → IsSorted less (xs ++ (x ∷ []))
      → All (λ v. Le less v x) (xs ++ (x ∷ []))
  last-greatest order [] x h = (Le-refl less order x, tt)
  last-greatest order (y ∷ ys) x (h, hs) =
      ((of_append-All (Le less y) ys (x ∷ []) h).1.0, last-greatest order ys x hs)

module _ {A : Type 0} (less : A → A → Bool) (order : IsOrder less) (sort : List A → List A)
    (is : IsSort less sort) where
  -- What holds of the sorted vector's elements holds of the vector's.
  of_sort-All :
      (P : A → Type 0)
      → ((x : A) → IsProp (P x))
      → (values sorted : List A) → sort values ≡ sorted
      → All P sorted
      → All P values
  of_sort-All P prop values sorted e h = All-of_mem less order P prop values (
      All-Perm less order P prop (sort values) values (subst (All P) (sym e) h)
        (Perm.symm (is.permutes values)))

  Mem-of_sort :
      (values sorted : List A) (x : A) → sort values ≡ sorted → Mem x sorted → Mem x values
  Mem-of_sort values sorted x e m = (Perm.mem_iff (is.permutes values)).0 (subst (Mem x) (sym e) m)

  -- For a total, transitive and antisymmetric order and a std::sort that sorts: minimum is the first
  -- element of the sorted vector unless numeric_limits::max() is not above it, and maximum is the last one
  -- if that is above numeric_limits::min(), and is numeric_limits::min() otherwise.
  pub sort-minimum-maximum :
      IsAntisymmetric less
      → (limits : NumericLimits A) (first last : A) (values rest front : List A)
      → sort values ≡ first ∷ rest
      → sort values ≡ front ++ (last ∷ [])
      → (minimum less limits values ≡ (if less first limits.max then first else limits.max))
        × (maximum less limits values ≡ (if less limits.min last then last else limits.min))
  sort-minimum-maximum anti limits first last values rest front e f =
      let from_first : IsSorted less (first ∷ rest) = subst (IsSorted less) e (is.sorts values) in
      let to_last : IsSorted less (front ++ (last ∷ [])) =
        subst (IsSorted less) f (is.sorts values) in
      (
        least_from_lem less order anti first limits.max values
            (Mem-of_sort values (first ∷ rest) first e mem-cons_self)
            (of_sort-All (Le less first) (λ v. Bool-set (less v first) false) values (first ∷ rest)
              e (Le-refl less order first, from_first.0)),
        greatest_from_lem less limits.min values
            ∙ least_from_lem (more less) (more-IsOrder less order) (λ a b h k. anti a b k h) last
                limits.min values
                (Mem-of_sort values (front ++ (last ∷ [])) last f
                  (mem-append_right front mem-cons_self))
                (of_sort-All (λ v. Le less v last) (λ v. Bool-set (less last v) false) values
                  (front ++ (last ∷ [])) f (last-greatest less order front last to_last)),
      )
