-- ===== src/Mergesort/Unique.antt =====
-- A list has one sorted permutation when equal places mean equal elements, so mergesort
-- (omp/omp_mergesort/src/mergesort.hpp) and std::sort give the same vector.
use concurrente2025a_evan_ch.Base.{
  ℕ, ◌<◌, ◌≡◌, sym, ap, ap₂, ◌∙◌, subst, Bool, false, some, List, [], ◌∷◌, All, length, Bool-cases,
  inl, inr,
}
use mathlib.Core.List.{Mem, Perm, forall_mem-cons, not-mem-nil, mem-cons_self}
use mathlib.Core.List.Perm
use mathlib.Core.Bool.{Bool-set}
use concurrente2025a_evan_ch.Mergesort.{mergesort_all}
use concurrente2025a_evan_ch.Mergesort.Merge.{Le, IsOrder, IsSorted}
use concurrente2025a_evan_ch.Mergesort.Sorted.{IsSort, mergesort-IsSorted}

-- Elements that may stand in either order are equal, as numbers are.
abbrev pub IsAntisymmetric : {A : Type 0} → (less : A → A → Bool) → Type 0
IsAntisymmetric {A} less = (a b : A) → Le less a b → Le less b a → a ≡ b

module _ {A : Type 0} (less : A → A → Bool) (order : IsOrder less) where
  pub Le-refl : (a : A) → Le less a a
  Le-refl a = elim (Bool-cases (less a a)) [ inl e ↦ order.le_of_less a a e | inr e ↦ e ]

  pub All-Mem :
      (P : A → Type 0)
      → ((x : A) → IsProp (P x))
      → (xs : List A) → All P xs
      → (x : A) → Mem x xs
      → P x
  All-Mem P prop [] h = λ x m. absurd (not-mem-nil m)
  All-Mem P prop (y ∷ ys) (k, h) = (forall_mem-cons prop).1 (k, All-Mem P prop ys h)

  pub All-of_mem :
      (P : A → Type 0)
      → ((x : A) → IsProp (P x))
      → (xs : List A) → ((x : A) → Mem x xs → P x)
      → All P xs
  All-of_mem P prop [] h = tt
  All-of_mem P prop (x ∷ xs) h =
      let (k, ks) = (forall_mem-cons prop).0 h in (k, All-of_mem P prop xs ks)

  pub All-Perm :
      (P : A → Type 0)
      → ((x : A) → IsProp (P x))
      → (xs ys : List A) → All P xs
      → Perm ys xs
      → (y : A) → Mem y ys
      → P y
  All-Perm P prop xs ys h p y m = All-Mem P prop xs h y ((Perm.mem_iff p).0 m)

  heads_le :
      (x y : A) (xs ys : List A) → IsSorted less (x ∷ xs) → Perm (y ∷ ys) (x ∷ xs) → Le less x y
  heads_le x y xs ys so p =
      All-Perm (Le less x) (λ z. Bool-set (less z x) false) (x ∷ xs) (y ∷ ys) (Le-refl x, so.0) p y
        mem-cons_self

  pub IsSorted-unique :
      IsAntisymmetric less
      → (xs ys : List A) → IsSorted less xs
      → IsSorted less ys
      → Perm xs ys
      → xs ≡ ys
  IsSorted-unique anti [] ys h k p = Perm.nil-eq p
  IsSorted-unique anti (x ∷ xs) [] h k p = Perm.eq-nil p
  IsSorted-unique anti (x ∷ xs) (y ∷ ys) h k p =
      let heads : x ≡ y = anti x y (heads_le x y xs ys h (Perm.symm p)) (heads_le y x ys xs k p) in
      let tails : Perm xs ys = Perm.cons_inv (subst (λ z. Perm (x ∷ xs) (z ∷ ys)) (sym heads) p) in
      ap₂ (λ z zs. z ∷ zs) heads (IsSorted-unique anti xs ys h.1 k.1 tails)

  -- For a total, transitive and antisymmetric order and a std::sort that sorts: with more fuel than there
  -- are elements, and whatever the order of the tasks' steps, mergesort on a whole vector ends with the vector that std::sort gives.
  pub mergesort-sort :
      (sort : List A → List A)
      → IsSort less sort
      → IsAntisymmetric less
      → (choices : ℕ → ℕ → List Bool) (fuel : ℕ) (values : List A) → length values < fuel
      → mergesort_all less sort choices fuel values ≡ some (sort values)
  mergesort-sort sort is anti choices fuel values enough =
      let (sorted, runs, so, p) =
        mergesort-IsSorted less order sort is choices fuel values enough in
      runs
      ∙ ap some (
          IsSorted-unique anti sorted (sort values) so (is.sorts values)
            (Perm.trans p (Perm.symm (is.permutes values))))
