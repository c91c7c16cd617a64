-- ===== src/Mergesort/Merge.antt =====
-- Merging two sorted lists, and an order (omp/omp_mergesort/src/mergesort.hpp).
use concurrente2025a_evan_ch.Base.{
  ◌+◌, ◌≡◌, Bool, true, false, List, [], ◌∷◌, ◌++◌, arith, All, length, Bool-cases, inl, inr,
}
use mathlib.Core.List.{Perm, perm_middle}
use mathlib.Core.List.Perm
use concurrente2025a_evan_ch.Mergesort.{merge}

module _ {A : Type 0} (less : A → A → Bool) where
  -- `a` may stand before `b`.
  abbrev pub Le : A → A → Type 0
  Le a b = less b a ≡ false

  -- What std::sort and std::merge ask of `less`: the order that it leaves is total and transitive.
  pub record IsOrder : Type 0 where
    pub le_of_less : (a b : A) → less a b ≡ true → Le a b
    pub le_trans : (a b c : A) → Le a b → Le b c → Le a c

  abbrev pub IsSorted : List A → Type 0
  IsSorted [] = Unit
  IsSorted (x ∷ xs) = All (Le x) xs × IsSorted xs

  pub All-le : (order : IsOrder) (a b : A) (xs : List A) → Le a b → All (Le b) xs → All (Le a) xs
  All-le order a b [] h k = tt
  All-le order a b (x ∷ xs) h (k, ks) = (order.le_trans a b x h k, All-le order a b xs h ks)

  -- What holds of all elements of two lists holds of all elements of their merge.
  merge-All : (P : A → Type 0) (xs ys : List A) → All P xs → All P ys → All P (merge less xs ys)
  merge-All P [] ys h k = k
  merge-All P (x ∷ xs) [] h k = h
  merge-All P (x ∷ xs) (y ∷ ys) h k = elim (Bool-cases (less y x)) [
    | inl e ↦ rw e (k.0, merge-All P (x ∷ xs) ys h k.1)
    | inr e ↦ rw e (h.0, merge-All P xs (y ∷ ys) h.1 k)
  ]

  pub merge-IsSorted :
      (order : IsOrder) (xs ys : List A) → IsSorted xs → IsSorted ys → IsSorted (merge less xs ys)
  merge-IsSorted order [] ys h k = k
  merge-IsSorted order (x ∷ xs) [] h k = h
  merge-IsSorted order (x ∷ xs) (y ∷ ys) h k = elim (Bool-cases (less y x)) [
    | inl e ↦
        let before : Le y x = order.le_of_less y x e in
        rw e (
          merge-All (Le y) (x ∷ xs) ys (before, All-le order y x xs before h.0) k.0,
          merge-IsSorted order (x ∷ xs) ys h k.1,
        )
    | inr e ↦ rw e (
      merge-All (Le x) xs (y ∷ ys) h.0 (e, All-le order x y ys e k.0),
      merge-IsSorted order xs (y ∷ ys) h.1 k,
    )
  ]

  append_nil-Perm : (xs : List A) → Perm xs (xs ++ [])
  append_nil-Perm [] = Perm.refl []
  append_nil-Perm (x ∷ xs) = Perm.cons x (append_nil-Perm xs)

  pub merge-Perm : (xs ys : List A) → Perm (merge less xs ys) (xs ++ ys)
  merge-Perm [] ys = Perm.refl ys
  merge-Perm (x ∷ xs) [] = append_nil-Perm (x ∷ xs)
  merge-Perm (x ∷ xs) (y ∷ ys) = elim (Bool-cases (less y x)) [
    | inl e ↦
        rw e
          (Perm.trans (Perm.cons y (merge-Perm (x ∷ xs) ys)) (Perm.symm (perm_middle (x ∷ xs) ys)))
    | inr e ↦ rw e (Perm.cons x (merge-Perm xs (y ∷ ys)))
  ]

  pub length-merge : (xs ys : List A) → length (merge less xs ys) ≡ length xs + length ys
  length-merge [] ys = omega arith
  length-merge (x ∷ xs) [] = omega arith
  length-merge (x ∷ xs) (y ∷ ys) = elim (Bool-cases (less y x)) [
    | inl e ↦ rw e (omega (arith, length-merge (x ∷ xs) ys))
    | inr e ↦ rw e (omega (arith, length-merge xs (y ∷ ys)))
  ]
