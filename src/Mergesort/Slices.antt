-- ===== src/Mergesort/Slices.antt =====
-- The ranges of a vector in omp/omp_mergesort/src/mergesort.hpp, and what stands around them.
use concurrente2025a_evan_ch.Base.{
  ℕ, zero, suc, ◌+◌, ◌-◌, ◌≡◌, refl, sym, ap, ap₂, ◌∙◌, List, [], ◌∷◌, ◌++◌, arith, length,
  length-append, take, drop, take-append, drop-append,
}
use mathlib.Core.List.{Perm}
use mathlib.Core.List.Perm
use concurrente2025a_evan_ch.Mergesort.{slice, replace}

module _ {A : Type 0} where
  pub append_nil : (xs : List A) → xs ++ [] ≡ xs
  append_nil [] = refl
  append_nil (x ∷ xs) = ap (λ ws. x ∷ ws) (append_nil xs)

  pub append-Perm :
      {xs xs' ys ys' : List A} → Perm xs' xs → Perm ys' ys → Perm (xs' ++ ys') (xs ++ ys)
  append-Perm p q = Perm.append p q

  pub append_assoc : (xs ys zs : List A) → (xs ++ ys) ++ zs ≡ xs ++ (ys ++ zs)
  append_assoc [] ys zs = refl
  append_assoc (x ∷ xs) ys zs = ap (λ ws. x ∷ ws) (append_assoc xs ys zs)

  pub take-drop : (n : ℕ) (xs : List A) → take n xs ++ drop n xs ≡ xs
  take-drop zero xs = refl
  take-drop (suc n) [] = refl
  take-drop (suc n) (x ∷ xs) = ap (λ ws. x ∷ ws) (take-drop n xs)

  -- A list that is put together of three.
  abbrev pub around : (pre range post : List A) → List A
  around pre range post = pre ++ (range ++ post)

  pub slice_lem :
      (left past : ℕ) (pre range post : List A)
      → left ≡ length pre
      → past ≡ length pre + length range
      → slice left past (around pre range post) ≡ range
  slice_lem left past pre range post e f =
      let size : past - left ≡ length range = omega arith in
      ap₂ (λ n m. take n (drop m (around pre range post))) size e
      ∙ ap (take (length range)) (drop-append pre (range ++ post))
      ∙ take-append range post

  pub replace_lem :
      (left past : ℕ) (pre range new post : List A)
      → left ≡ length pre
      → past ≡ length pre + length range
      → replace left past new (around pre range post) ≡ around pre new post
  replace_lem left past pre range new post e f =
      let whole : past ≡ length (pre ++ range) = omega (arith, length-append pre range) in
      ap₂ (λ n m. take n (around pre range post) ++ (new ++ drop m (around pre range post))) e whole
      ∙ ap (λ ws. ws ++ (new ++ drop (length (pre ++ range)) (around pre range post)))
          (take-append pre (range ++ post))
      ∙ ap (λ ws. pre ++ (new ++ drop (length (pre ++ range)) ws))
          (sym (append_assoc pre range post))
      ∙ ap (λ ws. pre ++ (new ++ ws)) (drop-append (pre ++ range) post)
