-- ===== src/Mergesort/Tasks.antt =====
-- The steps of tasks on neighbouring ranges do not disturb each other, in any order
-- (omp/omp_mergesort/src/mergesort.hpp).
use concurrente2025a_evan_ch.Base.{
  true, false, ℕ, ◌+◌, ◌≡◌, refl, sym, ap, ap₂, ◌∙◌, subst, Bool, List, [], ◌∷◌, ◌++◌, arith,
  length, length-append,
}
use concurrente2025a_evan_ch.Mergesort.{
  Step, sort_range, merge_range, shuffle, merge, slice, replace, perform_step, perform,
}
use concurrente2025a_evan_ch.Mergesort.Slices.{
  append_nil, append_assoc, slice_lem, replace_lem, around,
}

module _ {A : Type 0} (less : A → A → Bool) (sort : List A → List A) where
  -- A step that changes `range`, which begins at `left`, into `new`, whatever is around it.
  abbrev pub Acts : (left : ℕ) (step : Step) (range new : List A) → Type 0
  Acts left step range new =
      (pre post : List A)
      → left ≡ length pre
      → perform_step less sort step (around pre range post) ≡ around pre new post

  -- Steps that do so one after the other, and keep the length.
  abbrev pub Trace : (left : ℕ) → List Step → (range final : List A) → Type 0
  Trace left [] range final = range ≡ final
  Trace left (step ∷ steps) range final =
      (new : List A) × Acts left step range new
      × (length new ≡ length range)
      × Trace left steps new final

  -- A step on one of two neighbouring ranges leaves the other.
  Acts-left :
      (left : ℕ) (step : Step) (a a' b : List A)
      → Acts left step a a'
      → Acts left step (a ++ b) (a' ++ b)
  Acts-left left step a a' b acts pre post e =
      ap (λ ws. perform_step less sort step (pre ++ ws)) (append_assoc a b post)
      ∙ acts pre (b ++ post) e
      ∙ ap (λ ws. pre ++ ws) (sym (append_assoc a' b post))

  Acts-right :
      (left : ℕ) (step : Step) (a b b' : List A)
      → Acts (left + length a) step b b'
      → Acts left step (a ++ b) (a ++ b')
  Acts-right left step a b b' acts pre post e =
      ap (λ ws. perform_step less sort step (pre ++ ws)) (append_assoc a b post)
      ∙ ap (perform_step less sort step) (sym (append_assoc pre a (b ++ post)))
      ∙ acts (pre ++ a) post (omega (arith, length-append pre a))
      ∙ append_assoc pre a (b' ++ post)
      ∙ ap (λ ws. pre ++ ws) (sym (append_assoc a b' post))

  Trace-right :
      (left : ℕ) (second : List Step) (a b b' : List A)
      → Trace (left + length a) second b b'
      → Trace left second (a ++ b) (a ++ b')
  Trace-right left [] a b b' e = ap (λ ws. a ++ ws) e
  Trace-right left (y ∷ second) a b b' (new, acts, size, rest) = (
    a ++ new,
    Acts-right left y a b new acts,
    omega (arith, length-append a new, length-append a b),
    Trace-right left second a new b' rest,
  )

  Trace-then :
      (left : ℕ) (first : List Step) (a a' b b' : List A) (second : List Step)
      → Trace left first a a'
      → Trace (left + length a) second b b'
      → Trace left (first ++ second) (a ++ b) (a' ++ b')
  Trace-then left [] a a' b b' second e t =
      subst (λ ws. Trace left second (a ++ b) (ws ++ b')) e (Trace-right left second a b b' t)
  Trace-then left (x ∷ first) a a' b b' second (new, acts, size, rest) t = (
    new ++ b,
    Acts-left left x a new b acts,
    omega (arith, length-append new b, length-append a b),
    Trace-then left first new a' b b' second rest
        (subst (λ (n : ℕ). Trace (left + n) second b b') (sym size) t),
  )

  -- Two tasks on neighbouring ranges, in any order of their steps.
  pub Trace-shuffle :
      (choices : List Bool) (left : ℕ) (first second : List Step) (a a' b b' : List A)
      → Trace left first a a'
      → Trace (left + length a) second b b'
      → Trace left (shuffle choices first second) (a ++ b) (a' ++ b')
  unfolding shuffle
  Trace-shuffle [] left first second a a' b b' s t = Trace-then left first a a' b b' second s t
  Trace-shuffle (choice ∷ choices) left [] second a a' b b' s t =
      Trace-then left [] a a' b b' second s t
  Trace-shuffle (choice ∷ choices) left (x ∷ first) [] a a' b b' (new, acts, size, rest) t = (
    new ++ b,
    Acts-left left x a new b acts,
    omega (arith, length-append new b, length-append a b),
    subst (λ steps. Trace left steps (new ++ b) (a' ++ b')) (append_steps first)
        (Trace-then left first new a' b b' [] rest t),
  )
    where
      append_steps : (steps : List Step) → steps ++ [] ≡ steps
      append_steps [] = refl
      append_steps (z ∷ steps) = ap (λ zs. z ∷ zs) (append_steps steps)
  Trace-shuffle (true ∷ choices) left (x ∷ first) (y ∷ second) a a' b b' (new, acts, size, rest) t =
      (
        new ++ b,
        Acts-left left x a new b acts,
        omega (arith, length-append new b, length-append a b),
        Trace-shuffle choices left first (y ∷ second) new a' b b' rest
            (subst (λ (n : ℕ). Trace (left + n) (y ∷ second) b b') (sym size) t),
      )
  Trace-shuffle (false ∷ choices) left (x ∷ first) (y ∷ second) a a' b b' s
        (new, acts, size, rest) =
      (
        a ++ new,
        Acts-right left y a b new acts,
        omega (arith, length-append a new, length-append a b),
        Trace-shuffle choices left (x ∷ first) second a a' new b' s rest,
      )

  pub Trace-last :
      (left : ℕ) (steps : List Step) (step : Step) (range middle final : List A)
      → Trace left steps range middle
      → Acts left step middle final
      → length final ≡ length middle
      → Trace left (steps ++ (step ∷ [])) range final
  Trace-last left [] step range middle final e acts size =
      (final, subst (λ ws. Acts left step ws final) (sym e) acts, size ∙ ap length (sym e), refl)
  Trace-last left (x ∷ steps) step range middle final (new, first, same, rest) acts size =
      (new, first, same, Trace-last left steps step new middle final rest acts size)

  pub Trace-perform :
      (steps : List Step) (values final : List A)
      → Trace 0 steps values final
      → perform less sort steps values ≡ final
  Trace-perform [] values final e = e
  Trace-perform (step ∷ steps) values final (new, acts, size, rest) =
      ap (λ ws. perform less sort steps (perform_step less sort step ws)) (sym (append_nil values))
      ∙ ap (perform less sort steps) (acts [] [] refl ∙ append_nil new)
      ∙ Trace-perform steps new final rest

  pub sort-Acts :
      (left past : ℕ) (range : List A)
      → past ≡ left + length range
      → Acts left (sort_range left past) range (sort range)
  sort-Acts left past range f pre post e =
      let f' : past ≡ length pre + length range = omega arith in
      ap (λ r. replace left past (sort r) (around pre range post))
        (slice_lem left past pre range post e f')
      ∙ replace_lem left past pre range (sort range) post e f'

  pub merge-Acts :
      (left middle past : ℕ) (a b : List A)
      → middle ≡ left + length a
      → past ≡ left + length a + length b
      → Acts left (merge_range left middle past) (a ++ b) (merge less a b)
  merge-Acts left middle past a b f g pre post e =
      let whole = around pre (a ++ b) post in
      let left_part : whole ≡ around pre a (b ++ post) =
        ap (λ ws. pre ++ ws) (append_assoc a b post) in
      let right_part : whole ≡ around (pre ++ a) b post =
        left_part ∙ sym (append_assoc pre a (b ++ post)) in
      let first : slice left middle whole ≡ a =
        ap (slice left middle) left_part
        ∙ slice_lem left middle pre a (b ++ post) e (omega arith) in
      let second : slice middle past whole ≡ b =
        ap (slice middle past) right_part
        ∙ slice_lem middle past (pre ++ a) b post (omega (arith, length-append pre a))
            (omega (arith, length-append pre a)) in
      ap₂ (λ x y. replace left past (merge less x y) whole) first second
      ∙ replace_lem left past pre (a ++ b) (merge less a b) post e
          (omega (arith, length-append a b))
