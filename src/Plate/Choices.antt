-- ===== src/Plate/Choices.antt =====
-- Whatever a scheduler chooses, the events of a round (Plate/Schedule) interleave the threads' visits: each
-- thread of `equilibrate_rows` (homeworks/*/src/plate.c) does its own in order.
use concurrente2025a_evan_ch.Base.{
  ℕ, zero, suc, ◌+◌, ◌<◌, ◌≡◌, refl, ap, ◌∙◌, true, false, none, some, List, [], ◌∷◌, ◌++◌, arith,
  ◌==◌, ◌⊎◌, inl, inr, if◌then◌else◌, Bool-cases,
}
use concurrente2025a_evan_ch.Threads.{PrivateData}
use concurrente2025a_evan_ch.Plate.Schedule.{
  Cell, Schedule, programs, program, next_visit, tagged, one_by_one, interleave, project,
  IsInterleaving,
}

abbrev at : ℕ → List (List Cell) → List Cell
at s [] = []
at zero (p ∷ ps) = p
at (suc s) (p ∷ ps) = at s ps

project-tagged :
    (s t : ℕ) (cs : List Cell) (rest : Schedule)
    → project s (tagged t cs ++ rest) ≡ (if t == s then cs ++ project s rest else project s rest)
project-tagged s t [] rest = ground arith
project-tagged s t (c ∷ cs) rest = elim (Bool-cases (t == s)) [
  | inl e ↦ rw e (ap (λ ds. c ∷ ds) (project-tagged s t cs rest ∙ rw e))
  | inr e ↦ rw e (project-tagged s t cs rest ∙ rw e)
]

project-below : (ps : List (List Cell)) (s u : ℕ) → s < u → project s (one_by_one u ps) ≡ []
project-below [] s u h = refl
project-below (p ∷ ps) s u h =
    let other : (u == s) ≡ false = ground arith in
    project-tagged s u p (one_by_one (u + 1) ps)
    ∙ rw other (project-below ps s (u + 1) (omega arith))

append_nil : (cs : List Cell) → cs ++ [] ≡ cs
append_nil [] = refl
append_nil (c ∷ cs) = ap (λ ds. c ∷ ds) (append_nil cs)

project-one_by_one :
    (ps : List (List Cell)) (k u s : ℕ) → s ≡ u + k → project s (one_by_one u ps) ≡ at k ps
project-one_by_one [] k u s e = refl
project-one_by_one (p ∷ ps) zero u s e =
    let same : (u == s) ≡ true = ground arith in
    project-tagged s u p (one_by_one (u + 1) ps)
    ∙ rw same (ap (λ ds. p ++ ds) (project-below ps s (u + 1) (omega arith)) ∙ append_nil p)
project-one_by_one (p ∷ ps) (suc k) u s e =
    let other : (u == s) ≡ false = ground arith in
    project-tagged s u p (one_by_one (u + 1) ps)
    ∙ rw other (project-one_by_one ps k (u + 1) s (omega arith))

-- A visit is the head of its thread's list.
next_visit_lem :
    (t : ℕ) (ps : List (List Cell))
    → (next_visit t ps ≡ none)
      ⊎ ((c : Cell) × (ps' : List (List Cell)) × (next_visit t ps ≡ some (c, ps'))
          × ((s : ℕ) → at s ps ≡ (if t == s then c ∷ at s ps' else at s ps')))
next_visit_lem t [] = inl refl
next_visit_lem zero ([] ∷ ps) = inl refl
next_visit_lem zero ((c ∷ cs) ∷ ps) = inr (c, cs ∷ ps, refl, heads)
  where
    heads : (s : ℕ) → at s ((c ∷ cs) ∷ ps) ≡ (if 0 == s then c ∷ at s (cs ∷ ps) else at s (cs ∷ ps))
    heads zero = refl
    heads (suc s) = let other : (0 == suc s) ≡ false = ground arith in rw other
next_visit_lem (suc t) (p ∷ ps) = elim (next_visit_lem t ps) [
  | inl e ↦ inl (rw e)
  | inr (c, ps', e, f) ↦ inr (c, p ∷ ps', rw e, heads c ps' f)
]
  where
    heads :
        (c : Cell) (ps' : List (List Cell))
        → ((s : ℕ) → at s ps ≡ (if t == s then c ∷ at s ps' else at s ps'))
        → (s : ℕ) → at s (p ∷ ps) ≡ (if suc t == s then c ∷ at s (p ∷ ps') else at s (p ∷ ps'))
    heads c ps' f zero = let other : (suc t == 0) ≡ false = ground arith in rw other
    heads c ps' f (suc s) = let same : (suc t == suc s) ≡ (t == s) = ground arith in rw same (f s)

project-interleave :
    (choices : List ℕ) (ps : List (List Cell)) (s : ℕ) → project s (interleave choices ps) ≡ at s ps
unfolding interleave
project-interleave [] ps s = project-one_by_one ps s 0 s (omega arith)
project-interleave (t ∷ choices) ps s = elim (next_visit_lem t ps) [
  | inl e ↦ rw e (project-interleave choices ps s)
  | inr (c, ps', e, f) ↦ rw (e, f s, project-interleave choices ps' s)
]

at-programs :
    (cols : ℕ) (team : List PrivateData) (s : ℕ) → at s (programs cols team) ≡ program cols team s
at-programs cols [] s = refl
at-programs cols (p ∷ team) zero = refl
at-programs cols (p ∷ team) (suc s) = at-programs cols team s

pub interleave-IsInterleaving :
    (cols : ℕ) (team : List PrivateData) (choices : List ℕ)
    → IsInterleaving cols team (interleave choices (programs cols team))
interleave-IsInterleaving cols team choices s =
    project-interleave choices (programs cols team) s ∙ at-programs cols team s
