-- ===== src/Base/Families.antt =====
-- Families indexed by thread or process: a change at one index, sums over the first indices, a search,
-- and how often a number is in a list.
use Prim.Native.Nat.{ℕ, zero, suc, ◌+◌, ◌<◌, ◌≤◌}
use mathlib.Core.Path.{◌≡◌, refl, sym, ap, subst, ◌∙◌}
use mathlib.Core.Logic.{◌⊎◌, inl, inr, ◌≢◌}
use mathlib.Core.Bool.{Bool, true, false}
use mathlib.Core.Option.{Option, none, some}
use mathlib.Core.List.{List, [], ◌∷◌, ◌++◌}
use native.Mathlib.Omega.{arith}
use native.Mathlib.Decide.{ℕ_discrete}
use concurrente2025a_evan_ch.Base.Tests.{◌==◌, ==_refl, if◌then◌else◌, Bool-cases}

abbrev pub update : {A : Type 0} → (ℕ → A) → ℕ → A → ℕ → A
update g i a j = if i == j then a else g j

pub update_same : {A : Type 0} (g : ℕ → A) (i : ℕ) (a : A) → update g i a i ≡ a
update_same g i a = rw (==_refl i) refl

pub update_other : {A : Type 0} (g : ℕ → A) (i j : ℕ) (a : A) → i ≢ j → update g i a j ≡ g j
update_other g i j a h = let e : (i == j) ≡ false = ground arith in rw e refl

-- What holds of the new value and of the old ones elsewhere holds of the changed family.
pub update-all :
    {A : Type 0} (P : ℕ → A → Type 0) (g : ℕ → A) (i : ℕ) (a : A)
    → P i a
    → ((j : ℕ) → i ≢ j → P j (g j))
    → (j : ℕ) → P j (update g i a j)
update-all P g i a new old j = elim (ℕ_discrete i j) [
  | yes q ↦ subst (λ k. P k (update g i a k)) q (subst (P i) (sym (update_same g i a)) new)
  | no q ↦ subst (P j) (sym (update_other g i j a q)) (old j q)
]

-- The step can be taken.
abbrev pub Moves : {A : Type 0} → Option A → Type 0
Moves {A} o = (a : A) × (o ≡ some a)

-- If the step is taken, its result has the property.
abbrev pub Keeps : {A : Type 0} → (A → Type 0) → Option A → Type 0
Keeps P none = Unit
Keeps P (some a) = P a

pub search_bool :
    (b : ℕ → Bool) (n : ℕ) → ((i : ℕ) × (i < n) × (b i ≡ true)) ⊎ ((i : ℕ) → i < n → b i ≡ false)
search_bool b zero = inr (λ i h. absurd (omega arith))
search_bool b (suc n) = elim (Bool-cases (b n)) [
  | inl e ↦ inl (n, omega arith, e)
  | inr e ↦ elim (search_bool b n) [
    | inl (i, h, f) ↦ inl (i, omega arith, f)
    | inr all ↦
        inr (λ i h. elim (ℕ_discrete i n) [ yes q ↦ ap b q ∙ e | no q ↦ all i (omega arith) ])
  ]
]

module _ {A : Type 0} (w : A → ℕ) where
  -- The weight of the first `n` threads.
  unfoldable pub total : ℕ → (ℕ → A) → ℕ
  total zero g = 0
  total (suc n) g = w (g n) + total n g

  total_far : (n i : ℕ) (a : A) (g : ℕ → A) → n ≤ i → total n (update g i a) ≡ total n g
  unfolding total
  total_far zero i a g h = refl
  total_far (suc n) i a g h =
      let e : (i == n) ≡ false = ground arith in rw (e, total_far n i a g (omega arith))

  pub total-update :
      (n i : ℕ) (a b : A) (g : ℕ → A)
      → i < n
      → g i ≡ b
      → total n (update g i a) + w b ≡ total n g + w a
  unfolding total
  total-update zero i a b g h e = absurd (omega arith)
  total-update (suc n) i a b g h e = elim (ℕ_discrete i n) [
    | yes q ↦
        let e' : g n ≡ b = ap g (sym q) ∙ e in
        rw (q, ==_refl n, total_far n n a g (omega arith), e') (omega arith)
    | no q ↦
        let f : (i == n) ≡ false = ground arith in
        rw f (omega (arith, total-update n i a b g (omega arith) e))
  ]

  pub total_ge : (n i : ℕ) (g : ℕ → A) → i < n → w (g i) ≤ total n g
  unfolding total
  total_ge zero i g h = absurd (omega arith)
  total_ge (suc n) i g h = elim (ℕ_discrete i n) [
    | yes q ↦ rw q (omega arith)
    | no q ↦ omega (arith, total_ge n i g (omega arith))
  ]

  pub total_ge2 : (n i j : ℕ) (g : ℕ → A) → i < n → j < n → i ≢ j → w (g i) + w (g j) ≤ total n g
  unfolding total
  total_ge2 zero i j g h k q = absurd (omega arith)
  total_ge2 (suc n) i j g h k q = elim (ℕ_discrete i n) [
    | yes e ↦ rw e (omega (arith, total_ge n j g (omega arith)))
    | no e ↦ elim (ℕ_discrete j n) [
      | yes f ↦ rw f (omega (arith, total_ge n i g (omega arith)))
      | no f ↦ omega (arith, total_ge2 n i j g (omega arith) (omega arith) q)
    ]
  ]

  pub total_ones : (n : ℕ) (g : ℕ → A) → ((i : ℕ) → i < n → w (g i) ≡ 1) → total n g ≡ n
  unfolding total
  total_ones zero g h = refl
  total_ones (suc n) g h =
      omega (arith, h n (omega arith), total_ones n g (λ i q. h i (omega arith)))

  pub total_none : (n : ℕ) (g : ℕ → A) → ((i : ℕ) → i < n → w (g i) ≡ 0) → total n g ≡ 0
  unfolding total
  total_none zero g h = refl
  total_none (suc n) g h =
      omega (arith, h n (omega arith), total_none n g (λ i q. h i (omega arith)))

pub total_mono :
    {A : Type 0} (v w : A → ℕ) (n : ℕ) (g : ℕ → A)
    → ((a : A) → v a ≤ w a)
    → total v n g ≤ total w n g
unfolding total
total_mono v w zero g h = omega arith
total_mono v w (suc n) g h = omega (arith, h (g n), total_mono v w n g h)

-- How often `u` is in a list.
unfoldable pub count : ℕ → List ℕ → ℕ
count u [] = 0
count u (x ∷ xs) = (if x == u then 1 else 0) + count u xs

pub count-append : (u : ℕ) (xs ys : List ℕ) → count u (xs ++ ys) ≡ count u xs + count u ys
unfolding count
count-append u [] ys = omega arith
count-append u (x ∷ xs) ys = omega (arith, count-append u xs ys)

pub count-one : (u v : ℕ) → count u (v ∷ []) ≡ (if v == u then 1 else 0)
unfolding count
count-one u v = omega arith
