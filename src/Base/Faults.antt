-- ===== src/Base/Faults.antt =====
-- Code that may run into undefined behaviour: `none` is an access outside an array.
use Prim.Native.Nat.{ℕ, zero, suc, ◌-◌, ◌<◌}
use mathlib.Core.Path.{◌≡◌, refl, ap}
use mathlib.Core.List.{List, [], ◌∷◌}
use mathlib.Core.Option.{Option, none, some}
use native.Mathlib.Omega.{arith}
use concurrente2025a_evan_ch.Base.Lists.{length, set, count_up}

infixl 5 ◌>>=◌
abbrev pub ◌>>=◌ {ℓ κ} : {A : Type ℓ} {B : Type κ} → Option A → (A → Option B) → Option B
none >>= f = none
some a >>= f = f a

pub bind_assoc {ℓ κ μ} :
    {A : Type ℓ} {B : Type κ} {C : Type μ} (o : Option A) (f : A → Option B) (g : B → Option C)
    → ((o >>= f) >>= g) ≡ (o >>= λ a. f a >>= g)
bind_assoc none f g = refl
bind_assoc (some a) f g = refl

pub bind_cong {ℓ κ} :
    {A : Type ℓ} {B : Type κ} (o : Option A) (f g : A → Option B)
    → ((a : A) → f a ≡ g a)
    → (o >>= f) ≡ (o >>= g)
bind_cong none f g h = refl
bind_cong (some a) f g h = h a

module _ {ℓ} {A : Type ℓ} where
  -- `xs[i] = v`
  abbrev pub set? : List A → ℕ → A → Option (List A)
  set? [] i v = none
  set? (x ∷ xs) zero v = some (v ∷ xs)
  set? (x ∷ xs) (suc i) v = set? xs i v >>= λ ys. some (x ∷ ys)

  pub set?-eq-set : (xs : List A) (i : ℕ) (v : A) → i < length xs → set? xs i v ≡ some (set xs i v)
  set?-eq-set [] i v h = absurd (omega arith)
  set?-eq-set (x ∷ xs) zero v h = refl
  set?-eq-set (x ∷ xs) (suc i) v h =
      ap (λ (o : Option (List A)). o >>= λ ys. some (x ∷ ys)) (set?-eq-set xs i v (omega arith))

module _ {ℓ} {S : Type ℓ} where
  -- A `for` loop over the values of its counter; it stops at the first fault.
  unfoldable pub for_each : {A : Type 0} → List A → (A → S → Option S) → S → Option S
  for_each [] body s = some s
  for_each (x ∷ xs) body s = body x s >>= λ s'. for_each xs body s'

  -- `for (i = lo; i < hi; ++i)` for words `lo` and `hi`
  unfoldable pub for_range : ℕ → ℕ → (ℕ → S → Option S) → S → Option S
  unfolding for_each
  for_range lo hi body s = for_each (count_up (hi - lo) lo) body s
