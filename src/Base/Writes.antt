-- ===== src/Base/Writes.antt =====
-- Writing the values of a function into a list at given indices, and membership of a number.
use Prim.Native.Nat.{ℕ, zero, suc, ◌+◌, ◌≤◌, ◌<◌}
use mathlib.Core.Path.{◌≡◌, refl, sym, ap, ◌∙◌}
use mathlib.Core.Bool.{Bool, true, false, ◌||◌}
use mathlib.Core.List.{List, [], ◌∷◌, ◌++◌, map}
use mathlib.Core.Logic.{inl, inr}
use native.Mathlib.Omega.{arith}
use concurrente2025a_evan_ch.Base.Tests.{◌==◌, if◌then◌else◌, Bool-cases}
use concurrente2025a_evan_ch.Base.Lists.{
  length, get_or, set, length-set, get_or-set_self, get_or-set_ne, list_ext, count_up,
}

abbrev pub has : ℕ → List ℕ → Bool
has j [] = false
has j (i ∷ is) = (i == j) || has j is

pub has-append : (j : ℕ) (is js : List ℕ) → has j (is ++ js) ≡ (has j is || has j js)
has-append j [] js = refl
has-append j (i ∷ is) js = ground (arith, has-append j is js)

pub has-append_left : (j : ℕ) (is js : List ℕ) → has j is ≡ true → has j (is ++ js) ≡ true
has-append_left j is js h = ground (arith, has-append j is js)

pub has-append_right : (j : ℕ) (is js : List ℕ) → has j js ≡ true → has j (is ++ js) ≡ true
has-append_right j is js h = ground (arith, has-append j is js)

-- A counter takes exactly the values of its range.
pub has-count_up : (j n i : ℕ) → i ≤ j → j < i + n → has j (count_up n i) ≡ true
has-count_up j zero i low high = absurd (omega arith)
has-count_up j (suc n) i low high = ground (arith, has-count_up j n (i + 1))

pub not_has-count_up : (j n i : ℕ) → has j (count_up n i) ≡ true → (i ≤ j) × (j < i + n)
not_has-count_up j zero i h = ground arith
not_has-count_up j (suc n) i h = ground (arith, not_has-count_up j n (i + 1))

pub has-map : (f : ℕ → ℕ) (j : ℕ) (is : List ℕ) → has j is ≡ true → has (f j) (map f is) ≡ true
has-map f j [] h = h
has-map f j (i ∷ is) h = ground (arith, has-map f j is)

-- A value of `f` is among its values, however it is written.
pub has-map_of_eq :
    (f : ℕ → ℕ) (i j : ℕ) (is : List ℕ) → i ≡ f j → has j is ≡ true → has i (map f is) ≡ true
has-map_of_eq f i j is e h = rw e (has-map f j is h)

if_same {ℓ} : {A : Type ℓ} {x y : A} (b : Bool) → y ≡ x → (if b then x else y) ≡ x
if_same true e = refl
if_same false e = e

module _ {ℓ} {A : Type ℓ} where
  abbrev pub write_at : (ℕ → A) → List ℕ → List A → List A
  write_at f [] xs = xs
  write_at f (i ∷ is) xs = write_at f is (set xs i (f i))

  pub length-write_at :
      (f : ℕ → A) (is : List ℕ) (xs : List A) → length (write_at f is xs) ≡ length xs
  length-write_at f [] xs = refl
  length-write_at f (i ∷ is) xs = length-write_at f is (set xs i (f i)) ∙ length-set xs i (f i)

  pub write_at-append :
      (f : ℕ → A) (is js : List ℕ) (xs : List A)
      → write_at f (is ++ js) xs ≡ write_at f js (write_at f is xs)
  write_at-append f [] js xs = refl
  write_at-append f (i ∷ is) js xs = write_at-append f is js (set xs i (f i))

  write_at-nil : (f : ℕ → A) (is : List ℕ) → write_at f is [] ≡ []
  write_at-nil f [] = refl
  write_at-nil f (i ∷ is) = write_at-nil f is

  -- Where an index was written the value is the function's; elsewhere nothing has changed.
  pub get_or-write_at :
      (f : ℕ → A) (is : List ℕ) (xs : List A) (j : ℕ) (d : A)
      → j < length xs
      → get_or (write_at f is xs) j d ≡ (if has j is then f j else get_or xs j d)
  get_or-write_at f [] xs j d h = refl
  get_or-write_at f (i ∷ is) xs j d h =
      get_or-write_at f is (set xs i (f i)) j d (omega (arith, length-set xs i (f i)))
      ∙ elim (Bool-cases (i == j)) [
        | inl e ↦ rw e (if_same (has j is) (written i j e h))
        | inr e ↦
            rw e
              (ap (λ y. if has j is then f j else y) (get_or-set_ne xs i j (f i) d (ground arith)))
      ]
    where
      written : (i j : ℕ) → (i == j) ≡ true → j < length xs → get_or (set xs i (f i)) j d ≡ f j
      written i j e h = let q : i ≡ j = ground arith in rw q (get_or-set_self xs j (f j) d h)

  -- The order of the writes, and their number, do not matter.
  pub write_at-order :
      (f : ℕ → A) (is js : List ℕ) (xs : List A)
      → ((j : ℕ) → has j is ≡ has j js)
      → write_at f is xs ≡ write_at f js xs
  write_at-order f is js [] same = write_at-nil f is ∙ sym (write_at-nil f js)
  write_at-order f is js (x ∷ xs) same =
      list_ext (write_at f is (x ∷ xs)) (write_at f js (x ∷ xs)) x
        (length-write_at f is (x ∷ xs) ∙ sym (length-write_at f js (x ∷ xs)))
        (λ j h.
          get_or-write_at f is (x ∷ xs) j x (omega (arith, length-write_at f is (x ∷ xs)))
          ∙ rw (same j) (
              sym
                (get_or-write_at f js (x ∷ xs) j x (omega (arith, length-write_at f is (x ∷ xs))))))
