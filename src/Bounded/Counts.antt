-- ===== src/Bounded/Counts.antt =====
-- How the counts of the two threads compare, and what a step keeps
-- (pthreads/prod_cons_bound/src/prod_cons_bound.c).
use concurrente2025a_evan_ch.Base.{ℕ, zero, suc, ◌+◌, ◌*◌, ◌≤◌, ◌<◌, ◌≡◌, arith}
use concurrente2025a_evan_ch.Bounded.{
  Result, blocked, fault, moved, sem_wait, Producer, entering, waiting_space, producing, printing,
  posting_item, producer_done, Consumer, waiting_item, obtaining, consuming, posting_space,
  consumer_done,
}
use concurrente2025a_evan_ch.Bounded.Invariant.{awaited, taken, returned, posted, stored}
use native.Mathlib.Nat.{mul-le-mul_right, add-mul}

-- A step does not leave the buffer, and if it moves on, the result has the property.
abbrev pub Keeps : {A : Type 0} → (A → Type 0) → Result A → Type 0
Keeps P blocked = Unit
Keeps P fault = ⊥
Keeps P (moved a) = P a

pub Keeps-sem_wait :
    {A : Type 0} (P : A → Type 0) (n : ℕ) (next : ℕ → Result A)
    → ((m : ℕ) → n ≡ m + 1 → Keeps P (next m))
    → Keeps P (sem_wait n next)
Keeps-sem_wait P zero next h = tt
Keeps-sem_wait P (suc n) next h = h n (omega arith)

module _ (rounds capacity : ℕ) where
  pub turn_lt :
      (round index : ℕ)
      → round < rounds
      → index < capacity
      → round * capacity + index < rounds * capacity
  turn_lt round index h k = omega (
    arith,
    mul-le-mul_right {m = round + 1} {n = rounds} capacity (omega arith),
    add-mul round 1 capacity,
  )

  pub posted-le : (p : Producer) → posted rounds capacity p ≤ stored rounds capacity p
  posted-le entering = omega arith
  posted-le (waiting_space round index count) = omega arith
  posted-le (producing round index count) = omega arith
  posted-le (printing round index count) = omega arith
  posted-le (posting_item round index count) = omega arith
  posted-le producer_done = omega arith

module _ {D : Type 0} (rounds capacity : ℕ) where
  pub returned-le : (c : Consumer D) → returned rounds capacity c ≤ taken rounds capacity c
  returned-le (waiting_item round index) = omega arith
  returned-le (obtaining round index) = omega arith
  returned-le (consuming value round index) = omega arith
  returned-le (posting_space round index) = omega arith
  returned-le consumer_done = omega arith

  pub taken-le : (c : Consumer D) → taken rounds capacity c ≤ awaited rounds capacity c
  taken-le (waiting_item round index) = omega arith
  taken-le (obtaining round index) = omega arith
  taken-le (consuming value round index) = omega arith
  taken-le (posting_space round index) = omega arith
  taken-le consumer_done = omega arith
