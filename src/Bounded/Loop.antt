-- ===== src/Bounded/Loop.antt =====
-- The two nested loops of `produce` and `consume` (pthreads/prod_cons_bound/src/prod_cons_bound.c).
use concurrente2025a_evan_ch.Base.{
  ℕ, ◌+◌, ◌*◌, ◌^◌, ◌<◌, ◌≤◌, ◌≡◌, ap, ◌⊎◌, inl, inr, Option, none, some, arith, ltb, lt→ltb,
  le→ltb_false, if◌then◌else◌, u64, dec_lt,
}
use native.Mathlib.Nat.{mul-le-mul_right, add-mul}

-- The round and the index of the loops' next turn, if there is one, once the counters are `round` and
-- `index`.
unfoldable pub loop_head : (rounds capacity round index : ℕ) → Option (ℕ × ℕ)
loop_head rounds capacity round index =
    if ltb round rounds
    then if ltb index capacity
      then some (round, index)
      else if ltb (u64 (round + 1)) rounds
      then if ltb 0 capacity then some (u64 (round + 1), 0) else none
      else none
    else none

-- Counts that are positive, as `main` makes sure, and small enough, which it does not look at:
-- `sem_init` takes at most 2 ^ 31 - 1, and `count` does not wrap.
pub record IsConfig (rounds capacity : ℕ) : Type 0 where
  pub some_rounds : 0 < rounds
  pub some_capacity : 0 < capacity
  pub capacity_small : capacity < 2 ^ 31
  pub rounds_small : rounds < 2 ^ 64
  pub total_small : rounds * capacity < 2 ^ 64

module _ (rounds capacity : ℕ) (config : IsConfig rounds capacity) where
  open config use {some_rounds, some_capacity, capacity_small, rounds_small}

  pub loop_head-start : loop_head rounds capacity 0 0 ≡ some (0, 0)
  unfolding loop_head
  loop_head-start = rw (lt→ltb 0 rounds some_rounds, lt→ltb 0 capacity some_capacity)

  -- The next turn's number is one more, and after the last turn there is none.
  pub loop_head-next :
      (round index : ℕ)
      → round < rounds
      → index < capacity
      → ((loop_head rounds capacity round (u64 (index + 1)) ≡ none)
          × (round * capacity + index + 1 ≡ rounds * capacity))
        ⊎ ((r : ℕ) × (i : ℕ) × (loop_head rounds capacity round (u64 (index + 1)) ≡ some (r, i))
            × (r < rounds)
            × (i < capacity)
            × (r * capacity + i ≡ round * capacity + index + 1))
  unfolding loop_head
  loop_head-next round index h k =
      let e : u64 (index + 1) ≡ index + 1 = omega arith in
      let f : u64 (round + 1) ≡ round + 1 = omega arith in
      elim (dec_lt (index + 1) capacity) [
        | yes more ↦ inr (
          round,
          index + 1,
          rw (e, lt→ltb round rounds h, lt→ltb (index + 1) capacity more),
          h,
          more,
          omega arith,
        )
        | no row_done ↦ elim (dec_lt (round + 1) rounds) [
          | yes again ↦ inr (
            round + 1,
            0,
            rw (
              e,
              f,
              lt→ltb round rounds h,
              le→ltb_false (index + 1) capacity (omega arith),
              lt→ltb (round + 1) rounds again,
              lt→ltb 0 capacity some_capacity,
            ),
            again,
            some_capacity,
            omega (arith, add-mul round 1 capacity),
          )
          | no all_done ↦
              let last : rounds ≡ round + 1 = omega arith in
              inl (
                rw (
                  e,
                  f,
                  lt→ltb round rounds h,
                  le→ltb_false (index + 1) capacity (omega arith),
                  le→ltb_false (round + 1) rounds (omega arith),
                ),
                omega (arith, add-mul round 1 capacity, ap (λ r. r * capacity) last),
              )
        ]
      ]

  -- Two turns that use one slot and are less than a buffer apart are the same.
  pub same_slot :
      (r1 r2 i : ℕ)
      → r1 * capacity + i ≤ r2 * capacity + i
      → r2 * capacity + i < r1 * capacity + i + capacity
      → r1 * capacity + i ≡ r2 * capacity + i
  same_slot r1 r2 i low high = elim (dec_lt r1 r2) [
    | yes h ↦ absurd (
        omega (
          arith,
          mul-le-mul_right {m = r1 + 1} {n = r2} capacity (omega arith),
          add-mul r1 1 capacity,
        ))
    | no h ↦ omega (arith, mul-le-mul_right {m = r2} {n = r1} capacity (omega arith))
  ]

  pub same_turn :
      (r1 r2 i1 i2 : ℕ)
      → i1 < capacity
      → i2 < capacity
      → r1 * capacity + i1 ≡ r2 * capacity + i2
      → i1 ≡ i2
  same_turn r1 r2 i1 i2 h k e = elim (dec_lt r1 r2) [
    | yes q ↦ absurd (
        omega (
          arith,
          mul-le-mul_right {m = r1 + 1} {n = r2} capacity (omega arith),
          add-mul r1 1 capacity,
        ))
    | no q ↦ elim (dec_lt r2 r1) [
      | yes q2 ↦ absurd (
          omega (
            arith,
            mul-le-mul_right {m = r2 + 1} {n = r1} capacity (omega arith),
            add-mul r2 1 capacity,
          ))
      | no q2 ↦ let same : r1 ≡ r2 = omega arith in omega (arith, ap (λ r. r * capacity) same)
    ]
  ]
