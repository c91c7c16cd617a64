-- ===== src/Blocks/Cover.antt =====
-- The blocks of homeworks/pthread/src/threads.c are the inner rows, and how large each is.
use concurrente2025a_evan_ch.Base.{
  ℕ, zero, suc, ◌+◌, ◌-◌, ◌*◌, ◌/◌, ◌%◌, ◌^◌, ◌≤◌, ◌<◌, ◌≡◌, refl, sym, ap, ap₂, subst, ◌∙◌, true,
  false, some, some_inj, List, [], ◌∷◌, ◌++◌, arith, ltb, ltb_false→le, ◌==◌, u64, sub64, sub64_eq,
  count_up, count_up-append, All, Bool-cases, inl, inr,
}
use concurrente2025a_evan_ch.Blocks.{
  PrivateData, get_intervals, fill_team, team_size, init_private_data, team_rows,
}
use native.Mathlib.Nat.{div-add-mod, mul-le-mul_right, add-mul, div_self, le-div_iff_mul-le}

append-nil : (xs : List ℕ) → xs ++ [] ≡ xs
append-nil [] = refl
append-nil (x ∷ xs) = ap (λ ys. x ∷ ys) (append-nil xs)

pred_suc : (n : ℕ) → 1 ≤ n → n - 1 + 1 ≡ n
pred_suc n h = omega arith

-- The blocks of `n` threads over `e` rows: each but the last has `q` rows, the last one those left.
module _ (e n q : ℕ) (small : e + 1 < 2 ^ 64) (some_rows : 1 ≤ q) (fit : n * q ≤ e)
    (n_fits : n ≤ e) where
  step : (t : ℕ) → (t + 1) * q ≡ t * q + q
  step t = omega (arith, add-mul t 1 q)

  below : (t : ℕ) → t ≤ n → t * q ≤ e
  below t h = omega (arith, mul-le-mul_right {m = t} {n = n} q h)

  fill_team_rows :
      (left t : ℕ)
      → t + suc left ≡ n
      → team_rows (fill_team e n (q - 1) (suc left) t (t * q)) ≡ count_up (e - t * q) (t * q + 1)
  unfolding fill_team
  fill_team_rows zero t h =
      let start : u64 (t * q + 1) ≡ t * q + 1 = omega (arith, below t (omega arith)) in
      let last : (t == sub64 n 1) ≡ true =
        rw (sub64_eq n 1 (omega arith) (omega arith)) (ground arith) in
      rw (start, last)
        (append-nil (count_up (e + 1 - (t * q + 1)) (t * q + 1))
          ∙ ap (λ k. count_up k (t * q + 1)) (omega (arith, below t (omega arith))))
  fill_team_rows (suc left) t h =
      let start : u64 (t * q + 1) ≡ t * q + 1 = omega (arith, below t (omega arith)) in
      let end : u64 (t * q + 1 + (q - 1)) ≡ (t + 1) * q =
        omega (arith, below (t + 1) (omega arith), step t) in
      let not_last : (t == sub64 n 1) ≡ false =
        rw (sub64_eq n 1 (omega arith) (omega arith)) (ground arith) in
      rw (start, end, not_last, fill_team_rows left (t + 1) (omega arith))
        (sym (
            count_up-append ((t + 1) * q + 1 - (t * q + 1)) (e - (t + 1) * q) (t * q + 1)
              ((t + 1) * q + 1) (omega (arith, step t)))
          ∙ ap (λ k. count_up k (t * q + 1)) (omega (arith, step t, below (t + 1) (omega arith))))

  -- Every block is a part of the rows 1, …, e, and its thread begins as equilibrated.
  abbrev AreWithin : List PrivateData → Type 0
  AreWithin = All (λ p. (1 ≤ p.starting_row) × (p.ending_row ≤ e) × (p.equilibrated ≡ true))

  fill_team-AreWithin :
      (left t : ℕ) → t + suc left ≡ n → AreWithin (fill_team e n (q - 1) (suc left) t (t * q))
  unfolding fill_team
  fill_team-AreWithin zero t h =
      let start : u64 (t * q + 1) ≡ t * q + 1 = omega (arith, below t (omega arith)) in
      let last : (t == sub64 n 1) ≡ true =
        rw (sub64_eq n 1 (omega arith) (omega arith)) (ground arith) in
      rw (start, last) ((omega arith, omega arith, refl), tt)
  fill_team-AreWithin (suc left) t h =
      let start : u64 (t * q + 1) ≡ t * q + 1 = omega (arith, below t (omega arith)) in
      let end : u64 (t * q + 1 + (q - 1)) ≡ (t + 1) * q =
        omega (arith, below (t + 1) (omega arith), step t) in
      let not_last : (t == sub64 n 1) ≡ false =
        rw (sub64_eq n 1 (omega arith) (omega arith)) (ground arith) in
      rw (start, end, not_last)
        (
          (omega arith, below (t + 1) (omega arith), refl),
          fill_team-AreWithin left (t + 1) (omega arith),
        )

  -- Every block but the last has `q` rows, and the last the rest.
  record AreShares (team : List PrivateData) : Type 0 where
    others : List PrivateData
    final : PrivateData
    parts : team ≡ others ++ final ∷ []
    even : All (λ p. p.ending_row + 1 ≡ p.starting_row + q) others
    rest : final.ending_row + 1 ≡ final.starting_row + (e - (n - 1) * q)

  fill_team-AreShares :
      (left t : ℕ) → t + suc left ≡ n → AreShares (fill_team e n (q - 1) (suc left) t (t * q))
  unfolding fill_team
  fill_team-AreShares zero t h =
      let start : u64 (t * q + 1) ≡ t * q + 1 = omega (arith, below t (omega arith)) in
      let last : (t == sub64 n 1) ≡ true =
        rw (sub64_eq n 1 (omega arith) (omega arith)) (ground arith) in
      let is : t ≡ n - 1 = omega arith in
      rw (start, last)
        (record {
          others = [];
          final = record { starting_row = t * q + 1; ending_row = e; equilibrated = true };
          parts = refl;
          even = tt;
          rest = omega (arith, below t (omega arith), ap (λ k. k * q) is);
        })
  fill_team-AreShares (suc left) t h =
      let start : u64 (t * q + 1) ≡ t * q + 1 = omega (arith, below t (omega arith)) in
      let end : u64 (t * q + 1 + (q - 1)) ≡ (t + 1) * q =
        omega (arith, below (t + 1) (omega arith), step t) in
      let not_last : (t == sub64 n 1) ≡ false =
        rw (sub64_eq n 1 (omega arith) (omega arith)) (ground arith) in
      let shares = fill_team-AreShares left (t + 1) (omega arith) in
      let p : PrivateData = record {
        starting_row = t * q + 1;
        ending_row = (t + 1) * q;
        equilibrated = true;
      } in
      rw (start, end, not_last)
        (record {
          others = p ∷ shares.others;
          final = shares.final;
          parts = ap (λ xs. p ∷ xs) shares.parts;
          even = (omega (arith, step t), shares.even);
          rest = shares.rest;
        })

module _ (rows count : ℕ) (low : 3 ≤ rows) (high : rows < 2 ^ 64) (some_threads : 0 < count) where
  abbrev n : ℕ
  n = team_size rows count

  team_size_bounds : (1 ≤ n) × (n ≤ rows - 2)
  unfolding team_size
  team_size_bounds = rw (sub64_eq rows 2 (omega arith) high) (ground arith)

  get_intervals_lem : get_intervals rows n ≡ (rows - 2) / n
  unfolding get_intervals
  get_intervals_lem =
      rw (sub64_eq rows 2 (omega arith) high) (elim (Bool-cases (ltb n (rows - 2))) [
        | inl e ↦ rw e
        | inr e ↦
            let whole : n ≡ rows - 2 =
              omega (arith, team_size_bounds, ltb_false→le n (rows - 2) e) in
            rw e (sym (ap (λ k. k / n) (sym whole) ∙ div_self (omega (arith, team_size_bounds))))
      ])

  q_bounds : (1 ≤ (rows - 2) / n) × (n * ((rows - 2) / n) ≤ rows - 2)
  q_bounds = (
    (le-div_iff_mul-le {k = n} {x = 1} {y = rows - 2} (omega (arith, team_size_bounds))).1
        (omega (arith, team_size_bounds)),
    omega (arith, div-add-mod (rows - 2) n),
  )

  q_small : (rows - 2) / n < 2 ^ 64
  q_small = omega (
    arith,
    q_bounds,
    team_size_bounds,
    mul-le-mul_right {m = 1} {n = n} ((rows - 2) / n) (omega (arith, team_size_bounds)),
  )

  team_of :
      {team : List PrivateData}
      → init_private_data true rows count ≡ some team
      → fill_team (rows - 2) n ((rows - 2) / n - 1) (suc (n - 1)) 0 (0 * ((rows - 2) / n)) ≡ team
  unfolding init_private_data
  team_of {team} e =
      ap₂ (λ k p. fill_team (rows - 2) n ((rows - 2) / n - 1) k 0 p)
        (omega (arith, team_size_bounds)) (omega arith)
      ∙ (rw
          (
            sub64_eq rows 2 (omega arith) high,
            get_intervals_lem,
            sub64_eq ((rows - 2) / n) 1 (omega (arith, q_bounds)) q_small,
          )
          at (some_inj e))

  pub init_private_data-within :
      {team : List PrivateData}
      → init_private_data true rows count ≡ some team
      → All (λ p. (1 ≤ p.starting_row) × (p.ending_row ≤ rows - 2) × (p.equilibrated ≡ true)) team
  init_private_data-within {team} e =
      subst (All (λ p. (1 ≤ p.starting_row) × (p.ending_row ≤ rows - 2) × (p.equilibrated ≡ true)))
        (team_of e)
        (fill_team-AreWithin (rows - 2) n ((rows - 2) / n) (omega arith) q_bounds.0 q_bounds.1
          team_size_bounds.1 (n - 1) 0 (omega (arith, team_size_bounds)))

  -- For a plate of at least three and fewer than 2 ^ 64 rows, a positive number of threads asked for,
  -- and an allocation that succeeds: the blocks of the threads, taken together in order, are the inner
  -- rows 1, 2, …, rows - 2, each exactly once.
  pub init_private_data-blocks :
      {team : List PrivateData}
      → init_private_data true rows count ≡ some team
      → team_rows team ≡ count_up (rows - 2) 1
  init_private_data-blocks {team} e =
      let q = (rows - 2) / n in
      subst (λ t. team_rows t ≡ count_up (rows - 2) 1) (team_of e)
        (fill_team_rows (rows - 2) n q (omega arith) q_bounds.0 q_bounds.1 team_size_bounds.1
            (n - 1) 0 (omega (arith, team_size_bounds))
          ∙ ap₂ count_up (omega arith) (omega arith))

  -- Under the same conditions every thread but the last has the quotient of `rows - 2` by the number
  -- of threads as its number of rows, and the last has the quotient and the whole remainder.
  pub init_private_data-last :
      {team : List PrivateData}
      → init_private_data true rows count ≡ some team
      → (others : List PrivateData) × (final : PrivateData) × (team ≡ others ++ final ∷ [])
        × All (λ p. p.ending_row + 1 ≡ p.starting_row + (rows - 2) / team_size rows count) others
        × (final.ending_row + 1
            ≡ final.starting_row
              + (rows - 2) / team_size rows count
              + (rows - 2) % team_size rows count)
  init_private_data-last {team} e =
      let q = (rows - 2) / n in
      let shares =
        fill_team-AreShares (rows - 2) n q (omega arith) q_bounds.0 q_bounds.1 team_size_bounds.1
          (n - 1) 0 (omega (arith, team_size_bounds)) in
      let whole : (n - 1) * q + q ≡ n * q =
        omega (arith, add-mul (n - 1) 1 q, ap (λ k. k * q) (pred_suc n team_size_bounds.0)) in
      (
        shares.others,
        shares.final,
        sym (team_of e) ∙ shares.parts,
        shares.even,
        omega (arith, shares.rest, whole, div-add-mod (rows - 2) n),
      )
