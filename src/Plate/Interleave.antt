-- ===== src/Plate/Interleave.antt =====
-- The cells of an interleaving are those of the programs that it interleaves.
use concurrente2025a_evan_ch.Base.{
  ℕ, zero, suc, ◌+◌, ◌-◌, ◌*◌, ◌^◌, ◌≤◌, ◌<◌, ◌≡◌, refl, ap, true, List, [], ◌∷◌, ◌++◌, map, arith,
  ◌==◌, ==_refl, sub64, All, All-append, of_append-All, All-count_up, count_up, has, has-append,
  Bool-cases, Bool-eq_of_iff, inl, inr,
}
use concurrente2025a_evan_ch.Threads.{PrivateData, rows_of, team_rows}
use concurrente2025a_evan_ch.Plate.Sweep.{cells, cells-append}
use concurrente2025a_evan_ch.Plate.Schedule.{
  Cell, row_visits, visits, program, Schedule, project, IsInterleaving, index_of, indices, events,
  AllInner,
}

-- A row that has neighbours above and below.
abbrev pub IsInnerRow : (rows row : ℕ) → Type 0
IsInnerRow rows row = (1 ≤ row) × (row + 1 < rows)

module _ (rows cols : ℕ) (wide : 1 ≤ cols) (small : cols < 2 ^ 64) where
  indices-append :
      (cs ds : List Cell) → indices cols (cs ++ ds) ≡ indices cols cs ++ indices cols ds
  indices-append [] ds = refl
  indices-append (c ∷ cs) ds = ap (λ is. index_of cols c ∷ is) (indices-append cs ds)

  indices_row :
      (row : ℕ) (ks : List ℕ)
      → indices cols (map (λ col. (row, col)) ks) ≡ map (λ col. row * cols + col) ks
  indices_row row [] = refl
  indices_row row (k ∷ ks) = ap (λ is. (row * cols + k) ∷ is) (indices_row row ks)

  pub indices-visits : (rs : List ℕ) → indices cols (visits cols rs) ≡ cells cols rs
  indices-visits [] = refl
  indices-visits (r ∷ rs) =
      let e : sub64 cols 1 - 1 ≡ cols - 2 = omega arith in
      rw (
        indices-append (row_visits cols r) (visits cols rs),
        indices_row r (count_up (sub64 cols 1 - 1) 1),
        e,
        indices-visits rs,
      )

  row_visits-inner : (row : ℕ) → IsInnerRow rows row → AllInner rows cols (row_visits cols row)
  row_visits-inner row h = pairs (count_up (sub64 cols 1 - 1) 1) (
      All-count_up (λ col. (1 ≤ col) × (col + 1 < cols)) (sub64 cols 1 - 1) 1
        (λ j low high. omega arith))
    where
      pairs :
          (ks : List ℕ)
          → All (λ col. (1 ≤ col) × (col + 1 < cols)) ks
          → AllInner rows cols (map (λ col. (row, col)) ks)
      pairs [] k = tt
      pairs (c ∷ ks) k = (omega arith, pairs ks k.1)

  visits-inner : (rs : List ℕ) → All (IsInnerRow rows) rs → AllInner rows cols (visits cols rs)
  visits-inner [] h = tt
  visits-inner (r ∷ rs) h =
      All-append _ (row_visits cols r) (visits cols rs) (row_visits-inner r h.0)
        (visits-inner rs h.1)

  program-inner :
      (team : List PrivateData) (t : ℕ)
      → All (IsInnerRow rows) (team_rows team)
      → AllInner rows cols (program cols team t)
  program-inner [] t h = tt
  program-inner (p ∷ team) zero h =
      visits-inner (rows_of p) (of_append-All _ (rows_of p) (team_rows team) h).0
  program-inner (p ∷ team) (suc t) h =
      program-inner team t (of_append-All _ (rows_of p) (team_rows team) h).1

  -- What holds of every thread's visits holds of every event.
  project-All :
      (P : Cell → Type 0) (sched : Schedule)
      → ((t : ℕ) → All P (project t sched))
      → All P (events sched)
  project-All P [] h = tt
  project-All P ((t, c) ∷ sched) h = (head (h t), project-All P sched (λ s. tail s (h s)))
    where
      head : All P (project t ((t, c) ∷ sched)) → P c
      head k = (rw (==_refl t) at k).0

      tail : (s : ℕ) → All P (project s ((t, c) ∷ sched)) → All P (project s sched)
      tail s k = elim (Bool-cases (t == s)) [ inl e ↦ (rw e at k).1 | inr e ↦ rw e at k ]

  pub events→project :
      (j : ℕ) (sched : Schedule)
      → has j (indices cols (events sched)) ≡ true
      → (t : ℕ) × (has j (indices cols (project t sched)) ≡ true)
  events→project j [] h = absurd (cc)
  events→project j ((t, c) ∷ sched) h = elim (Bool-cases (index_of cols c == j)) [
    | inl e ↦ (t, rw (==_refl t) (ground arith))
    | inr e ↦
        let (s, k) = events→project j sched (rw e at h) in
        (s, elim (Bool-cases (t == s)) [ inl q ↦ rw q (ground arith) | inr q ↦ rw q k ])
  ]

  pub project→events :
      (j t : ℕ) (sched : Schedule)
      → has j (indices cols (project t sched)) ≡ true
      → has j (indices cols (events sched)) ≡ true
  project→events j t [] h = h
  project→events j t ((s, c) ∷ sched) h = elim (Bool-cases (s == t)) [
    | inl e ↦ let k = rw e at h in ground (arith, project→events j t sched)
    | inr e ↦ let k = project→events j t sched (rw e at h) in ground arith
  ]

  team→program :
      (j : ℕ) (team : List PrivateData)
      → has j (cells cols (team_rows team)) ≡ true
      → (t : ℕ) × (has j (indices cols (program cols team t)) ≡ true)
  team→program j [] h = absurd (cc)
  team→program j (p ∷ team) h = elim (Bool-cases (has j (cells cols (rows_of p)))) [
    | inl e ↦ (zero, rw (indices-visits (rows_of p)) e)
    | inr e ↦
        let (t, k) =
          team→program j team
            (rw (cells-append cols (rows_of p) (team_rows team), has-append, e) at h) in
        (suc t, k)
  ]

  program→team :
      (j t : ℕ) (team : List PrivateData)
      → has j (indices cols (program cols team t)) ≡ true
      → has j (cells cols (team_rows team)) ≡ true
  program→team j t [] h = h
  program→team j zero (p ∷ team) h =
      let k = rw (indices-visits (rows_of p)) at h in
      rw (cells-append cols (rows_of p) (team_rows team), has-append) (ground arith)
  program→team j (suc t) (p ∷ team) h =
      let k = program→team j t team h in
      rw (cells-append cols (rows_of p) (team_rows team), has-append) (ground arith)

  -- An interleaving visits exactly the inner cells of the team's rows.
  pub events-has :
      (team : List PrivateData) (sched : Schedule) (j : ℕ)
      → IsInterleaving cols team sched
      → has j (indices cols (events sched)) ≡ has j (cells cols (team_rows team))
  events-has team sched j il =
      Bool-eq_of_iff _ _
        (λ h. let (t, k) = events→project j sched h in program→team j t team (rw (il t) at k))
        (λ h. let (t, k) = team→program j team h in project→events j t sched (rw (il t) k))

  pub events-inner :
      (team : List PrivateData) (sched : Schedule)
      → IsInterleaving cols team sched
      → All (IsInnerRow rows) (team_rows team)
      → AllInner rows cols (events sched)
  events-inner team sched il h = project-All _ sched (λ t. rw (il t) (program-inner team t h))
