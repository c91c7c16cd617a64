-- ===== src/Mpi/Steps.antt =====
-- How many steps the processes of homeworks/omp_mpi/src/job.c take.
use concurrente2025a_evan_ch.Base.{
  ℕ, ◌+◌, ◌-◌, ◌*◌, ◌<◌, ◌≤◌, ◌≡◌, refl, ap, true, List, [], ◌∷◌, ◌++◌, arith, length,
  length-append, Bool-cases, inl, inr, ltb, ltb→lt, ltb_false→le, if◌then◌else◌, ◌==◌,
}
use concurrente2025a_evan_ch.Base.Families.{update, total, total-update, total_none}
use concurrente2025a_evan_ch.Mpi.{
  int_bits, size_of_int, Master, assigning, receiving, receiving_states, stopping, master_returned,
  Worker, waiting, processing, sending_index, sending_states, worker_returned, World, Reachable,
  start, mastered, worked, job_master_process, job_worker_process, take_message, after_recorded,
  working_processes,
}
use concurrente2025a_evan_ch.Mpi.Invariant.{IsServed, IsCounting, assigned}
use concurrente2025a_evan_ch.Mpi.Stage.{Stage}
use concurrente2025a_evan_ch.Mpi.Handout.{workers_bound}
use concurrente2025a_evan_ch.Base.Families.{Keeps}
use concurrente2025a_evan_ch.Mpi.MasterSteps.{Reachable-Invariant}

-- The steps that a worker, and a message to it, still cause.
abbrev worker_left : Worker → ℕ
worker_left waiting = 0
worker_left (processing plate) = 5
worker_left (sending_index plate) = 4
worker_left (sending_states plate) = 2
worker_left (worker_returned error) = 0

abbrev inbox_left : List ℕ → ℕ
inbox_left ms = 6 * length ms

take_message-Keeps :
    (P : World → Type 0) (ms : List ℕ) (next : ℕ → List ℕ → World)
    → ((m : ℕ) (rest : List ℕ) → ms ≡ m ∷ rest → P (next m rest))
    → Keeps P (take_message ms next)
take_message-Keeps P [] next h = tt
take_message-Keeps P (m ∷ rest) next h = h m rest refl

module _ (process_count plates_count : ℕ) where
  abbrev master_left : Master → ℕ
  master_left (assigning n current available) = 7 * process_count + 2
  master_left (receiving current available) = 7 * process_count + 1
  master_left (receiving_states index source current available) = 7 * process_count + 1
  master_left (stopping n) = 7 * (process_count - n) + 1
  master_left (master_returned error) = 0

  abbrev left : World → ℕ
  left x =
      7 * (plates_count - assigned process_count plates_count x.master)
      + master_left x.master
      + total worker_left process_count x.workers
      + total inbox_left process_count x.to_worker
      + total length process_count x.to_master

  abbrev Less : World → World → Type 0
  Less x y = left y + 1 ≤ left x

  send_left :
      (boxes : ℕ → List ℕ) (i m : ℕ)
      → i < process_count
      → (total inbox_left process_count (update boxes i (boxes i ++ m ∷ []))
          ≡ total inbox_left process_count boxes + 6)
        × (total length process_count (update boxes i (boxes i ++ m ∷ []))
            ≡ total length process_count boxes + 1)
  send_left boxes i m h = (
    omega (
      arith,
      length-append (boxes i) (m ∷ []),
      total-update inbox_left process_count i (boxes i ++ m ∷ []) (boxes i) boxes h refl,
    ),
    omega (
      arith,
      length-append (boxes i) (m ∷ []),
      total-update length process_count i (boxes i ++ m ∷ []) (boxes i) boxes h refl,
    ),
  )

  worker-Less :
      (k_states : ℕ → ℕ) (x : World) (rank : ℕ) (w : Worker)
      → rank < process_count
      → x.workers rank ≡ w
      → Keeps (Less x) (job_worker_process plates_count k_states true rank w x)
  unfolding job_worker_process
  worker-Less k_states x rank waiting h e =
      take_message-Keeps (Less x) (x.to_worker rank) _ (λ m rest f.
        let read = total-update inbox_left process_count rank rest (m ∷ rest) x.to_worker h f in
        elim (Bool-cases (ltb (size_of_int m) plates_count)) [
          | inl plate ↦ rw plate (
              omega (
                arith,
                read,
                total-update worker_left process_count rank (processing m) waiting x.workers h e,
              ))
          | inr stop ↦ rw stop (
              omega (
                arith,
                read,
                total-update worker_left process_count rank (worker_returned 0) waiting x.workers h
                    e,
              ))
        ])
  worker-Less k_states x rank (processing plate) h e = omega (
    arith,
    total-update worker_left process_count rank (sending_index plate) (processing plate) x.workers h
        e,
  )
  worker-Less k_states x rank (sending_index plate) h e = omega (
    arith,
    (send_left x.to_master rank (int_bits plate) h).1,
    total-update worker_left process_count rank (sending_states plate) (sending_index plate)
        x.workers h e,
  )
  worker-Less k_states x rank (sending_states plate) h e = omega (
    arith,
    (send_left x.to_master rank (int_bits (k_states plate)) h).1,
    total-update worker_left process_count rank waiting (sending_states plate) x.workers h e,
  )
  worker-Less k_states x rank (worker_returned error) h e = tt

  module _ (served : IsServed process_count plates_count) where
    after_recorded-Less :
        (x y : World) (source current available : ℕ)
        → source < process_count
        → current ≤ plates_count
        → master_left x.master ≡ 7 * process_count + 1
        → assigned process_count plates_count x.master ≡ current
        → y.workers ≡ x.workers
        → y.to_worker ≡ x.to_worker
        → total length process_count y.to_master + 1 ≡ total length process_count x.to_master
        → Less x (after_recorded process_count plates_count true source current available y)
    after_recorded-Less x y source current available h bound m a w t o =
        let small = served.plates_small in
        let some_process = served.some_process in
        let size : size_of_int current ≡ current = ground arith in
        elim (Bool-cases (ltb current plates_count)) [
          | inl more ↦
              let less = ltb→lt current plates_count more in
              let bits : int_bits (current + 1) ≡ current + 1 = omega arith in
              rw (size, more, bits)
                (omega (
                  arith,
                  ap (total worker_left process_count) w,
                  ap (total inbox_left process_count) t,
                  (send_left y.to_worker source (int_bits current) h).0,
                ))
          | inr all ↦
              let done : current ≡ plates_count =
                omega (arith, ltb_false→le current plates_count all) in
              elim (Bool-cases (available == working_processes process_count plates_count)) [
                | inl last ↦
                    rw (size, all, last)
                      (omega (
                        arith,
                        ap (total worker_left process_count) w,
                        ap (total inbox_left process_count) t,
                      ))
                | inr others ↦
                    rw (size, all, others)
                      (omega (
                        arith,
                        ap (total worker_left process_count) w,
                        ap (total inbox_left process_count) t,
                      ))
              ]
        ]

    master-Less :
        (stage : ℕ → Stage) (x : World) (source : ℕ) (m : Master)
        → IsCounting process_count plates_count stage m
        → source < process_count
        → x.master ≡ m
        → Keeps (Less x) (job_master_process process_count plates_count true true source m x)
    unfolding job_master_process
    master-Less stage x source (assigning n current available) (e1, e2, e3, e4, e5) h e =
        let bound = workers_bound process_count plates_count (λ i. i) served in
        let small = served.plates_small in
        elim (Bool-cases (ltb n (working_processes process_count plates_count))) [
          | inl more ↦
              let less = ltb→lt n (working_processes process_count plates_count) more in
              let bits : int_bits (current + 1) ≡ current + 1 = omega arith in
              rw (more, bits)
                (omega (
                  arith,
                  ap master_left e,
                  ap (assigned process_count plates_count) e,
                  (send_left x.to_worker n (int_bits current) (omega arith)).0,
                ))
          | inr all ↦
              rw all (omega (arith, ap master_left e, ap (assigned process_count plates_count) e))
        ]
    master-Less stage x source (receiving current available) c h e =
        take_message-Keeps (Less x) (x.to_master source) _ (λ m rest f. omega (
          arith,
          ap master_left e,
          ap (assigned process_count plates_count) e,
          total-update length process_count source rest (m ∷ rest) x.to_master h f,
        ))
    master-Less stage x source (receiving_states index from current available) (e1, e2, e3, e4) h
          e =
        take_message-Keeps (Less x) (x.to_master from) _ (λ m rest f.
          after_recorded-Less x
            (record x {
              to_master = update x.to_master from rest;
              recorded =
                  if ltb (size_of_int index) plates_count
                  then update x.recorded index m
                  else x.recorded;
            })
            from current (available + 1) e3 e1 (ap master_left e)
            (ap (assigned process_count plates_count) e) refl refl
            (omega
              (arith, total-update length process_count from rest (m ∷ rest) x.to_master e3 f)))
    master-Less stage x source (stopping n) c h e = elim (Bool-cases (ltb n process_count)) [
      | inl more ↦
          let less = ltb→lt n process_count more in
          rw more (
            omega (
              arith,
              ap master_left e,
              ap (assigned process_count plates_count) e,
              (send_left x.to_worker n (int_bits plates_count) less).0,
            ))
      | inr all ↦
          rw all (omega (arith, ap master_left e, ap (assigned process_count plates_count) e))
    ]
    master-Less stage x source (master_returned error) c h e = tt

    Reachable-left :
        (k_states : ℕ → ℕ) {n : ℕ} {x : World}
        → Reachable process_count plates_count k_states n x
        → n + left x ≤ 7 * plates_count + (7 * process_count + 2)
    Reachable-left k_states start = omega (
      arith,
      total_none worker_left process_count (λ rank. waiting) (λ i h. refl),
      total_none inbox_left process_count (λ rank. []) (λ i h. refl),
      total_none length process_count (λ rank. []) (λ i h. refl),
    )
    Reachable-left k_states (mastered {n} {source} {x} {y} r h e) =
        let (stage, inv) = Reachable-Invariant process_count plates_count k_states served r in
        let less : Less x y = rw e at (master-Less stage x source x.master inv.counting h refl) in
        omega (arith, Reachable-left k_states r)
    Reachable-left k_states (worked {n} {rank} {x} {y} r p h e) =
        let less : Less x y = rw e at (worker-Less k_states x rank (x.workers rank) h refl) in
        omega (arith, Reachable-left k_states r)

    -- With two workers that may be given a plate, and sizes below 2 ^ 31: while MPI's calls succeed, the
    -- processes take at most 7 steps for each plate and for each process, and 2 more, in any order.
    pub Reachable-steps :
        (k_states : ℕ → ℕ) {n : ℕ} {x : World}
        → Reachable process_count plates_count k_states n x
        → n ≤ 7 * plates_count + 7 * process_count + 2
    Reachable-steps k_states r = omega (arith, Reachable-left k_states r)
