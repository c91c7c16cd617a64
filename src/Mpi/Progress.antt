-- ===== src/Mpi/Progress.antt =====
-- The master and the workers of homeworks/omp_mpi/src/job.c do not wait for each other for ever.
use concurrente2025a_evan_ch.Base.{
  ℕ, ◌<◌, ◌≡◌, ◌⊎◌, inl, inr, refl, sym, ap, ◌∙◌, subst, Bool, true, false, List, [], ◌∷◌, arith,
  ◌&&◌, ◌==◌, ◌≤◌, ltb, ltb→lt, if◌then◌else◌,
}
use concurrente2025a_evan_ch.Base.Families.{Moves, search_bool, total_ge, total_none}
use concurrente2025a_evan_ch.Mpi.{
  Master, assigning, receiving, receiving_states, stopping, master_returned, Worker, waiting,
  processing, sending_index, sending_states, worker_returned, World, working_processes, size_of_int,
  Reachable, job_master_process, job_worker_process, take_message,
}
use concurrente2025a_evan_ch.Errors.{exit_success}
use concurrente2025a_evan_ch.Mpi.Stage.{
  Stage, idle, handling, stop_sent, stopped, ordered, working, reporting, index_sent, all_sent,
  index_received, states_sent, worker_of, inbox_of, outbox_of, busy, half_heard, told,
}
use concurrente2025a_evan_ch.Mpi.Invariant.{IsServed, IsCounting, Agrees, next_stopped, expected}
use concurrente2025a_evan_ch.Mpi.Handout.{rank_positive}
use concurrente2025a_evan_ch.Mpi.MasterSteps.{Reachable-Invariant}

-- The worker's next step waits for nothing and is no send.
abbrev acts : Stage → Bool
acts idle = false
acts (handling ordered plate) = true
acts (handling working plate) = true
acts (handling reporting plate) = false
acts (handling index_sent plate) = false
acts (handling all_sent plate) = false
acts (handling index_received plate) = false
acts (handling states_sent plate) = false
acts stop_sent = true
acts stopped = false

abbrev is_busy : Stage → Bool
is_busy idle = false
is_busy (handling place plate) = true
is_busy stop_sent = false
is_busy stopped = false

not_busy : (st : Stage) → is_busy st ≡ false → busy st ≡ 0
not_busy idle e = refl
not_busy (handling place plate) e = absurd (cc)
not_busy stop_sent e = refl
not_busy stopped e = refl

take_message-Moves :
    (ms : List ℕ) (m : ℕ) (rest : List ℕ) (next : ℕ → List ℕ → World)
    → ms ≡ m ∷ rest
    → Moves (take_message ms next)
take_message-Moves ms m rest next e = rw e (_, refl)

-- MPI may hold a send back until the other process is at the receive for it, with no earlier message left
-- to receive. A worker's step is held back if it is a send and the master is not there.
abbrev pub is_empty : List ℕ → Bool
is_empty [] = true
is_empty (m ∷ ms) = false

abbrev pub hears_index : Master → Bool
hears_index (assigning process_number current available) = false
hears_index (receiving current available) = true
hears_index (receiving_states index source current available) = false
hears_index (stopping process_number) = false
hears_index (master_returned error) = false

abbrev pub hears_states : Master → (rank : ℕ) → Bool
hears_states (assigning process_number current available) rank = false
hears_states (receiving current available) rank = false
hears_states (receiving_states index source current available) rank = source == rank
hears_states (stopping process_number) rank = false
hears_states (master_returned error) rank = false

abbrev pub worker_free : Worker → (master : Master) (outbox : List ℕ) (rank : ℕ) → Bool
worker_free waiting master outbox rank = true
worker_free (processing index) master outbox rank = true
worker_free (sending_index index) master outbox rank = hears_index master && is_empty outbox
worker_free (sending_states index) master outbox rank = is_empty outbox && hears_states master rank
worker_free (worker_returned error) master outbox rank = true

abbrev pub is_waiting : Worker → Bool
is_waiting waiting = true
is_waiting (processing index) = false
is_waiting (sending_index index) = false
is_waiting (sending_states index) = false
is_waiting (worker_returned error) = false

-- The same for the master, whose step after a number of states is a receive with a send after it.
abbrev pub awaits_message : World → (rank : ℕ) → Bool
awaits_message x rank = is_waiting (x.workers rank) && is_empty (x.to_worker rank)

abbrev pub master_free : (process_count plates_count : ℕ) → Master → World → Bool
master_free process_count plates_count (assigning process_number current available) x =
    if ltb process_number (working_processes process_count plates_count)
    then awaits_message x process_number
    else true
master_free process_count plates_count (receiving current available) x = true
master_free process_count plates_count (receiving_states index source current available) x =
    if ltb (size_of_int current) plates_count then awaits_message x source else true
master_free process_count plates_count (stopping process_number) x =
    if ltb process_number process_count then awaits_message x process_number else true
master_free process_count plates_count (master_returned error) x = true

module _ (process_count plates_count : ℕ) (k_states : ℕ → ℕ) where
  acts-Moves :
      (stage : ℕ → Stage) (x : World) (rank : ℕ) (st : Stage)
      → Agrees process_count plates_count k_states stage x
      → stage rank ≡ st
      → acts st ≡ true
      → (worker_free (worker_of plates_count k_states st) x.master (x.to_master rank) rank ≡ true)
        × Moves (
            job_worker_process plates_count k_states true rank
              (worker_of plates_count k_states st)
              x)
  unfolding job_worker_process
  acts-Moves stage x rank idle inv e a = absurd (cc)
  acts-Moves stage x rank (handling ordered plate) inv e a = (
    refl,
    take_message-Moves (x.to_worker rank) _ _ _
        (inv.inboxes_at rank ∙ ap (inbox_of plates_count k_states) e),
  )
  acts-Moves stage x rank (handling working plate) inv e a = (refl, (_, refl))
  acts-Moves stage x rank (handling reporting plate) inv e a = absurd (cc)
  acts-Moves stage x rank (handling index_sent plate) inv e a = absurd (cc)
  acts-Moves stage x rank (handling all_sent plate) inv e a = absurd (cc)
  acts-Moves stage x rank (handling index_received plate) inv e a = absurd (cc)
  acts-Moves stage x rank (handling states_sent plate) inv e a = absurd (cc)
  acts-Moves stage x rank stop_sent inv e a = (
    refl,
    take_message-Moves (x.to_worker rank) _ _ _
        (inv.inboxes_at rank ∙ ap (inbox_of plates_count k_states) e),
  )
  acts-Moves stage x rank stopped inv e a = absurd (cc)

  abbrev pub MasterMoves : World → (m : Master) → Type 0
  MasterMoves x m =
      (source : ℕ) × (source < process_count)
      × (master_free process_count plates_count m x ≡ true)
      × Moves (job_master_process process_count plates_count true true source m x)

  abbrev pub WorkerMoves : World → (m : Master) → Type 0
  WorkerMoves x m =
      (rank : ℕ) × (0 < rank)
      × (rank < process_count)
      × (worker_free (x.workers rank) m (x.to_master rank) rank ≡ true)
      × Moves (job_worker_process plates_count k_states true rank (x.workers rank) x)

  -- A worker that is at a send which the master hears.
  sender-Moves :
      (stage : ℕ → Stage) (x : World) (m : Master) (rank : ℕ) (st : Stage)
      → Agrees process_count plates_count k_states stage x
      → stage rank ≡ st
      → is_busy st ≡ true
      → rank < process_count
      → worker_free (worker_of plates_count k_states st) m (outbox_of plates_count k_states st) rank
        ≡ true
      → Moves (
          job_worker_process plates_count k_states true rank (worker_of plates_count k_states st) x)
      → WorkerMoves x m
  sender-Moves stage x m rank st inv e b h free moves =
      let w : x.workers rank ≡ worker_of plates_count k_states st =
        inv.workers_at rank ∙ ap (worker_of plates_count k_states) e in
      let o : x.to_master rank ≡ outbox_of plates_count k_states st =
        inv.outboxes_at rank ∙ ap (outbox_of plates_count k_states) e in
      (
        rank,
        rank_positive process_count plates_count k_states stage x rank st inv e
            (λ q. absurd (cc (b, ap is_busy q))),
        h,
        rw (w, o) free,
        rw w moves,
      )

  -- A worker that has a plate and does not act is at a send that the master hears, or has sent all.
  heard-Moves :
      (stage : ℕ → Stage) (x : World) (source current available : ℕ) (st : Stage)
      → Agrees process_count plates_count k_states stage x
      → x.master ≡ receiving current available
      → source < process_count
      → stage source ≡ st
      → is_busy st ≡ true
      → acts st ≡ false
      → MasterMoves x (receiving current available) ⊎ WorkerMoves x (receiving current available)
  unfolding job_master_process job_worker_process
  heard-Moves stage x source current available idle inv m h e b a = absurd (cc)
  heard-Moves stage x source current available (handling ordered plate) inv m h e b a = absurd (cc)
  heard-Moves stage x source current available (handling working plate) inv m h e b a = absurd (cc)
  heard-Moves stage x source current available (handling reporting plate) inv m h e b a = inr (
      sender-Moves stage x (receiving current available) source (handling reporting plate) inv e b h
        refl (_, refl))
  heard-Moves stage x source current available (handling index_sent plate) inv m h e b a = inl (
    source,
    h,
    refl,
    take_message-Moves (x.to_master source) _ _ _
        (inv.outboxes_at source ∙ ap (outbox_of plates_count k_states) e),
  )
  heard-Moves stage x source current available (handling all_sent plate) inv m h e b a = inl (
    source,
    h,
    refl,
    take_message-Moves (x.to_master source) _ _ _
        (inv.outboxes_at source ∙ ap (outbox_of plates_count k_states) e),
  )
  heard-Moves stage x source current available (handling index_received plate) inv m h e b a =
      absurd (
        omega (
          arith,
          inv.half ∙ ap expected m,
          total_ge half_heard process_count source stage h,
          ap half_heard e,
        ))
  heard-Moves stage x source current available (handling states_sent plate) inv m h e b a = absurd (
      omega (
        arith,
        inv.half ∙ ap expected m,
        total_ge half_heard process_count source stage h,
        ap half_heard e,
      ))
  heard-Moves stage x source current available stop_sent inv m h e b a = absurd (cc)
  heard-Moves stage x source current available stopped inv m h e b a = absurd (cc)

  -- A worker in one of these stages awaits a message.
  awaiting :
      (stage : ℕ → Stage) (x : World) (rank : ℕ) (st : Stage)
      → Agrees process_count plates_count k_states stage x
      → stage rank ≡ st
      → (is_waiting (worker_of plates_count k_states st)
          && is_empty (inbox_of plates_count k_states st))
        ≡ true
      → awaits_message x rank ≡ true
  awaiting stage x rank st inv e open_now =
      let w : x.workers rank ≡ worker_of plates_count k_states st =
        inv.workers_at rank ∙ ap (worker_of plates_count k_states) e in
      let i : x.to_worker rank ≡ inbox_of plates_count k_states st =
        inv.inboxes_at rank ∙ ap (inbox_of plates_count k_states) e in
      rw (w, i) open_now

  if_true : (b c : Bool) → (b ≡ true → c ≡ true) → (if b then c else true) ≡ true
  if_true true c h = h refl
  if_true false c h = refl

  untold_idle : (st : Stage) → told st ≡ 0 → is_busy st ≡ false → st ≡ idle
  untold_idle idle t b = refl
  untold_idle (handling place plate) t b = absurd (cc)
  untold_idle stop_sent t b = absurd (cc)
  untold_idle stopped t b = absurd (cc)

  busy_none : (st : Stage) → busy st ≡ 0 → is_busy st ≡ false
  busy_none idle e = refl
  busy_none (handling place plate) e = absurd (cc)
  busy_none stop_sent e = refl
  busy_none stopped e = refl

  told_stopped :
      (st : Stage)
      → told st ≡ 1
      → acts st ≡ false
      → worker_of plates_count k_states st ≡ worker_returned exit_success
  told_stopped idle t a = absurd (cc)
  told_stopped (handling place plate) t a = absurd (cc)
  told_stopped stop_sent t a = absurd (cc)
  told_stopped stopped t a = refl

  -- When no worker acts, the master does, or all have returned.
  quiet-Moves :
      (served : IsServed process_count plates_count) (stage : ℕ → Stage) (x : World) (m : Master)
      → Agrees process_count plates_count k_states stage x
      → x.master ≡ m
      → ((rank : ℕ) → rank < process_count → acts (stage rank) ≡ false)
      → ((m ≡ master_returned exit_success)
          × ((rank : ℕ)
              → 0 < rank
              → rank < process_count
              → x.workers rank ≡ worker_returned exit_success))
        ⊎ (MasterMoves x m ⊎ WorkerMoves x m)
  unfolding job_master_process job_worker_process
  quiet-Moves served stage x (assigning n current available) inv e quiet =
      let (e1, e2, e3, e4, later) =
        subst (IsCounting process_count plates_count stage) e inv.counting in
      inr (
        inl (
          0,
          served.some_process,
          if_true (ltb n (working_processes process_count plates_count)) (awaits_message x n)
              (λ less. awaiting stage x n idle inv (later n (omega arith)) refl),
          (_, refl),
        ))
  quiet-Moves served stage x (receiving current available) inv e quiet =
      let (e1, e2, e3) = subst (IsCounting process_count plates_count stage) e inv.counting in
      elim (search_bool (λ i. is_busy (stage i)) process_count) [
        | inl (source, h, b) ↦ inr (
            heard-Moves stage x source current available (stage source) inv e h refl b
              (quiet source h))
        | inr nobody ↦ absurd (
            omega
              (arith, total_none busy process_count stage (λ i h. not_busy (stage i) (nobody i h))))
      ]
  quiet-Moves served stage x (receiving_states plate source current available) inv e quiet =
      let (e1, e2, e3, e4) = subst (IsCounting process_count plates_count stage) e inv.counting in
      elim e4 [
        | inl f ↦ inr (
            inr (
              sender-Moves stage x (receiving_states plate source current available) source
                (handling index_received plate) inv f refl e3 (ground arith) (_, refl)))
        | inr f ↦ inr (
            inl (
              source,
              e3,
              if_true (ltb (size_of_int current) plates_count) (awaits_message x source)
                  (λ less. awaiting stage x source (handling states_sent plate) inv f refl),
              take_message-Moves (x.to_master source) _ _ _
                  (inv.outboxes_at source ∙ ap (outbox_of plates_count k_states) f),
            ))
      ]
  quiet-Moves served stage x (stopping n) inv e quiet =
      let (e1, e2, none_busy) =
        subst (IsCounting process_count plates_count stage) e inv.counting in
      inr (
        inl (
          0,
          served.some_process,
          if_true (ltb n process_count) (awaits_message x n) (λ less.
              awaiting stage x n idle inv
                (untold_idle (stage n)
                  (inv.untold n (
                    subst (λ m. next_stopped process_count plates_count m ≤ n) (sym e)
                      (omega arith)))
                  (busy_none (stage n) (
                    omega (
                      arith,
                      none_busy,
                      total_ge busy process_count n stage (ltb→lt n process_count less),
                    ))))
                refl),
          (_, refl),
        ))
  quiet-Moves served stage x (master_returned error) inv e quiet =
      let (success, none_busy) =
        subst (IsCounting process_count plates_count stage) e inv.counting in
      inl (
        ap master_returned success,
        λ rank p h.
            inv.workers_at rank
            ∙ told_stopped (stage rank)
                (inv.told_all rank p
                  (subst (λ m. rank < next_stopped process_count plates_count m) (sym e) h))
                (quiet rank h),
      )

  -- With two workers that may be given a plate, and sizes below 2 ^ 31: while MPI's calls succeed, in
  -- every reachable state the master and all workers have returned success, or one of the processes can
  -- take its next step, even if MPI holds every send back until the other process is at the receive for
  -- it and has received what was sent before.
  pub Reachable-Moves_master :
      IsServed process_count plates_count
      → {n : ℕ} {x : World} → Reachable process_count plates_count k_states n x
      → ((x.master ≡ master_returned exit_success)
          × ((rank : ℕ)
              → 0 < rank
              → rank < process_count
              → x.workers rank ≡ worker_returned exit_success))
        ⊎ (MasterMoves x x.master ⊎ WorkerMoves x x.master)
  Reachable-Moves_master served {n} {x} r =
      let (stage, inv) = Reachable-Invariant process_count plates_count k_states served r in
      elim (search_bool (λ i. acts (stage i)) process_count) [
        | inl (rank, h, a) ↦
            let (free, moves) = acts-Moves stage x rank (stage rank) inv refl a in
            inr (
              inr (
                rank,
                rank_positive process_count plates_count k_states stage x rank (stage rank) inv refl
                    (acts_not_idle (stage rank) a),
                h,
                rw (inv.workers_at rank) free,
                rw (inv.workers_at rank) moves,
              ))
        | inr quiet ↦ quiet-Moves served stage x x.master inv refl quiet
      ]
    where
      acts_not_idle : (st : Stage) → acts st ≡ true → st ≡ idle → ⊥
      acts_not_idle st a e = absurd (cc (a, ap acts e))
