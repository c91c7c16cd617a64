-- ===== src/Mpi/Stage.antt =====
-- Where the plate of a worker is on its way from the master and back
-- (homeworks/omp_mpi/src/job.c), as one value that fixes what the worker does and which messages stand
-- between the two.
use concurrente2025a_evan_ch.Base.{
  ℕ, ◌<◌, ◌≡◌, List, [], ◌∷◌, ◌==◌, if◌then◌else◌, sym, ap, subst, ◌∙◌, ℕ_discrete,
}
use concurrente2025a_evan_ch.Base.Families.{update, update-all, update_same, update_other}
use concurrente2025a_evan_ch.Errors.{exit_success}
use concurrente2025a_evan_ch.Mpi.{
  int_bits, Worker, waiting, processing, sending_index, sending_states, worker_returned,
}

-- The plate's index is on its way, the plate is being processed, it is done, its index is sent, the
-- number of states is sent too; the last two are the same after the master has received the index.
pub data Place : Type 0 where
  ordered : Place
  working : Place
  reporting : Place
  index_sent : Place
  all_sent : Place
  index_received : Place
  states_sent : Place

pub data Stage : Type 0 where
  idle : Stage
  handling : (place : Place) (plate : ℕ) → Stage
  stop_sent : Stage
  stopped : Stage

module _ (plates_count : ℕ) (k_states : ℕ → ℕ) where
  abbrev pub worker_of : Stage → Worker
  worker_of idle = waiting
  worker_of (handling ordered plate) = waiting
  worker_of (handling working plate) = processing plate
  worker_of (handling reporting plate) = sending_index plate
  worker_of (handling index_sent plate) = sending_states plate
  worker_of (handling all_sent plate) = waiting
  worker_of (handling index_received plate) = sending_states plate
  worker_of (handling states_sent plate) = waiting
  worker_of stop_sent = waiting
  worker_of stopped = worker_returned exit_success

  abbrev pub inbox_of : Stage → List ℕ
  inbox_of idle = []
  inbox_of (handling ordered plate) = int_bits plate ∷ []
  inbox_of (handling working plate) = []
  inbox_of (handling reporting plate) = []
  inbox_of (handling index_sent plate) = []
  inbox_of (handling all_sent plate) = []
  inbox_of (handling index_received plate) = []
  inbox_of (handling states_sent plate) = []
  inbox_of stop_sent = int_bits plates_count ∷ []
  inbox_of stopped = []

  abbrev pub outbox_of : Stage → List ℕ
  outbox_of idle = []
  outbox_of (handling ordered plate) = []
  outbox_of (handling working plate) = []
  outbox_of (handling reporting plate) = []
  outbox_of (handling index_sent plate) = int_bits plate ∷ []
  outbox_of (handling all_sent plate) = int_bits plate ∷ int_bits (k_states plate) ∷ []
  outbox_of (handling index_received plate) = []
  outbox_of (handling states_sent plate) = int_bits (k_states plate) ∷ []
  outbox_of stop_sent = []
  outbox_of stopped = []

  abbrev pub InRange : Stage → Type 0
  InRange idle = Unit
  InRange (handling place plate) = plate < plates_count
  InRange stop_sent = Unit
  InRange stopped = Unit

-- Weights: a worker that has a plate; has plate `u`; has it and has not processed it; is half heard;
-- has been told to stop.
abbrev pub busy : Stage → ℕ
busy idle = 0
busy (handling place plate) = 1
busy stop_sent = 0
busy stopped = 0

abbrev pub one : (u v : ℕ) → ℕ
one u v = if v == u then 1 else 0

abbrev pub carries : ℕ → Stage → ℕ
carries u idle = 0
carries u (handling place plate) = one u plate
carries u stop_sent = 0
carries u stopped = 0

abbrev pub unprocessed : ℕ → Stage → ℕ
unprocessed u idle = 0
unprocessed u (handling ordered plate) = one u plate
unprocessed u (handling working plate) = one u plate
unprocessed u (handling reporting plate) = 0
unprocessed u (handling index_sent plate) = 0
unprocessed u (handling all_sent plate) = 0
unprocessed u (handling index_received plate) = 0
unprocessed u (handling states_sent plate) = 0
unprocessed u stop_sent = 0
unprocessed u stopped = 0

abbrev pub half_heard : Stage → ℕ
half_heard idle = 0
half_heard (handling ordered plate) = 0
half_heard (handling working plate) = 0
half_heard (handling reporting plate) = 0
half_heard (handling index_sent plate) = 0
half_heard (handling all_sent plate) = 0
half_heard (handling index_received plate) = 1
half_heard (handling states_sent plate) = 1
half_heard stop_sent = 0
half_heard stopped = 0

abbrev pub told : Stage → ℕ
told idle = 0
told (handling place plate) = 0
told stop_sent = 1
told stopped = 1

-- The steps that are left before the plate is recorded or the worker has returned.
abbrev pub steps_left : Stage → ℕ
steps_left idle = 0
steps_left (handling ordered plate) = 6
steps_left (handling working plate) = 5
steps_left (handling reporting plate) = 4
steps_left (handling index_sent plate) = 3
steps_left (handling all_sent plate) = 2
steps_left (handling index_received plate) = 2
steps_left (handling states_sent plate) = 1
steps_left stop_sent = 1
steps_left stopped = 0

-- A part of the world that is what the stages say stays so when it and its stage change, and when the
-- stage changes and what it says of the part does not.
module _ {A : Type 0} (says : Stage → A) (part : ℕ → A) (stage : ℕ → Stage) (rank : ℕ)
    (now : Stage) where
  pub update-says :
      (a : A)
      → a ≡ says now
      → ((j : ℕ) → part j ≡ says (stage j))
      → (j : ℕ) → update part rank a j ≡ says (update stage rank now j)
  update-says a e old j = elim (ℕ_discrete rank j) [
    | yes q ↦
        subst (λ k. update part rank a k ≡ says (update stage rank now k)) q
          (update_same part rank a ∙ e ∙ ap says (sym (update_same stage rank now)))
    | no q ↦ update_other part rank j a q ∙ old j ∙ ap says (sym (update_other stage rank j now q))
  ]

  pub stays-says :
      part rank ≡ says now
      → ((j : ℕ) → part j ≡ says (stage j))
      → (j : ℕ) → part j ≡ says (update stage rank now j)
  stays-says e old j = update-all (λ k st. part k ≡ says st) stage rank now e (λ k q. old k) j
