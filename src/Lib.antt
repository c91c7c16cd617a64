-- ===== src/Lib.antt =====
-- A verification library for the concurrent programs of this repository.
--
-- The programs are the homework, a simulation of heat, and class examples of threads.
--
-- The homework programs simulate the diffusion of heat over a rectangular plate until no cell
-- changes by more than epsilon. A job file lists plates; for each the program reads a binary file,
-- repeats a state change until the plate is at equilibrium, writes the final plate to a new file and
-- a line to a report. The versions differ in how a state is computed: one thread, a team of POSIX
-- threads, an OpenMP team, or MPI processes that each use an OpenMP team.
--
-- Parts and files:
--   Base       shared names, lists indexed by native numbers, 64-bit words, faults and loops
--   Doubles    the type `double`, a parameter: a record of the operations that the code uses
--   Errors     error codes, homeworks/optimized/pthread_optimized/src/errors.h
--   Threads    homeworks/optimized/pthread_optimized/src/threads.c: a team's blocks of rows. The
--              record PrivateData is private_data_t, init_private_data and get_finish_row are the
--              functions of the same names
--   Blocks     homeworks/pthread/src/threads.c: the blocks of rows of the first version with threads
--   RowPlate   homeworks/pthread/src/plate_matrix.c, equilibrate_rows (plate.c) and equilibrate_plate
--              (job.c): the plate as an array of rows. RowPlate/Flat and RowPlate/Refines compare it
--              with the flat array, RowPlate/Border does so for init_auxiliary, and
--              RowPlate/Equilibrium has the rounds of the team
--   Plate      the simulation over flat arrays: Plate/Matrix is plate_matrix.c of
--              homeworks/optimized/pthread_optimized/src and of homeworks/omp_mpi/src, Plate/Rows is
--              the body of the loops of equilibrate_rows, Plate/Schedule a team's visits in the order
--              of a scheduler, Plate/Concurrent is equilibrate_plate_concurrent with the functions
--              of threads.c and job.c that start and join the team, Plate/Omp is equilibrate_plate
--              of homeworks/omp_mpi/src/plate.c; Plate/Heat is the mathematical simulation that they
--              are compared with, and the other files there hold the lemmas on the way
--   Paths      homeworks/omp_mpi/src/common.c, with the names of the output file (plate.c) and of the
--              report (job.c)
--   Job        homeworks/omp_mpi/src/job.c: init_job, set_job, check_capacity and expand_job
--   Mpi        homeworks/omp_mpi/src/job.c and mpi_wrapper.c: job_master_process, job_master_stop_workers
--              and job_worker_process as a step relation over queues of messages. Mpi/Stage says where
--              a worker's plate is, Mpi/Invariant what holds between the steps, and Mpi/Steps counts
--              them; Mpi/Stuck is the job that has one plate or one worker
--   Files      homeworks/omp_mpi/src/plate.c: set_plate_matrix and update_plate_file
--   Process    homeworks/omp_mpi/src/job.c: process_plate, clean_plate and process_plates, from the
--              plate's file to the file of its equilibrium
--   Bounded    pthreads/prod_cons_bound/src/prod_cons_bound.c: the producer and the consumer as a step
--              relation over the buffer and the two semaphores; Bounded/Invariant has what holds
--              between their steps, Bounded/Run a run under any scheduler
--   Queue      pthreads/prod_cons_unbound/src/queue.c: the queue as nodes on a heap; Queue/Chain says
--              which list a queue holds
--   Unbounded  pthreads/prod_cons_unbound/src/producer.c and consumer.c: any number of threads around
--              the list that the queue holds
--   Launch     the loops that create and join the threads in the class examples
--   Ordered    pthreads/hello_order_semaphor/src/hello_order_semaphore.c: greetings in order, by an array
--              of semaphores
--   BusyWait   pthreads/hello_order_busywait/src/hello_order_busywait.c: the same by a shared counter
--   Race       pthreads/position_race/src/position_race.c: positions that are taken under a mutex
--   Pinata     pthreads/birthday_pinata/src/birthday_pinata.c: hits on a pinata under a mutex
--   Mergesort  omp/omp_mergesort/src/mergesort.hpp, and minimum and maximum of
--              omp/omp_stats/src/stats.hpp
--   Arguments  the command lines of both producer and consumer programs and of homeworks/omp_mpi
--   Programs   the exit codes of the two producer and consumer programs
--   Tests      runs at concrete inputs
--
-- How state is modelled: a structure is a record, a C array a list, and an access outside an array
-- makes the run `none`. A function that changes a structure through a pointer returns the new one.
-- Sums and products of uint64_t and size_t wrap at 2 ^ 64. Threads that run between two barriers are
-- an arbitrary interleaving of their visits of cells, by a scheduler's list of choices, and the theorems
-- hold for every list; a barrier is that of the library, which lets no thread go on until all have come.
-- The two tasks of a mergesort take their steps, each on a whole range, in any order.
-- A loop that runs until equilibrium takes a list with one entry for each round; a theorem that says
-- that it ends asks only for more entries than the simulation has states. Calls that may fail
-- (calloc, pthread) are arguments which say whether they do. A semaphore is the number of calls of
-- sem_wait that it still lets through. sem_post fails at SEM_VALUE_MAX in Unbounded; in the other examples
-- it is taken to succeed.
--
-- A message of MPI stands in a queue until it is received, in the order of sending; Mpi/Progress also lets
-- a send wait for its receive. A file is the list of its 64-bit words; the word of a double is a parameter. A read or a write of a
-- shared variable is one step, so ++x is two where no mutex guards it.
--
-- Not modelled: printing and clocks, the release of memory, the scanning of a job file's lines, the
-- bytes of a file after its last whole word, the report's lines, the serial version of the
-- homework, the other small examples, and the other C++ programs.
pub mod Base
pub mod Errors
pub mod Doubles
pub mod Threads
pub mod Blocks
pub mod RowPlate
pub mod Plate
pub mod Paths
pub mod Job
pub mod Mpi
pub mod Files
pub mod Process
pub mod Bounded
pub mod Queue
pub mod Unbounded
pub mod Launch
pub mod Ordered
pub mod BusyWait
pub mod Race
pub mod Pinata
pub mod Mergesort
pub mod Arguments
pub mod Programs
mod Tests
