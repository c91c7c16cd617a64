-- ===== src/Plate.antt =====
-- The heat plate over one flat array of cells, as homeworks/omp_mpi/src and
-- homeworks/optimized/pthread_optimized/src have it.
pub mod Matrix
pub mod Index
pub mod Record
pub mod Omp
pub mod Cells
pub mod Rows
pub mod Sweep
pub mod Schedule
pub mod Choices
pub mod Interleave
pub mod Heat
pub mod Border
pub mod Round
pub mod Concurrent
