-- ===== src/Errors.antt =====
-- The error codes of homeworks/optimized/pthread_optimized/src/errors.h.
use concurrente2025a_evan_ch.Base.{ℕ}

abbrev pub exit_success : ℕ
exit_success = 0

abbrev pub exit_failure : ℕ
exit_failure = 1

abbrev pub err_no_job_file : ℕ
err_no_job_file = 2

abbrev pub err_invalid_thread_count : ℕ
err_invalid_thread_count = 3

abbrev pub err_job_init : ℕ
err_job_init = 11

abbrev pub err_job_file_not_found : ℕ
err_job_file_not_found = 12

abbrev pub err_plate_alloc : ℕ
err_plate_alloc = 13

abbrev pub err_plate_file_name_alloc : ℕ
err_plate_file_name_alloc = 14

abbrev pub err_job_expansion : ℕ
err_job_expansion = 15

abbrev pub err_results_file_path : ℕ
err_results_file_path = 16

abbrev pub err_open_results_file : ℕ
err_open_results_file = 17

abbrev pub err_open_plate_file : ℕ
err_open_plate_file = 21

abbrev pub err_update_output_file_name : ℕ
err_update_output_file_name = 22

abbrev pub err_rows_cols : ℕ
err_rows_cols = 23

abbrev pub err_build_output_file_name : ℕ
err_build_output_file_name = 24

abbrev pub err_open_output_file : ℕ
err_open_output_file = 25

abbrev pub err_init_shared_data : ℕ
err_init_shared_data = 31

abbrev pub err_create_thread_team : ℕ
err_create_thread_team = 32

abbrev pub err_create_thread : ℕ
err_create_thread = 33

abbrev pub err_mpi_send : ℕ
err_mpi_send = 34

abbrev pub err_mpi_recv : ℕ
err_mpi_recv = 35
