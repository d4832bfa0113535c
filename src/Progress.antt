-- ===== src/Progress.antt =====
-- progress/meter.go: the counters of the progress meter. An `int64` and an `int32` are 64 and 32 bits. The output on the
-- terminal, the log and the timer are left out.
use expert_octo_doodle.Common.{ℕ, ◌+◌, ◌-◌, ◌%◌, ◌^◌, Bytes, [], Map, insert, remove}

pub record ProgressMeter : Type 0 where
  pub finished_files : ℕ
  pub skipped_files : ℕ
  pub transferring_files : ℕ
  pub estimated_bytes : ℕ
  pub current_bytes : ℕ
  pub skipped_bytes : ℕ
  pub estimated_files : ℕ
  pub file_index : Map ℕ

-- `atomic.AddInt32(p, -1)` and `atomic.AddInt64(p, -size)`
abbrev pub less_one : ℕ → ℕ
less_one n = (n + (2 ^ 32 - 1)) % 2 ^ 32

abbrev pub less_bytes : ℕ → ℕ → ℕ
less_bytes n size = (n + (2 ^ 64 - size % 2 ^ 64)) % 2 ^ 64

-- `NewProgressMeter`
abbrev pub new_progress_meter : ℕ → ℕ → ProgressMeter
new_progress_meter est_files est_bytes = record {
  finished_files = 0;
  skipped_files = 0;
  transferring_files = 0;
  estimated_bytes = est_bytes;
  current_bytes = 0;
  skipped_bytes = 0;
  estimated_files = est_files % 2 ^ 32;
  file_index = [];
}

unfoldable pub add : Bytes → ProgressMeter → ProgressMeter
add name p =
    let idx = (p.transferring_files + 1) % 2 ^ 64 in
    record p { transferring_files = idx; file_index = insert name idx p.file_index }

unfoldable pub skip : ℕ → ProgressMeter → ProgressMeter
skip size p = record p {
  skipped_files = (p.skipped_files + 1) % 2 ^ 64;
  skipped_bytes = (p.skipped_bytes + size) % 2 ^ 64;
  estimated_files = less_one p.estimated_files;
  estimated_bytes = less_bytes p.estimated_bytes size;
}

-- `current` is the `int` that was read.
unfoldable pub transfer_bytes : ℕ → ProgressMeter → ProgressMeter
transfer_bytes current p = record p { current_bytes = (p.current_bytes + current) % 2 ^ 64 }

unfoldable pub finish_transfer : Bytes → ProgressMeter → ProgressMeter
finish_transfer name p = record p {
  finished_files = (p.finished_files + 1) % 2 ^ 64;
  file_index = remove name p.file_index;
}
