-- ===== src/Api/Shutdown.antt =====
-- services/api/src/shutdown.rs: the workers that report their completion, as threads.
pub mod Completion
use predict_iq.Prelude.{ℕ, true, Bool, false, if◌then◌else◌, ◌+◌, leb, ◌<◌, ◌==◌, ◌≡◌}

-- A worker has not finished, has read the counter in `worker_completed`, or has written it back.
pub data Phase : Type 0 where
  running : Phase
  has_read : ℕ → Phase
  reported : Phase

-- `completion_tx` and `completion_rx` are the two ends of one watch channel: its value.
pub record Coordinator : Type 0 where
  pub completion : ℕ
  pub total_workers : ℕ
  pub is_cancelled : Bool
  pub worker : ℕ → Phase

abbrev pub new_coordinator : ℕ → Coordinator
new_coordinator total_workers = record {
  completion = 0;
  total_workers = total_workers;
  is_cancelled = false;
  worker = λ i. running;
}

abbrev pub set_phase : (ℕ → Phase) → ℕ → Phase → ℕ → Phase
set_phase w i p j = if j == i then p else w j

-- The two halves of `worker_completed`: the read of the channel, and the send.
unfoldable pub read_completion : ℕ → Coordinator → Coordinator
read_completion i c = record c { worker = set_phase c.worker i (has_read c.completion) }

unfoldable pub send_completion : ℕ → ℕ → Coordinator → Coordinator
send_completion i current c = record c {
  completion = current + 1;
  worker = set_phase c.worker i reported;
}

-- `worker_completed` with nothing in between.
unfoldable pub worker_completed : ℕ → Coordinator → Coordinator
unfolding read_completion send_completion
worker_completed i c = send_completion i c.completion (read_completion i c)

-- The first statement of `shutdown`.
unfoldable pub cancel : Coordinator → Coordinator
cancel c = record c { is_cancelled = true }

-- The test on which `wait_for_completion` returns.
unfoldable pub is_complete : Coordinator → Bool
is_complete c = leb c.total_workers c.completion

-- A step of one thread. Workers run in parallel, so the halves of two calls may alternate.
pub data Step (c : Coordinator) : Coordinator → Type 0 where
  read : (i : ℕ) → i < c.total_workers → c.worker i ≡ running → Step c (read_completion i c)
  send :
      (i current : ℕ)
      → i < c.total_workers
      → c.worker i ≡ has_read current
      → Step c (send_completion i current c)
  shut : Step c (cancel c)

pub data Steps (c : Coordinator) : Coordinator → Type 0 where
  start : Steps c c
  later : (d f : Coordinator) → Steps c d → Step d f → Steps c f
