-- ===== src/Api/EmailQueue.antt =====
-- services/api/src/email/queue.rs: the e-mail queue, as the commands that its operations send to
-- Redis and to the database, one after another. An operation may be cut short between two of them.
pub mod Redis
pub mod Tracking
pub mod Worker
use mathlib.Core.List.{[]}
use predict_iq.Api.EmailQueue.Redis.{SortedSets, eqb_member}
use predict_iq.Prelude.{
  ℕ, ◌^◌, ◌==◌, min, ◌*◌, Option, ℤ, List, put, Bool, if◌then◌else◌, ◌∷◌, some, none, map, pos,
  true, ltb, [], false, ◌-ℤ◌, ◌+◌, ◌++◌,
}

pub data JobStatus : Type 0 where
  pending processing_status completed failed cancelled : JobStatus

pub record Job : Type 0 where
  pub attempts : ℕ
  pub max_attempts : ℕ
  pub status : JobStatus

abbrev pub max_backoff_exponent : ℕ
max_backoff_exponent = 20

abbrev pub dead_letter_requeue_delay_secs : ℕ
dead_letter_requeue_delay_secs = 60

-- `new_attempts` is at least 1 here, so the lower end of the clamp is not met.
unfoldable pub compute_backoff_seconds : ℕ → ℕ
compute_backoff_seconds new_attempts = 2 ^ min new_attempts max_backoff_exponent * 60

-- The first member of the job: `member.ends_with(":job_id")`.
unfoldable pub find_member : ℕ → List (ℕ × ℕ) → List (ℕ × ℕ)
find_member job_id [] = []
find_member job_id (m ∷ ms) = if m.1 == job_id then m ∷ [] else find_member job_id ms

module _ (redis : SortedSets ℕ ◌==◌) (owners : SortedSets (ℕ × ℕ) eqb_member) where
  -- The four sorted sets, the heartbeats, and the tables of jobs and of dead letters. A member of
  -- the processing set is a worker with a job.
  pub record Queue : Type 0 where
    pub queue : redis.Set
    pub processing : owners.Set
    pub retry : redis.Set
    pub dead_letter : redis.Set
    pub heartbeat : ℕ → Option ℤ
    pub jobs : ℕ → Option Job
    pub dead_jobs : ℕ → Bool

  -- A command that writes.
  pub data Command : Type 0 where
    add_queue : ℕ → ℤ → Command
    pop_queue : redis.Set → Command
    add_processing : ℕ × ℕ → ℤ → Command
    remove_processing : ℕ × ℕ → Command
    add_retry : ℕ → ℤ → Command
    add_dead_letter : ℕ → ℤ → Command
    remove_dead_letter : ℕ → Command
    move_retries : List ℕ → ℤ → Command
    set_heartbeat : ℕ → ℤ → Command
    update_job_attempts : ℕ → ℕ → Command
    update_job_status : ℕ → JobStatus → Command
    create_dead_letter_job : ℕ → Command
    delete_dead_letter_job : ℕ → Command

  unfoldable pub update_job : (ℕ → Option Job) → ℕ → (Job → Job) → ℕ → Option Job
  update_job jobs j f i =
      if i == j then elim (jobs j) [ none ↦ none | some job ↦ some (f job) ] else jobs i

  -- The script of `process_retries`.
  unfoldable pub move_all : List ℕ → ℤ → Queue → Queue
  move_all [] now s = s
  move_all (j ∷ js) now s =
      move_all js now (record s { queue = redis.zadd s.queue j now; retry = redis.zrem s.retry j })

  unfoldable pub perform : Command → Queue → Queue
  unfolding update_job move_all
  perform (add_queue j score) s = record s { queue = redis.zadd s.queue j score }
  perform (pop_queue rest) s = record s { queue = rest }
  perform (add_processing m score) s = record s { processing = owners.zadd s.processing m score }
  perform (remove_processing m) s = record s { processing = owners.zrem s.processing m }
  perform (add_retry j score) s = record s { retry = redis.zadd s.retry j score }
  perform (add_dead_letter j score) s = record s { dead_letter = redis.zadd s.dead_letter j score }
  perform (remove_dead_letter j) s = record s { dead_letter = redis.zrem s.dead_letter j }
  perform (move_retries js now) s = move_all js now s
  perform (set_heartbeat worker now) s = record s { heartbeat = put s.heartbeat worker (some now) }
  perform (update_job_attempts j n) s = record s {
    jobs = update_job s.jobs j (λ job. record job { attempts = n });
  }
  perform (update_job_status j status) s = record s {
    jobs = update_job s.jobs j (λ job. record job { status = status });
  }
  perform (create_dead_letter_job j) s = record s { dead_jobs = put s.dead_jobs j true }
  perform (delete_dead_letter_job j) s = record s { dead_jobs = put s.dead_jobs j false }

  unfoldable pub perform_all : List Command → Queue → Queue
  perform_all [] s = s
  perform_all (c ∷ cs) s = perform_all cs (perform c s)

  -- A job with a positive priority comes before all others.
  unfoldable pub enqueue : ℕ → ℕ → ℕ → List Command
  enqueue job_id priority now =
      add_queue job_id (if ltb 0 priority then pos 0 -ℤ pos priority else pos now) ∷ []

  unfoldable pub dequeue : ℕ → ℕ → Queue → List Command
  dequeue worker_id now s = elim (redis.zpopmin s.queue) [
    | none ↦ []
    | some (job_id, rest) ↦ pop_queue rest ∷ add_processing (worker_id, job_id) (pos now) ∷ []
  ]

  unfoldable pub release : ℕ → Queue → List Command
  unfolding find_member
  release job_id s = map remove_processing (find_member job_id (owners.zrange s.processing))

  -- The event of the message sent is left to the database.
  unfoldable pub mark_completed : ℕ → Queue → List Command
  unfolding release
  mark_completed job_id s = update_job_status job_id completed ∷ release job_id s

  unfoldable pub fail_job : ℕ → ℕ → Job → List Command
  unfolding compute_backoff_seconds
  fail_job job_id now job =
      if ltb (job.attempts + 1) job.max_attempts
      then update_job_attempts job_id (job.attempts + 1)
        ∷ add_retry job_id (pos (now + compute_backoff_seconds (job.attempts + 1)))
        ∷ []
      else update_job_status job_id failed
        ∷ add_dead_letter job_id (pos now)
        ∷ create_dead_letter_job job_id
        ∷ []

  unfoldable pub mark_failed : ℕ → ℕ → Queue → List Command
  unfolding fail_job release
  mark_failed job_id now s = elim (s.jobs job_id) [
    | none ↦ []
    | some job ↦ fail_job job_id now job ++ release job_id s
  ]

  unfoldable pub process_retries : ℕ → Queue → List Command
  process_retries now s = move_retries (redis.zrangebyscore s.retry (pos now)) (pos now) ∷ []

  unfoldable pub requeue_dead_letter : ℕ → ℕ → Queue → List Command
  requeue_dead_letter job_id now s = elim (redis.score s.dead_letter job_id) [
    | none ↦ []
    | some at ↦
        remove_dead_letter job_id
        ∷ update_job_attempts job_id 0
        ∷ update_job_status job_id pending
        ∷ add_queue job_id (pos (now + dead_letter_requeue_delay_secs))
        ∷ delete_dead_letter_job job_id
        ∷ []
  ]

  unfoldable pub update_worker_heartbeat : ℕ → ℕ → List Command
  update_worker_heartbeat worker_id now = set_heartbeat worker_id (pos now) ∷ []
