-- ===== src/Api/EmailQueue/Worker.antt =====
-- services/api/src/email/queue.rs: what the worker does with a job that it has dequeued. The columns
-- of a job that never change, and the hash of the idempotency key, are parameters. The statements of
-- the database, and the commands of Redis on the queue, succeed here.
pub mod Retry
use predict_iq.Api.EmailQueue.{
  perform_all, Queue, some, mark_failed, mark_completed, perform, update_job_status,
  processing_status,
}
use predict_iq.Api.Mailer.{Backends, Mailbox, SendResult, deduplicated, message_id}
use predict_iq.Prelude.{ℕ, ◌==◌, Option, Bool, ◌/◌, true, none, if◌then◌else◌, false}
use predict_iq.Api.EmailQueue.Redis.{SortedSets, eqb_member}

pub record Service (redis : SortedSets ℕ ◌==◌) (owners : SortedSets (ℕ × ℕ) eqb_member)
    : Type 0 where
  pub jobs : Queue redis owners
  pub mail : Mailbox

module _ (redis : SortedSets ℕ ◌==◌) (owners : SortedSets (ℕ × ℕ) eqb_member)
    (send : ℕ → Option ℕ → ℕ → Backends → Mailbox → SendResult × Mailbox) (hash_key : ℕ → ℕ → ℕ → ℕ)
    (is_suppressed : ℕ → Bool) (recipient_email template_name created_at : ℕ → ℕ) where
  -- The hour of the creation of the job, and not of the attempt.
  unfoldable pub idempotency_key : ℕ → ℕ
  idempotency_key job_id =
      hash_key (recipient_email job_id) (template_name job_id) (created_at job_id / 3600)

  -- Whether the send counts as one: a message id, or the mark of a duplicate.
  abbrev pub is_sent : SendResult → Bool
  is_sent message_id = true
  is_sent (deduplicated key) = true
  is_sent _ = false

  -- `process_job`: whether it ends in Ok.
  unfoldable pub process_job : ℕ → ℕ → Backends → Service redis owners → Bool × Service redis owners
  unfolding idempotency_key
  process_job job_id now b s = elim (s.jobs.jobs job_id) [
    | none ↦ (false, s)
    | some job ↦
        if is_suppressed (recipient_email job_id)
        then (
          true,
          record s {
            jobs = perform_all redis owners (mark_completed redis owners job_id s.jobs) s.jobs;
          },
        )
        else (let started =
              perform redis owners (update_job_status job_id processing_status) s.jobs in
            let (result, mail) = send job_id (some (idempotency_key job_id)) now b s.mail in
            if is_sent result
            then (
              true,
              record {
                jobs =
                    perform_all redis owners (mark_completed redis owners job_id started) started;
                mail = mail;
              },
            )
            else (false, record { jobs = started; mail = mail }))
  ]

  -- The arm of the loop for a job: a failed one is marked as failed.
  unfoldable pub handle_job : ℕ → ℕ → Backends → Service redis owners → Service redis owners
  unfolding process_job
  handle_job job_id now b s =
      let (done, after) = process_job job_id now b s in
      if done then after else record after {
        jobs = perform_all redis owners (mark_failed redis owners job_id now after.jobs) after.jobs;
      }
