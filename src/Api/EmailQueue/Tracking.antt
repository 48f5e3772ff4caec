-- ===== src/Api/EmailQueue/Tracking.antt =====
-- No operation of the queue forgets a job, wherever it is cut short, but for the window in `dequeue`.
use Prim.Native.Nat.{zero}
use mathlib.Core.List.{[]}
use predict_iq.Prelude.{
  ℕ, ◌==◌, is_some, Bool, ℤ, ◌≡◌, arith, List, true, false, ℕ_discrete, ◌≢◌, inr, ◌⊎◌, inl, take,
  refl, suc, ◌++◌, Option-cases, Bool-cases, ltb, ◌+◌, some, pos,
}
use predict_iq.Api.EmailQueue.Redis.{SortedSets, eqb_member}
use predict_iq.Api.EmailQueue.{
  Queue, Command, move_all, perform, pop_queue, ◌∷◌, remove_processing, add_queue,
  remove_dead_letter, add_processing, add_retry, add_dead_letter, set_heartbeat,
  update_job_attempts, update_job_status, create_dead_letter_job, delete_dead_letter_job,
  move_retries, find_member, perform_all, release, fail_job, mark_failed, Job, failed,
  process_retries, dequeue,
}

find_member-cases :
    (j : ℕ) (ms : List (ℕ × ℕ))
    → (find_member j ms ≡ []) ⊎ ((w : ℕ) × (find_member j ms ≡ (w, j) ∷ []))
unfolding find_member
find_member-cases j [] = inl refl
find_member-cases j ((w, k) ∷ ms) = elim (ℕ_discrete k j) [
  | yes same ↦ inr (w, ground arith)
  | no other ↦ elim (find_member-cases j ms) [
    | inl none' ↦ inl (ground (arith, none'))
    | inr (w', one) ↦ inr (w', ground (arith, one))
  ]
]

module _ {redis : SortedSets ℕ ◌==◌} {owners : SortedSets (ℕ × ℕ) eqb_member} where
  -- Where a job is found again.
  pub data Tracked (s : Queue redis owners) (j : ℕ) : Type 0 where
    queued : is_some (redis.score s.queue j) ≡ true → Tracked s j
    processed : (w : ℕ) → is_some (owners.score s.processing (w, j)) ≡ true → Tracked s j
    retried : is_some (redis.score s.retry j) ≡ true → Tracked s j
    dead : is_some (redis.score s.dead_letter j) ≡ true → Tracked s j

  -- The commands that take nothing away, or put it elsewhere at once.
  abbrev is_safe : Command redis owners → Bool
  is_safe (pop_queue rest) = false
  is_safe (remove_processing m) = false
  is_safe (remove_dead_letter k) = false
  is_safe _ = true

  moved_one :
      (k : ℕ) (now : ℤ) (s : Queue redis owners) (j : ℕ)
      → Tracked s j
      → Tracked (record s { queue = redis.zadd s.queue k now; retry = redis.zrem s.retry k }) j
  moved_one k now s j (queued e) = queued (ground (arith, redis.score-zadd s.queue k j now))
  moved_one k now s j (processed w e) = processed w e
  moved_one k now s j (dead e) = dead e
  moved_one k now s j (retried e) = elim (ℕ_discrete j k) [
    | yes same ↦ queued (ground (arith, redis.score-zadd s.queue k j now))
    | no other ↦ retried (ground (arith, redis.score-zrem s.retry k j))
  ]

  move_all-Tracked :
      (ks : List ℕ) (now : ℤ) (s : Queue redis owners) (j : ℕ)
      → Tracked s j
      → Tracked (move_all redis owners ks now s) j
  unfolding move_all
  move_all-Tracked [] now s j t = t
  move_all-Tracked (k ∷ ks) now s j t =
      let moved = record s { queue = redis.zadd s.queue k now; retry = redis.zrem s.retry k } in
      move_all-Tracked ks now moved j (moved_one k now s j t)

  perform-Tracked :
      (c : Command redis owners) (s : Queue redis owners) (j : ℕ)
      → is_safe c ≡ true
      → Tracked s j
      → Tracked (perform redis owners c s) j
  unfolding perform
  perform-Tracked (add_queue k v) s j h (queued e) =
      queued (ground (arith, redis.score-zadd s.queue k j v))
  perform-Tracked (add_queue k v) s j h (processed w e) = processed w e
  perform-Tracked (add_queue k v) s j h (retried e) = retried e
  perform-Tracked (add_queue k v) s j h (dead e) = dead e
  perform-Tracked (add_processing m v) s j h (queued e) = queued e
  perform-Tracked (add_processing m v) s j h (processed w e) =
      processed w (ground (arith, owners.score-zadd s.processing m (w, j) v))
  perform-Tracked (add_processing m v) s j h (retried e) = retried e
  perform-Tracked (add_processing m v) s j h (dead e) = dead e
  perform-Tracked (add_retry k v) s j h (queued e) = queued e
  perform-Tracked (add_retry k v) s j h (processed w e) = processed w e
  perform-Tracked (add_retry k v) s j h (retried e) =
      retried (ground (arith, redis.score-zadd s.retry k j v))
  perform-Tracked (add_retry k v) s j h (dead e) = dead e
  perform-Tracked (add_dead_letter k v) s j h (queued e) = queued e
  perform-Tracked (add_dead_letter k v) s j h (processed w e) = processed w e
  perform-Tracked (add_dead_letter k v) s j h (retried e) = retried e
  perform-Tracked (add_dead_letter k v) s j h (dead e) =
      dead (ground (arith, redis.score-zadd s.dead_letter k j v))
  perform-Tracked (set_heartbeat k v) s j h (queued e) = queued e
  perform-Tracked (set_heartbeat k v) s j h (processed w e) = processed w e
  perform-Tracked (set_heartbeat k v) s j h (retried e) = retried e
  perform-Tracked (set_heartbeat k v) s j h (dead e) = dead e
  perform-Tracked (update_job_attempts k n) s j h (queued e) = queued e
  perform-Tracked (update_job_attempts k n) s j h (processed w e) = processed w e
  perform-Tracked (update_job_attempts k n) s j h (retried e) = retried e
  perform-Tracked (update_job_attempts k n) s j h (dead e) = dead e
  perform-Tracked (update_job_status k st) s j h (queued e) = queued e
  perform-Tracked (update_job_status k st) s j h (processed w e) = processed w e
  perform-Tracked (update_job_status k st) s j h (retried e) = retried e
  perform-Tracked (update_job_status k st) s j h (dead e) = dead e
  perform-Tracked (create_dead_letter_job k) s j h (queued e) = queued e
  perform-Tracked (create_dead_letter_job k) s j h (processed w e) = processed w e
  perform-Tracked (create_dead_letter_job k) s j h (retried e) = retried e
  perform-Tracked (create_dead_letter_job k) s j h (dead e) = dead e
  perform-Tracked (delete_dead_letter_job k) s j h (queued e) = queued e
  perform-Tracked (delete_dead_letter_job k) s j h (processed w e) = processed w e
  perform-Tracked (delete_dead_letter_job k) s j h (retried e) = retried e
  perform-Tracked (delete_dead_letter_job k) s j h (dead e) = dead e
  perform-Tracked (move_retries ks now) s j h t = move_all-Tracked ks now s j t
  perform-Tracked (pop_queue rest) s j h t = cc
  perform-Tracked (remove_processing m) s j h t = cc
  perform-Tracked (remove_dead_letter k) s j h t = cc

  -- Not in need of the processing set.
  abbrev Elsewhere : Queue redis owners → ℕ → ℕ → Type 0
  Elsewhere s j i =
      (i ≢ j)
      ⊎ ((is_some (redis.score s.retry i) ≡ true) ⊎ (is_some (redis.score s.dead_letter i) ≡ true))

  remove_processing-Tracked :
      (w j : ℕ) (s : Queue redis owners) (i : ℕ)
      → Elsewhere s j i
      → Tracked s i
      → Tracked (perform redis owners (remove_processing (w, j)) s) i
  unfolding perform
  remove_processing-Tracked w j s i (inr (inl e)) t = retried e
  remove_processing-Tracked w j s i (inr (inr e)) t = dead e
  remove_processing-Tracked w j s i (inl d) (queued e) = queued e
  remove_processing-Tracked w j s i (inl d) (retried e) = retried e
  remove_processing-Tracked w j s i (inl d) (dead e) = dead e
  remove_processing-Tracked w j s i (inl d) (processed w' e) =
      processed w' (ground (arith, owners.score-zrem s.processing (w, j) (w', i)))

  nothing :
      (n : ℕ) (s : Queue redis owners) (i : ℕ)
      → Tracked s i
      → Tracked (perform_all redis owners (take n []) s) i
  unfolding perform_all
  nothing zero s i t = t
  nothing (suc n) s i t = t

  at_most_one :
      (n w j : ℕ) (s : Queue redis owners) (i : ℕ)
      → Elsewhere s j i
      → Tracked s i
      → Tracked (perform_all redis owners (take n (remove_processing (w, j) ∷ [])) s) i
  unfolding perform_all
  at_most_one zero w j s i away t = t
  at_most_one (suc zero) w j s i away t = remove_processing-Tracked w j s i away t
  at_most_one (suc (suc n)) w j s i away t = remove_processing-Tracked w j s i away t

  release-Tracked :
      (n j i : ℕ) (s s' : Queue redis owners)
      → Elsewhere s' j i
      → Tracked s' i
      → Tracked (perform_all redis owners (take n (release redis owners j s)) s') i
  unfolding release perform_all
  release-Tracked n j i s s' away t = elim (find_member-cases j (owners.zrange s.processing)) [
    | inl none' ↦ rw none' (nothing n s' i t)
    | inr (w, one) ↦ rw one (at_most_one n w j s' i away t)
  ]

  -- The two commands that schedule a retry, and then the release.
  retry_branch :
      (n j i : ℕ) (attempts : ℕ) (at : ℤ) (s : Queue redis owners)
      → Tracked s i
      → Tracked
          (perform_all redis owners
            (take n (update_job_attempts j attempts ∷ add_retry j at ∷ release redis owners j s))
            s)
          i
  unfolding perform_all perform
  retry_branch zero j i attempts at s t = t
  retry_branch (suc zero) j i attempts at s t =
      perform-Tracked (update_job_attempts j attempts) s i refl t
  retry_branch (suc (suc n)) j i attempts at s t =
      let s1 = perform redis owners (update_job_attempts j attempts) s in
      let s2 = perform redis owners (add_retry j at) s1 in
      let away : Elsewhere s2 j i = elim (ℕ_discrete i j) [
        | yes same ↦ inr (inl (ground (arith, redis.score-zadd s1.retry j i at)))
        | no other ↦ inl other
      ] in
      release-Tracked n j i s s2 away (
        perform-Tracked (add_retry j at) s1 i refl
          (perform-Tracked (update_job_attempts j attempts) s i refl t))

  -- The three commands that bury a job, and then the release.
  dead_branch :
      (n j i : ℕ) (at : ℤ) (s : Queue redis owners)
      → Tracked s i
      → Tracked
          (perform_all redis owners
            (take n (
              update_job_status j failed
              ∷ add_dead_letter j at
              ∷ create_dead_letter_job j
              ∷ release redis owners j s))
            s)
          i
  unfolding perform_all perform
  dead_branch zero j i at s t = t
  dead_branch (suc zero) j i at s t = perform-Tracked (update_job_status j failed) s i refl t
  dead_branch (suc (suc zero)) j i at s t =
      perform-Tracked (add_dead_letter j at) (perform redis owners (update_job_status j failed) s) i
        refl (perform-Tracked (update_job_status j failed) s i refl t)
  dead_branch (suc (suc (suc n))) j i at s t =
      let s1 = perform redis owners (update_job_status j failed) s in
      let s2 = perform redis owners (add_dead_letter j at) s1 in
      let s3 = perform redis owners (create_dead_letter_job j) s2 in
      let away : Elsewhere s3 j i = elim (ℕ_discrete i j) [
        | yes same ↦ inr (inr (ground (arith, redis.score-zadd s1.dead_letter j i at)))
        | no other ↦ inl other
      ] in
      release-Tracked n j i s s3 away (
        perform-Tracked (create_dead_letter_job j) s2 i refl (
          perform-Tracked (add_dead_letter j at) s1 i refl
            (perform-Tracked (update_job_status j failed) s i refl t)))

  failed_job :
      (n j now i : ℕ) (job : Job) (s : Queue redis owners)
      → Tracked s i
      → Tracked
          (perform_all redis owners
            (take n (fail_job redis owners j now job ++ release redis owners j s))
            s)
          i
  unfolding fail_job
  failed_job n j now i job s t = elim (Bool-cases (ltb (job.attempts + 1) job.max_attempts)) [
    | inl again ↦ rw again (retry_branch n j i _ _ s t)
    | inr last ↦ rw last (dead_branch n j i _ s t)
  ]

  -- However many commands of mark_failed are carried out before it is cut short, every job that was
  -- in one of the four sorted sets is in one of them.
  pub mark_failed-Tracked :
      (n j now i : ℕ) (s : Queue redis owners)
      → Tracked s i
      → Tracked (perform_all redis owners (take n (mark_failed redis owners j now s)) s) i
  unfolding mark_failed
  mark_failed-Tracked n j now i s t = elim (Option-cases (s.jobs j)) [
    | inl missing ↦ rw (missing, mark_failed) (nothing n s i t)
    | inr (job, found) ↦ rw (found, mark_failed) (failed_job n j now i job s t)
  ]

  pub process_retries-Tracked :
      (n now i : ℕ) (s : Queue redis owners)
      → Tracked s i
      → Tracked (perform_all redis owners (take n (process_retries redis owners now s)) s) i
  unfolding process_retries perform_all
  process_retries-Tracked zero now i s t = t
  process_retries-Tracked (suc zero) now i s t =
      perform-Tracked (move_retries (redis.zrangebyscore s.retry (pos now)) (pos now)) s i refl t
  process_retries-Tracked (suc (suc n)) now i s t =
      perform-Tracked (move_retries (redis.zrangebyscore s.retry (pos now)) (pos now)) s i refl t

  take_job :
      (worker now i j : ℕ) (rest : redis.Set) (s : Queue redis owners)
      → redis.zpopmin s.queue ≡ some (j, rest)
      → Tracked s i
      → Tracked
          (record s { queue = rest; processing = owners.zadd s.processing (worker, j) (pos now) })
          i
  take_job worker now i j rest s popped (retried e) = retried e
  take_job worker now i j rest s popped (dead e) = dead e
  take_job worker now i j rest s popped (processed w e) =
      processed w (ground (arith, owners.score-zadd s.processing (worker, j) (w, i) (pos now)))
  take_job worker now i j rest s popped (queued e) = elim (ℕ_discrete i j) [
    | yes same ↦
        processed worker
          (ground (arith, owners.score-zadd s.processing (worker, j) (worker, i) (pos now)))
    | no other ↦ queued (ground (arith, redis.score-zpopmin s.queue rest j i popped))
  ]

  -- The whole of `dequeue`.
  pub dequeue-Tracked :
      (worker now i : ℕ) (s : Queue redis owners)
      → Tracked s i
      → Tracked (perform_all redis owners (dequeue redis owners worker now s) s) i
  unfolding dequeue perform_all perform
  dequeue-Tracked worker now i s t = elim (Option-cases (redis.zpopmin s.queue)) [
    | inl empty ↦ rw (empty, dequeue) t
    | inr ((j, rest), popped) ↦ rw (popped, dequeue) (take_job worker now i j rest s popped t)
  ]

  lost :
      (j : ℕ) (rest : redis.Set) (s : Queue redis owners)
      → redis.zpopmin s.queue ≡ some (j, rest)
      → is_some (redis.score s.retry j) ≡ false
      → is_some (redis.score s.dead_letter j) ≡ false
      → ((w : ℕ) → is_some (owners.score s.processing (w, j)) ≡ false)
      → ¬ Tracked (record s { queue = rest }) j
  lost j rest s popped a b c (queued e) =
      ground (arith, redis.score-zpopmin s.queue rest j j popped)
  lost j rest s popped a b c (processed w e) = ground (arith, c w)
  lost j rest s popped a b c (retried e) = ground arith
  lost j rest s popped a b c (dead e) = ground arith

  -- Where dequeue is cut short after its ZPOPMIN, the job popped is in none of the four sorted
  -- sets, if it stood in the main one only.
  pub dequeue_loses :
      (worker now j : ℕ) (rest : redis.Set) (s : Queue redis owners)
      → redis.zpopmin s.queue ≡ some (j, rest)
      → is_some (redis.score s.retry j) ≡ false
      → is_some (redis.score s.dead_letter j) ≡ false
      → ((w : ℕ) → is_some (owners.score s.processing (w, j)) ≡ false)
      → ¬ Tracked (perform_all redis owners (take 1 (dequeue redis owners worker now s)) s) j
  unfolding dequeue perform_all perform
  dequeue_loses worker now j rest s popped a b c t =
      lost j rest s popped a b c (rw (popped, dequeue) at t)
