-- ===== src/Api/Shutdown/Completion.antt =====
-- What the completion counter says of the workers.
use mathlib.Core.Path.{ap₂}
use Prim.Native.Nat.{zero}
use predict_iq.Api.Shutdown.{
  Phase, Coordinator, has_read, Step, running, set_phase, read, reported, send, shut,
  read_completion, Steps, is_complete, new_coordinator, send_completion, later, cancel, start,
}
use predict_iq.Prelude.{
  ℕ, suc, ◌≤◌, ◌<◌, ◌≡◌, arith, ◌+◌, refl, ℕ_discrete, true, if◌then◌else◌, ◌∙◌, ltb, ◌==◌, ap,
  false, fun_ext, subst,
}

-- How many of the first `n` workers have reported.
pub reported_count : ℕ → (ℕ → Phase) → ℕ
reported_count zero w = 0
reported_count (suc n) w = elim (w n) [
  | running ↦ reported_count n w
  | has_read k ↦ reported_count n w
  | reported ↦ suc (reported_count n w)
]

count_other :
    (n i : ℕ) (w : ℕ → Phase) (p : Phase)
    → n ≤ i
    → reported_count n (set_phase w i p) ≡ reported_count n w
unfolding reported_count
count_other zero i w p h = refl
count_other (suc n) i w p h = ground (arith, count_other n i w p)

abbrev is_reported : Phase → ℕ
is_reported running = 0
is_reported (has_read k) = 0
is_reported reported = 1

count_set :
    (n i : ℕ) (w : ℕ → Phase) (p : Phase)
    → i < n
    → reported_count n (set_phase w i p) + is_reported (w i) ≡ reported_count n w + is_reported p
unfolding reported_count
count_set zero i w p h = absurd (omega arith)
count_set (suc n) i w p h = elim (ℕ_discrete i n) [
  | yes same ↦ let rest = count_other n i w p (omega arith) in ground (arith, rest)
  | no other ↦ let rest = count_set n i w p (omega arith) in ground (arith, rest)
]

-- The counter, and every value that a worker has read, is at most the number of reports.
pub record IsHonest (c : Coordinator) : Type 0 where
  pub below : c.completion ≤ reported_count c.total_workers c.worker
  pub read_below : (i k : ℕ) → c.worker i ≡ has_read k → k ≤ reported_count c.total_workers c.worker

Step-IsHonest : {c d : Coordinator} → Step c d → IsHonest c → IsHonest d
unfolding read_completion send_completion cancel
Step-IsHonest {c} (read i l r) v =
    let count = count_set c.total_workers i c.worker (has_read c.completion) l in
    record {
      below = ground (arith, count);
      read_below = λ j k e. ground (arith, count, v.read_below j k);
    }
Step-IsHonest {c} (send i k l r) v =
    let count = count_set c.total_workers i c.worker reported l in
    record {
      below = ground (arith, count, v.read_below i k);
      read_below = λ j k' e. ground (arith, count, v.read_below j k');
    }
Step-IsHonest {c} shut v = record { below = v.below; read_below = v.read_below }

Step-total : {c d : Coordinator} → Step c d → d.total_workers ≡ c.total_workers
unfolding read_completion send_completion cancel
Step-total (read i l r) = refl
Step-total (send i k l r) = refl
Step-total shut = refl

count_running : (n : ℕ) → reported_count n (λ i. running) ≡ 0
unfolding reported_count
count_running zero = refl
count_running (suc n) = count_running n

Steps-IsHonest :
    (n : ℕ) {c : Coordinator} → Steps (new_coordinator n) c → IsHonest c × (c.total_workers ≡ n)
Steps-IsHonest n start = (record { below = omega arith; read_below = λ i k e. ground arith }, refl)
Steps-IsHonest n (later d f before step) =
    let (v, total) = Steps-IsHonest n before in (Step-IsHonest step v, Step-total step ∙ total)

count-le : (n : ℕ) (w : ℕ → Phase) → reported_count n w ≤ n
unfolding reported_count
count-le zero w = omega arith
count-le (suc n) w = ground (arith, count-le n w)

count_full : (n i : ℕ) (w : ℕ → Phase) → n ≤ reported_count n w → i < n → w i ≡ reported
unfolding reported_count
count_full zero i w h l = absurd (omega arith)
count_full (suc n) i w h l = elim (ℕ_discrete i n) [
  | yes same ↦ rw same (ground (arith, count-le n w))
  | no other ↦ ground (arith, count-le n w, count_full n i w)
]

-- Whatever the interleaving of the reads and writes of the n workers' reports and of the
-- cancellation, once the coordinator counts as complete every worker has reported.
pub is_complete-reported :
    (n i : ℕ) (c : Coordinator)
    → Steps (new_coordinator n) c
    → is_complete c ≡ true
    → i < n
    → c.worker i ≡ reported
unfolding is_complete
is_complete-reported n i c steps done l =
    let (v, total) = Steps-IsHonest n steps in count_full n i c.worker (ground (arith, v.below)) l

-- The first `k` workers have read the counter, or have written it back.
abbrev read_by : ℕ → ℕ → Coordinator
read_by n k = record (new_coordinator n) { worker = λ j. if ltb j k then has_read 0 else running }

abbrev sent_by : ℕ → ℕ → Coordinator
sent_by n k = record (new_coordinator n) {
  completion = if k == 0 then 0 else 1;
  worker = λ j. if ltb j k then reported else if ltb j n then has_read 0 else running;
}

with_phases : ℕ → ℕ → (ℕ → Phase) → Coordinator
with_phases n done w = record (new_coordinator n) { completion = done; worker = w }

reads : (n k : ℕ) → k ≤ n → Steps (new_coordinator n) (read_by n k)
unfolding read_completion with_phases
reads n zero l =
    let same : with_phases n 0 (λ i. running) ≡ read_by n 0 =
      ap (with_phases n 0) (fun_ext (λ j. ground arith)) in
    subst (Steps (new_coordinator n)) same start
reads n (suc k) l =
    let same : with_phases n 0 (set_phase (read_by n k).worker k (has_read 0)) ≡ read_by n (suc k) =
      ap (with_phases n 0) (fun_ext (λ j. ground arith)) in
    let before = reads n k (omega arith) in
    subst (Steps (new_coordinator n)) same (
      later (read_by n k) (read_completion k (read_by n k)) before
        (read k (omega arith) (ground arith)))

sends : (n k : ℕ) → k ≤ n → Steps (new_coordinator n) (sent_by n k)
unfolding send_completion with_phases
sends n zero l =
    let same : with_phases n 0 (read_by n n).worker ≡ sent_by n 0 =
      ap (with_phases n 0) (fun_ext (λ j. ground arith)) in
    subst (Steps (new_coordinator n)) same (reads n n (omega arith))
sends n (suc k) l =
    let same : with_phases n 1 (set_phase (sent_by n k).worker k reported) ≡ sent_by n (suc k) =
      ap₂ (with_phases n) (ground arith) (fun_ext (λ j. ground arith)) in
    let before = sends n k (omega arith) in
    subst (Steps (new_coordinator n)) same (
      later (sent_by n k) (send_completion k 0 (sent_by n k)) before
        (send k 0 (omega arith) (ground arith)))

count_sent : (n k : ℕ) → n ≤ k → reported_count n (sent_by k k).worker ≡ n
unfolding reported_count
count_sent zero k l = refl
count_sent (suc n) k l = ground (arith, count_sent n k)

-- For two or more workers there is an interleaving after which all of them have reported, and yet
-- the counter is 1 and the coordinator is not complete: the increments are lost, since the read and
-- the write of a report are two steps.
pub is_complete_lost :
    (n : ℕ)
    → 1 < n
    → (c : Coordinator) × Steps (new_coordinator n) c
      × (reported_count n c.worker ≡ n)
      × (c.completion ≡ 1)
      × (is_complete c ≡ false)
unfolding is_complete
is_complete_lost n l =
    (sent_by n n, sends n n (omega arith), count_sent n n (omega arith), ground arith, ground arith)
