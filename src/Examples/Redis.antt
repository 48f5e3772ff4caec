-- ===== src/Examples/Redis.antt =====
-- Sorted sets as association lists, and an e-mail queue over them.
use predict_iq.Api.EmailQueue.Tracking.{Tracked, mark_failed-Tracked, dequeue_loses, processed}
use predict_iq.Api.EmailQueue.{perform_all, Queue, mark_failed, dequeue, pending}
use predict_iq.Api.EmailQueue.Redis.{SortedSets, eqb_member, among, within}
use predict_iq.Prelude.{
  [], Bool, ℕ, ◌≡◌, ◌==◌, true, List, arith, ℤ, ◌∷◌, Option, if◌then◌else◌, some, is_some, not,
  none, leb_ℤ, refl, ◌&&◌, take, pos, false,
}

module _ {K : Type 0} (eqb : K → K → Bool) (same : (x j k : K) → eqb j x ≡ true → eqb x k ≡ eqb j k)
    (self : (k : K) → eqb k k ≡ true) where
  abbrev pub list_score : List (K × ℤ) → K → Option ℤ
  list_score [] j = none
  list_score ((k, v) ∷ s) j = if eqb j k then some v else list_score s j

  abbrev pub list_zrem : List (K × ℤ) → K → List (K × ℤ)
  list_zrem [] k = []
  list_zrem ((x, v) ∷ s) k = let rest = list_zrem s k in if eqb x k then rest else (x, v) ∷ rest

  abbrev pub list_zpopmin : List (K × ℤ) → Option (K × List (K × ℤ))
  list_zpopmin [] = none
  list_zpopmin ((k, v) ∷ s) = some (k, list_zrem s k)

  abbrev pub keys_but : K → List K → List K
  keys_but k [] = []
  keys_but k (x ∷ xs) = let rest = keys_but k xs in if eqb x k then rest else x ∷ rest

  abbrev pub list_zrange : List (K × ℤ) → List K
  list_zrange [] = []
  list_zrange ((k, v) ∷ s) = k ∷ list_zrange s

  abbrev pub list_below : List (K × ℤ) → ℤ → List K
  list_below [] bound = []
  list_below ((k, v) ∷ s) bound =
      let rest = keys_but k (list_below s bound) in if leb_ℤ v bound then k ∷ rest else rest

  pub score-list_zrem :
      (s : List (K × ℤ)) (k j : K)
      → list_score (list_zrem s k) j ≡ (if eqb j k then none else list_score s j)
  score-list_zrem [] k j = ground arith
  score-list_zrem ((x, v) ∷ s) k j = ground (arith, score-list_zrem s k j, same x j k)

  pub score-list_zpopmin :
      (s rest : List (K × ℤ)) (k j : K)
      → list_zpopmin s ≡ some (k, rest)
      → list_score rest j ≡ (if eqb j k then none else list_score s j)
  score-list_zpopmin [] rest k j h = cc
  score-list_zpopmin ((x, v) ∷ s) rest k j h = ground (arith, score-list_zrem s x j)

  pub among-list_zrange :
      (s : List (K × ℤ)) (k : K) → among eqb k (list_zrange s) ≡ is_some (list_score s k)
  among-list_zrange [] k = refl
  among-list_zrange ((x, v) ∷ s) k = ground (arith, among-list_zrange s k)

  among-keys_but :
      (k j : K) (xs : List K) → among eqb j (keys_but k xs) ≡ not (eqb j k) && among eqb j xs
  among-keys_but k j [] = ground arith
  among-keys_but k j (x ∷ xs) = ground (arith, among-keys_but k j xs, same x j k)

  pub among-list_below :
      (s : List (K × ℤ)) (k : K) (bound : ℤ)
      → among eqb k (list_below s bound) ≡ within (list_score s k) bound
  among-list_below [] k bound = refl
  among-list_below ((x, v) ∷ s) k bound =
      ground (arith, among-list_below s k bound, among-keys_but x k (list_below s bound))

  abbrev pub list_sets : SortedSets K eqb
  list_sets = record {
    Set = List (K × ℤ);
    score = list_score;
    zadd = λ s k v. (k, v) ∷ s;
    zrem = list_zrem;
    zpopmin = list_zpopmin;
    zrange = list_zrange;
    zrangebyscore = list_below;
    score-zadd = λ s k j v. refl;
    score-zrem = score-list_zrem;
    score-zpopmin = score-list_zpopmin;
    among-zrange = among-list_zrange;
    among-zrangebyscore = among-list_below;
  }

pub same_number : (x j k : ℕ) → (j == x) ≡ true → (x == k) ≡ (j == k)
same_number x j k h = ground arith

pub same_member : (x j k : ℕ × ℕ) → eqb_member j x ≡ true → eqb_member x k ≡ eqb_member j k
same_member (x, x') (j, j') (k, k') h = ground arith

pub self_number : (k : ℕ) → (k == k) ≡ true
self_number k = ground arith

pub self_member : (k : ℕ × ℕ) → eqb_member k k ≡ true
self_member (k, k') = ground arith

abbrev pub number_sets : SortedSets ℕ ◌==◌
number_sets = list_sets ◌==◌ same_number self_number

abbrev pub member_sets : SortedSets (ℕ × ℕ) eqb_member
member_sets = list_sets eqb_member same_member self_member

-- Job 7 waits in the queue, and worker 1 has job 8, which has failed twice of three times.
abbrev pub test_queue : Queue number_sets member_sets
test_queue = record {
  queue = (7, pos 5) ∷ [];
  processing = ((1, 8), pos 4) ∷ [];
  retry = [];
  dead_letter = [];
  heartbeat = λ w. none;
  jobs = λ j. some (record { attempts = 2; max_attempts = 3; status = pending });
  dead_jobs = λ j. false;
}

mark_failed-Tracked_example :
    Tracked
      (perform_all number_sets member_sets
        (take 2 (mark_failed number_sets member_sets 8 10 test_queue))
        test_queue)
      8
mark_failed-Tracked_example = mark_failed-Tracked 2 8 10 8 test_queue (processed 1 refl)

dequeue_loses_example :
    ¬ Tracked
      (perform_all number_sets member_sets
        (take 1 (dequeue number_sets member_sets 1 10 test_queue))
        test_queue)
      7
dequeue_loses_example = dequeue_loses 1 10 7 [] test_queue refl refl refl (λ w. ground arith)
