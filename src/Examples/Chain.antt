-- ===== src/Examples/Chain.antt =====
-- The theorems on the client of the chain at small inputs.
use predict_iq.Api.Rpc.Attempts.{result_of, settled_at, rpc_call-settled_at}
use predict_iq.Api.Watch.Restart.{load_watched_transactions-watch_transaction}
use predict_iq.Api.Watch.Cap.{steps_watch, watch, turn, steps_watch-IsMap}
use predict_iq.Api.Sync.Cursor.{sync_all, sync_all_ok, sync_all_purged}
use predict_iq.Api.Sync.{SyncConfig, SyncState, Turn}
use predict_iq.Api.Rpc.{rpc_call, Reply, replied}
use predict_iq.Api.Watch.{WatchConfig, contains_key, load_watched_transactions}
use predict_iq.Prelude.{
  [], ◌∷◌, none, some, length, ℕ, Option, ◌≡◌, List, if◌then◌else◌, Bool, arith, ltb, ◌==◌, refl,
  true, ◌≤◌,
}

abbrev pub small_watch : WatchConfig
small_watch = record { watched_tx_max_size = 2; watched_tx_ttl = 100 }

steps_watch-IsMap_example :
    length (
      steps_watch small_watch
        (watch 7 10 ∷ watch 8 20 ∷ watch 9 30 ∷ turn (λ h. h == 7) (7 ∷ 8 ∷ []) ∷ watch 9 40 ∷ [])
        [])
    ≤ 2
steps_watch-IsMap_example =
    let (small, _) =
      steps_watch-IsMap small_watch
        (watch 7 10 ∷ watch 8 20 ∷ watch 9 30 ∷ turn (λ h. h == 7) (7 ∷ 8 ∷ []) ∷ watch 9 40 ∷ [])
        [] (omega arith) tt in
    small

load_watched_transactions-watch_transaction_example :
    length (load_watched_transactions 10 (7 ∷ 8 ∷ 9 ∷ []) []) ≡ 3
unfolding contains_key
load_watched_transactions-watch_transaction_example =
    let (size, _) =
      load_watched_transactions-watch_transaction small_watch (7 ∷ 8 ∷ 9 ∷ []) 10 20 6
        ((5, 15) ∷ (7, 16) ∷ []) ((refl, (refl, tt)), refl, ((refl, tt), refl, (tt, refl, tt)))
        (omega arith)
        (
          (omega arith, omega arith),
          ((omega arith, omega arith), ((omega arith, omega arith), tt)),
        ) in
    size

-- A node that is busy twice, and then answers with 42.
abbrev pub test_reply : ℕ → Reply
test_reply attempt = if ltb attempt 3 then replied 503 none else replied 200 (some (none, some 42))

rpc_call-settled_at_example :
    rpc_call 5 test_reply
    ≡ (result_of (test_reply (settled_at test_reply 4 1)), settled_at test_reply 4 1)
rpc_call-settled_at_example = let (same, _) = rpc_call-settled_at 5 test_reply in same

abbrev pub test_sync : SyncConfig
test_sync = record { confirmation_ledger_lag = 3; watching = small_watch }

abbrev pub start_sync : SyncState
start_sync = record { last_seen = some 50; purges = 0; watched = []; cursor = 47 }

abbrev pub turn_at : Option ℕ → Option (List (Bool × Option ℕ)) → Turn
turn_at latest events = record {
  now = 10;
  latest = latest;
  get_up = true;
  set_up = true;
  events = events;
}

sync_all_ok_example :
    (sync_all test_sync
      (turn_at (some 50) none ∷ turn_at (some 60) (some []) ∷ [])
      start_sync).purges
    ≡ 0
sync_all_ok_example =
    let (same, _) =
      sync_all_ok test_sync (turn_at (some 50) none ∷ turn_at (some 60) (some []) ∷ []) start_sync
        50 (omega arith)
        (50, refl, omega arith, omega arith, (60, refl, omega arith, omega arith, tt)) in
    same

sync_all_purged_example :
    (sync_all test_sync (turn_at (some 60) none ∷ turn_at none none ∷ []) start_sync).purges ≡ 1
sync_all_purged_example =
    let (purged, _) =
      sync_all_purged test_sync (turn_at (some 60) none) (turn_at none none) start_sync 60 refl refl
        (omega arith) (omega arith) (omega arith) refl refl refl refl in
    purged
