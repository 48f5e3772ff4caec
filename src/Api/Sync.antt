-- ===== src/Api/Sync.antt =====
-- services/api/src/blockchain.rs: the worker that follows the ledgers of the chain. The cached reads at
-- the end of a turn change nothing that it reads, and are left out, as are metrics and logs.
pub mod Cursor
use predict_iq.Api.Watch.{watch_transaction, Watched, WatchConfig}
use predict_iq.Prelude.{
  [], ◌∷◌, none, some, Option, ℕ, Bool, if◌then◌else◌, List, not, get_or, ltb, ◌&&◌, ◌-◌, ◌+◌, leb,
  ◌%◌, ◌^◌, false, true,
}

-- The height seen last, whose expiry after a day is left out, and how often the entries of the cache
-- have been purged; the watched transactions; and the cursor.
pub record SyncState : Type 0 where
  pub last_seen : Option ℕ
  pub purges : ℕ
  pub watched : Watched
  pub cursor : ℕ

-- What the node and the cache answer in one turn: the latest ledger; whether the height is read (and
-- the entries purged) and written; and the events since the cursor, each with whether the cache
-- stores it and with its hash.
pub record Turn : Type 0 where
  pub now : ℕ
  pub latest : Option ℕ
  pub get_up : Bool
  pub set_up : Bool
  pub events : Option (List (Bool × Option ℕ))

pub record SyncConfig : Type 0 where
  pub confirmation_ledger_lag : ℕ
  pub watching : WatchConfig

-- Whether it ends in Ok.
unfoldable pub handle_reorg_if_detected : SyncConfig → Turn → ℕ → SyncState → Bool × SyncState
handle_reorg_if_detected config t latest_ledger s =
    if not t.get_up
    then (false, s)
    else (let previous = get_or s.last_seen 0 in
        let is_reorg =
          ltb 0 previous
          && ltb ((latest_ledger + config.confirmation_ledger_lag) % 2 ^ 32) previous in
        let purged = record s { purges = if is_reorg then s.purges + 1 else s.purges } in
        if t.set_up
        then (true, record purged { last_seen = some latest_ledger })
        else (false, purged))

-- The loop over the events: whether all are stored, and the transactions watched after it.
unfoldable pub store_events : WatchConfig → ℕ → List (Bool × Option ℕ) → Watched → Bool × Watched
unfolding watch_transaction
store_events config now [] set = (true, set)
store_events config now ((stored, tx_hash) ∷ events) set =
    let watched : Watched = elim tx_hash [
      | none ↦ set
      | some hash ↦ (watch_transaction config hash now set).1
    ] in
    let rest = store_events config now events watched in if stored then rest else (false, set)

-- The next cursor, or none where a call fails.
unfoldable pub sync_once : SyncConfig → Turn → SyncState → Option ℕ × SyncState
unfolding handle_reorg_if_detected store_events
sync_once config t s =
    let latest = get_or t.latest s.cursor in
    let (done, seen) = handle_reorg_if_detected config t latest s in
    let confirmed_tip = latest - config.confirmation_ledger_lag in
    if not done
    then (none, seen)
    else if leb confirmed_tip s.cursor
    then (some s.cursor, seen)
    else elim t.events [
      | none ↦ (none, seen)
      | some events ↦
          let (stored, set) = store_events config.watching t.now events seen.watched in
          (if stored then some confirmed_tip else none, record seen { watched = set })
    ]

-- One turn of the loop.
unfoldable pub sync_turn : SyncConfig → Turn → SyncState → SyncState
unfolding sync_once
sync_turn config t s =
    let (result, after) = sync_once config t s in
    elim result [
      | none ↦ after
      | some next_cursor ↦
          if ltb s.cursor next_cursor then record after { cursor = next_cursor } else after
    ]
