-- ===== src/Api/Sync/Cursor.antt =====
-- The cursor of the worker, and the detection of a reorganisation of the chain.
use predict_iq.Api.Sync.{
  SyncConfig, sync_turn, sync_once, Turn, handle_reorg_if_detected, SyncState,
}
use predict_iq.Prelude.{
  [], ◌∷◌, none, some, ℕ, List, ◌≡◌, ◌≤◌, get_or, ◌+◌, ◌<◌, arith, ◌^◌, ◌∙◌, ◌%◌, refl, true,
}
use native.Mathlib.Nat.{mod-eq_of_lt}

pub sync_all : SyncConfig → List Turn → SyncState → SyncState
sync_all config [] s = s
sync_all config (t ∷ ts) s = sync_all config ts (sync_turn config t s)

-- The heights that the node reports do not go back, and none of its answers is missing.
abbrev pub IsRising : ℕ → ℕ → List Turn → Type 0
IsRising lag x [] = Unit {0}
IsRising lag x (t ∷ ts) =
    (h : ℕ) × (t.latest ≡ some h) × (x ≤ h) × (h + lag < 2 ^ 32) × IsRising lag h ts

turn_rising :
    (config : SyncConfig) (t : Turn) (s : SyncState) (h x : ℕ)
    → t.latest ≡ some h
    → x ≤ h
    → get_or s.last_seen 0 ≤ x
    → h + config.confirmation_ledger_lag < 2 ^ 32
    → ((sync_turn config t s).purges ≡ s.purges) × (get_or (sync_turn config t s).last_seen 0 ≤ h)
unfolding sync_turn sync_once handle_reorg_if_detected
turn_rising config t s h x reported rising below small =
    let wide : (h + config.confirmation_ledger_lag) % 2 ^ 32 ≡ h + config.confirmation_ledger_lag =
      mod-eq_of_lt small in
    ground (arith, reported, rising, below, wide)

turn_forward :
    (config : SyncConfig) (t : Turn) (s : SyncState) → s.cursor ≤ (sync_turn config t s).cursor
unfolding sync_turn sync_once handle_reorg_if_detected
turn_forward config t s = ground arith

-- While the node answers with heights that do not go back, and which stay below 2 ^ 32 with the lag
-- added, no turns of the worker purge the cache, whatever else fails, and its cursor does not go
-- back.
pub sync_all_ok :
    (config : SyncConfig) (ts : List Turn) (s : SyncState) (x : ℕ)
    → get_or s.last_seen 0 ≤ x
    → IsRising config.confirmation_ledger_lag x ts
    → ((sync_all config ts s).purges ≡ s.purges) × (s.cursor ≤ (sync_all config ts s).cursor)
unfolding sync_all
sync_all_ok config [] s x below rising = (refl, omega arith)
sync_all_ok config (t ∷ ts) s x below (h, reported, rises, small, rest) =
    let (same, below') = turn_rising config t s h x reported rises below small in
    let (same', forward) = sync_all_ok config ts (sync_turn config t s) h below' rest in
    (same' ∙ same, omega (arith, forward, turn_forward config t s))

-- A turn that sees the height, and then fails to fetch the events.
seen_only :
    (config : SyncConfig) (t : Turn) (s : SyncState) (h : ℕ)
    → t.latest ≡ some h
    → s.cursor + config.confirmation_ledger_lag < h
    → h + config.confirmation_ledger_lag < 2 ^ 32
    → get_or s.last_seen 0 ≤ h
    → t.events ≡ none
    → t.get_up ≡ true
    → t.set_up ≡ true
    → sync_turn config t s ≡ record s { last_seen = some h }
unfolding sync_turn sync_once handle_reorg_if_detected
seen_only config t s h reported behind small below failed up up' =
    let wide : (h + config.confirmation_ledger_lag) % 2 ^ 32 ≡ h + config.confirmation_ledger_lag =
      mod-eq_of_lt small in
    ground (arith, reported, behind, below, failed, up, up', wide)

-- A turn without an answer of the node, where the height seen is further on than the lag.
purges_once :
    (config : SyncConfig) (u : Turn) (s : SyncState) (h : ℕ)
    → u.latest ≡ none
    → s.last_seen ≡ some h
    → s.cursor + config.confirmation_ledger_lag < h
    → h + config.confirmation_ledger_lag < 2 ^ 32
    → u.get_up ≡ true
    → ((sync_turn config u s).purges ≡ s.purges + 1) × ((sync_turn config u s).cursor ≡ s.cursor)
unfolding sync_turn sync_once handle_reorg_if_detected
purges_once config u s h missing seen behind small up =
    let wide : (s.cursor + config.confirmation_ledger_lag) % 2 ^ 32
        ≡ s.cursor + config.confirmation_ledger_lag =
      mod-eq_of_lt (omega (arith, behind, small)) in
    ground (arith, missing, seen, behind, up, wide)

-- A turn that reads a height past the cursor and the lag but fails to fetch the events, and then a
-- turn in which the node does not answer, purge the cache as after a reorganisation, though no
-- height has gone back, and the cursor stays.
pub sync_all_purged :
    (config : SyncConfig) (t u : Turn) (s : SyncState) (h : ℕ)
    → t.latest ≡ some h
    → u.latest ≡ none
    → s.cursor + config.confirmation_ledger_lag < h
    → h + config.confirmation_ledger_lag < 2 ^ 32
    → get_or s.last_seen 0 ≤ h
    → t.events ≡ none
    → t.get_up ≡ true
    → t.set_up ≡ true
    → u.get_up ≡ true
    → let after = sync_all config (t ∷ u ∷ []) s in
      (after.purges ≡ s.purges + 1) × (after.cursor ≡ s.cursor)
unfolding sync_all
sync_all_purged config t u s h reported missing behind small below failed up up' up'' =
    rw (seen_only config t s h reported behind small below failed up up')
      (purges_once config u (record s { last_seen = some h }) h missing refl behind small up'')
