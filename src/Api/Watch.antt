-- ===== src/Api/Watch.antt =====
-- services/api/src/blockchain.rs: the map of watched transactions, its cap and its lifetime. A hash is
-- a number, and the map is the list of its entries with the times of their insertion.
pub mod Cap
pub mod Restart
use predict_iq.Prelude.{
  [], ◌∷◌, none, some, ℕ, List, Bool, if◌then◌else◌, Option, false, ltb, leb, ◌==◌, ◌||◌, ◌-◌,
  length,
}

pub data WatchTxError : Type 0 where
  already_watched cap_reached : WatchTxError

-- The limits of the configuration.
pub record WatchConfig : Type 0 where
  pub watched_tx_max_size : ℕ
  pub watched_tx_ttl : ℕ

abbrev pub Watched : Type 0
Watched = List (ℕ × ℕ)

unfoldable pub contains_key : ℕ → Watched → Bool
contains_key hash [] = false
contains_key hash ((h, t) ∷ set) = h == hash || contains_key hash set

-- The removal of the entries whose time is over: a time that has not passed counts as 0.
unfoldable pub evict_expired : ℕ → ℕ → Watched → Watched
evict_expired ttl now [] = []
evict_expired ttl now ((h, t) ∷ set) =
    let rest = evict_expired ttl now set in if ltb (now - t) ttl then (h, t) ∷ rest else rest

-- `none` is Ok.
unfoldable pub watch_transaction : WatchConfig → ℕ → ℕ → Watched → Option WatchTxError × Watched
unfolding evict_expired contains_key
watch_transaction config hash now set =
    let kept = evict_expired config.watched_tx_ttl now set in
    if contains_key hash kept
    then (some already_watched, kept)
    else if leb config.watched_tx_max_size (length kept)
    then (some cap_reached, kept)
    else (none, (hash, now) ∷ kept)

unfoldable pub remove_key : ℕ → Watched → Watched
remove_key hash [] = []
remove_key hash ((h, t) ∷ set) =
    let rest = remove_key hash set in if h == hash then rest else (h, t) ∷ rest

-- One turn of the monitor over hashes that it has read, all of them or a part; `resolved` is what the status of a hash
-- is: neither NOT_FOUND nor PENDING.
unfoldable pub monitor_turn : (ℕ → Bool) → List ℕ → Watched → Watched
unfolding remove_key
monitor_turn resolved [] set = set
monitor_turn resolved (hash ∷ hashes) set =
    monitor_turn resolved hashes (if resolved hash then remove_key hash set else set)

-- `entry(tx_hash).or_insert(now)` for each of the pending rows of the database.
unfoldable pub load_watched_transactions : ℕ → List ℕ → Watched → Watched
unfolding contains_key
load_watched_transactions now [] set = set
load_watched_transactions now (hash ∷ pending) set =
    load_watched_transactions now pending (if contains_key hash set then set else (hash, now) ∷ set)
