-- ===== src/Api/Watch/Restart.antt =====
-- What the map of watched transactions holds after a restart, which reads the pending rows of the
-- database.
use predict_iq.Api.Watch.{
  contains_key, load_watched_transactions, evict_expired, watch_transaction, Watched, WatchConfig,
  cap_reached, WatchTxError, already_watched,
}
use predict_iq.Prelude.{
  [], ◌∷◌, some, List, ℕ, ◌≡◌, length, ◌<◌, ◌≤◌, false, ◌+◌, arith, refl, All, ◌==◌, ltb, ◌-◌, true,
  ap, ◌∙◌, if◌then◌else◌,
}

-- Hashes that differ, as UNIQUE has it, none of them in the map.
abbrev pub IsNew : List ℕ → Watched → Type 0
IsNew [] set = Unit {0}
IsNew (h ∷ hs) set = All (λ x. (h == x) ≡ false) hs × (contains_key h set ≡ false) × IsNew hs set

-- Every entry has the same time.
abbrev pub IsFrom : ℕ → Watched → Type 0
IsFrom t [] = Unit {0}
IsFrom t ((h, u) ∷ set) = (u ≡ t) × IsFrom t set

IsNew-insert :
    (hs : List ℕ) (h t : ℕ) (set : Watched)
    → All (λ x. (h == x) ≡ false) hs
    → IsNew hs set
    → IsNew hs ((h, t) ∷ set)
unfolding contains_key
IsNew-insert [] h t set other new = tt
IsNew-insert (x ∷ hs) h t set other new =
    (new.0, ground (arith, other.0, new.1), IsNew-insert hs h t set other.1 new.2)

load_all :
    (hs : List ℕ) (now : ℕ) (set : Watched)
    → IsNew hs set
    → IsFrom now set
    → (length (load_watched_transactions now hs set) ≡ length hs + length set)
      × IsFrom now (load_watched_transactions now hs set)
unfolding load_watched_transactions
load_all [] now set new from = (omega arith, from)
load_all (h ∷ hs) now set new from =
    let (size, from') =
      load_all hs now ((h, now) ∷ set) (IsNew-insert hs h now set new.0 new.2) (refl, from) in
    rw new.1 (omega (arith, size), from')

-- Nothing is evicted within the lifetime.
evict_none :
    (ttl now t : ℕ) (set : Watched)
    → IsFrom t set
    → t ≤ now
    → now < t + ttl
    → evict_expired ttl now set ≡ set
unfolding evict_expired
evict_none ttl now t [] from late early = refl
evict_none ttl now t ((h, u) ∷ set) from late early =
    let young : ltb (now - u) ttl ≡ true = rw from.0 (ground (arith, late, early)) in
    rw young (ap (λ s. (h, u) ∷ s) (evict_none ttl now t set from.1 late early))

-- Registrations of hashes at times, the first one first.
unfoldable pub watch_all : WatchConfig → List (ℕ × ℕ) → Watched → Watched
watch_all config [] set = set
watch_all config ((hash, now) ∷ ws) set =
    watch_all config ws (watch_transaction config hash now set).1

-- Why a registration is refused.
abbrev pub refusal : ℕ → Watched → WatchTxError
refusal hash set = if contains_key hash set then already_watched else cap_reached

refused_once :
    (config : WatchConfig) (hash now start : ℕ) (set : Watched)
    → IsFrom start set
    → config.watched_tx_max_size ≤ length set
    → start ≤ now
    → now < start + config.watched_tx_ttl
    → watch_transaction config hash now set ≡ (some (refusal hash set), set)
unfolding watch_transaction
refused_once config hash now start set from many late early =
    rw (evict_none config.watched_tx_ttl now start set from late early) (ground (arith, many))

unchanged :
    (config : WatchConfig) (start : ℕ) (ws : List (ℕ × ℕ)) (set : Watched)
    → IsFrom start set
    → config.watched_tx_max_size ≤ length set
    → All (λ w. (start ≤ w.1) × (w.1 < start + config.watched_tx_ttl)) ws
    → watch_all config ws set ≡ set
unfolding watch_all
unchanged config start [] set from many within = refl
unchanged config start ((hash, now) ∷ ws) set from many within =
    ap (λ r. watch_all config ws r.1)
      (refused_once config hash now start set from many within.0.0 within.0.1)
    ∙ unchanged config start ws set from many within.1

-- A restart loads all pending transactions of the database, which differ, whatever the cap; and if
-- they are as many as the cap or more, every registration before the end of the lifetime is
-- refused, for the cap or as a duplicate, after any registrations before it, while the monitor
-- removes none: the map stays as it was loaded.
pub load_watched_transactions-watch_transaction :
    (config : WatchConfig) (pending : List ℕ) (start now hash : ℕ) (ws : List (ℕ × ℕ))
    → IsNew pending []
    → config.watched_tx_max_size ≤ length pending
    → All (λ w. (start ≤ w.1) × (w.1 < start + config.watched_tx_ttl)) ((hash, now) ∷ ws)
    → let loaded = load_watched_transactions start pending [] in
      (length loaded ≡ length pending)
      × (watch_transaction config hash now (watch_all config ws loaded)
          ≡ (some (refusal hash loaded), loaded))
load_watched_transactions-watch_transaction config pending start now hash ws new many within =
    let loaded = load_watched_transactions start pending [] in
    let (size, from) = load_all pending start [] new tt in
    let all : length loaded ≡ length pending = size ∙ (omega arith) in
    let full : config.watched_tx_max_size ≤ length loaded = omega (arith, many, all) in
    (
      all,
      rw (unchanged config start ws loaded from full within.1)
          (refused_once config hash now start loaded from full within.0.0 within.0.1),
    )
