-- ===== src/Api/Watch/Cap.antt =====
-- The bound on the map of watched transactions.
use predict_iq.Api.Watch.{
  Watched, WatchConfig, evict_expired, remove_key, monitor_turn, watch_transaction, contains_key,
}
use predict_iq.Prelude.{
  [], ◌∷◌, ℕ, List, Bool, length, arith, ◌≡◌, ◌≤◌, false, Bool-cases, refl, inl, inr,
}

-- No hash twice.
abbrev pub IsMap : Watched → Type 0
IsMap [] = Unit {0}
IsMap ((h, t) ∷ set) = (contains_key h set ≡ false) × IsMap set

-- What happens to the map: a registration, or a turn of the monitor over hashes read before.
pub data WatchStep : Type 0 where
  watch : ℕ → ℕ → WatchStep
  turn : (ℕ → Bool) → List ℕ → WatchStep

pub step_watch : WatchConfig → WatchStep → Watched → Watched
step_watch config (watch hash now) set = (watch_transaction config hash now set).1
step_watch config (turn resolved hashes) set = monitor_turn resolved hashes set

pub steps_watch : WatchConfig → List WatchStep → Watched → Watched
steps_watch config [] set = set
steps_watch config (s ∷ steps) set = steps_watch config steps (step_watch config s set)

length-evict_expired :
    (ttl now : ℕ) (set : Watched) → length (evict_expired ttl now set) ≤ length set
unfolding evict_expired
length-evict_expired ttl now [] = omega arith
length-evict_expired ttl now ((h, t) ∷ set) = ground (arith, length-evict_expired ttl now set)

contains_key-evict_expired :
    (hash ttl now : ℕ) (set : Watched)
    → contains_key hash set ≡ false
    → contains_key hash (evict_expired ttl now set) ≡ false
unfolding evict_expired contains_key
contains_key-evict_expired hash ttl now [] new = refl
contains_key-evict_expired hash ttl now ((h, t) ∷ set) new =
    ground (arith, contains_key-evict_expired hash ttl now set)

evict_expired-IsMap : (ttl now : ℕ) (set : Watched) → IsMap set → IsMap (evict_expired ttl now set)
unfolding evict_expired
evict_expired-IsMap ttl now [] m = tt
evict_expired-IsMap ttl now ((h, t) ∷ set) m =
    ground
      (arith, contains_key-evict_expired h ttl now set m.0, evict_expired-IsMap ttl now set m.1)

length-remove_key : (hash : ℕ) (set : Watched) → length (remove_key hash set) ≤ length set
unfolding remove_key
length-remove_key hash [] = omega arith
length-remove_key hash ((h, t) ∷ set) = ground (arith, length-remove_key hash set)

contains_key-remove_key :
    (i hash : ℕ) (set : Watched)
    → contains_key i set ≡ false
    → contains_key i (remove_key hash set) ≡ false
unfolding remove_key contains_key
contains_key-remove_key i hash [] new = refl
contains_key-remove_key i hash ((h, t) ∷ set) new =
    ground (arith, contains_key-remove_key i hash set)

remove_key-IsMap : (hash : ℕ) (set : Watched) → IsMap set → IsMap (remove_key hash set)
unfolding remove_key
remove_key-IsMap hash [] m = tt
remove_key-IsMap hash ((h, t) ∷ set) m =
    ground (arith, contains_key-remove_key h hash set m.0, remove_key-IsMap hash set m.1)

monitor_turn_ok :
    (resolved : ℕ → Bool) (hashes : List ℕ) (set : Watched)
    → IsMap set
    → (length (monitor_turn resolved hashes set) ≤ length set)
      × IsMap (monitor_turn resolved hashes set)
unfolding monitor_turn
monitor_turn_ok resolved [] set m = (omega arith, m)
monitor_turn_ok resolved (hash ∷ hashes) set m = elim (Bool-cases (resolved hash)) [
  | inl done ↦
      let (short, map') =
        monitor_turn_ok resolved hashes (remove_key hash set) (remove_key-IsMap hash set m) in
      rw done (omega (arith, short, length-remove_key hash set), map')
  | inr open' ↦ rw open' (monitor_turn_ok resolved hashes set m)
]

watch_transaction_ok :
    (config : WatchConfig) (hash now : ℕ) (set : Watched)
    → length set ≤ config.watched_tx_max_size
    → IsMap set
    → (length (watch_transaction config hash now set).1 ≤ config.watched_tx_max_size)
      × IsMap (watch_transaction config hash now set).1
unfolding watch_transaction
watch_transaction_ok config hash now set small m =
    let ttl = config.watched_tx_ttl in
    ground (arith, length-evict_expired ttl now set, evict_expired-IsMap ttl now set m)

-- Registrations and turns of the monitor, in any order and at any times, keep the map of watched
-- transactions within its cap, and each hash in it once.
pub steps_watch-IsMap :
    (config : WatchConfig) (steps : List WatchStep) (set : Watched)
    → length set ≤ config.watched_tx_max_size
    → IsMap set
    → (length (steps_watch config steps set) ≤ config.watched_tx_max_size)
      × IsMap (steps_watch config steps set)
unfolding steps_watch step_watch
steps_watch-IsMap config [] set small m = (small, m)
steps_watch-IsMap config (watch hash now ∷ steps) set small m =
    let (small', m') = watch_transaction_ok config hash now set small m in
    steps_watch-IsMap config steps (watch_transaction config hash now set).1 small' m'
steps_watch-IsMap config (turn resolved hashes ∷ steps) set small m =
    let (short, m') = monitor_turn_ok resolved hashes set m in
    steps_watch-IsMap config steps (monitor_turn resolved hashes set) (omega (arith, short, small))
      m'
