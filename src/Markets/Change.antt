-- ===== src/Markets/Change.antt =====
-- The changes of the market store that the contract's calls make, and what they keep.
pub mod Sound
use predict_iq.Markets.Index.{updated}
use predict_iq.Markets.{set_index}
use predict_iq.Env.{MarketStore}
use predict_iq.Types.{
  MarketStatus, Market, resolved, active, pending_resolution, disputed, cancelled,
}
use predict_iq.Prelude.{
  ◌≡◌, refl, Bool, IsSorted, true, ℕ, sum, put, some, none, false, get_or, ◌+◌, ◌≢◌,
}

-- The status steps that the contract takes, and none. `resolved` and `cancelled` are final.
abbrev pub allowed : MarketStatus → MarketStatus → Bool
allowed active active = true
allowed active pending_resolution = true
allowed active resolved = true
allowed active cancelled = true
allowed pending_resolution disputed = true
allowed pending_resolution resolved = true
allowed pending_resolution cancelled = true
allowed disputed resolved = true
allowed disputed cancelled = true
allowed pending_resolution pending_resolution = true
allowed disputed disputed = true
allowed resolved resolved = true
allowed cancelled cancelled = true
allowed _ _ = false

-- The stakes on the outcomes are one entry for each, and add up to the total.
pub record IsBalanced (m : Market) : Type 0 where
  pub sorted : IsSorted m.outcome_stakes
  pub conserved : sum m.outcome_stakes ≡ m.total_staked

-- How one market record may be replaced by another.
pub record Edge (m m' : Market) : Type 0 where
  pub status_step : allowed m.status m'.status ≡ true
  pub frame : m' ≡ record m {
    status = m'.status;
    resolution_deadline = m'.resolution_deadline;
    winning_outcome = m'.winning_outcome;
    payout_mode = m'.payout_mode;
    total_staked = m'.total_staked;
    creation_deposit = m'.creation_deposit;
    resolved_at = m'.resolved_at;
    outcome_stakes = m'.outcome_stakes;
    pending_resolution_timestamp = m'.pending_resolution_timestamp;
    dispute_timestamp = m'.dispute_timestamp;
    winner_counts = m'.winner_counts;
  }
  pub final : m.status ≡ resolved → m' ≡ record m { creation_deposit = m'.creation_deposit }
  pub balance : IsBalanced m → IsBalanced m'

-- The store without a market.
abbrev pub dropped : MarketStore → ℕ → MarketStore
dropped s id = record s {
  market = put s.market id none;
  status_index = set_index s.status_index id resolved false;
  market_dispute_window = put s.market_dispute_window id none;
}

-- The store with a new one.
abbrev pub created : MarketStore → Market → ℕ → MarketStore
created s m window = record s {
  market = put s.market m.id (some m);
  status_index = set_index s.status_index m.id active true;
  market_dispute_window = put s.market_dispute_window m.id (some window);
  market_count = some m.id;
}

pub data Change (s s' : MarketStore) : Type 0 where
  keep :
      s'.market ≡ s.market
      → s'.status_index ≡ s.status_index
      → s'.market_count ≡ s.market_count
      → Change s s'
  update :
      (id : ℕ) (m m' : Market) → s.market id ≡ some m → Edge m m' → s' ≡ updated s m' → Change s s'
  create :
      (m : Market) (window : ℕ)
      → m.id ≡ get_or s.market_count 0 + 1
      → m.status ≡ active
      → m.dispute_snapshot_ledger ≡ none
      → IsBalanced m
      → s' ≡ created s m window
      → Change s s'
  prune :
      (id : ℕ) (m : Market)
      → s.market id ≡ some m
      → m.status ≡ resolved
      → s' ≡ dropped s id
      → Change s s'

pub resolvable : (a : MarketStatus) → a ≢ resolved → a ≢ cancelled → allowed a resolved ≡ true
resolvable active p q = refl
resolvable pending_resolution p q = refl
resolvable disputed p q = refl
resolvable resolved p q = refl
resolvable cancelled p q = absurd (q refl)

pub cancellable : (a : MarketStatus) → a ≢ resolved → a ≢ cancelled → allowed a cancelled ≡ true
cancellable active p q = refl
cancellable pending_resolution p q = refl
cancellable disputed p q = refl
cancellable resolved p q = absurd (p refl)
cancellable cancelled p q = absurd (q refl)
