-- ===== src/Markets/Prune.antt =====
-- contracts/predict-iq/src/modules/markets.rs: the pruning of a resolved market.
pub mod Dropped
use predict_iq.Types.Error.{market_not_active}
use predict_iq.Types.{resolved, eqb_status, prune_grace_period}
use predict_iq.Voting.{prune_market_voting_state}
use predict_iq.EventArchive.{archive_market}
use predict_iq.Markets.{write_index, find_market, write_market}
use predict_iq.Env.{Host, M, ◌>>=◌, ◌>>◌, emit, fail_if, modify, ok_or, now, add_u64, market_pruned}
use predict_iq.Prelude.{ℕ, false, none, not, put, ltb, length}

module _ {host : Host} where
  unfoldable pub drop_market : ℕ → M host (Unit {0})
  unfolding write_index write_market
  drop_market market_id = do
    write_index market_id resolved false
    write_market market_id none
    modify λ e. record e {
      markets = record e.markets {
        market_dispute_window = put e.markets.market_dispute_window market_id none;
      };
    }

  -- The three removals of `prune_market`.
  unfoldable pub clear_market : ℕ → ℕ → M host (Unit {0})
  clear_market market_id num_outcomes = do
    archive_market market_id
    prune_market_voting_state market_id num_outcomes
    drop_market market_id

  unfoldable pub prune_market : ℕ → M host (Unit {0})
  prune_market market_id = do
    market ← find_market market_id
    fail_if (not (eqb_status market.status resolved)) market_not_active
    resolved_at ← ok_or market.resolved_at market_not_active
    current_time ← now
    due ← add_u64 resolved_at prune_grace_period
    fail_if (ltb current_time due) market_not_active
    clear_market market_id (length market.options)
    emit (market_pruned market_id current_time)
