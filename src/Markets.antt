-- ===== src/Markets.antt =====
-- contracts/predict-iq/src/modules/markets.rs: the market records, the status index and the
-- settings of market creation. Creation and pruning are in Markets/Create.antt and
-- Markets/Prune.antt.
pub mod Create
pub mod Prune
pub mod Index
pub mod Change
pub mod Deposit
use predict_iq.Types.Error.{
  market_not_found, market_not_active, parent_market_not_resolved, parent_market_invalid_outcome,
  invalid_outcome,
}
use predict_iq.Admin.{require_admin}
use predict_iq.Env.{
  Host, M, bump_ttl, client_transfer, ◌>>=◌, ◌>>◌, gets, modify, Entry, add_within, when, pure,
  ok_or, fail_if, current_contract, require_auth, now, add_u64,
}
use predict_iq.Prelude.{
  ℕ, ℤ, pos, Bool, true, false, Option, none, some, List, get_or, put, if◌then◌else◌, min, lookup,
  insert, ◌==◌, max, ◌&&◌, u32_max, not, ltb_ℤ, leb, length,
}
use predict_iq.Types.{
  Market, MarketStatus, resolved, CreatorReputation, PayoutMode, Address, eqb_status,
  ttl_low_threshold, ttl_high_threshold, prune_grace_period,
}

-- `index.set(&StatusIndex(market_id, status), &present)`, or its removal.
abbrev pub set_index : (ℕ → MarketStatus → Bool) → ℕ → MarketStatus → Bool → ℕ → MarketStatus → Bool
set_index index market_id status present i s =
    if i == market_id && eqb_status s status then present else index i s

abbrev pub max_query_limit : ℕ
max_query_limit = 50

unfoldable pub clamp_limit : ℕ → ℕ
clamp_limit limit = min (max limit 1) max_query_limit

unfoldable pub get_outcome_stake : Market → ℕ → ℤ
get_outcome_stake market outcome = get_or (lookup outcome market.outcome_stakes) (pos 0)

unfoldable pub set_outcome_stake : Market → ℕ → ℤ → Market
set_outcome_stake market outcome amount = record market {
  outcome_stakes = insert outcome amount market.outcome_stakes;
}

module _ {host : Host} where
  unfoldable pub increment_outcome_bet_count : Market → ℕ → M host Market
  increment_outcome_bet_count market outcome = do
    let current_count = get_or (lookup outcome market.winner_counts) 0
    next_count ← add_within u32_max current_count 1
    pure (record market { winner_counts = insert outcome next_count market.winner_counts })

  unfoldable pub has_status_index : ℕ → MarketStatus → M host Bool
  has_status_index market_id status = gets λ e. e.markets.status_index market_id status

  unfoldable pub write_index : ℕ → MarketStatus → Bool → M host (Unit {0})
  write_index market_id status present = modify λ e. record e {
    markets = record e.markets {
      status_index = set_index e.markets.status_index market_id status present;
    };
  }

  unfoldable pub update_status_index : ℕ → MarketStatus → MarketStatus → M host (Unit {0})
  unfolding write_index
  update_status_index market_id old_status new_status = do
    when (not (eqb_status old_status new_status)) (write_index market_id old_status false)
    write_index market_id new_status true

  unfoldable pub get_market : ℕ → M host (Option Market)
  get_market id = gets λ e. e.markets.market id

  unfoldable pub write_market : ℕ → Option Market → M host (Unit {0})
  write_market id market =
      modify
        λ e. record e { markets = record e.markets { market = put e.markets.market id market } }

  unfoldable pub update_market : Market → M host (Unit {0})
  unfolding get_market update_status_index write_market
  update_market market = do
    old ← get_market market.id
    elim old [ none ↦ pure tt | some m ↦ update_status_index market.id m.status market.status ]
    write_market market.id (some market)

  -- `get_market(e, id).ok_or(ErrorCode::MarketNotFound)?`.
  unfoldable pub find_market : ℕ → M host Market
  unfolding get_market
  find_market id = do found ← get_market id; ok_or found market_not_found

  unfoldable pub bump_market_ttl : ℕ → M host (Unit {0})
  unfolding bump_ttl
  bump_market_ttl market_id = bump_ttl (Entry.market market_id) ttl_low_threshold ttl_high_threshold

  unfoldable pub validate_parent_market : ℕ → ℕ → M host (Unit {0})
  unfolding find_market
  validate_parent_market parent_id parent_outcome_idx = do
    parent_market ← find_market parent_id
    fail_if (not (eqb_status parent_market.status resolved)) parent_market_not_resolved
    parent_winning_outcome ← ok_or parent_market.winning_outcome parent_market_not_resolved
    fail_if (not (parent_winning_outcome == parent_outcome_idx)) parent_market_invalid_outcome
    fail_if (leb (length parent_market.options) parent_outcome_idx) invalid_outcome

  unfoldable pub set_payout_mode : ℕ → PayoutMode → M host (Unit {0})
  unfolding find_market
  set_payout_mode market_id mode = do
    market ← find_market market_id
    fail_if (eqb_status market.status resolved) market_not_active
    update_market (record market { payout_mode = mode })

  unfoldable pub get_creator_reputation : Address → M host CreatorReputation
  get_creator_reputation creator =
      gets λ e. get_or (e.markets.creator_reputation creator) CreatorReputation.none

  unfoldable pub set_creator_reputation : Address → CreatorReputation → M host (Unit {0})
  unfolding require_admin
  set_creator_reputation creator reputation = do
    require_admin
    modify λ e. record e {
      markets = record e.markets {
        creator_reputation = put e.markets.creator_reputation creator (some reputation);
      };
    }

  unfoldable pub get_creation_deposit : M host ℤ
  get_creation_deposit = gets λ e. get_or e.creation.creation_deposit (pos 0)

  unfoldable pub set_creation_deposit : ℤ → M host (Unit {0})
  unfolding require_admin
  set_creation_deposit amount = do
    require_admin
    modify λ e. record e { creation = record e.creation { creation_deposit = some amount } }

  unfoldable pub get_creation_fee : M host ℤ
  get_creation_fee = gets λ e. get_or e.creation.creation_fee (pos 0)

  unfoldable pub set_creation_fee : ℤ → M host (Unit {0})
  unfolding require_admin
  set_creation_fee amount = do
    require_admin
    modify λ e. record e { creation = record e.creation { creation_fee = some amount } }

  unfoldable pub get_protocol_treasury : M host Address
  get_protocol_treasury = gets λ e. get_or e.creation.protocol_treasury e.ledger.current_contract

  unfoldable pub set_protocol_treasury : Address → M host (Unit {0})
  unfolding require_admin
  set_protocol_treasury treasury = do
    require_admin
    modify λ e. record e { creation = record e.creation { protocol_treasury = some treasury } }

  unfoldable pub pay_deposit : Market → Address → M host (Unit {0})
  unfolding client_transfer
  pay_deposit market native_token = do
    update_market (record market { creation_deposit = pos 0 })
    contract_addr ← current_contract
    client_transfer native_token contract_addr market.creator market.creation_deposit

  unfoldable pub release_creation_deposit : ℕ → Address → M host (Unit {0})
  unfolding find_market pay_deposit
  release_creation_deposit market_id native_token = do
    market ← find_market market_id
    require_auth market.creator
    fail_if (not (eqb_status market.status resolved)) market_not_active
    when (ltb_ℤ (pos 0) market.creation_deposit) (pay_deposit market native_token)

  -- modules/monitoring.rs.
  unfoldable pub cleanup_expired_market_index : ℕ → M host (Unit {0})
  unfolding get_market write_index
  cleanup_expired_market_index market_id = do
    found ← get_market market_id
    elim found [
      | none ↦ pure tt
      | some market ↦ when (eqb_status market.status resolved) (elim market.resolved_at [
        | none ↦ pure tt
        | some resolved_at ↦ do
          current_time ← now
          due ← add_u64 resolved_at prune_grace_period
          when (leb due current_time) (write_index market_id resolved false)
      ])
    ]
