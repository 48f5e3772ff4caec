-- ===== src/Voting.antt =====
-- contracts/predict-iq/src/modules/voting.rs: votes on disputed markets, their tallies, and the
-- tokens that voters lock.
pub mod Cast
pub mod Unlock
use predict_iq.Types.Error.{
  insufficient_voting_weight, market_not_disputed, market_not_resolved, bet_not_found,
  invalid_outcome, governance_token_not_set, timelock_active,
}
use Prim.Native.Nat.{zero}
use mathlib.Core.List.{[]}
use predict_iq.Markets.{find_market}
use predict_iq.Types.{
  Address, Vote, Market, eqb_status, disputed, resolved, cancelled, cancel_outcome_index,
}
use predict_iq.Env.{
  Host, M, client_transfer, emit, gets, modify, pure, ◌>>=◌, ◌>>◌, i128_or_panic, client_balance,
  or_panic, require_auth, fail_if, vote_cast, current_contract, ok_or, now,
}
use predict_iq.Prelude.{
  ℕ, ℤ, pos, Bool, true, false, Option, none, some, List, if◌then◌else◌, ltb, ◌^◌, get_or, put₂,
  put, ◌∷◌, suc, ◌-ℤ◌, ◌-◌, push_back, ◌+ℤ◌, ◌+◌, ltb_ℤ, saturate, not, ◌*ℤ◌, quot, pos_part, ◌&&◌,
  ◌==◌, leb, length, eqb_ℤ, leb_ℤ,
}

abbrev pub normalized_decimals : ℕ
normalized_decimals = 18

-- `10i128.pow(n)`, a panic where it overflows.
unfoldable pub pow_ten : ℕ → Option ℤ
pow_ten n = if ltb n 39 then some (pos (10 ^ n)) else none

module _ {host : Host} where
  -- `None` for a token that does not support `balance_at`.
  unfoldable pub try_get_balance_at : Address → Address → ℕ → M host (Option ℤ)
  try_get_balance_at token account ledger =
      gets λ e. host.token_balance_at e.tokens token account ledger

  unfoldable pub get_token_decimals : Address → M host ℕ
  get_token_decimals token = gets λ e. get_or (host.token_decimals e.tokens token) 7

  unfoldable pub get_tally : ℕ → ℕ → M host ℤ
  get_tally market_id outcome = gets λ e. get_or (e.votes.vote_tally market_id outcome) (pos 0)

  unfoldable pub write_tally : ℕ → ℕ → ℤ → M host (Unit {0})
  write_tally market_id outcome tally = modify λ e. record e {
    votes = record e.votes { vote_tally = put₂ e.votes.vote_tally market_id outcome (some tally) };
  }

  -- The tally of the outcome that the voter voted for before.
  unfoldable pub retract : ℕ → Option Vote → M host (Unit {0})
  unfolding get_tally write_tally
  retract market_id none = pure tt
  retract market_id (some old_vote) = do
    old_tally ← get_tally market_id old_vote.outcome
    reduced ← i128_or_panic (old_tally -ℤ old_vote.weight)
    write_tally market_id old_vote.outcome reduced

  -- The fallback: the caller's weight, locked in the contract.
  unfoldable pub lock_tokens : Address → Market → ℕ → Address → ℤ → M host ℤ
  unfolding client_transfer
  lock_tokens voter market market_id gov_token weight = do
    current_balance ← client_balance gov_token voter
    fail_if (ltb_ℤ current_balance weight) insufficient_voting_weight
    contract_addr ← current_contract
    client_transfer gov_token voter contract_addr weight
    existing ← gets (λ e. get_or (e.votes.locked_balance market_id voter) (pos 0))
    total ← i128_or_panic (existing +ℤ weight)
    modify λ e. record e {
      votes = record e.votes {
        locked_balance = put₂ e.votes.locked_balance market_id voter (some total);
      };
    }
    modify λ e. record e {
      votes = record e.votes {
        locked_tokens = put₂ e.votes.locked_tokens market_id voter (
            some (record {
              voter = voter;
              market_id = market_id;
              amount = weight;
              unlock_time = market.resolution_deadline;
            }));
      };
    }
    pure weight

  unfoldable pub vote_weight : Address → Market → ℕ → Address → ℕ → ℤ → M host ℤ
  unfolding try_get_balance_at lock_tokens
  vote_weight voter market market_id gov_token snapshot_ledger weight = do
    at_snapshot ← try_get_balance_at gov_token voter snapshot_ledger
    elim at_snapshot [
      | none ↦ lock_tokens voter market market_id gov_token weight
      | some balance ↦ pure balance
    ]

  -- To 18 decimal places.
  unfoldable pub normalize : ℤ → ℕ → M host ℤ
  unfolding pow_ten
  normalize actual_weight token_decimals =
      if ltb token_decimals normalized_decimals
      then (do
        scale ← or_panic (pow_ten (normalized_decimals - token_decimals))
        pure (saturate (actual_weight *ℤ scale)))
      else if ltb normalized_decimals token_decimals
      then (do
        scale ← or_panic (pow_ten (token_decimals - normalized_decimals))
        pure (quot actual_weight (pos_part scale)))
      else pure actual_weight

  unfoldable pub register_voter : ℕ → Address → Option Vote → M host (Unit {0})
  register_voter market_id voter (some old_vote) = pure tt
  register_voter market_id voter none = modify λ e. record e {
    votes = record e.votes {
      dispute_voters =
          put e.votes.dispute_voters market_id
            (some (push_back (get_or (e.votes.dispute_voters market_id) []) voter));
    };
  }

  unfoldable pub write_vote : Vote → M host (Unit {0})
  write_vote vote = modify λ e. record e {
    votes = record e.votes { vote = put₂ e.votes.vote vote.market_id vote.voter (some vote) };
  }

  -- From the normalized weight on.
  unfoldable pub record_vote : Address → ℕ → ℕ → ℤ → Option Vote → M host (Unit {0})
  unfolding write_vote register_voter get_tally write_tally emit
  record_vote voter market_id outcome weight old_vote = do
    write_vote (record { market_id = market_id; voter = voter; outcome = outcome; weight = weight })
    register_voter market_id voter old_vote
    current_tally ← get_tally market_id outcome
    raised ← i128_or_panic (current_tally +ℤ weight)
    write_tally market_id outcome raised
    emit (vote_cast market_id voter outcome weight)

  -- The checks of `cast_vote`; the market of the vote.
  unfoldable pub check_vote : Address → ℕ → ℕ → M host Market
  unfolding find_market
  check_vote voter market_id outcome = do
    require_auth voter
    market ← find_market market_id
    fail_if (not (eqb_status market.status disputed)) market_not_disputed
    fail_if (not (outcome == cancel_outcome_index) && leb (length market.options) outcome)
        invalid_outcome
    pure market

  -- From the weight in tokens on.
  unfoldable pub weigh_vote : Address → ℕ → ℕ → Address → ℤ → Option Vote → M host (Unit {0})
  weigh_vote voter market_id outcome gov_token actual_weight old_vote = do
    fail_if (eqb_ℤ actual_weight (pos 0)) insufficient_voting_weight
    token_decimals ← get_token_decimals gov_token
    normalized_weight ← normalize actual_weight token_decimals
    fail_if (eqb_ℤ normalized_weight (pos 0)) insufficient_voting_weight
    record_vote voter market_id outcome normalized_weight old_vote

  -- Behind the vote that is replaced.
  unfoldable pub cast_checked : Address → ℕ → ℕ → ℤ → Market → Option Vote → M host (Unit {0})
  cast_checked voter market_id outcome weight market old_vote = do
    snapshot_ledger ← ok_or market.dispute_snapshot_ledger market_not_disputed
    stored ← gets (λ e. e.admins.governance_token)
    gov_token ← ok_or stored governance_token_not_set
    actual_weight ← vote_weight voter market market_id gov_token snapshot_ledger weight
    weigh_vote voter market_id outcome gov_token actual_weight old_vote

  -- Behind the checks.
  unfoldable pub cast_accepted : Address → ℕ → ℕ → ℤ → Market → M host (Unit {0})
  cast_accepted voter market_id outcome weight market = do
    old_vote ← gets (λ e. e.votes.vote market_id voter)
    retract market_id old_vote
    cast_checked voter market_id outcome weight market old_vote

  unfoldable pub cast_vote : Address → ℕ → ℕ → ℤ → M host (Unit {0})
  cast_vote voter market_id outcome weight =
      check_vote voter market_id outcome >>= cast_accepted voter market_id outcome weight

  unfoldable pub drop_lock : ℕ → Address → M host (Unit {0})
  drop_lock market_id voter = do
    modify λ e. record e {
      votes = record e.votes { locked_tokens = put₂ e.votes.locked_tokens market_id voter none };
    }
    modify λ e. record e {
      votes = record e.votes { locked_balance = put₂ e.votes.locked_balance market_id voter none };
    }

  -- The contract's own `require_auth` always passes.
  unfoldable pub unlock_tokens : Address → ℕ → M host (Unit {0})
  unfolding find_market client_transfer drop_lock
  unlock_tokens voter market_id = do
    require_auth voter
    market ← find_market market_id
    fail_if (not (eqb_status market.status resolved) && not (eqb_status market.status cancelled))
        market_not_resolved
    stored ← gets (λ e. e.votes.locked_tokens market_id voter)
    locked ← ok_or stored bet_not_found
    current_time ← now
    fail_if (ltb current_time locked.unlock_time) timelock_active
    amount ← gets (λ e. get_or (e.votes.locked_balance market_id voter) (pos 0))
    fail_if (leb_ℤ amount (pos 0)) bet_not_found
    token ← gets (λ e. e.admins.governance_token)
    gov_token ← ok_or token governance_token_not_set
    contract_addr ← current_contract
    client_transfer gov_token contract_addr voter amount
    drop_lock market_id voter

  unfoldable pub drop_voter : ℕ → Address → M host (Unit {0})
  unfolding drop_lock
  drop_voter market_id voter = do
    modify
        λ e. record e { votes = record e.votes { vote = put₂ e.votes.vote market_id voter none } }
    drop_lock market_id voter

  unfoldable pub drop_voters : ℕ → List Address → M host (Unit {0})
  unfolding drop_voter
  drop_voters market_id [] = pure tt
  drop_voters market_id (v ∷ vs) = drop_voter market_id v >> drop_voters market_id vs

  -- The loop over `n` outcomes from `o`.
  unfoldable pub drop_tallies : ℕ → ℕ → ℕ → M host (Unit {0})
  drop_tallies market_id zero o = pure tt
  drop_tallies market_id (suc n) o = do
    modify λ e. record e {
      votes = record e.votes { vote_tally = put₂ e.votes.vote_tally market_id o none };
    }
    drop_tallies market_id n (o + 1)

  unfoldable pub prune_market_voting_state : ℕ → ℕ → M host (Unit {0})
  unfolding drop_voters drop_tallies
  prune_market_voting_state market_id num_outcomes = do
    registered ← gets (λ e. e.votes.dispute_voters market_id)
    elim registered [ none ↦ pure tt | some voters ↦ drop_voters market_id voters ]
    modify λ e. record e {
      votes = record e.votes { dispute_voters = put e.votes.dispute_voters market_id none };
    }
    drop_tallies market_id num_outcomes 0
