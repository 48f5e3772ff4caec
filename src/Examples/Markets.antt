-- ===== src/Examples/Markets.antt =====
-- The life of a market at both ends, and the count of the votes on it, at small inputs.
use predict_iq.Contract.Paused.{after_calls, Guarded, after_calls_paused}
use predict_iq.Voting.{prune_market_voting_state}
use predict_iq.EventArchive.{archive_market}
use predict_iq.Resolution.Timing.{resolved_market}
use predict_iq.Markets.Index.{updated}
use predict_iq.Resolution.{
  calculate_voting_outcome, finalize_disputed, tally_votes, count_and_finish, add_vote, find_max,
  majority_threshold_bps, decide, finish_dispute,
}
use predict_iq.Types.{Vote, Market, resolved, disputed, MarketTier, paused}
use predict_iq.Markets.{find_market, update_market}
use predict_iq.Env.{Env, emit, ok, at_time}
use predict_iq.Markets.Create.{Request, create_market_with_dispute_window}
use predict_iq.Examples.{test_host, test_env, test_market, with_market}
use predict_iq.Markets.Prune.{prune_market, clear_market, drop_market}
use predict_iq.Resolution.Disputed.{finalize_disputed_ok}
use predict_iq.Resolution.Majority.{weight_of, weight_of_all, calculate_voting_outcome_ok}
use predict_iq.Prelude.{
  ℕ, ℤ, ◌≡◌, List, ◌∷◌, pos, checked_div, [], some, ◌*ℤ◌, none, ◌≤ℤ◌, checked, is_i128, ◌+ℤ◌, ◌-ℤ◌,
  quot, refl,
}

abbrev test_request : Request
test_request = record {
  creator = 7;
  description = "rain";
  options = "yes" ∷ "no" ∷ [];
  deadline = 100;
  resolution_deadline = 90000;
  oracle_config = test_market.oracle_config;
  tier = MarketTier.basic;
  native_token = 5;
  parent_id = 0;
  parent_outcome_idx = 0;
  dispute_window_seconds = none;
}

abbrev opened_env : Env test_host
opened_env = (create_market_with_dispute_window test_request test_env).1

-- A market resolved at 5, and 30 days later.
abbrev old_env : Env test_host
old_env = with_market (record test_market { status = resolved; resolved_at = some 5 }) 2592005

abbrev pruned_env : Env test_host
pruned_env = (prune_market 1 old_env).1

pruned : prune_market 1 old_env ≡ (ok tt, pruned_env)
unfolding prune_market clear_market drop_market archive_market prune_market_voting_state find_market
    emit
pruned = refl

abbrev vote_by : ℕ → ℕ → ℕ → Vote
vote_by voter outcome weight = record {
  market_id = 1;
  voter = voter;
  outcome = outcome;
  weight = pos weight;
}

-- Seven of ten units for outcome 1.
abbrev test_votes : List Vote
test_votes = vote_by 2 1 4 ∷ vote_by 3 0 3 ∷ vote_by 4 1 3 ∷ []

counted : calculate_voting_outcome test_votes test_env ≡ (ok 1, test_env)
unfolding calculate_voting_outcome tally_votes add_vote find_max decide checked_div checked is_i128
    ◌+ℤ◌ ◌*ℤ◌ ◌-ℤ◌ quot
counted = refl

calculate_voting_outcome_ok_example :
    (pct : ℤ) × (checked_div (weight_of 1 test_votes *ℤ pos 10000) (weight_of_all test_votes)
      ≡ some pct)
    × (majority_threshold_bps ≤ℤ pct)
calculate_voting_outcome_ok_example =
    calculate_voting_outcome_ok test_votes 1 test_env test_env counted

abbrev stored_votes : Env test_host → ℕ → List Vote
stored_votes e id = test_votes

abbrev voted_market : Market
voted_market = record test_market { status = disputed; dispute_timestamp = some 20 }

abbrev counting_env : Env test_host
counting_env = with_market voted_market 259220

abbrev decided_env : Env test_host
decided_env = (finalize_disputed stored_votes 1 voted_market counting_env).1

decided : finalize_disputed stored_votes 1 voted_market counting_env ≡ (ok tt, decided_env)
unfolding finalize_disputed count_and_finish calculate_voting_outcome tally_votes add_vote find_max
    decide finish_dispute checked_div checked is_i128 ◌+ℤ◌ ◌*ℤ◌ ◌-ℤ◌ quot update_market
decided = refl

finalize_disputed_ok_example :
    (t outcome : ℕ) × (decided_env.markets
      ≡ updated counting_env.markets (resolved_market voted_market outcome 259220))
finalize_disputed_ok_example =
    let (t, outcome, _, _, _, shape) =
      finalize_disputed_ok stored_votes 1 voted_market counting_env decided_env decided in
    (t, outcome, shape)

-- The contract, paused.
abbrev pub paused_env : Env test_host
paused_env = record test_env { breaker = record test_env.breaker { state = some paused } }

after_calls_paused_example :
    after_calls
      ((11, Guarded.place_bet 2 1 1 (pos 1000) 5 none) ∷ (12, Guarded.file_dispute 2 1) ∷ [])
      paused_env
    ≡ at_time 12 paused_env
after_calls_paused_example =
    after_calls_paused
      ((11, Guarded.place_bet 2 1 1 (pos 1000) 5 none) ∷ (12, Guarded.file_dispute 2 1) ∷ [])
      paused_env refl
