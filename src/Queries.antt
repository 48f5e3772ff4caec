-- ===== src/Queries.antt =====
-- contracts/predict-iq/src/modules/queries.rs: the paginated queries.
use Prim.Native.Nat.{zero}
use predict_iq.EventArchive.{max_page_limit}
use predict_iq.Governance.{get_guardians}
use predict_iq.Types.{MarketStatus, Market, Guardian}
use predict_iq.Markets.{get_market, has_status_index}
use predict_iq.Env.{Host, M, pure, ◌>>=◌, gets, add_u64, add_within}
use predict_iq.Prelude.{
  ℕ, none, some, List, [], min, suc, get_or, length, ◌+◌, ◌∷◌, ◌-◌, if◌then◌else◌, u32_max, not,
  take, ltb, drop, leb,
}

module _ {host : Host} where
  -- The loop over `n` ids from `i`.
  unfoldable pub markets_from : ℕ → ℕ → M host (List Market)
  unfolding get_market
  markets_from zero i = pure []
  markets_from (suc n) i =
      let rest = markets_from n (i + 1) in
      do
        found ← get_market i
        markets ← rest
        elim found [ none ↦ pure markets | some market ↦ pure (market ∷ markets) ]

  unfoldable pub get_markets : ℕ → ℕ → M host (List Market)
  unfolding markets_from
  get_markets offset limit = do
    count ← gets (λ e. get_or e.markets.market_count 0)
    let start = min offset count
    end ← add_u64 start (min limit max_page_limit)
    markets_from (min end count - start) (start + 1)

  -- The loop over the ids `i`, `i - 1`, …, 1, with the counts of what was skipped and found.
  unfoldable pub scan : MarketStatus → ℕ → ℕ → ℕ → ℕ → ℕ → M host (List Market)
  unfolding has_status_index get_market
  scan status offset limit zero skipped found = pure []
  scan status offset limit (suc i) skipped found =
      let next = scan status offset limit i skipped found in
      let skip = scan status offset limit i (skipped + 1) found in
      let more = scan status offset limit i skipped (found + 1) in
      do
        present ← has_status_index (suc i) status
        if not present then next else if ltb skipped offset then skip else (do
          loaded ← get_market (suc i)
          elim loaded [
            | none ↦ next
            | some market ↦
                if leb limit (found + 1)
                then pure (market ∷ [])
                else (do rest ← more; pure (market ∷ rest))
          ])

  unfoldable pub get_markets_by_status : MarketStatus → ℕ → ℕ → M host (List Market)
  unfolding scan
  get_markets_by_status status offset limit = do
    count ← gets (λ e. get_or e.markets.market_count 0)
    scan status offset (min limit max_page_limit) count 0 0

  unfoldable pub get_guardians_paginated : ℕ → ℕ → M host (List Guardian)
  unfolding get_guardians
  get_guardians_paginated offset limit = do
    all_guardians ← get_guardians
    let start = min offset (length all_guardians)
    end ← add_within u32_max start (min limit max_page_limit)
    pure (take (min end (length all_guardians) - start) (drop start all_guardians))
