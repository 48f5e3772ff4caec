-- ===== src/Oracles.antt =====
-- contracts/predict-iq/src/modules/oracles.rs: prices, their staleness, and the results of oracles.
-- `validate_consensus` is left out: its source ends in an unbalanced brace.
pub mod Staleness
use Prim.Native.Nat.{zero, bit_or}
use predict_iq.Types.Error.{invalid_timestamp, oracle_failure, stale_price, confidence_too_low}
use predict_iq.Markets.{get_market}
use predict_iq.Monitoring.{track_error}
use predict_iq.Env.{
  PriceAnswer, Host, M, emit, pure, ◌>>=◌, ◌>>◌, modify, gets, fail_if, fail, ok_or, now, oracle_ok,
  current_contract, or_panic, oracle_result_set,
}
use predict_iq.Types.{OracleConfig, Market, Address}
use predict_iq.Prelude.{
  ℕ, ℤ, pos, negsuc, Bool, true, false, Option, none, some, List, put₂, get_or, ltb, if◌then◌else◌,
  ◌-◌, ◌==◌, leb_ℤ, leb, length, is_some, i64_max, ◌*◌, ◌&&◌, ◌+◌, u64_max, suc, not, put, insert,
  ◌/◌, [], ◌∷◌,
}

abbrev pub max_staleness_limit : ℕ
max_staleness_limit = 60

unfoldable pub is_stale : ℕ → ℕ → ℕ → Bool
is_stale current_time result_time max_staleness_seconds =
    ltb max_staleness_seconds (current_time - result_time)

unfoldable pub effective_max_staleness : OracleConfig → ℕ
effective_max_staleness config =
    if ltb config.max_staleness_seconds max_staleness_limit
    then config.max_staleness_seconds
    else max_staleness_limit

-- An `i64` price; `negsuc i64_max` is i64::MIN.
unfoldable pub abs_price_to_u64 : ℤ → ℕ
abs_price_to_u64 (pos n) = n
abs_price_to_u64 (negsuc n) = if n == i64_max then i64_max else n + 1

unfoldable pub determine_outcome : PriceAnswer → OracleConfig → ℕ
determine_outcome price config =
    if leb_ℤ (get_or config.strike_price (pos 0)) price.price then 0 else 1

-- `u64::saturating_mul`.
unfoldable pub saturating_mul_u64 : ℕ → ℕ → ℕ
saturating_mul_u64 a b = if leb (a * b) u64_max then a * b else u64_max

unfoldable pub hex_char : ℕ → Option ℕ
hex_char c =
    if leb b'0' c && leb c b'9'
    then some (c - b'0')
    else if leb b'a' c && leb c b'f'
    then some (c - b'a' + 10)
    else if leb b'A' c && leb c b'F'
    then some (c - b'A' + 10)
    else none

-- `(hi << 4) | lo`, on two digits below 16.
unfoldable pub join_digits : ℕ → ℕ → ℕ
join_digits hi lo = bit_or (hi * 16) lo

-- The loop over the pairs of characters.
unfoldable pub decode_pairs : List ℕ → Option (List ℕ)
unfolding hex_char join_digits
decode_pairs [] = some []
decode_pairs (a ∷ []) = none
decode_pairs (a ∷ b ∷ cs) =
    let rest = decode_pairs cs in
    elim (hex_char a) [
      | none ↦ none
      | some hi ↦ elim (hex_char b) [
        | none ↦ none
        | some lo ↦ elim rest [ none ↦ none | some bytes ↦ some (join_digits hi lo ∷ bytes) ]
      ]
    ]

unfoldable pub decode_feed_id : List ℕ → Option (List ℕ)
unfolding decode_pairs
decode_feed_id feed_id = if length feed_id == 64 then decode_pairs feed_id else none

unfoldable pub verify_oracle_health : OracleConfig → Bool
unfolding decode_feed_id
verify_oracle_health config = is_some (decode_feed_id config.feed_id)

-- `get_market(..).map(|m| m.oracle_config.oracle_address).unwrap_or_else(..)`.
abbrev pub oracle_source : Option Market → Address → Address
oracle_source none contract_addr = contract_addr
oracle_source (some m) contract_addr = m.oracle_config.oracle_address

module _ {host : Host} where
  unfoldable pub cast_external_timestamp : ℤ → M host ℕ
  cast_external_timestamp (pos n) = pure n
  cast_external_timestamp (negsuc n) = fail invalid_timestamp

  unfoldable pub fetch_pyth_price : OracleConfig → M host PriceAnswer
  unfolding decode_feed_id
  fetch_pyth_price config = do
    feed_id ← ok_or (decode_feed_id config.feed_id) oracle_failure
    answer ← gets (λ e. host.get_price e.tokens config.oracle_address feed_id)
    or_panic answer

  unfoldable pub validate_price : PriceAnswer → OracleConfig → M host (Unit {0})
  unfolding cast_external_timestamp is_stale effective_max_staleness abs_price_to_u64
      saturating_mul_u64
  validate_price price config = do
    publish_time ← cast_external_timestamp price.publish_time
    current_time ← now
    fail_if (is_stale current_time publish_time (effective_max_staleness config)) stale_price
    let price_abs = abs_price_to_u64 price.price
    let max_conf = saturating_mul_u64 price_abs config.max_confidence_bps / 10000
    fail_if (ltb max_conf price.conf) confidence_too_low

  unfoldable pub set_result : ℕ → ℕ → ℕ → ℕ → M host (Unit {0})
  set_result market_id oracle_id outcome updated_at = modify λ e. record e {
    oracles = record e.oracles {
      result = put₂ e.oracles.result market_id oracle_id (some outcome);
      last_update = put₂ e.oracles.last_update market_id oracle_id (some updated_at);
    };
  }

  unfoldable pub resolve_with_pyth : ℕ → ℕ → OracleConfig → M host ℕ
  unfolding fetch_pyth_price validate_price determine_outcome cast_external_timestamp set_result
      emit
  resolve_with_pyth market_id oracle_id config = do
    price ← fetch_pyth_price config
    validate_price price config
    let outcome = determine_outcome price config
    publish_time ← cast_external_timestamp price.publish_time
    set_result market_id oracle_id outcome publish_time
    emit (oracle_ok market_id config.oracle_address outcome price.price price.conf)
    pure outcome

  -- The loop over `n` oracles from `idx`: whether any has reported.
  unfoldable pub check_oracles : ℕ → ℕ → ℕ → ℕ → Bool → M host Bool
  unfolding track_error
  check_oracles market_id max_staleness zero idx any_found = pure any_found
  check_oracles market_id max_staleness (suc n) idx any_found =
      let skip = check_oracles market_id max_staleness n (idx + 1) any_found in
      let found = check_oracles market_id max_staleness n (idx + 1) true in
      do
        current_time ← now
        last_update ← gets (λ e. e.oracles.last_update market_id idx)
        elim last_update [
          | none ↦ skip
          | some update_time ↦
              if ltb max_staleness (current_time - update_time)
              then (do track_error; fail stale_price)
              else found
        ]

  unfoldable pub validate_oracle_staleness : ℕ → OracleConfig → M host (Unit {0})
  validate_oracle_staleness market_id config = do
    any_found ←
        check_oracles market_id (effective_max_staleness config) (get_or config.min_responses 1) 0
          false
    if any_found then pure tt else (do track_error; fail oracle_failure)

  unfoldable pub get_oracle_result : ℕ → ℕ → M host (Option ℕ)
  get_oracle_result market_id oracle_id = gets λ e. e.oracles.result market_id oracle_id

  unfoldable pub get_last_update : ℕ → ℕ → M host (Option ℕ)
  get_last_update market_id oracle_id = gets λ e. e.oracles.last_update market_id oracle_id

  unfoldable pub set_oracle_result : ℕ → ℕ → ℕ → M host (Unit {0})
  unfolding set_result get_market emit
  set_oracle_result market_id oracle_id outcome = do
    t ← now
    set_result market_id oracle_id outcome t
    found ← get_market market_id
    contract_addr ← current_contract
    emit (oracle_result_set market_id oracle_id (oracle_source found contract_addr) outcome)

  unfoldable pub validate_oracle_config : OracleConfig → M host (Unit {0})
  unfolding verify_oracle_health
  validate_oracle_config config = fail_if (not (verify_oracle_health config)) oracle_failure

  unfoldable pub record_oracle_response : ℕ → ℕ → ℕ → M host (Unit {0})
  record_oracle_response market_id oracle_index outcome = modify λ e. record e {
    oracles = record e.oracles {
      oracle_responses =
          put e.oracles.oracle_responses market_id
            (some (insert oracle_index outcome (get_or (e.oracles.oracle_responses market_id) [])));
    };
  }
