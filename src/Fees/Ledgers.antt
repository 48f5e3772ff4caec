-- ===== src/Fees/Ledgers.antt =====
-- The withdrawal of fees and of referral rewards (withdraw_protocol_fees, claim_referral_rewards).
use predict_iq.Types.{Address}
use predict_iq.Fees.{withdraw_protocol_fees, claim_referral_rewards}
use predict_iq.Env.{Host, Env, ok, at_time}
use predict_iq.Prelude.{◌≡◌, ◌≢◌, arith, ℕ, ℤ, some, get_or, pos, put, put₂}

module _ {host : Host} where
  -- A withdrawal of fees that succeeds pays exactly the revenue recorded for the token, which is
  -- not 0, by one transfer from the contract to the recipient, sets that revenue to 0, and leaves
  -- the other fee records and the markets as they were.
  pub withdraw_protocol_fees_ok :
      (token recipient : Address) (paid : ℤ) (e e' : Env host)
      → withdraw_protocol_fees token recipient e ≡ (ok paid, e')
      → (paid ≡ get_or (e.fees.fee_revenue token) (pos 0))
        × (paid ≢ pos 0)
        × (e'.fees ≡ record e.fees { fee_revenue = put e.fees.fee_revenue token (some (pos 0)) })
        × (host.token_transfer e.tokens token e.ledger.current_contract recipient paid
            ≡ some e'.tokens)
        × (e'.markets ≡ e.markets)
  unfolding withdraw_protocol_fees
  withdraw_protocol_fees_ok token recipient paid e e' h = ground arith

  -- A claim of rewards that succeeds pays exactly the referrer's balance in the token, which is not
  -- 0, by one transfer from the contract, sets that balance to 0 and no other, and leaves the
  -- markets as they were.
  pub claim_referral_rewards_ok :
      (a token : Address) (paid : ℤ) (e e' : Env host)
      → claim_referral_rewards a token e ≡ (ok paid, e')
      → (paid ≡ get_or (e.fees.referrer_balance a token) (pos 0))
        × (paid ≢ pos 0)
        × (e'.fees.referrer_balance ≡ put₂ e.fees.referrer_balance a token (some (pos 0)))
        × (host.token_transfer e.tokens token e.ledger.current_contract a paid ≡ some e'.tokens)
        × (e'.markets ≡ e.markets)
  unfolding claim_referral_rewards
  claim_referral_rewards_ok a token paid e e' h = ground arith

  -- After a claim of rewards a second claim of the same referrer in the same token at any time is
  -- not accepted.
  pub claim_referral_rewards_once :
      (a token : Address) (t : ℕ) (paid paid' : ℤ) (e e' e'' : Env host)
      → claim_referral_rewards a token e ≡ (ok paid, e')
      → claim_referral_rewards a token (at_time t e') ≢ (ok paid', e'')
  claim_referral_rewards_once a token t paid paid' e e' e'' h h' =
      let (_, _, zeroed, _, _) = claim_referral_rewards_ok a token paid e e' h in
      let (balance, some', _, _, _) =
        claim_referral_rewards_ok a token paid' (at_time t e') e'' h' in
      ground (arith, zeroed, balance, some')
