-- ===== src/Calls.antt =====
-- Sequences of the calls of lib.rs that change markets, and what every sequence of them keeps.
use predict_iq.Markets.Prune.Dropped.{prune_market-Change}
use predict_iq.Markets.Deposit.{set_payout_mode-Change, release_creation_deposit-Change}
use predict_iq.Markets.Create.{Request, create_market_with_dispute_window}
use predict_iq.Markets.Create.Opened.{create_market-Change}
use predict_iq.Resolution.Disputed.{finalize_resolution-Change}
use predict_iq.Fees.Ledgers.{withdraw_protocol_fees_ok, claim_referral_rewards_ok}
use predict_iq.Voting.Unlock.{unlock_tokens_ok}
use predict_iq.Cancellation.Threshold.{cancel_market_admin-Change, cancel_market_vote-Change}
use predict_iq.Disputes.Change.{file_dispute-Change, resolve_market-Change}
use predict_iq.Resolution.Timing.{attempt_oracle_resolution-Change}
use predict_iq.Bets.Guards.{place_bet-Change}
use predict_iq.Types.{Address, Market, resolved, Vote, PayoutMode}
use predict_iq.Env.{Host, Env, at_time, ok}
use predict_iq.Prelude.{◌≡◌, ◌⊎◌, arith, ℕ, ℤ, some, none, ap, Option, inl, inr, List}
use predict_iq.Bets
use predict_iq.Markets
use predict_iq.Markets.Prune
use predict_iq.Resolution
use predict_iq.Disputes
use predict_iq.Cancellation
use predict_iq.Voting
use predict_iq.Fees
use predict_iq.Markets.Change.{Change, keep}
use predict_iq.Markets.Change.Sound.{IsSound, Change-IsSound, Change-at}

-- One accepted call at some time of the ledger.
pub data Call {host : Host} (e e' : Env host) : Type 0 where
  place_bet :
      (bettor : Address) (id outcome : ℕ) (amount : ℤ) (token : Address) (r : Option Address)
      → Bets.place_bet bettor id outcome amount token r e ≡ (ok tt, e')
      → Call e e'
  attempt_oracle_resolution :
      (id : ℕ) → Resolution.attempt_oracle_resolution id e ≡ (ok tt, e') → Call e e'
  finalize_resolution :
      (votes : Env host → ℕ → List Vote) (id : ℕ)
      → Resolution.finalize_resolution votes id e ≡ (ok tt, e')
      → Call e e'
  create_market :
      (r : Request) (count : ℕ) → create_market_with_dispute_window r e ≡ (ok count, e') → Call e e'
  set_payout_mode :
      (id : ℕ) (mode : PayoutMode) → Markets.set_payout_mode id mode e ≡ (ok tt, e') → Call e e'
  release_creation_deposit :
      (id : ℕ) (token : Address)
      → Markets.release_creation_deposit id token e ≡ (ok tt, e')
      → Call e e'
  prune_market : (id : ℕ) → Prune.prune_market id e ≡ (ok tt, e') → Call e e'
  file_dispute : (d : Address) (id : ℕ) → Disputes.file_dispute d id e ≡ (ok tt, e') → Call e e'
  resolve_market : (id outcome : ℕ) → Disputes.resolve_market id outcome e ≡ (ok tt, e') → Call e e'
  cancel_market_admin : (id : ℕ) → Cancellation.cancel_market_admin id e ≡ (ok tt, e') → Call e e'
  cancel_market_vote : (id : ℕ) → Cancellation.cancel_market_vote id e ≡ (ok tt, e') → Call e e'
  unlock_tokens :
      (voter : Address) (id : ℕ) → Voting.unlock_tokens voter id e ≡ (ok tt, e') → Call e e'
  withdraw_protocol_fees :
      (token recipient : Address) (paid : ℤ)
      → Fees.withdraw_protocol_fees token recipient e ≡ (ok paid, e')
      → Call e e'
  claim_referral_rewards :
      (a token : Address) (paid : ℤ)
      → Fees.claim_referral_rewards a token e ≡ (ok paid, e')
      → Call e e'

-- Accepted calls one after another, each at a time of its own.
pub data Calls {host : Host} (e : Env host) : Env host → Type 0 where
  start : Calls e e
  later : (e₁ e₂ : Env host) (t : ℕ) → Calls e e₁ → Call (at_time t e₁) e₂ → Calls e e₂

module _ {host : Host} where
  unchanged : (e e' : Env host) → e'.markets ≡ e.markets → Change e.markets e'.markets
  unchanged e e' h =
      keep (ap (λ s. s.market) h) (ap (λ s. s.status_index) h) (ap (λ s. s.market_count) h)

  pub Call-Change : (e e' : Env host) → Call e e' → Change e.markets e'.markets
  Call-Change e e' (place_bet b id o a t r h) = place_bet-Change b id o a t r e e' h
  Call-Change e e' (attempt_oracle_resolution id h) = attempt_oracle_resolution-Change id e e' h
  Call-Change e e' (finalize_resolution votes id h) = finalize_resolution-Change votes id e e' h
  Call-Change e e' (create_market r count h) = create_market-Change r count e e' h
  Call-Change e e' (set_payout_mode id mode h) = set_payout_mode-Change id mode e e' h
  Call-Change e e' (release_creation_deposit id token h) =
      release_creation_deposit-Change id token e e' h
  Call-Change e e' (prune_market id h) = prune_market-Change id e e' h
  Call-Change e e' (file_dispute d id h) = file_dispute-Change d id e e' h
  Call-Change e e' (resolve_market id o h) = resolve_market-Change id o e e' h
  Call-Change e e' (cancel_market_admin id h) = cancel_market_admin-Change id e e' h
  Call-Change e e' (cancel_market_vote id h) = cancel_market_vote-Change id e e' h
  Call-Change e e' (unlock_tokens v id h) =
      let (_, _, _, _, _, _, _, _, _, same) = unlock_tokens_ok v id e e' h in unchanged e e' same
  Call-Change e e' (withdraw_protocol_fees t r p h) =
      let (_, _, _, _, same) = withdraw_protocol_fees_ok t r p e e' h in unchanged e e' same
  Call-Change e e' (claim_referral_rewards a t p h) =
      let (_, _, _, _, same) = claim_referral_rewards_ok a t p e e' h in unchanged e e' same

  -- Every sequence of accepted calls (the creation and pruning of markets, bets, oracle resolution,
  -- finalization with or without a dispute, disputes, resolution and cancellation by the admin,
  -- cancellation by vote, payout modes, creation deposits, the unlocking of tokens, the withdrawal
  -- of fees and of rewards), each at any time, takes a sound market store to a sound one: each
  -- record stands under its own id, which the counter has reached, its outcome stakes add up to its
  -- total, it has no snapshot ledger, and the status index holds exactly the entry of its status.
  pub Calls-IsSound : (e e' : Env host) → Calls e e' → IsSound e.markets → IsSound e'.markets
  Calls-IsSound e _ start v = v
  Calls-IsSound e _ (later e₁ e₂ t before call) v =
      Change-IsSound (Call-Change (at_time t e₁) e₂ call) (Calls-IsSound e e₁ before v)

  -- A resolved market of a sound store is final under one accepted call of those in Call: its
  -- record is the same but for the creation deposit, or it is no longer in the store.
  pub Call-final :
      (e e' : Env host) (i : ℕ) (m : Market)
      → Call e e'
      → IsSound e.markets
      → e.markets.market i ≡ some m
      → m.status ≡ resolved
      → ((m' : Market) × (e'.markets.market i ≡ some m')
          × (m' ≡ record m { creation_deposit = m'.creation_deposit }))
        ⊎ (e'.markets.market i ≡ none)
  Call-final e e' i m call v found done = elim (Change-at i m (Call-Change e e' call) v found) [
    | inl (m', at, inl edge) ↦ inl (m', at, edge.final done)
    | inl (m', at, inr same) ↦ inl (m', at, ground (arith, same))
    | inr (gone, _) ↦ inr gone
  ]
