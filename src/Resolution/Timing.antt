-- ===== src/Resolution/Timing.antt =====
-- When a market is resolved (attempt_oracle_resolution, finalize_resolution), and to what.
use predict_iq.Markets.Change.{Change, update, Edge, resolvable}
use predict_iq.Oracles.Staleness.{validate_oracle_staleness_ok}
use predict_iq.Markets.Index.{updated, update_market-updated}
use predict_iq.Disputes.Window.{window_of}
use predict_iq.Oracles.{validate_oracle_staleness}
use predict_iq.Resolution.{finalize_pending, attempt_oracle_resolution}
use predict_iq.Env.{Host, Env, ok}
use predict_iq.Types.{Market, pending_resolution, resolved, active, cancelled}
use predict_iq.Prelude.{◌≡◌, refl, arith, ℕ, some, ◌+◌, ◌≤◌, Option-cases, inl, inr, ◌≢◌}

-- The market after oracle resolution, and after finalization.
abbrev pub pending_market : Market → ℕ → ℕ → Market
pending_market m outcome t = record m {
  status = pending_resolution;
  winning_outcome = some outcome;
  pending_resolution_timestamp = some t;
}

abbrev pub resolved_market : Market → ℕ → ℕ → Market
resolved_market m outcome t = record m {
  status = resolved;
  winning_outcome = some outcome;
  resolved_at = some t;
}

pub resolved-Edge :
    (m : Market) (outcome t : ℕ)
    → m.status ≢ resolved
    → m.status ≢ cancelled
    → Edge m (resolved_market m outcome t)
resolved-Edge m outcome t a b = record {
  status_step = resolvable m.status a b;
  frame = refl;
  final = λ q. absurd (a q);
  balance = λ v. record { sorted = v.sorted; conserved = v.conserved };
}

module _ {host : Host} where
  -- An undisputed finalization that succeeds comes at or after the end of the dispute window, and
  -- resolves the market to the outcome that the oracle had given it, changing no other market.
  pub finalize_pending_ok :
      (id : ℕ) (m : Market) (e e' : Env host)
      → finalize_pending id m e ≡ (ok tt, e')
      → (t outcome : ℕ) × (m.pending_resolution_timestamp ≡ some t)
        × (t + window_of e id ≤ e.ledger.timestamp)
        × (m.winning_outcome ≡ some outcome)
        × (e'.markets ≡ updated e.markets (resolved_market m outcome e.ledger.timestamp))
  unfolding finalize_pending
  finalize_pending_ok id m e e' h = elim (Option-cases m.pending_resolution_timestamp) [
    | inl missing ↦ ground arith
    | inr (t, pending) ↦ elim (Option-cases m.winning_outcome) [
      | inl missing ↦ ground arith
      | inr (o, won) ↦
          let u =
            update_market-updated
              (record m { status = resolved; resolved_at = some e.ledger.timestamp }) e in
          (t, o, pending, ground arith, won, ground (arith, u))
    ]
  ]

  -- An oracle resolution that succeeds found an active market at or after its resolution deadline,
  -- whose oracles passed the staleness check; the market is then pending with the result of oracle
  -- 0, as of the present time.
  pub attempt_oracle_resolution_ok :
      (id : ℕ) (e e' : Env host)
      → attempt_oracle_resolution id e ≡ (ok tt, e')
      → (m : Market) × (outcome : ℕ) × (e.markets.market id ≡ some m)
        × (m.status ≡ active)
        × (m.resolution_deadline ≤ e.ledger.timestamp)
        × (validate_oracle_staleness id m.oracle_config e ≡ (ok tt, e))
        × (e.oracles.result id 0 ≡ some outcome)
        × (e'.markets ≡ updated e.markets (pending_market m outcome e.ledger.timestamp))
  unfolding attempt_oracle_resolution
  attempt_oracle_resolution_ok id e e' h = elim (Option-cases (e.markets.market id)) [
    | inl missing ↦ ground arith
    | inr (m, found) ↦
        let e1 = (validate_oracle_staleness id m.oracle_config e).1 in
        let kept = validate_oracle_staleness_ok id m.oracle_config e e1 in
        elim (Option-cases (e.oracles.result id 0)) [
          | inl silent ↦ ground (arith, kept)
          | inr (o, result) ↦
              let u = update_market-updated (pending_market m o e.ledger.timestamp) e1 in
              (
                m,
                o,
                found,
                ground arith,
                ground arith,
                ground (arith, kept),
                result,
                ground (arith, kept, u),
              )
        ]
  ]

  pub attempt_oracle_resolution-Change :
      (id : ℕ) (e e' : Env host)
      → attempt_oracle_resolution id e ≡ (ok tt, e')
      → Change e.markets e'.markets
  attempt_oracle_resolution-Change id e e' h =
      let (m, o, found, open', _, _, _, shape) = attempt_oracle_resolution_ok id e e' h in
      update id m (pending_market m o e.ledger.timestamp) found
        (record {
          status_step = rw open';
          frame = refl;
          final = λ q. ground arith;
          balance = λ v. record { sorted = v.sorted; conserved = v.conserved };
        })
        shape

  pub finalize_pending-Change :
      (id : ℕ) (m : Market) (e e' : Env host)
      → e.markets.market id ≡ some m
      → m.status ≡ pending_resolution
      → finalize_pending id m e ≡ (ok tt, e')
      → Change e.markets e'.markets
  finalize_pending-Change id m e e' found pending h =
      let (t, o, _, _, _, shape) = finalize_pending_ok id m e e' h in
      update id m (resolved_market m o e.ledger.timestamp) found
        (resolved-Edge m o e.ledger.timestamp (ground (arith, pending)) (ground (arith, pending)))
        shape
