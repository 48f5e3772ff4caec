-- ===== src/Disputes/Window.antt =====
-- The filing of a dispute (file_dispute) and resolution by the admin (resolve_market).
use predict_iq.Markets.Index.{updated, update_market-updated}
use predict_iq.Resolution.Windows.{default_dispute_window_seconds}
use predict_iq.Disputes.{file_dispute}
use predict_iq.Env.{Host, Env, ok}
use predict_iq.Types.{Market, disputed, Address, pending_resolution}
use predict_iq.Prelude.{◌≡◌, Option-cases, inl, inr, arith, ℕ, get_or, some, ◌+◌, ◌<◌}

abbrev pub disputed_market : Market → ℕ → ℕ → Market
disputed_market m t window = record m {
  status = disputed;
  dispute_timestamp = some t;
  resolution_deadline = m.resolution_deadline + window;
}

-- The dispute window of a market.
abbrev pub window_of : {host : Host} → Env host → ℕ → ℕ
window_of e id =
    get_or (e.markets.market_dispute_window id)
      (get_or e.windows.default_dispute_window default_dispute_window_seconds)

module _ {host : Host} where
  -- A dispute that is accepted found a market pending resolution, strictly before the end of its
  -- dispute window; it marks the market disputed at the present time, extends its resolution
  -- deadline by the window, and changes no other market.
  pub file_dispute_ok :
      (d : Address) (id : ℕ) (e e' : Env host)
      → file_dispute d id e ≡ (ok tt, e')
      → (m : Market) × (t : ℕ) × (e.markets.market id ≡ some m)
        × (m.status ≡ pending_resolution)
        × (m.pending_resolution_timestamp ≡ some t)
        × (e.ledger.timestamp < t + window_of e id)
        × (e'.markets ≡ updated e.markets (disputed_market m e.ledger.timestamp (window_of e id)))
  unfolding file_dispute
  file_dispute_ok d id e e' h = elim (Option-cases (e.markets.market id)) [
    | inl missing ↦ ground arith
    | inr (m, found) ↦ elim (Option-cases m.pending_resolution_timestamp) [
      | inl missing ↦ ground arith
      | inr (t, pending) ↦
          let u = update_market-updated (disputed_market m e.ledger.timestamp (window_of e id)) e in
          (m, t, found, ground arith, pending, ground arith, ground (arith, u))
    ]
  ]
