-- ===== src/Disputes/Change.antt =====
-- The change of the market store by a dispute and by the admin's resolution, as edges of the market.
use predict_iq.Markets.Index.{updated, update_market-updated}
use predict_iq.Resolution.Timing.{resolved_market}
use predict_iq.Disputes.Window.{file_dispute_ok, disputed_market, window_of}
use predict_iq.Markets.Change.{Change, update, resolvable}
use predict_iq.Disputes.{resolve_market, file_dispute}
use predict_iq.Types.{Address, Market, resolved, cancelled}
use predict_iq.Env.{Host, Env, ok}
use predict_iq.Prelude.{◌≡◌, refl, Option-cases, inl, inr, arith, ℕ, some, ◌≢◌, ◌<◌, length}

module _ {host : Host} where
  -- Filing a dispute takes one market from `pending_resolution` to `disputed` and changes no other.
  pub file_dispute-Change :
      (d : Address) (id : ℕ) (e e' : Env host)
      → file_dispute d id e ≡ (ok tt, e')
      → Change e.markets e'.markets
  file_dispute-Change d id e e' h =
      let (m, t, found, pending, _, _, shape) = file_dispute_ok d id e e' h in
      update id m (disputed_market m e.ledger.timestamp (window_of e id)) found
        (record {
          status_step = rw pending;
          frame = refl;
          final = λ q. ground arith;
          balance = λ b. record { sorted = b.sorted; conserved = b.conserved };
        })
        shape

  -- A resolution by the admin that succeeds found a market neither resolved nor cancelled and one
  -- of its outcomes; the market is then resolved to it as of the present time.
  pub resolve_market_ok :
      (id outcome : ℕ) (e e' : Env host)
      → resolve_market id outcome e ≡ (ok tt, e')
      → (m : Market) × (e.markets.market id ≡ some m)
        × (m.status ≢ resolved)
        × (m.status ≢ cancelled)
        × (outcome < length m.options)
        × (e'.markets ≡ updated e.markets (resolved_market m outcome e.ledger.timestamp))
  unfolding resolve_market
  resolve_market_ok id outcome e e' h = elim (Option-cases (e.markets.market id)) [
    | inl missing ↦ ground arith
    | inr (m, found) ↦
        let u = update_market-updated (resolved_market m outcome e.ledger.timestamp) e in
        (m, found, ground arith, ground arith, ground arith, ground (arith, u))
  ]

  pub resolve_market-Change :
      (id outcome : ℕ) (e e' : Env host)
      → resolve_market id outcome e ≡ (ok tt, e')
      → Change e.markets e'.markets
  resolve_market-Change id outcome e e' h =
      let (m, found, a, b, _, shape) = resolve_market_ok id outcome e e' h in
      update id m (resolved_market m outcome e.ledger.timestamp) found
        (record {
          status_step = resolvable m.status a b;
          frame = refl;
          final = λ q. absurd (a q);
          balance = λ v. record { sorted = v.sorted; conserved = v.conserved };
        })
        shape
