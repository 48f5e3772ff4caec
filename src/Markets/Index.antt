-- ===== src/Markets/Index.antt =====
-- The market store under `update_market`: the record is replaced, and the status index follows.
use mathlib.Core.Option.{none}
use predict_iq.Markets.{update_market, set_index}
use predict_iq.Types.{Market, MarketStatus, eqb_status}
use predict_iq.Env.{MarketStore, Host, Env, ok}
use predict_iq.Prelude.{
  ◌≡◌, Option-cases, Bool-cases, inl, inr, Option, ℕ, put, some, Bool, if◌then◌else◌, false, true,
}

-- The status index after a market record has been replaced.
abbrev pub reindex : Option Market → (ℕ → MarketStatus → Bool) → Market → ℕ → MarketStatus → Bool
reindex none index m = index
reindex (some old) index m =
    set_index
      (if eqb_status old.status m.status then index else set_index index m.id old.status false) m.id
      m.status true

-- The market store after `update_market`.
abbrev pub updated : MarketStore → Market → MarketStore
updated s m = record s {
  market = put s.market m.id (some m);
  status_index = reindex (s.market m.id) s.status_index m;
}

module _ {host : Host} where
  pub update_market-updated :
      (m : Market) (e : Env host)
      → update_market m e ≡ (ok tt, record e { markets = updated e.markets m })
  unfolding update_market
  update_market-updated m e = elim (Option-cases (e.markets.market m.id)) [
    | inl missing ↦ rw missing
    | inr (old, found) ↦ elim (Bool-cases (eqb_status old.status m.status)) [
      | inl same ↦ rw (found, same)
      | inr differ ↦ rw (found, differ)
    ]
  ]
