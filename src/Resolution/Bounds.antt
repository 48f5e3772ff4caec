-- ===== src/Resolution/Bounds.antt =====
-- The bounds of the dispute windows (set_dispute_window, set_dispute_window_bounds).
use predict_iq.Resolution.Windows.{
  set_dispute_window, set_dispute_window_bounds, resolve_market_dispute_window,
  min_dispute_window_seconds, default_dispute_window_seconds, max_dispute_window_seconds,
}
use predict_iq.Env.{Host, Env, ok}
use predict_iq.Prelude.{◌≡◌, ◌≤◌, arith, ℕ, get_or, none, Option}

-- The default window lies within its bounds.
pub record IsBounded {host : Host} (e : Env host) : Type 0 where
  pub above :
      get_or e.windows.min_dispute_window min_dispute_window_seconds
      ≤ get_or e.windows.default_dispute_window default_dispute_window_seconds
  pub below :
      get_or e.windows.default_dispute_window default_dispute_window_seconds
      ≤ get_or e.windows.max_dispute_window max_dispute_window_seconds

module _ {host : Host} where
  -- After the default dispute window has been set, it lies within its bounds.
  pub set_dispute_window-IsBounded :
      (seconds : ℕ) (e e' : Env host) → set_dispute_window seconds e ≡ (ok tt, e') → IsBounded e'
  unfolding set_dispute_window
  set_dispute_window-IsBounded seconds e e' h = record {
    above = ground arith;
    below = ground arith;
  }

  -- After the bounds of the dispute window have been set, the default window lies within them.
  pub set_dispute_window_bounds-IsBounded :
      (low high : ℕ) (e e' : Env host)
      → set_dispute_window_bounds low high e ≡ (ok tt, e')
      → IsBounded e'
  unfolding set_dispute_window_bounds
  set_dispute_window_bounds-IsBounded low high e e' h = record {
    above = ground arith;
    below = ground arith;
  }

  pub resolve_market_dispute_window_ok :
      (asked : Option ℕ) (window : ℕ) (e e' : Env host)
      → resolve_market_dispute_window asked e ≡ (ok window, e')
      → (window
          ≡ get_or asked (get_or e.windows.default_dispute_window default_dispute_window_seconds))
        × (get_or e.windows.min_dispute_window min_dispute_window_seconds ≤ window)
        × (window ≤ get_or e.windows.max_dispute_window max_dispute_window_seconds)
        × (e' ≡ e)
  unfolding resolve_market_dispute_window
  resolve_market_dispute_window_ok asked window e e' h = ground arith

  -- Where the default window lies within its bounds, a market that asks for no window of its own
  -- gets the default one, without an error.
  pub resolve_market_dispute_window-none :
      (e : Env host)
      → IsBounded e
      → resolve_market_dispute_window none e
        ≡ (ok (get_or e.windows.default_dispute_window default_dispute_window_seconds), e)
  unfolding resolve_market_dispute_window
  resolve_market_dispute_window-none e v = ground (arith, v.above, v.below)
