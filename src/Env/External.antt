-- ===== src/Env/External.antt =====
-- What the contract calls and does not implement: the token contracts, as they are seen by
-- soroban_sdk::token::Client, and the Pyth price feed.
use predict_iq.Prelude.{ℕ, ℤ, Bool, Option, List}
use predict_iq.Types.{Address}

-- What a price feed answers: price, confidence, exponent, publish time (pyth_client.rs).
pub record PriceAnswer : Type 0 where
  pub price : ℤ
  pub conf : ℕ
  pub expo : ℤ
  pub publish_time : ℤ

-- `none` stands for a call that fails. A failing `transfer` traps, a failing `try_transfer` does
-- not.
pub record Host : Type 1 where
  pub Tokens : Type 0
  pub token_balance : Tokens → Address → Address → ℤ
  pub token_transfer : Tokens → Address → Address → Address → ℤ → Option Tokens
  pub token_frozen : Tokens → Address → Address → Option Bool
  pub token_authorized : Tokens → Address → Address → Option Bool
  pub token_balance_at : Tokens → Address → Address → ℕ → Option ℤ
  pub token_decimals : Tokens → Address → Option ℕ
  pub get_price : Tokens → Address → List ℕ → Option PriceAnswer
