-- ===== src/Response.antt =====
-- aot/client_response.h: what the getters of Exchange::IResponse return.
use cryptobot.Common.{ℕ}
use cryptobot.Types.{Side, TradingPair, ExchangeId}

pub data ClientResponseType : Type 0 where
  invalid accepted canceled filled cancel_rejected : ClientResponseType

pub record Response : Type 0 where
  pub type : ClientResponseType
  pub exchange_id : ExchangeId
  pub trading_pair : TradingPair
  pub order_id : ℕ
  pub side : Side
  pub price : ℕ
  pub exec_qty : ℕ
  pub leaves_qty : ℕ
