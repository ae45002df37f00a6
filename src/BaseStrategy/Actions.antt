-- ===== src/BaseStrategy/Actions.antt =====
-- TradeAction and Strategy::Parser, from the text that the predictor returns.
use Prim.Native.String.{String}
use text.Mathlib.Text.{◌==◌}
use cryptobot.Common.{if◌then◌else◌}

pub data TradeAction : Type 0 where
  k_enter_long k_exit_long k_enter_short k_exit_short k_nope : TradeAction

unfoldable pub parse : String → TradeAction
parse action =
    if action == "enter_long"
    then TradeAction.k_enter_long
    else if action == "enter_short"
    then TradeAction.k_enter_short
    else if action == "exit_long"
    then TradeAction.k_exit_long
    else if action == "exit_short"
    then TradeAction.k_exit_short
    else TradeAction.k_nope
