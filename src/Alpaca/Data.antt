-- ===== src/Alpaca/Data.antt =====
-- trades/alpaca_broker.py: the rows of the tables `orders` and `trades`, the reports of the
-- broker, and the state of `AlpacaBroker`. The rows are those of one account; times are left out.
use stock_signal.Common.{ℕ, Text, Bool, true, false, not, Option, List, is_some, ◌==◌}
use stock_signal.Common.Int.{ℤ}
use stock_signal.Signals.Base.{Direction}
use stock_signal.Paper.Data.{Outcome, is_text}

-- The state of an order: those that the code names, and any other that the broker reports.
pub data OrderState : Type 0 where
  pending_submission unresolved new accepted held partially_filled : OrderState
  filled canceled rejected expired suspended : OrderState
  other_state : Text → OrderState

-- `TERMINAL_ORDER_STATES`
abbrev pub is_terminal : OrderState → Bool
is_terminal filled = true
is_terminal canceled = true
is_terminal rejected = true
is_terminal expired = true
is_terminal _ = false

-- `FAILED_ORDER_STATES`
abbrev pub is_failed : OrderState → Bool
is_failed rejected = true
is_failed expired = true
is_failed suspended = true
is_failed _ = false

abbrev pub is_filled : OrderState → Bool
is_filled filled = true
is_filled _ = false

abbrev pub is_pending : OrderState → Bool
is_pending pending_submission = true
is_pending _ = false

-- The states of a protective leg that is settled while it rests.
abbrev pub is_resting : OrderState → Bool
is_resting new = true
is_resting accepted = true
is_resting held = true
is_resting partially_filled = true
is_resting _ = false

pub data Purpose : Type 0 where
  entry exit : Purpose

abbrev pub is_entry : Purpose → Bool
is_entry entry = true
is_entry exit = false

pub data Error : Type 0 where
  inconsistent_quantity no_confirmed_price incomplete_fill : Error
  invalid_leg_quantity exceeds_exposure unexpected_leg missing_quantity : Error
  missing_row zero_division integrity_error duplicate_positions : Error
  -- What the client raises, by its text, which can be empty.
  client_error : Text → Error

pub data Result (A : Type 0) : Type 0 where
  ok : A → Result A
  err : Error → Result A

-- `last_error`: the state that failed, or the text of what was raised.
pub data LastError : Type 0 where
  state_error : OrderState → LastError
  raised : Error → LastError

pub record PendingExit : Type 0 where
  pub reason : Text
  pub exit_bar : Option ℕ

-- `payload_json`; `bracket` has the stop and the target where the execution policy is bracket_v1.
pub record Payload (F : Type 0) : Type 0 where
  pub direction : Direction
  pub bracket : Option (F × F)
  pub parent_id : Option Text
  pub pending_exit : Option PendingExit
  pub exit_reason : Option Text
  pub exit_bar : Option ℕ
  pub broker_qty : Option ℕ

pub record OrderRow (F : Type 0) : Type 0 where
  pub id : Text
  pub broker_id : Option Text
  pub ticker : Text
  pub purpose : Purpose
  pub state : OrderState
  pub requested_qty : ℕ
  pub filled_qty : ℕ
  pub fill_price : Option F
  pub applied_qty : ℕ
  pub trade_id : Option ℕ
  pub payload : Payload F
  pub last_error : Option LastError

-- A row of `trades`; its outcome is none while it is OPEN, `pnl` is its `gross_pnl`, and
-- `state_json` its pending exit.
pub record TradeRow (F : Type 0) : Type 0 where
  pub id : ℕ
  pub ticker : Text
  pub direction : Direction
  pub entry_price : F
  pub shares : ℕ
  pub remaining_shares : ℕ
  pub entry_order_id : Option Text
  pub outcome : Option Outcome
  pub gross_pnl : Option F
  pub exit_reason : Option Text
  pub exit_price : Option F
  pub exit_bar : Option ℕ
  pub bars_held : Option ℕ
  pub observed_bars : ℕ
  pub state_json : Option PendingExit

-- The tables, and the next id of a trade. The orders stand in the order of their creation.
pub record Store (F : Type 0) : Type 0 where
  pub orders : List (OrderRow F)
  pub trades : List (TradeRow F)
  pub next_trade : ℕ

-- What `float` reads: no finite number, a whole one, or another.
pub data Reading : Type 0 where
  missing fractional : Reading
  whole : ℤ → Reading

-- An order as the broker reports it, without its legs.
pub record Report (F : Type 0) : Type 0 where
  pub id : Text
  pub state : OrderState
  pub qty : Reading
  pub filled_qty : Reading
  pub filled_avg_price : Option F

pub data LegKind : Type 0 where
  limit stop other_kind : LegKind

pub record BrokerOrder (F : Type 0) : Type 0 where
  pub report : Report F
  pub legs : List (LegKind × Report F)

pub data EventKind : Type 0 where
  opened closed : EventKind

-- An entry of `open_positions`: the row of the trade with its pending exit.
pub record Held (F : Type 0) : Type 0 where
  pub trade : TradeRow F
  pub pending_exit : Option PendingExit

module _ {F : Type 0} where
  abbrev pub is_bracket : OrderRow F → Bool
  is_bracket row = is_some row.payload.bracket

  abbrev pub is_bracket_leg : OrderRow F → Bool
  is_bracket_leg row = is_text row.payload.parent_id

  abbrev pub is_live : OrderRow F → Bool
  is_live row = not (is_terminal row.state)

  abbrev pub has_id : Text → OrderRow F → Bool
  has_id id row = row.id == id

  abbrev pub is_trade_id : ℕ → TradeRow F → Bool
  is_trade_id id t = t.id == id

  abbrev pub is_open : TradeRow F → Bool
  is_open t = not (is_some t.outcome)
