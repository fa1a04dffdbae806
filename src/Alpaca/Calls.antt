-- ===== src/Alpaca/Calls.antt =====
-- trades/alpaca_broker.py: histories of what the live loop asks of `AlpacaBroker`. A call that
-- raises leaves what it wrote before.
use stock_signal.Common.{ℕ, Text, List, [], ◌∷◌}
use stock_signal.Common.Float.{Float}
use stock_signal.Alpaca.Data.{PendingExit, Store, Result, ok, err, Report}
use stock_signal.Alpaca.Broker.{Client, Broker}
use stock_signal.Alpaca.Checks.{reconcile}
use stock_signal.Alpaca.Entries.{Signal, open_position, request_session_flatten}
use stock_signal.Alpaca.Exits.{close_position}
use stock_signal.Alpaca.Fills.{Filled}
use stock_signal.Alpaca.Reports.{apply_report}

pub data Operation (F : Type 0) : Type 0 where
  -- a signal and the id for its order
  opens : Text → Signal F → Operation F
  -- a ticker, the reason and the bar, and the id for the order
  closes : Text → Text → PendingExit → Operation F
  reconciles flattens : Operation F

module _ {F : Type 0} ⦃f : Float F⦄ (quantize : ℕ → F → F) (client : Client F) where
  abbrev pub perform : Operation F → Broker F → Broker F
  perform (opens id s) b = (open_position quantize client id s b).1
  perform (closes id ticker p) b = (close_position client id ticker p b).1
  perform reconciles b = (reconcile client b).1
  perform flattens b = request_session_flatten b

  unfoldable pub history : List (Operation F) → Broker F → Broker F
  history [] b = b
  history (o ∷ os) b = history os (perform o b)

module _ {F : Type 0} ⦃f : Float F⦄ where
  abbrev pub after_taking : Store F → Result (Filled F) → Store F
  after_taking s (ok x) = x.store
  after_taking s (err e) = s

  -- Reports that are taken one after the other; one that is refused changes nothing.
  unfoldable pub take_reports : List (Text × Report F) → Store F → Store F
  take_reports [] s = s
  take_reports ((id, order) ∷ rest) s = take_reports rest (after_taking s (apply_report id order s))
