-- ===== src/Cashflows/Records.antt =====
-- trades/cashflows.py: the records of holdings, actions, settlements and windows, each built by a
-- function that makes the checks of its `__post_init__`. A quantity is a number of units of a lot,
-- and a rate is the ticks for one unit.
use stock_signal.Common.{
  ℕ, Bool, true, false, not, ◌&&◌, Option, none, some, List, [], ◌∷◌, ltb, leb, ◌==◌, if◌then◌else◌,
}
use stock_signal.Common.Int.{ℤ, leb_ℤ}
use stock_signal.Cashflows.Base.{
  Text, Result, ok, err, value_error, ◌>>=◌, ◌>>◌, require, Number, Stamp, require_aware,
  aware_or_none, zero_amount,
}
use stock_signal.Cashflows.Decimal.{decimal}

pub data Side : Type 0 where
  long short : Side

pub data Kind : Type 0 where
  payment refund : Kind

-- A text that should be one of a few: it, or another one.
pub data Choice (A : Type 0) : Type 0 where
  one : A → Choice A
  another : Choice A

abbrev pub same_side : Side → Side → Bool
same_side long long = true
same_side short short = true
same_side _ _ = false

pub record Holding : Type 0 where
  pub lot_id : Text
  pub symbol : Text
  pub side : Side
  pub quantity : ℤ
  pub entry_at : ℕ
  pub exit_at : Option ℕ

pub record DistributionAction : Type 0 where
  pub action_id : Text
  pub symbol : Text
  pub ex_at : ℕ
  pub per_share : Option ℤ
  pub currency : Option Text
  pub revision_id : Text
  pub supersedes_revision : Option Text
  pub knowledge_at : Option ℕ
  pub cancelled : Bool

pub record Settlement : Type 0 where
  pub payment_id : Text
  pub action_id : Text
  pub amount : Option ℤ
  pub occurred_at : ℕ
  pub kind : Kind
  pub knowledge_at : Option ℕ
  pub side : Option Side
  pub currency : Option Text

-- A mapping from an action's id and a side.
abbrev pub Balances : Type 0
Balances = List ((Text × Side) × ℤ)

pub record TimeWindow : Type 0 where
  pub start : ℕ
  pub end : ℕ
  pub opening_receivables : Balances
  pub opening_payables : Balances
  pub opening_borrow_payables : List (Text × ℤ)
  pub opening_refund_receivables : Balances
  pub opening_repayment_liabilities : Balances
  pub opening_targets : Balances
  pub opening_settled : Balances

abbrev pub non_negative : ℤ → Result (Unit {0})
non_negative a = require (leb_ℤ zero_amount a) value_error

-- `decimal(value)` of a value that may be None, which must not be below ZERO.
abbrev pub amount_or_none : Option (Number ℤ) → Result (Option ℤ)
amount_or_none none = ok none
amount_or_none (some n) = do amount ← decimal n; non_negative amount; ok (some amount)

abbrev pub chosen : {A : Type 0} → Choice A → Result A
chosen (one a) = ok a
chosen another = err value_error

abbrev pub chosen_or_none : {A : Type 0} → Option (Choice A) → Result (Option A)
chosen_or_none none = ok none
chosen_or_none (some (one a)) = ok (some a)
chosen_or_none (some another) = err value_error

-- `self.exit_at < self.entry_at`, if there is an exit
abbrev pub exits_before : Option ℕ → ℕ → Bool
exits_before none entry = false
exits_before (some exit) entry = ltb exit entry

unfoldable pub holding :
    Text → Text → Choice Side → Number ℤ → Stamp → Option Stamp → Result Holding
holding lot_id symbol side quantity entry_at exit_at = do
  side ← chosen side
  quantity ← decimal quantity
  non_negative quantity
  entry ← require_aware entry_at
  exit ← aware_or_none exit_at
  require (not (exits_before exit entry)) value_error
  ok (record {
    lot_id = lot_id;
    symbol = symbol;
    side = side;
    quantity = quantity;
    entry_at = entry;
    exit_at = exit;
  })

unfoldable pub distribution_action :
    Text
    → Text
    → Stamp
    → Option (Number ℤ)
    → Option Text
    → Text
    → Option Text
    → Option Stamp
    → Bool
    → Result DistributionAction
distribution_action id symbol ex_at per_share currency revision supersedes knowledge_at cancelled =
    do
      ex ← require_aware ex_at
      knowledge ← aware_or_none knowledge_at
      rate ← amount_or_none per_share
      ok (record {
        action_id = id;
        symbol = symbol;
        ex_at = ex;
        per_share = rate;
        currency = currency;
        revision_id = revision;
        supersedes_revision = supersedes;
        knowledge_at = knowledge;
        cancelled = cancelled;
      })

unfoldable pub settlement :
    Text
    → Text
    → Option (Number ℤ)
    → Stamp
    → Choice Kind
    → Option Stamp
    → Option (Choice Side)
    → Option Text
    → Result Settlement
settlement payment_id action_id amount occurred_at kind knowledge_at side currency = do
  occurred ← require_aware occurred_at
  knowledge ← aware_or_none knowledge_at
  kind ← chosen kind
  side ← chosen_or_none side
  amount ← amount_or_none amount
  ok (record {
    payment_id = payment_id;
    action_id = action_id;
    amount = amount;
    occurred_at = occurred;
    kind = kind;
    knowledge_at = knowledge;
    side = side;
    currency = currency;
  })

-- `contains`
abbrev pub contains : TimeWindow → ℕ → Bool
contains w t = ltb w.start t && leb t w.end

-- `window.contains(t)`, or true without a window
abbrev pub in_window? : Option TimeWindow → ℕ → Bool
in_window? none t = true
in_window? (some w) t = contains w t

-- `balances.get((action_id, side), ZERO)`
abbrev pub balance_of : Text → Side → Balances → Option ℤ
balance_of id side [] = none
balance_of id side (((i, s), v) ∷ rest) =
    if i == id && same_side s side then some v else balance_of id side rest

abbrev pub or_zero : Option ℤ → ℤ
or_zero none = zero_amount
or_zero (some v) = v

-- The same of a window's mapping, ZERO without a window.
abbrev pub opening : Option TimeWindow → (TimeWindow → Balances) → Text → Side → ℤ
opening none f id side = zero_amount
opening (some w) f id side = or_zero (balance_of id side (f w))
