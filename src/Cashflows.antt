-- ===== src/Cashflows.antt =====
-- The accounting arithmetic of trades/cashflows.py. A Decimal amount is an integer of ticks, a
-- millionth of a cent: sums are exact, and so are the products, as quantities are counted in a
-- unit of the lot and rates are ticks for that unit. The fees of a borrow charge are not: their
-- arithmetic is an argument.
pub mod Base
pub mod Decimal
pub mod Records
pub mod Entitlements
pub mod Targets
pub mod Distribution
pub mod Conservation
pub mod Revisions
pub mod Book
pub mod Following
pub mod Chains
pub mod Passes
pub mod Causal
pub mod Checks
mod BookTests
pub mod Borrow
pub mod Posting
pub mod Allocation
pub mod Cents
pub mod Sorting
pub mod Shares
pub mod Refusals
mod Tests
