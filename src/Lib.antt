-- ===== src/Lib.antt =====
-- A verification library for stock-signal: the parts of the Python program whose correctness rests
-- on their own logic, translated function by function, with theorems about them.
--
-- Parts of the program
-- - demo/jobs.py is the queue of demo runs: an owner submits and cancels runs, a worker claims one
--   under a lease, reports, and completes, fails or stops it, and recovery takes back what a lost
--   worker held. Its state is three SQLite tables.
-- - demo/worker.py is the worker that claims a run, watches its subprocess, and reports to the queue.
-- - trades/cashflows.py is the accounting of distributions and borrow fees: exact decimal amounts,
--   their rounding to cents, and the sharing of a rounded total among lots.
-- - signals/engine.py turns the indicators of a ticker into a signal by six votes; signals/regime.py
--   reads the regime of the market from two index funds and gates signals by it.
-- - trades/executor.py is the local paper broker: it opens and closes positions for signals and keeps
--   an overlay of accounts that the postings of trades/cashflows.py change. trades/tracker.py decides
--   at which level a bar closes a position.
-- - trades/alpaca_broker.py keeps orders at a broker in the tables `orders` and `trades` of
--   db/logger.py: it sends orders, applies the fills that the broker reports, and reconciles the
--   stored positions with the broker's.
-- - analytics/metrics.py computes the metrics of closed trades.
--
-- Files
-- - Common: the names that all modules share. Common/Tests has Boolean tests, Common/Lists lists
--   measured by native numbers and table updates, Common/Int the signed integers.
-- - Jobs/Data: the rows and the values of callers. Jobs/Monad: methods that act on the database
--   and return or raise, and `_transaction`. Jobs/Owner: `_lease_duration`, `_job_for_key`,
--   `submit`, `_owned_row`, the transaction of `request_cancel`. Jobs/Lease: `claim_next`,
--   `_leased_row`, `heartbeat`, `complete`, `fail`, `confirm_cancelled`, `_failure`,
--   `recover_expired_leases`.
--   Jobs/Calls: histories of calls.
-- - Jobs/Moves is the abstract view: what may happen to one run, and to the table. Jobs/Refines,
--   Jobs/Recovery and Jobs/Lookups relate the methods to it. Jobs/Valid and Jobs/Invariant have
--   the invariant, Jobs/Lifecycle the transition diagram, Jobs/Rollback the error paths,
--   Jobs/Leases and Jobs/Tables what claims, tokens and recovery do, Jobs/ClaimsLeft and
--   Jobs/Drains what is left of a queue whose workers stop, Jobs/Repeats the idempotency
--   keys. Jobs/Tests runs the methods on concrete databases.
-- - Jobs/Reads: `list_jobs`, `job_detail`, `artifact_content`, `request_cancel`, `_status`, `_page_size`. Jobs/Order,
--   Jobs/Cut and Jobs/Pages are about pages, Jobs/Artifacts about what is served, Jobs/Returns,
--   Jobs/Completes and Jobs/Shown about a run after `complete`. Jobs/ReadTests has runs.
-- - Worker/Rules: `DemoWorker.__init__`, `run_once`, `_supervise`. Worker/Ends and Worker/Reports
--   relate what the worker returns to the database, Worker/Loop is about the end of its loop,
--   Worker/Tests has a run.
-- - Cashflows/Base: amounts and exceptions. Cashflows/Decimal: `decimal`, `round_cents`.
--   Cashflows/Allocation: `allocate_cents`. Cashflows/Cents, Cashflows/Sorting and
--   Cashflows/Shares have its properties, Cashflows/Refusals the targets that it refuses,
--   Cashflows/Tests its runs.
--   Cashflows/Records: the records, built with the checks of `__post_init__`.
--   Cashflows/Entitlements: `_qualified`, `_signed_settlement_amount`, `_dedupe_settlements`.
--   Cashflows/Targets and Cashflows/Distribution: `_distribution_for_side`, with its theorem in
--   Cashflows/Conservation.
--   Cashflows/Borrow: `_dedupe_borrow_settlements`, `_known_by`, `calculate_borrow`, over the
--   argument `Arithmetic`, as Decimal rounds each fee and each sum of fees to the digits of its
--   context; Cashflows/Posting has its theorem.
--   Cashflows/Revisions: `_accepted_actions`, Cashflows/Book: `calculate_distributions`. Their
--   theorems are in Cashflows/Following, Cashflows/Chains, Cashflows/Passes and Cashflows/Causal,
--   their runs in Cashflows/BookTests. Cashflows/Checks: the checks of `TimeWindow`, `BorrowInterval` and
--   `BorrowSettlement`.
-- - Signals/Base: directions. Signals/Engine/Rules: `vote`, `_entry_stop_target`,
--   `generate_signal`, with the constants of config.py. Signals/Regime/Rules:
--   `classify_context`, `regime_eligibility`, `classify`. Their theorems are in Laws beside them,
--   Signals/Tests has runs. Signals/Quality: `_strength` and `_rvol` of signals/quality.py, with the
--   bars of a symbol as a function of the instant and the sessions before as a list; Causal beside
--   it says what they read, Signals/Quality/Tests has runs.
-- - Paper/Data: the broker's state, `FillPolicy.cost`, `available`, and `check_exit` of
--   trades/tracker.py. Paper/Overlay: `apply_accounting_posting`, `restore_accounting_state`,
--   `mark_accounting_unavailable`. Paper/Broker: `open_position`, `close_position`. Paper/Calls:
--   histories of calls. Paper/Tables, Paper/Valid and Paper/Invariant have the invariant,
--   Paper/Laws what a frozen broker, a round trip and a refused posting do, Paper/Tests runs.
-- - Alpaca/Data: the rows and the broker's reports. Alpaca/Fills and Alpaca/Reports: the transaction of
--   `_apply_broker_order_state`. Alpaca/Broker: the state, the client, `_mark_unresolved`,
--   `_reload_open_positions`. Alpaca/Orders: `_apply_broker_order_state`, `_discover_legs`,
--   `_submit`. Alpaca/Reconcile and Alpaca/Checks: `reconcile` and its parts. Alpaca/Entries:
--   `has_open`, `_intent`, `open_position`, `request_session_flatten`. Alpaca/Exits:
--   `has_bracket`, `save_position`, `close_position`. Alpaca/Calls: histories of calls.
-- - Alpaca/Exposure, Alpaca/Settling and Alpaca/Balance count the shares of a trade and the exits from
--   it, Alpaca/Again is about a report that comes twice, Alpaca/FillTests has runs.
-- - Alpaca/Keyed has tables with a unique key, Alpaca/Valid the invariant of the tables; Filling,
--   Taking, Keeps, Sending, Reconciling and Leaving beside it follow it through the methods, and
--   Alpaca/History through histories. Alpaca/Confirmed and Alpaca/Reconciled are about what
--   `reconcile` checks, Alpaca/Leads and Alpaca/Loaded about the positions that it holds open,
--   Alpaca/Tests has a run.
-- - Metrics/Rules: `compute_metrics` and what it calls. Metrics/Counts and Metrics/Drawdown have its
--   theorems, Metrics/Tests its runs.
--
-- Conventions
-- - A method of `JobStore` is a function from its arguments, the instant at which it reads the
--   clock, what it draws (a UUID) and the database to a result and a database. A transaction runs
--   alone, as BEGIN IMMEDIATE makes it; the look at the table that `submit` makes before its
--   transaction is taken to be at the same moment as the transaction.
-- - Texts (ids, tokens, JSON documents) are numbers that are stored and compared; 0 is the empty
--   text. An instant is a number of clock ticks. Histories have a clock that does not run back.
-- - demo/replay_catalog.py and Python's `uuid` are the argument `Env` of the methods of the queue;
--   `IsFaithful` of Jobs/Repeats names what is asked of them there.
-- - Python's floats are the interface `Float` of Common/Float, without laws: a theorem that needs a
--   law takes it as a named hypothesis (`IsGraded`, `IsRounded`, `IsOrdered`), and the runs use decimal fractions
--   with nine places, which meet them. Nothing is said of rounding errors. The values of an
--   open broker's settings and capital are taken to be finite, so that `math.floor` returns.
-- - Loops over rows are recursion on the list of rows, so no fuel is needed. The loop of `_supervise`
--   has fuel, one for each pass; a pass more than the clock needs to reach the deadline is enough.
-- - The service of trades/alpaca_broker.py is the argument `Client`: its answers are any functions of
--   the calls that were sent before, so nothing is assumed of them. A method returns or raises, and
--   a transaction that raises leaves the tables. The rows are those of one account, in the order of
--   their creation; times, the ids of signals and logging are left out. `Decimal.quantize` is an
--   argument of `open_position`.
-- - The subprocess, the files and the clock of the worker are the argument `World`: what each wait
--   gives, what the verified output is, and whether it could be published. It also has what owners
--   and other workers call between the calls of the worker, before the claim, before each heartbeat
--   and before each report.
-- - A Decimal amount of a distribution is a whole number of ticks, 10^-8 of a dollar, and sums and
--   products of such amounts are exact, which the 28 digits of the decimal context allow for books
--   of that size. A fee of borrowed shares has more digits, so its arithmetic is an argument.
--
-- Not modelled: the subprocess, the checks of its output and the log of demo/worker.py, the
-- construction of the client of trades/alpaca_broker.py, a
-- decision time without an offset, which trades/cashflows.py refuses, the connection settings of
-- SQLite, and the other components: the regime mode and the entry point of the
-- research gate in signals/quality.py, the pandas indicators of signals, live trading, journal,
-- backtests, dashboards, market data, alerts, and the TypeScript client.
pub mod Common
pub mod Jobs
pub mod Cashflows
pub mod Signals
pub mod Worker
pub mod Paper
pub mod Metrics
pub mod Alpaca
