-- ===== src/Jobs/Valid.antt =====
-- demo/jobs.py: what holds of a row of `demo_jobs` between two calls, in each state.
use stock_signal.Common.{ℕ, ◌≡◌, Bool, true, false, Option, none, some, arith, is_some}
use stock_signal.Jobs.Data.{
  Instant, State, queued, cancel_requested, cancelled, failed, completed, Row, Fields, Built, Text,
  is_active, is_completed, max_attempts,
}
use stock_signal.Jobs.Owner.{queued_row}
use stock_signal.Jobs.Moves.{
  Move, claim, beat, withdraw, ask_cancel, publish, give_up, confirm, retry,
}
use Prim.Native.Nat.{◌≤◌, ◌<◌}

abbrev pub is_failed : State → Bool
is_failed failed = true
is_failed _ = false

-- No call leaves these states.
abbrev pub is_ended : State → Bool
is_ended completed = true
is_ended failed = true
is_ended cancelled = true
is_ended _ = false

abbrev pub is_cancelling : State → Bool
is_cancelling cancel_requested = true
is_cancelling cancelled = true
is_cancelling _ = false

-- An instant that is recorded at all lies in the span.
abbrev pub Within : Instant → Option Instant → Instant → Type 0
Within a none b = Unit
Within a (some t) b = (a ≤ t) × (t ≤ b)

abbrev pub or_else : Option Instant → Instant → Instant
or_else none b = b
or_else (some a) b = a

pub record RowIsValid (now : Instant) (r : Row) : Type 0 where
  pub attempts_capped : r.attempt ≤ max_attempts
  pub token_held : is_some r.lease_token ≡ is_active r.state
  pub expiry_held : is_some r.lease_expires_at ≡ is_active r.state
  pub queued_attempts : r.state ≡ queued → r.attempt < max_attempts
  pub queued_fresh : r.state ≡ queued → r.started_at ≡ none
  pub queued_idle : r.state ≡ queued → r.phase ≡ none
  pub queued_silent : r.state ≡ queued → r.heartbeat_at ≡ none
  pub unwanted :
      is_cancelling r.state ≡ false → is_ended r.state ≡ false → r.cancel_requested_at ≡ none
  pub active_counted : is_active r.state ≡ true → 1 ≤ r.attempt
  pub active_started : is_active r.state ≡ true → is_some r.started_at ≡ true
  pub active_beating : is_active r.state ≡ true → is_some r.heartbeat_at ≡ true
  pub active_phase : is_active r.state ≡ true → is_some r.phase ≡ true
  pub ended_recorded : is_some r.ended_at ≡ is_ended r.state
  pub result_published : is_some r.result_id ≡ is_completed r.state
  pub engine_recorded : is_some r.engine_run_id ≡ is_completed r.state
  pub failure_recorded : is_some r.failure ≡ is_failed r.state
  pub cancel_recorded : is_cancelling r.state ≡ true → is_some r.cancel_requested_at ≡ true
  pub created_by : r.created_at ≤ now
  pub started_by : Within r.created_at r.started_at now
  pub beating_by : Within (or_else r.started_at r.created_at) r.heartbeat_at now
  pub ended_by : Within (or_else r.heartbeat_at r.created_at) r.ended_at now
  pub cancel_by : Within r.created_at r.cancel_requested_at now

pub queued_row-IsValid :
    (seq : ℕ) (owner : Text) (fields : Fields) (built : Built) (now : Instant)
    → RowIsValid now (queued_row seq owner fields built now)
queued_row-IsValid seq owner fields built now = ground arith

pub RowIsValid-later : {r : Row} (t now : Instant) → t ≤ now → RowIsValid t r → RowIsValid now r
RowIsValid-later t now h v = ground arith

-- Each move of a run keeps what holds of its row, when the clock does not run back.
pub Move-IsValid :
    {r s : Row} (t now : Instant) → t ≤ now → Move now r s → RowIsValid t r → RowIsValid now s
Move-IsValid t now h (claim r token seconds e) v = ground arith
Move-IsValid t now h (beat r phase seconds e) v = ground arith
Move-IsValid t now h (withdraw r env owner e) v = ground arith
Move-IsValid t now h (ask_cancel r env owner e) v = ground arith
Move-IsValid t now h (publish r engine result e) v = ground arith
Move-IsValid t now h (give_up r failure e) v = ground arith
Move-IsValid t now h (confirm r e) v = ground arith
Move-IsValid t now h (retry r e more) v = ground arith
