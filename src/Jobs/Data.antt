-- ===== src/Jobs/Data.antt =====
-- demo/jobs.py: the rows of the three tables, and the values that callers pass.
-- A text (an id, a token, a JSON document) is only stored and compared, so a number stands for
-- it. An instant is a number of clock ticks; `isoformat` and `timestamp` of one instant are one.
pub use stock_signal.Common.{Text}
use stock_signal.Common.{ℕ, Bool, Option, none, some, List, [], ◌∷◌, false, ◌&&◌, ◌==◌, true}
use stock_signal.Common.Int.{ℤ}

abbrev pub Instant : Type 0
Instant = ℕ

-- The `CHECK` of the column `state`.
pub data State : Type 0 where
  queued running cancel_requested completed failed cancelled : State

-- PHASES
pub data Phase : Type 0 where
  validating replaying exporting verifying : Phase

-- The keys of FAILURE_SUMMARIES.
pub data FailureCode : Type 0 where
  validation_failed input_unavailable timeout worker_lost : FailureCode
  execution_failed artifact_invalid : FailureCode

-- A value of a caller that the code checks: the value, or anything else.
pub data Checked (A : Type 0) : Type 0 where
  given : A → Checked A
  other : Checked A

-- What `lease_seconds` can be; a finite number is one of ticks.
pub data Number : Type 0 where
  boolean not_a_number not_finite : Number
  finite : ℤ → Number

-- The record that `_failure` builds; its `summary` is a function of the code, and
-- `log_artifact_id` is a constant.
pub record Failure : Type 0 where
  pub code : FailureCode
  pub at : Instant
  pub retryable : Bool

-- A row of `demo_jobs`.
pub record Row : Type 0 where
  pub seq : ℕ
  pub id : Text
  pub owner_id : Text
  pub idempotency_key : Text
  pub request_fingerprint : Text
  pub request : Text
  pub normalized_run : Text
  pub strategy_configuration : Text
  pub state : State
  pub phase : Option Phase
  pub created_at : Instant
  pub started_at : Option Instant
  pub ended_at : Option Instant
  pub heartbeat_at : Option Instant
  pub attempt : ℕ
  pub lease_token : Option Text
  pub lease_expires_at : Option Instant
  pub engine_run_id : Option Text
  pub result_id : Option Text
  pub failure : Option Failure
  pub cancel_requested_at : Option Instant
  pub cancel_requester_id : Option Text

-- PublishedArtifact
pub record Artifact : Type 0 where
  pub id : Text
  pub kind : Text
  pub relative_path : Text
  pub sha256 : Text
  pub mime_type : Text
  pub byte_size : ℕ

-- The keys of `PublishedResult.record` that `complete` reads, and the rest of the document.
pub record ResultRecord : Type 0 where
  pub id : Option Text
  pub run_id : Option Text
  pub artifact_ids : Option (List Text)
  pub document : Text

-- PublishedResult
pub record Published : Type 0 where
  pub id : Text
  pub directory : Text
  pub result : ResultRecord
  pub artifacts : List Artifact

-- A row of `demo_job_results`.
pub record ResultRow : Type 0 where
  pub id : Text
  pub job_id : Text
  pub directory : Text
  pub result : ResultRecord

-- A row of `demo_job_artifacts`.
pub record ArtifactRow : Type 0 where
  pub result_id : Text
  pub artifact : Artifact

-- The database. Each table lists its rows in the order of insertion; `next_seq` is the counter
-- behind `AUTOINCREMENT`, which never gives a number twice.
pub record Database : Type 0 where
  pub jobs : List Row
  pub results : List ResultRow
  pub artifacts : List ArtifactRow
  pub next_seq : ℕ

abbrev pub empty : Database
empty = record { jobs = []; results = []; artifacts = []; next_seq = 1 }

-- What `submit` keeps of a validated request, and what `build_replay_request` makes of it.
pub record Fields : Type 0 where
  pub idempotency_key : Text
  pub document : Text

pub record Built : Type 0 where
  pub run_id : Text
  pub idempotency_key : Text
  pub request_fingerprint : Text
  pub normalized_run : Text
  pub strategy_configuration : Text

-- ClaimedJob
pub record Claimed : Type 0 where
  pub id : Text
  pub lease_token : Text
  pub attempt : ℕ
  pub request : Text
  pub normalized_run : Text
  pub strategy_configuration : Text

-- MAX_ATTEMPTS
abbrev pub max_attempts : ℕ
max_attempts = 2

-- DEFAULT_PAGE_SIZE and MAX_PAGE_SIZE of demo/read_service.py.
abbrev pub default_page_size : ℕ
default_page_size = 20

abbrev pub max_page_size : ℕ
max_page_size = 50

-- `state IN ACTIVE_STATES`
abbrev pub is_active : State → Bool
is_active running = true
is_active cancel_requested = true
is_active _ = false

abbrev pub is_queued : State → Bool
is_queued queued = true
is_queued _ = false

abbrev pub is_completed : State → Bool
is_completed completed = true
is_completed _ = false

abbrev pub is_cancel_requested : State → Bool
is_cancel_requested cancel_requested = true
is_cancel_requested _ = false

-- `a == b` where either side can be `None`, and on lists of texts.
abbrev pub is_text : Option Text → Text → Bool
is_text none b = false
is_text (some a) b = a == b

abbrev pub same_texts : List Text → List Text → Bool
same_texts [] [] = true
same_texts (x ∷ xs) (y ∷ ys) = x == y && same_texts xs ys
same_texts _ _ = false

abbrev pub is_texts : Option (List Text) → List Text → Bool
is_texts none ys = false
is_texts (some xs) ys = same_texts xs ys
