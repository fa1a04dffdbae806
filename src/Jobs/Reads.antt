-- ===== src/Jobs/Reads.antt =====
-- demo/jobs.py: the methods that read, `list_jobs`, `job_detail` and `artifact_content`. An
-- availability object is its value, or none where it is unavailable for a constant reason.
use stock_signal.Common.{
  ℕ, suc, Bool, true, not, ◌&&◌, ◌||◌, Option, none, some, List, [], ◌∷◌, ◌==◌, ltb, leb,
  if◌then◌else◌, find?, select, take, length,
}
use stock_signal.Common.Int.{ℤ, pos, negsuc}
use stock_signal.Jobs.Data.{
  Text, Instant, State, failed, Phase, Failure, Checked, given, other, Row, ResultRecord, ResultRow,
  ArtifactRow, Database, default_page_size, max_page_size, is_completed, is_text,
}
use stock_signal.Jobs.Monad.{
  not_found, invalid_page, type_error, content_too_large, Result, ok, err, Action, ◌>>=◌, ◌>>◌,
  pure, gets, returned, raise_if,
}
use stock_signal.Jobs.Owner.{Env, owned_row, cancel_run}

-- `_page_size`: a limit is None, an integer, or other text.
unfoldable pub page_size : Option (Checked ℤ) → Result ℕ
page_size none = ok default_page_size
page_size (some other) = err invalid_page
page_size (some (given (negsuc n))) = err invalid_page
page_size (some (given (pos n))) =
    if not (leb 1 n && leb n max_page_size) then err invalid_page else ok n

pub record Cancellation : Type 0 where
  pub requested_at : Instant
  pub requester_id : Option Text

-- The dictionary that `_status` returns, without its constants.
pub record Status : Type 0 where
  pub run_id : Text
  pub state : State
  pub created_at : Instant
  pub started_at : Option Instant
  pub ended_at : Option Instant
  pub phase : Option Phase
  pub heartbeat_at : Option Instant
  pub attempt : ℕ
  pub engine_run_id : Option Text
  pub result_id : Option (Option Text)
  pub failure : Option Failure
  pub cancellation : Option Cancellation

abbrev pub cancellation_of : Option Instant → Option Text → Option Cancellation
cancellation_of none requester = none
cancellation_of (some at) requester = some (record { requested_at = at; requester_id = requester })

-- `json.loads` raises a TypeError for None.
abbrev pub failure_shown : State → Option Failure → Result (Option Failure)
failure_shown failed none = err type_error
failure_shown failed (some f) = ok (some f)
failure_shown _ f = ok none

abbrev pub status_with : Row → Result (Option Failure) → Result Status
status_with r (err e) = err e
status_with r (ok failure) = ok (record {
  run_id = r.id;
  state = r.state;
  created_at = r.created_at;
  started_at = r.started_at;
  ended_at = r.ended_at;
  phase = r.phase;
  heartbeat_at = r.heartbeat_at;
  attempt = r.attempt;
  engine_run_id = r.engine_run_id;
  result_id = if is_completed r.state then some r.result_id else none;
  failure = failure;
  cancellation = cancellation_of r.cancel_requested_at r.cancel_requester_id;
})

unfoldable pub status_of : Row → Result Status
status_of r = status_with r (failure_shown r.state r.failure)

-- `[self._status(row) for row in rows]`
abbrev pub cons_status : Result Status → Result (List Status) → Result (List Status)
cons_status (err e) rest = err e
cons_status (ok s) (err e) = err e
cons_status (ok s) (ok ss) = ok (s ∷ ss)

unfoldable pub statuses : List Row → Result (List Status)
statuses [] = ok []
statuses (r ∷ rs) = cons_status (status_of r) (statuses rs)

-- `ORDER BY seq DESC`
abbrev pub insert_newest : Row → List Row → List Row
insert_newest r [] = r ∷ []
insert_newest r (x ∷ xs) =
    let rest = insert_newest r xs in if ltb x.seq r.seq then r ∷ x ∷ xs else x ∷ rest

unfoldable pub newest_first : List Row → List Row
newest_first [] = []
newest_first (x ∷ xs) = insert_newest x (newest_first xs)

-- `seq<?`, which stands in the query only where there is a cursor
abbrev pub is_before : Option ℕ → Row → Bool
is_before none r = true
is_before (some seq) r = ltb r.seq seq

abbrev pub select_page : Text → Option ℕ → ℕ → Database → List Row
select_page owner before limit d =
    take limit (newest_first (select (λ r. r.owner_id == owner && is_before before r) d.jobs))

-- `before_seq`
abbrev pub seq_or_invalid : Result Row × Database → Result (Option ℕ) × Database
seq_or_invalid (ok r, d) = (ok (some r.seq), d)
seq_or_invalid (err not_found, d) = (err invalid_page, d)
seq_or_invalid (err e, d) = (err e, d)

abbrev pub before_seq : Env → Text → Option Text → Action (Option ℕ)
before_seq env owner none d = (ok none, d)
before_seq env owner (some cursor) d = seq_or_invalid (owned_row env owner cursor d)

-- `rows[-1]`, which is there whenever it is looked at
abbrev pub last? : {A : Type 0} → List A → Option A
last? [] = none
last? (x ∷ []) = some x
last? (x ∷ y ∷ xs) = last? (y ∷ xs)

abbrev pub id_of : Option Row → Option Text
id_of none = none
id_of (some r) = some r.id

pub record Page : Type 0 where
  pub runs : List Status
  pub next_cursor : Option Text

abbrev pub page_of : ℕ → List Row → Action Page
page_of size rows = do
  runs ← returned (statuses (take size rows))
  let next = if ltb size (length rows) then id_of (last? (take size rows)) else none
  pure (record { runs = runs; next_cursor = next })

unfoldable pub list_jobs : Env → Text → Option (Checked ℤ) → Option Text → Action Page
list_jobs env owner limit cursor = do
  size ← returned (page_size limit)
  before ← before_seq env owner cursor
  rows ← gets (select_page owner before (suc size))
  page_of size rows

-- The dictionary that `job_detail` returns; the artifacts are those of the published result.
pub record Detail : Type 0 where
  pub run : Text
  pub status : Status
  pub result : Option ResultRecord
  pub artifacts : List ArtifactRow

-- `ORDER BY relative_path`; `precedes` is the database's order of texts.
abbrev pub insert_by_path : (Text → Text → Bool) → ArtifactRow → List ArtifactRow → List ArtifactRow
insert_by_path precedes a [] = a ∷ []
insert_by_path precedes a (x ∷ xs) =
    let rest = insert_by_path precedes a xs in
    if precedes x.artifact.relative_path a.artifact.relative_path then x ∷ rest else a ∷ x ∷ xs

abbrev pub by_path : (Text → Text → Bool) → List ArtifactRow → List ArtifactRow
by_path precedes [] = []
by_path precedes (x ∷ xs) = insert_by_path precedes x (by_path precedes xs)

abbrev pub result_row : Row → Database → Option ResultRow
result_row r d = if is_completed r.state then find? (λ x. x.job_id == r.id) d.results else none

abbrev pub shown_result : Option ResultRow → Option ResultRecord
shown_result none = none
shown_result (some x) = some x.result

abbrev pub shown_artifacts :
    (Text → Text → Bool) → Option ResultRow → List ArtifactRow → List ArtifactRow
shown_artifacts precedes none rows = []
shown_artifacts precedes (some x) rows = by_path precedes (select (λ a. a.result_id == x.id) rows)

unfoldable pub job_detail : Env → (Text → Text → Bool) → Text → Text → Action Detail
job_detail env precedes owner id = do
  row ← owned_row env owner id
  found ← gets (result_row row)
  artifacts ← gets (λ d. shown_artifacts precedes found d.artifacts)
  status ← returned (status_of row)
  pure (record {
    run = row.normalized_run;
    status = status;
    result = shown_result found;
    artifacts = artifacts;
  })

-- `request_cancel`: the transaction, and the run as its owner then sees it
unfoldable pub request_cancel : Env → (Text → Text → Bool) → Text → Text → Instant → Action Detail
request_cancel env precedes owner id now =
    cancel_run env owner id now >> job_detail env precedes owner id

-- What reading a file gives: its content, the digest and the size of it, or none where
-- demo/artifacts.py refuses.
pub record File : Type 0 where
  pub content : Text
  pub digest : Text
  pub size : ℕ

-- ImportedArtifact
pub record Served : Type 0 where
  pub row : ArtifactRow
  pub content : Text

-- MAX_ARTIFACT_BYTES
abbrev pub max_artifact_bytes : ℕ
max_artifact_bytes = 1048576

-- The join of `artifact_content`.
abbrev pub with_result : ArtifactRow → Option ResultRow → Option (ArtifactRow × Text)
with_result a none = none
with_result a (some x) = some (a, x.directory)

abbrev pub joined : Text → Text → List ArtifactRow → List ResultRow → Option (ArtifactRow × Text)
joined artifact_id job_id [] results = none
joined artifact_id job_id (a ∷ rest) results =
    let later = joined artifact_id job_id rest results in
    let here = find? (λ x. x.id == a.result_id && x.job_id == job_id) results in
    if a.artifact.id == artifact_id then or_later (with_result a here) later else later
  where
    or_later :
        Option (ArtifactRow × Text) → Option (ArtifactRow × Text) → Option (ArtifactRow × Text)
    or_later none later = later
    or_later (some r) later = some r

abbrev pub checked_file : ArtifactRow → Option File → Result Served
checked_file a none = err not_found
checked_file a (some f) =
    if not (f.digest == a.artifact.sha256) || not (f.size == a.artifact.byte_size)
    then err not_found
    else ok (record { row = a; content = f.content })

abbrev pub content_of :
    (Text → Text → Option File) → State → Option (ArtifactRow × Text) → Result Served
content_of read s none = err not_found
content_of read s (some (a, directory)) =
    if not (is_completed s)
    then err not_found
    else if ltb max_artifact_bytes a.artifact.byte_size
    then err content_too_large
    else checked_file a (read directory a.artifact.relative_path)

-- `read` is `_read_file` of demo/artifacts.py on a directory and a path in it.
unfoldable pub artifact_content :
    Env → (Text → Text → Option File) → Text → Text → Text → Action Served
artifact_content env read owner id artifact_id = do
  raise_if (not (is_text (env.parse_uuid artifact_id) artifact_id)) not_found
  job ← owned_row env owner id
  found ← gets (λ d. joined artifact_id job.id d.artifacts d.results)
  returned (content_of read job.state found)
