-- ===== src/Jobs/ReadTests.antt =====
-- demo/jobs.py: runs of the methods that read, and their theorems at inputs that meet their
-- hypotheses.
use stock_signal.Common.{
  ◌+◌, ◌≡◌, refl, Bool, Option, none, some, [], ◌∷◌, select, ◌==◌, arith, length, ◌<◌, ltb, ◌&&◌,
  if◌then◌else◌,
}
use stock_signal.Common.Int.{pos}
use stock_signal.Jobs.Data.{
  Text, running, completed, queued, Phase, Row, Database, Published, given,
}
use stock_signal.Jobs.Monad.{ok}
use stock_signal.Jobs.Owner.{Env, owned_row}
use stock_signal.Jobs.Lease.{
  complete, complete_in, complete_row, insert_rows, insert_result, insert_artifact,
  insert_artifacts, leased_row,
}
use stock_signal.Jobs.Reads.{
  Status, Detail, File, Served, list_jobs, page_size, newest_first, statuses, status_of, job_detail,
  artifact_content,
}
use stock_signal.Jobs.Pages.{pages, pages-newest_first}
use stock_signal.Jobs.Artifacts.{Serves, artifact_content-Serves}
use stock_signal.Jobs.Shown.{complete-job_detail}
use stock_signal.Jobs.Invariant.{IsValid}

abbrev env : Env
env = record {
  parse_uuid = λ v. some v;
  requester_id_for = λ o. o + 1000;
  validated_request_fields = λ r. ok (record { idempotency_key = r; document = r });
  request_fingerprint = λ f. f.document;
  build_replay_request = λ f drawn. ok (record {
    run_id = drawn;
    idempotency_key = f.idempotency_key;
    request_fingerprint = f.document;
    normalized_run = drawn;
    strategy_configuration = 7;
  });
}

abbrev waiting_run : Row
waiting_run = record {
  seq = 1;
  id = 11;
  owner_id = 5;
  idempotency_key = 1;
  request_fingerprint = 1;
  request = 1;
  normalized_run = 11;
  strategy_configuration = 7;
  state = queued;
  phase = none;
  created_at = 1;
  started_at = none;
  ended_at = none;
  heartbeat_at = none;
  attempt = 0;
  lease_token = none;
  lease_expires_at = none;
  engine_run_id = none;
  result_id = none;
  failure = none;
  cancel_requested_at = none;
  cancel_requester_id = none;
}

abbrev active_run : Row
active_run = record waiting_run {
  seq = 2;
  id = 12;
  idempotency_key = 2;
  state = running;
  phase = some Phase.verifying;
  started_at = some 3;
  heartbeat_at = some 4;
  attempt = 1;
  lease_token = some 31;
  lease_expires_at = some 34;
}

abbrev last_run : Row
last_run = record waiting_run { seq = 3; id = 13; idempotency_key = 3 }

abbrev three_runs : Database
three_runs = record {
  jobs = waiting_run ∷ active_run ∷ last_run ∷ [];
  results = [];
  artifacts = [];
  next_seq = 4;
}

three_runs-IsValid : IsValid 10 three_runs
three_runs-IsValid = ground arith

abbrev shown : Row → Status
shown r = record {
  run_id = r.id;
  state = r.state;
  created_at = r.created_at;
  started_at = r.started_at;
  ended_at = r.ended_at;
  phase = r.phase;
  heartbeat_at = r.heartbeat_at;
  attempt = r.attempt;
  engine_run_id = r.engine_run_id;
  result_id = none;
  failure = none;
  cancellation = none;
}

two : page_size (some (given (pos 2))) ≡ ok 2
unfolding page_size
two = refl

few : length (newest_first (select (λ r. r.owner_id == 5) three_runs.jobs)) < 4
unfolding newest_first
few = omega arith

-- The first of two pages.
ids_of_pages :
    (list_jobs env 5 (some (given (pos 2))) none three_runs).0
    ≡ ok (record { runs = shown last_run ∷ shown active_run ∷ []; next_cursor = some 12 })
unfolding list_jobs page_size newest_first statuses status_of owned_row
ids_of_pages = refl

pages-newest_first_example :
    pages 4 env 5 (some (given (pos 2))) none three_runs
    ≡ statuses (newest_first (select (λ r. r.owner_id == 5) three_runs.jobs))
pages-newest_first_example =
    pages-newest_first env 5 (some (given (pos 2))) 10 three_runs 2 4 three_runs-IsValid
      (refl, (refl, (refl, tt))) two few

abbrev published : Published
published = record {
  id = 70;
  directory = 71;
  result = record { id = some 70; run_id = some 12; artifact_ids = some (72 ∷ []); document = 0 };
  artifacts =
      record { id = 72; kind = 1; relative_path = 2; sha256 = 3; mime_type = 4; byte_size = 5 }
      ∷ [];
}

abbrev after : Database
after = record three_runs {
  jobs = waiting_run ∷ complete_row 9 70 6 active_run ∷ last_run ∷ [];
  results = record { id = 70; job_id = 12; directory = 71; result = published.result } ∷ [];
  artifacts =
      record {
        result_id = 70;
        artifact = record {
          id = 72;
          kind = 1;
          relative_path = 2;
          sha256 = 3;
          mime_type = 4;
          byte_size = 5;
        };
      }
      ∷ [];
}

completes : complete env 12 31 (given 9) published 6 three_runs ≡ (ok tt, after)
unfolding complete complete_in insert_rows insert_result insert_artifact insert_artifacts leased_row
completes = refl

abbrev in_order : Text → Text → Bool
in_order a b = ltb a b

complete-job_detail_example :
    (detail : Detail) × (job_detail env in_order 5 12 after ≡ (ok detail, after))
    × (detail.run ≡ 11)
    × (detail.result ≡ some published.result)
    × (detail.status.state ≡ completed)
    × (detail.status.result_id ≡ some (some 70))
complete-job_detail_example =
    complete-job_detail env in_order 12 31 (given 9) published 6 three_runs after active_run
      three_runs-IsValid.ids refl refl completes

-- The file that stands in the result's directory.
abbrev read : Text → Text → Option File
read directory path =
    if directory == 71 && path == 2
    then some (record { content = 88; digest = 3; size = 5 })
    else none

abbrev served : Served
served = record {
  row = record {
    result_id = 70;
    artifact = record {
      id = 72;
      kind = 1;
      relative_path = 2;
      sha256 = 3;
      mime_type = 4;
      byte_size = 5;
    };
  };
  content = 88;
}

is_served : artifact_content env read 5 12 72 after ≡ (ok served, after)
unfolding artifact_content owned_row
is_served = refl

artifact_content-Serves_example : (after ≡ after) × Serves read 5 12 72 after served
artifact_content-Serves_example =
    artifact_content-Serves env read 5 12 72 after after served is_served
