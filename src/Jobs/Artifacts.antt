-- ===== src/Jobs/Artifacts.antt =====
-- demo/jobs.py, `artifact_content` and `job_detail`: what an owner is shown.
use mathlib.Core.Option.{some-injective}
use stock_signal.Common.{
  ℕ, ◌≤◌, ◌≡◌, refl, sym, ap, subst, ◌∙◌, Bool, true, false, not, ◌&&◌, Option, none, some, List,
  [], ◌∷◌, ◌==◌, ltb, if◌then◌else◌, find?, find?-test, Bool-cases, Option-cases, inl, inr, arith,
}
use stock_signal.Jobs.Data.{
  Text, State, Row, ArtifactRow, ResultRow, Database, is_completed, is_text,
}
use stock_signal.Jobs.Monad.{Result, ok, err, not_found, content_too_large}
use stock_signal.Jobs.Owner.{Env, owned_row}
use stock_signal.Jobs.Reads.{
  File, Served, max_artifact_bytes, with_result, joined, checked_file, content_of, artifact_content,
}
use stock_signal.Jobs.Returns.{err-≢-ok}
use stock_signal.Jobs.Lookups.{IsOwned, owned_row-cases}

-- The artifact is of a result of this run, whose directory is this one.
pub record IsOf (artifact_id job_id : Text) (results : List ResultRow) (a : ArtifactRow)
    (directory : Text) : Type 0 where
  pub same_id : a.artifact.id ≡ artifact_id
  pub result : ResultRow
  pub found : find? (λ x. x.id == a.result_id && x.job_id == job_id) results ≡ some result
  pub result_id : result.id ≡ a.result_id
  pub job : result.job_id ≡ job_id
  pub stands_in : result.directory ≡ directory

both_left : (a b : ℕ) (c : Bool) → (a == b && c) ≡ true → a ≡ b
both_left a b c h = ground arith

both_right : (a b c d : ℕ) → (a == b && c == d) ≡ true → c ≡ d
both_right a b c d h = ground arith

with_result-IsOf :
    (artifact_id job_id : Text) (results : List ResultRow) (a b : ArtifactRow) (directory : Text)
    (x : ResultRow)
    → a.artifact.id ≡ artifact_id
    → find? (λ x. x.id == a.result_id && x.job_id == job_id) results ≡ some x
    → with_result a (some x) ≡ some (b, directory)
    → IsOf artifact_id job_id results b directory
with_result-IsOf artifact_id job_id results a b directory x s e h =
    let k = find?-test (λ x. x.id == a.result_id && x.job_id == job_id) results x e in
    subst (λ p. IsOf artifact_id job_id results p.0 p.1) (some-injective _ _ h)
      (record {
        same_id = s;
        result = x;
        found = e;
        result_id = both_left x.id a.result_id (x.job_id == job_id) k;
        job = both_right x.id a.result_id x.job_id job_id k;
        stands_in = refl;
      })

joined-other :
    (artifact_id job_id : Text) (x : ArtifactRow) (rest : List ArtifactRow)
    (results : List ResultRow)
    → x.artifact.id == artifact_id ≡ false
    → joined artifact_id job_id (x ∷ rest) results ≡ joined artifact_id job_id rest results
joined-other artifact_id job_id x rest results h = rw h refl

joined-absent :
    (artifact_id job_id : Text) (x : ArtifactRow) (rest : List ArtifactRow)
    (results : List ResultRow)
    → x.artifact.id == artifact_id ≡ true
    → find? (λ y. y.id == x.result_id && y.job_id == job_id) results ≡ none
    → joined artifact_id job_id (x ∷ rest) results ≡ joined artifact_id job_id rest results
joined-absent artifact_id job_id x rest results h e = rw h (rw e refl)

joined-found :
    (artifact_id job_id : Text) (x : ArtifactRow) (rest : List ArtifactRow)
    (results : List ResultRow) (r : ResultRow)
    → x.artifact.id == artifact_id ≡ true
    → find? (λ y. y.id == x.result_id && y.job_id == job_id) results ≡ some r
    → joined artifact_id job_id (x ∷ rest) results ≡ with_result x (some r)
joined-found artifact_id job_id x rest results r h e = rw h (rw e refl)

joined-IsOf :
    (artifact_id job_id : Text) (rows : List ArtifactRow) (results : List ResultRow)
    (a : ArtifactRow) (directory : Text)
    → joined artifact_id job_id rows results ≡ some (a, directory)
    → IsOf artifact_id job_id results a directory
joined-IsOf artifact_id job_id [] results a directory h = cc
joined-IsOf artifact_id job_id (x ∷ rest) results a directory h =
    elim (Bool-cases (x.artifact.id == artifact_id)) [
      | inr other ↦
          joined-IsOf artifact_id job_id rest results a directory
            (sym (joined-other artifact_id job_id x rest results other) ∙ h)
      | inl same ↦
          elim (Option-cases (find? (λ y. y.id == x.result_id && y.job_id == job_id) results)) [
            | inl absent ↦
                joined-IsOf artifact_id job_id rest results a directory
                  (sym (joined-absent artifact_id job_id x rest results same absent) ∙ h)
            | inr (r, e) ↦
                with_result-IsOf artifact_id job_id results x a directory r (ground arith) e
                  (sym (joined-found artifact_id job_id x rest results r same e) ∙ h)
          ]
    ]

-- What is served is the recorded content of a completed run.
pub record IsServed (read : Text → Text → Option File) (s : State) (a : ArtifactRow)
    (directory : Text) (served : Served) : Type 0 where
  pub same_row : served.row ≡ a
  pub run_completed : is_completed s ≡ true
  pub small : a.artifact.byte_size ≤ max_artifact_bytes
  pub file : File
  pub there : read directory a.artifact.relative_path ≡ some file
  pub digest : file.digest ≡ a.artifact.sha256
  pub size : file.size ≡ a.artifact.byte_size
  pub content : served.content ≡ file.content

checked_file-IsServed :
    (a : ArtifactRow) (o : Option File) (served : Served)
    → checked_file a o ≡ ok served
    → (f : File) × (o ≡ some f)
      × (f.digest ≡ a.artifact.sha256)
      × (f.size ≡ a.artifact.byte_size)
      × (served ≡ record { row = a; content = f.content })
checked_file-IsServed a none served h = cc
checked_file-IsServed a (some f) served h = (f, refl, ground arith, ground arith, ground arith)

guarded :
    {A : Type 0} (done large : Bool) (k : Result A) (v : A)
    → (if not done then err not_found else if large then err content_too_large else k) ≡ ok v
    → (done ≡ true) × (large ≡ false) × (k ≡ ok v)
guarded false large k v h = cc
guarded true true k v h = cc
guarded true false k v h = (refl, refl, h)

content_of-IsServed :
    (read : Text → Text → Option File) (s : State) (a : ArtifactRow) (directory : Text)
    (served : Served)
    → content_of read s (some (a, directory)) ≡ ok served
    → IsServed read s a directory served
content_of-IsServed read s a directory served h =
    let (done, small, k) =
      guarded (is_completed s) (ltb max_artifact_bytes a.artifact.byte_size)
        (checked_file a (read directory a.artifact.relative_path)) served h in
    let (f, there, digest, size, e) =
      checked_file-IsServed a (read directory a.artifact.relative_path) served k in
    record {
      same_row = ap (λ (v : Served). v.row) e;
      run_completed = done;
      small = ground arith;
      file = f;
      there = there;
      digest = digest;
      size = size;
      content = ap (λ (v : Served). v.content) e;
    }

content_malformed :
    (env : Env) (read : Text → Text → Option File) (owner id artifact_id : Text) (d : Database)
    → is_text (env.parse_uuid artifact_id) artifact_id ≡ false
    → artifact_content env read owner id artifact_id d ≡ (err not_found, d)
unfolding artifact_content
content_malformed env read owner id artifact_id d h = rw h refl

content_unknown :
    (env : Env) (read : Text → Text → Option File) (owner id artifact_id : Text) (d : Database)
    → is_text (env.parse_uuid artifact_id) artifact_id ≡ true
    → owned_row env owner id d ≡ (err not_found, d)
    → artifact_content env read owner id artifact_id d ≡ (err not_found, d)
unfolding artifact_content
content_unknown env read owner id artifact_id d h e = rw h (rw e refl)

content_owned :
    (env : Env) (read : Text → Text → Option File) (owner id artifact_id : Text) (d : Database)
    (r : Row)
    → is_text (env.parse_uuid artifact_id) artifact_id ≡ true
    → owned_row env owner id d ≡ (ok r, d)
    → artifact_content env read owner id artifact_id d
      ≡ (content_of read r.state (joined artifact_id r.id d.artifacts d.results), d)
unfolding artifact_content
content_owned env read owner id artifact_id d r h e = rw h (rw e refl)

-- The artifact is served to its owner.
pub record Serves (read : Text → Text → Option File) (owner id artifact_id : Text) (d : Database)
    (served : Served) : Type 0 where
  pub job : Row
  pub owned : IsOwned owner id d job
  pub artifact : ArtifactRow
  pub directory : Text
  pub of_job : IsOf artifact_id job.id d.results artifact directory
  pub checked : IsServed read job.state artifact directory served

content-Serves :
    (read : Text → Text → Option File) (owner id artifact_id : Text) (d : Database) (r : Row)
    (served : Served) (o : Option (ArtifactRow × Text))
    → IsOwned owner id d r
    → joined artifact_id r.id d.artifacts d.results ≡ o
    → content_of read r.state o ≡ ok served
    → Serves read owner id artifact_id d served
content-Serves read owner id artifact_id d r served none w e h = cc
content-Serves read owner id artifact_id d r served (some (a, directory)) w e h = record {
  job = r;
  owned = w;
  artifact = a;
  directory = directory;
  of_job = joined-IsOf artifact_id r.id d.artifacts d.results a directory e;
  checked = content_of-IsServed read r.state a directory served h;
}

-- `artifact_content` never changes the database, and what it returns is an artifact of that id
-- which belongs to a result of this owner's run of that id; the run is completed, and the content
-- is what the result's directory has under the artifact's path, with the recorded digest and the
-- recorded size, which is at most the limit.
pub artifact_content-Serves :
    (env : Env) (read : Text → Text → Option File) (owner id artifact_id : Text) (d d' : Database)
    (served : Served)
    → artifact_content env read owner id artifact_id d ≡ (ok served, d')
    → (d' ≡ d) × Serves read owner id artifact_id d served
artifact_content-Serves env read owner id artifact_id d d' served h =
    elim (Bool-cases (is_text (env.parse_uuid artifact_id) artifact_id)) [
      | inr malformed ↦ absurd (
          err-≢-ok
            (ap (λ p. p.0) (sym (content_malformed env read owner id artifact_id d malformed) ∙ h)))
      | inl canonical ↦ elim (owned_row-cases env owner id d) [
        | inr e ↦ absurd (
            err-≢-ok (
              ap (λ p. p.0)
                (sym (content_unknown env read owner id artifact_id d canonical e) ∙ h)))
        | inl (r, w, e) ↦
            let k = sym (content_owned env read owner id artifact_id d r canonical e) ∙ h in
            (
              sym (ap (λ p. p.1) k),
              content-Serves read owner id artifact_id d r served _ w refl (ap (λ p. p.0) k),
            )
      ]
    ]
