-- ===== src/Pipeline/Workers.antt =====
-- All workers of internal/pipeline/worker.go on one jobs table, with the handlers that create and
-- remove jobs beside them. A step is one statement that has taken effect, or a step of a worker
-- between two of them. A worker can receive any message at any time, any number of times: the sweep and
-- `SubmitJob` send the same job twice.
pub mod Invariant
pub mod Held
pub mod JobState
pub mod Follows
pub mod Exclusion
pub mod Lifecycle
pub mod Protocol
mod Tests
use ping_goat.Common.{
  Bool, GoString, List, [], false, filter, if◌then◌else◌, not, true, ℕ, ◌&&◌, ◌++◌, ◌==◌, ◌∷◌, ◌≡◌,
}
use ping_goat.Pipeline.Store.{complete_params, StoreInput}
use ping_goat.Pipeline.Status.{status_generating, status_parsing, status_cloning}
use ping_goat.Database.{update_rows, has_row, Time, Uuid, Job}
use ping_goat.Database.Jobs.{set_completed, set_status, is_queued, new_job, CreateJobParams, is_job}
use ping_goat.Pipeline.Message.{JobMessage}

-- What `processJob` is at, once it has claimed its job.
pub data Phase : Type 0 where
  cloning parsing generating : Phase

abbrev pub phase_status : Phase → GoString
phase_status cloning = status_cloning
phase_status parsing = status_parsing
phase_status generating = status_generating

-- A worker waits in `range jobs`, has received a message, or works on a job that it has claimed.
pub data Stage : Type 0 where
  resting : Stage
  holding : JobMessage → Stage
  underway : Phase → JobMessage → Stage

-- The jobs table, the workers by their number, and all ids that jobs have ever had.
pub record Crew : Type 0 where
  pub jobs : List Job
  pub workers : ℕ → Stage
  pub issued : List Uuid

abbrev pub at_stage : ℕ → Stage → (ℕ → Stage) → ℕ → Stage
at_stage i stage workers j = if j == i then stage else workers j

-- The rows with the key of a message.
abbrev pub is_of : JobMessage → Job → Bool
is_of msg = is_job msg.job_id msg.user_id

abbrev pub is_known : List Uuid → Uuid → Bool
is_known issued id = has_row (λ k. k == id) issued

abbrev pub empty_crew : Crew
empty_crew = record { jobs = []; workers = λ i. resting; issued = [] }

pub data Step (s t : Crew) : Type 0 where
  -- `CreateJob`, with an id that no job has had before: gen_random_uuid() does not repeat.
  create :
      (arg : CreateJobParams) (now : Time) (uuid : Uuid)
      → is_known s.issued uuid ≡ false
      → t ≡ record s { jobs = s.jobs ++ new_job arg now uuid ∷ []; issued = uuid ∷ s.issued }
      → Step s t
  -- `DeleteJob`, which has no guard on the status.
  remove :
      (id user_id : Uuid)
      → t ≡ record s { jobs = filter (λ j. not (is_job id user_id j)) s.jobs }
      → Step s t
  receive :
      (i : ℕ) (msg : JobMessage)
      → s.workers i ≡ resting
      → t ≡ record s { workers = at_stage i (holding msg) s.workers }
      → Step s t
  -- `UpdateJob`, and a row count over 0.
  claim :
      (i : ℕ) (msg : JobMessage) (now : Time)
      → s.workers i ≡ holding msg
      → has_row (λ j. is_of msg j && is_queued j) s.jobs ≡ true
      → t ≡ record s {
        jobs = update_rows (λ j. is_of msg j && is_queued j) (set_status status_cloning now) s.jobs;
        workers = at_stage i (underway cloning msg) s.workers;
      }
      → Step s t
  -- `SetJobStatus` to "parsing", and a row count over 0.
  parse :
      (i : ℕ) (msg : JobMessage) (now : Time)
      → s.workers i ≡ underway cloning msg
      → has_row (is_of msg) s.jobs ≡ true
      → t ≡ record s {
        jobs = update_rows (is_of msg) (set_status status_parsing now) s.jobs;
        workers = at_stage i (underway parsing msg) s.workers;
      }
      → Step s t
  -- The same to "generating".
  generate :
      (i : ℕ) (msg : JobMessage) (now : Time)
      → s.workers i ≡ underway parsing msg
      → has_row (is_of msg) s.jobs ≡ true
      → t ≡ record s {
        jobs = update_rows (is_of msg) (set_status status_generating now) s.jobs;
        workers = at_stage i (underway generating msg) s.workers;
      }
      → Step s t
  -- The commit of `StoreResults`, whose `CompleteJob` has found the job.
  store :
      (i : ℕ) (msg : JobMessage) (input : StoreInput) (now : Time)
      → s.workers i ≡ underway generating msg
      → has_row (is_of msg) s.jobs ≡ true
      → input.job_id ≡ msg.job_id
      → input.user_id ≡ msg.user_id
      → t ≡ record s {
        jobs = update_rows (is_of msg) (set_completed (complete_params input) now) s.jobs;
        workers = at_stage i resting s.workers;
      }
      → Step s t
  -- `processJob` returns an error.
  give_up : (i : ℕ) → t ≡ record s { workers = at_stage i resting s.workers } → Step s t

-- A run, from the left to the right.
pub data Run (s : Crew) : Crew → Type 0 where
  here : Run s s
  next : {t u : Crew} → Run s t → Step t u → Run s u
