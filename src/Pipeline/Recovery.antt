-- ===== src/Pipeline/Recovery.antt =====
-- internal/pipeline/recovery.go: the sweep that hands queued jobs to the workers once more.
pub mod Delivery
mod Tests
use ping_goat.Common.{GoString, List, [], if◌then◌else◌, ℕ, ◌∷◌}
use ping_goat.Pipeline.Message.{JobMessage}
use ping_goat.Session.{query, try_send, ◌>>=◌, pure, Exec, World}
use ping_goat.Database.Jobs.{get_pending_job, RowOrder}
use ping_goat.Database.{DbError, Job, PgText}

-- A branch that is NULL is the empty string.
abbrev pub branch_of : PgText → GoString
branch_of b = if b.valid then b.string else []

abbrev pub message_of : Job → JobMessage
message_of job = record {
  job_id = job.id;
  repo_url = job.repo_url;
  branch = branch_of job.branch;
  user_id = job.user_id;
}

-- The loop over the pending jobs: a full channel leaves the job to a later sweep.
pub send_all : ℕ → List Job → Exec DbError (Unit {0})
send_all capacity [] = pure tt
send_all capacity (job ∷ jobs) = do
  sent ← try_send capacity (message_of job)
  send_all capacity jobs

-- One tick.
unfoldable pub sweep : RowOrder → ℕ → Exec DbError (Unit {0})
unfolding send_all
sweep order capacity = do jobs ← query (get_pending_job order); send_all capacity jobs

-- What the `select` of the loop meets, in order: a tick, or the end of the context.
pub data Beat : Type 0 where
  tick done : Beat

-- `StartRecoverySweep`: an error of the query is logged, and the loop goes on.
pub start_recovery_sweep : RowOrder → ℕ → List Beat → World → World
unfolding sweep
start_recovery_sweep order capacity [] w = w
start_recovery_sweep order capacity (done ∷ _) w = w
start_recovery_sweep order capacity (tick ∷ beats) w =
    start_recovery_sweep order capacity beats (sweep order capacity w).1
