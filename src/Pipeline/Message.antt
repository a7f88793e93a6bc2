-- ===== src/Pipeline/Message.antt =====
-- internal/pipeline/job.go: what a handler or the sweep hands to a worker.
use ping_goat.Common.{GoString}
use ping_goat.Database.{Uuid}

pub record JobMessage : Type 0 where
  pub job_id : Uuid
  pub repo_url : GoString
  pub branch : GoString
  pub user_id : Uuid
