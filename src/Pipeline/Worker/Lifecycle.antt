-- ===== src/Pipeline/Worker/Lifecycle.antt =====
-- internal/pipeline/worker.go keeps the tables in order.
use ping_goat.Common.{inl, refl}
use ping_goat.Pipeline.Status.{status_cloning}
use ping_goat.Session.Keeps.{Steady}
use ping_goat.Database.References.{upsert_doc_cache-IsWellFormed, upsert_document-IsWellFormed}
use ping_goat.Pipeline.Worker.Invariant.{process_job-Ensures, KeptByWorker}
use ping_goat.Pipeline.Store.Atomic.{KeptByStore}
use ping_goat.Session.{World, Shared}
use ping_goat.Config.{Config}
use ping_goat.Pipeline.Message.{JobMessage}
use ping_goat.Pipeline.Store.{cache_params, complete_params, document_params, StoreInput}
use ping_goat.Database.WellFormed.{
  complete_job-IsWellFormed, set_job_status-IsWellFormed, update_job-IsWellFormed, IsWellFormed,
}
use ping_goat.Pipeline.Worker.{store_input, status_params, Machine, process_job}

-- The tables of the shared state are in order.
abbrev pub TablesWellFormed : Shared → Type 0
TablesWellFormed s = IsWellFormed s.db

store_keeps_tables : (input : StoreInput) → KeptByStore TablesWellFormed input
store_keeps_tables input = record {
  document =
      λ doc now uuid s. upsert_document-IsWellFormed (document_params input doc) now uuid s.db;
  cache = λ doc now uuid s. upsert_doc_cache-IsWellFormed (cache_params input doc) now uuid s.db;
  complete = λ now uuid s.
      complete_job-IsWellFormed (complete_params input) now uuid s.db (refl, refl, refl);
}

worker_keeps_tables : (msg : JobMessage) → KeptByWorker TablesWellFormed msg
worker_keeps_tables msg = record {
  claimed = λ now uuid s.
      update_job-IsWellFormed (status_params status_cloning msg) now uuid s.db (inl refl);
  status =
      λ status now uuid s u. set_job_status-IsWellFormed (status_params status msg) now uuid s.db u;
  stored = λ ws files docs. store_keeps_tables (store_input msg ws files docs);
}

-- However a job goes, whichever calls of the database fail, with their effect or without, and
-- whatever others do meanwhile, if they keep the tables in order, `processJob` leaves them in order:
-- each job has one of the five statuses that are set, a completed one has its commit, its counts
-- and its time, every job has its user, every document its job, and no two jobs have one id.
pub process_job-IsWellFormed :
    (machine : Machine) (cfg : Config) (msg : JobMessage) (w : World)
    → IsWellFormed w.shared.db
    → Steady TablesWellFormed w
    → IsWellFormed (process_job machine cfg msg w).1.shared.db
process_job-IsWellFormed machine cfg msg w h steady =
    ((process_job-Ensures TablesWellFormed msg (worker_keeps_tables msg) machine cfg).at w
      (h, steady)).0.0
