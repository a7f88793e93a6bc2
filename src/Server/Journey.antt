-- ===== src/Server/Journey.antt =====
-- A job on its way through the server: submitted by a handler of internal/handler/jobsHandler.go,
-- processed by a worker of internal/pipeline/worker.go, and shown by another handler.
use ping_goat.Common.{GoString, List, [], some, true, ◌≡◌, ◌≢◌}
use ping_goat.Config.{Config}
use ping_goat.Gemini.RateLimit.{RateLimiter, new_rate_limiter}
use ping_goat.Pipeline.Batcher.{batch_files}
use ping_goat.Pipeline.Cloner.{Workspace}
use ping_goat.Pipeline.Cloner.Success.{Clones}
use ping_goat.Pipeline.Message.{JobMessage}
use ping_goat.Pipeline.Parser.{parse_files}
use ping_goat.Pipeline.Scanner.{scan_files}
use ping_goat.Pipeline.Store.{StoreInput}
use ping_goat.Pipeline.Worker.{Machine, doc_types, generate_docs, store_input}
use ping_goat.Pipeline.Worker.Success.{clone_options}

-- What the machine can do for a message: the repository can be cloned, its files be scanned and one be
-- read, there is an API key, a rate that a ticker can keep and a model, which answers for one document
-- at least.
pub record IsAble (machine : Machine) (cfg : Config) (msg : JobMessage) (ws : Workspace)
    (paths : List GoString) (limiter : RateLimiter) : Type 0 where
  pub clones : Clones machine.git (clone_options msg) ws
  pub scanned : scan_files ws.dir machine.tree cfg.max_files_per_repo ≡ some paths
  pub some_file : parse_files machine.disk ws.dir paths ≢ []
  pub key : cfg.gemini_api_key ≢ []
  pub paced : new_rate_limiter cfg.gemini_rpm ≡ some limiter
  pub model : machine.has_model ≡ true
  pub some_doc :
      generate_docs machine
        (batch_files (parse_files machine.disk ws.dir paths) cfg.max_tokens_per_batch).0
        doc_types
      ≢ []

-- What is stored of the job.
abbrev pub stored_input : Machine → Config → JobMessage → Workspace → List GoString → StoreInput
stored_input machine cfg msg ws paths =
    let files = (batch_files (parse_files machine.disk ws.dir paths) cfg.max_tokens_per_batch).0 in
    store_input msg ws files (generate_docs machine files doc_types)
