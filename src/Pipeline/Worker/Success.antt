-- ===== src/Pipeline/Worker/Success.antt =====
-- How internal/pipeline/worker.go processes a job, when nothing goes wrong.
mod Tests
use ping_goat.Common.{GoString, List, [], some, suc, true, ◌≡◌, ◌≢◌}
use ping_goat.Pipeline.Store.Rounds.{HasNewIds}
use ping_goat.Pipeline.Cloner.Success.{Clones, with_dir}
use ping_goat.Pipeline.Batcher.Partition.{batch_files_some}
use ping_goat.Pipeline.Store.{StoreInput, StoredDoc}
use ping_goat.Pipeline.Scanner.{scan_files}
use ping_goat.Pipeline.Parser.{parse_files}
use ping_goat.Pipeline.Batcher.{Batch, batch_files, ParsedFile}
use ping_goat.Config.{Config}
use ping_goat.Pipeline.Cloner.{CloneOptions, Workspace}
use ping_goat.Pipeline.Status.{status_parsing, status_generating, status_cloning}
use ping_goat.Pipeline.Message.{JobMessage}
use ping_goat.Session.{pure, ◌>>◌, require, with_db, arrive, signal, World}
use ping_goat.Pipeline.Worker.Advance.{RowIs, Advances, claim-Advances, set_status_to-Advances}
use ping_goat.Session.Calm.{IsCalm}
use ping_goat.Gemini.RateLimit.{RateLimiter, new_rate_limiter}
use ping_goat.Session.Guards.{require_passes}
use ping_goat.Database.{Job}
use ping_goat.Database.Jobs.{set_status, is_queued}
use ping_goat.Pipeline.Worker.{
  store_input, scan_failed, from_option, no_files, all_docs_failed, has_batches, new_generator,
  generated, doc_types, generate_docs, has_docs, generating_failed, parsing_failed, Machine,
  set_status_to, claim,
}

-- What `Clone` is asked for by a message.
abbrev pub clone_options : JobMessage → CloneOptions
clone_options msg = record { repo_url = msg.repo_url; branch = msg.branch; github_token = [] }

-- The stages of one job, each in the world that the one before leaves.
module _ (machine : Machine) (cfg : Config) (msg : JobMessage) (ws : Workspace) (job : Job)
    (w : World) (calm : IsCalm w) (ids : HasNewIds w.outside w.shared.db) (there : RowIs msg job w)
    (queued : is_queued job ≡ true) where
  claimed : Advances msg status_cloning job (claim msg) w
  claimed = claim-Advances msg job w calm there queued

  abbrev claimed_world : World
  claimed_world = arrive w (with_db w.shared claimed.db_after)

  abbrev cloned_world : World
  cloned_world = with_dir ws.dir claimed_world

  abbrev cloning_job : Job
  cloning_job = set_status status_cloning (signal w).now job

  parsing :
      Advances msg status_parsing cloning_job
        (set_status_to status_parsing msg parsing_failed)
        cloned_world
  parsing =
      set_status_to-Advances msg cloning_job cloned_world (λ n. calm (suc n)) claimed.row
        status_parsing parsing_failed

  abbrev parsed_world : World
  parsed_world = arrive cloned_world (with_db cloned_world.shared parsing.db_after)

  abbrev parsing_job : Job
  parsing_job = set_status status_parsing (signal cloned_world).now cloning_job

  generating :
      Advances msg status_generating parsing_job
        (set_status_to status_generating msg generating_failed)
        parsed_world
  generating =
      set_status_to-Advances msg parsing_job parsed_world (λ n. calm (suc (suc n))) parsing.row
        status_generating generating_failed

  abbrev generated_world : World
  generated_world = arrive parsed_world (with_db parsed_world.shared generating.db_after)

  module _ (limiter : RateLimiter) (paths : List GoString)
      (clones : Clones machine.git (clone_options msg) ws)
      (scanned : scan_files ws.dir machine.tree cfg.max_files_per_repo ≡ some paths)
      (some_file : parse_files machine.disk ws.dir paths ≢ []) (key : cfg.gemini_api_key ≢ [])
      (paced : new_rate_limiter cfg.gemini_rpm ≡ some limiter)
      (model : machine.has_model ≡ true) where
    abbrev files : List ParsedFile
    files = (batch_files (parse_files machine.disk ws.dir paths) cfg.max_tokens_per_batch).0

    abbrev docs : List StoredDoc
    docs = generate_docs machine files doc_types

    abbrev input : StoreInput
    input = store_input msg ws files docs
