-- ===== src/Pipeline/Worker.antt =====
-- internal/pipeline/worker.go
pub mod Invariant
pub mod Lifecycle
pub mod Claimed
pub mod Keyless
pub mod Cleanup
pub mod Advance
pub mod Stages
pub mod Success
pub mod Protocol
pub mod Refines
pub mod Fixtures
mod Tests
use ping_goat.Common.{
  Bool, GoString, List, Option, Result, [], err, false, if◌then◌else◌, length, none, not, ok, pos,
  some, str_eq, to_int32, true, ◌==◌, ◌∷◌,
}
use ping_goat.Database.Jobs.{StatusParams, update_job, set_job_status}
use ping_goat.Pipeline.Batcher.{Batch, ParsedFile, batch_files}
use ping_goat.Pipeline.Prompt.{build_prompt}
use ping_goat.Pipeline.Store.{StoreInput, store_results, StoredDoc}
use ping_goat.Pipeline.Message.{JobMessage}
use ping_goat.Session.{
  ◌>>◌, query, ◌>>◌, ◌>>◌, or_else, require, ◌>>=◌, ◌>>◌, pure, raise, World, Exec,
}
use ping_goat.Pipeline.Parser.{parse_files, Disk}
use ping_goat.Gemini.RateLimit.{new_rate_limiter}
use ping_goat.Gemini.{
  diagram, GenResult, quick_start, Yield, readme, GenError, adk_generate, DocType,
}
use ping_goat.Config.{Config}
use ping_goat.Pipeline.Cloner.{Workspace, Git, clone, remove_dir}
use ping_goat.Pipeline.Scanner.{Node, scan_files}
use ping_goat.Pipeline.Status.{status_cloning, status_parsing, status_generating}

-- What the machine and the model do while one job is processed.
pub record Machine : Type 0 where
  pub git : Git
  -- The tree below the directory of the clone, and its contents.
  pub tree : Node
  pub disk : Disk
  -- Whether gemini.NewModel succeeds.
  pub has_model : Bool
  -- Whether the rate limiter ticks before the context ends, and what the model yields for a prompt.
  pub ticked : DocType → Bool
  pub generate_content : GoString → List Yield

pub data JobError : Type 0 where
  update_failed not_found clone_failed parsing_failed scan_failed no_files model_failed : JobError
  generating_failed all_docs_failed store_failed : JobError
  -- A call of a method on a nil interface, or a ticker with no interval: the process ends.
  panicked : JobError

abbrev pub status_params : GoString → JobMessage → StatusParams
status_params status msg = record { status = status; id = msg.job_id; user_id = msg.user_id }

-- `SetJobStatus`, its error, and its row count of 0.
pub set_status_to : GoString → JobMessage → JobError → Exec JobError (Unit {0})
set_status_to status msg failed = do
  affected ← or_else (query (set_job_status (status_params status msg))) (λ _. failed)
  require (not (affected == 0)) failed

-- `UpdateJob`: the claim of a queued job.
pub claim : JobMessage → Exec JobError (Unit {0})
claim msg = do
  affected ← or_else (query (update_job (status_params status_cloning msg))) (λ _. update_failed)
  require (not (affected == 0)) not_found

abbrev from_option : {A : Type 0} → Option A → JobError → Exec JobError A
from_option none e = raise e
from_option (some a) e = pure a

-- `gen`: nil without an API key.
new_generator : Machine → Config → Exec JobError Bool
unfolding str_eq new_rate_limiter
new_generator machine cfg =
    if str_eq cfg.gemini_api_key [] then pure false else elim (new_rate_limiter cfg.gemini_rpm) [
      | none ↦ raise panicked
      | some limiter ↦ if machine.has_model then pure true else raise model_failed
    ]

abbrev pub keep_doc : DocType → Result GenError GenResult → List StoredDoc → List StoredDoc
keep_doc doc (ok res) docs = record { doc_type = doc; result = res } ∷ docs
keep_doc doc (err e) docs = docs

-- The loop over the document types: one call each, whose failure skips the document.
pub generate_docs : Machine → List ParsedFile → List DocType → List StoredDoc
unfolding adk_generate build_prompt
generate_docs machine files [] = []
generate_docs machine files (doc ∷ docs) =
    keep_doc doc
      (adk_generate (machine.ticked doc) machine.generate_content (build_prompt files doc))
      (generate_docs machine files docs)

abbrev pub doc_types : List DocType
doc_types = readme ∷ quick_start ∷ diagram ∷ []

-- Calling a nil generator panics at the first document.
generated : Bool → List StoredDoc → Exec JobError (List StoredDoc)
generated false docs = raise panicked
generated true docs = pure docs

abbrev has_docs : List StoredDoc → Bool
has_docs [] = false
has_docs (_ ∷ _) = true

-- `len(batches) > 0`: the batches are only counted.
has_batches : List Batch → Bool
has_batches batches = not (length batches == 0)

-- From the clone to the batches. BatchFiles sorts the parsed files in place.
pub parse_stage : Machine → Config → JobMessage → Workspace → Exec JobError (List ParsedFile)
unfolding set_status_to scan_files parse_files batch_files has_batches
parse_stage machine cfg msg ws = do
  set_status_to status_parsing msg parsing_failed
  paths ← from_option (scan_files ws.dir machine.tree cfg.max_files_per_repo) scan_failed
  let parsed = batch_files (parse_files machine.disk ws.dir paths) cfg.max_tokens_per_batch
  require (has_batches parsed.1) no_files
  pure parsed.0

-- The generator, and the loop over the documents.
pub generate_stage :
    Machine → Config → JobMessage → List ParsedFile → Exec JobError (List StoredDoc)
unfolding set_status_to new_generator generate_docs generated
generate_stage machine cfg msg files = do
  has_generator ← new_generator machine cfg
  set_status_to status_generating msg generating_failed
  docs ← generated has_generator (generate_docs machine files doc_types)
  require (has_docs docs) all_docs_failed
  pure docs

-- What is stored of a job.
abbrev pub store_input : JobMessage → Workspace → List ParsedFile → List StoredDoc → StoreInput
store_input msg ws files docs = record {
  job_id = msg.job_id;
  user_id = msg.user_id;
  repo_url = msg.repo_url;
  commit_sha = ws.commit_sha;
  file_count = to_int32 (pos (length files));
  gemini_calls_used = to_int32 (pos (length docs));
  docs = docs;
}

-- From the clone on.
run_stages : Machine → Config → JobMessage → Workspace → Exec JobError (Unit {0})
unfolding parse_stage generate_stage
run_stages machine cfg msg ws = do
  files ← parse_stage machine cfg msg ws
  docs ← generate_stage machine cfg msg files
  or_else (store_results (store_input msg ws files docs)) (λ _. store_failed)

-- `defer ws.Cleanup()`: on every way out, that of a panic included.
with_cleanup : Bool → Workspace → Exec JobError (Unit {0}) → Exec JobError (Unit {0})
unfolding remove_dir
with_cleanup removed ws m w =
    let (r, w') = m w in (r, (remove_dir {E = JobError} removed ws.dir w').1)

pub after_claim : Machine → Config → JobMessage → Exec JobError (Unit {0})
unfolding clone with_cleanup run_stages
after_claim machine cfg msg = do
  ws ←
      or_else
        (clone machine.git
          (record { repo_url = msg.repo_url; branch = msg.branch; github_token = [] }))
        (λ _. clone_failed)
  with_cleanup machine.git.remove_all ws (run_stages machine cfg msg ws)

unfoldable pub process_job : Machine → Config → JobMessage → Exec JobError (Unit {0})
unfolding claim after_claim
process_job machine cfg msg = do claim msg; after_claim machine cfg msg

abbrev is_panic : Result JobError (Unit {0}) → Bool
is_panic (err panicked) = true
is_panic _ = false

-- `StartWorker` on the messages that it receives before the channel is closed, each with what the
-- machine does for it. An error is logged and the next message taken; a panic ends the process.
pub start_worker : Config → List (Machine × JobMessage) → World → Bool × World
start_worker cfg [] w = (true, w)
start_worker cfg ((machine, msg) ∷ rest) w =
    let (r, w') = process_job machine cfg msg w in
    let next = start_worker cfg rest w' in if is_panic r then (false, w') else next
