-- ===== src/Pipeline/Worker/Stages.antt =====
-- How the stages of internal/pipeline/worker.go end well.
use ping_goat.Common.{
  GoString, List, [], ap, arith, ok, refl, some, str_eq-nil, true, ◌∙◌, ◌∷◌, ◌≡◌, ◌≢◌,
}
use ping_goat.Pipeline.Batcher.Partition.{batch_files_some}
use ping_goat.Pipeline.Store.{StoredDoc}
use ping_goat.Pipeline.Scanner.{scan_files}
use ping_goat.Pipeline.Parser.{parse_files}
use ping_goat.Pipeline.Batcher.{Batch, batch_files, ParsedFile}
use ping_goat.Config.{Config}
use ping_goat.Pipeline.Cloner.{Workspace}
use ping_goat.Pipeline.Status.{status_parsing, status_generating}
use ping_goat.Pipeline.Message.{JobMessage}
use ping_goat.Session.{pure, ◌>>◌, require, ◌>>=◌, Exec, World}
use ping_goat.Gemini.RateLimit.{RateLimiter, new_rate_limiter}
use ping_goat.Session.Guards.{bind_ok, require_passes}
use ping_goat.Pipeline.Worker.{
  scan_failed, from_option, no_files, all_docs_failed, has_batches, new_generator, generated,
  doc_types, generate_docs, has_docs, generating_failed, parsing_failed, generate_stage,
  parse_stage, Machine, set_status_to, JobError,
}

has_batches_some : (batches : List Batch) → batches ≢ [] → has_batches batches ≡ true
unfolding has_batches
has_batches_some [] h = absurd (h refl)
has_batches_some (b ∷ bs) h = ground arith

has_docs_some : (docs : List StoredDoc) → docs ≢ [] → has_docs docs ≡ true
has_docs_some [] h = absurd (h refl)
has_docs_some (d ∷ ds) h = refl

module _ (machine : Machine) (cfg : Config) (msg : JobMessage) where
  new_generator_runs :
      (limiter : RateLimiter) (w : World)
      → cfg.gemini_api_key ≢ []
      → new_rate_limiter cfg.gemini_rpm ≡ some limiter
      → machine.has_model ≡ true
      → new_generator machine cfg w ≡ (ok true, w)
  unfolding new_generator
  new_generator_runs limiter w key paced model =
      let k = str_eq-nil cfg.gemini_api_key key in rw (k, paced, model) refl

  pub parse_stage_runs :
      (ws : Workspace) (paths : List GoString) (w v : World)
      → set_status_to status_parsing msg parsing_failed w ≡ (ok tt, v)
      → scan_files ws.dir machine.tree cfg.max_files_per_repo ≡ some paths
      → parse_files machine.disk ws.dir paths ≢ []
      → parse_stage machine cfg msg ws w
        ≡ (ok (batch_files (parse_files machine.disk ws.dir paths) cfg.max_tokens_per_batch).0, v)
  unfolding parse_stage
  parse_stage_runs ws paths w v runs scanned some_file =
      let packed : List GoString → List ParsedFile × List Batch =
        λ paths. batch_files (parse_files machine.disk ws.dir paths) cfg.max_tokens_per_batch in
      let pack : List GoString → Exec JobError (List ParsedFile) = λ paths.
        require {E = JobError} (has_batches (packed paths).1) no_files >> pure (packed paths).0 in
      bind_ok (set_status_to status_parsing msg parsing_failed)
        (λ _.
          from_option (scan_files ws.dir machine.tree cfg.max_files_per_repo) scan_failed >>= pack)
        w v tt runs
      ∙ ap (λ o. (from_option o scan_failed >>= pack) v) scanned
      ∙ require_passes (has_batches (packed paths).1) no_files (pure (packed paths).0) v (
          has_batches_some (packed paths).1 (
            batch_files_some (parse_files machine.disk ws.dir paths) cfg.max_tokens_per_batch
              some_file))

  pub generate_stage_runs :
      (limiter : RateLimiter) (files : List ParsedFile) (w v : World)
      → set_status_to status_generating msg generating_failed w ≡ (ok tt, v)
      → cfg.gemini_api_key ≢ []
      → new_rate_limiter cfg.gemini_rpm ≡ some limiter
      → machine.has_model ≡ true
      → generate_docs machine files doc_types ≢ []
      → generate_stage machine cfg msg files w ≡ (ok (generate_docs machine files doc_types), v)
  unfolding generate_stage generated
  generate_stage_runs limiter files w v runs key paced model some_doc =
      let docs = generate_docs machine files doc_types in
      let check : List StoredDoc → Exec JobError (List StoredDoc) =
        λ docs. require {E = JobError} (has_docs docs) all_docs_failed >> pure docs in
      bind_ok (new_generator machine cfg)
        (λ has.
          set_status_to status_generating msg generating_failed >> (generated has docs >>= check))
        w w true (new_generator_runs limiter w key paced model)
      ∙ bind_ok (set_status_to status_generating msg generating_failed)
          (λ _. generated true docs >>= check) w v tt runs
      ∙ require_passes (has_docs docs) all_docs_failed (pure docs) v (has_docs_some docs some_doc)
