-- ===== src/Pipeline/Worker/Protocol.antt =====
-- internal/pipeline/worker.go as one worker of the crew: its calls, one by one, are steps of it, or
-- the worker gives up.
use ping_goat.Common.{
  Bool, Bool-cases, List, Option, Option-cases, [], arith, false, inl, inr, none, refl, some,
  str_eq, sym, true, ℕ, ◌&&◌, ◌∙◌, ◌≡◌,
}
use ping_goat.Pipeline.Parser.{parse_files}
use ping_goat.Pipeline.Scanner.{scan_files}
use ping_goat.Config.{Config}
use ping_goat.Pipeline.Store.{complete_params, store_results, StoredDoc}
use ping_goat.Pipeline.Batcher.{batch_files, ParsedFile}
use ping_goat.Pipeline.Cloner.{clone, CloneOptions, remove_dir, Workspace}
use ping_goat.Database.Jobs.{set_completed, is_queued, set_status, update_job, set_job_status}
use ping_goat.Pipeline.Status.{status_cloning, status_generating, status_parsing}
use ping_goat.Gemini.RateLimit.{new_rate_limiter}
use ping_goat.Database.{count_rows}
use ping_goat.Session.{Exec, require}
use ping_goat.Session.Protocol.{Moves-local, Moves-or_else, Moves-bind, Moves-pure, Moves-raise}
use ping_goat.Pipeline.Cloner.Local.{clone-IsLocal}
use ping_goat.Pipeline.Store.Protocol.{store_results-Moves}
use ping_goat.Pipeline.Worker
use ping_goat.Pipeline.Message.{JobMessage}
use ping_goat.Pipeline.Workers.{
  store, resting, Stage, generate, Step, is_of, generating, cloning, parsing, underway, holding,
  Crew,
}
use ping_goat.Session.Protocol.{Signals}
use ping_goat.Pipeline.Workers.Protocol.{
  reaches_later, OthersAct, update_moves, after_rows, reaches_rest, Reaches, checked_moves, Goes,
}
use ping_goat.Pipeline.Worker.{
  no_files, has_batches, all_docs_failed, has_docs, doc_types, scan_failed, generate_docs,
  store_failed, clone_failed, model_failed, panicked, store_input, parsing_failed,
  generating_failed, from_option, Machine, run_stages, parse_stage, after_claim, new_generator,
  process_job, with_cleanup, generate_stage, not_found, update_failed, status_params, JobError,
  claim, set_status_to,
}

module _ (base : Crew) (i : ℕ) (K : Signals → Crew → Type 0) (others : OthersAct i K)
    (msg : JobMessage) where
  claim_moves : Goes base i K others (holding msg) (λ _. underway cloning msg) (claim msg)
  unfolding claim update_job
  claim_moves =
      checked_moves base i K others (holding msg) (underway cloning msg)
        (λ j. is_of msg j && is_queued j) (set_status status_cloning)
        (update_job (status_params status_cloning msg)) update_failed not_found
        (λ now uuid db. refl) (λ now t at found. Step.claim i msg now at found refl)

  parsing_moves :
      (failed : JobError)
      → Goes base i K others
          (underway cloning msg)
          (λ _. underway parsing msg)
          (set_status_to status_parsing msg failed)
  unfolding set_status_to set_job_status
  parsing_moves failed =
      checked_moves base i K others (underway cloning msg) (underway parsing msg) (is_of msg)
        (set_status status_parsing) (set_job_status (status_params status_parsing msg)) failed
        failed (λ now uuid db. refl) (λ now t at found. Step.parse i msg now at found refl)

  generating_moves :
      (failed : JobError)
      → Goes base i K others
          (underway parsing msg)
          (λ _. underway generating msg)
          (set_status_to status_generating msg failed)
  unfolding set_status_to set_job_status
  generating_moves failed =
      checked_moves base i K others (underway parsing msg) (underway generating msg) (is_of msg)
        (set_status status_generating) (set_job_status (status_params status_generating msg)) failed
        failed (λ now uuid db. refl) (λ now t at found. generate i msg now at found refl)

  -- What touches neither the tables nor the channel leaves the worker where it is.
  from_option_moves :
      {A : Type 0} (stage : Stage) (o : Option A) (e : JobError)
      → Goes base i K others stage (λ _. stage) (from_option o e)
  from_option_moves stage none e =
      Moves-raise (Reaches base i K others) resting (reaches_rest base i K others)
        (reaches_later base i K others) e
  from_option_moves stage (some a) e =
      Moves-pure (Reaches base i K others) resting (reaches_rest base i K others)
        (reaches_later base i K others) a tt

  require_moves :
      {E : Type 0} (stage : Stage) (b : Bool) (e : E)
      → Goes base i K others stage (λ _. stage) (require b e)
  require_moves stage true e =
      Moves-pure (Reaches base i K others) resting (reaches_rest base i K others)
        (reaches_later base i K others) tt tt
  require_moves stage false e =
      Moves-raise (Reaches base i K others) resting (reaches_rest base i K others)
        (reaches_later base i K others) e

  generated_moves :
      (stage : Stage) (b : Bool) (docs : List StoredDoc)
      → Goes base i K others stage (λ _. stage) (Worker.generated b docs)
  unfolding Worker.generated
  generated_moves stage false docs =
      Moves-raise (Reaches base i K others) resting (reaches_rest base i K others)
        (reaches_later base i K others) panicked
  generated_moves stage true docs =
      Moves-pure (Reaches base i K others) resting (reaches_rest base i K others)
        (reaches_later base i K others) docs tt

  new_generator_moves :
      (stage : Stage) (machine : Machine) (cfg : Config)
      → Goes base i K others stage (λ _. stage) (new_generator machine cfg)
  unfolding new_generator
  new_generator_moves stage machine cfg = elim (Bool-cases (str_eq cfg.gemini_api_key [])) [
    | inl no_key ↦ rw no_key (
        Moves-pure (Reaches base i K others) resting (reaches_rest base i K others)
          (reaches_later base i K others) false tt)
    | inr key ↦ elim (Option-cases (new_rate_limiter cfg.gemini_rpm)) [
      | inl never ↦
          rw (key, never)
            (Moves-raise (Reaches base i K others) resting (reaches_rest base i K others)
              (reaches_later base i K others) panicked)
      | inr (limiter, paced) ↦ elim (Bool-cases machine.has_model) [
        | inl model ↦
            rw (key, paced, model)
              (Moves-pure (Reaches base i K others) resting (reaches_rest base i K others)
                (reaches_later base i K others) true tt)
        | inr no_model ↦
            rw (key, paced, no_model)
              (Moves-raise (Reaches base i K others) resting (reaches_rest base i K others)
                (reaches_later base i K others) model_failed)
      ]
    ]
  ]

  parse_stage_moves :
      (machine : Machine) (cfg : Config) (ws : Workspace)
      → Goes base i K others
          (underway cloning msg)
          (λ _. underway parsing msg)
          (parse_stage machine cfg msg ws)
  unfolding parse_stage
  parse_stage_moves machine cfg ws =
      Moves-bind (Reaches base i K others) resting (reaches_rest base i K others)
        (reaches_later base i K others) (parsing_moves parsing_failed)
        (λ _ _.
          Moves-bind (Reaches base i K others) resting (reaches_rest base i K others)
            (reaches_later base i K others)
            (from_option_moves (underway parsing msg)
              (scan_files ws.dir machine.tree cfg.max_files_per_repo) scan_failed)
            (λ paths _.
              let parsed =
                batch_files (parse_files machine.disk ws.dir paths) cfg.max_tokens_per_batch in
              Moves-bind (Reaches base i K others) resting (reaches_rest base i K others)
                (reaches_later base i K others)
                (require_moves (underway parsing msg) (has_batches parsed.1) no_files)
                (λ _ _.
                  Moves-pure (Reaches base i K others) resting (reaches_rest base i K others)
                    (reaches_later base i K others) parsed.0 tt)))

  generate_stage_moves :
      (machine : Machine) (cfg : Config) (files : List ParsedFile)
      → Goes base i K others
          (underway parsing msg)
          (λ _. underway generating msg)
          (generate_stage machine cfg msg files)
  unfolding generate_stage
  generate_stage_moves machine cfg files =
      Moves-bind (Reaches base i K others) resting (reaches_rest base i K others)
        (reaches_later base i K others) (new_generator_moves (underway parsing msg) machine cfg)
        (λ has_generator _.
          Moves-bind (Reaches base i K others) resting (reaches_rest base i K others)
            (reaches_later base i K others) (generating_moves generating_failed)
            (λ _ _.
              Moves-bind (Reaches base i K others) resting (reaches_rest base i K others)
                (reaches_later base i K others)
                (generated_moves (underway generating msg) has_generator
                  (generate_docs machine files doc_types))
                (λ docs _.
                  Moves-bind (Reaches base i K others) resting (reaches_rest base i K others)
                    (reaches_later base i K others)
                    (require_moves (underway generating msg) (has_docs docs) all_docs_failed)
                    (λ _ _.
                      Moves-pure (Reaches base i K others) resting (reaches_rest base i K others)
                        (reaches_later base i K others) docs tt))))

  rests_anyway : (affected : ℕ) → after_rows base i K others resting affected ≡ resting
  rests_anyway affected = ground arith

  store_moves :
      (ws : Workspace) (files : List ParsedFile) (docs : List StoredDoc)
      → Goes base i K others
          (underway generating msg)
          (λ _. resting)
          (store_results (store_input msg ws files docs))
  store_moves ws files docs =
      store_results-Moves (Reaches base i K others) resting (reaches_rest base i K others)
        (reaches_later base i K others) (underway generating msg) (store_input msg ws files docs)
        (λ now o s db jobs now_at.
          let (t, run, same, rest, known) =
            update_moves base i K others (is_of msg)
              (set_completed (complete_params (store_input msg ws files docs)) now)
              (underway generating msg) resting
              (λ t at found.
                store i msg (store_input msg ws files docs) now at found refl refl refl)
              o s now_at in
          (t, run, same ∙ sym jobs, rest ∙ rests_anyway (count_rows (is_of msg) s.db.jobs), known))

  run_stages_moves :
      (machine : Machine) (cfg : Config) (ws : Workspace)
      → Goes base i K others (underway cloning msg) (λ _. resting) (run_stages machine cfg msg ws)
  unfolding run_stages
  run_stages_moves machine cfg ws =
      Moves-bind (Reaches base i K others) resting (reaches_rest base i K others)
        (reaches_later base i K others) (parse_stage_moves machine cfg ws)
        (λ files _.
          Moves-bind (Reaches base i K others) resting (reaches_rest base i K others)
            (reaches_later base i K others) (generate_stage_moves machine cfg files)
            (λ docs _.
              Moves-or_else (Reaches base i K others) resting (reaches_rest base i K others)
                (reaches_later base i K others) (λ _. store_failed) (store_moves ws files docs)))

  with_cleanup_moves :
      (stage : Stage) (removed : Bool) (ws : Workspace) (m : Exec JobError (Unit {0}))
      → Goes base i K others stage (λ _. resting) m
      → Goes base i K others stage (λ _. resting) (with_cleanup removed ws m)
  unfolding with_cleanup remove_dir
  with_cleanup_moves stage removed ws m first = record { at = λ w now_at. first.at w now_at }

  after_claim_moves :
      (machine : Machine) (cfg : Config)
      → Goes base i K others (underway cloning msg) (λ _. resting) (after_claim machine cfg msg)
  unfolding after_claim
  after_claim_moves machine cfg =
      let opts : CloneOptions = record {
        repo_url = msg.repo_url;
        branch = msg.branch;
        github_token = [];
      } in
      Moves-bind (Reaches base i K others) resting (reaches_rest base i K others)
        (reaches_later base i K others) {post = λ _. underway cloning msg}
        (Moves-or_else (Reaches base i K others) resting (reaches_rest base i K others)
          (reaches_later base i K others) (λ _. clone_failed)
          (Moves-local (Reaches base i K others) resting (reaches_rest base i K others)
            (reaches_later base i K others) (clone machine.git opts)
            (λ w. ((clone-IsLocal machine.git opts).at w).0)
            (λ w. ((clone-IsLocal machine.git opts).at w).1)))
        (λ ws _.
          with_cleanup_moves (underway cloning msg) machine.git.remove_all ws
            (run_stages machine cfg msg ws) (run_stages_moves machine cfg ws))

  pub process_job_moves :
      (machine : Machine) (cfg : Config)
      → Goes base i K others (holding msg) (λ _. resting) (process_job machine cfg msg)
  unfolding process_job
  process_job_moves machine cfg =
      Moves-bind (Reaches base i K others) resting (reaches_rest base i K others)
        (reaches_later base i K others) claim_moves (λ _ _. after_claim_moves machine cfg)
