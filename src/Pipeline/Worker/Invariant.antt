-- ===== src/Pipeline/Worker/Invariant.antt =====
-- Rules by which internal/pipeline/worker.go keeps a property of the tables and the channel.
use ping_goat.Gemini.RateLimit.{new_rate_limiter}
use ping_goat.Common.{
  Bool, Bool-cases, GoString, List, Option, Option-cases, [], false, inl, inr, none, not, refl,
  some, str_eq, true, ℕ, ◌==◌,
}
use ping_goat.Pipeline.Parser.{parse_files}
use ping_goat.Pipeline.Scanner.{scan_files}
use ping_goat.Pipeline.Batcher.{batch_files, ParsedFile}
use ping_goat.Database.Jobs.{update_job, set_job_status}
use ping_goat.Pipeline.Cloner.Local.{clone-Ensures}
use ping_goat.Pipeline.Status.{status_cloning, status_generating, status_parsing}
use ping_goat.Database.WellFormed.{IsUnderway}
use ping_goat.Session.{with_db, Shared, require, query, or_else, ◌>>=◌, Exec}
use ping_goat.Session.Keeps.{
  Ensures-weaken, StmtKeeps-of, Ensures-query, Ensures-require, Ensures-or_else, Ensures-bind,
  Ensures-raise, Ensures-pure, Ensures,
}
use ping_goat.Pipeline.Message.{JobMessage}
use ping_goat.Config.{Config}
use ping_goat.Database.{DbError, Uuid, Time, Stmt}
use ping_goat.Pipeline.Cloner.{Workspace}
use ping_goat.Pipeline.Store.{StoredDoc}
use ping_goat.Pipeline.Worker.{
  after_claim, status_params, has_batches, doc_types, generate_docs, parse_stage, generate_stage,
  store_input, store_failed, all_docs_failed, generating_failed, no_files, scan_failed,
  parsing_failed, clone_failed, panicked, not_found, model_failed, update_failed, Machine, JobError,
  set_status_to, claim, from_option, new_generator, generated, has_docs, run_stages, with_cleanup,
  process_job,
}
use ping_goat.Pipeline.Store.Atomic.{KeptByStore, store_results-Ensures}

-- The statements that the worker makes for a message keep a property of the shared state.
pub record KeptByWorker (P : Shared → Type 0) (msg : JobMessage) : Type 0 where
  pub claimed :
      (now : Time) (uuid : Uuid) (s : Shared)
      → P s
      → P (with_db s (update_job (status_params status_cloning msg) now uuid s.db).0)
  pub status :
      (status : GoString) (now : Time) (uuid : Uuid) (s : Shared)
      → IsUnderway status
      → P s
      → P (with_db s (set_job_status (status_params status msg) now uuid s.db).0)
  pub stored :
      (ws : Workspace) (files : List ParsedFile) (docs : List StoredDoc)
      → KeptByStore P (store_input msg ws files docs)

module _ (P : Shared → Type 0) (msg : JobMessage) (kept : KeptByWorker P msg) where
  -- The row count behind a change of status, and the early return on 0.
  stage-Ensures :
      (stmt : Stmt ℕ) (failed none_hit : JobError)
      → ((now : Time) (uuid : Uuid) (s : Shared) → P s → P (with_db s (stmt now uuid s.db).0))
      → Ensures P
          (λ _. Unit {0})
          (do
            affected ← or_else (query stmt) (λ (_ : DbError). failed)
            require (not (affected == 0)) none_hit)
  stage-Ensures stmt failed none_hit keep =
      Ensures-bind P
        (Ensures-or_else P (λ _. failed) (Ensures-query P stmt (StmtKeeps-of P stmt keep)))
        (λ affected _.
          Ensures-weaken P (λ _ _. tt) (Ensures-require P (not (affected == 0)) none_hit))

  set_status_to-Ensures :
      (status : GoString) (failed : JobError)
      → IsUnderway status
      → Ensures P (λ _. Unit {0}) (set_status_to status msg failed)
  unfolding set_status_to
  set_status_to-Ensures status failed u =
      stage-Ensures (set_job_status (status_params status msg)) failed failed
        (λ now uuid s. kept.status status now uuid s u)

  claim-Ensures : Ensures P (λ _. Unit {0}) (claim msg)
  unfolding claim
  claim-Ensures =
      stage-Ensures (update_job (status_params status_cloning msg)) update_failed not_found
        kept.claimed

  from_option-Ensures :
      {A : Type 0} (o : Option A) (e : JobError) → Ensures P (λ _. Unit {0}) (from_option o e)
  from_option-Ensures none e = Ensures-raise P e
  from_option-Ensures (some a) e = Ensures-pure P a tt

  new_generator-Ensures :
      (machine : Machine) (cfg : Config) → Ensures P (λ _. Unit {0}) (new_generator machine cfg)
  unfolding new_generator
  new_generator-Ensures machine cfg = elim (Bool-cases (str_eq cfg.gemini_api_key [])) [
    | inl no_key ↦ rw no_key (Ensures-pure P false tt)
    | inr key ↦ elim (Option-cases (new_rate_limiter cfg.gemini_rpm)) [
      | inl never ↦ rw (key, never) (Ensures-raise P panicked)
      | inr (limiter, paced) ↦ elim (Bool-cases machine.has_model) [
        | inl model ↦ rw (key, paced, model) (Ensures-pure P true tt)
        | inr no_model ↦ rw (key, paced, no_model) (Ensures-raise P model_failed)
      ]
    ]
  ]

  generated-Ensures :
      (b : Bool) (docs : List StoredDoc) → Ensures P (λ _. Unit {0}) (generated b docs)
  unfolding generated
  generated-Ensures false docs = Ensures-raise P panicked
  generated-Ensures true docs = Ensures-pure P docs tt

  parse_stage-Ensures :
      (machine : Machine) (cfg : Config) (ws : Workspace)
      → Ensures P (λ _. Unit {0}) (parse_stage machine cfg msg ws)
  unfolding parse_stage
  parse_stage-Ensures machine cfg ws =
      Ensures-bind P (set_status_to-Ensures status_parsing parsing_failed (inr (inl refl))) (λ _ _.
        Ensures-bind P
          (from_option-Ensures (scan_files ws.dir machine.tree cfg.max_files_per_repo) scan_failed)
          (λ paths _.
            let parsed =
              batch_files (parse_files machine.disk ws.dir paths) cfg.max_tokens_per_batch in
            Ensures-bind P (Ensures-require P (has_batches parsed.1) no_files)
              (λ _ _. Ensures-pure P parsed.0 tt)))

  generate_stage-Ensures :
      (machine : Machine) (cfg : Config) (files : List ParsedFile)
      → Ensures P (λ _. Unit {0}) (generate_stage machine cfg msg files)
  unfolding generate_stage
  generate_stage-Ensures machine cfg files =
      Ensures-bind P (new_generator-Ensures machine cfg) (λ has_generator _.
        Ensures-bind P (set_status_to-Ensures status_generating generating_failed (inr (inr refl)))
          (λ _ _.
            Ensures-bind P (generated-Ensures has_generator (generate_docs machine files doc_types))
              (λ docs _.
                Ensures-bind P (Ensures-require P (has_docs docs) all_docs_failed)
                  (λ _ _. Ensures-pure P docs tt))))

  run_stages-Ensures :
      (machine : Machine) (cfg : Config) (ws : Workspace)
      → Ensures P (λ _. Unit {0}) (run_stages machine cfg msg ws)
  unfolding run_stages
  run_stages-Ensures machine cfg ws =
      Ensures-bind P (parse_stage-Ensures machine cfg ws) (λ files _.
        Ensures-bind P (generate_stage-Ensures machine cfg files) (λ docs _.
          Ensures-or_else P (λ _. store_failed)
            (store_results-Ensures P (store_input msg ws files docs) (kept.stored ws files docs))))

  with_cleanup-Ensures :
      (removed : Bool) (ws : Workspace) (m : Exec JobError (Unit {0}))
      → Ensures P (λ _. Unit {0}) m
      → Ensures P (λ _. Unit {0}) (with_cleanup removed ws m)
  unfolding with_cleanup
  with_cleanup-Ensures removed ws m h = record { at = λ w holds. h.at w holds }

  pub after_claim-Ensures :
      (machine : Machine) (cfg : Config) → Ensures P (λ _. Unit {0}) (after_claim machine cfg msg)
  unfolding after_claim
  after_claim-Ensures machine cfg =
      Ensures-bind P
        (Ensures-or_else P (λ _. clone_failed)
          (clone-Ensures P machine.git
            (record { repo_url = msg.repo_url; branch = msg.branch; github_token = [] })))
        (λ ws _.
          with_cleanup-Ensures machine.git.remove_all ws (run_stages machine cfg msg ws)
            (run_stages-Ensures machine cfg ws))

  -- What the worker's statements keep, `processJob` keeps, however the job goes, and whatever the
  -- others do meanwhile.
  pub process_job-Ensures :
      (machine : Machine) (cfg : Config) → Ensures P (λ _. Unit {0}) (process_job machine cfg msg)
  unfolding process_job
  process_job-Ensures machine cfg =
      Ensures-bind P claim-Ensures (λ _ _. after_claim-Ensures machine cfg)
