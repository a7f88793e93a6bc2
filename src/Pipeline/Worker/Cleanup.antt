-- ===== src/Pipeline/Worker/Cleanup.antt =====
-- The temporary directories of a job: what `defer ws.Cleanup()` in internal/pipeline/worker.go removes.
use mathlib.Core.Path.{subst}
use ping_goat.Gemini.RateLimit.{new_rate_limiter}
use ping_goat.Common.{
  Bool, GoString, List, Option, Option-cases, Result, [], arith, err, false, inl, inr, none, not,
  ok, refl, some, sym, true, ◌==◌, ◌∙◌,
}
use ping_goat.Pipeline.Status.{status_parsing, status_generating, status_cloning}
use ping_goat.Pipeline.Parser.{parse_files}
use ping_goat.Database.Jobs.{update_job}
use ping_goat.Config.{Config}
use ping_goat.Pipeline.Batcher.{ParsedFile, batch_files}
use ping_goat.Pipeline.Message.{JobMessage}
use ping_goat.Pipeline.Scanner.{scan_files}
use ping_goat.Pipeline.Store.{StoredDoc}
use ping_goat.Pipeline.Store.Frames.{store_results-Frames}
use ping_goat.Pipeline.Cloner.{Workspace, clone, CloneError, CloneOptions, remove_dir}
use ping_goat.Pipeline.Cloner.Dirs.{
  remove_tidies, IsTidy-refl, IsTidy, IsFresh, Leaves, clone-Leaves,
}
use ping_goat.Session.{World, or_else, ◌>>=◌}
use ping_goat.Session.Frames.{
  Frames, Frames-pure, Frames-bind, Frames-raise, Frames-or_else, Frames-require, Frames-query,
}
use ping_goat.Pipeline.Worker.{
  Machine, JobError, process_job, after_claim, run_stages, with_cleanup, generate_stage, generated,
  parse_stage, claim, set_status_to, new_generator, from_option, clone_failed, scan_failed,
  no_files, has_batches, parsing_failed, generating_failed, all_docs_failed, has_docs, doc_types,
  generate_docs, store_failed, store_input, update_failed, not_found, status_params,
}

set_status_to-Frames :
    (status : GoString) (msg : JobMessage) (e : JobError) → Frames (set_status_to status msg e)
unfolding set_status_to
set_status_to-Frames status msg e =
    Frames-bind (Frames-or_else _ (Frames-query _)) (λ affected. Frames-require _ e)

from_option-Frames : {A : Type 0} (o : Option A) (e : JobError) → Frames (from_option o e)
from_option-Frames none e = Frames-raise e
from_option-Frames (some a) e = Frames-pure a

new_generator-Frames : (machine : Machine) (cfg : Config) → Frames (new_generator machine cfg)
unfolding new_generator
new_generator-Frames machine cfg = record {
  at = λ w. elim (Option-cases (new_rate_limiter cfg.gemini_rpm)) [
    | inl never ↦ rw never (ground arith)
    | inr (limiter, paced) ↦ rw paced (ground arith)
  ];
}

generated-Frames : (has : Bool) (docs : List StoredDoc) → Frames (generated has docs)
unfolding generated
generated-Frames false docs = record { at = λ w. refl }
generated-Frames true docs = Frames-pure docs

module _ (machine : Machine) (cfg : Config) (msg : JobMessage) where
  parse_stage-Frames : (ws : Workspace) → Frames (parse_stage machine cfg msg ws)
  unfolding parse_stage
  parse_stage-Frames ws = Frames-bind (set_status_to-Frames status_parsing msg parsing_failed) (λ _.
      Frames-bind
        (from_option-Frames (scan_files ws.dir machine.tree cfg.max_files_per_repo) scan_failed)
        (λ paths.
          let parsed =
            batch_files (parse_files machine.disk ws.dir paths) cfg.max_tokens_per_batch in
          Frames-bind (Frames-require (has_batches parsed.1) no_files) (λ _. Frames-pure parsed.0)))

  generate_stage-Frames : (files : List ParsedFile) → Frames (generate_stage machine cfg msg files)
  unfolding generate_stage
  generate_stage-Frames files = Frames-bind (new_generator-Frames machine cfg) (λ has.
      Frames-bind (set_status_to-Frames status_generating msg generating_failed) (λ _.
        Frames-bind (generated-Frames has (generate_docs machine files doc_types)) (λ docs.
          Frames-bind (Frames-require (has_docs docs) all_docs_failed) (λ _. Frames-pure docs))))

  run_stages-Frames : (ws : Workspace) → Frames (run_stages machine cfg msg ws)
  unfolding run_stages
  run_stages-Frames ws = Frames-bind (parse_stage-Frames ws) (λ files.
      Frames-bind (generate_stage-Frames files) (λ docs.
        Frames-or_else (λ _. store_failed) (store_results-Frames (store_input msg ws files docs))))

claim-Frames : (msg : JobMessage) → Frames (claim msg)
unfolding claim
claim-Frames msg =
    Frames-bind
      (Frames-or_else (λ _. update_failed)
        (Frames-query (update_job (status_params status_cloning msg))))
      (λ affected. Frames-require (not (affected == 0)) not_found)

dirs_after :
    (machine : Machine) (cfg : Config) (msg : JobMessage) (r : Result CloneError Workspace)
    (w : World) (before : List GoString)
    → Leaves machine.git before r w.temp_dirs
    → IsFresh machine.git before
    → let (r', w') =
        (or_else (λ _. (r, w)) (λ _. clone_failed) >>= λ ws.
        with_cleanup machine.git.remove_all ws (run_stages machine cfg msg ws))
          w in
      IsTidy machine.git.remove_all machine.git.mkdir_temp before w'.temp_dirs
unfolding with_cleanup remove_dir
dirs_after machine cfg msg (err e) w before same fresh = same
dirs_after machine cfg msg (ok ws) w before (made, same) fresh =
    remove_tidies machine.git.remove_all machine.git.mkdir_temp ws.dir before _ made
      (fresh ws.dir made) ((run_stages-Frames machine cfg msg ws).at w ∙ same)

after_claim_dirs :
    (machine : Machine) (cfg : Config) (msg : JobMessage) (r : Result JobError (Unit {0}))
    (w : World)
    → IsFresh machine.git w.temp_dirs
    → let (r', w') = ((λ _. (r, w)) >>= λ (_ : Unit {0}). after_claim machine cfg msg) w in
      IsTidy machine.git.remove_all machine.git.mkdir_temp w.temp_dirs w'.temp_dirs
unfolding after_claim
after_claim_dirs machine cfg msg (err e) w fresh =
    IsTidy-refl machine.git.remove_all machine.git.mkdir_temp w.temp_dirs
after_claim_dirs machine cfg msg (ok _) w fresh =
    let opts : CloneOptions = record {
      repo_url = msg.repo_url;
      branch = msg.branch;
      github_token = [];
    } in
    dirs_after machine cfg msg (clone machine.git opts w).0 (clone machine.git opts w).1 w.temp_dirs
      (clone-Leaves machine.git opts w fresh) fresh

-- However a job ends, a panic included, every other temporary directory is still there, and its own is
-- gone if os.RemoveAll succeeds, and the only one to be left if that fails, provided that the directory
-- that os.MkdirTemp makes was not there before.
pub process_job_dirs :
    (machine : Machine) (cfg : Config) (msg : JobMessage) (w : World)
    → IsFresh machine.git w.temp_dirs
    → IsTidy machine.git.remove_all machine.git.mkdir_temp w.temp_dirs
        (process_job machine cfg msg w).1.temp_dirs
unfolding process_job
process_job_dirs machine cfg msg w fresh =
    let same = (claim-Frames msg).at w in
    subst
      (λ dirs.
        IsTidy machine.git.remove_all machine.git.mkdir_temp dirs
          (process_job machine cfg msg w).1.temp_dirs)
      same
      (after_claim_dirs machine cfg msg (claim msg w).0 (claim msg w).1
        (subst (IsFresh machine.git) (sym same) fresh))
