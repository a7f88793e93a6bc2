-- ===== src/Pipeline/Worker/Keyless.antt =====
-- internal/pipeline/worker.go without GEMINI_API_KEY: the generator stays nil.
use ping_goat.Common.{Bool, List, Result, [], err, false, ok, refl, str_eq, ◌≡◌, ◌≢◌}
use ping_goat.Config.{Config}
use ping_goat.Pipeline.Store.{StoredDoc, store_results}
use ping_goat.Pipeline.Message.{JobMessage}
use ping_goat.Pipeline.Cloner.{Workspace}
use ping_goat.Pipeline.Batcher.{ParsedFile}
use ping_goat.Session.{◌>>◌, require, pure, raise, Exec, World, ◌>>=◌, or_else}
use ping_goat.Pipeline.Worker.{
  JobError, store_failed, store_input, all_docs_failed, has_docs, claim, Machine, process_job,
  after_claim, run_stages, with_cleanup, generate_stage, generated, new_generator, panicked,
}

-- The action does not end well, in any world.
record Fails {E A : Type 0} (m : Exec E A) : Type 0 where
  at : (w : World) (a : A) → (m w).0 ≢ ok a

bind-Fails_at :
    {E A B : Type 0} (r : Result E A) (w : World) (f : A → Exec E B)
    → ((a : A) → r ≡ ok a → Fails (f a))
    → (b : B) → let (r', w') = ((λ _. (r, w)) >>= f) w in r' ≢ ok b
bind-Fails_at (ok a) w f h b = (h a refl).at w b
bind-Fails_at (err e) w f h b = λ p. cc p

Fails-bind :
    {E A B : Type 0} (m : Exec E A) (f : A → Exec E B) → ((a : A) → Fails (f a)) → Fails (m >>= f)
Fails-bind m f h = record { at = λ w b. bind-Fails_at (m w).0 (m w).1 f (λ a _. h a) b }

Fails-bind_first : {E A B : Type 0} (m : Exec E A) (f : A → Exec E B) → Fails m → Fails (m >>= f)
Fails-bind_first m f h = record {
  at = λ w b. bind-Fails_at (m w).0 (m w).1 f (λ a e. absurd (h.at w a e)) b;
}

Fails-raise : {E A : Type 0} (e : E) → Fails {A = A} (raise e)
Fails-raise e = record { at = λ w a p. cc p }

module _ (machine : Machine) (cfg : Config) (msg : JobMessage) where
  no_generator : cfg.gemini_api_key ≡ [] → new_generator machine cfg ≡ pure false
  unfolding new_generator str_eq
  no_generator e = rw e refl

  generate_stage-Fails :
      cfg.gemini_api_key ≡ []
      → (files : List ParsedFile) → Fails (generate_stage machine cfg msg files)
  unfolding generate_stage generated
  generate_stage-Fails e files = rw (no_generator e) (
      Fails-bind _ _ (λ _.
        Fails-bind_first {A = List StoredDoc} (raise panicked)
          (λ docs. require (has_docs docs) all_docs_failed >> pure docs) (Fails-raise panicked)))

  run_stages-Fails :
      cfg.gemini_api_key ≡ [] → (ws : Workspace) → Fails (run_stages machine cfg msg ws)
  unfolding run_stages
  run_stages-Fails e ws = Fails-bind _ _ (λ files.
      Fails-bind_first (generate_stage machine cfg msg files)
        (λ docs. or_else (store_results (store_input msg ws files docs)) (λ _. store_failed))
        (generate_stage-Fails e files))

  with_cleanup-Fails :
      (removed : Bool) (ws : Workspace) (m : Exec JobError (Unit {0}))
      → Fails m
      → Fails (with_cleanup removed ws m)
  unfolding with_cleanup
  with_cleanup-Fails removed ws m h = record { at = λ w a. h.at w a }

  after_claim-Fails : cfg.gemini_api_key ≡ [] → Fails (after_claim machine cfg msg)
  unfolding after_claim
  after_claim-Fails e = Fails-bind _ _ (λ ws.
      with_cleanup-Fails machine.git.remove_all ws (run_stages machine cfg msg ws)
        (run_stages-Fails e ws))

-- Without a key no job ends well, whatever the machine and the world do.
pub process_job_keyless :
    (machine : Machine) (cfg : Config) (msg : JobMessage) (w : World)
    → cfg.gemini_api_key ≡ []
    → (process_job machine cfg msg w).0 ≢ ok tt
unfolding process_job
process_job_keyless machine cfg msg w e =
    (Fails-bind (claim msg) _ (λ _. after_claim-Fails machine cfg msg e)).at w tt
