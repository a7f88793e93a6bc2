-- ===== src/Pipeline/Cloner/Success.antt =====
-- How internal/pipeline/cloner.go clones a repository.
use ping_goat.Common.{GoString, ap, ok, refl, some, true, ◌∙◌, ◌∷◌, ◌≡◌}
use ping_goat.Session.Guards.{bind_ok, require_passes}
use ping_goat.Session.{◌>>=◌, World}
use ping_goat.Pipeline.Cloner.{
  invalid_repo_url, is_sha, succeeded, clone_args, rev_parse_args, make_dir, clone, resolve_head,
  valid_repo_url, after_clone, Workspace, CloneOptions, Git,
}
use ping_goat.Pipeline.Prompt.Text.{trim_space}

-- The address is valid, and git clones the repository into the directory, and says which commit HEAD is.
pub record Clones (git : Git) (opts : CloneOptions) (ws : Workspace) : Type 0 where
  pub output : GoString
  pub head : GoString
  pub valid : valid_repo_url opts.repo_url ≡ true
  pub made : git.mkdir_temp ≡ some ws.dir
  pub cloned : git.run (clone_args opts ws.dir) ≡ succeeded output
  pub resolved : git.run (rev_parse_args ws.dir) ≡ succeeded head
  pub trimmed : trim_space head ≡ ws.commit_sha
  pub is_commit : is_sha ws.commit_sha ≡ true

abbrev pub with_dir : GoString → World → World
with_dir dir w = record w { temp_dirs = dir ∷ w.temp_dirs }

module _ (git : Git) (opts : CloneOptions) (ws : Workspace) (w : World)
    (c : Clones git opts ws) where
  resolve_runs :
      resolve_head git.remove_all ws.dir (git.run (rev_parse_args ws.dir)) (with_dir ws.dir w)
      ≡ (ok ws, with_dir ws.dir w)
  unfolding resolve_head
  resolve_runs = let r = c.resolved in let t = c.trimmed in let s = c.is_commit in rw (r, t, s) refl

  made_runs :
      after_clone git ws.dir (git.run (clone_args opts ws.dir)) (with_dir ws.dir w)
      ≡ (ok ws, with_dir ws.dir w)
  unfolding after_clone
  made_runs = let g = c.cloned in rw g resolve_runs

  pub clone_runs : clone git opts w ≡ (ok ws, with_dir ws.dir w)
  unfolding clone make_dir
  clone_runs =
      let rest =
        make_dir git.mkdir_temp >>= λ dir. after_clone git dir (git.run (clone_args opts dir)) in
      require_passes (valid_repo_url opts.repo_url) invalid_repo_url rest w c.valid
      ∙ bind_ok (make_dir git.mkdir_temp)
          (λ dir. after_clone git dir (git.run (clone_args opts dir))) w (with_dir ws.dir w) ws.dir
          (ap (λ o. make_dir o w) c.made)
      ∙ made_runs
