-- ===== src/Pipeline/Cloner/Local.antt =====
-- internal/pipeline/cloner.go touches nothing but the temporary directories of its process, and
-- leaves one behind only with the workspace that it returns.
use ping_goat.Common.{
  Bool, Bool-cases, GoString, Option, Result, err, false, inl, inr, none, ok, refl, some, true, ◌∙◌,
  ◌≡◌,
}
use ping_goat.Pipeline.Prompt.Text.{trim_space}
use ping_goat.Session.Keeps.{
  Ensures-pure, Ensures-require, Ensures-bind, Ensures-local, Ensures-raise, Ensures,
}
use ping_goat.Session.{◌>>=◌, ◌>>=◌, require, Exec, World, Shared}
use ping_goat.Pipeline.Cloner.{
  rev_parse_args, exited, deadline_exceeded, invalid_sha, is_sha, succeeded, clone_args,
  invalid_repo_url, valid_repo_url, git_failed, no_temp_dir, head_failed, clone_timeout, CloneError,
  CloneOptions, Git, GitRun, give_up, make_dir, resolve_head, after_clone, clone,
}

module _ (P : Shared → Type 0) where
  make_dir-Ensures : (dir : Option GoString) → Ensures P (λ _. Unit {0}) (make_dir dir)
  unfolding make_dir
  make_dir-Ensures none = Ensures-raise P no_temp_dir
  make_dir-Ensures (some dir) = Ensures-local P _ (λ w. refl) (λ w. refl)

  give_up-Ensures :
      {A : Type 0} (removed : Bool) (dir : GoString) (e : CloneError)
      → Ensures P {A = A} (λ _. Unit {0}) (give_up removed dir e)
  unfolding give_up
  give_up-Ensures removed dir e = Ensures-local P _ (λ w. refl) (λ w. refl)

  resolve_head-Ensures :
      (removed : Bool) (dir : GoString) (run : GitRun)
      → Ensures P (λ _. Unit {0}) (resolve_head removed dir run)
  unfolding resolve_head
  resolve_head-Ensures removed dir deadline_exceeded = give_up-Ensures removed dir head_failed
  resolve_head-Ensures removed dir exited = give_up-Ensures removed dir head_failed
  resolve_head-Ensures removed dir (succeeded output) =
      elim (Bool-cases (is_sha (trim_space output))) [
        | inl good ↦ rw good (Ensures-pure P _ tt)
        | inr bad ↦ rw bad (give_up-Ensures removed dir invalid_sha)
      ]

  after_clone-Ensures :
      (git : Git) (dir : GoString) (run : GitRun)
      → Ensures P (λ _. Unit {0}) (after_clone git dir run)
  unfolding after_clone
  after_clone-Ensures git dir deadline_exceeded = give_up-Ensures git.remove_all dir clone_timeout
  after_clone-Ensures git dir exited = give_up-Ensures git.remove_all dir git_failed
  after_clone-Ensures git dir (succeeded _) =
      resolve_head-Ensures git.remove_all dir (git.run (rev_parse_args dir))

  -- A clone leaves the tables and the channel to the others.
  pub clone-Ensures : (git : Git) (opts : CloneOptions) → Ensures P (λ _. Unit {0}) (clone git opts)
  unfolding clone
  clone-Ensures git opts =
      Ensures-bind P (Ensures-require P (valid_repo_url opts.repo_url) invalid_repo_url) (λ _ _.
        Ensures-bind P (make_dir-Ensures git.mkdir_temp)
          (λ dir _. after_clone-Ensures git dir (git.run (clone_args opts dir))))

-- An action that leaves what the others see, and the others, as they are.
pub record IsLocal {E A : Type 0} (m : Exec E A) : Type 0 where
  pub at : (w : World) → ((m w).1.shared ≡ w.shared) × ((m w).1.outside ≡ w.outside)

local_next :
    {E A B : Type 0} (r : Result E A) (w v : World) (f : A → Exec E B)
    → (v.shared ≡ w.shared) × (v.outside ≡ w.outside)
    → ((a : A) → IsLocal (f a))
    → let (r', w') = (◌>>=◌ (λ _. (r, v)) f) v in (w'.shared ≡ w.shared) × (w'.outside ≡ w.outside)
local_next (ok a) w v f (shared, outside) next =
    let (shared', outside') = (next a).at v in (shared' ∙ shared, outside' ∙ outside)
local_next (err e) w v f same next = same

IsLocal-bind :
    {E A B : Type 0} {m : Exec E A} {f : A → Exec E B}
    → IsLocal m
    → ((a : A) → IsLocal (f a))
    → IsLocal (m >>= f)
IsLocal-bind {m} {f} first next = record {
  at = λ w. local_next (m w).0 w (m w).1 f (first.at w) next;
}

require-IsLocal : {E : Type 0} (b : Bool) (e : E) → IsLocal (require b e)
require-IsLocal true e = record { at = λ w. (refl, refl) }
require-IsLocal false e = record { at = λ w. (refl, refl) }

make_dir-IsLocal : (dir : Option GoString) → IsLocal (make_dir dir)
unfolding make_dir
make_dir-IsLocal none = record { at = λ w. (refl, refl) }
make_dir-IsLocal (some dir) = record { at = λ w. (refl, refl) }

give_up-IsLocal :
    {A : Type 0} (removed : Bool) (dir : GoString) (e : CloneError)
    → IsLocal (give_up {A = A} removed dir e)
unfolding give_up
give_up-IsLocal removed dir e = record { at = λ w. (refl, refl) }

resolve_head-IsLocal :
    (removed : Bool) (dir : GoString) (run : GitRun) → IsLocal (resolve_head removed dir run)
unfolding resolve_head
resolve_head-IsLocal removed dir deadline_exceeded = give_up-IsLocal removed dir head_failed
resolve_head-IsLocal removed dir exited = give_up-IsLocal removed dir head_failed
resolve_head-IsLocal removed dir (succeeded output) =
    elim (Bool-cases (is_sha (trim_space output))) [
      | inl good ↦ rw good (record { at = λ w. (refl, refl) })
      | inr bad ↦ rw bad (give_up-IsLocal removed dir invalid_sha)
    ]

after_clone-IsLocal :
    (git : Git) (dir : GoString) (run : GitRun) → IsLocal (after_clone git dir run)
unfolding after_clone
after_clone-IsLocal git dir deadline_exceeded = give_up-IsLocal git.remove_all dir clone_timeout
after_clone-IsLocal git dir exited = give_up-IsLocal git.remove_all dir git_failed
after_clone-IsLocal git dir (succeeded _) =
    resolve_head-IsLocal git.remove_all dir (git.run (rev_parse_args dir))

-- A clone is seen by nobody else.
pub clone-IsLocal : (git : Git) (opts : CloneOptions) → IsLocal (clone git opts)
unfolding clone
clone-IsLocal git opts =
    IsLocal-bind (require-IsLocal (valid_repo_url opts.repo_url) invalid_repo_url) (λ _.
      IsLocal-bind (make_dir-IsLocal git.mkdir_temp)
        (λ dir. after_clone-IsLocal git dir (git.run (clone_args opts dir))))
