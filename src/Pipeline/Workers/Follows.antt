-- ===== src/Pipeline/Workers/Follows.antt =====
-- The statements of internal/pipeline/worker.go and store.go go along the edges of the machine.
use ping_goat.Common.{
  Bool, Bool-cases, Option-cases, ap, arith, if◌then◌else◌, inl, inr, refl, some, sym, true, ℕ,
  ◌&&◌, ◌∙◌, ◌≡◌,
}
use ping_goat.Pipeline.Store.{complete_params, StoreInput}
use ping_goat.Pipeline.Status.{status_cloning}
use ping_goat.Pipeline.Message.{JobMessage}
use ping_goat.Database.{update_rows, Time, Job, Uuid}
use ping_goat.Database.Jobs.{set_status, is_job, is_queued, set_completed}
use ping_goat.Database.Rows.{find_row-update_rows, find_row_sound}
use ping_goat.Database.Keyed.{find_row-update_rows_if, find_row-update_rows-none}
use ping_goat.Pipeline.Workers.{
  resting, cloning, at_stage, phase_status, generating, is_of, Stage, is_known, underway, Phase,
  Crew,
}
use ping_goat.Pipeline.Workers.Invariant.{IsHeld, Updates, IsSound}
use ping_goat.Pipeline.Workers.Held.{Updates-status, Updates-claim, Updates-complete}
use ping_goat.Pipeline.Workers.JobState.{
  ◌⟶◌, stored, claimed, completed, queued_state, same_state, stays, Shows, working, Follows, IsIn,
  row_of, JobState,
}
use mathlib.Core.Path.{subst}

module _ (id user_id : Uuid) (s : Crew) where
  -- The table's row of the job does not change.
  pub unchanged :
      (t : Crew) (a : JobState)
      → row_of id user_id t ≡ row_of id user_id s
      → is_known t.issued id ≡ is_known s.issued id
      → IsIn id user_id s a
      → Follows id user_id a t
  unchanged t a row known h = (a, rw (row, known) h, stays)

  -- An update of rows, whose effect on the job's row is a step.
  pub update-Follows :
      (msg : JobMessage) (p : Job → Bool) (f : Job → Job) (a : JobState) (workers : ℕ → Stage)
      → Updates msg p f
      → ((j : Job)
          → row_of id user_id s ≡ some j
          → p j ≡ true
          → Shows (is_known s.issued id) (some j) a
          → (b : JobState) × Shows (is_known s.issued id) (some (f j)) b × (a ⟶ b))
      → IsIn id user_id s a
      → Follows id user_id a (record s { jobs = update_rows p f s.jobs; workers = workers })
  update-Follows msg p f a workers u step h = elim (Option-cases (row_of id user_id s)) [
    | inl nothing ↦
        unchanged (record s { jobs = update_rows p f s.jobs; workers = workers }) a
          (find_row-update_rows-none (is_job id user_id) p f s.jobs (λ j. keys j) nothing
            ∙ sym nothing)
          refl h
    | inr (j, found) ↦ elim (Bool-cases (p j)) [
      | inl hit ↦
          let row : row_of id user_id
                (record s { jobs = update_rows p f s.jobs; workers = workers })
              ≡ some (f j) =
            find_row-update_rows (is_job id user_id) p f s.jobs j (λ k. keys k) found hit in
          let (b, shows, edge) =
            step j found hit (subst (λ o. Shows (is_known s.issued id) o a) found h) in
          (b, subst (λ o. Shows (is_known s.issued id) o b) (sym row) shows, edge)
      | inr miss ↦
          unchanged (record s { jobs = update_rows p f s.jobs; workers = workers }) a
            (find_row-update_rows_if (is_job id user_id) p f s.jobs j (λ k. keys k) found
              ∙ ap (λ b. some (if b then f j else j)) miss
              ∙ sym found)
            refl h
    ]
  ]
    where
      keys : (j : Job) → is_job id user_id (f j) ≡ is_job id user_id j
      keys j = rw (u.id j, u.user j) refl

-- What a job's row says of a claimed job.
pub held_status :
    (s : Crew) (h : IsSound s) (i : ℕ) (p : Phase) (msg : JobMessage) (id user_id : Uuid) (j : Job)
    → s.workers i ≡ underway p msg
    → row_of id user_id s ≡ some j
    → is_of msg j ≡ true
    → j.status ≡ phase_status p
held_status s h i p msg id user_id j at found mine =
    (find_row_sound (λ j. is_of msg j ≡ true → j.status ≡ phase_status p) (is_job id user_id) s.jobs
        j (subst (IsHeld s.jobs s.issued) at (h.held i)).0 found).0
      mine

module _ (id user_id : Uuid) (s : Crew) (h : IsSound s) (a : JobState)
    (now_in : IsIn id user_id s a) where
  -- The next phase of a worker.
  pub advance-Follows :
      (i : ℕ) (p q : Phase) (msg : JobMessage) (now : Time)
      → s.workers i ≡ underway p msg
      → (working p ⟶ working q)
      → Follows id user_id a (record s {
        jobs = update_rows (is_of msg) (set_status (phase_status q) now) s.jobs;
        workers = at_stage i (underway q msg) s.workers;
      })
  advance-Follows i p q msg now at edge =
      update-Follows id user_id s msg (is_of msg) (set_status (phase_status q) now) a
        (at_stage i (underway q msg) s.workers) (Updates-status msg (phase_status q) now)
        (λ j found hit shows.
          let same =
            same_state (is_known s.issued id) a p j shows
              (held_status s h i p msg id user_id j at found hit) in
          (working q, refl, rw same edge))
        now_in

  pub store-Follows :
      (i : ℕ) (msg : JobMessage) (input : StoreInput) (now : Time)
      → s.workers i ≡ underway generating msg
      → Follows id user_id a (record s {
        jobs = update_rows (is_of msg) (set_completed (complete_params input) now) s.jobs;
        workers = at_stage i resting s.workers;
      })
  store-Follows i msg input now at =
      update-Follows id user_id s msg (is_of msg) (set_completed (complete_params input) now) a
        (at_stage i resting s.workers) (Updates-complete msg input now)
        (λ j found hit shows.
          let same =
            same_state (is_known s.issued id) a generating j shows
              (held_status s h i generating msg id user_id j at found hit) in
          (completed, refl, rw same stored))
        now_in

  pub claim-Follows :
      (i : ℕ) (msg : JobMessage) (now : Time)
      → Follows id user_id a (record s {
        jobs = update_rows (λ j. is_of msg j && is_queued j) (set_status status_cloning now) s.jobs;
        workers = at_stage i (underway cloning msg) s.workers;
      })
  claim-Follows i msg now =
      update-Follows id user_id s msg (λ j. is_of msg j && is_queued j)
        (set_status status_cloning now) a (at_stage i (underway cloning msg) s.workers)
        (Updates-claim msg now)
        (λ j found hit shows. (
          working cloning,
          refl,
          rw (queued_state (is_known s.issued id) a j shows (ground arith)) claimed,
        ))
        now_in
