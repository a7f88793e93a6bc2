-- ===== src/Pipeline/Worker/Refines.antt =====
-- The loop of internal/pipeline/worker.go as one worker of the crew, among others that are the rest of
-- it.
use ping_goat.Common.{Bool-cases, List, Result, [], err, inl, inr, ok, refl, ℕ, ◌∷◌, ◌≡◌}
use ping_goat.Session.{Shared, World}
use ping_goat.Session.Protocol.{Signals, Ends}
use ping_goat.Config.{Config}
use ping_goat.Pipeline.Message.{JobMessage}
use ping_goat.Pipeline.Workers.{Step, holding, Run, resting, Crew, receive, next, here}
use ping_goat.Pipeline.Workers.Protocol.{
  moved, OthersAct, reaches_later, at_stage_here, reaches_rest, Reaches,
}
use ping_goat.Pipeline.Worker.{is_panic, process_job, Machine, start_worker}
use ping_goat.Pipeline.Worker.Protocol.{process_job_moves}

module _ (base : Crew) (i : ℕ) (K : Signals → Crew → Type 0) (others : OthersAct i K) where
  receives :
      (msg : JobMessage) (o : Signals) (s : Shared)
      → Reaches base i K others o resting s
      → Reaches base i K others o (holding msg) s
  receives msg o s (t, run, jobs, at, now_at) =
      let step : Step t (moved i t t.jobs (holding msg)) = receive i msg at refl in
      (
        moved i t t.jobs (holding msg),
        next run step,
        jobs,
        at_stage_here base i K others (holding msg) t.workers,
        others.stays o t t.jobs (holding msg) step now_at,
      )

  ends_resting :
      {E : Type 0} (r : Result E (Unit {0})) (o : Signals) (s : Shared)
      → Ends
          (Reaches base i K others)
          resting
          (reaches_rest base i K others)
          (reaches_later base i K others)
          (λ _. Unit {0})
          (λ _. resting)
          r
          o
          s
      → Reaches base i K others o resting s
  ends_resting (ok _) o s h = h.1
  ends_resting (err e) o s h = h

  start_worker_reaches :
      (cfg : Config) (work : List (Machine × JobMessage)) (w : World)
      → Reaches base i K others w.outside resting w.shared
      → let v = (start_worker cfg work w).1 in Reaches base i K others v.outside resting v.shared
  unfolding start_worker
  start_worker_reaches cfg [] w now_at = now_at
  start_worker_reaches cfg ((machine, msg) ∷ rest) w now_at =
      let (r, v) = process_job machine cfg msg w in
      let ends =
        (process_job_moves base i K others msg machine cfg).at w
          (receives msg w.outside w.shared now_at) in
      let now_at' = ends_resting r v.outside v.shared ends in
      let later_at = start_worker_reaches cfg rest v now_at' in
      elim (Bool-cases (is_panic r)) [ inl panic ↦ rw panic now_at' | inr fine ↦ rw fine later_at ]

-- `StartWorker` refines the crew: whatever messages it receives, and whatever the machine and the
-- calls do for each. If the others are where K says at the start, and what they do at each call,
-- from where K says that they then are, is a run of the crew in which this worker stays where it is,
-- then all that the worker and the others have done to the jobs when it returns is a run of the crew,
-- with the worker at rest again.
pub start_worker_refines :
    (cfg : Config) (work : List (Machine × JobMessage)) (base : Crew) (i : ℕ)
    (K : Signals → Crew → Type 0) (w : World)
    → base.workers i ≡ resting
    → base.jobs ≡ w.shared.db.jobs
    → OthersAct i K
    → K w.outside base
    → (t : Crew) × Run base t
      × (t.jobs ≡ (start_worker cfg work w).1.shared.db.jobs)
      × (t.workers i ≡ resting)
start_worker_refines cfg work base i K w rest jobs others now_at =
    let (t, run, same, at, known) =
      start_worker_reaches base i K others cfg work w (base, here, jobs, rest, now_at) in
    (t, run, same, at)
