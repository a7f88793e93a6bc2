-- ===== src/Pipeline/Workers/Exclusion.antt =====
-- A job is in the hands of one worker of internal/pipeline/worker.go at a time.
use ping_goat.Common.{
  All-append, All-map, Bool-cases, [], arith, false, inl, inr, not, true, ℕ, ◌==◌, ◌∷◌, ◌≡◌,
}
use ping_goat.Pipeline.Store.{complete_params}
use ping_goat.Pipeline.Status.{}
use ping_goat.Pipeline.Message.{JobMessage}
use ping_goat.Database.{Job}
use ping_goat.Database.Jobs.{set_completed, is_job, new_job}
use ping_goat.Database.Rows.{All-filter, Distinct-filter, Distinct-append}
use ping_goat.Database.Keyed.{}
use ping_goat.Pipeline.Workers.{
  give_up, resting, is_of, store, generating, generate, cloning, parsing, parse, claim, holding,
  receive, remove, is_known, here, underway, create, empty_crew, next, Run, Phase, Step, Crew,
}
use ping_goat.Pipeline.Workers.Invariant.{
  Apart-resting, update-IsSound, Apart-holding, at_stage-Apart, IsHeld, at_stage_all,
  empty_crew-IsSound, Apart, same_job, IsSound,
}
use ping_goat.Pipeline.Workers.Held.{
  away_from, Updates-complete, advance-IsSound, claim-IsSound, remove-IsHeld, create-IsHeld,
  known_differs,
}
use mathlib.Core.Path.{subst}

Step-IsSound : {s t : Crew} → Step s t → IsSound s → IsSound t
Step-IsSound {s} (create arg now uuid new e) h = rw e (record {
  ids =
      Distinct-append (λ (j k : Job). k.id == j.id) s.jobs (new_job arg now uuid) h.ids
        (All-map (λ j k. known_differs s.issued uuid j.id new k) s.jobs h.known);
  known =
      All-append (λ j. is_known (uuid ∷ s.issued) j.id ≡ true) s.jobs (new_job arg now uuid ∷ [])
        (All-map (λ j k. ground (arith, k)) s.jobs h.known) (ground arith, tt);
  held = λ i. create-IsHeld s.jobs s.issued (new_job arg now uuid) (s.workers i) new (h.held i);
  apart = h.apart;
})
Step-IsSound {s} (remove id user_id e) h = rw e (record {
  ids = Distinct-filter (λ (j k : Job). k.id == j.id) (λ j. not (is_job id user_id j)) s.jobs h.ids;
  known =
      All-filter (λ j. is_known s.issued j.id ≡ true) (λ j. not (is_job id user_id j)) s.jobs
        h.known;
  held =
      λ i. remove-IsHeld (λ j. not (is_job id user_id j)) s.jobs s.issued (s.workers i) (h.held i);
  apart = h.apart;
})
Step-IsSound {s} (receive i msg at e) h = rw e (record {
  ids = h.ids;
  known = h.known;
  held = at_stage_all i (holding msg) s.workers (IsHeld s.jobs s.issued) tt (λ j ne. h.held j);
  apart =
      at_stage-Apart i (holding msg) s.workers (λ j ne. tt)
        (λ j ne. Apart-holding msg (s.workers j)) h.apart;
})
Step-IsSound {s} (claim i msg now at found e) h = rw e (claim-IsSound s i msg now h found)
Step-IsSound {s} (parse i msg now at found e) h =
    rw e (advance-IsSound s i cloning parsing msg now h at)
Step-IsSound {s} (generate i msg now at found e) h =
    rw e (advance-IsSound s i parsing generating msg now h at)
Step-IsSound {s} (store i msg input now at found id user e) h = rw e (
    update-IsSound s h i msg (is_of msg) (set_completed (complete_params input) now)
      (Updates-complete msg input now) (away_from s i generating msg h at) resting tt (λ j ne. tt)
      (λ j ne. Apart-resting (s.workers j)))
Step-IsSound {s} (give_up i e) h = rw e (record {
  ids = h.ids;
  known = h.known;
  held = at_stage_all i resting s.workers (IsHeld s.jobs s.issued) tt (λ j ne. h.held j);
  apart =
      at_stage-Apart i resting s.workers (λ j ne. tt) (λ j ne. Apart-resting (s.workers j)) h.apart;
})

pub Run-IsSound : {s t : Crew} → Run s t → IsSound s → IsSound t
Run-IsSound here h = h
Run-IsSound (next run step) h = Step-IsSound step (Run-IsSound run h)

-- However often the messages of a job are sent, whichever workers get them, and whatever fails: no two
-- workers are underway with one job at once.
pub one_worker :
    (s : Crew) (i j : ℕ) (p q : Phase) (m n : JobMessage)
    → Run empty_crew s
    → s.workers i ≡ underway p m
    → s.workers j ≡ underway q n
    → same_job m n ≡ true
    → i ≡ j
one_worker s i j p q m n run at at' same = elim (Bool-cases (i == j)) [
  | inl e ↦ ground arith
  | inr other ↦ absurd (
      let apart : same_job m n ≡ false =
        subst (λ b. Apart (underway p m) b) at'
          (subst (λ a. Apart a (s.workers j)) at
            ((Run-IsSound run empty_crew-IsSound).apart i j (ground arith))) in
      cc)
]
