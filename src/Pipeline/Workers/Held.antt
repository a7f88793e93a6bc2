-- ===== src/Pipeline/Workers/Held.antt =====
-- What each step of a worker does to the jobs that others have claimed.
use ping_goat.Common.{
  All-append, All-map, Bool, Bool-cases, GoString, List, [], arith, false, filter, inl, inr, refl,
  sym, true, ℕ, ◌&&◌, ◌++◌, ◌==◌, ◌∷◌, ◌≡◌, ◌≢◌,
}
use ping_goat.Pipeline.Store.{complete_params, StoreInput}
use ping_goat.Pipeline.Status.{status_cloning}
use ping_goat.Pipeline.Message.{JobMessage}
use ping_goat.Database.{update_rows, has_row, Time, Uuid, Job}
use ping_goat.Database.Jobs.{set_completed, set_status, is_queued}
use ping_goat.Database.Rows.{All-filter}
use ping_goat.Database.Keyed.{all_of_one, All-update_rows_of, has_row_gives}
use ping_goat.Pipeline.Workers.{
  generating, at_stage, resting, holding, parsing, underway, cloning, is_of, phase_status, Stage,
  is_known, Crew, Phase,
}
use ping_goat.Pipeline.Workers.Invariant.{
  Apart-right, Apart-left, Apart, update-IsSound, Elsewhere-Apart, Elsewhere, IsHeld, Updates,
  same_job, IsSound,
}
use mathlib.Core.Path.{subst}

pub known_differs :
    (issued : List Uuid) (a b : Uuid)
    → is_known issued a ≡ false
    → is_known issued b ≡ true
    → (a == b) ≡ false
known_differs issued a b new old = elim (Bool-cases (a == b)) [
  | inl same ↦
      let e : a ≡ b = ground arith in
      let both = subst (λ x. is_known issued x ≡ true) (sym e) old in cc
  | inr other ↦ other
]

pub create-IsHeld :
    (jobs : List Job) (issued : List Uuid) (new : Job) (b : Stage)
    → is_known issued new.id ≡ false
    → IsHeld jobs issued b
    → IsHeld (jobs ++ new ∷ []) (new.id ∷ issued) b
create-IsHeld jobs issued new resting fresh h = tt
create-IsHeld jobs issued new (holding m) fresh h = tt
create-IsHeld jobs issued new (underway p m) fresh h = (
  All-append (λ j. is_of m j ≡ true → j.status ≡ phase_status p) jobs (new ∷ []) h.0
      ((λ mine. absurd (ground (arith, known_differs issued new.id m.job_id fresh h.1))), tt),
  ground (arith, h.1),
)

pub remove-IsHeld :
    (q : Job → Bool) (jobs : List Job) (issued : List Uuid) (b : Stage)
    → IsHeld jobs issued b
    → IsHeld (filter q jobs) issued b
remove-IsHeld q jobs issued resting h = tt
remove-IsHeld q jobs issued (holding m) h = tt
remove-IsHeld q jobs issued (underway p m) h =
    (All-filter (λ j. is_of m j ≡ true → j.status ≡ phase_status p) q jobs h.0, h.1)

pub Updates-claim :
    (msg : JobMessage) (now : Time)
    → Updates msg (λ j. is_of msg j && is_queued j) (set_status status_cloning now)
Updates-claim msg now = record { only = λ j h. ground arith; id = λ j. refl; user = λ j. refl }

pub Updates-status :
    (msg : JobMessage) (status : GoString) (now : Time)
    → Updates msg (is_of msg) (set_status status now)
Updates-status msg status now = record { only = λ j h. h; id = λ j. refl; user = λ j. refl }

pub Updates-complete :
    (msg : JobMessage) (input : StoreInput) (now : Time)
    → Updates msg (is_of msg) (set_completed (complete_params input) now)
Updates-complete msg input now = record { only = λ j h. h; id = λ j. refl; user = λ j. refl }

-- A worker that is underway with a job keeps all others away from it.
pub away_from :
    (s : Crew) (i : ℕ) (p : Phase) (msg : JobMessage)
    → IsSound s
    → s.workers i ≡ underway p msg
    → (j : ℕ) → j ≢ i
    → Elsewhere msg (s.workers j)
away_from s i p msg h at j ne =
    Elsewhere-Apart p msg (s.workers j) (subst (Apart (s.workers j)) at (h.apart j i ne))

-- All rows of the job get the status of the next phase.
pub status-IsHeld :
    (p q : Phase) (msg : JobMessage) (now : Time) (s : Crew)
    → IsHeld s.jobs s.issued (underway p msg)
    → IsHeld
        (update_rows (is_of msg) (set_status (phase_status q) now) s.jobs)
        s.issued
        (underway q msg)
status-IsHeld p q msg now s h = (
  All-update_rows_of (λ j. is_of msg j ≡ true → j.status ≡ phase_status p)
      (λ j. is_of msg j ≡ true → j.status ≡ phase_status q) (is_of msg)
      (set_status (phase_status q) now) s.jobs (λ j hit old mine. refl) (λ j miss old mine. cc) h.0,
  h.1,
)

pub advance-IsSound :
    (s : Crew) (i : ℕ) (p q : Phase) (msg : JobMessage) (now : Time)
    → IsSound s
    → s.workers i ≡ underway p msg
    → IsSound (record s {
      jobs = update_rows (is_of msg) (set_status (phase_status q) now) s.jobs;
      workers = at_stage i (underway q msg) s.workers;
    })
advance-IsSound s i p q msg now h at =
    let away = away_from s i p msg h at in
    update-IsSound s h i msg (is_of msg) (set_status (phase_status q) now)
      (Updates-status msg (phase_status q) now) away (underway q msg)
      (status-IsHeld p q msg now s (subst (IsHeld s.jobs s.issued) at (h.held i)))
      (λ j ne. Apart-left q msg (s.workers j) (away j ne))
      (λ j ne. Apart-right q msg (s.workers j) (away j ne))

pub phase_not_queued : (p : Phase) (j : Job) → j.status ≡ phase_status p → is_queued j ≡ false
unfolding is_queued
phase_not_queued cloning j e = rw e refl
phase_not_queued parsing j e = rw e refl
phase_not_queued generating j e = rw e refl

pub queued_and_held :
    (m msg : JobMessage) (p : Phase) (j : Job)
    → same_job m msg ≡ true
    → (is_of m j ≡ true → j.status ≡ phase_status p)
    → (is_of msg j && is_queued j) ≡ true
    → ⊥
queued_and_held m msg p j same status hit =
    let mine : is_of m j ≡ true = ground arith in
    let free = phase_not_queued p j (status mine) in ground arith

-- While a job has a queued row, no worker is underway with it.
pub claimed_by_none :
    (msg : JobMessage) (s : Crew)
    → IsSound s
    → has_row (λ j. is_of msg j && is_queued j) s.jobs ≡ true
    → (b : Stage) → IsHeld s.jobs s.issued b
    → Elsewhere msg b
claimed_by_none msg s h found resting held = tt
claimed_by_none msg s h found (holding m) held = tt
claimed_by_none msg s h found (underway p m) held = elim (Bool-cases (same_job m msg)) [
  | inl same ↦ absurd (
      has_row_gives (λ j. is_of msg j && is_queued j) s.jobs found
        (All-map (λ j status hit. queued_and_held m msg p j same status hit) s.jobs held.0))
  | inr other ↦ other
]

pub key_of : (msg : JobMessage) (j : Job) → (is_of msg j && is_queued j) ≡ true → j.id ≡ msg.job_id
key_of msg j hit = ground arith

pub claim-IsHeld :
    (s : Crew) (msg : JobMessage) (now : Time)
    → IsSound s
    → has_row (λ j. is_of msg j && is_queued j) s.jobs ≡ true
    → IsHeld
        (update_rows (λ j. is_of msg j && is_queued j) (set_status status_cloning now) s.jobs)
        s.issued
        (underway cloning msg)
claim-IsHeld s msg now h found = (
  All-update_rows_of (λ j. is_of msg j ≡ true → is_queued j ≡ true)
      (λ j. is_of msg j ≡ true → j.status ≡ status_cloning) (λ j. is_of msg j && is_queued j)
      (set_status status_cloning now) s.jobs (λ j hit old mine. refl)
      (λ j miss old mine. let q = old mine in cc)
      (all_of_one (λ (j k : Job). k.id == j.id) (is_of msg) is_queued s.jobs
        (λ j k a b. ground arith) h.ids found),
  has_row_gives (λ j. is_of msg j && is_queued j) s.jobs found
      (All-map (λ j k hit. subst (λ id. is_known s.issued id ≡ true) (key_of msg j hit) k) s.jobs
        h.known),
)

pub claim-IsSound :
    (s : Crew) (i : ℕ) (msg : JobMessage) (now : Time)
    → IsSound s
    → has_row (λ j. is_of msg j && is_queued j) s.jobs ≡ true
    → IsSound (record s {
      jobs = update_rows (λ j. is_of msg j && is_queued j) (set_status status_cloning now) s.jobs;
      workers = at_stage i (underway cloning msg) s.workers;
    })
claim-IsSound s i msg now h found =
    let p = λ (j : Job). is_of msg j && is_queued j in
    let away : (j : ℕ) → j ≢ i → Elsewhere msg (s.workers j) =
      λ j ne. claimed_by_none msg s h found (s.workers j) (h.held j) in
    update-IsSound s h i msg p (set_status status_cloning now) (Updates-claim msg now) away
      (underway cloning msg) (claim-IsHeld s msg now h found)
      (λ j ne. Apart-left cloning msg (s.workers j) (away j ne))
      (λ j ne. Apart-right cloning msg (s.workers j) (away j ne))
