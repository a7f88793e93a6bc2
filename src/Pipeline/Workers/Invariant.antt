-- ===== src/Pipeline/Workers/Invariant.antt =====
-- What holds of the jobs and the workers at all times.
use ping_goat.Common.{
  All, Bool, Bool-cases, List, ap, arith, false, inl, inr, true, ℕ, ◌&&◌, ◌==◌, ◌∙◌, ◌≡◌, ◌≢◌,
}
use ping_goat.Database.Keyed.{All-update_rows_of}
use ping_goat.Pipeline.Message.{JobMessage}
use ping_goat.Database.{update_rows, Uuid, Job}
use ping_goat.Database.Jobs.{}
use ping_goat.Database.Rows.{All-update_rows, Distinct-update_rows, Distinct}
use ping_goat.Pipeline.Workers.{
  Phase, at_stage, phase_status, is_of, resting, underway, is_known, holding, empty_crew, Stage,
  Crew,
}

-- The messages of two workers are of one job.
abbrev pub same_job : JobMessage → JobMessage → Bool
same_job m n = m.job_id == n.job_id && m.user_id == n.user_id

-- Two workers are not both underway with one job.
abbrev pub Apart : Stage → Stage → Type 0
Apart (underway p m) (underway q n) = same_job m n ≡ false
Apart resting b = Unit
Apart (holding m) b = Unit
Apart (underway p m) resting = Unit
Apart (underway p m) (holding n) = Unit

-- The rows of a claimed job show what its worker is at, and its id has been a job's.
abbrev pub IsHeld : List Job → List Uuid → Stage → Type 0
IsHeld jobs issued resting = Unit
IsHeld jobs issued (holding m) = Unit
IsHeld jobs issued (underway p m) =
    All (λ j. is_of m j ≡ true → j.status ≡ phase_status p) jobs × (is_known issued m.job_id ≡ true)

pub record IsSound (s : Crew) : Type 0 where
  pub ids : Distinct (λ (j k : Job). k.id == j.id) s.jobs
  pub known : All (λ j. is_known s.issued j.id ≡ true) s.jobs
  pub held : (i : ℕ) → IsHeld s.jobs s.issued (s.workers i)
  pub apart : (i j : ℕ) → i ≢ j → Apart (s.workers i) (s.workers j)

pub empty_crew-IsSound : IsSound empty_crew
empty_crew-IsSound = record { ids = tt; known = tt; held = λ i. tt; apart = λ i j h. tt }

module _ (i : ℕ) (stage : Stage) (workers : ℕ → Stage) where
  -- What one worker's new stage has, and the others' have, all have.
  pub at_stage_all :
      (P : Stage → Type 0)
      → P stage
      → ((j : ℕ) → j ≢ i → P (workers j))
      → (j : ℕ) → P (at_stage i stage workers j)
  at_stage_all P p h j = elim (Bool-cases (j == i)) [
    | inl same ↦ rw same p
    | inr other ↦ rw other (h j (ground arith))
  ]

  pub at_stage-Apart :
      ((j : ℕ) → j ≢ i → Apart stage (workers j))
      → ((j : ℕ) → j ≢ i → Apart (workers j) stage)
      → ((j k : ℕ) → j ≢ k → Apart (workers j) (workers k))
      → (j k : ℕ) → j ≢ k
      → Apart (at_stage i stage workers j) (at_stage i stage workers k)
  at_stage-Apart left right both j k ne = elim (Bool-cases (j == i)) [
    | inl here ↦ elim (Bool-cases (k == i)) [
      | inl there ↦ absurd (ne (ground arith))
      | inr other ↦ rw (here, other) (left k (ground arith))
    ]
    | inr there ↦ elim (Bool-cases (k == i)) [
      | inl here ↦ rw (there, here) (right j (ground arith))
      | inr other ↦ rw (there, other) (both j k ne)
    ]
  ]

-- A worker is not underway with the job of a message.
abbrev pub Elsewhere : JobMessage → Stage → Type 0
Elsewhere msg resting = Unit
Elsewhere msg (holding m) = Unit
Elsewhere msg (underway p m) = same_job m msg ≡ false

pub Elsewhere-Apart :
    (p : Phase) (msg : JobMessage) (b : Stage) → Apart b (underway p msg) → Elsewhere msg b
Elsewhere-Apart p msg resting h = tt
Elsewhere-Apart p msg (holding m) h = tt
Elsewhere-Apart p msg (underway q m) h = h

pub Apart-left :
    (p : Phase) (msg : JobMessage) (b : Stage) → Elsewhere msg b → Apart (underway p msg) b
Apart-left p msg resting h = tt
Apart-left p msg (holding m) h = tt
Apart-left p msg (underway q m) h = ground arith

pub Apart-right :
    (p : Phase) (msg : JobMessage) (b : Stage) → Elsewhere msg b → Apart b (underway p msg)
Apart-right p msg resting h = tt
Apart-right p msg (holding m) h = tt
Apart-right p msg (underway q m) h = h

pub Apart-resting : (b : Stage) → Apart b resting
Apart-resting resting = tt
Apart-resting (holding m) = tt
Apart-resting (underway p m) = tt

pub Apart-holding : (msg : JobMessage) (b : Stage) → Apart b (holding msg)
Apart-holding msg resting = tt
Apart-holding msg (holding m) = tt
Apart-holding msg (underway p m) = tt

-- An update that leaves the keys alone, of rows of one job only.
pub record Updates (msg : JobMessage) (p : Job → Bool) (f : Job → Job) : Type 0 where
  pub only : (j : Job) → p j ≡ true → is_of msg j ≡ true
  pub id : (j : Job) → (f j).id ≡ j.id
  pub user : (j : Job) → (f j).user_id ≡ j.user_id

both_keys :
    (m msg : JobMessage) (j : Job)
    → same_job m msg ≡ false
    → is_of m j ≡ true
    → is_of msg j ≡ true
    → ⊥
both_keys m msg j e mine theirs = ground arith

IsHeld-update_rows :
    (msg : JobMessage) (p : Job → Bool) (f : Job → Job) (jobs : List Job) (issued : List Uuid)
    (b : Stage)
    → Updates msg p f
    → Elsewhere msg b
    → IsHeld jobs issued b
    → IsHeld (update_rows p f jobs) issued b
IsHeld-update_rows msg p f jobs issued resting u e h = tt
IsHeld-update_rows msg p f jobs issued (holding m) u e h = tt
IsHeld-update_rows msg p f jobs issued (underway q m) u e h = (
  All-update_rows_of (λ j. is_of m j ≡ true → j.status ≡ phase_status q)
      (λ j. is_of m j ≡ true → j.status ≡ phase_status q) p f jobs
      (λ j hit old mine.
        absurd (both_keys m msg j e (rw (u.id j, u.user j) at mine) (u.only j hit)))
      (λ j miss old. old) h.0,
  h.1,
)

module _ (s : Crew) (h : IsSound s) (i : ℕ) (msg : JobMessage) (p : Job → Bool) (f : Job → Job)
    (u : Updates msg p f) (away : (j : ℕ) → j ≢ i → Elsewhere msg (s.workers j)) where
  -- The statement of one worker.
  pub update-IsSound :
      (stage : Stage)
      → IsHeld (update_rows p f s.jobs) s.issued stage
      → ((j : ℕ) → j ≢ i → Apart stage (s.workers j))
      → ((j : ℕ) → j ≢ i → Apart (s.workers j) stage)
      → IsSound (record s { jobs = update_rows p f s.jobs; workers = at_stage i stage s.workers })
  update-IsSound stage held left right = record {
    ids =
        Distinct-update_rows (λ (j k : Job). k.id == j.id) p f s.jobs
          (λ j k. ap (λ n. k.id == n) (u.id j)) (λ j k. ap (λ n. n == j.id) (u.id k)) h.ids;
    known =
        All-update_rows (λ j. is_known s.issued j.id ≡ true) p f s.jobs
          (λ j k. ap (is_known s.issued) (u.id j) ∙ k) h.known;
    held =
        at_stage_all i stage s.workers (IsHeld (update_rows p f s.jobs) s.issued) held (λ j ne.
          IsHeld-update_rows msg p f s.jobs s.issued (s.workers j) u (away j ne) (h.held j));
    apart = at_stage-Apart i stage s.workers left right h.apart;
  }
