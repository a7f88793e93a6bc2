-- ===== src/Pipeline/Workers/JobState.antt =====
-- The life of a job as an abstract machine, and what the jobs table shows of its states.
use ping_goat.Common.{
  Bool, GoString, Option, arith, bytes, false, inl, inr, none, refl, some, str_eq, str_eq_refl, sym,
  true, ◌∙◌, ◌≡◌, ◌⊎◌,
}
use ping_goat.Pipeline.Workers.Held.{phase_not_queued}
use ping_goat.Pipeline.Store.{}
use ping_goat.Pipeline.Status.{status_generating, status_parsing, status_cloning, status_completed}
use ping_goat.Pipeline.Message.{}
use ping_goat.Database.{find_row, Job, Uuid}
use ping_goat.Database.Jobs.{is_job, status_queued, is_queued}
use ping_goat.Database.Rows.{find_row_sound}
use ping_goat.Database.Keyed.{}
use ping_goat.Pipeline.Workers.{generating, is_known, phase_status, parsing, cloning, Phase, Crew}
use ping_goat.Pipeline.Workers.Invariant.{IsSound}
use mathlib.Core.Path.{subst}

-- A job is yet to come, waits, is worked on, is completed, or has gone for good.
pub data JobState : Type 0 where
  absent queued : JobState
  working : Phase → JobState
  completed gone : JobState

infix 4 ◌⟶◌ ◌⟶*◌
pub data ◌⟶◌ : JobState → JobState → Type 0 where
  stays : {a : JobState} → a ⟶ a
  created : absent ⟶ queued
  claimed : queued ⟶ working cloning
  parsed : working cloning ⟶ working parsing
  generated : working parsing ⟶ working generating
  stored : working generating ⟶ completed
  removed : {a : JobState} → a ⟶ gone

pub data ◌⟶*◌ (a : JobState) : JobState → Type 0 where
  none_yet : a ⟶* a
  and_then : {b c : JobState} → a ⟶* b → b ⟶ c → a ⟶* c

-- What the table shows of a job, and whether its id has been given away.
abbrev pub Shows : Bool → Option Job → JobState → Type 0
Shows known none absent = known ≡ false
Shows known none gone = known ≡ true
Shows known none queued = ⊥
Shows known none (working p) = ⊥
Shows known none completed = ⊥
Shows known (some j) absent = ⊥
Shows known (some j) gone = ⊥
Shows known (some j) queued = j.status ≡ status_queued
Shows known (some j) (working p) = j.status ≡ phase_status p
Shows known (some j) completed = j.status ≡ status_completed

abbrev pub row_of : Uuid → Uuid → Crew → Option Job
row_of id user_id s = find_row (is_job id user_id) s.jobs

abbrev pub IsIn : Uuid → Uuid → Crew → JobState → Type 0
IsIn id user_id s a = Shows (is_known s.issued id) (row_of id user_id s) a

-- A step of the crew is a step of the machine.
abbrev pub Follows : Uuid → Uuid → JobState → Crew → Type 0
Follows id user_id a t = (b : JobState) × IsIn id user_id t b × (a ⟶ b)

pub clash : (s a b : GoString) → s ≡ a → s ≡ b → str_eq a b ≡ false → ⊥
clash s a b e f d =
    let same = str_eq_refl a in
    let apart = subst (λ x. str_eq a x ≡ false) (sym (sym e ∙ f)) d in cc

-- A row in a phase's status is in that phase.
pub same_state :
    (known : Bool) (a : JobState) (p : Phase) (j : Job)
    → Shows known (some j) a
    → j.status ≡ phase_status p
    → a ≡ working p
unfolding str_eq
same_state known absent p j h e = absurd h
same_state known gone p j h e = absurd h
same_state known queued cloning j h e =
    absurd (clash j.status status_queued status_cloning h e refl)
same_state known queued parsing j h e =
    absurd (clash j.status status_queued status_parsing h e refl)
same_state known queued generating j h e =
    absurd (clash j.status status_queued status_generating h e refl)
same_state known completed cloning j h e =
    absurd (clash j.status status_completed status_cloning h e refl)
same_state known completed parsing j h e =
    absurd (clash j.status status_completed status_parsing h e refl)
same_state known completed generating j h e =
    absurd (clash j.status status_completed status_generating h e refl)
same_state known (working cloning) cloning j h e = refl
same_state known (working cloning) parsing j h e =
    absurd (clash j.status status_cloning status_parsing h e refl)
same_state known (working cloning) generating j h e =
    absurd (clash j.status status_cloning status_generating h e refl)
same_state known (working parsing) cloning j h e =
    absurd (clash j.status status_parsing status_cloning h e refl)
same_state known (working parsing) parsing j h e = refl
same_state known (working parsing) generating j h e =
    absurd (clash j.status status_parsing status_generating h e refl)
same_state known (working generating) cloning j h e =
    absurd (clash j.status status_generating status_cloning h e refl)
same_state known (working generating) parsing j h e =
    absurd (clash j.status status_generating status_parsing h e refl)
same_state known (working generating) generating j h e = refl

-- What a row shows does not depend on the ids.
pub Shows-of_row :
    (known known' : Bool) (j : Job) (a : JobState)
    → Shows known (some j) a
    → Shows known' (some j) a
Shows-of_row known known' j absent h = h
Shows-of_row known known' j gone h = h
Shows-of_row known known' j queued h = h
Shows-of_row known known' j completed h = h
Shows-of_row known known' j (working p) h = h

pub no_row :
    (known : Bool) (a : JobState)
    → Shows known none a
    → ((a ≡ absent) × (known ≡ false)) ⊎ ((a ≡ gone) × (known ≡ true))
no_row known absent h = inl (refl, h)
no_row known gone h = inr (refl, h)
no_row known queued h = absurd h
no_row known completed h = absurd h
no_row known (working p) h = absurd h

pub row_known :
    (s : Crew) (h : IsSound s) (id user_id : Uuid) (j : Job)
    → row_of id user_id s ≡ some j
    → is_known s.issued id ≡ true
row_known s h id user_id j found =
    let (known, key) =
      find_row_sound (λ j. is_known s.issued j.id ≡ true) (is_job id user_id) s.jobs j h.known
        found in
    let same : j.id ≡ id = ground arith in subst (λ n. is_known s.issued n ≡ true) same known

pub queued_state :
    (known : Bool) (a : JobState) (j : Job)
    → Shows known (some j) a
    → is_queued j ≡ true
    → a ≡ queued
unfolding is_queued
queued_state known absent j h e = absurd h
queued_state known gone j h e = absurd h
queued_state known queued j h e = refl
queued_state known completed j h e = absurd (
    let f : str_eq (bytes "completed") (bytes "queued") ≡ true =
      subst (λ t. str_eq t (bytes "queued") ≡ true) h e in
    cc)
queued_state known (working p) j h e = let free = phase_not_queued p j h in cc
