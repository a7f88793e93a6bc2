-- ===== src/Pipeline/Workers/Lifecycle.antt =====
-- All runs of the workers and of the handlers follow the life of a job.
use ping_goat.Common.{
  Bool-cases, Option, Option-cases, [], arith, false, filter, inl, inr, none, not, refl, some, sym,
  ◌&&◌, ◌++◌, ◌==◌, ◌∙◌, ◌∷◌, ◌≡◌,
}
use ping_goat.Pipeline.Store.{}
use ping_goat.Pipeline.Status.{}
use ping_goat.Pipeline.Message.{}
use ping_goat.Database.{find_row, Job, Time, Uuid}
use ping_goat.Database.Jobs.{new_job, is_job, CreateJobParams}
use ping_goat.Database.Rows.{}
use ping_goat.Database.Keyed.{
  find_row-filter, find_row-filter-none, find_row-filter_absent, find_row-append_found,
  find_row-append_none,
}
use ping_goat.Pipeline.Workers.{
  here, next, give_up, store, generating, generate, parsing, cloning, parse, claim, receive, remove,
  is_known, create, empty_crew, Step, Run, Crew,
}
use ping_goat.Pipeline.Workers.Invariant.{empty_crew-IsSound, IsSound}
use ping_goat.Pipeline.Workers.Exclusion.{Run-IsSound}
use ping_goat.Pipeline.Workers.JobState.{
  and_then, none_yet, ◌⟶*◌, generated, parsed, absent, removed, created, queued, row_known,
  Shows-of_row, gone, Shows, stays, no_row, row_of, Follows, IsIn, JobState,
}
use ping_goat.Pipeline.Workers.Follows.{store-Follows, advance-Follows, claim-Follows, unchanged}
use mathlib.Core.Path.{subst}

module _ (id user_id : Uuid) (s : Crew) (h : IsSound s) (a : JobState)
    (now_in : IsIn id user_id s a) where
  remove-Follows :
      (k user : Uuid)
      → Follows id user_id a (record s { jobs = filter (λ j. not (is_job k user j)) s.jobs })
  remove-Follows k user = elim (Option-cases (row_of id user_id s)) [
    | inl nothing ↦
        unchanged id user_id s (record s { jobs = filter (λ j. not (is_job k user j)) s.jobs }) a
          (find_row-filter_absent (is_job id user_id) (λ j. not (is_job k user j)) s.jobs nothing
            ∙ sym nothing)
          refl now_in
    | inr (j, found) ↦ elim (Bool-cases (k == id && user == user_id)) [
      | inl mine ↦ (
        gone,
        subst (λ o. Shows (is_known s.issued id) o gone)
            (sym (
              find_row-filter-none (is_job id user_id) (λ j. not (is_job k user j)) s.jobs
                (λ j e. ground arith)))
            (row_known s h id user_id j found),
        removed,
      )
      | inr other ↦
          unchanged id user_id s (record s { jobs = filter (λ j. not (is_job k user j)) s.jobs }) a
            (find_row-filter (is_job id user_id) (λ j. not (is_job k user j)) s.jobs
              (λ j e. ground arith))
            refl now_in
    ]
  ]

  abbrev with_new : CreateJobParams → Time → Uuid → Crew
  with_new arg now uuid = record s {
    jobs = s.jobs ++ new_job arg now uuid ∷ [];
    issued = uuid ∷ s.issued;
  }

  create_none :
      (arg : CreateJobParams) (now : Time) (uuid : Uuid)
      → is_known s.issued uuid ≡ false
      → row_of id user_id s ≡ none
      → Follows id user_id a (with_new arg now uuid)
  create_none arg now uuid fresh nothing =
      let row = find_row-append_none (is_job id user_id) s.jobs (new_job arg now uuid) nothing in
      let known = is_known s.issued id in
      let state = no_row known a (subst (λ o. Shows known o a) nothing now_in) in
      let moved =
        λ (o : Option Job) (b : JobState)
            (e : find_row (is_job id user_id) (new_job arg now uuid ∷ []) ≡ o)
            (shows : Shows (is_known (uuid ∷ s.issued) id) o b).
          subst (λ o. Shows (is_known (uuid ∷ s.issued) id) o b) (sym (row ∙ e)) shows in
      elim (Bool-cases (is_job id user_id (new_job arg now uuid))) [
        | inl mine ↦ elim state [
          | inl (e, new) ↦
              (queued, moved (some (new_job arg now uuid)) queued (ground arith) refl, rw e created)
          | inr (e, old) ↦ absurd (
              let same : uuid ≡ id = ground arith in
              let two = subst (λ n. is_known s.issued n ≡ false) same fresh in cc)
        ]
        | inr other ↦ elim (Bool-cases (is_known (uuid ∷ s.issued) id)) [
          | inl taken ↦ (gone, moved none gone (ground arith) taken, removed)
          | inr free ↦ elim state [
            | inl (e, new) ↦ (absent, moved none absent (ground arith) free, rw e stays)
            | inr (e, old) ↦ absurd (ground arith)
          ]
        ]
      ]

  create-Follows :
      (arg : CreateJobParams) (now : Time) (uuid : Uuid)
      → is_known s.issued uuid ≡ false
      → Follows id user_id a (with_new arg now uuid)
  create-Follows arg now uuid fresh = elim (Option-cases (row_of id user_id s)) [
    | inl nothing ↦ create_none arg now uuid fresh nothing
    | inr (j, found) ↦
        let row = find_row-append_found (is_job id user_id) s.jobs (new_job arg now uuid) j found in
        (
          a,
          subst (λ o. Shows (is_known (uuid ∷ s.issued) id) o a) (sym row)
              (Shows-of_row (is_known s.issued id) (is_known (uuid ∷ s.issued) id) j a
                (subst (λ o. Shows (is_known s.issued id) o a) found now_in)),
          stays,
        )
  ]

-- Every step of the crew is a step of the machine, for each job.
pub Step-Follows :
    (id user_id : Uuid) {s t : Crew} (a : JobState)
    → IsSound s
    → Step s t
    → IsIn id user_id s a
    → Follows id user_id a t
Step-Follows id user_id {s} a h (create arg now uuid new e) now_in =
    rw e (create-Follows id user_id s h a now_in arg now uuid new)
Step-Follows id user_id {s} a h (remove k user e) now_in =
    rw e (remove-Follows id user_id s h a now_in k user)
Step-Follows id user_id {s} a h (receive i msg at e) now_in = rw e (a, now_in, stays)
Step-Follows id user_id {s} a h (claim i msg now at found e) now_in =
    rw e (claim-Follows id user_id s h a now_in i msg now)
Step-Follows id user_id {s} a h (parse i msg now at found e) now_in =
    rw e (advance-Follows id user_id s h a now_in i cloning parsing msg now at parsed)
Step-Follows id user_id {s} a h (generate i msg now at found e) now_in =
    rw e (advance-Follows id user_id s h a now_in i parsing generating msg now at generated)
Step-Follows id user_id {s} a h (store i msg input now at found k user e) now_in =
    rw e (store-Follows id user_id s h a now_in i msg input now at)
Step-Follows id user_id {s} a h (give_up i e) now_in = rw e (a, now_in, stays)

Run-Follows :
    (id user_id : Uuid) {s t : Crew} (a : JobState)
    → IsSound s
    → Run s t
    → IsIn id user_id s a
    → (b : JobState) × IsIn id user_id t b × (a ⟶* b)
Run-Follows id user_id a h here now_in = (a, now_in, none_yet)
Run-Follows id user_id a h (next run step) now_in =
    let (b, then_in, path) = Run-Follows id user_id a h run now_in in
    let (c, last_in, edge) = Step-Follows id user_id b (Run-IsSound run h) step then_in in
    (c, last_in, and_then path edge)

-- The crew refines the machine: from each state that a run can reach, whatever the workers, the
-- handlers and the failures do next, a job goes along the edges of the machine. So its status in the
-- table goes forward only, through all phases in turn, and a job that is completed or gone stays so,
-- or goes.
pub job_lifecycle :
    (id user_id : Uuid) (s t : Crew) (a : JobState)
    → Run empty_crew s
    → Run s t
    → IsIn id user_id s a
    → (b : JobState) × IsIn id user_id t b × (a ⟶* b)
job_lifecycle id user_id s t a before after now_in =
    Run-Follows id user_id a (Run-IsSound before empty_crew-IsSound) after now_in
