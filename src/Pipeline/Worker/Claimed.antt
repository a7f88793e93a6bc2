-- ===== src/Pipeline/Worker/Claimed.antt =====
-- A job is claimed once: what internal/pipeline/worker.go and internal/pipeline/recovery.go make of a
-- job that is no longer queued.
use mathlib.Core.List.{Permᴰ}
use ping_goat.Database.Rows.{count_none, update_none}
use ping_goat.Database.Upserts.{upsert_document-jobs, upsert_doc_cache-jobs}
use ping_goat.Config.{Config}
use ping_goat.Session.Keeps.{Holds, Steady}
use mathlib.Core.Bool.{Bool-set}
use mathlib.Core.Path.{ap₂, subst}
use mathlib.Core.Logic.{∥∥₁_elim}
use ping_goat.Common.{
  Bool, GoString, List, Perm, Result, [], arith, bytes, err, false, filter, inl, inr, length,
  length-take, ok, ok-injective, refl, str_eq, suc, sym, take, zero, ℕ, ◌&&◌, ◌||◌, ◌∙◌, ◌∷◌, ◌≡◌,
  ◌≢◌, ◌≤◌, ◌⊎◌,
}
use ping_goat.Pipeline.Status.{status_cloning}
use ping_goat.Pipeline.Store.Atomic.{KeptByStore}
use ping_goat.Pipeline.Store.{complete_params, cache_params, document_params, StoreInput}
use ping_goat.Pipeline.Worker.Invariant.{after_claim-Ensures, KeptByWorker}
use ping_goat.Session.{
  ◌>>=◌, unheard, refused, delivered, arrive, Fault, signal, query, with_db, Shared, World,
}
use ping_goat.Pipeline.Message.{JobMessage}
use ping_goat.Database.WellFormed.{IsUnderway}
use ping_goat.Database.Jobs.{
  RowOrder, get_pending_job, set_completed, set_status, is_job, CompleteJobParams, complete_job,
  set_job_status, is_queued, update_job,
}
use ping_goat.Database.{Job, Time, update_rows, Uuid, has_row}
use ping_goat.Pipeline.Worker.{
  after_claim, JobError, not_found, process_job, Machine, store_input, update_failed, status_params,
  claim,
}

-- No job with this key is queued.
abbrev pub NotQueued : Uuid → Uuid → Shared → Type 0
NotQueued id user_id s = has_row (λ j. is_job id user_id j && is_queued j) s.db.jobs ≡ false

has_row-false-update :
    {A : Type 0} (q p : A → Bool) (f : A → A) (rows : List A)
    → ((r : A) → q r ≡ false → q (f r) ≡ false)
    → has_row q rows ≡ false
    → has_row q (update_rows p f rows) ≡ false
has_row-false-update q p f [] keep h = refl
has_row-false-update q p f (r ∷ rows) keep h =
    ground (arith, keep r, has_row-false-update q p f rows keep)

has_row-update_self :
    {A : Type 0} (p : A → Bool) (f : A → A) (rows : List A)
    → ((r : A) → p (f r) ≡ false)
    → has_row p (update_rows p f rows) ≡ false
has_row-update_self p f [] off = refl
has_row-update_self p f (r ∷ rows) off = ground (arith, off r, has_row-update_self p f rows off)

underway_not_queued : (s : GoString) → IsUnderway s → str_eq s (bytes "queued") ≡ false
unfolding str_eq
underway_not_queued s (inl e) = rw e
underway_not_queued s (inr (inl e)) = rw e
underway_not_queued s (inr (inr e)) = rw e

set_not_queued :
    (id user_id : Uuid) (p : Job → Bool) (f : Job → Job) (rows : List Job)
    → ((j : Job) → is_queued (f j) ≡ false)
    → has_row (λ j. is_job id user_id j && is_queued j) rows ≡ false
    → has_row (λ j. is_job id user_id j && is_queued j) (update_rows p f rows) ≡ false
set_not_queued id user_id p f rows off h =
    has_row-false-update (λ j. is_job id user_id j && is_queued j) p f rows
      (λ j _. ground (arith, off j)) h

status_not_queued :
    (status : GoString) (now : Time) (j : Job)
    → IsUnderway status
    → is_queued (set_status status now j) ≡ false
unfolding is_queued
status_not_queued status now j u = underway_not_queued status u

completed_not_queued :
    (arg : CompleteJobParams) (now : Time) (j : Job) → is_queued (set_completed arg now j) ≡ false
unfolding is_queued
completed_not_queued arg now j = refl

module _ (id user_id : Uuid) where
  store_keeps_NotQueued : (input : StoreInput) → KeptByStore (NotQueued id user_id) input
  unfolding complete_job
  store_keeps_NotQueued input = record {
    document =
        λ doc now uuid s h. rw (upsert_document-jobs (document_params input doc) now uuid s.db) h;
    cache = λ doc now uuid s h. rw (upsert_doc_cache-jobs (cache_params input doc) now uuid s.db) h;
    complete = λ now uuid s h.
        set_not_queued id user_id (is_job input.job_id input.user_id)
          (set_completed (complete_params input) now) s.db.jobs
          (completed_not_queued (complete_params input) now) h;
  }

  worker_keeps_NotQueued : (msg : JobMessage) → KeptByWorker (NotQueued id user_id) msg
  unfolding update_job set_job_status
  worker_keeps_NotQueued msg = record {
    claimed = λ now uuid s h.
        set_not_queued id user_id (λ j. is_job msg.job_id msg.user_id j && is_queued j)
          (set_status status_cloning now) s.db.jobs
          (λ j. status_not_queued status_cloning now j (inl refl)) h;
    status = λ status now uuid s u h.
        set_not_queued id user_id (is_job msg.job_id msg.user_id) (set_status status now) s.db.jobs
          (λ j. status_not_queued status now j u) h;
    stored = λ ws files docs. store_keeps_NotQueued (store_input msg ws files docs);
  }

-- A claim that runs leaves no queued job behind with its key.
update_job-NotQueued :
    (msg : JobMessage) (now : Time) (uuid : Uuid) (s : Shared)
    → NotQueued msg.job_id msg.user_id
        (with_db s (update_job (status_params status_cloning msg) now uuid s.db).0)
unfolding update_job
update_job-NotQueued msg now uuid s =
    has_row-update_self (λ j. is_job msg.job_id msg.user_id j && is_queued j)
      (set_status status_cloning now) s.db.jobs
      (λ j. ground (arith, status_not_queued status_cloning now j (inl refl)))

module _ (msg : JobMessage) (w : World) where
  arrived : Shared
  arrived = (signal w).others w.shared

  claimed : Shared
  claimed =
      with_db arrived
        (update_job (status_params status_cloning msg) (signal w).now (signal w).uuid arrived.db).0

  claim_cases :
      (fault : Fault)
      → (signal w).fault ≡ fault
      → ((claim msg w).0 ≡ err update_failed) ⊎ ((claim msg w).1 ≡ arrive w claimed)
  unfolding claim query claimed arrived
  claim_cases delivered e = inr (ground arith)
  claim_cases refused e = inl (ground arith)
  claim_cases unheard e = inl (ground arith)

  -- Unless the claim itself fails, the job is not queued behind it.
  claim_claims :
      Steady (NotQueued msg.job_id msg.user_id) w
      → ((claim msg w).0 ≡ err update_failed)
        ⊎ Holds (NotQueued msg.job_id msg.user_id) (claim msg w).1
  unfolding claimed
  claim_claims steady = elim (claim_cases (signal w).fault refl) [
    | inl failed ↦ inl failed
    | inr same ↦ inr (
        subst (Holds (NotQueued msg.job_id msg.user_id)) (sym same)
          (update_job-NotQueued msg (signal w).now (signal w).uuid arrived, λ n. steady (suc n)))
  ]

bind_claims :
    (msg : JobMessage) (machine : Machine) (cfg : Config) (r : Result JobError (Unit {0}))
    (w : World)
    → (r ≡ err update_failed) ⊎ Holds (NotQueued msg.job_id msg.user_id) w
    → let (r', w') = ((λ _. (r, w)) >>= λ (_ : Unit {0}). after_claim machine cfg msg) w in
      r' ≢ err update_failed → NotQueued msg.job_id msg.user_id w'.shared
bind_claims msg machine cfg (ok a) w (inl e) other = cc
bind_claims msg machine cfg (ok a) w (inr h) other =
    ((after_claim-Ensures (NotQueued msg.job_id msg.user_id) msg
        (worker_keeps_NotQueued msg.job_id msg.user_id msg) machine cfg).at
      w h).0.0
bind_claims msg machine cfg (err e) w (inl same) other = absurd (other same)
bind_claims msg machine cfg (err e) w (inr h) other = h.0

-- Once `processJob` has claimed a job, the job is not queued again on any path, however the later
-- stages end, if no other puts it back: a job that fails is not left for a retry.
pub process_job_claims :
    (machine : Machine) (cfg : Config) (msg : JobMessage) (w : World)
    → Steady (NotQueued msg.job_id msg.user_id) w
    → (process_job machine cfg msg w).0 ≢ err update_failed
    → NotQueued msg.job_id msg.user_id (process_job machine cfg msg w).1.shared
unfolding process_job
process_job_claims machine cfg msg w steady other =
    bind_claims msg machine cfg (claim msg w).0 (claim msg w).1 (claim_claims msg w steady) other

-- A message for a job that is not queued is dropped: `processJob` fails before it clones anything, and
-- leaves the tables, the channel and the temporary directories as they are.
pub process_job-NotQueued :
    (machine : Machine) (cfg : Config) (msg : JobMessage) (w : World)
    → NotQueued msg.job_id msg.user_id ((signal w).others w.shared)
    → (((process_job machine cfg msg w).0 ≡ err update_failed)
        ⊎ ((process_job machine cfg msg w).0 ≡ err not_found))
      × ((process_job machine cfg msg w).1 ≡ arrive w ((signal w).others w.shared))
unfolding process_job claim query update_job
process_job-NotQueued machine cfg msg w h =
    let q = λ (j : Job). is_job msg.job_id msg.user_id j && is_queued j in
    let rows = ((signal w).others w.shared).db.jobs in
    ground
      (arith, update_none q (set_status status_cloning (signal w).now) rows h, count_none q rows h)

or_swap : (a b c : Bool) → (a || (b || c)) ≡ (b || (a || c))
or_swap a b c = ground arith

has_row-permᴰ : (q : Job → Bool) {xs ys : List Job} → Permᴰ xs ys → has_row q xs ≡ has_row q ys
has_row-permᴰ q Permᴰ.nil = refl
has_row-permᴰ q (Permᴰ.cons a p) = ap₂ (λ x b. q x || b) a (has_row-permᴰ q p)
has_row-permᴰ q (Permᴰ.swap {a} {b} {l} e f) = rw (e, f) (or_swap (q _) (q _) (has_row q l))
has_row-permᴰ q (Permᴰ.trans p r) = has_row-permᴰ q p ∙ has_row-permᴰ q r

has_row-perm : (q : Job → Bool) {xs ys : List Job} → Perm xs ys → has_row q xs ≡ has_row q ys
has_row-perm q p = ∥∥₁_elim p (Bool-set _ _) (has_row-permᴰ q)

has_row-take :
    (q : Job → Bool) (n : ℕ) (rows : List Job)
    → has_row q rows ≡ false
    → has_row q (take n rows) ≡ false
has_row-take q zero rows h = refl
has_row-take q (suc n) [] h = refl
has_row-take q (suc n) (r ∷ rows) h = ground (arith, has_row-take q n rows)

pending_rows :
    (p : Job → Bool) (q : Job → Bool) (rows : List Job)
    → has_row (λ j. p j && q j) rows ≡ false
    → has_row p (filter q rows) ≡ false
pending_rows p q [] h = refl
pending_rows p q (r ∷ rows) h = ground (arith, pending_rows p q rows)

-- No job that is not queued is among the pending jobs that the sweep reads and sends, of which there
-- are 50 at most.
get_pending_job_skips :
    (order : RowOrder) (id user_id now uuid : ℕ) (s : Shared) (jobs : List Job)
    → NotQueued id user_id s
    → (get_pending_job order now uuid s.db).1 ≡ ok jobs
    → (has_row (is_job id user_id) jobs ≡ false) × (length jobs ≤ 50)
unfolding get_pending_job
get_pending_job_skips order id user_id now uuid s jobs h e =
    subst (λ l. (has_row (is_job id user_id) l ≡ false) × (length l ≤ 50)) (ok-injective e)
      (
        has_row-take (is_job id user_id) 50 _ (
            has_row-perm (is_job id user_id) (order.oldest_first-perm _)
            ∙ pending_rows (is_job id user_id) is_queued s.db.jobs h),
        omega (arith, length-take 50 (order.oldest_first (filter is_queued s.db.jobs))),
      )
