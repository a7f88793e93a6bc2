-- ===== src/Pipeline/Store/Success.antt =====
-- What internal/pipeline/store.go stores, when all its calls succeed and nobody else acts.
use mathlib.Core.Path.{subst}
use ping_goat.Database.Rows.{Distinct}
use ping_goat.Common.{
  All, Bool, List, Result, [], ap, arith, not, ok, refl, suc, sym, true, ◌==◌, ◌∙◌, ◌∷◌, ◌≡◌,
}
use ping_goat.Database.Jobs.{set_completed, is_job, complete_job}
use ping_goat.Database.{update_rows, count_rows, Uuid, Job, has_row}
use ping_goat.Pipeline.Store.Rounds.{
  HasNewIds-later, same_type, HasNewIds, HasDoc, Stores, store_docs-Stores,
}
use ping_goat.Session.{
  with_db, Shared, commit, signal, Exec, require, pure, ◌>>◌, Tx, World, arrive, or_else, tx_query,
  ◌>>=◌,
}
use ping_goat.Session.Calm.{commit_calm, begin_calm, IsCalm, after_stmt, tx_query_calm}
use ping_goat.Pipeline.Store.{
  complete_params, StoreError, write_all, store_results, complete_failed, empty_results,
  begin_failed, commit_failed, StoreInput, store_docs,
}

-- What follows the loop, up to the commit.
abbrev completion : StoreInput → Tx → Exec StoreError Tx
completion input written = do
  completed ←
      or_else (tx_query (complete_job (complete_params input)) written) (λ _. complete_failed)
  require (not (completed.0 == 0)) empty_results
  pure completed.1

count_some :
    (p : Job → Bool) (rows : List Job) → has_row p rows ≡ true → not (count_rows p rows == 0) ≡ true
count_some p [] h = ground arith
count_some p (r ∷ rows) h = ground (arith, count_some p rows)

completion_calm :
    (input : StoreInput) (tx : Tx) (w : World)
    → IsCalm w
    → has_row (is_job input.job_id input.user_id) (tx.writes w.shared.db).jobs ≡ true
    → completion input tx w
      ≡ (ok (after_stmt (complete_job (complete_params input)) tx w), arrive w w.shared)
unfolding complete_job
completion_calm input tx w calm h =
    let p = is_job input.job_id input.user_id in
    let rows = (tx.writes w.shared.db).jobs in
    let next = after_stmt (complete_job (complete_params input)) tx w in
    ap
      (λ r.
        ((or_else (λ _. r) (λ _. complete_failed) >>= λ completed.
        require (not (completed.0 == 0)) empty_results >> pure completed.1)
          w))
      (tx_query_calm (complete_job (complete_params input)) tx w (count_rows p rows) calm refl)
    ∙ ap (λ b. (require b empty_results >> pure next) (arrive w w.shared)) (count_some p rows h)

by_key :
    (id user_id : Uuid) (rows : List Job)
    → has_row (is_job id user_id) rows ≡ true
    → has_row (λ j. j.id == id) rows ≡ true
by_key id user_id [] h = h
by_key id user_id (r ∷ rows) h = ground (arith, by_key id user_id rows)

-- The transaction as it begins.
abbrev first_tx : World → Tx
first_tx w = record { now = (signal w).now; writes = λ db. db }

module _ (input : StoreInput) (w : World) (calm : IsCalm w)
    (s : Stores input input.docs (first_tx w) (arrive w w.shared)) where
  jobs_behind : (s.tx_after.writes s.w_after.shared.db).jobs ≡ w.shared.db.jobs
  jobs_behind = ap (λ (v : Shared). (s.tx_after.writes v.db).jobs) s.shared ∙ s.jobs

  abbrev last_tx : Tx
  last_tx = after_stmt (complete_job (complete_params input)) s.tx_after s.w_after

  abbrev last_world : World
  last_world = arrive s.w_after s.w_after.shared

  write_all_calm :
      has_row (is_job input.job_id input.user_id) w.shared.db.jobs ≡ true
      → write_all input w ≡ (ok last_tx, last_world)
  unfolding write_all
  write_all_calm h =
      ap
        (λ r.
          ((or_else (λ _. r) (λ _. begin_failed) >>= λ tx.
          store_docs input input.docs tx >>= completion input)
            w))
        (begin_calm w calm)
      ∙ ap (λ r. (((λ _. r) >>= completion input) w)) s.result
      ∙ completion_calm input s.tx_after s.w_after s.calm
          (ap (has_row (is_job input.job_id input.user_id)) jobs_behind ∙ h)

  store_results_calm :
      has_row (is_job input.job_id input.user_id) w.shared.db.jobs ≡ true
      → store_results input w ≡ (
        ok tt,
        arrive last_world (with_db last_world.shared (last_tx.writes last_world.shared.db)),
      )
  unfolding store_results
  store_results_calm h =
      ap (λ r. (((λ _. r) >>= λ tx. or_else (commit tx) (λ _. commit_failed)) w)) (write_all_calm h)
      ∙ ap (λ r. or_else (λ _. r) (λ _. commit_failed) last_world)
          (commit_calm last_tx last_world (λ n. s.calm (suc n)))

  completed_jobs :
      (last_tx.writes last_world.shared.db).jobs
      ≡ update_rows
          (is_job input.job_id input.user_id)
          (set_completed (complete_params input) (signal w).now)
          w.shared.db.jobs
  unfolding complete_job
  completed_jobs =
      ap
        (λ now.
          update_rows (is_job input.job_id input.user_id)
            (set_completed (complete_params input) now)
            (s.tx_after.writes s.w_after.shared.db).jobs)
        s.now
      ∙ ap
          (update_rows (is_job input.job_id input.user_id)
            (set_completed (complete_params input) (signal w).now))
          jobs_behind

  stored_docs : All (HasDoc input (last_tx.writes last_world.shared.db)) input.docs
  unfolding complete_job
  stored_docs =
      subst (λ (v : Shared). All (HasDoc input (s.tx_after.writes v.db)) input.docs) (sym s.shared)
        s.stored

-- When all its calls succeed, nobody else acts, and the job is there, `StoreResults` succeeds: the job
-- is completed at the time of the transaction with its commit and its counts, every other job is as it
-- was, and each document stands in the table with its content and its tokens, if no two are of one type
-- and the ids that the database generates are new.
pub store_results_stores :
    (input : StoreInput) (w : World)
    → IsCalm w
    → HasNewIds w.outside w.shared.db
    → Distinct same_type input.docs
    → has_row (is_job input.job_id input.user_id) w.shared.db.jobs ≡ true
    → let out = store_results input w in
      (out.0 ≡ ok tt)
      × (out.1.shared.db.jobs
          ≡ update_rows
              (is_job input.job_id input.user_id)
              (set_completed (complete_params input) (signal w).now)
              w.shared.db.jobs)
      × All (HasDoc input out.1.shared.db) input.docs
store_results_stores input w calm ids types h =
    let p = is_job input.job_id input.user_id in
    let s =
      store_docs-Stores input input.docs (first_tx w) (arrive w w.shared) (λ n. calm (suc n))
        (HasNewIds-later w.outside w.shared.db ids) types
        (by_key input.job_id input.user_id w.shared.db.jobs h) in
    subst
      (λ (out : Result StoreError (Unit {0}) × World).
        (out.0 ≡ ok tt)
        × (out.1.shared.db.jobs
            ≡ update_rows p (set_completed (complete_params input) (signal w).now) w.shared.db.jobs)
        × All (HasDoc input out.1.shared.db) input.docs)
      (sym (store_results_calm input w calm s h))
      (refl, completed_jobs input w calm s, stored_docs input w calm s)
