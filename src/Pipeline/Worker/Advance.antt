-- ===== src/Pipeline/Worker/Advance.antt =====
-- How internal/pipeline/worker.go moves a job on, when nothing goes wrong.
use ping_goat.Common.{GoString, ap, arith, not, ok, refl, some, suc, true, ℕ, ◌&&◌, ◌==◌, ◌∙◌, ◌≡◌}
use ping_goat.Pipeline.Store.Rounds.{HasNewIds}
use ping_goat.Database.Rows.{find_row_passes, find_row-update_rows, count_rows-found}
use ping_goat.Pipeline.Status.{status_cloning}
use ping_goat.Pipeline.Message.{JobMessage}
use ping_goat.Session.{require, ◌>>=◌, with_db, arrive, query, signal, or_else, Exec, World}
use ping_goat.Session.Calm.{IsCalm, query_calm}
use ping_goat.Session.Guards.{bind_ok, else_ok}
use ping_goat.Database.{has_row, count_rows, update_rows, find_row, Db, Job, Stmt}
use ping_goat.Database.Jobs.{set_status, is_queued, update_job, set_job_status, is_job}
use ping_goat.Pipeline.Worker.{
  not_found, update_failed, status_params, set_status_to, claim, JobError,
}

-- A statement of the worker, and the guards on its error and on its row count.
module _ (stmt : Stmt ℕ) (failed missing : JobError) (w : World) where
  abbrev checked : Exec JobError (Unit {0})
  checked = or_else (query stmt) (λ _. failed) >>= λ affected. require (not (affected == 0)) missing

  checked_runs :
      (db : Db) (n : ℕ)
      → IsCalm w
      → stmt (signal w).now (signal w).uuid w.shared.db ≡ (db, ok n)
      → not (n == 0) ≡ true
      → checked w ≡ (ok tt, arrive w (with_db w.shared db))
  checked_runs db n calm e some_row =
      let v = arrive w (with_db w.shared db) in
      bind_ok (or_else (query stmt) (λ _. failed))
        (λ affected. require (not (affected == 0)) missing) w v n
        (else_ok (query stmt) (λ _. failed) w v n (query_calm stmt w db (ok n) calm e))
      ∙ ap (λ b. require b missing v) some_row

-- The row of a job in the tables of a world.
abbrev pub RowIs : JobMessage → Job → World → Type 0
RowIs msg job w = find_row (is_job msg.job_id msg.user_id) w.shared.db.jobs ≡ some job

-- The world behind a step that sets the status.
pub record Advances (msg : JobMessage) (status : GoString) (job : Job)
    (m : Exec JobError (Unit {0})) (w : World) : Type 0 where
  pub db_after : Db
  pub runs : m w ≡ (ok tt, arrive w (with_db w.shared db_after))
  pub row : RowIs msg (set_status status (signal w).now job) (arrive w (with_db w.shared db_after))
  pub documents : db_after.documents ≡ w.shared.db.documents
  pub doc_cache : db_after.doc_cache ≡ w.shared.db.doc_cache

pub Advances-HasNewIds :
    (msg : JobMessage) (status : GoString) (job : Job) (m : Exec JobError (Unit {0})) (w : World)
    (a : Advances msg status job m w)
    → HasNewIds w.outside w.shared.db
    → HasNewIds (λ n. w.outside (suc n)) a.db_after
Advances-HasNewIds msg status job m w a ids = record {
  new = λ n. record {
    in_documents =
        ap (has_row (λ d. d.id == (w.outside (suc n)).uuid)) a.documents
        ∙ (ids.new (suc n)).in_documents;
    in_doc_cache =
        ap (has_row (λ c. c.id == (w.outside (suc n)).uuid)) a.doc_cache
        ∙ (ids.new (suc n)).in_doc_cache;
  };
  apart = λ m n lt. ids.apart (suc m) (suc n) (omega arith);
}

module _ (msg : JobMessage) (job : Job) (w : World) (calm : IsCalm w)
    (there : RowIs msg job w) where
  pub claim-Advances : is_queued job ≡ true → Advances msg status_cloning job (claim msg) w
  unfolding claim update_job
  claim-Advances queued =
      let p = is_job msg.job_id msg.user_id in
      let q = λ (j : Job). p j && is_queued j in
      let f = set_status status_cloning (signal w).now in
      let hit : q job ≡ true =
        (let mine = find_row_passes p w.shared.db.jobs job there in ground arith) in
      record {
        db_after = record w.shared.db { jobs = update_rows q f w.shared.db.jobs };
        runs =
            checked_runs (update_job (status_params status_cloning msg)) update_failed not_found w _
              (count_rows q w.shared.db.jobs) calm refl
              (count_rows-found p q w.shared.db.jobs job there hit);
        row = find_row-update_rows p q f w.shared.db.jobs job (λ r. refl) there hit;
        documents = refl;
        doc_cache = refl;
      }

  pub set_status_to-Advances :
      (status : GoString) (failed : JobError)
      → Advances msg status job (set_status_to status msg failed) w
  unfolding set_status_to set_job_status
  set_status_to-Advances status failed =
      let p = is_job msg.job_id msg.user_id in
      let f = set_status status (signal w).now in
      let hit : p job ≡ true = find_row_passes p w.shared.db.jobs job there in
      record {
        db_after = record w.shared.db { jobs = update_rows p f w.shared.db.jobs };
        runs =
            checked_runs (set_job_status (status_params status msg)) failed failed w _
              (count_rows p w.shared.db.jobs) calm refl
              (count_rows-found p p w.shared.db.jobs job there hit);
        row = find_row-update_rows p p f w.shared.db.jobs job (λ r. refl) there hit;
        documents = refl;
        doc_cache = refl;
      }
