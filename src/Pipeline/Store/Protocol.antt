-- ===== src/Pipeline/Store/Protocol.antt =====
-- What the transaction of internal/pipeline/store.go does to the stages of a protocol: until the commit
-- nothing, and with it the end.
use ping_goat.Common.{List, [], ap, not, ◌==◌, ◌∙◌, ◌∷◌, ◌≡◌}
use ping_goat.Database.{DbError, Time, Db, Uuid, Stmt, update_rows}
use ping_goat.Database.Jobs.{set_completed, is_job, complete_job}
use ping_goat.Database.Documents.{upsert_doc_cache, upsert_document}
use ping_goat.Database.Upserts.{upsert_document-jobs, upsert_doc_cache-jobs}
use ping_goat.Session.{tx_query, with_db, or_else, Shared, Tx}
use ping_goat.Session.Protocol.{
  Signals, later, Moves-require, Moves-commit, Moves-begin, Moves-tx_query, Moves-weaken,
  Moves-or_else, Moves-pure, Moves-bind, Moves,
}
use ping_goat.Pipeline.Store.{
  empty_results, upsert_cache_failed, cache_params, complete_failed, upsert_doc_failed,
  document_params, commit_failed, begin_failed, complete_params, StoredDoc, StoreError, store_docs,
  store_results, write_all, StoreInput,
}

-- What the transaction has written so far leaves the jobs as they are.
abbrev KeepsJobs : Tx → Type 0
KeepsJobs tx = (db : Db) → (tx.writes db).jobs ≡ db.jobs

-- Of the jobs it completes one, at some time.
abbrev Completes : StoreInput → Tx → Type 0
Completes input tx =
    (now : Time) × ((db : Db)
      → (tx.writes db).jobs
        ≡ update_rows (is_job input.job_id input.user_id)
            (set_completed (complete_params input) now) db.jobs)

module _ {G : Type 0} (I : Signals → G → Shared → Type 0) (idle : G)
    (rests : (o : Signals) (g : G) (s : Shared) → I o g s → I o idle s)
    (steady : (o : Signals) (g : G) (s : Shared) → I o g s → I (later o) g ((o 0).others s)) (g : G)
    (input : StoreInput) where
  tx_stmt-Moves :
      {A : Type 0} (Q : Tx → Type 0) (stmt : Stmt A) (tx : Tx) (e : StoreError)
      → ((uuid : Uuid) → Q (record tx { writes = λ db. (stmt tx.now uuid (tx.writes db)).0 }))
      → Moves I idle rests steady g
          (λ (a : A × Tx). Q a.1)
          (λ _. g)
          (or_else (tx_query stmt tx) (λ (_ : DbError). e))
  tx_stmt-Moves Q stmt tx e q =
      Moves-or_else I idle rests steady (λ _. e) (Moves-tx_query I idle rests steady stmt tx Q q)

  store_docs-Moves :
      (docs : List StoredDoc) (tx : Tx)
      → KeepsJobs tx
      → Moves I idle rests steady g KeepsJobs (λ _. g) (store_docs input docs tx)
  unfolding store_docs
  store_docs-Moves [] tx h = Moves-pure I idle rests steady tx h
  store_docs-Moves (doc ∷ docs) tx h =
      Moves-bind I idle rests steady
        (tx_stmt-Moves KeepsJobs (upsert_document (document_params input doc)) tx upsert_doc_failed
          (λ uuid db.
            upsert_document-jobs (document_params input doc) tx.now uuid (tx.writes db) ∙ h db))
        (λ stored h'.
          Moves-bind I idle rests steady
            (tx_stmt-Moves KeepsJobs (upsert_doc_cache (cache_params input doc)) stored.1
              upsert_cache_failed
              (λ uuid db.
                upsert_doc_cache-jobs (cache_params input doc) stored.1.now uuid
                  (stored.1.writes db)
                ∙ h' db))
            (λ cached h''. store_docs-Moves docs cached.1 h''))

  complete-Completes :
      (tx : Tx) (uuid : Uuid)
      → KeepsJobs tx
      → Completes input (record tx {
        writes = λ db. (complete_job (complete_params input) tx.now uuid (tx.writes db)).0;
      })
  unfolding complete_job
  complete-Completes tx uuid h = (
    tx.now,
    λ db.
        ap
          (update_rows (is_job input.job_id input.user_id)
            (set_completed (complete_params input) tx.now))
          (h db),
  )

  write_all-Moves : Moves I idle rests steady g (Completes input) (λ _. g) (write_all input)
  unfolding write_all
  write_all-Moves =
      Moves-bind I idle rests steady {Q = KeepsJobs}
        (Moves-or_else I idle rests steady (λ _. begin_failed)
          (Moves-weaken I idle rests steady (λ tx same db. ap (λ (d : Db). d.jobs) (same db))
            (Moves-begin I idle rests steady)))
        (λ tx h. Moves-bind I idle rests steady (store_docs-Moves input.docs tx h) (λ written h'.
          Moves-bind I idle rests steady
            (tx_stmt-Moves (Completes input) (complete_job (complete_params input)) written
              complete_failed (λ uuid. complete-Completes written uuid h'))
            (λ completed h''.
              Moves-bind I idle rests steady
                (Moves-require I idle rests steady (not (completed.0 == 0)) empty_results)
                (λ _ _. Moves-pure I idle rests steady completed.1 h''))))

  -- `StoreResults` ends the protocol: it completes the job, or has no effect on the jobs.
  pub store_results-Moves :
      ((now : Time) (o : Signals) (s : Shared) (db : Db)
        → db.jobs
          ≡ update_rows
              (is_job input.job_id input.user_id)
              (set_completed (complete_params input) now)
              s.db.jobs
        → I o g s
        → I o idle (with_db s db))
      → Moves I idle rests steady g (λ _. Unit {0}) (λ _. idle) (store_results input)
  unfolding store_results
  store_results-Moves completes = Moves-bind I idle rests steady write_all-Moves (λ tx (now, jobs).
      Moves-or_else I idle rests steady (λ _. commit_failed)
        (Moves-commit I idle rests steady tx
          (λ o s i. completes now o s (tx.writes s.db) (jobs s.db) i)))
