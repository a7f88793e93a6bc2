-- ===== src/Pipeline/Store/Atomic.antt =====
-- internal/pipeline/store.go: one transaction for all writes of a finished job.
use ping_goat.Common.{List, Result, [], arith, err, not, ok, ◌==◌, ◌∷◌, ◌≡◌, ◌≢◌}
use ping_goat.Database.Jobs.{complete_job}
use ping_goat.Database.{DbError, Uuid, Time, Stmt}
use ping_goat.Database.Documents.{upsert_doc_cache, upsert_document}
use ping_goat.Session.Keeps.{
  Steady, Holds, Ensures-weaken, Ensures-tx_query_any, Ensures-commit, StmtKeeps-of,
  Ensures-require, Ensures-begin, Ensures-tx_query, Ensures-or_else, Ensures-bind, Ensures-pure,
  Ensures, TxKeeps,
}
use ping_goat.Session.{with_db, ◌>>=◌, commit, World, tx_query, or_else, Tx, Shared}
use ping_goat.Pipeline.Store.{
  write_all, commit_failed, empty_results, complete_failed, upsert_cache_failed, complete_params,
  cache_params, StoreError, document_params, begin_failed, upsert_doc_failed, StoreInput, StoredDoc,
  store_docs, store_results,
}

-- The statements of the transaction keep a property of the shared state.
pub record KeptByStore (P : Shared → Type 0) (input : StoreInput) : Type 0 where
  pub document :
      (doc : StoredDoc) (now : Time) (uuid : Uuid) (s : Shared)
      → P s
      → P (with_db s (upsert_document (document_params input doc) now uuid s.db).0)
  pub cache :
      (doc : StoredDoc) (now : Time) (uuid : Uuid) (s : Shared)
      → P s
      → P (with_db s (upsert_doc_cache (cache_params input doc) now uuid s.db).0)
  pub complete :
      (now : Time) (uuid : Uuid) (s : Shared)
      → P s
      → P (with_db s (complete_job (complete_params input) now uuid s.db).0)

module _ (P : Shared → Type 0) (input : StoreInput) (kept : KeptByStore P input) where
  -- A statement on the transaction keeps it, when it commits.
  tx_stmt-Ensures :
      {A : Type 0} (stmt : Stmt A) (e : StoreError) (tx : Tx)
      → ((now : Time) (uuid : Uuid) (s : Shared) → P s → P (with_db s (stmt now uuid s.db).0))
      → TxKeeps P tx
      → Ensures P (λ (a : A × Tx). TxKeeps P a.1) (or_else (tx_query stmt tx) (λ (_ : DbError). e))
  tx_stmt-Ensures stmt e tx keep h =
      Ensures-or_else P (λ _. e) (Ensures-tx_query P stmt tx (StmtKeeps-of P stmt keep) h)

  store_docs-Ensures :
      (docs : List StoredDoc) (tx : Tx)
      → TxKeeps P tx
      → Ensures P (TxKeeps P) (store_docs input docs tx)
  unfolding store_docs
  store_docs-Ensures [] tx h = Ensures-pure P tx h
  store_docs-Ensures (doc ∷ docs) tx h =
      Ensures-bind P
        (tx_stmt-Ensures (upsert_document (document_params input doc)) upsert_doc_failed tx
          (kept.document doc) h)
        (λ stored h'.
          Ensures-bind P
            (tx_stmt-Ensures (upsert_doc_cache (cache_params input doc)) upsert_cache_failed
              stored.1 (kept.cache doc) h')
            (λ cached h''. store_docs-Ensures docs cached.1 h''))

  write_all-Ensures : Ensures P (TxKeeps P) (write_all input)
  unfolding write_all
  write_all-Ensures =
      Ensures-bind P (Ensures-or_else P (λ _. begin_failed) (Ensures-begin P)) (λ tx h.
        Ensures-bind P (store_docs-Ensures input.docs tx h) (λ written h'.
          Ensures-bind P
            (tx_stmt-Ensures (complete_job (complete_params input)) complete_failed written
              kept.complete h')
            (λ completed h''.
              Ensures-bind P (Ensures-require P (not (completed.0 == 0)) empty_results)
                (λ _ _. Ensures-pure P completed.1 h''))))

  -- What the statements keep, `StoreResults` keeps, whatever fails in it, and whatever the others do
  -- meanwhile.
  pub store_results-Ensures : Ensures P (λ _. Unit {0}) (store_results input)
  unfolding store_results
  store_results-Ensures =
      Ensures-bind P write_all-Ensures
        (λ tx h. Ensures-or_else P (λ _. commit_failed) (Ensures-commit P tx h))

-- Before the commit nothing is written: a property of the tables and the channel that the others keep
-- is not lost, whatever the statements of the transaction are.
module _ (P : Shared → Type 0) where
  tx_query-Ensures :
      {A : Type 0} (stmt : Stmt A) (e : StoreError) (tx : Tx)
      → Ensures P (λ _. Unit {0}) (or_else (tx_query stmt tx) (λ (_ : DbError). e))
  tx_query-Ensures stmt e tx = Ensures-or_else P (λ _. e) (Ensures-tx_query_any P stmt tx)

  store_docs_untouched :
      (input : StoreInput) (docs : List StoredDoc) (tx : Tx)
      → Ensures P (λ _. Unit {0}) (store_docs input docs tx)
  unfolding store_docs
  store_docs_untouched input [] tx = Ensures-pure P tx tt
  store_docs_untouched input (doc ∷ docs) tx =
      Ensures-bind P
        (tx_query-Ensures (upsert_document (document_params input doc)) upsert_doc_failed tx)
        (λ stored _.
          Ensures-bind P
            (tx_query-Ensures (upsert_doc_cache (cache_params input doc)) upsert_cache_failed
              stored.1)
            (λ cached _. store_docs_untouched input docs cached.1))

  write_all_untouched : (input : StoreInput) → Ensures P (λ _. Unit {0}) (write_all input)
  unfolding write_all
  write_all_untouched input =
      Ensures-bind P
        (Ensures-or_else P (λ _. begin_failed) (Ensures-weaken P (λ _ _. tt) (Ensures-begin P)))
        (λ tx _. Ensures-bind P (store_docs_untouched input input.docs tx) (λ written _.
          Ensures-bind P
            (tx_query-Ensures (complete_job (complete_params input)) complete_failed written)
            (λ completed _.
              Ensures-bind P (Ensures-require P (not (completed.0 == 0)) empty_results)
                (λ _ _. Ensures-pure P completed.1 tt))))

  commit_error :
      (tx : Tx) (w : World) {e : StoreError}
      → (or_else (commit tx) (λ (_ : DbError). commit_failed) w).0 ≡ err e
      → e ≡ commit_failed
  unfolding commit
  commit_error tx w h = ground arith

  store_at :
      (r : Result StoreError Tx) (w : World) {e : StoreError}
      → Holds P w
      → let (r', w') =
          ((λ _. (r, w)) >>= λ tx. or_else (commit tx) (λ (_ : DbError). commit_failed)) w in
        r' ≡ err e → e ≢ commit_failed → P w'.shared
  store_at (ok tx) w h failed other = absurd (other (commit_error tx w failed))
  store_at (err e) w h failed other = h.0

  -- `StoreResults` writes all or nothing: if it fails in any way but in the commit itself, then what
  -- held of the tables and the channel, and is kept by the others, still holds, for any property
  -- at all.
  pub store_results_atomic :
      (input : StoreInput) (w : World) {e : StoreError}
      → P w.shared
      → Steady P w
      → (store_results input w).0 ≡ err e
      → e ≢ commit_failed
      → P (store_results input w).1.shared
  unfolding store_results
  store_results_atomic input w p steady failed other =
      store_at (write_all input w).0 (write_all input w).1
        ((write_all_untouched input).at w (p, steady)).0 failed other
