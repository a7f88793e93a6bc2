-- ===== src/Pipeline/Store/Rounds.antt =====
-- The loop over the documents in internal/pipeline/store.go, when all its calls succeed and nobody else
-- acts.
use ping_goat.Common.{
  All, Bool, List, [], ap, arith, false, ok, refl, str_eq, suc, sym, to_int32, true, ℕ, ℤ, ◌<◌,
  ◌==◌, ◌∙◌, ◌∷◌, ◌≡◌,
}
use ping_goat.Database.Rows.{Distinct}
use mathlib.Core.Path.{subst}
use ping_goat.Database.{PgInt4, Db, has_row}
use ping_goat.Database.Documents.{upsert_doc_cache, upsert_document}
use ping_goat.Database.Upserts.{
  upsert_document-Holds, Holds, IsNewId, upsert_document-IsNewId, upsert_doc_cache-IsNewId,
  upsert_doc_cache-documents, upsert_doc_cache-jobs, upsert_doc_cache-ok, upsert_document-jobs,
  upsert_document-kept, upsert_document-ok,
}
use ping_goat.Gemini.{doc_type_string}
use ping_goat.Session.{Signal, Tx, World, arrive, or_else, tx_query, ◌>>=◌}
use ping_goat.Session.Calm.{IsCalm, IsCalm-arrive, after_stmt, tx_query_calm}
use ping_goat.Pipeline.Store.{
  StoreInput, StoredDoc, cache_params, document_params, store_docs, upsert_cache_failed,
  upsert_doc_failed,
}

-- The document stands in the table: the row of the job with its type holds its content and its counts
-- of tokens, each as an int32.
abbrev pub HasDoc : StoreInput → Db → StoredDoc → Type 0
HasDoc input db doc =
    let int4 : ℤ → PgInt4 = λ n. record { int32 = to_int32 n; valid = true } in
    Holds doc.result.content (int4 doc.result.prompt_tokens) (int4 doc.result.completion_tokens)
      input.job_id (doc_type_string doc.doc_type) db.documents

abbrev pub same_type : StoredDoc → StoredDoc → Bool
same_type d e = str_eq (doc_type_string d.doc_type) (doc_type_string e.doc_type)

-- The ids that the database generates from now on are new in its tables, and no two are the same.
pub record HasNewIds (outside : ℕ → Signal) (db : Db) : Type 0 where
  pub new : (n : ℕ) → IsNewId (outside n).uuid db
  pub apart : (m n : ℕ) → m < n → ((outside m).uuid == (outside n).uuid) ≡ false

pub HasNewIds-later :
    (outside : ℕ → Signal) (db : Db) → HasNewIds outside db → HasNewIds (λ n. outside (suc n)) db
HasNewIds-later outside db ids = record {
  new = λ n. ids.new (suc n);
  apart = λ m n lt. ids.apart (suc m) (suc n) (omega arith);
}

-- What the loop over the documents makes of a transaction.
pub record Stores (input : StoreInput) (docs : List StoredDoc) (tx : Tx) (w : World) : Type 0 where
  pub tx_after : Tx
  pub w_after : World
  pub result : store_docs input docs tx w ≡ (ok tx_after, w_after)
  pub shared : w_after.shared ≡ w.shared
  pub calm : IsCalm w_after
  pub now : tx_after.now ≡ tx.now
  pub jobs : (tx_after.writes w.shared.db).jobs ≡ (tx.writes w.shared.db).jobs
  pub kept :
      (doc : StoredDoc)
      → has_row (same_type doc) docs ≡ false
      → HasDoc input (tx.writes w.shared.db) doc
      → HasDoc input (tx_after.writes w.shared.db) doc
  pub stored : All (HasDoc input (tx_after.writes w.shared.db)) docs

-- The two statements of one round.
module _ (input : StoreInput) (doc : StoredDoc) (tx : Tx) (w : World) where
  document_tx : Tx
  document_tx = after_stmt (upsert_document (document_params input doc)) tx w

  cache_tx : Tx
  unfolding document_tx
  cache_tx = after_stmt (upsert_doc_cache (cache_params input doc)) document_tx (arrive w w.shared)

  round_world : World
  round_world = arrive (arrive w w.shared) w.shared

  round_result :
      (docs : List StoredDoc)
      → IsCalm w
      → HasNewIds w.outside (tx.writes w.shared.db)
      → has_row (λ j. j.id == input.job_id) (tx.writes w.shared.db).jobs ≡ true
      → store_docs input (doc ∷ docs) tx w ≡ store_docs input docs cache_tx round_world
  unfolding store_docs cache_tx document_tx round_world
  round_result docs calm ids h =
      ap
        (λ r.
          ((or_else (λ _. r) (λ _. upsert_doc_failed) >>= λ stored.
          or_else (tx_query (upsert_doc_cache (cache_params input doc)) stored.1)
            (λ _. upsert_cache_failed)
          >>= λ cached. store_docs input docs cached.1)
            w))
        (tx_query_calm (upsert_document (document_params input doc)) tx w tt calm
          (upsert_document-ok (document_params input doc) _ _ _ (ids.new 0) h))
      ∙ ap
          (λ r.
            ((or_else (λ _. r) (λ _. upsert_cache_failed) >>= λ cached.
            store_docs input docs cached.1)
              (arrive w w.shared)))
          (tx_query_calm (upsert_doc_cache (cache_params input doc)) document_tx (arrive w w.shared)
            tt (IsCalm-arrive w w.shared calm)
            (upsert_doc_cache-ok (cache_params input doc) _ _ _ (
              upsert_document-IsNewId (document_params input doc) _ _ _ _
                (ids.apart 0 1 (omega arith)) (ids.new 1))))

  round_jobs : (cache_tx.writes w.shared.db).jobs ≡ (tx.writes w.shared.db).jobs
  unfolding cache_tx document_tx
  round_jobs =
      upsert_doc_cache-jobs (cache_params input doc) _ _ _
      ∙ upsert_document-jobs (document_params input doc) _ _ _

  round_ids :
      HasNewIds w.outside (tx.writes w.shared.db)
      → HasNewIds round_world.outside (cache_tx.writes w.shared.db)
  unfolding cache_tx document_tx round_world
  round_ids ids = record {
    new = λ n.
        upsert_doc_cache-IsNewId (cache_params input doc) _ _ _ _
          (ids.apart 1 (suc (suc n)) (omega arith))
          (upsert_document-IsNewId (document_params input doc) _ _ _ _
            (ids.apart 0 (suc (suc n)) (omega arith)) (ids.new (suc (suc n))));
    apart = λ m n lt. ids.apart (suc (suc m)) (suc (suc n)) (omega arith);
  }

  round_stored :
      HasNewIds w.outside (tx.writes w.shared.db)
      → has_row (λ j. j.id == input.job_id) (tx.writes w.shared.db).jobs ≡ true
      → HasDoc input (cache_tx.writes w.shared.db) doc
  unfolding cache_tx document_tx
  round_stored ids h =
      subst (Holds _ _ _ _ _) (sym (upsert_doc_cache-documents (cache_params input doc) _ _ _))
        (upsert_document-Holds (document_params input doc) _ _ _ (ids.new 0) h)

  round_kept :
      (d : StoredDoc)
      → same_type d doc ≡ false
      → HasDoc input (tx.writes w.shared.db) d
      → HasDoc input (cache_tx.writes w.shared.db) d
  unfolding cache_tx document_tx
  round_kept d other h =
      subst (Holds _ _ _ _ _) (sym (upsert_doc_cache-documents (cache_params input doc) _ _ _))
        (record {
          row = h.row;
          found =
              upsert_document-kept (document_params input doc) _ _ _ input.job_id
                (doc_type_string d.doc_type) h.row other h.found;
          content_is = h.content_is;
          prompt_tokens_are = h.prompt_tokens_are;
          completion_tokens_are = h.completion_tokens_are;
        })

pub store_docs-Stores :
    (input : StoreInput) (docs : List StoredDoc) (tx : Tx) (w : World)
    → IsCalm w
    → HasNewIds w.outside (tx.writes w.shared.db)
    → Distinct same_type docs
    → has_row (λ j. j.id == input.job_id) (tx.writes w.shared.db).jobs ≡ true
    → Stores input docs tx w
unfolding store_docs round_world cache_tx document_tx
store_docs-Stores input [] tx w calm ids types h = record {
  tx_after = tx;
  w_after = w;
  result = refl;
  shared = refl;
  calm = calm;
  now = refl;
  jobs = refl;
  kept = λ doc other there. there;
  stored = tt;
}
store_docs-Stores input (doc ∷ docs) tx w calm ids (new_type, types) h =
    let jobs = round_jobs input doc tx w in
    let rest =
      store_docs-Stores input docs (cache_tx input doc tx w) (round_world input doc tx w)
        (λ n. calm (suc (suc n))) (round_ids input doc tx w ids) types
        (ap (has_row (λ j. j.id == input.job_id)) jobs ∙ h) in
    record {
      tx_after = rest.tx_after;
      w_after = rest.w_after;
      result = round_result input doc tx w docs calm ids h ∙ rest.result;
      shared = rest.shared;
      calm = rest.calm;
      now = rest.now;
      jobs = rest.jobs ∙ jobs;
      kept = λ d other there.
          rest.kept d (ground arith) (round_kept input doc tx w d (ground arith) there);
      stored = (rest.kept doc new_type (round_stored input doc tx w ids h), rest.stored);
    }
