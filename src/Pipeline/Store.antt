-- ===== src/Pipeline/Store.antt =====
-- internal/pipeline/store.go
pub mod Atomic
pub mod Frames
pub mod Rounds
pub mod Success
pub mod Protocol
use ping_goat.Common.{GoString, List, [], not, to_int32, true, ℤ, ◌==◌, ◌∷◌}
use ping_goat.Database.Jobs.{complete_job, CompleteJobParams}
use ping_goat.Database.{PgInt4, Uuid, PgText}
use ping_goat.Database.Documents.{
  upsert_doc_cache, upsert_document, UpsertDocumentParams, UpsertDocCacheParams,
}
use ping_goat.Session.{commit, require, ◌>>◌, tx_query, begin, or_else, ◌>>=◌, pure, Tx, Exec}
use ping_goat.Gemini.{DocType, doc_type_string, GenResult}

pub record StoredDoc : Type 0 where
  pub doc_type : DocType
  pub result : GenResult

pub record StoreInput : Type 0 where
  pub job_id : Uuid
  pub user_id : Uuid
  pub repo_url : GoString
  pub commit_sha : GoString
  pub file_count : ℤ
  pub gemini_calls_used : ℤ
  pub docs : List StoredDoc

pub data StoreError : Type 0 where
  begin_failed upsert_doc_failed upsert_cache_failed complete_failed empty_results commit_failed :
      StoreError

abbrev pub valid_int4 : ℤ → PgInt4
valid_int4 n = record { int32 = n; valid = true }

abbrev pub valid_text : GoString → PgText
valid_text s = record { string = s; valid = true }

abbrev pub document_params : StoreInput → StoredDoc → UpsertDocumentParams
document_params input doc = record {
  job_id = input.job_id;
  doc_type = doc_type_string doc.doc_type;
  content = doc.result.content;
  prompt_tokens = valid_int4 (to_int32 doc.result.prompt_tokens);
  completion_tokens = valid_int4 (to_int32 doc.result.completion_tokens);
}

abbrev pub cache_params : StoreInput → StoredDoc → UpsertDocCacheParams
cache_params input doc = record {
  repo_url = input.repo_url;
  commit_sha = input.commit_sha;
  doc_type = doc_type_string doc.doc_type;
  content = doc.result.content;
}

abbrev pub complete_params : StoreInput → CompleteJobParams
complete_params input = record {
  commit_sha = valid_text input.commit_sha;
  file_count = valid_int4 input.file_count;
  gemini_calls_used = valid_int4 input.gemini_calls_used;
  id = input.job_id;
  user_id = input.user_id;
}

-- The loop over the documents.
pub store_docs : StoreInput → List StoredDoc → Tx → Exec StoreError Tx
store_docs input [] tx = pure tx
store_docs input (doc ∷ docs) tx = do
  stored ←
      or_else (tx_query (upsert_document (document_params input doc)) tx) (λ _. upsert_doc_failed)
  cached ←
      or_else (tx_query (upsert_doc_cache (cache_params input doc)) stored.1)
        (λ _. upsert_cache_failed)
  store_docs input docs cached.1

-- All that stands in front of `tx.Commit`.
pub write_all : StoreInput → Exec StoreError Tx
unfolding store_docs
write_all input = do
  tx ← or_else begin (λ _. begin_failed)
  written ← store_docs input input.docs tx
  completed ←
      or_else (tx_query (complete_job (complete_params input)) written) (λ _. complete_failed)
  require (not (completed.0 == 0)) empty_results
  pure completed.1

-- An early return rolls the transaction back: what it would have written is dropped.
unfoldable pub store_results : StoreInput → Exec StoreError (Unit {0})
unfolding write_all
store_results input = do tx ← write_all input; or_else (commit tx) (λ _. commit_failed)
