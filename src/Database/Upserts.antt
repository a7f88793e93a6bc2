-- ===== src/Database/Upserts.antt =====
-- What the two upserts of internal/database/documents.sql.go and doc_cache.sql.go leave behind.
use ping_goat.Common.{
  Bool, GoString, List, Option-cases, arith, false, inl, inr, ok, refl, some, str_eq, str_eq_iff,
  str_eq_refl, sym, true, ◌==◌, ◌≡◌,
}
use ping_goat.Database.Keyed.{find_row-append_found, find_row-append, find_row-update_rows_if}
use mathlib.Core.Path.{subst}
use ping_goat.Database.{DocCache, PgInt4, find_row, Db, Time, Uuid, Document, has_row}
use ping_goat.Database.Rows.{
  find_row-update_rows, has_row-found, find_row-eq-none_iff, find_row_passes, has_row-update_rows,
  has_row-append,
}
use ping_goat.Database.Documents.{
  new_cached, set_cached, is_cached, UpsertDocumentParams, UpsertDocCacheParams, is_document,
  new_document, set_document, upsert_doc_cache, upsert_document,
}

pub upsert_document-jobs :
    (arg : UpsertDocumentParams) (now : Time) (uuid : Uuid) (db : Db)
    → (upsert_document arg now uuid db).0.jobs ≡ db.jobs
unfolding upsert_document
upsert_document-jobs arg now uuid db = ground arith

pub upsert_doc_cache-jobs :
    (arg : UpsertDocCacheParams) (now : Time) (uuid : Uuid) (db : Db)
    → (upsert_doc_cache arg now uuid db).0.jobs ≡ db.jobs
unfolding upsert_doc_cache
upsert_doc_cache-jobs arg now uuid db = ground arith

pub upsert_doc_cache-documents :
    (arg : UpsertDocCacheParams) (now : Time) (uuid : Uuid) (db : Db)
    → (upsert_doc_cache arg now uuid db).0.documents ≡ db.documents
unfolding upsert_doc_cache
upsert_doc_cache-documents arg now uuid db = ground arith

-- The id of a row to come is new in the two tables that the upserts fill.
pub record IsNewId (uuid : Uuid) (db : Db) : Type 0 where
  pub in_documents : has_row (λ d. d.id == uuid) db.documents ≡ false
  pub in_doc_cache : has_row (λ c. c.id == uuid) db.doc_cache ≡ false

pub upsert_doc_cache-ok :
    (arg : UpsertDocCacheParams) (now : Time) (uuid : Uuid) (db : Db)
    → IsNewId uuid db
    → (upsert_doc_cache arg now uuid db).1 ≡ ok tt
unfolding upsert_doc_cache
upsert_doc_cache-ok arg now uuid db new = ground (arith, new.in_doc_cache)

pub upsert_document-ok :
    (arg : UpsertDocumentParams) (now : Time) (uuid : Uuid) (db : Db)
    → IsNewId uuid db
    → has_row (λ j. j.id == arg.job_id) db.jobs ≡ true
    → (upsert_document arg now uuid db).1 ≡ ok tt
unfolding upsert_document
upsert_document-ok arg now uuid db new h = ground (arith, new.in_documents)

-- Another id that is new stays so.
pub upsert_document-IsNewId :
    (arg : UpsertDocumentParams) (now : Time) (uuid id : Uuid) (db : Db)
    → (uuid == id) ≡ false
    → IsNewId id db
    → IsNewId id (upsert_document arg now uuid db).0
unfolding upsert_document
upsert_document-IsNewId arg now uuid id db apart new = record {
  in_documents =
      let q : Document → Bool = λ d. d.id == id in
      let p = is_document arg.job_id arg.doc_type in
      ground (
        arith,
        new.in_documents,
        has_row-update_rows q p (set_document arg) db.documents (λ d. refl),
        has_row-append q db.documents (new_document arg now uuid),
      );
  in_doc_cache = ground (arith, new.in_doc_cache);
}

pub upsert_doc_cache-IsNewId :
    (arg : UpsertDocCacheParams) (now : Time) (uuid id : Uuid) (db : Db)
    → (uuid == id) ≡ false
    → IsNewId id db
    → IsNewId id (upsert_doc_cache arg now uuid db).0
unfolding upsert_doc_cache
upsert_doc_cache-IsNewId arg now uuid id db apart new = record {
  in_documents = ground (arith, new.in_documents);
  in_doc_cache =
      let q : DocCache → Bool = λ c. c.id == id in
      let p = is_cached arg.repo_url arg.commit_sha arg.doc_type in
      ground (
        arith,
        new.in_doc_cache,
        has_row-update_rows q p (set_cached arg now) db.doc_cache (λ c. refl),
        has_row-append q db.doc_cache (new_cached arg now uuid),
      );
}

-- The row of a document holds a content and its tokens.
pub record Holds (content : GoString) (prompt_tokens completion_tokens : PgInt4) (job_id : Uuid)
    (doc_type : GoString) (documents : List Document) : Type 0 where
  pub row : Document
  pub found : find_row (is_document job_id doc_type) documents ≡ some row
  pub content_is : row.content ≡ content
  pub prompt_tokens_are : row.prompt_tokens ≡ prompt_tokens
  pub completion_tokens_are : row.completion_tokens ≡ completion_tokens

document_key :
    (job_id : Uuid) (doc_type : GoString) (arg : UpsertDocumentParams) (d : Document)
    → is_document job_id doc_type (set_document arg d) ≡ is_document job_id doc_type d
unfolding is_document
document_key job_id doc_type arg d = refl

new_document_is :
    (arg : UpsertDocumentParams) (now : Time) (uuid : Uuid)
    → is_document arg.job_id arg.doc_type (new_document arg now uuid) ≡ true
unfolding is_document
new_document_is arg now uuid = ground (arith, str_eq_refl arg.doc_type)

pub upsert_document-Holds :
    (arg : UpsertDocumentParams) (now : Time) (uuid : Uuid) (db : Db)
    → IsNewId uuid db
    → has_row (λ j. j.id == arg.job_id) db.jobs ≡ true
    → Holds arg.content arg.prompt_tokens arg.completion_tokens arg.job_id arg.doc_type
        (upsert_document arg now uuid db).0.documents
unfolding upsert_document
upsert_document-Holds arg now uuid db new h =
    let p = is_document arg.job_id arg.doc_type in
    elim (Option-cases (find_row p db.documents)) [
      | inl none_yet ↦
          let absent = (find_row-eq-none_iff p db.documents).0 none_yet in
          rw (absent, new.in_documents, h)
            (record {
              row = new_document arg now uuid;
              found =
                  find_row-append p db.documents (new_document arg now uuid) absent
                    (new_document_is arg now uuid);
              content_is = refl;
              prompt_tokens_are = refl;
              completion_tokens_are = refl;
            })
      | inr (d, there) ↦ rw (has_row-found p db.documents d there) (record {
        row = set_document arg d;
        found =
            find_row-update_rows p p (set_document arg) db.documents d
              (document_key arg.job_id arg.doc_type arg) there
              (find_row_passes p db.documents d there);
        content_is = refl;
        prompt_tokens_are = refl;
        completion_tokens_are = refl;
      })
    ]

-- A row of one type is none of another.
other_type :
    (arg : UpsertDocumentParams) (job_id : Uuid) (doc_type : GoString) (d : Document)
    → str_eq doc_type arg.doc_type ≡ false
    → is_document job_id doc_type d ≡ true
    → is_document arg.job_id arg.doc_type d ≡ false
unfolding is_document
other_type arg job_id doc_type d apart h =
    let (mine, same) : (d.job_id == job_id ≡ true) × (str_eq d.doc_type doc_type ≡ true) =
      (ground arith, ground arith) in
    let e = (str_eq_iff d.doc_type doc_type).0 same in
    let missed : str_eq d.doc_type arg.doc_type ≡ false =
      subst (λ t. str_eq t arg.doc_type ≡ false) (sym e) apart in
    ground arith

pub upsert_document-kept :
    (arg : UpsertDocumentParams) (now : Time) (uuid : Uuid) (db : Db) (job_id : Uuid)
    (doc_type : GoString) (row : Document)
    → str_eq doc_type arg.doc_type ≡ false
    → find_row (is_document job_id doc_type) db.documents ≡ some row
    → find_row (is_document job_id doc_type) (upsert_document arg now uuid db).0.documents
      ≡ some row
unfolding upsert_document
upsert_document-kept arg now uuid db job_id doc_type row apart found =
    let p = is_document arg.job_id arg.doc_type in
    let q = is_document job_id doc_type in
    ground (
      arith,
      found,
      other_type arg job_id doc_type row apart (find_row_passes q db.documents row found),
      find_row-update_rows_if q p (set_document arg) db.documents row
          (document_key job_id doc_type arg) found,
      find_row-append_found q db.documents (new_document arg now uuid) row found,
    )
