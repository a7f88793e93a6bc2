-- ===== src/Database/Documents.antt =====
-- internal/database/documents.sql.go and internal/database/doc_cache.sql.go.
use ping_goat.Common.{
  Bool, GoString, [], err, if◌then◌else◌, ok, str_eq, ℕ, ◌&&◌, ◌*◌, ◌++◌, ◌+◌, ◌==◌, ◌∷◌,
}
use ping_goat.Database.{
  unique_violation, Uuid, Time, PgInt4, at, DocCache, Document, pg_error, Stmt,
  foreign_key_violation, has_row, update_rows,
}

pub record UpsertDocumentParams : Type 0 where
  pub job_id : Uuid
  pub doc_type : GoString
  pub content : GoString
  pub prompt_tokens : PgInt4
  pub completion_tokens : PgInt4

pub record UpsertDocCacheParams : Type 0 where
  pub repo_url : GoString
  pub commit_sha : GoString
  pub doc_type : GoString
  pub content : GoString

-- The unique index (job_id, doc_type).
unfoldable pub is_document : Uuid → GoString → Document → Bool
unfolding str_eq
is_document job_id doc_type d = d.job_id == job_id && str_eq d.doc_type doc_type

-- The unique index (repo_url, commit_sha, doc_type).
unfoldable pub is_cached : GoString → GoString → GoString → DocCache → Bool
unfolding str_eq
is_cached repo_url commit_sha doc_type c =
    str_eq c.repo_url repo_url && (str_eq c.commit_sha commit_sha && str_eq c.doc_type doc_type)

abbrev pub new_document : UpsertDocumentParams → Time → Uuid → Document
new_document arg now uuid = record {
  id = uuid;
  job_id = arg.job_id;
  doc_type = arg.doc_type;
  content = arg.content;
  prompt_tokens = arg.prompt_tokens;
  completion_tokens = arg.completion_tokens;
  created_at = at now;
}

abbrev pub set_document : UpsertDocumentParams → Document → Document
set_document arg d = record d {
  content = arg.content;
  prompt_tokens = arg.prompt_tokens;
  completion_tokens = arg.completion_tokens;
}

-- INSERT … ON CONFLICT (job_id, doc_type) DO UPDATE. Of a new row the id must be new, and the reference
-- to the job is checked.
unfoldable pub upsert_document : UpsertDocumentParams → Stmt (Unit {0})
unfolding is_document
upsert_document arg now uuid db =
    let p = is_document arg.job_id arg.doc_type in
    if has_row p db.documents
    then (record db { documents = update_rows p (set_document arg) db.documents }, ok tt)
    else if has_row (λ d. d.id == uuid) db.documents
    then (db, err (pg_error unique_violation))
    else if has_row (λ j. j.id == arg.job_id) db.jobs
    then (record db { documents = db.documents ++ new_document arg now uuid ∷ [] }, ok tt)
    else (db, err (pg_error foreign_key_violation))

-- INTERVAL '7 days', in microseconds.
abbrev pub seven_days : ℕ
seven_days = 7 * 24 * 60 * 60 * 1000000

abbrev pub new_cached : UpsertDocCacheParams → Time → Uuid → DocCache
new_cached arg now uuid = record {
  id = uuid;
  repo_url = arg.repo_url;
  commit_sha = arg.commit_sha;
  doc_type = arg.doc_type;
  content = arg.content;
  created_at = at now;
  expires_at = at (now + seven_days);
}

abbrev pub set_cached : UpsertDocCacheParams → Time → DocCache → DocCache
set_cached arg now c = record c { content = arg.content; expires_at = at (now + seven_days) }

-- INSERT … ON CONFLICT (repo_url, commit_sha, doc_type) DO UPDATE. Of a new row the id must be new.
unfoldable pub upsert_doc_cache : UpsertDocCacheParams → Stmt (Unit {0})
unfolding is_cached
upsert_doc_cache arg now uuid db =
    let p = is_cached arg.repo_url arg.commit_sha arg.doc_type in
    if has_row p db.doc_cache
    then (record db { doc_cache = update_rows p (set_cached arg now) db.doc_cache }, ok tt)
    else if has_row (λ c. c.id == uuid) db.doc_cache
    then (db, err (pg_error unique_violation))
    else (record db { doc_cache = db.doc_cache ++ new_cached arg now uuid ∷ [] }, ok tt)
