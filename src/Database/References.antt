-- ===== src/Database/References.antt =====
-- The writes of internal/database to documents, doc_cache and users keep the tables in order.
use ping_goat.Common.{
  All, All-append, All-map, Bool-cases, List, Option-cases, [], arith, inl, inr, true, ◌==◌, ◌||◌,
  ◌∷◌, ◌≡◌,
}
use ping_goat.Database.Rows.{has_row-append, All-update_rows}
use ping_goat.Database.Users.{insert_user, new_user, has_email, CreateUserParams, create_user}
use ping_goat.Database.{varchar, has_row, Uuid, Time, Document, Db}
use ping_goat.Database.WellFormed.{has_job, IsWellFormed}
use ping_goat.Database.Documents.{
  is_cached, is_document, UpsertDocumentParams, UpsertDocCacheParams, upsert_doc_cache,
  upsert_document, new_document, set_document,
}

-- Changes of the documents alone.
documents-IsWellFormed :
    (db : Db) (documents : List Document)
    → All (λ d. has_job db.jobs d.job_id ≡ true) documents
    → IsWellFormed db
    → IsWellFormed (record db { documents = documents })
documents-IsWellFormed db documents ok_documents h = record {
  job_ids = h.job_ids;
  jobs = h.jobs;
  owners = h.owners;
  documents_of = ok_documents;
}

-- Storing a document keeps the tables in order: none is stored without its job.
pub upsert_document-IsWellFormed :
    (arg : UpsertDocumentParams) (now : Time) (uuid : Uuid) (db : Db)
    → IsWellFormed db
    → IsWellFormed (upsert_document arg now uuid db).0
unfolding upsert_document
upsert_document-IsWellFormed arg now uuid db h =
    elim (Bool-cases (has_row (is_document arg.job_id arg.doc_type) db.documents)) [
      | inl old ↦ rw old (
          documents-IsWellFormed db _
            (All-update_rows _ _ (set_document arg) db.documents (λ d e. e) h.documents_of) h)
      | inr new ↦ elim (Bool-cases (has_row (λ d. d.id == uuid) db.documents)) [
        | inl taken ↦ rw (new, taken) h
        | inr free ↦ elim (Bool-cases (has_job db.jobs arg.job_id)) [
          | inl there ↦
              rw (new, free, there)
                (documents-IsWellFormed db _
                  (All-append _ db.documents (new_document arg now uuid ∷ []) h.documents_of
                    (there, tt))
                  h)
          | inr gone ↦ rw (new, free, gone) h
        ]
      ]
    ]

pub upsert_doc_cache-IsWellFormed :
    (arg : UpsertDocCacheParams) (now : Time) (uuid : Uuid) (db : Db)
    → IsWellFormed db
    → IsWellFormed (upsert_doc_cache arg now uuid db).0
unfolding upsert_doc_cache
upsert_doc_cache-IsWellFormed arg now uuid db h =
    elim (Bool-cases (has_row (is_cached arg.repo_url arg.commit_sha arg.doc_type) db.doc_cache)) [
      | inl old ↦ rw old (record {
        job_ids = h.job_ids;
        jobs = h.jobs;
        owners = h.owners;
        documents_of = h.documents_of;
      })
      | inr new ↦ elim (Bool-cases (has_row (λ c. c.id == uuid) db.doc_cache)) [
        | inl taken ↦ rw (new, taken) h
        | inr free ↦
            rw (new, free)
              (record {
                job_ids = h.job_ids;
                jobs = h.jobs;
                owners = h.owners;
                documents_of = h.documents_of;
              })
      ]
    ]

insert_user-IsWellFormed :
    (arg : CreateUserParams) (now : Time) (uuid : Uuid) (db : Db)
    → IsWellFormed db
    → IsWellFormed (insert_user arg now uuid db).0
unfolding insert_user
insert_user-IsWellFormed arg now uuid db h =
    elim (Bool-cases
      (has_row (λ u. u.id == uuid) db.users || has_row (has_email arg.email) db.users)) [
        | inl taken ↦ rw taken h
        | inr fresh ↦ rw fresh (record {
          job_ids = h.job_ids;
          jobs = h.jobs;
          owners =
              All-map
                (λ j e.
                  ground (
                    arith,
                    has_row-append (λ u. u.id == j.user_id) db.users (new_user arg now uuid),
                  ))
                db.jobs h.owners;
          documents_of = h.documents_of;
        })
      ]

pub create_user-IsWellFormed :
    (arg : CreateUserParams) (now : Time) (uuid : Uuid) (db : Db)
    → IsWellFormed db
    → IsWellFormed (create_user arg now uuid db).0
unfolding create_user
create_user-IsWellFormed arg now uuid db h = elim (Option-cases (varchar 255 arg.email)) [
  | inl too_long ↦ rw (create_user, too_long) h
  | inr (email, fits) ↦ elim (Option-cases (varchar 255 arg.password_hash)) [
    | inl too_long ↦ rw (create_user, fits, too_long) h
    | inr (hash, fits') ↦
        rw (create_user, fits, fits')
          (insert_user-IsWellFormed (record { email = email; password_hash = hash }) now uuid db h)
  ]
]
