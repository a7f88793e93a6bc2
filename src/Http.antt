-- ===== src/Http.antt =====
-- internal/httputil, and the requests and responses of the handlers. A request is what the code
-- reads of it: the outcome of decoding its JSON body, its path and query parameters, its header and
-- the user that the middleware put into its context.
use ping_goat.Common.{GoString, List, Option, if◌then◌else◌, none, pos, some, ℕ, ℤ}
use ping_goat.Database.{Time, PgText, PgInt4, Uuid, PgTimestamptz}

pub record JobResponse : Type 0 where
  pub id : GoString
  pub repo_url : GoString
  pub branch : GoString
  pub status : GoString
  pub created_at : GoString

pub record JobDetail : Type 0 where
  pub id : GoString
  pub repo_url : GoString
  pub branch : Option GoString
  pub status : GoString
  pub file_count : ℤ
  pub gemini_calls_used : ℤ
  pub started_at : Option GoString
  pub completed_at : Option GoString
  pub commit_sha : Option GoString
  pub error_message : Option GoString
  pub created_at : GoString

pub record ResponseMeta : Type 0 where
  pub page : ℕ
  pub per_page : ℕ
  pub total : ℕ

pub record UserResponse : Type 0 where
  pub id : GoString
  pub email : GoString
  pub created_at : GoString
  pub jwt_token : Option GoString

-- What a handler writes: `RespondWithError` and `RespondWithJSON` marshal strings and numbers, which
-- does not fail.
pub data Body : Type 0 where
  error_message : GoString → Body
  one_job : JobResponse → Body
  job_detail : JobDetail → Body
  job_list : List JobResponse → ResponseMeta → Body
  one_user : UserResponse → Body
  message : GoString → Body
  no_body : Body

pub record Response : Type 0 where
  pub code : ℕ
  pub body : Body

unfoldable pub respond_with_error : ℕ → GoString → Response
respond_with_error code msg = record { code = code; body = error_message msg }

unfoldable pub respond_with_json : ℕ → Body → Response
respond_with_json code payload = record { code = code; body = payload }

-- How pgx and package time read and print: UUID.Scan, UUID.String and Time.Format(time.RFC3339).
pub record Formats : Type 0 where
  pub scan_uuid : GoString → Option Uuid
  pub uuid_string : Uuid → GoString
  pub rfc3339 : Time → GoString

-- `GetUserID`: none for its two errors, no user in the context and one that is no UUID.
unfoldable pub get_user_id : Formats → Option GoString → Option Uuid
get_user_id formats none = none
get_user_id formats (some user_id) = formats.scan_uuid user_id

unfoldable pub int_from_int4 : PgInt4 → ℤ
int_from_int4 v = if v.valid then v.int32 else pos 0

unfoldable pub format_nullable_time : Formats → PgTimestamptz → Option GoString
format_nullable_time formats v = if v.valid then some (formats.rfc3339 v.time) else none

unfoldable pub format_nullable_string : PgText → Option GoString
format_nullable_string v = if v.valid then some v.string else none
