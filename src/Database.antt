-- ===== src/Database.antt =====
-- internal/database/models.go: the rows, with the tables of sql/schema that hold them. A pgtype.UUID
-- that has been scanned is a 128-bit number, and a time is a number of microseconds. The three
-- nullable types of pgtype are the structs that the code reads; NULL is the value that is not valid.
pub mod Jobs
pub mod Documents
pub mod Users
pub mod Rows
pub mod WellFormed
pub mod References
pub mod Upserts
pub mod Order
pub mod Unique
pub mod Keyed
use mathlib.Core.Option
use ping_goat.Common.{
  Bool, GoString, List, Option, Result, [], bytes, err, false, filter, if◌then◌else◌, leb, length,
  map, none, ok, pos, some, suc, true, zero, ℕ, ℤ, ◌&&◌, ◌==◌, ◌||◌, ◌∷◌,
}

abbrev pub Uuid : Type 0
Uuid = ℕ

abbrev pub Time : Type 0
Time = ℕ

pub record PgText : Type 0 where
  pub string : GoString
  pub valid : Bool

pub record PgInt4 : Type 0 where
  pub int32 : ℤ
  pub valid : Bool

pub record PgTimestamptz : Type 0 where
  pub time : Time
  pub valid : Bool

abbrev pub null_text : PgText
null_text = record { string = []; valid = false }

abbrev pub null_int4 : PgInt4
null_int4 = record { int32 = pos 0; valid = false }

abbrev pub null_time : PgTimestamptz
null_time = record { time = 0; valid = false }

abbrev pub at : Time → PgTimestamptz
at t = record { time = t; valid = true }

pub record DocCache : Type 0 where
  pub id : Uuid
  pub repo_url : GoString
  pub commit_sha : GoString
  pub doc_type : GoString
  pub content : GoString
  pub created_at : PgTimestamptz
  pub expires_at : PgTimestamptz

pub record Document : Type 0 where
  pub id : Uuid
  pub job_id : Uuid
  pub doc_type : GoString
  pub content : GoString
  pub prompt_tokens : PgInt4
  pub completion_tokens : PgInt4
  pub created_at : PgTimestamptz

pub record Job : Type 0 where
  pub id : Uuid
  pub user_id : Uuid
  pub repo_url : GoString
  pub branch : PgText
  pub commit_sha : PgText
  pub status : GoString
  pub error_message : PgText
  pub file_count : PgInt4
  pub gemini_calls_used : PgInt4
  pub started_at : PgTimestamptz
  pub completed_at : PgTimestamptz
  pub created_at : PgTimestamptz
  pub updated_at : PgTimestamptz

pub record User : Type 0 where
  pub id : Uuid
  pub email : GoString
  pub password_hash : GoString
  pub github_token_enc : PgText
  pub created_at : PgTimestamptz
  pub updated_at : PgTimestamptz

-- The four tables. A row is added at the end; no query relies on that order.
pub record Db : Type 0 where
  pub users : List User
  pub jobs : List Job
  pub documents : List Document
  pub doc_cache : List DocCache

-- The errors that the callers tell apart: `pgx.ErrNoRows`, a `*pgconn.PgError` with its code, and
-- any other.
pub data DbError : Type 0 where
  no_rows : DbError
  pg_error : GoString → DbError
  other_error : DbError

-- A statement runs at a time, with a value of gen_random_uuid() at hand.
abbrev pub Stmt : Type 0 → Type 0
Stmt A = Time → Uuid → Db → Db × Result DbError A

-- The codes of a violated unique index, a violated foreign key, and a negative OFFSET or LIMIT.
abbrev pub unique_violation : GoString
unique_violation = bytes "23505"

abbrev pub foreign_key_violation : GoString
foreign_key_violation = bytes "23503"

abbrev pub invalid_row_count : GoString
invalid_row_count = bytes "2201W"

-- The code of a text that is longer than its column.
abbrev pub string_data_right_truncation : GoString
string_data_right_truncation = bytes "22001"

-- A byte of UTF-8 that does not begin a character.
abbrev is_continuation : ℕ → Bool
is_continuation c = leb 0x80 c && leb c 0xbf

all_spaces : GoString → Bool
all_spaces [] = true
all_spaces (c ∷ s) = c == b' ' && all_spaces s

-- What a column varchar(n) makes of a text: it has place for n characters; spaces over that are cut
-- off, and any other text that is longer is refused.
unfoldable pub varchar : ℕ → GoString → Option GoString
unfolding all_spaces
varchar n [] = some []
varchar zero (c ∷ s) =
    let rest = varchar zero s in
    if is_continuation c
    then Option.map (λ t. c ∷ t) rest
    else if all_spaces (c ∷ s)
    then some []
    else none
varchar (suc n) (c ∷ s) =
    Option.map (λ t. c ∷ t) (varchar (if is_continuation c then suc n else n) s)

-- The same of a text that can be NULL.
abbrev pub varchar_or_null : ℕ → PgText → Option PgText
varchar_or_null n text =
    if text.valid
    then Option.map (λ s. record text { string = s }) (varchar n text.string)
    else some text

-- The first row that passes a test.
abbrev pub find_row : {A : Type 0} → (A → Bool) → List A → Option A
find_row p [] = none
find_row p (row ∷ rows) = let rest = find_row p rows in if p row then some row else rest

abbrev pub has_row : {A : Type 0} → (A → Bool) → List A → Bool
has_row p [] = false
has_row p (row ∷ rows) = p row || has_row p rows

-- UPDATE … SET f WHERE p: the rows afterwards.
abbrev pub update_rows : {A : Type 0} → (A → Bool) → (A → A) → List A → List A
update_rows p f [] = []
update_rows p f (row ∷ rows) = (if p row then f row else row) ∷ update_rows p f rows

-- How many rows pass a test.
abbrev pub count_rows : {A : Type 0} → (A → Bool) → List A → ℕ
count_rows p rows = length (filter p rows)

-- The row of a :one query, or `pgx.ErrNoRows`.
abbrev pub one_row : {A : Type 0} → Option A → Result DbError A
one_row none = err no_rows
one_row (some row) = ok row
