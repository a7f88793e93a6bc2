-- ===== src/Database/Users.antt =====
-- internal/database/users.sql.go.
use ping_goat.Common.{
  Bool, GoString, [], err, if◌then◌else◌, none, ok, some, str_eq, ◌++◌, ◌==◌, ◌||◌, ◌∷◌,
}
use ping_goat.Database.{
  string_data_right_truncation, varchar, Uuid, Time, PgText, null_text, at, User, pg_error, Stmt,
  unique_violation, find_row, has_row, update_rows, one_row,
}

pub record CreateUserParams : Type 0 where
  pub email : GoString
  pub password_hash : GoString

pub record UpdateGithubTokenParams : Type 0 where
  pub id : Uuid
  pub github_token_enc : PgText

unfoldable pub has_email : GoString → User → Bool
unfolding str_eq
has_email email u = str_eq u.email email

abbrev pub new_user : CreateUserParams → Time → Uuid → User
new_user arg now uuid = record {
  id = uuid;
  email = arg.email;
  password_hash = arg.password_hash;
  github_token_enc = null_text;
  created_at = at now;
  updated_at = at now;
}

-- The primary key and the unique email are checked.
unfoldable pub insert_user : CreateUserParams → Stmt User
unfolding has_email
insert_user arg now uuid db =
    if has_row (λ u. u.id == uuid) db.users || has_row (has_email arg.email) db.users
    then (db, err (pg_error unique_violation))
    else (record db { users = db.users ++ new_user arg now uuid ∷ [] }, ok (new_user arg now uuid))

-- Both columns are varchar(255).
unfoldable pub create_user : CreateUserParams → Stmt User
unfolding insert_user varchar
create_user arg now uuid db = elim (varchar 255 arg.email) [
  | none ↦ (db, err (pg_error string_data_right_truncation))
  | some email ↦ elim (varchar 255 arg.password_hash) [
    | none ↦ (db, err (pg_error string_data_right_truncation))
    | some hash ↦ insert_user (record { email = email; password_hash = hash }) now uuid db
  ]
]

unfoldable pub get_user_by_email : GoString → Stmt User
unfolding has_email
get_user_by_email email now uuid db = (db, one_row (find_row (has_email email) db.users))

unfoldable pub get_user_by_id : Uuid → Stmt User
get_user_by_id id now uuid db = (db, one_row (find_row (λ u. u.id == id) db.users))

abbrev set_token : PgText → Time → User → User
set_token token now u = record u { github_token_enc = token; updated_at = at now }

unfoldable pub update_github_token : UpdateGithubTokenParams → Stmt (Unit {0})
update_github_token arg now uuid db = (
  record db {
    users = update_rows (λ u. u.id == arg.id) (set_token arg.github_token_enc now) db.users;
  },
  ok tt,
)

unfoldable pub delete_github_token : Uuid → Stmt (Unit {0})
delete_github_token id now uuid db =
    (record db { users = update_rows (λ u. u.id == id) (set_token null_text now) db.users }, ok tt)
