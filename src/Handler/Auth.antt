-- ===== src/Handler/Auth.antt =====
-- internal/handler/authHandler.go. Packages bcrypt and jwt, and the clock, are parameters.
pub mod Login
pub mod SignIn
pub mod Lifetime
use ping_goat.Common.{
  Bool, GoString, Option, [], bytes, if◌then◌else◌, none, not, scale, shift, some, str_eq, to_int64,
  ℕ, ℤ, ◌||◌,
}
use ping_goat.Database.{DbError, User, no_rows, other_error, pg_error}
use ping_goat.Database.Users.{create_user, get_user_by_email}
use ping_goat.Session.{◌>>=◌, ◌>>◌, Exec, or_else, pure, query, raise, require}
use ping_goat.Handler.{or_respond}
use ping_goat.Http.{
  Formats, Response, UserResponse, message, one_user, respond_with_error, respond_with_json,
}

-- Decoded from the body of a registration or a login.
pub record Credentials : Type 0 where
  pub email : GoString
  pub password : GoString

-- `jwt.RegisteredClaims`, with the times that NewNumericDate is given, in nanoseconds.
pub record Claims : Type 0 where
  pub subject : GoString
  pub issued_at : ℕ
  pub expires_at : ℤ

-- What the handlers use of bcrypt, of jwt and of the clock, with the two fields of the handler.
pub record AuthEnv : Type 0 where
  -- bcrypt.GenerateFromPassword, and whether bcrypt.CompareHashAndPassword returns nil.
  pub hash_password : GoString → Option GoString
  pub matches_hash : GoString → GoString → Bool
  -- SignedString, by the secret.
  pub sign : GoString → Claims → Option GoString
  -- The two readings of `time.Now()` of a login.
  pub issued_now : ℕ
  pub expiry_now : ℕ
  pub jwt_secret : GoString
  pub jwt_expiry_hours : ℤ

abbrev pub pg_unique_violation : GoString
pg_unique_violation = bytes "23505"

-- `time.Duration(h.jwtExpiryHours) * time.Hour`, an int64 of nanoseconds.
unfoldable pub token_lifetime : ℤ → ℤ
token_lifetime hours = to_int64 (scale hours 3_600_000_000_000)

-- The checks that both handlers begin with.
pub check_credentials : Option Credentials → Exec Response Credentials
unfolding str_eq respond_with_error
check_credentials body = do
  params ← or_respond body 400 (bytes "invalid JSON body")
  require (not (str_eq params.email [] || str_eq params.password []))
      (respond_with_error 400 (bytes "email and password are required"))
  pure params

-- `errors.As(err, &pgErr) && pgErr.Code == pgUniqueViolation`
pub create_error : DbError → Response
unfolding str_eq respond_with_error
create_error no_rows = respond_with_error 500 (bytes "failed to create user")
create_error other_error = respond_with_error 500 (bytes "failed to create user")
create_error (pg_error code) =
    if str_eq code pg_unique_violation
    then respond_with_error 409 (bytes "email already in use")
    else respond_with_error 500 (bytes "failed to create user")

abbrev pub user_response : Formats → User → Option GoString → UserResponse
user_response formats user token = record {
  id = formats.uuid_string user.id;
  email = user.email;
  created_at = formats.rfc3339 user.created_at.time;
  jwt_token = token;
}

unfoldable pub register : Formats → AuthEnv → Option Credentials → Exec Response Response
unfolding check_credentials create_error respond_with_error respond_with_json
register formats env body = do
  params ← check_credentials body
  hashed ← or_respond (env.hash_password params.password) 500 (bytes "failed to hash password")
  user ←
      or_else (query (create_user (record { email = params.email; password_hash = hashed })))
        create_error
  pure (respond_with_json 201 (one_user (user_response formats user none)))

abbrev pub wrong_credentials : Response
wrong_credentials = respond_with_error 401 (bytes "invalid email or password")

-- An email that nobody has leads to the same answer as a wrong password. The comparison with the dummy
-- hash has no result that is read.
pub login_error : DbError → Response
unfolding respond_with_error
login_error no_rows = wrong_credentials
login_error (pg_error code) = respond_with_error 500 (bytes "internal server error")
login_error other_error = respond_with_error 500 (bytes "internal server error")

unfoldable pub claims_of : Formats → AuthEnv → User → Claims
unfolding token_lifetime
claims_of formats env user = record {
  subject = formats.uuid_string user.id;
  issued_at = env.issued_now;
  expires_at = shift env.expiry_now (token_lifetime env.jwt_expiry_hours);
}

unfoldable pub login : Formats → AuthEnv → Option Credentials → Exec Response Response
unfolding check_credentials login_error respond_with_error respond_with_json
login formats env body = do
  params ← check_credentials body
  user ← or_else (query (get_user_by_email params.email)) login_error
  require (env.matches_hash user.password_hash params.password) wrong_credentials
  token ←
      or_respond (env.sign env.jwt_secret (claims_of formats env user)) 500
        (bytes "failed to sign token")
  pure (respond_with_json 200 (one_user (user_response formats user (some token))))

-- `App`
unfoldable pub app : Exec Response Response
unfolding respond_with_json
app = pure (respond_with_json 200 (message (bytes "Hello, world!")))
