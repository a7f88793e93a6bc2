-- ===== src/Middleware.antt =====
-- internal/middleware/auth.go. The parser of package jwt is a parameter: it gives the subject of a token
-- that it accepts with the server's secret, and none for an error, a signing method that is not HMAC
-- included.
pub mod Guard
use ping_goat.Common.{
  GoString, Option, [], bytes, drop, has_prefix, length, none, not, some, str_eq,
}
use ping_goat.Session.{◌>>=◌, ◌>>◌, Exec, pure, raise, require}
use ping_goat.Http.{Response, respond_with_error}
use ping_goat.Pipeline.Prompt.Text.{trim_space}

abbrev pub bearer : GoString
bearer = bytes "Bearer "

abbrev pub unauthorized : GoString → Response
unauthorized msg = respond_with_error 401 msg

abbrev accepted : Option GoString → Exec Response GoString
accepted none = raise (unauthorized (bytes "Invalid token"))
accepted (some subject) = pure subject

-- The token behind the prefix: strings.TrimPrefix and strings.TrimSpace.
unfoldable pub token_of : GoString → GoString
unfolding trim_space
token_of header = trim_space (drop (length bearer) header)

-- `JWTAuth`: the Authorization header (empty, if there is none), and the next handler, which finds the
-- subject in its context.
unfoldable pub jwt_auth :
    (GoString → Option GoString)
    → GoString
    → (GoString → Exec Response Response)
    → Exec Response Response
unfolding token_of has_prefix str_eq
jwt_auth parse header next = do
  require (not (str_eq header [])) (unauthorized (bytes "Missing Authorization header"))
  require (has_prefix header bearer) (unauthorized (bytes "Invalid Authorization header format"))
  subject ← accepted (parse (token_of header))
  require (not (str_eq subject [])) (unauthorized (bytes "Invalid token"))
  next subject
