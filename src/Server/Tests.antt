-- ===== src/Server/Tests.antt =====
-- A new user, and requests with and without her token.
use ping_goat.Pipeline.Prompt.Text.{trim_space}
use mathlib.Core.Option.{some-injective}
use mathlib.Core.Path.{subst}
use ping_goat.Common.{
  GoString, Option, [], arith, bytes, drop, err, has_prefix, if◌then◌else◌, inl, length, none, ok,
  pos, refl, some, str_eq, true, ℕ, ◌*◌, ◌++◌, ◌↔◌, ◌∷◌, ◌≡◌, ◌≤◌,
}
use ping_goat.Database.{varchar, Db}
use ping_goat.Database.Order.{by_created}
use ping_goat.Session.{Exec, Signal, World, arrive, delivered, signal}
use ping_goat.Http.{Formats, Response, one_user, respond_with_json}
use ping_goat.Middleware.{bearer, jwt_auth, token_of}
use ping_goat.Handler.Auth.{
  claims_of, token_lifetime, AuthEnv, Credentials, login, register, user_response,
  wrong_credentials,
}
use ping_goat.Handler.Auth.Login.{IsGiven, login_wrong}
use ping_goat.Handler.Auth.Lifetime.{token_lifetime_iff}
use ping_goat.Handler.Auth.SignIn.{AcceptsOwn, new_account, sign_in}
use ping_goat.Server.{delete_job_route, ServerEnv, HttpRequest}
use ping_goat.Server.Access.{Refused, serve-Refused}
use ping_goat.Server.Start.{Starts, start, start-IsReady}

abbrev formats : Formats
formats = record {
  scan_uuid = λ s. some (length s);
  uuid_string = λ id. bytes "u";
  rfc3339 = λ t. [];
}

-- A hash is the password, and a token the letter t in front of the subject.
abbrev auth : AuthEnv
auth = record {
  hash_password = λ p. some p;
  matches_hash = λ h p. str_eq h p;
  sign = λ secret claims. some (b't' ∷ claims.subject);
  issued_now = 0;
  expiry_now = 0;
  jwt_secret = bytes "s";
  jwt_expiry_hours = pos 24;
}

abbrev parse : GoString → Option GoString
parse token = if has_prefix token (bytes "t") then some (drop 1 token) else none

abbrev env : ServerEnv
env = record {
  formats = formats;
  auth = auth;
  parse_token = λ secret token. parse token;
  order = by_created;
  capacity = 2;
}

abbrev empty_db : Db
empty_db = record { users = []; jobs = []; documents = []; doc_cache = [] }

abbrev quiet : ℕ → Signal
quiet n = record { others = λ s. s; fault = delivered; now = n; uuid = n }

abbrev first_world : World
first_world = record {
  shared = record { db = empty_db; channel = [] };
  outside = quiet;
  temp_dirs = [];
}

abbrev ann : Credentials
ann = record { email = bytes "a@b.c"; password = bytes "p" }

ann-IsGiven : IsGiven ann
ann-IsGiven = ((λ e. cc), (λ e. cc))

own-AcceptsOwn : AcceptsOwn formats auth parse 0
unfolding has_prefix
own-AcceptsOwn = record {
  accepts = λ claims id token named signed lasts.
      subst (λ t. parse t ≡ some claims.subject) (some-injective _ _ signed) (rw named refl);
}

sign_in_example :
    let user = new_account formats auth ann (bytes "p") first_world in
    let registered = register formats auth (some ann) first_world in
    let logged_in = login formats auth (some ann) registered.1 in
    (registered.0 ≡ ok (respond_with_json 201 (one_user (user_response formats user none))))
    × (logged_in.0
        ≡ ok (respond_with_json 200 (one_user (user_response formats user (some (bytes "tu"))))))
    × ((next : GoString → Exec Response Response) (v : World)
        → jwt_auth parse (bearer ++ bytes "tu") next v ≡ next (formats.uuid_string user.id) v)
unfolding trim_space str_eq varchar claims_of
sign_in_example =
    sign_in formats auth parse ann (bytes "p") (bytes "tu") 24 0 first_world
      (λ n. (λ s. refl, refl)) ann-IsGiven (refl, refl) (refl, refl) refl refl refl refl
      own-AcceptsOwn refl (omega arith) (omega arith) (λ e. cc)

login_wrong_example :
    login formats auth (some ann) first_world
    ≡ (err wrong_credentials, arrive first_world ((signal first_world).others first_world.shared))
login_wrong_example = login_wrong formats auth ann first_world ann-IsGiven refl (inl refl)

abbrev request : HttpRequest
request = record {
  authorization = bytes "Bearer x";
  credentials = some ann;
  submission = none;
  id = [];
  page = [];
  per_page = [];
}

serve-Refused_example : Refused env delete_job_route request first_world
unfolding token_of trim_space str_eq has_prefix
serve-Refused_example = serve-Refused env delete_job_route request first_world refl refl

token_lifetime_iff_example :
    (token_lifetime (pos 2_562_048) ≡ pos (2_562_048 * 3_600_000_000_000)) ↔ (2_562_048 ≤ 2_562_047)
token_lifetime_iff_example = token_lifetime_iff 2_562_048

-- No variable is set, and a channel can have 10 places.
start-IsReady_example : Starts 10 (λ name. []) (start 10 (λ name. []) true env)
start-IsReady_example = start-IsReady 10 (λ name. []) env
