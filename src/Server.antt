-- ===== src/Server.antt =====
-- The routes of cmd/api/main.go, behind the router of package chi, which finds the route and its
-- parameter for a request.
pub mod Access
pub mod Shutdown
pub mod Start
pub mod Journey
mod Tests
use ping_goat.Common.{GoString, Option, some, ℕ}
use ping_goat.Database.Jobs.{RowOrder}
use ping_goat.Session.{Exec}
use ping_goat.Http.{Formats, Response}
use ping_goat.Middleware.{jwt_auth}
use ping_goat.Handler.Auth.{AuthEnv, Credentials, app, login, register}
use ping_goat.Handler.Jobs.{
  Request, SubmitParams, get_job_by_id, list_jobs, remove_job_by_id, submit_job,
}

-- POST …/auth/register, POST …/auth/login, GET …/home, POST …/jobs, GET …/jobs, GET …/jobs/{id},
-- DELETE …/jobs/{id}
pub data Route : Type 0 where
  auth_register auth_login home post_job get_jobs get_job_route delete_job_route : Route

pub record HttpRequest : Type 0 where
  -- The header, or the empty string.
  pub authorization : GoString
  -- The body, as each handler would decode it.
  pub credentials : Option Credentials
  pub submission : Option SubmitParams
  -- The path parameter, and the query.
  pub id : GoString
  pub page : GoString
  pub per_page : GoString

-- What the handlers are made of.
pub record ServerEnv : Type 0 where
  pub formats : Formats
  pub auth : AuthEnv
  -- ParseWithClaims by the secret: the subject of a token that it accepts.
  pub parse_token : GoString → GoString → Option GoString
  pub order : RowOrder
  -- The capacity of the channel, `cfg.PipelineWorkers`.
  pub capacity : ℕ

-- What a handler of the group reads, with the user of the context.
abbrev pub with_user : HttpRequest → GoString → Request
with_user r subject = record {
  user = some subject;
  body = r.submission;
  id = r.id;
  page = r.page;
  per_page = r.per_page;
}

-- `r.Use(middleware.JWTAuth(cfg.JWTSecret))`
abbrev pub guarded :
    ServerEnv → HttpRequest → (GoString → Exec Response Response) → Exec Response Response
guarded env r next = jwt_auth (env.parse_token env.auth.jwt_secret) r.authorization next

unfoldable pub serve : ServerEnv → Route → HttpRequest → Exec Response Response
unfolding register login app submit_job list_jobs get_job_by_id remove_job_by_id
serve env auth_register r = register env.formats env.auth r.credentials
serve env auth_login r = login env.formats env.auth r.credentials
serve env home r = guarded env r (λ subject. app)
serve env post_job r =
    guarded env r (λ subject. submit_job env.formats env.capacity (with_user r subject))
serve env get_jobs r =
    guarded env r (λ subject. list_jobs env.formats env.order (with_user r subject))
serve env get_job_route r =
    guarded env r (λ subject. get_job_by_id env.formats (with_user r subject))
serve env delete_job_route r =
    guarded env r (λ subject. remove_job_by_id env.formats (with_user r subject))
