-- ===== src/Server/Access.antt =====
-- What a request can do that bears no token which the server accepts: the routes of cmd/api/main.go
-- together with internal/middleware/auth.go.
use ping_goat.Common.{Bool, GoString, err, false, inl, inr, none, true, ◌≡◌}
use ping_goat.Handler.Jobs.{remove_job_by_id, get_job_by_id, list_jobs, submit_job}
use ping_goat.Handler.Auth.{app}
use ping_goat.Middleware.{token_of}
use ping_goat.Session.{Exec, World}
use ping_goat.Http.{Response}
use ping_goat.Middleware.Guard.{Rejects, jwt_auth_guards}
use ping_goat.Server.{
  with_user, delete_job_route, get_job_route, get_jobs, post_job, home, auth_login, auth_register,
  HttpRequest, serve, ServerEnv, Route,
}

-- The routes of the group that JWTAuth guards.
abbrev pub is_guarded : Route → Bool
is_guarded auth_register = false
is_guarded auth_login = false
is_guarded home = true
is_guarded post_job = true
is_guarded get_jobs = true
is_guarded get_job_route = true
is_guarded delete_job_route = true

-- The answer is 401, and the world is as it was.
abbrev pub Refused : ServerEnv → Route → HttpRequest → World → Type 0
Refused env route r w =
    (resp : Response) × (resp.code ≡ 401) × (serve env route r w ≡ (err resp, w))

module _ (env : ServerEnv) (r : HttpRequest) (w : World)
    (unknown : env.parse_token env.auth.jwt_secret (token_of r.authorization) ≡ none) where
  guarded_refused :
      (next : GoString → Exec Response Response)
      → Rejects (env.parse_token env.auth.jwt_secret) r.authorization next w
  guarded_refused next =
      elim (jwt_auth_guards (env.parse_token env.auth.jwt_secret) r.authorization next w) [
        | inl (subject, bears, good, named, runs) ↦ cc
        | inr rejected ↦ rejected
      ]

-- On the five guarded routes a request whose token the parser does not accept is answered with 401,
-- and neither reads nor changes the tables or the channel.
pub serve-Refused :
    (env : ServerEnv) (route : Route) (r : HttpRequest) (w : World)
    → is_guarded route ≡ true
    → env.parse_token env.auth.jwt_secret (token_of r.authorization) ≡ none
    → Refused env route r w
unfolding serve
serve-Refused env auth_register r w h unknown = cc
serve-Refused env auth_login r w h unknown = cc
serve-Refused env home r w h unknown = guarded_refused env r w unknown (λ subject. app)
serve-Refused env post_job r w h unknown =
    guarded_refused env r w unknown
      (λ subject. submit_job env.formats env.capacity (with_user r subject))
serve-Refused env get_jobs r w h unknown =
    guarded_refused env r w unknown
      (λ subject. list_jobs env.formats env.order (with_user r subject))
serve-Refused env get_job_route r w h unknown =
    guarded_refused env r w unknown (λ subject. get_job_by_id env.formats (with_user r subject))
serve-Refused env delete_job_route r w h unknown =
    guarded_refused env r w unknown (λ subject. remove_job_by_id env.formats (with_user r subject))
