-- ===== src/Handler/Auth/Login.antt =====
-- Registration and login in internal/handler/authHandler.go, and the token that passes
-- internal/middleware/auth.go.
use ping_goat.Common.{
  List, [], ap, arith, bytes, err, false, inl, inr, none, not, ok, some, str_eq, str_eq_iff, true,
  ◌||◌, ◌∙◌, ◌≡◌, ◌≢◌, ◌⊎◌,
}
use ping_goat.Database.{User, find_row, no_rows, one_row}
use ping_goat.Database.Users.{get_user_by_email, has_email}
use ping_goat.Session.{
  ◌>>=◌, ◌>>◌, Exec, World, arrive, delivered, or_else, pure, query, require, signal,
}
use ping_goat.Session.Calm.{query_delivered}
use ping_goat.Session.Guards.{bind_err, bind_ok, else_err, else_ok, require_passes, require_stops}
use ping_goat.Http.{Formats, Response, one_user, respond_with_error, respond_with_json}
use ping_goat.Handler.{or_respond}
use ping_goat.Handler.Auth.{
  user_response, claims_of, login, login_error, wrong_credentials, check_credentials, AuthEnv,
  Credentials,
}

-- An email and a password are given.
abbrev pub IsGiven : Credentials → Type 0
IsGiven c = (c.email ≢ []) × (c.password ≢ [])

given_test : (c : Credentials) → IsGiven c → not (str_eq c.email [] || str_eq c.password []) ≡ true
given_test c h = ground (arith, str_eq_iff c.email [], str_eq_iff c.password [])

pub check_runs :
    (c : Credentials) (w : World) → IsGiven c → check_credentials (some c) w ≡ (ok c, w)
unfolding check_credentials
check_runs c w h =
    require_passes (not (str_eq c.email [] || str_eq c.password []))
      (respond_with_error 400 (bytes "email and password are required")) (pure c) w (given_test c h)

module _ (formats : Formats) (env : AuthEnv) where
  -- What follows the checks of a login.
  abbrev pub signed_in : User → Exec Response Response
  signed_in user =
      or_respond (env.sign env.jwt_secret (claims_of formats env user)) 500
        (bytes "failed to sign token")
      >>= λ token. pure (respond_with_json 200 (one_user (user_response formats user (some token))))

  abbrev pub known : Credentials → User → Exec Response Response
  known c user =
      require (env.matches_hash user.password_hash c.password) wrong_credentials >> signed_in user

  abbrev pub looked_up : Credentials → Exec Response Response
  looked_up c = or_else (query (get_user_by_email c.email)) login_error >>= known c

  pub login_starts :
      (c : Credentials) (w : World) → IsGiven c → login formats env (some c) w ≡ looked_up c w
  unfolding login
  login_starts c w h = bind_ok (check_credentials (some c)) looked_up w w c (check_runs c w h)

-- Nobody has the email, or the password is not that of the user who has it.
abbrev pub IsWrong : AuthEnv → Credentials → List User → Type 0
IsWrong env c users =
    (find_row (has_email c.email) users ≡ none)
    ⊎ ((user : User) × (find_row (has_email c.email) users ≡ some user)
        × (env.matches_hash user.password_hash c.password ≡ false))

-- A login with an email that nobody has and one with a wrong password get the same answer, and neither
-- changes anything: the answer does not tell whether the email is registered.
pub login_wrong :
    (formats : Formats) (env : AuthEnv) (c : Credentials) (w : World)
    → IsGiven c
    → (signal w).fault ≡ delivered
    → IsWrong env c ((signal w).others w.shared).db.users
    → login formats env (some c) w ≡ (err wrong_credentials, arrive w ((signal w).others w.shared))
unfolding get_user_by_email login_error
login_wrong formats env c w h runs (inl nobody) =
    let v = arrive w ((signal w).others w.shared) in
    login_starts formats env c w h
    ∙ bind_err (or_else (query (get_user_by_email c.email)) login_error) (known formats env c) w v
        wrong_credentials
        (else_err (query (get_user_by_email c.email)) login_error w v no_rows
          (query_delivered (get_user_by_email c.email) w runs ∙ ap (λ o. (one_row o, v)) nobody))
login_wrong formats env c w h runs (inr (user, found, other)) =
    let v = arrive w ((signal w).others w.shared) in
    login_starts formats env c w h
    ∙ bind_ok (or_else (query (get_user_by_email c.email)) login_error) (known formats env c) w v
        user
        (else_ok (query (get_user_by_email c.email)) login_error w v user
          (query_delivered (get_user_by_email c.email) w runs ∙ ap (λ o. (one_row o, v)) found))
    ∙ require_stops (env.matches_hash user.password_hash c.password) wrong_credentials
        (signed_in formats env user) v other
