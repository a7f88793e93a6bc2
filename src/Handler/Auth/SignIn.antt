-- ===== src/Handler/Auth/SignIn.antt =====
-- From a registration to a request that passes: internal/handler/authHandler.go and
-- internal/middleware/auth.go together.
use ping_goat.Common.{
  GoString, Option, Result, [], ap, arith, bytes, false, has_prefix-append, leb_ℤ, none, ok, pos,
  refl, some, str_eq, str_eq-nil, str_eq_refl, true, ℕ, ◌*◌, ◌++◌, ◌+◌, ◌==◌, ◌∙◌, ◌∷◌, ◌≡◌, ◌≢◌,
  ◌≤◌,
}
use ping_goat.Handler.Auth.Lifetime.{token_lifetime_iff}
use ping_goat.Middleware.Guard.{admits_subject}
use ping_goat.Middleware.{token_of, bearer, jwt_auth}
use ping_goat.Pipeline.Prompt.Text.{trim_space}
use ping_goat.Database.{varchar, Db, User, Uuid, find_row, has_row, one_row}
use ping_goat.Database.Keyed.{find_row-append}
use ping_goat.Database.Users.{
  insert_user, CreateUserParams, create_user, get_user_by_email, has_email, new_user,
}
use ping_goat.Session.{◌>>=◌, Exec, World, arrive, or_else, pure, query, signal, with_db}
use ping_goat.Session.Calm.{IsCalm-arrive, IsCalm, query_calm}
use ping_goat.Session.Guards.{bind_ok, else_ok, require_passes}
use ping_goat.Http.{Formats, Response, one_user, respond_with_json}
use ping_goat.Handler.{or_respond}
use ping_goat.Handler.Auth.{
  Claims, wrong_credentials, login_error, check_credentials, create_error, login, claims_of,
  user_response, register, AuthEnv, Credentials,
}
use ping_goat.Handler.Auth.Login.{IsGiven, check_runs, known, login_starts, signed_in}

-- The email and the hash are no longer than their columns.
abbrev pub Fits : Credentials → GoString → Type 0
Fits c hashed = (varchar 255 c.email ≡ some c.email) × (varchar 255 hashed ≡ some hashed)

-- Neither the email nor the id of the new user is taken.
abbrev pub IsFree : Credentials → Uuid → Db → Type 0
IsFree c id db =
    (has_row (has_email c.email) db.users ≡ false) × (has_row (λ u. u.id == id) db.users ≡ false)

module _ (formats : Formats) (env : AuthEnv) (c : Credentials) (hashed : GoString) (w : World) where
  abbrev arg : CreateUserParams
  arg = record { email = c.email; password_hash = hashed }

  -- The user that a registration adds, and the tables with it.
  abbrev pub new_account : User
  new_account = new_user arg (signal w).now (signal w).uuid

  abbrev with_account : Db
  with_account = record w.shared.db { users = w.shared.db.users ++ new_account ∷ [] }

  abbrev pub registered_world : World
  registered_world = arrive w (with_db w.shared with_account)

  abbrev created : Response
  created = respond_with_json 201 (one_user (user_response formats new_account none))

  abbrev answer : User → Exec Response Response
  answer user = pure (respond_with_json 201 (one_user (user_response formats user none)))

  create_runs :
      IsFree c (signal w).uuid w.shared.db
      → Fits c hashed
      → create_user arg (signal w).now (signal w).uuid w.shared.db ≡ (with_account, ok new_account)
  unfolding create_user insert_user
  create_runs (email, id) (email_fits, hash_fits) =
      rw (create_user, email_fits, hash_fits, insert_user, email, id) refl

  register_runs :
      IsCalm w
      → IsGiven c
      → env.hash_password c.password ≡ some hashed
      → IsFree c (signal w).uuid w.shared.db
      → Fits c hashed
      → register formats env (some c) w ≡ (ok created, registered_world)
  unfolding register
  register_runs calm given hash free fits =
      let store = or_else (query (create_user arg)) create_error in
      bind_ok (check_credentials (some c))
        (λ params.
          or_respond (env.hash_password params.password) 500 (bytes "failed to hash password")
          >>= λ hash.
              or_else (query (create_user (record { email = params.email; password_hash = hash })))
                create_error
              >>= answer)
        w w c (check_runs c w given)
      ∙ ap
          (λ o.
            (or_respond o 500 (bytes "failed to hash password") >>= λ hash.
            or_else (query (create_user (record { email = c.email; password_hash = hash })))
              create_error
            >>= answer)
              w)
          hash
      ∙ bind_ok store answer w registered_world new_account (
          else_ok (query (create_user arg)) create_error w registered_world new_account (
            query_calm (create_user arg) w with_account (ok new_account) calm
              (create_runs free fits)))

  login_runs :
      (v : World) (token : GoString)
      → IsCalm v
      → v.shared.db ≡ with_account
      → IsGiven c
      → IsFree c (signal w).uuid w.shared.db
      → env.matches_hash hashed c.password ≡ true
      → env.sign env.jwt_secret (claims_of formats env new_account) ≡ some token
      → login formats env (some c) v ≡ (
        ok (respond_with_json 200 (one_user (user_response formats new_account (some token)))),
        arrive v v.shared,
      )
  unfolding get_user_by_email has_email
  login_runs v token calm same given free fits signed =
      let find = query (get_user_by_email c.email) in
      let found : one_row (find_row (has_email c.email) v.shared.db.users) ≡ ok new_account =
        rw same (
          ap one_row (
            find_row-append (has_email c.email) w.shared.db.users new_account free.0
              (str_eq_refl c.email))) in
      login_starts formats env c v given
      ∙ bind_ok (or_else find login_error) (known formats env c) v (arrive v v.shared) new_account (
          else_ok find login_error v (arrive v v.shared) new_account (
            query_calm (get_user_by_email c.email) v v.shared.db (ok new_account) calm
              (ap (λ r. (v.shared.db, r)) found)))
      ∙ require_passes (env.matches_hash hashed c.password) wrong_credentials
          (signed_in formats env new_account) (arrive v v.shared) fits
      ∙ ap
          (λ o.
            (or_respond o 500 (bytes "failed to sign token") >>= λ t.
            pure (respond_with_json 200 (one_user (user_response formats new_account (some t)))))
              (arrive v v.shared))
          signed

-- What package jwt does with the tokens that it signs itself: it accepts each, under its subject, until
-- a second before it expires, since the times in a token are whole seconds. It is asked for this where
-- the subject is the id of a user.
pub record AcceptsOwn (formats : Formats) (env : AuthEnv) (parse : GoString → Option GoString)
    (now : ℕ) : Type 0 where
  pub accepts :
      (claims : Claims) (id : Uuid) (token : GoString)
      → claims.subject ≡ formats.uuid_string id
      → env.sign env.jwt_secret claims ≡ some token
      → leb_ℤ (pos (now + 1_000_000_000)) claims.expires_at ≡ true
      → parse token ≡ some claims.subject

-- The claims of a login last for the configured hours, if these do not wrap around.
claims_of_last :
    (formats : Formats) (env : AuthEnv) (user : User) (hours now : ℕ)
    → env.jwt_expiry_hours ≡ pos hours
    → hours ≤ 2_562_047
    → now + 1_000_000_000 ≤ env.expiry_now + hours * 3_600_000_000_000
    → leb_ℤ (pos (now + 1_000_000_000)) (claims_of formats env user).expires_at ≡ true
unfolding claims_of
claims_of_last formats env user hours now e small lt =
    let lifetime = (token_lifetime_iff hours).1 small in rw (e, lifetime) (ground arith)

-- Who registers can log in, and use the token: with nobody else at work and all calls delivered, an
-- email and a password that are not empty, an email and an id that are free, a password that bcrypt
-- hashes and recognises, an email and a hash of no more than 255 characters, a token that jwt signs and
-- that has no space around it, and a jwt that accepts what it has signed, registration answers 201 with
-- the new user, login with the same email and password answers 200 with that user and the token, and,
-- until a second before the configured hours from the login are over, a request with the token runs
-- the next handler with the new user's id. The hours are 2562047 at most.
pub sign_in :
    (formats : Formats) (env : AuthEnv) (parse : GoString → Option GoString) (c : Credentials)
    (hashed token : GoString) (hours now : ℕ) (w : World)
    → IsCalm w
    → IsGiven c
    → IsFree c (signal w).uuid w.shared.db
    → Fits c hashed
    → env.hash_password c.password ≡ some hashed
    → env.matches_hash hashed c.password ≡ true
    → env.sign env.jwt_secret (claims_of formats env (new_account formats env c hashed w))
      ≡ some token
    → trim_space token ≡ token
    → AcceptsOwn formats env parse now
    → env.jwt_expiry_hours ≡ pos hours
    → hours ≤ 2_562_047
    → now + 1_000_000_000 ≤ env.expiry_now + hours * 3_600_000_000_000
    → formats.uuid_string (signal w).uuid ≢ []
    → let user = new_account formats env c hashed w in
      let registered = register formats env (some c) w in
      let logged_in = login formats env (some c) registered.1 in
      (registered.0 ≡ ok (respond_with_json 201 (one_user (user_response formats user none))))
      × (logged_in.0
          ≡ ok (respond_with_json 200 (one_user (user_response formats user (some token)))))
      × ((next : GoString → Exec Response Response) (v : World)
          → jwt_auth parse (bearer ++ token) next v ≡ next (formats.uuid_string user.id) v)
unfolding token_of str_eq claims_of
sign_in formats env parse c hashed token hours now w calm given free fits hash matches signed clean
      jwt set small lt named =
    let user = new_account formats env c hashed w in
    let ran = register_runs formats env c hashed w calm given hash free fits in
    let v = registered_world formats env c hashed w in
    let accepts =
      jwt.accepts (claims_of formats env user) (signal w).uuid token refl signed
        (claims_of_last formats env user hours now set small lt) in
    (
      ap (λ (r : Result Response Response × World). r.0) ran,
      ap (λ (r : Result Response Response × World). (login formats env (some c) r.1).0) ran
          ∙ ap (λ (r : Result Response Response × World). r.0)
              (login_runs formats env c hashed w v token (IsCalm-arrive w v.shared calm) refl given
                free matches signed),
      λ next u.
          admits_subject parse (bearer ++ token) next u (formats.uuid_string (signal w).uuid) refl
            (has_prefix-append bearer token) (ap parse clean ∙ accepts)
            (str_eq-nil (formats.uuid_string (signal w).uuid) named),
    )
