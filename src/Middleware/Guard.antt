-- ===== src/Middleware/Guard.antt =====
-- Who gets past internal/middleware/auth.go.
use ping_goat.Common.{
  Bool-cases, GoString, Option, Option-cases, [], ap, bytes, err, false, has_prefix, inl, inr, not,
  refl, some, str_eq, str_eq_iff, true, ◌∙◌, ◌≡◌, ◌≢◌, ◌⊎◌,
}
use ping_goat.Session.Guards.{require_passes, require_stops}
use ping_goat.Session.{◌>>=◌, ◌>>◌, require, Exec, World}
use ping_goat.Http.{respond_with_error, Response}
use ping_goat.Middleware.{accepted, token_of, unauthorized, bearer, jwt_auth}

-- The request is passed on, for the subject of an accepted token.
abbrev pub Admits :
    (GoString → Option GoString) → GoString → (GoString → Exec Response Response) → World → Type 0
Admits parse header next w =
    (subject : GoString) × (has_prefix header bearer ≡ true)
    × (parse (token_of header) ≡ some subject)
    × (subject ≢ [])
    × (jwt_auth parse header next w ≡ next subject w)

-- The request is answered with 401, and nothing happens.
abbrev pub Rejects :
    (GoString → Option GoString) → GoString → (GoString → Exec Response Response) → World → Type 0
Rejects parse header next w =
    (resp : Response) × (resp.code ≡ 401) × (jwt_auth parse header next w ≡ (err resp, w))

str_eq-false : (s : GoString) → str_eq s [] ≡ false → s ≢ []
str_eq-false s h e = let same = (str_eq_iff s []).1 e in cc

module _ (parse : GoString → Option GoString) (header : GoString)
    (next : GoString → Exec Response Response) (w : World) where
  abbrev with_subject : GoString → Exec Response Response
  with_subject subject =
      require (not (str_eq subject [])) (unauthorized (bytes "Invalid token")) >> next subject

  abbrev with_token : Exec Response Response
  with_token = accepted (parse (token_of header)) >>= with_subject

  abbrev with_header : Exec Response Response
  with_header =
      require (has_prefix header bearer)
        (unauthorized (bytes "Invalid Authorization header format"))
      >> with_token

  starts : str_eq header [] ≡ false → jwt_auth parse header next w ≡ with_header w
  unfolding jwt_auth
  starts h =
      require_passes (not (str_eq header [])) (unauthorized (bytes "Missing Authorization header"))
        with_header w (ap not h)

  bears_token :
      str_eq header [] ≡ false
      → has_prefix header bearer ≡ true
      → jwt_auth parse header next w ≡ with_token w
  bears_token h bears =
      starts h
      ∙ require_passes (has_prefix header bearer)
          (unauthorized (bytes "Invalid Authorization header format")) with_token w bears

  names_subject :
      (subject : GoString)
      → str_eq header [] ≡ false
      → has_prefix header bearer ≡ true
      → parse (token_of header) ≡ some subject
      → jwt_auth parse header next w ≡ with_subject subject w
  names_subject subject h bears good =
      bears_token h bears ∙ ap (λ o. (accepted o >>= with_subject) w) good

  pub admits_subject :
      (subject : GoString)
      → str_eq header [] ≡ false
      → has_prefix header bearer ≡ true
      → parse (token_of header) ≡ some subject
      → str_eq subject [] ≡ false
      → jwt_auth parse header next w ≡ next subject w
  admits_subject subject h bears good named =
      names_subject subject h bears good
      ∙ require_passes (not (str_eq subject [])) (unauthorized (bytes "Invalid token"))
          (next subject) w (ap not named)

-- `JWTAuth` runs the next handler only for a bearer token that the parser accepts, and then with the
-- token's subject, which is not empty; any other request is answered with 401 and changes nothing.
pub jwt_auth_guards :
    (parse : GoString → Option GoString) (header : GoString)
    (next : GoString → Exec Response Response) (w : World)
    → Admits parse header next w ⊎ Rejects parse header next w
unfolding jwt_auth respond_with_error
jwt_auth_guards parse header next w = elim (Bool-cases (str_eq header [])) [
  | inl empty ↦
      let missing = unauthorized (bytes "Missing Authorization header") in
      inr (
        missing,
        refl,
        require_stops (not (str_eq header [])) missing (with_header parse header next w) w
            (ap not empty),
      )
  | inr there ↦ elim (Bool-cases (has_prefix header bearer)) [
    | inr other ↦
        let format = unauthorized (bytes "Invalid Authorization header format") in
        inr (
          format,
          refl,
          starts parse header next w there
              ∙ require_stops (has_prefix header bearer) format (with_token parse header next w) w
                  other,
        )
    | inl bears ↦ elim (Option-cases (parse (token_of header))) [
      | inl bad ↦ inr (
        unauthorized (bytes "Invalid token"),
        refl,
        bears_token parse header next w there bears
            ∙ ap (λ o. (accepted o >>= with_subject parse header next w) w) bad,
      )
      | inr (subject, good) ↦ elim (Bool-cases (str_eq subject [])) [
        | inl nobody ↦
            let invalid = unauthorized (bytes "Invalid token") in
            inr (
              invalid,
              refl,
              names_subject parse header next w subject there bears good
                  ∙ require_stops (not (str_eq subject [])) invalid (next subject) w
                      (ap not nobody),
            )
        | inr named ↦ inl (
          subject,
          bears,
          good,
          str_eq-false subject named,
          admits_subject parse header next w subject there bears good named,
        )
      ]
    ]
  ]
]
