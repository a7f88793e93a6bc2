-- ===== src/Pipeline/Cloner/Accepted.antt =====
-- What `validateRepoURL` of internal/pipeline/cloner.go lets through to git.
use mathlib.Core.Path.{subst, ap₂}
use mathlib.Core.List.{append_assoc}
use ping_goat.Common.{
  All, All-append, Bool, GoString, Option, Option-cases, [], ap, arith, bytes, false, inl, inr, map,
  none, refl, some, str_eq, str_eq_iff, sym, true, ◌&&◌, ◌++◌, ◌∙◌, ◌∷◌, ◌≡◌, ◌⊎◌,
}
use ping_goat.Pipeline.Cloner.Address.{Url, lower_letter, parse_url}
use ping_goat.Pipeline.Cloner.Address.Shape.{IsUserByte, parse_url-Parsed, user_part, named}
use ping_goat.Pipeline.Cloner.{valid_repo_url, is_repo_path}

-- A URL of github.com over https, with userinfo or none.
pub record IsGithubUrl (raw : GoString) : Type 0 where
  -- "https" in letters of either case.
  pub scheme : GoString
  -- The userinfo with its '@', or nothing.
  pub user : GoString
  pub rest : GoString
  pub joins : raw ≡ scheme ++ (bytes "://" ++ (user ++ (bytes "github.com/" ++ rest)))
  pub https : map lower_letter scheme ≡ bytes "https"
  pub ends : (user ≡ []) ⊎ ((name : GoString) × (user ≡ name ++ b'@' ∷ []))
  -- None of its bytes ends the authority.
  pub user_bytes : All IsUserByte user

-- What the validation has found.
record Checked (raw : GoString) : Type 0 where
  pub url : Url
  pub parsed : parse_url raw ≡ some url
  pub https : url.scheme ≡ bytes "https"
  pub host : url.host ≡ bytes "github.com"
  pub repo : is_repo_path url.path ≡ true

valid_repo_url-Checked : (raw : GoString) → valid_repo_url raw ≡ true → Checked raw
unfolding valid_repo_url
valid_repo_url-Checked raw h = elim (Option-cases (parse_url raw)) [
  | inl refused ↦
      let computed : valid_repo_url raw ≡ false = rw (valid_repo_url, refused) refl in absurd cc
  | inr (u, parsed) ↦
      let tests =
        str_eq u.scheme (bytes "https")
        && (str_eq u.host (bytes "github.com") && is_repo_path u.path) in
      let computed : valid_repo_url raw ≡ tests = rw (valid_repo_url, parsed) refl in
      let (https, host, repo) = three_tests _ _ (is_repo_path u.path) (sym computed ∙ h) in
      record {
        url = u;
        parsed = parsed;
        https = (str_eq_iff u.scheme (bytes "https")).0 https;
        host = (str_eq_iff u.host (bytes "github.com")).0 host;
        repo = repo;
      }
]
  where
    three_tests : (a b c : Bool) → (a && (b && c)) ≡ true → (a ≡ true) × (b ≡ true) × (c ≡ true)
    three_tests a b c e = ground arith

user_part_ends :
    (user : Option GoString)
    → (user_part user ≡ []) ⊎ ((name : GoString) × (user_part user ≡ name ++ b'@' ∷ []))
user_part_ends none = inl refl
user_part_ends (some user) = inr (user, refl)

user_part-All :
    (user : Option GoString) → All IsUserByte (named user) → All IsUserByte (user_part user)
user_part-All none h = tt
user_part-All (some user) h =
    All-append IsUserByte user (b'@' ∷ []) h ((ground arith, ground arith, ground arith), tt)

-- The path of a repository is not empty, so a slash stands behind the host.
path_slash :
    (path escaped : GoString)
    → is_repo_path path ≡ true
    → (path ≡ []) ⊎ ((t : GoString) × (escaped ≡ b'/' ∷ t))
    → (t : GoString) × (escaped ≡ b'/' ∷ t)
unfolding is_repo_path
path_slash path escaped repo (inl nothing) =
    absurd (let computed = subst (λ p. is_repo_path p ≡ true) nothing repo in ground arith)
path_slash path escaped repo (inr slash) = slash

host_joins :
    (user host escaped t rest : GoString)
    → host ≡ bytes "github.com"
    → escaped ≡ b'/' ∷ t
    → ((user ++ host) ++ escaped) ++ rest ≡ user ++ (bytes "github.com/" ++ (t ++ rest))
host_joins user host escaped t rest host_is slash =
    append_assoc (user ++ host) escaped rest
    ∙ append_assoc user host (escaped ++ rest)
    ∙ ap₂ (λ x e. user ++ (x ++ (e ++ rest))) host_is slash

-- An accepted URL leads git to github.com over https: it is the scheme in some case, "://", perhaps
-- userinfo up to an '@', in which no byte can end the host, and then "github.com/". So it never
-- begins like an option of git.
pub valid_repo_url-IsGithubUrl : (raw : GoString) → valid_repo_url raw ≡ true → IsGithubUrl raw
valid_repo_url-IsGithubUrl raw h =
    let checked = valid_repo_url-Checked raw h in
    let p =
      parse_url-Parsed raw checked.url checked.parsed
        (λ e. absurd (let k : [] ≡ bytes "github.com" = sym e ∙ checked.host in ground arith)) in
    let (t, slash) = path_slash checked.url.path p.escaped checked.repo p.path in
    record {
      scheme = p.name;
      user = user_part p.user;
      rest = t ++ p.rest;
      joins =
          p.joins
          ∙ ap (λ x. p.name ++ (bytes "://" ++ x))
              (host_joins (user_part p.user) checked.url.host p.escaped t p.rest checked.host
                slash);
      https = p.scheme ∙ checked.https;
      ends = user_part_ends p.user;
      user_bytes = user_part-All p.user p.user_bytes;
    }
