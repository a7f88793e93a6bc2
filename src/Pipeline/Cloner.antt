-- ===== src/Pipeline/Cloner.antt =====
-- internal/pipeline/cloner.go. Running git, and making a directory, are calls of the machine; the
-- temporary directories that exist are part of the world.
pub mod Address
pub mod Local
pub mod Dirs
pub mod Success
pub mod Accepted
mod Tests
use ping_goat.Common.{
  Bool, GoString, List, Option, [], bytes, drop, err, false, filter, has_prefix, if◌then◌else◌, leb,
  length, map, none, not, ok, some, str_eq, true, ℕ, ◌&&◌, ◌++◌, ◌==◌, ◌||◌, ◌∷◌,
}
use ping_goat.Pipeline.Prompt.Text.{trim_space}
use ping_goat.Session.{World, Exec, pure, raise, ◌>>=◌, ◌>>◌, require}
use ping_goat.Pipeline.Cloner.Address.{Url, parse_url}

-- How a run of git ends.
pub data GitRun : Type 0 where
  -- Its standard output.
  succeeded : GoString → GitRun
  deadline_exceeded : GitRun
  exited : GitRun

pub data CloneError : Type 0 where
  invalid_repo_url clone_timeout no_temp_dir git_failed head_failed invalid_sha : CloneError

pub record CloneOptions : Type 0 where
  pub repo_url : GoString
  pub branch : GoString
  pub github_token : GoString

-- `Cleanup` is the removal of `dir`.
pub record Workspace : Type 0 where
  pub dir : GoString
  pub commit_sha : GoString

-- What os and os/exec do at each call.
pub record Git : Type 0 where
  -- os.MkdirTemp: the new directory, or an error.
  pub mkdir_temp : Option GoString
  pub run : List GoString → GitRun
  -- Whether os.RemoveAll of the directory succeeds: each is removed once.
  pub remove_all : Bool

-- Behind a slash, a segment that is not empty: what follows it.
segment : GoString → Option GoString
segment [] = none
segment (c ∷ []) = if c == b'/' then none else some []
segment (c ∷ d ∷ s) =
    let rest = segment (d ∷ s) in
    if c == b'/' then none else if d == b'/' then some (d ∷ s) else rest

abbrev after_slash : GoString → Option GoString
after_slash [] = none
after_slash (c ∷ s) = if c == b'/' then segment s else none

abbrev is_end : Option GoString → Bool
is_end none = false
is_end (some []) = true
is_end (some (c ∷ [])) = c == b'/'
is_end (some (c ∷ d ∷ s)) = false

-- `^/[^/]+/[^/]+(\.git)?/?$`: the optional ".git" is part of what the second segment matches.
unfoldable pub is_repo_path : GoString → Bool
unfolding segment
is_repo_path path = elim (after_slash path) [ none ↦ false | some rest ↦ is_end (after_slash rest) ]

abbrev is_sha_byte : ℕ → Bool
is_sha_byte c = (leb b'0' c && leb c b'9') || (leb b'a' c && leb c b'f')

all_bytes : (ℕ → Bool) → GoString → Bool
all_bytes p [] = true
all_bytes p (c ∷ s) = p c && all_bytes p s

-- `^[0-9a-f]{40}$`
unfoldable pub is_sha : GoString → Bool
unfolding all_bytes
is_sha sha = length sha == 40 && all_bytes is_sha_byte sha

-- Whether `validateRepoURL` returns nil. Each of its errors wraps `ErrInvalidRepoURL`.
unfoldable pub valid_repo_url : GoString → Bool
unfolding str_eq is_repo_path
valid_repo_url raw = elim (parse_url raw) [
  | none ↦ false
  | some u ↦
      str_eq u.scheme (bytes "https") && (str_eq u.host (bytes "github.com") && is_repo_path u.path)
]

-- The arguments of `git clone`.
unfoldable pub clone_args : CloneOptions → GoString → List GoString
unfolding str_eq
clone_args opts dir =
    (if str_eq opts.github_token []
      then []
      else bytes "-c" ∷ (bytes "http.extraHeader=Authorization: Bearer " ++ opts.github_token) ∷ [])
    ++ (bytes "clone"
        ∷ bytes "--depth"
        ∷ bytes "1"
        ∷ bytes "--no-tags"
        ∷ bytes "--single-branch"
        ∷ [])
    ++ (if str_eq opts.branch [] then [] else bytes "--branch" ∷ opts.branch ∷ [])
    ++ (opts.repo_url ∷ dir ∷ [])

abbrev pub rev_parse_args : GoString → List GoString
rev_parse_args dir = bytes "-C" ∷ dir ∷ bytes "rev-parse" ∷ bytes "HEAD" ∷ []

-- os.MkdirTemp, and os.RemoveAll of a temporary directory, whose error is dropped: the directory is
-- left when it fails.
unfoldable pub make_dir : Option GoString → Exec CloneError GoString
make_dir none w = (err no_temp_dir, w)
make_dir (some dir) w = (ok dir, record w { temp_dirs = dir ∷ w.temp_dirs })

unfoldable pub remove_dir : {E : Type 0} → Bool → GoString → Exec E (Unit {0})
unfolding str_eq
remove_dir removed dir w =
    let others = filter (λ d. not (str_eq d dir)) w.temp_dirs in
    (ok tt, record w { temp_dirs = if removed then others else w.temp_dirs })

-- `cleanup()` and a return of the error.
give_up : {A : Type 0} → Bool → GoString → CloneError → Exec CloneError A
unfolding remove_dir
give_up removed dir e = do remove_dir removed dir; raise e

-- The end of `Clone`: the commit that HEAD is.
resolve_head : Bool → GoString → GitRun → Exec CloneError Workspace
unfolding give_up is_sha trim_space
resolve_head removed dir deadline_exceeded = give_up removed dir head_failed
resolve_head removed dir exited = give_up removed dir head_failed
resolve_head removed dir (succeeded output) =
    let sha = trim_space output in
    if is_sha sha
    then pure (record { dir = dir; commit_sha = sha })
    else give_up removed dir invalid_sha

after_clone : Git → GoString → GitRun → Exec CloneError Workspace
unfolding give_up resolve_head
after_clone git dir deadline_exceeded = give_up git.remove_all dir clone_timeout
after_clone git dir exited = give_up git.remove_all dir git_failed
after_clone git dir (succeeded _) = resolve_head git.remove_all dir (git.run (rev_parse_args dir))

unfoldable pub clone : Git → CloneOptions → Exec CloneError Workspace
unfolding valid_repo_url make_dir after_clone clone_args
clone git opts = do
  require (valid_repo_url opts.repo_url) invalid_repo_url
  dir ← make_dir git.mkdir_temp
  after_clone git dir (git.run (clone_args opts dir))

-- strings.Replace(s, old, new, 1), for an `old` that is not empty.
abbrev replace_first : GoString → GoString → GoString → GoString
replace_first old new [] = []
replace_first old new (c ∷ s) =
    let rest = replace_first old new s in
    if has_prefix (c ∷ s) old then new ++ drop (length old) (c ∷ s) else c ∷ rest

-- Only the tests call it.
redact : List GoString → List GoString
unfolding has_prefix
redact args =
    map
      (replace_first (bytes "Authorization: Bearer sekret")
        (bytes "Authorization: Bearer [redacted]"))
      args
