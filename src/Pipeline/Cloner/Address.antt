-- ===== src/Pipeline/Cloner/Address.antt =====
-- The part of net/url that `validateRepoURL` of internal/pipeline/cloner.go relies on: what
-- `url.Parse` makes of the scheme, the host and the path. A host other than github.com is refused by
-- the caller whether `url.Parse` accepts it or not, so the rules for other hosts are left out.
pub mod Shape
use mathlib.Core.Option
use ping_goat.Common.{
  Bool, GoString, Option, [], bytes, drop, false, has_prefix, if◌then◌else◌, leb, ltb, map, none,
  not, some, true, ℕ, ◌&&◌, ◌*◌, ◌+◌, ◌-◌, ◌==◌, ◌||◌, ◌∷◌,
}

pub record Url : Type 0 where
  pub scheme : GoString
  pub host : GoString
  pub path : GoString

abbrev is_digit : ℕ → Bool
is_digit c = leb b'0' c && leb c b'9'

abbrev is_letter : ℕ → Bool
is_letter c = (leb b'a' c && leb c b'z') || (leb b'A' c && leb c b'Z')

abbrev is_hex : ℕ → Bool
is_hex c = is_digit c || ((leb b'a' c && leb c b'f') || (leb b'A' c && leb c b'F'))

-- The value of a hexadecimal digit.
abbrev unhex : ℕ → ℕ
unhex c = if is_digit c then c - b'0' else if leb b'a' c then c - b'a' + 10 else c - b'A' + 10

any_byte : (ℕ → Bool) → GoString → Bool
any_byte p [] = false
any_byte p (c ∷ s) = p c || any_byte p s

-- strings.Cut at the first byte c: what stands in front, and behind, if it occurs.
cut : ℕ → GoString → GoString × Option GoString
cut c [] = ([], none)
cut c (d ∷ s) =
    let (before, after) = cut c s in if c == d then ([], some s) else (d ∷ before, after)

-- A byte of a scheme behind its first one.
abbrev in_scheme : ℕ → Bool
in_scheme c = is_letter c || (is_digit c || (c == b'+' || (c == b'-' || c == b'.')))

abbrev pub lower_letter : ℕ → ℕ
lower_letter c = if leb b'A' c && leb c b'Z' then c + 32 else c

-- A URL with a scheme, in lower case, and the rest behind the colon.
scheme_of : GoString → Option (GoString × GoString)
unfolding cut any_byte
scheme_of [] = none
scheme_of (c ∷ s) =
    let (name, rest) = cut b':' (c ∷ s) in
    if is_letter c && not (any_byte (λ d. not (in_scheme d)) name)
    then Option.map (λ r. (map lower_letter name, r)) rest
    else none

-- `unescape` of a path: none for a bad escape.
unescape : GoString → Option GoString
unescape [] = some []
unescape (c ∷ []) = if c == b'%' then none else some (c ∷ [])
unescape (c ∷ d ∷ []) = if c == b'%' then none else if d == b'%' then none else some (c ∷ d ∷ [])
unescape (c ∷ d ∷ e ∷ s) =
    let escaped = Option.map (λ t. (16 * unhex d + unhex e) ∷ t) (unescape s) in
    let plain = Option.map (λ t. c ∷ t) (unescape (d ∷ e ∷ s)) in
    if c == b'%' then (if is_hex d && is_hex e then escaped else none) else plain

abbrev user_marks : GoString
user_marks = bytes "-._:~!$&'()*+,;=%@"

-- A byte of userinfo.
abbrev in_userinfo : ℕ → Bool
in_userinfo c = is_letter c || (is_digit c || any_byte (λ d. d == c) user_marks)

abbrev onto_user : ℕ → Option GoString × GoString → Option GoString × GoString
onto_user c (some user, host) = (some (c ∷ user), host)
onto_user c (none, host) = if c == b'@' then (some [], host) else (none, c ∷ host)

-- Userinfo in front of the last '@', and the host behind it.
split_user : GoString → Option GoString × GoString
split_user [] = (none, [])
split_user (c ∷ s) = onto_user c (split_user s)

abbrev is_some : Option GoString → Bool
is_some none = false
is_some (some s) = true

abbrev valid_escapes : Option GoString → Bool
valid_escapes none = true
valid_escapes (some s) = is_some (unescape s)

-- `validUserinfo`, and the escapes of the name and the password.
valid_user : Option GoString → Bool
valid_user none = true
valid_user (some user) = not (any_byte (λ c. not (in_userinfo c)) user) && is_some (unescape user)

abbrev is_control : ℕ → Bool
is_control c = ltb c 0x20 || c == 0x7f

-- The path behind an authority, which begins at its first slash.
abbrev path_from : Option GoString → GoString
path_from none = []
path_from (some s) = b'/' ∷ s

-- What stands behind the scheme, without its query: the userinfo, the host and the path, if two
-- slashes lead to an authority, and no host otherwise.
authority_of : GoString → Option GoString × GoString × GoString
unfolding has_prefix cut split_user
authority_of rest =
    let (authority, after) = cut b'/' (drop 2 rest) in
    let (user, host) = split_user authority in
    if has_prefix rest (bytes "//") then (user, host, path_from after) else (none, [], rest)

-- `url.Parse`: none for an error, or for a URL that has no scheme.
unfoldable pub parse_url : GoString → Option Url
unfolding cut any_byte scheme_of unescape valid_user authority_of
parse_url raw =
    let (main, fragment) = cut b'#' raw in
    elim (scheme_of main) [
      | none ↦ none
      | some (scheme, rest) ↦
          let (user, host, escaped) = authority_of ((cut b'?' rest).0) in
          if any_byte is_control main || (not (valid_user user) || not (valid_escapes fragment))
          then none
          else Option.map (λ path. record { scheme = scheme; host = host; path = path })
              (unescape escaped)
    ]
