-- ===== src/Pipeline/Cloner/Address/Shape.antt =====
-- What a URL that `url.Parse` accepts is made of, as far as `validateRepoURL` of
-- internal/pipeline/cloner.go looks at it.
use mathlib.Core.Option
use mathlib.Core.List.{append_assoc}
use mathlib.Core.Path.{ap₂}
use mathlib.Core.Option.{some-injective}
use mathlib.Core.Path.{subst}
use ping_goat.Common.{
  All, Bool, Bool-cases, GoString, Option, Option-cases, [], ap, arith, bytes, drop, false,
  has_prefix, if◌then◌else◌, inl, inr, map, none, not, refl, some, sym, true, ℕ, ◌++◌, ◌==◌, ◌||◌,
  ◌∙◌, ◌∷◌, ◌≡◌, ◌≢◌, ◌⊎◌,
}
use ping_goat.Pipeline.Cloner.Address.{
  Url, any_byte, cut, scheme_of, lower_letter, unescape, in_userinfo, split_user, onto_user,
  valid_user, path_from, authority_of, parse_url, is_control, valid_escapes,
}

-- What a cut takes apart.
abbrev behind : ℕ → Option GoString → GoString
behind c none = []
behind c (some s) = c ∷ s

cut_joins : (c : ℕ) (s : GoString) → s ≡ (cut c s).0 ++ behind c (cut c s).1
unfolding cut
cut_joins c [] = refl
cut_joins c (d ∷ s) = elim (Bool-cases (c == d)) [
  | inl same ↦ ground arith
  | inr other ↦ rw other (ap (λ t. d ∷ t) (cut_joins c s))
]

-- Userinfo with its '@'.
abbrev pub user_part : Option GoString → GoString
user_part none = []
user_part (some user) = user ++ b'@' ∷ []

onto_user_joins :
    (c : ℕ) (p : Option GoString × GoString) (s : GoString)
    → s ≡ user_part p.0 ++ p.1
    → c ∷ s ≡ user_part (onto_user c p).0 ++ (onto_user c p).1
onto_user_joins c (some user, host) s e = ap (λ t. c ∷ t) e
onto_user_joins c (none, host) s e = elim (Bool-cases (c == b'@')) [
  | inl at ↦ ground (arith, e)
  | inr other ↦ rw other (ap (λ t. c ∷ t) e)
]

split_user_joins : (s : GoString) → s ≡ user_part (split_user s).0 ++ (split_user s).1
unfolding split_user
split_user_joins [] = refl
split_user_joins (c ∷ s) = onto_user_joins c (split_user s) s (split_user_joins s)

has_slashes : (s : GoString) → has_prefix s (bytes "//") ≡ true → s ≡ b'/' ∷ b'/' ∷ drop 2 s
unfolding has_prefix
has_slashes [] h = absurd (ground arith)
has_slashes (a ∷ []) h = absurd (ground arith)
has_slashes (a ∷ b ∷ s) h = ground arith

path_from-behind : (after : Option GoString) → path_from after ≡ behind b'/' after
path_from-behind none = refl
path_from-behind (some s) = refl

authority_at :
    (test : Bool) (p : Option GoString × GoString × GoString) (s : GoString)
    → (test ≡ true → s ≡ b'/' ∷ b'/' ∷ (user_part p.0 ++ p.1) ++ p.2)
    → let r : Option GoString × GoString × GoString = if test then p else (none, [], s) in
      r.1 ≢ [] → s ≡ b'/' ∷ b'/' ∷ (user_part r.0 ++ r.1) ++ r.2
authority_at true p s joins present = joins refl
authority_at false p s joins present = absurd (present refl)

-- With a host, two slashes lead to the userinfo, the host and the path.
authority_of_joins :
    (s : GoString)
    → let (user, host, escaped) = authority_of s in
      host ≢ [] → s ≡ b'/' ∷ b'/' ∷ (user_part user ++ host) ++ escaped
unfolding authority_of
authority_of_joins s =
    let (authority, after) = cut b'/' (drop 2 s) in
    let (user, host) = split_user authority in
    authority_at (has_prefix s (bytes "//")) (user, host, path_from after) s
      (λ slashes.
        has_slashes s slashes
        ∙ ap (λ t. b'/' ∷ b'/' ∷ t)
            (cut_joins b'/' (drop 2 s)
              ∙ ap₂ (λ t r. t ++ r) (split_user_joins authority) (sym (path_from-behind after))))

scheme_at :
    (test : Bool) (name scheme rest : GoString) (after : Option GoString)
    → (if test
        then Option.map {B = GoString × GoString} (λ r. (map lower_letter name, r)) after
        else none)
      ≡ some (scheme, rest)
    → (after ≡ some rest) × (map lower_letter name ≡ scheme)
scheme_at true name scheme rest (some r) h =
    let e = some-injective (map lower_letter name, r) (scheme, rest) h in
    (ap (λ p. some p.1) e, ap (λ p. p.0) e)
scheme_at true name scheme rest none h = absurd (ground arith)
scheme_at false name scheme rest after h = absurd (ground arith)

scheme_of_joins :
    (s scheme rest : GoString)
    → scheme_of s ≡ some (scheme, rest)
    → (name : GoString) × (s ≡ name ++ b':' ∷ rest) × (map lower_letter name ≡ scheme)
unfolding scheme_of
scheme_of_joins [] scheme rest h = absurd (ground arith)
scheme_of_joins (c ∷ s) scheme rest h =
    let parts = cut b':' (c ∷ s) in
    let (found, lowered) = scheme_at _ parts.0 scheme rest parts.1 h in
    (parts.0, cut_joins b':' (c ∷ s) ∙ ap (λ o. parts.0 ++ behind b':' o) found, lowered)

abbrev pub IsUserByte : ℕ → Type 0
IsUserByte c = (c ≢ b'/') × (c ≢ b'?') × (c ≢ b'#')

abbrev pub named : Option GoString → GoString
named none = []
named (some user) = user

in_userinfo-IsUserByte : (c : ℕ) → in_userinfo c ≡ true → IsUserByte c
unfolding any_byte
in_userinfo-IsUserByte c h =
    let slash : (c ≡ b'/' → in_userinfo c ≡ false) = λ e. rw e refl in
    let query : (c ≡ b'?' → in_userinfo c ≡ false) = λ e. rw e refl in
    let hash : (c ≡ b'#' → in_userinfo c ≡ false) = λ e. rw e refl in
    ((λ e. clash (slash e)), (λ e. clash (query e)), λ e. clash (hash e))
  where
    clash : in_userinfo c ≡ false → ⊥
    clash g = absurd (ground arith)

all_userinfo : (s : GoString) → any_byte (λ c. not (in_userinfo c)) s ≡ false → All IsUserByte s
unfolding any_byte
all_userinfo [] h = tt
all_userinfo (c ∷ s) h = (in_userinfo-IsUserByte c (ground arith), all_userinfo s (ground arith))

valid_user-All : (user : Option GoString) → valid_user user ≡ true → All IsUserByte (named user)
unfolding valid_user
valid_user-All none h = tt
valid_user-All (some user) h = all_userinfo user (ground arith)

path_front :
    (after : Option GoString)
    → (path_from after ≡ []) ⊎ ((t : GoString) × (path_from after ≡ b'/' ∷ t))
path_front none = inl refl
path_front (some s) = inr (s, refl)

front_at :
    (test : Bool) (user : Option GoString) (host : GoString) (after : Option GoString)
    (s : GoString)
    → let r : Option GoString × GoString × GoString =
        if test then (user, host, path_from after) else (none, [], s) in
      r.1 ≢ [] → (r.2 ≡ []) ⊎ ((t : GoString) × (r.2 ≡ b'/' ∷ t))
front_at true user host after s present = path_front after
front_at false user host after s present = absurd (present refl)

authority_of_front :
    (s : GoString)
    → let (user, host, escaped) = authority_of s in
      host ≢ [] → (escaped ≡ []) ⊎ ((t : GoString) × (escaped ≡ b'/' ∷ t))
unfolding authority_of
authority_of_front s =
    let (authority, after) = cut b'/' (drop 2 s) in
    let (user, host) = split_user authority in
    front_at (has_prefix s (bytes "//")) user host after s

path_of_front :
    (escaped path : GoString)
    → unescape escaped ≡ some path
    → (escaped ≡ []) ⊎ ((t : GoString) × (escaped ≡ b'/' ∷ t))
    → (path ≡ []) ⊎ ((t : GoString) × (escaped ≡ b'/' ∷ t))
unfolding unescape
path_of_front escaped path h (inl nothing) =
    inl (sym (some-injective [] path (subst (λ e. unescape e ≡ some path) nothing h)))
path_of_front escaped path h (inr slash) = inr slash

-- What stands in an accepted URL: the name of the scheme, the userinfo with its '@', and what is
-- behind the host. The path begins with a slash, if there is one.
pub record Parsed (raw : GoString) (u : Url) : Type 0 where
  pub name : GoString
  pub user : Option GoString
  pub escaped : GoString
  pub rest : GoString
  pub joins :
      raw ≡ name ++ (b':' ∷ ((b'/' ∷ (b'/' ∷ ((user_part user ++ u.host) ++ escaped))) ++ rest))
  pub scheme : map lower_letter name ≡ u.scheme
  pub user_bytes : All IsUserByte (named user)
  pub path : (u.path ≡ []) ⊎ ((t : GoString) × (escaped ≡ b'/' ∷ t))

-- A parse that has accepted.
accepted_at :
    (test : Bool) (scheme host : GoString) (path : Option GoString) (u : Url)
    → (if test
        then none
        else Option.map (λ p. record { scheme = scheme; host = host; path = p }) path)
      ≡ some u
    → (test ≡ false) × (scheme ≡ u.scheme) × (host ≡ u.host) × (path ≡ some u.path)
accepted_at true scheme host path u h = absurd (ground arith)
accepted_at false scheme host none u h = absurd (ground arith)
accepted_at false scheme host (some p) u h =
    let e = some-injective (record { scheme = scheme; host = host; path = p }) u h in
    (
      refl,
      ap (λ (v : Url). v.scheme) e,
      ap (λ (v : Url). v.host) e,
      ap (λ (v : Url). some v.path) e,
    )

join_all :
    (raw main name rest front q f : GoString)
    → raw ≡ main ++ f
    → main ≡ name ++ (b':' ∷ rest)
    → rest ≡ front ++ q
    → raw ≡ name ++ (b':' ∷ (front ++ (q ++ f)))
join_all raw main name rest front q f raw_is main_is rest_is =
    raw_is
    ∙ ap (λ t. t ++ f) (main_is ∙ ap (λ t. name ++ (b':' ∷ t)) rest_is)
    ∙ append_assoc name (b':' ∷ (front ++ q)) f
    ∙ ap (λ t. name ++ (b':' ∷ t)) (append_assoc front q f)

second_passes : (a b c : Bool) → (a || (not b || not c)) ≡ false → b ≡ true
second_passes a b c h = ground arith

pub parse_url-Parsed :
    (raw : GoString) (u : Url) → parse_url raw ≡ some u → u.host ≢ [] → Parsed raw u
unfolding parse_url
parse_url-Parsed raw u h present =
    let (main, fragment) = cut b'#' raw in
    elim (Option-cases (scheme_of main)) [
      | inl no_scheme ↦
          let computed : parse_url raw ≡ none = rw (parse_url, no_scheme) refl in
          absurd (ground arith)
      | inr ((scheme, rest), found) ↦
          let (front, query) = cut b'?' rest in
          let (user, host, escaped) = authority_of front in
          let test =
            any_byte is_control main || (not (valid_user user) || not (valid_escapes fragment)) in
          let path = unescape escaped in
          let make : GoString → Url = λ p. record { scheme = scheme; host = host; path = p } in
          let computed : parse_url raw ≡ (if test then none else Option.map make path) =
            rw (parse_url, found) refl in
          let (passed, of_scheme, of_host, of_path) =
            accepted_at test scheme host path u (sym computed ∙ h) in
          let present' : host ≢ [] = λ e. present (sym of_host ∙ e) in
          let (name, colon, lowered) = scheme_of_joins main scheme rest found in
          record {
            name = name;
            user = user;
            escaped = escaped;
            rest = behind b'?' query ++ behind b'#' fragment;
            joins =
                join_all raw main name rest front (behind b'?' query) (behind b'#' fragment)
                  (cut_joins b'#' raw) colon (cut_joins b'?' rest)
                ∙ ap (λ t. name ++ (b':' ∷ (t ++ (behind b'?' query ++ behind b'#' fragment))))
                    (authority_of_joins front present'
                      ∙ ap (λ (x : GoString). b'/' ∷ b'/' ∷ (user_part user ++ x) ++ escaped)
                          of_host);
            scheme = lowered ∙ of_scheme;
            user_bytes = valid_user-All user (second_passes _ (valid_user user) _ passed);
            path = path_of_front escaped u.path of_path (authority_of_front front present');
          }
    ]
