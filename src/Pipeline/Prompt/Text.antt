-- ===== src/Pipeline/Prompt/Text.antt =====
-- The functions of packages strings and path/filepath that internal/pipeline/prompt.go calls, on the
-- bytes of a string.
use mathlib.Core.List.{reverse}
use ping_goat.Common.{
  Bool, GoString, List, [], bytes, drop, if◌then◌else◌, leb, length, map, not, suc, zero, ℕ, ◌&&◌,
  ◌+◌, ◌==◌, ◌||◌, ◌∷◌,
}

drop_while : (ℕ → Bool) → GoString → GoString
drop_while p [] = []
drop_while p (c ∷ s) = let rest = drop_while p s in if p c then rest else c ∷ s

take_while : (ℕ → Bool) → GoString → GoString
take_while p [] = []
take_while p (c ∷ s) = let rest = take_while p s in if p c then c ∷ rest else []

abbrev or_slash : GoString → GoString
or_slash [] = bytes "/"
or_slash (c ∷ s) = c ∷ s

-- filepath.Base: the last element, trailing slashes dropped; "." for no path, "/" for slashes alone.
unfoldable pub base : GoString → GoString
unfolding drop_while take_while
base [] = bytes "."
base (c ∷ s) =
    or_slash
      (reverse (take_while (λ d. not (d == b'/')) (drop_while (λ d. d == b'/') (reverse (c ∷ s)))))

-- strings.ToLower on ASCII letters. Of the others only U+0130 and U+212A have an ASCII letter, i or
-- k, for their lower case, and the string that is looked for here, "readme", has neither.
abbrev lower : ℕ → ℕ
lower c = if leb b'A' c && leb c b'Z' then c + 32 else c

unfoldable pub to_lower : GoString → GoString
to_lower s = map lower s

abbrev onto_first : ℕ → List GoString → List GoString
onto_first c [] = (c ∷ []) ∷ []
onto_first c (line ∷ lines) = (c ∷ line) ∷ lines

-- strings.Split(s, "\n")
unfoldable pub split_lines : GoString → List GoString
split_lines [] = [] ∷ []
split_lines (c ∷ s) = let rest = split_lines s in if c == 0x0a then [] ∷ rest else onto_first c rest

abbrev is_ascii_space : ℕ → Bool
is_ascii_space c = c == 0x20 || leb 0x09 c && leb c 0x0d

-- U+0085 and U+00A0
abbrev is_space_2 : ℕ → ℕ → Bool
is_space_2 a b = a == 0xc2 && (b == 0x85 || b == 0xa0)

-- U+1680, U+2000 to U+200A, U+2028, U+2029, U+202F, U+205F and U+3000
abbrev is_space_3 : ℕ → ℕ → ℕ → Bool
is_space_3 a b c =
    (a == 0xe1 && b == 0x9a && c == 0x80)
    || (a == 0xe2
        && b == 0x80
        && (leb 0x80 c && leb c 0x8a || (c == 0xa8 || (c == 0xa9 || c == 0xaf))))
    || (a == 0xe2 && b == 0x81 && c == 0x9f)
    || (a == 0xe3 && b == 0x80 && c == 0x80)

-- How many bytes of white space stand in front: those of one character, or 0.
abbrev leading_space : GoString → ℕ
leading_space [] = 0
leading_space (a ∷ []) = if is_ascii_space a then 1 else 0
leading_space (a ∷ b ∷ []) = if is_ascii_space a then 1 else if is_space_2 a b then 2 else 0
leading_space (a ∷ b ∷ c ∷ s) =
    if is_ascii_space a then 1 else if is_space_2 a b then 2 else if is_space_3 a b c then 3 else 0

-- The same at the end, where the bytes are read backwards.
abbrev trailing_space : GoString → ℕ
trailing_space [] = 0
trailing_space (a ∷ []) = if is_ascii_space a then 1 else 0
trailing_space (a ∷ b ∷ []) = if is_ascii_space a then 1 else if is_space_2 b a then 2 else 0
trailing_space (a ∷ b ∷ c ∷ s) =
    if is_ascii_space a then 1 else if is_space_2 b a then 2 else if is_space_3 c b a then 3 else 0

-- Drop white space from the front, at most as often as there are bytes.
trim : (GoString → ℕ) → ℕ → GoString → GoString
trim measure zero s = s
trim measure (suc fuel) s =
    let n = measure s in let rest = trim measure fuel (drop n s) in if n == 0 then s else rest

-- strings.TrimSpace
unfoldable pub trim_space : GoString → GoString
unfolding trim
trim_space s =
    let left = trim leading_space (length s) s in
    reverse (trim trailing_space (length left) (reverse left))
