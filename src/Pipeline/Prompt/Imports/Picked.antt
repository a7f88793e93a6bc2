-- ===== src/Pipeline/Prompt/Imports/Picked.antt =====
-- Which lines `extractImports` of internal/pipeline/prompt.go picks, told for each line by the lines
-- above it.
use mathlib.Core.Path.{subst}
use mathlib.Core.List.{append_assoc, append-nil}
use ping_goat.Common.{
  Bool, GoString, List, [], ap, arith, bytes, false, has_prefix, if◌then◌else◌, not, refl, str_eq,
  str_eq_iff, sym, true, ◌&&◌, ◌++◌, ◌||◌, ◌∙◌, ◌∷◌, ◌≡◌,
}
use ping_goat.Pipeline.Prompt.Text.{split_lines, trim_space}
use ping_goat.Pipeline.Prompt.Imports.{
  Extract, single_import, scan_line, scan_lines, extract_imports,
}

abbrev pub opens : GoString → Bool
opens line = has_prefix (trim_space line) (bytes "import (")

abbrev pub closes : GoString → Bool
closes line = str_eq (trim_space line) (bytes ")")

abbrev pub is_blank : GoString → Bool
is_blank line = str_eq (trim_space line) []

-- A line stands in what is taken for an import block, given the lines above it, the nearest first: of
-- those that begin with `import (` or are a lone `)`, the nearest one begins with `import (`.
pub is_in_block : List GoString → Bool
is_in_block [] = false
is_in_block (line ∷ above) =
    let further = is_in_block above in
    if opens line then true else if closes line then false else further

abbrev pub imports_alone : GoString → Bool
imports_alone line = has_prefix (trim_space line) (bytes "import \"")

abbrev pub is_picked : List GoString → GoString → Bool
is_picked above line =
    not (opens line)
    && (is_in_block above && (not (closes line) && not (is_blank line)) || imports_alone line)

-- The picked lines, trimmed, each with a newline.
pub picked : List GoString → List GoString → GoString
unfolding is_in_block
picked above [] = []
picked above (line ∷ lines) =
    let rest = picked (line ∷ above) lines in
    if is_picked above line then (trim_space line ++ 0x0a ∷ []) ++ rest else rest

-- The single import line is no closing parenthesis.
closes_no_single :
    (line : GoString) → str_eq line (bytes ")") ≡ true → has_prefix line single_import ≡ false
unfolding has_prefix
closes_no_single line h =
    let e = (str_eq_iff line (bytes ")")).0 h in
    subst (λ s. has_prefix s single_import ≡ false) (sym e) refl

-- The switch, by what its conditions say: whether the line opens a block, a block is open, and the
-- line closes one, is blank, or imports alone.
abbrev switched : (o b c k g : Bool) → GoString → GoString → Extract
switched o b c k g w t =
    let s : Extract = record { in_block = b; written = w } in
    let longer : Extract = record s { written = (w ++ t) ++ 0x0a ∷ [] } in
    if o
    then record s { in_block = true }
    else if b && c
    then record s { in_block = false }
    else if b && not k
    then longer
    else if g
    then longer
    else s

switched-in_block :
    (o b c k g : Bool) (w t : GoString)
    → (switched o b c k g w t).in_block ≡ (if o then true else if c then false else b)
switched-in_block true b c k g w t = refl
switched-in_block false true true k g w t = refl
switched-in_block false true false false g w t = refl
switched-in_block false true false true true w t = refl
switched-in_block false true false true false w t = refl
switched-in_block false false true k true w t = refl
switched-in_block false false true k false w t = refl
switched-in_block false false false k true w t = refl
switched-in_block false false false k false w t = refl

switched-written :
    (o b c k g : Bool) (w t : GoString)
    → (c ≡ true → g ≡ false)
    → (switched o b c k g w t).written
      ≡ w ++ (if not o && (b && (not c && not k) || g) then t ++ 0x0a ∷ [] else [])
switched-written true b c k g w t h = sym (append-nil w)
switched-written false true true k true w t h = absurd (let e = h refl in ground arith)
switched-written false true true k false w t h = sym (append-nil w)
switched-written false true false false g w t h = append_assoc w t (0x0a ∷ [])
switched-written false true false true true w t h = append_assoc w t (0x0a ∷ [])
switched-written false true false true false w t h = sym (append-nil w)
switched-written false false c k true w t h = append_assoc w t (0x0a ∷ [])
switched-written false false c k false w t h = sym (append-nil w)

module _ (s : Extract) (above : List GoString) (line : GoString)
    (h : s.in_block ≡ is_in_block above) where
  scan_line-in_block : (scan_line s (trim_space line)).in_block ≡ is_in_block (line ∷ above)
  unfolding scan_line is_in_block
  scan_line-in_block =
      switched-in_block (opens line) s.in_block (closes line) (is_blank line)
        (has_prefix (trim_space line) single_import) s.written (trim_space line)
      ∙ ap (λ b. if opens line then true else if closes line then false else b) h

  scan_line-written :
      (scan_line s (trim_space line)).written
      ≡ s.written ++ (if is_picked above line then trim_space line ++ 0x0a ∷ [] else [])
  unfolding scan_line
  scan_line-written =
      switched-written (opens line) s.in_block (closes line) (is_blank line)
        (has_prefix (trim_space line) single_import) s.written (trim_space line)
        (closes_no_single (trim_space line))
      ∙ ap
          (λ b.
            s.written
            ++ (if not (opens line)
                  && (b && (not (closes line) && not (is_blank line))
                      || has_prefix (trim_space line) single_import)
                then trim_space line ++ 0x0a ∷ []
                else []))
          h

if_append :
    (test : Bool) (w t rest : GoString)
    → (w ++ (if test then t else [])) ++ rest ≡ w ++ (if test then t ++ rest else rest)
if_append true w t rest = append_assoc w t rest
if_append false w t rest = append_assoc w [] rest

scan_lines-picked :
    (s : Extract) (above lines : List GoString)
    → s.in_block ≡ is_in_block above
    → (scan_lines s lines).written ≡ s.written ++ picked above lines
unfolding scan_lines picked
scan_lines-picked s above [] h = sym (append-nil s.written)
scan_lines-picked s above (line ∷ lines) h =
    let rest = picked (line ∷ above) lines in
    scan_lines-picked (scan_line s (trim_space line)) (line ∷ above) lines
      (scan_line-in_block s above line h)
    ∙ ap (λ w. w ++ rest) (scan_line-written s above line h)
    ∙ if_append (is_picked above line) s.written (trim_space line ++ 0x0a ∷ []) rest

-- `extractImports` writes, in order, trimmed, each with a newline, of the content's lines those and
-- only those that do not begin with `import (` and that either begin with `import "`, or are neither
-- blank nor a lone `)` while, of the lines above that begin with `import (` or are a lone `)`, the
-- nearest begins with `import (`. All beginnings are those of the trimmed lines. These are not the
-- lines that import: after `import ("fmt")` on one line the code below is written up to a lone `)`,
-- and `import f "fmt"` is left out.
pub extract_imports-picked :
    (content : GoString) → extract_imports content ≡ picked [] (split_lines content)
unfolding extract_imports is_in_block
extract_imports-picked content =
    scan_lines-picked (record { in_block = false; written = [] }) [] (split_lines content) refl
