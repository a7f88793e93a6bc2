-- ===== src/Pipeline/Prompt/Imports.antt =====
-- `extractImports` of internal/pipeline/prompt.go.
pub mod Picked
use ping_goat.Common.{
  Bool, GoString, List, [], bytes, false, has_prefix, if◌then◌else◌, not, str_eq, true, ◌&&◌, ◌++◌,
  ◌∷◌,
}
use ping_goat.Pipeline.Prompt.Text.{split_lines, trim_space}

-- `inBlock`, and the lines that are written, each with its newline.
pub record Extract : Type 0 where
  pub in_block : Bool
  pub written : GoString

abbrev pub open_import : GoString
open_import = bytes "import ("

abbrev pub single_import : GoString
single_import = bytes "import \""

abbrev write_line : Extract → GoString → Extract
write_line s trimmed = record s { written = (s.written ++ trimmed) ++ 0x0a ∷ [] }

-- The `switch`, on a trimmed line.
unfoldable pub scan_line : Extract → GoString → Extract
unfolding has_prefix str_eq
scan_line s trimmed =
    if has_prefix trimmed open_import
    then record s { in_block = true }
    else if s.in_block && str_eq trimmed (bytes ")")
    then record s { in_block = false }
    else if s.in_block && not (str_eq trimmed [])
    then write_line s trimmed
    else if has_prefix trimmed single_import
    then write_line s trimmed
    else s

unfoldable pub scan_lines : Extract → List GoString → Extract
unfolding scan_line trim_space
scan_lines s [] = s
scan_lines s (line ∷ lines) = scan_lines (scan_line s (trim_space line)) lines

unfoldable pub extract_imports : GoString → GoString
unfolding scan_lines split_lines
extract_imports content =
    (scan_lines (record { in_block = false; written = [] }) (split_lines content)).written
