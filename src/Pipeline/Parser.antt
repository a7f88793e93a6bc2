-- ===== src/Pipeline/Parser.antt =====
-- internal/pipeline/parser.go: `ParseFiles`, when its context is not cancelled. Each path is read by
-- one of the workers, and the results arrive in an order that the scheduler chooses.
pub mod Pool
use ping_goat.Common.{GoString, List, Option, Perm, [], none, pos, some, ◌∷◌}
use ping_goat.Pipeline.Batcher.{ParsedFile}

-- What a worker makes of one path: nothing, if the file cannot be read. `rel` is filepath.Rel, with
-- none for an error.
unfoldable pub parse_file :
    (GoString → Option GoString)
    → (GoString → GoString → Option GoString)
    → GoString
    → GoString
    → Option ParsedFile
parse_file read_file rel root path = elim (read_file path) [
  | none ↦ none
  | some content ↦ some (record {
    path = elim (rel root path) [ none ↦ path | some r ↦ r ];
    tier = pos 0;
    content = content;
  })
]

abbrev onto : Option ParsedFile → List ParsedFile → List ParsedFile
onto none files = files
onto (some file) files = file ∷ files

pub parse_all : (GoString → Option ParsedFile) → List GoString → List ParsedFile
parse_all parse [] = []
parse_all parse (path ∷ paths) = onto (parse path) (parse_all parse paths)

-- The disk under a clone, and the order in which the results arrive.
pub record Disk : Type 0 where
  pub read_file : GoString → Option GoString
  pub rel : GoString → GoString → Option GoString
  pub arrival : List ParsedFile → List ParsedFile
  pub arrival-perm : (files : List ParsedFile) → Perm (arrival files) files

unfoldable pub parse_files : Disk → GoString → List GoString → List ParsedFile
unfolding parse_all parse_file
parse_files disk root paths =
    disk.arrival (parse_all (parse_file disk.read_file disk.rel root) paths)
