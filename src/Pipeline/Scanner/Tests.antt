-- ===== src/Pipeline/Scanner/Tests.antt =====
-- The scanner on a tree with a pruned directory, a picture, and three files that stay.
use ping_goat.Common.{All, GoString, List, [], bytes, length, pos, refl, some, true, ◌∷◌, ◌≡◌, ◌≤◌}
use ping_goat.Pipeline.Scanner.{Node, file, dir, nil, cons, is_pruned, scan_files, should_skip_file}
use ping_goat.Pipeline.Scanner.Listing.{limit}
use ping_goat.Pipeline.Scanner.Kept.{Keeps, scan_files-All-Keeps}

abbrev tree : Node
tree =
    dir (bytes "r")
      (cons (dir (bytes ".git") (cons (file (bytes "HEAD")) nil) true) (
        cons (file (bytes "a.go")) (
          cons (dir (bytes "b") (cons (file (bytes "c.go")) nil) true)
            (cons (file (bytes "d.png")) (cons (file (bytes "e.go")) nil)))))
      true

abbrev two_paths : List GoString
two_paths = bytes "r/a.go" ∷ bytes "r/b/c.go" ∷ []

scan_files_run : scan_files (bytes "r") tree (pos 2) ≡ some two_paths
unfolding scan_files is_pruned should_skip_file
scan_files_run = refl

scan_files-All-Keeps_example :
    All (Keeps (bytes "r") tree) two_paths × (length two_paths ≤ limit (pos 2))
scan_files-All-Keeps_example =
    scan_files-All-Keeps (bytes "r") tree (pos 2) two_paths scan_files_run
