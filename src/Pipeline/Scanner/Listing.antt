-- ===== src/Pipeline/Scanner/Listing.antt =====
-- internal/pipeline/scanner.go against a listing of the tree that knows nothing of the limit.
use mathlib.Core.Option
use ping_goat.Common.{
  GoString, List, Option, [], ap, append-nil, append_assoc, arith, if◌then◌else◌, leb_ℤ, length,
  length-append, max, none, pos, pos_part, refl, some, suc, zero, ℕ, ℤ, ◌++◌, ◌+◌, ◌∙◌, ◌∷◌, ◌≡◌,
}
use ping_goat.Pipeline.Scanner.{
  Node, file, dir, missing, Entries, nil, cons, Verdict, go_on, skip_dir, skip_all, failed,
  should_skip_file, is_pruned, visit_dir, visit_file, join, name_of, walk, walk_entries, outcome,
  scan_files,
}

-- What there is in a tree, in the order of the walk.
pub data Item : Type 0 where
  found : GoString → Item
  broken : Item

-- The files that are no noise and stand in no pruned directory, and the places that cannot be read.
unfoldable mutual
  pub listing : GoString → Node → List Item
  listing path (file name) = if should_skip_file name then [] else found path ∷ []
  listing path (dir name entries readable) =
      let below = listing_entries path entries in
      if is_pruned name then [] else if readable then below else broken ∷ []
  listing path (missing name) = broken ∷ []

  pub listing_entries : GoString → Entries → List Item
  listing_entries path nil = []
  listing_entries path (cons node entries) =
      listing (join path (name_of node)) node ++ listing_entries path entries

-- The first n files of a listing; an error, if the listing breaks before them.
abbrev pub first_files : ℕ → List Item → Option (List GoString)
first_files zero items = some []
first_files (suc n) [] = some []
first_files (suc n) (found path ∷ items) = Option.map (λ paths. path ∷ paths) (first_files n items)
first_files (suc n) (broken ∷ items) = none

-- At least one file is taken before the limit is looked at.
abbrev pub limit : ℤ → ℕ
limit max_files = max 1 (pos_part max_files)

-- The walk over a listing.
run : ℤ → List GoString → List Item → List GoString × Verdict
run m results [] = (results, go_on)
run m results (found path ∷ items) =
    let longer = results ++ path ∷ [] in
    let rest = run m longer items in
    if leb_ℤ m (pos (length longer)) then (longer, skip_all) else rest
run m results (broken ∷ items) = (results, failed)

-- What follows after a walk: it goes on only on `go_on`.
abbrev after :
    List GoString × Verdict → (List GoString → List GoString × Verdict) → List GoString × Verdict
after (results, go_on) k = k results
after (results, skip_dir) k = (results, go_on)
after (results, skip_all) k = (results, skip_all)
after (results, failed) k = (results, failed)

run-append :
    (m : ℤ) (results : List GoString) (items more : List Item)
    → run m results (items ++ more) ≡ after (run m results items) (λ r. run m r more)
unfolding run
run-append m results [] more = refl
run-append m results (found path ∷ items) more =
    ground (arith, run-append m (results ++ path ∷ []) items more)
run-append m results (broken ∷ items) more = refl

mutual
  unfolding walk visit_dir visit_file run listing

  walk-listing :
      (m : ℤ) (path : GoString) (node : Node) (results : List GoString)
      → walk m path node results ≡ run m results (listing path node)
  walk-listing m path (file name) results = ground arith
  walk-listing m path (dir name entries readable) results =
      ground (arith, walk_entries_listing m path entries results)
  walk-listing m path (missing name) results = refl

  walk_entries_listing :
      (m : ℤ) (path : GoString) (entries : Entries) (results : List GoString)
      → walk_entries m path entries results ≡ run m results (listing_entries path entries)
  walk_entries_listing m path nil results = refl
  walk_entries_listing m path (cons node entries) results =
      let here : GoString = join path (name_of node) in
      let (more, v) = run m results (listing here node) in
      ground (
        arith,
        walk-listing m here node results,
        run-append m results (listing here node) (listing_entries path entries),
        walk_entries_listing m path entries more,
      )

prepend :
    (results : List GoString) (path : GoString) (paths : Option (List GoString))
    → Option.map (λ ps. (results ++ path ∷ []) ++ ps) paths
      ≡ Option.map (λ ps. results ++ ps) (Option.map (λ ps. path ∷ ps) paths)
prepend results path none = refl
prepend results path (some ps) = ap some (append_assoc results (path ∷ []) ps)

map_nil : (paths : Option (List GoString)) → Option.map (λ ps. [] ++ ps) paths ≡ paths
map_nil none = refl
map_nil (some ps) = refl

-- The loop in front of the limit, against the first files.
run_first_files :
    (m : ℤ) (n : ℕ) (results : List GoString) (items : List Item)
    → length results + suc n ≡ limit m
    → outcome (run m results items)
      ≡ Option.map (λ paths. results ++ paths) (first_files (suc n) items)
unfolding run
run_first_files m n results [] e = rw (append-nil results)
run_first_files m zero results (found path ∷ items) e =
    ground (arith, length-append results (path ∷ []))
run_first_files m (suc n) results (found path ∷ items) e = ground (
  arith,
  length-append results (path ∷ []),
  run_first_files m n (results ++ path ∷ []) items,
  prepend results path (first_files (suc n) items),
)
run_first_files m n results (broken ∷ items) e = refl

from_start :
    (m : ℤ) (n : ℕ) (items : List Item)
    → n ≡ limit m
    → outcome (run m [] items) ≡ first_files n items
from_start m zero items e = absurd (omega arith)
from_start m (suc n) items e =
    run_first_files m n [] items (omega (arith, e)) ∙ map_nil (first_files (suc n) items)

pub scan_files-listing :
    (root : GoString) (tree : Node) (m : ℤ)
    → scan_files root tree m ≡ first_files (limit m) (listing root tree)
unfolding scan_files
scan_files-listing root tree m =
    ap outcome (walk-listing m root tree []) ∙ from_start m (limit m) (listing root tree) refl
