-- ===== src/Pipeline/Scanner.antt =====
-- internal/pipeline/scanner.go, over the file tree that `filepath.WalkDir` walks: it calls the
-- function on the root, and on the entries of a directory in their lexical order. A directory whose
-- entries cannot be read leads to a second call, with the error. Symbolic links are not followed, so
-- to the walk all that is no directory is a file.
pub mod Listing
pub mod Kept
mod Tests
use ping_goat.Common.{
  Bool, GoString, List, Option, [], bytes, has_suffix, if◌then◌else◌, leb_ℤ, length, none, pos,
  some, str_eq, ℤ, ◌++◌, ◌||◌, ◌∷◌,
}

mutual
  pub data Node : Type 0 where
    file : GoString → Node
    -- Its name, and what os.ReadDir gives of it: the entries, sorted by name, and whether that failed.
    dir : GoString → Entries → Bool → Node
    -- The root, when os.Lstat fails on it.
    missing : GoString → Node

  pub data Entries : Type 0 where
    nil : Entries
    cons : Node → Entries → Entries

-- What the function that is given to WalkDir returns.
pub data Verdict : Type 0 where
  go_on skip_dir skip_all failed : Verdict

-- `shouldSkipFile`
unfoldable pub should_skip_file : GoString → Bool
unfolding str_eq has_suffix
should_skip_file name =
    (str_eq name (bytes "go.sum")
      || str_eq name (bytes "yarn.lock")
      || str_eq name (bytes "Cargo.lock"))
    || (has_suffix name (bytes ".png")
        || has_suffix name (bytes ".jpg")
        || has_suffix name (bytes ".pb.go"))

-- The directories that are not entered.
unfoldable pub is_pruned : GoString → Bool
unfolding str_eq
is_pruned name =
    str_eq name (bytes ".git") || str_eq name (bytes "vendor") || str_eq name (bytes "node_modules")

-- The call for a directory: no error, and `d.IsDir()`.
pub visit_dir : GoString → Verdict
visit_dir name = if is_pruned name then skip_dir else go_on

-- The call for a file: the new `results`, and the verdict.
pub visit_file : ℤ → GoString → GoString → List GoString → List GoString × Verdict
visit_file max_files path name results =
    if should_skip_file name
    then (results, go_on)
    else let longer = results ++ path ∷ [] in
      (longer, if leb_ℤ max_files (pos (length longer)) then skip_all else go_on)

-- `filepath.Join(path, name)`, for a clean path and a name with no separator.
abbrev pub join : GoString → GoString → GoString
join path name = path ++ b'/' ∷ name

abbrev pub name_of : Node → GoString
name_of (file name) = name
name_of (dir name _ _) = name
name_of (missing name) = name

-- `filepath.WalkDir` with that function: the `results` so far go in, and come out with the verdict
-- for the caller. An error that the function is called with is returned by it.
mutual
  unfolding visit_dir visit_file

  pub walk : ℤ → GoString → Node → List GoString → List GoString × Verdict
  walk max_files path (file name) results = visit_file max_files path name results
  walk max_files path (dir name entries readable) results = elim (visit_dir name) [
    | go_on ↦ if readable then walk_entries max_files path entries results else (results, failed)
    | skip_dir ↦ (results, go_on)
    | v ↦ (results, v)
  ]
  walk max_files path (missing name) results = (results, failed)

  pub walk_entries : ℤ → GoString → Entries → List GoString → List GoString × Verdict
  walk_entries max_files path nil results = (results, go_on)
  walk_entries max_files path (cons node entries) results =
      let (more, v) = walk max_files (join path (name_of node)) node results in
      elim v [
        | go_on ↦ walk_entries max_files path entries more
        | skip_dir ↦ (more, go_on)
        | skip_all ↦ (more, skip_all)
        | failed ↦ (more, failed)
      ]

-- `SkipDir` and `SkipAll` are no errors to the caller of WalkDir.
abbrev outcome : List GoString × Verdict → Option (List GoString)
outcome (results, failed) = none
outcome (results, _) = some results

-- `none` is the error.
unfoldable pub scan_files : GoString → Node → ℤ → Option (List GoString)
unfolding walk
scan_files root tree max_files = outcome (walk max_files root tree [])
