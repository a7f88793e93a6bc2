-- ===== src/Pipeline/Scanner/Kept.antt =====
-- Which files internal/pipeline/scanner.go collects, by a description of the files alone.
use mathlib.Core.Path.{subst}
use mathlib.Core.Option.{some-injective}
use ping_goat.Common.{
  All, All-append, All-map, Bool, Bool-cases, GoString, List, Option-cases, [], arith, bytes, false,
  has_suffix, if◌then◌else◌, inl, inr, length, some, str_eq, suc, sym, true, zero, ℕ, ℤ, ◌∙◌, ◌∷◌,
  ◌≡◌, ◌≤◌,
}
use ping_goat.Pipeline.Scanner.{
  Node, file, dir, missing, Entries, nil, cons, should_skip_file, is_pruned, join, name_of,
  scan_files,
}
use ping_goat.Pipeline.Scanner.Listing.{
  Item, found, broken, listing, listing_entries, first_files, limit, scan_files-listing,
}

-- A file's name that is none of the three lock files, and does not end as an image or generated code.
pub record IsSignal (name : GoString) : Type 0 where
  pub no_lock :
      All
        (λ s. str_eq name s ≡ false)
        (bytes "go.sum" ∷ bytes "yarn.lock" ∷ bytes "Cargo.lock" ∷ [])
  pub no_ending :
      All (λ s. has_suffix name s ≡ false) (bytes ".png" ∷ bytes ".jpg" ∷ bytes ".pb.go" ∷ [])

-- A directory's name that is none of the three that are not entered.
abbrev pub IsOpen : GoString → Type 0
IsOpen name =
    All (λ s. str_eq name s ≡ false) (bytes ".git" ∷ bytes "vendor" ∷ bytes "node_modules" ∷ [])

should_skip_file-IsSignal : (name : GoString) → should_skip_file name ≡ false → IsSignal name
unfolding should_skip_file
should_skip_file-IsSignal name h = record {
  no_lock = (ground arith, (ground arith, (ground arith, tt)));
  no_ending = (ground arith, (ground arith, (ground arith, tt)));
}

is_pruned-IsOpen : (name : GoString) → is_pruned name ≡ false → IsOpen name
unfolding is_pruned
is_pruned-IsOpen name h = (ground arith, (ground arith, (ground arith, tt)))

-- The files of a tree that may be scanned: `path` leads to the file through open directories that can
-- be read, and its name is a signal.
mutual
  pub data Keeps : GoString → Node → GoString → Type 0 where
    here : {path name : GoString} → IsSignal name → Keeps path (file name) path
    below :
        {path name p : GoString} {entries : Entries}
        → IsOpen name
        → KeepsEntry path entries p
        → Keeps path (dir name entries true) p

  pub data KeepsEntry : GoString → Entries → GoString → Type 0 where
    first :
        {path p : GoString} {node : Node} {entries : Entries}
        → Keeps (join path (name_of node)) node p
        → KeepsEntry path (cons node entries) p
    later :
        {path p : GoString} {node : Node} {entries : Entries}
        → KeepsEntry path entries p
        → KeepsEntry path (cons node entries) p

abbrev Kept : (GoString → Type 0) → Item → Type 0
Kept P (found path) = P path
Kept P broken = Unit

Kept-map :
    {P Q : GoString → Type 0}
    → ((p : GoString) → P p → Q p)
    → (item : Item) → Kept P item
    → Kept Q item
Kept-map f (found path) h = f path h
Kept-map f broken h = tt

readable_All :
    (path name : GoString) (entries : Entries) (readable : Bool)
    → IsOpen name
    → All (Kept (KeepsEntry path entries)) (listing_entries path entries)
    → All
        (Kept (Keeps path (dir name entries readable)))
        (if readable then listing_entries path entries else broken ∷ [])
readable_All path name entries true e h =
    All-map (Kept-map (λ p. below e)) (listing_entries path entries) h
readable_All path name entries false e h = (tt, tt)

mutual
  unfolding listing

  listing-All-Kept :
      (path : GoString) (node : Node) → All (Kept (Keeps path node)) (listing path node)
  listing-All-Kept path (file name) = elim (Bool-cases (should_skip_file name)) [
    | inl noise ↦ rw noise tt
    | inr signal ↦ rw signal (here (should_skip_file-IsSignal name signal), tt)
  ]
  listing-All-Kept path (dir name entries readable) = elim (Bool-cases (is_pruned name)) [
    | inl pruned ↦ rw pruned tt
    | inr entered ↦ rw entered (
        readable_All path name entries readable (is_pruned-IsOpen name entered)
          (listing_entries-All-Kept path entries))
  ]
  listing-All-Kept path (missing name) = (tt, tt)

  listing_entries-All-Kept :
      (path : GoString) (entries : Entries)
      → All (Kept (KeepsEntry path entries)) (listing_entries path entries)
  listing_entries-All-Kept path nil = tt
  listing_entries-All-Kept path (cons node entries) =
      let here : GoString = join path (name_of node) in
      All-append (Kept (KeepsEntry path (cons node entries))) (listing here node)
        (listing_entries path entries)
        (All-map (Kept-map (λ p. first)) (listing here node) (listing-All-Kept here node))
        (All-map (Kept-map (λ p. later)) (listing_entries path entries)
          (listing_entries-All-Kept path entries))

taken :
    (P : GoString → Type 0) (n : ℕ) {ps qs : List GoString}
    → ps ≡ qs
    → All P ps × (length ps ≤ n)
    → All P qs × (length qs ≤ n)
taken P n e h = subst (λ l. All P l × (length l ≤ n)) e h

first_files-All :
    (P : GoString → Type 0) (n : ℕ) (items : List Item) (paths : List GoString)
    → All (Kept P) items
    → first_files n items ≡ some paths
    → All P paths × (length paths ≤ n)
first_files-All P zero items paths h e = taken P zero (some-injective _ _ e) (tt, omega arith)
first_files-All P (suc n) [] paths h e = taken P (suc n) (some-injective _ _ e) (tt, omega arith)
first_files-All P (suc n) (found path ∷ items) paths (p, h) e =
    elim (Option-cases (first_files n items)) [
      | inl failed ↦ cc (rw failed at e)
      | inr (ps, rest) ↦
          let (hs, le) = first_files-All P n items ps h rest in
          let same : path ∷ ps ≡ paths = some-injective _ _ (rw rest at e) in
          taken P (suc n) same ((p, hs), omega arith)
    ]
first_files-All P (suc n) (broken ∷ items) paths h e = cc

-- What `ScanFiles` returns are files of the tree: each is reached through readable directories, none of
-- them called `.git`, `vendor` or `node_modules`, is not called `go.sum`, `yarn.lock` or `Cargo.lock`,
-- and its name does not end in `.png`, `.jpg` or `.pb.go`. There are `max 1 maxFiles` of them at most.
pub scan_files-All-Keeps :
    (root : GoString) (tree : Node) (m : ℤ) (paths : List GoString)
    → scan_files root tree m ≡ some paths
    → All (Keeps root tree) paths × (length paths ≤ limit m)
scan_files-All-Keeps root tree m paths e =
    first_files-All (Keeps root tree) (limit m) (listing root tree) paths
      (listing-All-Kept root tree) (sym (scan_files-listing root tree m) ∙ e)
