-- ===== src/Pipeline/Batcher.antt =====
-- internal/pipeline/batcher.go, and `ParsedFile` of internal/pipeline/parser.go. `int` totals are
-- sums of the lengths of strings that stand in memory, so they are plain numbers; the tier and the
-- budget are signed.
pub mod Order
pub mod Partition
pub mod Fewest
pub mod Bytes
mod Tests
use ping_goat.Common.{
  ℕ, ◌+◌, ◌/◌, Bool, true, false, ◌&&◌, List, [], ◌∷◌, ◌++◌, ℤ, pos, ltb_ℤ, length, GoString,
  if◌then◌else◌,
}

pub record ParsedFile : Type 0 where
  pub path : GoString
  pub tier : ℤ
  pub content : GoString

pub record Batch : Type 0 where
  pub files : List ParsedFile
  pub total_tokens : ℕ

-- `len(s) / 4`, on bytes.
unfoldable pub estimate_tokens : GoString → ℕ
estimate_tokens s = length s / 4

-- `sort.SliceStable` by `files[i].Tier < files[j].Tier`, as an insertion sort: `f` goes in front of
-- the first file whose tier is not below its own, so that equals keep their order.
insert : ParsedFile → List ParsedFile → List ParsedFile
insert f [] = f ∷ []
insert f (g ∷ gs) = let rest = insert f gs in if ltb_ℤ g.tier f.tier then g ∷ rest else f ∷ g ∷ gs

pub sort_stable : List ParsedFile → List ParsedFile
unfolding insert
sort_stable [] = []
sort_stable (f ∷ fs) = insert f (sort_stable fs)

-- `Batch{}`
abbrev pub empty_batch : Batch
empty_batch = record { files = []; total_tokens = 0 }

-- The variables of the loop.
pub record Packing : Type 0 where
  pub result : List Batch
  pub current : Batch

abbrev has_files : List ParsedFile → Bool
has_files [] = false
has_files (_ ∷ _) = true

-- `current.Files = append(current.Files, f); current.TotalTokens += tokens`
abbrev pub add_file : Batch → ParsedFile → ℕ → Batch
add_file b f tokens = record { files = b.files ++ f ∷ []; total_tokens = b.total_tokens + tokens }

-- One round of the loop.
pub place : ℤ → Packing → ParsedFile → Packing
unfolding estimate_tokens
place max_tokens s f =
    let tokens = estimate_tokens f.content in
    let current = s.current in
    if has_files current.files && ltb_ℤ max_tokens (pos (current.total_tokens + tokens))
    then record { result = s.result ++ current ∷ []; current = add_file empty_batch f tokens }
    else record { result = s.result; current = add_file current f tokens }

pub pack : ℤ → Packing → List ParsedFile → Packing
unfolding place
pack max_tokens s [] = s
pack max_tokens s (f ∷ fs) = pack max_tokens (place max_tokens s f) fs

-- The last batch, which is still in `current` when the loop ends.
pub drain : Packing → List Batch
drain s = if has_files s.current.files then s.result ++ s.current ∷ [] else s.result

-- The caller's slice is sorted in place, so the sorted files are a result as well.
unfoldable pub batch_files : List ParsedFile → ℤ → List ParsedFile × List Batch
unfolding sort_stable pack drain
batch_files files max_tokens =
    let sorted = sort_stable files in
    (sorted, drain (pack max_tokens (record { result = []; current = empty_batch }) sorted))
