-- ===== src/Pipeline/Batcher/Tests.antt =====
-- The batcher on four small files, of which the first has a higher tier than the others.
use ping_goat.Common.{
  All, GoString, List, Perm, [], arith, bytes, flatten, inr, length, pos, refl, suc, zero, ℕ, ℤ,
  ◌<◌, ◌∷◌, ◌≡◌, ◌≤◌,
}
use ping_goat.Pipeline.Batcher.{ParsedFile, batch_files, estimate_tokens}
use ping_goat.Pipeline.Batcher.Partition.{
  all_files, batch_files-perm, batch_files_order, batch_files-All-IsBatch, IsBatch,
}
use ping_goat.Pipeline.Batcher.Order.{IsSorted, of_tier}
use ping_goat.Pipeline.Batcher.Fewest.{batch_files_fewest, batch_files_not_fewest, IsFitting}
use ping_goat.Pipeline.Batcher.Bytes.{short_files_one_batch}

abbrev text : ℕ → GoString
text zero = []
text (suc n) = b'x' ∷ text n

abbrev file_of : ℕ → ℕ → ParsedFile
file_of tier n = record { path = bytes "a.go"; tier = pos tier; content = text n }

abbrev files : List ParsedFile
files = file_of 1 12 ∷ file_of 0 8 ∷ file_of 0 20 ∷ file_of 0 3 ∷ []

abbrev sorted : List ParsedFile
sorted = file_of 0 8 ∷ file_of 0 20 ∷ file_of 0 3 ∷ file_of 1 12 ∷ []

batch_files_run : batch_files files (pos 6) ≡ (
  sorted,
  record { files = file_of 0 8 ∷ []; total_tokens = 2 }
      ∷ record { files = file_of 0 20 ∷ file_of 0 3 ∷ []; total_tokens = 5 }
      ∷ record { files = file_of 1 12 ∷ []; total_tokens = 3 }
      ∷ [],
)
unfolding batch_files
batch_files_run = refl

batch_files-perm_example : Perm (all_files (batch_files files (pos 6)).1) files
batch_files-perm_example = batch_files-perm files (pos 6)

batch_files_order_example :
    IsSorted (all_files (batch_files files (pos 6)).1)
    × ((t : ℤ) → of_tier t (all_files (batch_files files (pos 6)).1) ≡ of_tier t files)
batch_files_order_example = batch_files_order files (pos 6)

batch_files-All-IsBatch_example : All (IsBatch (pos 6)) (batch_files files (pos 6)).1
batch_files-All-IsBatch_example = batch_files-All-IsBatch files (pos 6)

-- Each file alone is one way of cutting them.
abbrev singles : List (List ParsedFile)
singles = (file_of 0 8 ∷ []) ∷ (file_of 0 20 ∷ []) ∷ (file_of 0 3 ∷ []) ∷ (file_of 1 12 ∷ []) ∷ []

singles_sorted : flatten singles ≡ (batch_files files (pos 6)).0
unfolding batch_files
singles_sorted = refl

singles_fit : All (IsFitting (pos 6)) singles
singles_fit = (inr (omega arith), (inr (omega arith), (inr (omega arith), (inr (omega arith), tt))))

batch_files_fewest_example : length (batch_files files (pos 6)).1 ≤ length singles
batch_files_fewest_example = batch_files_fewest files (pos 6) singles singles_sorted singles_fit

batch_files_not_fewest_example :
    (length
        (batch_files (file_of 0 24 ∷ file_of 0 24 ∷ file_of 0 16 ∷ file_of 0 16 ∷ []) (pos 10)).1
      ≡ 3)
    × All
        (IsFitting (pos 10))
        ((file_of 0 24 ∷ file_of 0 16 ∷ []) ∷ (file_of 0 24 ∷ file_of 0 16 ∷ []) ∷ [])
unfolding estimate_tokens
batch_files_not_fewest_example =
    batch_files_not_fewest 10 (file_of 0 24) (file_of 0 24) (file_of 0 16) (file_of 0 16)
      (refl, refl, refl) (omega arith) (omega arith) (omega arith) (omega arith)

abbrev short_files : List ParsedFile
short_files = file_of 0 3 ∷ file_of 0 2 ∷ file_of 1 3 ∷ []

short_files_short : All (λ (f : ParsedFile). length f.content < 4) short_files
short_files_short = (omega arith, (omega arith, (omega arith, tt)))

short_files_one_batch_example : length (batch_files short_files (pos 0)).1 ≤ 1
short_files_one_batch_example = short_files_one_batch short_files 0 short_files_short
