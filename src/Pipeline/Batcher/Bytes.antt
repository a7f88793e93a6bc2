-- ===== src/Pipeline/Batcher/Bytes.antt =====
-- How far the estimate of internal/pipeline/batcher.go is from the bytes that a batch really holds:
-- `len(s) / 4` drops up to three bytes of each file.
use ping_goat.Common.{
  All, All-map, List, [], append-nil, arith, inl, length, pos, refl, ℕ, ◌*◌, ◌+◌, ◌<◌, ◌∷◌, ◌≡◌,
  ◌≤◌, ◌⊎◌,
}
use ping_goat.Pipeline.Batcher.{
  ParsedFile, Batch, estimate_tokens, insert, sort_stable, batch_files,
}
use ping_goat.Pipeline.Batcher.Partition.{tokens_of, IsBatch, batch_files-All-IsBatch}
use ping_goat.Pipeline.Batcher.Fewest.{IsFitting, batch_files_fewest}

-- The bytes of the files' contents.
abbrev pub content_bytes : List ParsedFile → ℕ
content_bytes [] = 0
content_bytes (f ∷ fs) = length f.content + content_bytes fs

content_bytes_bounds :
    (fs : List ParsedFile)
    → (4 * tokens_of fs ≤ content_bytes fs) × (content_bytes fs ≤ 4 * tokens_of fs + 3 * length fs)
unfolding estimate_tokens
content_bytes_bounds [] = omega arith
content_bytes_bounds (f ∷ fs) = omega (arith, content_bytes_bounds fs)

-- The bytes of each batch lie between four times its total and three more for each file, and a
-- batch of several files under a budget of m tokens holds at most 4 m + 3 n bytes in n files.
pub record IsBounded (m : ℕ) (b : Batch) : Type 0 where
  pub lower : 4 * b.total_tokens ≤ content_bytes b.files
  pub upper : content_bytes b.files ≤ 4 * b.total_tokens + 3 * length b.files
  pub budget : (length b.files ≤ 1) ⊎ (content_bytes b.files ≤ 4 * m + 3 * length b.files)

IsBatch-IsBounded : (m : ℕ) (b : Batch) → IsBatch (pos m) b → IsBounded m b
IsBatch-IsBounded m b h = ground (arith, content_bytes_bounds b.files)

-- Every batch of a packing under a budget of m tokens is bounded so: its bytes lie between four times
-- its total and three more for each file, and a batch of several files holds at most 4 m + 3 n bytes
-- in n files.
batch_files-All-IsBounded :
    (files : List ParsedFile) (m : ℕ) → All (IsBounded m) (batch_files files (pos m)).1
batch_files-All-IsBounded files m =
    All-map (IsBatch-IsBounded m) _ (batch_files-All-IsBatch files (pos m))

tokens_of-insert :
    (f : ParsedFile) (fs : List ParsedFile) → tokens_of (insert f fs) ≡ tokens_of (f ∷ fs)
unfolding insert
tokens_of-insert f [] = refl
tokens_of-insert f (g ∷ gs) = ground (arith, tokens_of-insert f gs)

tokens_of-sort_stable : (fs : List ParsedFile) → tokens_of (sort_stable fs) ≡ tokens_of fs
unfolding sort_stable
tokens_of-sort_stable [] = refl
tokens_of-sort_stable (f ∷ fs) =
    omega (arith, tokens_of-insert f (sort_stable fs), tokens_of-sort_stable fs)

tokens_of_short : (fs : List ParsedFile) → All (λ f. length f.content < 4) fs → tokens_of fs ≡ 0
unfolding estimate_tokens
tokens_of_short [] h = refl
tokens_of_short (f ∷ fs) h = omega (arith, tokens_of_short fs h.1)

-- Files of fewer than four bytes count for nothing: under a budget of 0 or more any number of them
-- goes into one batch.
pub short_files_one_batch :
    (files : List ParsedFile) (m : ℕ)
    → All (λ f. length f.content < 4) files
    → length (batch_files files (pos m)).1 ≤ 1
short_files_one_batch files m h =
    batch_files_fewest files (pos m) ((batch_files files (pos m)).0 ∷ []) (append-nil _) (fit, tt)
  where
    fit : IsFitting (pos m) (batch_files files (pos m)).0
    fit =
        unfold batch_files in
        inl (omega (arith, tokens_of-sort_stable files, tokens_of_short files h))
