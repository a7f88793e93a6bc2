-- ===== src/Pipeline/Batcher/Partition.antt =====
-- What one run of the loop of internal/pipeline/batcher.go makes of the sorted files.
use mathlib.Core.Path.{subst}
use mathlib.Core.List.Perm
use ping_goat.Common.{
  All, All-append, List, Perm, [], ap, append-nil, append_assoc, arith, inl, length, pos, refl, sym,
  ℕ, ℤ, ◌++◌, ◌+◌, ◌∙◌, ◌∷◌, ◌≡◌, ◌≢◌, ◌≤ℤ◌, ◌⊎◌,
}
use ping_goat.Pipeline.Batcher.{
  ParsedFile, Batch, estimate_tokens, sort_stable, Packing, empty_batch, place, pack, drain,
  batch_files,
}
use ping_goat.Pipeline.Batcher.Order.{
  IsSorted, of_tier, sort_stable-perm, sort_stable-IsSorted, sort_stable_keeps_ties,
}

-- The files of the batches, one after the other.
abbrev pub all_files : List Batch → List ParsedFile
all_files [] = []
all_files (b ∷ bs) = b.files ++ all_files bs

-- The estimate of a list of files.
abbrev pub tokens_of : List ParsedFile → ℕ
tokens_of [] = 0
tokens_of (f ∷ fs) = estimate_tokens f.content + tokens_of fs

all_files-append : (bs cs : List Batch) → all_files (bs ++ cs) ≡ all_files bs ++ all_files cs
all_files-append [] cs = refl
all_files-append (b ∷ bs) cs = simp (all_files-append bs cs, append_assoc)

pub tokens_of-append :
    (fs gs : List ParsedFile) → tokens_of (fs ++ gs) ≡ tokens_of fs + tokens_of gs
tokens_of-append [] gs = omega arith
tokens_of-append (f ∷ fs) gs = omega (arith, tokens_of-append fs gs)

-- All that the loop has taken so far.
abbrev taken : Packing → List ParsedFile
taken s = all_files s.result ++ s.current.files

taken-place : (m : ℤ) (s : Packing) (f : ParsedFile) → taken (place m s f) ≡ taken s ++ f ∷ []
unfolding place
taken-place m s f = ground (
  arith,
  all_files-append s.result (s.current ∷ []),
  append-nil s.current.files,
  append_assoc (all_files s.result) s.current.files (f ∷ []),
)

taken-pack : (m : ℤ) (s : Packing) (fs : List ParsedFile) → taken (pack m s fs) ≡ taken s ++ fs
unfolding pack
taken-pack m s [] = sym (append-nil _)
taken-pack m s (f ∷ fs) =
    taken-pack m (place m s f) fs
    ∙ ap (λ t. t ++ fs) (taken-place m s f)
    ∙ append_assoc (taken s) (f ∷ []) fs

all_files-drain : (s : Packing) → all_files (drain s) ≡ taken s
unfolding drain
all_files-drain s = ground (
  arith,
  all_files-append s.result (s.current ∷ []),
  append-nil s.current.files,
  append-nil (all_files s.result),
)

-- Read batch after batch, the files are the sorted files.
pub all_files-batch_files :
    (files : List ParsedFile) (m : ℤ) → all_files (batch_files files m).1 ≡ (batch_files files m).0
unfolding batch_files
all_files-batch_files files m =
    all_files-drain (pack m start (sort_stable files)) ∙ taken-pack m start (sort_stable files)
  where
    start : Packing
    start = record { result = []; current = empty_batch }

-- Every input file lands in exactly one batch, as often as it was given: none is dropped and none
-- is packed twice.
pub batch_files-perm :
    (files : List ParsedFile) (m : ℤ) → Perm (all_files (batch_files files m).1) files
batch_files-perm files m =
    rw (all_files-batch_files files m) (unfold batch_files in sort_stable-perm files)

-- Files at all make batches at all.
pub batch_files_some : (files : List ParsedFile) (m : ℤ) → files ≢ [] → (batch_files files m).1 ≢ []
batch_files_some files m h e =
    h (sym (Perm.nil-eq (subst (λ bs. Perm (all_files bs) files) e (batch_files-perm files m))))

-- The files come in the order of their tiers, and those of one tier in the order of the input.
pub batch_files_order :
    (files : List ParsedFile) (m : ℤ)
    → IsSorted (all_files (batch_files files m).1)
      × ((t : ℤ) → of_tier t (all_files (batch_files files m).1) ≡ of_tier t files)
batch_files_order files m =
    rw (all_files-batch_files files m)
      (unfold batch_files in (sort_stable-IsSorted files, λ t. sort_stable_keeps_ties t files))

-- A batch that may be sent: not empty, its total is the estimate of its files, and it stays in the
-- budget unless one file alone exceeds it.
pub record IsBatch (m : ℤ) (b : Batch) : Type 0 where
  pub filled : b.files ≢ []
  pub counted : b.total_tokens ≡ tokens_of b.files
  pub fits : (pos b.total_tokens ≤ℤ m) ⊎ (length b.files ≡ 1)

-- The same of the batch that the loop is filling, which may still be empty.
record IsOpen (m : ℤ) (b : Batch) : Type 0 where
  counted : b.total_tokens ≡ tokens_of b.files
  fits : (b.files ≡ []) ⊎ ((pos b.total_tokens ≤ℤ m) ⊎ (length b.files ≡ 1))

record IsPacked (m : ℤ) (s : Packing) : Type 0 where
  closed : All (IsBatch m) s.result
  current : IsOpen m s.current

place-IsOpen :
    (m : ℤ) (s : Packing) (f : ParsedFile) → IsOpen m s.current → IsOpen m (place m s f).current
unfolding place
place-IsOpen m s f h = ground (arith, tokens_of-append s.current.files (f ∷ []))

open-IsBatch : (m : ℤ) (b : Batch) → IsOpen m b → b.files ≢ [] → IsBatch m b
open-IsBatch m b h full = ground arith

place-All-IsBatch :
    (m : ℤ) (s : Packing) (f : ParsedFile) → IsPacked m s → All (IsBatch m) (place m s f).result
unfolding place
place-All-IsBatch m s f h = ground (
  arith,
  open-IsBatch m s.current h.current,
  λ (b : IsBatch m s.current). All-append (IsBatch m) s.result (s.current ∷ []) h.closed (b, tt),
)

pack-IsPacked :
    (m : ℤ) (s : Packing) (fs : List ParsedFile) → IsPacked m s → IsPacked m (pack m s fs)
unfolding pack
pack-IsPacked m s [] h = h
pack-IsPacked m s (f ∷ fs) h =
    pack-IsPacked m (place m s f) fs
      (record { closed = place-All-IsBatch m s f h; current = place-IsOpen m s f h.current })

drain-All-IsBatch : (m : ℤ) (s : Packing) → IsPacked m s → All (IsBatch m) (drain s)
unfolding drain
drain-All-IsBatch m s h = ground (
  arith,
  open-IsBatch m s.current h.current,
  λ (b : IsBatch m s.current). All-append (IsBatch m) s.result (s.current ∷ []) h.closed (b, tt),
)

-- No batch is empty, each total is the sum of its files' estimates, and it stays in the budget
-- unless the batch is one file alone.
pub batch_files-All-IsBatch :
    (files : List ParsedFile) (m : ℤ) → All (IsBatch m) (batch_files files m).1
unfolding batch_files
batch_files-All-IsBatch files m =
    drain-All-IsBatch m (pack m (record { result = []; current = empty_batch }) (sort_stable files))
      (pack-IsPacked m _ (sort_stable files)
        (record { closed = tt; current = record { counted = refl; fits = inl refl } }))
