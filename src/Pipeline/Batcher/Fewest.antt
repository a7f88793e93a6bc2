-- ===== src/Pipeline/Batcher/Fewest.antt =====
-- How many batches internal/pipeline/batcher.go makes: as few as any way of cutting the sorted
-- files into runs that fit, and in general not as few as any way of grouping them.
use ping_goat.Common.{
  All, List, [], ap, arith, flatten, if◌then◌else◌, length, length-append, ltb_ℤ, pos, pos_part,
  suc, ℕ, ℤ, ◌++◌, ◌+◌, ◌<◌, ◌∙◌, ◌∷◌, ◌≡◌, ◌≢◌, ◌≤ℤ◌, ◌≤◌, ◌⊎◌,
}
use native.Mathlib.Nat.{add_assoc}
use ping_goat.Pipeline.Batcher.{
  ParsedFile, estimate_tokens, sort_stable, Packing, empty_batch, place, pack, drain, batch_files,
}
use ping_goat.Pipeline.Batcher.Partition.{tokens_of}

-- A group that fits in one batch: it stays in the budget, or is one file or none.
abbrev pub IsFitting : ℤ → List ParsedFile → Type 0
IsFitting m fs = (pos (tokens_of fs) ≤ℤ m) ⊎ (length fs ≤ 1)

-- The number of batches that the loop still makes of the files, with a batch of t tokens open.
count_batches : ℤ → ℕ → List ParsedFile → ℕ
count_batches m t [] = 1
count_batches m t (f ∷ fs) =
    let w = estimate_tokens f.content in
    let opened = suc (count_batches m w fs) in
    let kept = count_batches m (t + w) fs in if ltb_ℤ m (pos (t + w)) then opened else kept

-- More in the open batch can only make more batches, and one more at most.
count_batches_mono :
    (m : ℤ) (t u : ℕ) (fs : List ParsedFile)
    → (t ≤ u → count_batches m t fs ≤ count_batches m u fs)
      × (count_batches m u fs ≤ suc (count_batches m t fs))
unfolding count_batches
count_batches_mono m t u [] = ground arith
count_batches_mono m t u (f ∷ fs) =
    let w = estimate_tokens f.content in
    ground (
      arith,
      count_batches_mono m (t + w) (u + w) fs,
      count_batches_mono m w (t + w) fs,
      count_batches_mono m (t + w) w fs,
      count_batches_mono m w (u + w) fs,
    )

-- While a run fits behind what is open, the loop opens no batch.
count_batches-run :
    (m : ℤ) (t : ℕ) (fs gs : List ParsedFile)
    → pos (t + tokens_of fs) ≤ℤ m
    → count_batches m t (fs ++ gs) ≡ count_batches m (t + tokens_of fs) gs
unfolding count_batches
count_batches-run m t [] gs h = ap (λ n. count_batches m n gs) (omega arith)
count_batches-run m t (f ∷ fs) gs h =
    let w = estimate_tokens f.content in
    ground (arith, count_batches-run m (t + w) fs gs, add_assoc t w (tokens_of fs))

count_batches-group :
    (m : ℤ) (t : ℕ) (g gs : List ParsedFile)
    → IsFitting m g
    → (u : ℕ) × (count_batches m t (g ++ gs) ≤ suc (count_batches m u gs))
unfolding count_batches
count_batches-group m t [] gs h = (t, omega arith)
count_batches-group m t (f ∷ []) gs h =
    let w = estimate_tokens f.content in (w, ground (arith, count_batches_mono m w (t + w) gs))
count_batches-group m t (f ∷ g ∷ fs) gs h =
    let w = estimate_tokens f.content in
    let rest = g ∷ fs in
    (
      w + tokens_of rest,
      ground (arith, count_batches_mono m w (t + w) (rest ++ gs), count_batches-run m w rest gs),
    )

count_batches-groups :
    (m : ℤ) (t : ℕ) (groups : List (List ParsedFile))
    → All (IsFitting m) groups
    → count_batches m t (flatten groups) ≤ suc (length groups)
unfolding count_batches
count_batches-groups m t [] h = omega arith
count_batches-groups m t (g ∷ gs) (fit, h) =
    let (u, le) = count_batches-group m t g (flatten gs) fit in
    omega (arith, count_batches-groups m u gs h)

append-filled : (fs : List ParsedFile) (f : ParsedFile) → fs ++ f ∷ [] ≢ []
append-filled [] f e = cc
append-filled (g ∷ gs) f e = cc

place-filled : (m : ℤ) (s : Packing) (f : ParsedFile) → (place m s f).current.files ≢ []
unfolding place
place-filled m s f = ground (arith, append-filled s.current.files f)

place-count :
    (m : ℤ) (s : Packing) (f : ParsedFile) (fs : List ParsedFile)
    → s.current.files ≢ []
    → length (place m s f).result + count_batches m (place m s f).current.total_tokens fs
      ≡ length s.result + count_batches m s.current.total_tokens (f ∷ fs)
unfolding place count_batches
place-count m s f fs h = ground (arith, length-append s.result (s.current ∷ []))

-- The loop makes that many.
length-drain-pack :
    (m : ℤ) (s : Packing) (fs : List ParsedFile)
    → s.current.files ≢ []
    → length (drain (pack m s fs)) ≡ length s.result + count_batches m s.current.total_tokens fs
unfolding drain pack count_batches
length-drain-pack m s [] h = ground (arith, length-append s.result (s.current ∷ []))
length-drain-pack m s (f ∷ fs) h =
    length-drain-pack m (place m s f) fs (place-filled m s f) ∙ place-count m s f fs h

fewest_of_sorted :
    (m : ℤ) (sorted : List ParsedFile) (groups : List (List ParsedFile))
    → flatten groups ≡ sorted
    → All (IsFitting m) groups
    → length (drain (pack m (record { result = []; current = empty_batch }) sorted)) ≤ length groups
unfolding drain pack count_batches
fewest_of_sorted m [] groups e h = omega arith
fewest_of_sorted m (f ∷ fs) groups e h =
    let w = estimate_tokens f.content in
    let full : ℕ = suc (pos_part m) in
    let made = length-drain-pack m (place m start f) fs (place-filled m start f) in
    let cut : count_batches m full (f ∷ fs) ≤ suc (length groups) =
      rw e at (count_batches-groups m full groups h) in
    ground (arith, made, cut)
  where
    start : Packing
    start = record { result = []; current = empty_batch }

-- No way of cutting the sorted files into consecutive groups that each stay in the budget (or are
-- one file) has fewer groups than there are batches.
pub batch_files_fewest :
    (files : List ParsedFile) (m : ℤ) (groups : List (List ParsedFile))
    → flatten groups ≡ (batch_files files m).0
    → All (IsFitting m) groups
    → length (batch_files files m).1 ≤ length groups
unfolding batch_files
batch_files_fewest files m groups e h = fewest_of_sorted m (sort_stable files) groups e h

-- Regrouping can do better: of two files that do not fit together and two small ones, each of which
-- fits beside either but not both beside one, three batches are made and two would do.
pub batch_files_not_fewest :
    (m : ℕ) (a b c d : ParsedFile)
    → let w = λ (f : ParsedFile). estimate_tokens f.content in
      (a.tier ≡ b.tier) × (b.tier ≡ c.tier) × (c.tier ≡ d.tier)
      → m < w a + w b
      → w a + w d ≤ m
      → w b + w c ≤ m
      → m < w b + w c + w d
      → (length (batch_files (a ∷ b ∷ c ∷ d ∷ []) (pos m)).1 ≡ 3)
        × All (IsFitting (pos m)) ((a ∷ d ∷ []) ∷ (b ∷ c ∷ []) ∷ [])
unfolding batch_files
batch_files_not_fewest m a b c d t h1 h2 h3 h4 = ground arith
