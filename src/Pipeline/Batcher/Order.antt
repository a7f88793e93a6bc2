-- ===== src/Pipeline/Batcher/Order.antt =====
-- The order in which internal/pipeline/batcher.go reads the files: `sort_stable`, against an
-- independent description of a stable sort.
use mathlib.Core.List.Perm
use ping_goat.Common.{
  All, All-map, Bool-cases, List, Perm, [], arith, filter, inl, inr, leb_ℤ, ltb_ℤ, refl, ℤ, ◌&&◌,
  ◌∷◌, ◌≡◌, ◌≤ℤ◌,
}
use ping_goat.Pipeline.Batcher.{ParsedFile, insert, sort_stable}

-- No file stands behind one of a higher tier.
abbrev pub IsSorted : List ParsedFile → Type 0
IsSorted [] = Unit
IsSorted (f ∷ fs) = All (λ g. f.tier ≤ℤ g.tier) fs × IsSorted fs

-- The files of one tier, in their order.
abbrev pub of_tier : ℤ → List ParsedFile → List ParsedFile
of_tier t fs = filter (λ f. leb_ℤ f.tier t && leb_ℤ t f.tier) fs

insert-perm : (f : ParsedFile) (fs : List ParsedFile) → Perm (insert f fs) (f ∷ fs)
unfolding insert
insert-perm f [] = Perm.refl (f ∷ [])
insert-perm f (g ∷ gs) = elim (Bool-cases (ltb_ℤ g.tier f.tier)) [
  | inl below ↦ rw below (Perm.trans (Perm.cons g (insert-perm f gs)) (Perm.swap f g gs))
  | inr over ↦ rw over (Perm.refl (f ∷ g ∷ gs))
]

pub sort_stable-perm : (fs : List ParsedFile) → Perm (sort_stable fs) fs
unfolding sort_stable
sort_stable-perm [] = Perm.refl []
sort_stable-perm (f ∷ fs) =
    Perm.trans (insert-perm f (sort_stable fs)) (Perm.cons f (sort_stable-perm fs))

All-insert :
    (P : ParsedFile → Type 0) (f : ParsedFile) (fs : List ParsedFile)
    → P f
    → All P fs
    → All P (insert f fs)
unfolding insert
All-insert P f [] p h = (p, tt)
All-insert P f (g ∷ gs) p h = ground (arith, All-insert P f gs)

insert-IsSorted : (f : ParsedFile) (fs : List ParsedFile) → IsSorted fs → IsSorted (insert f fs)
unfolding insert
insert-IsSorted f [] h = (tt, tt)
insert-IsSorted f (g ∷ gs) (low, h) = elim (Bool-cases (ltb_ℤ g.tier f.tier)) [
  | inl below ↦
      rw below (All-insert (λ x. g.tier ≤ℤ x.tier) f gs (ground arith) low, insert-IsSorted f gs h)
  | inr over ↦
      let first : f.tier ≤ℤ g.tier = ground arith in
      rw over ((first, All-map (λ x le. omega arith) gs low), (low, h))
]

pub sort_stable-IsSorted : (fs : List ParsedFile) → IsSorted (sort_stable fs)
unfolding sort_stable
sort_stable-IsSorted [] = tt
sort_stable-IsSorted (f ∷ fs) = insert-IsSorted f (sort_stable fs) (sort_stable-IsSorted fs)

of_tier-insert :
    (t : ℤ) (f : ParsedFile) (fs : List ParsedFile) → of_tier t (insert f fs) ≡ of_tier t (f ∷ fs)
unfolding insert
of_tier-insert t f [] = refl
of_tier-insert t f (g ∷ gs) = ground (arith, of_tier-insert t f gs)

-- Files of one tier keep the order in which they were given.
pub sort_stable_keeps_ties :
    (t : ℤ) (fs : List ParsedFile) → of_tier t (sort_stable fs) ≡ of_tier t fs
unfolding sort_stable
sort_stable_keeps_ties t [] = refl
sort_stable_keeps_ties t (f ∷ fs) =
    ground (arith, of_tier-insert t f (sort_stable fs), sort_stable_keeps_ties t fs)
