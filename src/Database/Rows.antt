-- ===== src/Database/Rows.antt =====
-- Laws of the row operations that the queries of internal/database are made of.
use mathlib.Core.Path.{subst}
use mathlib.Core.Option.{some-injective}
use ping_goat.Common.{
  All, Bool, Bool-cases, List, [], arith, false, filter, inl, inr, none, not, refl, some, true,
  ◌++◌, ◌==◌, ◌||◌, ◌↔◌, ◌∷◌, ◌≡◌,
}
use ping_goat.Database.{find_row, has_row, update_rows, count_rows}

module _ {A : Type 0} where
  -- No two rows are the same by a test on their keys.
  abbrev pub Distinct : (A → A → Bool) → List A → Type 0
  Distinct same [] = Unit
  Distinct same (row ∷ rows) = (has_row (same row) rows ≡ false) × Distinct same rows

  pub has_row-append :
      (q : A → Bool) (rows : List A) (row : A)
      → has_row q (rows ++ row ∷ []) ≡ (has_row q rows || q row)
  has_row-append q [] row = ground arith
  has_row-append q (r ∷ rows) row = ground (arith, has_row-append q rows row)

  -- An update that leaves a test alone.
  pub has_row-update_rows :
      (q p : A → Bool) (f : A → A) (rows : List A)
      → ((r : A) → q (f r) ≡ q r)
      → has_row q (update_rows p f rows) ≡ has_row q rows
  has_row-update_rows q p f [] keep = refl
  has_row-update_rows q p f (r ∷ rows) keep =
      ground (arith, keep r, has_row-update_rows q p f rows keep)

  pub has_row_congr :
      (p q : A → Bool) (rows : List A) → ((r : A) → p r ≡ q r) → has_row p rows ≡ has_row q rows
  has_row_congr p q [] h = refl
  has_row_congr p q (r ∷ rows) h = ground (arith, h r, has_row_congr p q rows h)

  pub Distinct-update_rows :
      (same : A → A → Bool) (p : A → Bool) (f : A → A) (rows : List A)
      → ((r s : A) → same (f r) s ≡ same r s)
      → ((r s : A) → same r (f s) ≡ same r s)
      → Distinct same rows
      → Distinct same (update_rows p f rows)
  Distinct-update_rows same p f [] left right h = tt
  Distinct-update_rows same p f (r ∷ rows) left right (new, h) = (
    ground (
      arith,
      has_row_congr (same (f r)) (same r) (update_rows p f rows) (left r),
      has_row-update_rows (same r) p f rows (right r),
    ),
    Distinct-update_rows same p f rows left right h,
  )

  pub Distinct-append :
      (same : A → A → Bool) (rows : List A) (row : A)
      → Distinct same rows
      → All (λ r. same r row ≡ false) rows
      → Distinct same (rows ++ row ∷ [])
  Distinct-append same [] row h new = (refl, tt)
  Distinct-append same (r ∷ rows) row (old, h) (apart, new) =
      (ground (arith, has_row-append (same r) rows row), Distinct-append same rows row h new)

  pub All-of-has_row :
      (q : A → Bool) (rows : List A) → has_row q rows ≡ false → All (λ r. q r ≡ false) rows
  All-of-has_row q [] h = tt
  All-of-has_row q (r ∷ rows) h = (ground arith, All-of-has_row q rows (ground arith))

  pub has_row-filter :
      (q p : A → Bool) (rows : List A) → has_row q rows ≡ false → has_row q (filter p rows) ≡ false
  has_row-filter q p [] h = refl
  has_row-filter q p (r ∷ rows) h = ground (arith, has_row-filter q p rows)

  -- Rows that are all kept by a filter stay found.
  pub has_row-filter_kept :
      (q p : A → Bool) (rows : List A)
      → ((r : A) → q r ≡ true → p r ≡ true)
      → has_row q (filter p rows) ≡ has_row q rows
  has_row-filter_kept q p [] keep = refl
  has_row-filter_kept q p (r ∷ rows) keep =
      ground (arith, keep r, has_row-filter_kept q p rows keep)

  pub Distinct-filter :
      (same : A → A → Bool) (p : A → Bool) (rows : List A)
      → Distinct same rows
      → Distinct same (filter p rows)
  Distinct-filter same p [] h = tt
  Distinct-filter same p (r ∷ rows) (new, h) = elim (Bool-cases (p r)) [
    | inl kept ↦ rw kept (has_row-filter (same r) p rows new, Distinct-filter same p rows h)
    | inr left ↦ rw left (Distinct-filter same p rows h)
  ]

  pub All-filter :
      (P : A → Type 0) (p : A → Bool) (rows : List A) → All P rows → All P (filter p rows)
  All-filter P p [] h = tt
  All-filter P p (r ∷ rows) (x, h) = elim (Bool-cases (p r)) [
    | inl kept ↦ rw kept (x, All-filter P p rows h)
    | inr left ↦ rw left (All-filter P p rows h)
  ]

  pub All-filter_of :
      (P : A → Type 0) (p : A → Bool) (rows : List A)
      → All (λ r. p r ≡ true → P r) rows
      → All P (filter p rows)
  All-filter_of P p [] h = tt
  All-filter_of P p (r ∷ rows) (x, h) = elim (Bool-cases (p r)) [
    | inl kept ↦ rw kept (x kept, All-filter_of P p rows h)
    | inr left ↦ rw left (All-filter_of P p rows h)
  ]

  pub All-update_rows :
      (P : A → Type 0) (p : A → Bool) (f : A → A) (rows : List A)
      → ((r : A) → P r → P (f r))
      → All P rows
      → All P (update_rows p f rows)
  All-update_rows P p f [] keep h = tt
  All-update_rows P p f (r ∷ rows) keep (x, h) = elim (Bool-cases (p r)) [
    | inl hit ↦ rw hit (keep r x, All-update_rows P p f rows keep h)
    | inr miss ↦ rw miss (x, All-update_rows P p f rows keep h)
  ]

  pub filter_none :
      (p : A → Bool) (rows : List A) → has_row p rows ≡ false → filter (λ r. not (p r)) rows ≡ rows
  filter_none p [] h = refl
  filter_none p (r ∷ rows) h = ground (arith, filter_none p rows)

  pub update_none :
      (p : A → Bool) (f : A → A) (rows : List A)
      → has_row p rows ≡ false
      → update_rows p f rows ≡ rows
  update_none p f [] h = refl
  update_none p f (r ∷ rows) h = ground (arith, update_none p f rows)

  pub count_none : (p : A → Bool) (rows : List A) → has_row p rows ≡ false → count_rows p rows ≡ 0
  count_none p [] h = refl
  count_none p (r ∷ rows) h = ground (arith, count_none p rows)

  -- A statement's row count is 0 exactly when its WHERE clause fits no row.
  pub count_rows-eq-zero_iff :
      (p : A → Bool) (rows : List A) → (count_rows p rows ≡ 0) ↔ (has_row p rows ≡ false)
  count_rows-eq-zero_iff p [] = ground arith
  count_rows-eq-zero_iff p (r ∷ rows) = ground (arith, count_rows-eq-zero_iff p rows)

  pub find_row-eq-none_iff :
      (p : A → Bool) (rows : List A) → (find_row p rows ≡ none) ↔ (has_row p rows ≡ false)
  find_row-eq-none_iff p [] = ground arith
  find_row-eq-none_iff p (r ∷ rows) = ground (arith, find_row-eq-none_iff p rows)

  -- A row that is found passes the test, and the rows have whatever all of them have.
  pub find_row_sound :
      (P : A → Type 0) (p : A → Bool) (rows : List A) (row : A)
      → All P rows
      → find_row p rows ≡ some row
      → P row × (p row ≡ true)
  find_row_sound P p [] row h e = cc
  find_row_sound P p (r ∷ rows) row (x, h) e = elim (Bool-cases (p r)) [
    | inl hit ↦ found hit (some-injective _ _ (rw hit at e))
    | inr miss ↦ find_row_sound P p rows row h (rw miss at e)
  ]
    where
      found : p r ≡ true → r ≡ row → P row × (p row ≡ true)
      found hit same = (subst P same x, subst (λ s. p s ≡ true) same hit)

  pub find_row_passes :
      (p : A → Bool) (rows : List A) (row : A) → find_row p rows ≡ some row → p row ≡ true
  find_row_passes p [] row found = cc
  find_row_passes p (r ∷ rows) row found = elim (Bool-cases (p r)) [
    | inl here ↦ subst (λ s. p s ≡ true) (some-injective _ _ (rw here at found)) here
    | inr there ↦ find_row_passes p rows row (rw there at found)
  ]

  pub has_row-found :
      (p : A → Bool) (rows : List A) (row : A) → find_row p rows ≡ some row → has_row p rows ≡ true
  has_row-found p [] row found = cc
  has_row-found p (r ∷ rows) row found = ground (arith, has_row-found p rows row)

  -- The row that a key finds is there after an update that leaves the key alone, and has got it.
  pub find_row-update_rows :
      (p q : A → Bool) (f : A → A) (rows : List A) (row : A)
      → ((r : A) → p (f r) ≡ p r)
      → find_row p rows ≡ some row
      → q row ≡ true
      → find_row p (update_rows q f rows) ≡ some (f row)
  find_row-update_rows p q f [] row keep found h = cc
  find_row-update_rows p q f (r ∷ rows) row keep found h = elim (Bool-cases (p r)) [
    | inl here ↦ ground (arith, keep r)
    | inr there ↦
        ground (arith, keep r, find_row-update_rows p q f rows row keep (rw there at found) h)
  ]

  pub count_rows-found :
      (p q : A → Bool) (rows : List A) (row : A)
      → find_row p rows ≡ some row
      → q row ≡ true
      → not (count_rows q rows == 0) ≡ true
  count_rows-found p q [] row found h = cc
  count_rows-found p q (r ∷ rows) row found h = ground (arith, count_rows-found p q rows row)
