-- ===== src/Database/Keyed.antt =====
-- Laws of the row operations for rows that a key tells apart.
use ping_goat.Common.{
  All, All-map, Bool, Bool-cases, List, [], arith, false, filter, if◌then◌else◌, inl, inr, none,
  refl, some, true, ◌&&◌, ◌++◌, ◌∷◌, ◌≡◌,
}
use ping_goat.Database.{find_row, has_row, update_rows}
use ping_goat.Database.Rows.{All-of-has_row, Distinct}

module _ {A : Type 0} where
  -- An update gives one property to the rows that it changes, and the others have it already.
  pub All-update_rows_of :
      (P Q : A → Type 0) (p : A → Bool) (f : A → A) (rows : List A)
      → ((r : A) → p r ≡ true → P r → Q (f r))
      → ((r : A) → p r ≡ false → P r → Q r)
      → All P rows
      → All Q (update_rows p f rows)
  All-update_rows_of P Q p f [] hit miss h = tt
  All-update_rows_of P Q p f (r ∷ rows) hit miss (x, h) = elim (Bool-cases (p r)) [
    | inl hits ↦ rw hits (hit r hits x, All-update_rows_of P Q p f rows hit miss h)
    | inr fails ↦ rw fails (miss r fails x, All-update_rows_of P Q p f rows hit miss h)
  ]

  no_other :
      (same : A → A → Bool) (p q : A → Bool) (row : A) (rows : List A)
      → ((s : A) → p s ≡ true → same row s ≡ true)
      → has_row (same row) rows ≡ false
      → has_row (λ s. p s && q s) rows ≡ false
  no_other same p q row [] key h = refl
  no_other same p q row (s ∷ rows) key h = ground (arith, key s, no_other same p q row rows key)

  -- Where a test lets one row through at most, and a row passes two tests, all that pass the first
  -- pass the second.
  pub all_of_one :
      (same : A → A → Bool) (p q : A → Bool) (rows : List A)
      → ((r s : A) → p r ≡ true → p s ≡ true → same r s ≡ true)
      → Distinct same rows
      → has_row (λ r. p r && q r) rows ≡ true
      → All (λ r. p r ≡ true → q r ≡ true) rows
  all_of_one same p q [] key h found = tt
  all_of_one same p q (r ∷ rows) key (new, h) found = elim (Bool-cases (p r)) [
    | inl mine ↦
        let others = no_other same p q r rows (λ s e. key r s mine e) new in
        (
          (λ e. ground (arith, others)),
          All-map (λ s apart e. absurd (let t = key r s mine e in cc)) rows
              (All-of-has_row (same r) rows new),
        )
    | inr other ↦ ((λ e. cc), all_of_one same p q rows key h (rw other at found))
  ]

  -- What follows from any row that passes a test, follows where there is one.
  pub has_row_gives :
      {X : Type 0} (p : A → Bool) (rows : List A)
      → has_row p rows ≡ true
      → All (λ r. p r ≡ true → X) rows
      → X
  has_row_gives p [] found h = cc
  has_row_gives p (r ∷ rows) found (x, h) = elim (Bool-cases (p r)) [
    | inl hits ↦ x hits
    | inr fails ↦ has_row_gives p rows (rw fails at found) h
  ]

  pub find_row-update_rows_if :
      (p q : A → Bool) (f : A → A) (rows : List A) (row : A)
      → ((r : A) → p (f r) ≡ p r)
      → find_row p rows ≡ some row
      → find_row p (update_rows q f rows) ≡ some (if q row then f row else row)
  find_row-update_rows_if p q f [] row keep found = cc
  find_row-update_rows_if p q f (r ∷ rows) row keep found = elim (Bool-cases (p r)) [
    | inl here ↦ ground (arith, keep r)
    | inr there ↦
        ground (arith, keep r, find_row-update_rows_if p q f rows row keep (rw there at found))
  ]

  pub find_row-update_rows-none :
      (p q : A → Bool) (f : A → A) (rows : List A)
      → ((r : A) → p (f r) ≡ p r)
      → find_row p rows ≡ none
      → find_row p (update_rows q f rows) ≡ none
  find_row-update_rows-none p q f [] keep found = refl
  find_row-update_rows-none p q f (r ∷ rows) keep found =
      ground (arith, keep r, find_row-update_rows-none p q f rows keep)

  pub find_row-append_found :
      (p : A → Bool) (rows : List A) (new row : A)
      → find_row p rows ≡ some row
      → find_row p (rows ++ new ∷ []) ≡ some row
  find_row-append_found p [] new row found = cc
  find_row-append_found p (r ∷ rows) new row found =
      ground (arith, find_row-append_found p rows new row)

  pub find_row-append :
      (p : A → Bool) (rows : List A) (row : A)
      → has_row p rows ≡ false
      → p row ≡ true
      → find_row p (rows ++ row ∷ []) ≡ some row
  find_row-append p [] row h e = rw e refl
  find_row-append p (r ∷ rows) row h e = ground (arith, find_row-append p rows row)

  pub find_row-append_none :
      (p : A → Bool) (rows : List A) (new : A)
      → find_row p rows ≡ none
      → find_row p (rows ++ new ∷ []) ≡ find_row p (new ∷ [])
  find_row-append_none p [] new found = refl
  find_row-append_none p (r ∷ rows) new found = ground (arith, find_row-append_none p rows new)

  -- A filter leaves a row that it keeps, and shows no new one.
  pub find_row-filter :
      (p q : A → Bool) (rows : List A)
      → ((r : A) → p r ≡ true → q r ≡ true)
      → find_row p (filter q rows) ≡ find_row p rows
  find_row-filter p q [] keep = refl
  find_row-filter p q (r ∷ rows) keep = ground (arith, keep r, find_row-filter p q rows keep)

  pub find_row-filter-none :
      (p q : A → Bool) (rows : List A)
      → ((r : A) → p r ≡ true → q r ≡ false)
      → find_row p (filter q rows) ≡ none
  find_row-filter-none p q [] drops = refl
  find_row-filter-none p q (r ∷ rows) drops =
      ground (arith, drops r, find_row-filter-none p q rows drops)

  pub find_row-filter_absent :
      (p q : A → Bool) (rows : List A) → find_row p rows ≡ none → find_row p (filter q rows) ≡ none
  find_row-filter_absent p q [] absent = refl
  find_row-filter_absent p q (r ∷ rows) absent = ground (arith, find_row-filter_absent p q rows)
