-- ===== src/Database/Order.antt =====
-- The order of the rows that the queries of internal/database/jobs.sql.go return.
use mathlib.Core.List.Perm
use mathlib.Core.Path.{subst}
use ping_goat.Common.{
  All, All-map, Bool, Bool-cases, IsOrdered, IsOrdered-append, List, Perm, [], ap, arith, drop,
  false, filter, if◌then◌else◌, inl, inr, leb, length, ok, ok-injective, refl, suc, sym, take, true,
  zero, ℕ, ◌++◌, ◌∷◌, ◌≡◌, ◌≤◌, ◌⊎◌,
}
use ping_goat.Database.{Uuid, Time, Db, Job}
use ping_goat.Database.Jobs.{is_queued, get_pending_job, RowOrder, IsOlder, IsNewer}

-- An insertion sort, for a test that is total and transitive.
module _ {A : Type 0} (before : A → A → Bool) where
  abbrev pub insert_row : A → List A → List A
  insert_row x [] = x ∷ []
  insert_row x (y ∷ ys) = let rest = insert_row x ys in if before x y then x ∷ y ∷ ys else y ∷ rest

  abbrev pub sort_rows : List A → List A
  sort_rows [] = []
  sort_rows (x ∷ xs) = insert_row x (sort_rows xs)

  insert_row-perm : (x : A) (ys : List A) → Perm (insert_row x ys) (x ∷ ys)
  insert_row-perm x [] = Perm.refl (x ∷ [])
  insert_row-perm x (y ∷ ys) = elim (Bool-cases (before x y)) [
    | inl first ↦ rw first (Perm.refl (x ∷ y ∷ ys))
    | inr behind ↦ rw behind (Perm.trans (Perm.cons y (insert_row-perm x ys)) (Perm.swap x y ys))
  ]

  pub sort_rows-perm : (xs : List A) → Perm (sort_rows xs) xs
  sort_rows-perm [] = Perm.refl []
  sort_rows-perm (x ∷ xs) =
      Perm.trans (insert_row-perm x (sort_rows xs)) (Perm.cons x (sort_rows-perm xs))

  All-insert_row : (P : A → Type 0) (x : A) (ys : List A) → P x → All P ys → All P (insert_row x ys)
  All-insert_row P x [] p h = (p, tt)
  All-insert_row P x (y ∷ ys) p h = elim (Bool-cases (before x y)) [
    | inl first ↦ rw first (p, h)
    | inr behind ↦ rw behind (h.0, All-insert_row P x ys p h.1)
  ]

  module _ (R : A → A → Type 0) (holds : (x y : A) → before x y ≡ true → R x y)
      (fails : (x y : A) → before x y ≡ false → R y x)
      (joins : (x y z : A) → R x y → R y z → R x z) where
    insert_row-IsOrdered : (x : A) (ys : List A) → IsOrdered R ys → IsOrdered R (insert_row x ys)
    insert_row-IsOrdered x [] h = (tt, tt)
    insert_row-IsOrdered x (y ∷ ys) (low, h) = elim (Bool-cases (before x y)) [
      | inl first ↦
          let r = holds x y first in
          rw first ((r, All-map (λ z s. joins x y z r s) ys low), (low, h))
      | inr behind ↦
          rw behind (All-insert_row (R y) x ys (fails x y behind) low, insert_row-IsOrdered x ys h)
    ]

    pub sort_rows-IsOrdered : (xs : List A) → IsOrdered R (sort_rows xs)
    sort_rows-IsOrdered [] = tt
    sort_rows-IsOrdered (x ∷ xs) = insert_row-IsOrdered x (sort_rows xs) (sort_rows-IsOrdered xs)

abbrev older : Job → Job → Bool
older i j = leb i.created_at.time j.created_at.time

abbrev newer : Job → Job → Bool
newer i j = leb j.created_at.time i.created_at.time

pub sort_rows-IsOrdered-older : (rows : List Job) → IsOrdered IsOlder (sort_rows older rows)
sort_rows-IsOrdered-older rows =
    sort_rows-IsOrdered older IsOlder (λ i j h. ground arith) (λ i j h. ground arith)
      (λ i j k h l. omega arith) rows

pub sort_rows-IsOrdered-newer : (rows : List Job) → IsOrdered IsNewer (sort_rows newer rows)
sort_rows-IsOrdered-newer rows =
    sort_rows-IsOrdered newer IsNewer (λ i j h. ground arith) (λ i j h. ground arith)
      (λ i j k h l. omega arith) rows

-- One order that a server can return the rows in.
abbrev pub by_created : RowOrder
by_created = record {
  oldest_first = sort_rows older;
  newest_first = sort_rows newer;
  oldest_first-perm = sort_rows-perm older;
  newest_first-perm = sort_rows-perm newer;
  oldest_first-sorted = sort_rows-IsOrdered-older;
  newest_first-sorted = sort_rows-IsOrdered-newer;
}

take-drop : {A : Type 0} (n : ℕ) (xs : List A) → take n xs ++ drop n xs ≡ xs
take-drop zero xs = refl
take-drop (suc n) [] = refl
take-drop (suc n) (x ∷ xs) = ap (λ l. x ∷ l) (take-drop n xs)

length-take_full : {A : Type 0} (n : ℕ) (xs : List A) → (drop n xs ≡ []) ⊎ (length (take n xs) ≡ n)
length-take_full zero xs = inr refl
length-take_full (suc n) [] = inl refl
length-take_full (suc n) (x ∷ xs) = elim (length-take_full n xs) [
  | inl e ↦ inl e
  | inr e ↦ inr (ap suc e)
]

-- The rows that are passed on, and those that are left out.
abbrev pub IsSplit : Db → List Job → Type 0
IsSplit db jobs =
    (others : List Job) × Perm (jobs ++ others) (filter is_queued db.jobs)
    × All (λ i. All (IsOlder i) others) jobs
    × ((others ≡ []) ⊎ (length jobs ≡ 50))

take_oldest :
    (order : RowOrder) (db : Db)
    → IsSplit db (take 50 (order.oldest_first (filter is_queued db.jobs)))
take_oldest order db =
    let queued = filter is_queued db.jobs in
    let rows = order.oldest_first queued in
    let whole = sym (take-drop 50 rows) in
    (
      drop 50 rows,
      subst (λ l. Perm l queued) whole (order.oldest_first-perm queued),
      IsOrdered-append IsOlder (take 50 rows) (drop 50 rows)
          (subst (IsOrdered IsOlder) whole (order.oldest_first-sorted queued)),
      length-take_full 50 rows,
    )

All-take : {A : Type 0} (P : A → Type 0) (n : ℕ) (xs : List A) → All P xs → All P (take n xs)
All-take P zero xs h = tt
All-take P (suc n) [] h = tt
All-take P (suc n) (x ∷ xs) h = (h.0, All-take P n xs h.1)

IsOrdered-take :
    {A : Type 0} (R : A → A → Type 0) (n : ℕ) (xs : List A)
    → IsOrdered R xs
    → IsOrdered R (take n xs)
IsOrdered-take R zero xs h = tt
IsOrdered-take R (suc n) [] h = tt
IsOrdered-take R (suc n) (x ∷ xs) h = (All-take (R x) n xs h.0, IsOrdered-take R n xs h.1)

take_bound : {A : Type 0} (n : ℕ) (xs : List A) → length (take n xs) ≤ n
take_bound zero xs = omega arith
take_bound (suc n) [] = omega arith
take_bound (suc n) (x ∷ xs) = omega (arith, take_bound n xs)

-- `GetPendingJob` returns the oldest queued jobs, 50 at most and the oldest first: with the queued jobs
-- that it leaves out, its rows are all queued jobs; they are ordered by age, each of them is at
-- least as old as each that is left out, and none is left out of fewer than 50.
pub get_pending_job_oldest :
    (order : RowOrder) (now : Time) (uuid : Uuid) (db : Db) (jobs : List Job)
    → (get_pending_job order now uuid db).1 ≡ ok jobs
    → (length jobs ≤ 50)
      × IsOrdered IsOlder jobs
      × ((others : List Job) × Perm (jobs ++ others) (filter is_queued db.jobs)
          × All (λ i. All (IsOlder i) others) jobs
          × ((others ≡ []) ⊎ (length jobs ≡ 50)))
unfolding get_pending_job
get_pending_job_oldest order now uuid db jobs e =
    let rows = order.oldest_first (filter is_queued db.jobs) in
    subst (λ l. (length l ≤ 50) × IsOrdered IsOlder l × IsSplit db l) (ok-injective e)
      (
        take_bound 50 rows,
        IsOrdered-take IsOlder 50 rows (order.oldest_first-sorted (filter is_queued db.jobs)),
        take_oldest order db,
      )
