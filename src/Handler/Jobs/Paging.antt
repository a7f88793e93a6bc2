-- ===== src/Handler/Jobs/Paging.antt =====
-- The arithmetic of `ListJobs` in internal/handler/jobsHandler.go: which page is served, and which
-- rows it holds.
use native.Mathlib.Nat.{div-add-mod', mod-lt, le_refl, le_trans, suc-le-suc_iff}
use ping_goat.Database.{Db, Time, Job, Uuid, DbError}
use ping_goat.Database.Jobs.{owned_by, list_jobs_by_user, RowOrder}
use ping_goat.Common.{
  Bool-cases, GoString, List, Result, [], arith, err, filter, inl, inr, ltb, ok, refl, suc, zero, ℕ,
  ◌*◌, ◌++◌, ◌+◌, ◌-◌, ◌<◌, ◌≡◌, ◌≤◌, ◌⊎◌,
}
use ping_goat.Handler.Jobs.{read_page, read_per_page, max_page, served_page, page_params}

-- Whatever the query string holds, the page is at least 1 and its size lies between 1 and 100.
read_bounds : (s t : GoString) → (1 ≤ read_page s) × (1 ≤ read_per_page t) × (read_per_page t ≤ 100)
unfolding read_page read_per_page
read_bounds s t = ground arith

ceil_bounds :
    (count per_page : ℕ)
    → 0 < per_page
    → (count ≤ max_page count per_page * per_page)
      × (max_page count per_page * per_page < count + per_page)
unfolding max_page
ceil_bounds count per_page h =
    grind (arith, div-add-mod' (count + per_page - 1) per_page, mod-lt (count + per_page - 1) h)

one_page : (count per_page m : ℕ) → 0 < count → count ≤ m * per_page → 1 ≤ m
one_page count per_page zero h le = absurd (omega arith)
one_page count per_page (suc m) h le = omega arith

mul_before :
    (m count per_page : ℕ) → 1 ≤ m → m * per_page < count + per_page → (m - 1) * per_page < count
mul_before zero count per_page h lt = absurd (omega arith)
mul_before (suc m) count per_page h lt = grind arith

mul_mono : (a b per_page : ℕ) → a ≤ b → (a - 1) * per_page ≤ (b - 1) * per_page
mul_mono a b per_page h = let le : a - 1 ≤ b - 1 = omega arith in grind arith

-- With a job at all, the page that is served is one from 1 up to the last, it is the page that was
-- asked for or the last, and its offset lies in front of the last job: no page is empty.
served_page_bounds :
    (count per_page page : ℕ)
    → 0 < count
    → 0 < per_page
    → 0 < page
    → (1 ≤ served_page count per_page page)
      × (served_page count per_page page ≤ max_page count per_page)
      × ((served_page count per_page page ≡ page)
          ⊎ (served_page count per_page page ≡ max_page count per_page))
      × ((served_page count per_page page - 1) * per_page < count)
unfolding served_page
served_page_bounds count per_page page h k l =
    let (over, under) = ceil_bounds count per_page k in
    let some_page : 1 ≤ max_page count per_page =
      one_page count per_page (max_page count per_page) h over in
    let first = mul_before (max_page count per_page) count per_page some_page under in
    elim (Bool-cases (ltb (max_page count per_page) page)) [
      | inl past ↦ rw past (some_page, le_refl _, inr refl, first)
      | inr there ↦
          let le : page ≤ max_page count per_page = ground arith in
          rw there (
            l,
            le,
            inl refl,
            le_trans (suc-le-suc_iff.1 (mul_mono page (max_page count per_page) per_page le)) first,
          )
    ]

-- The rows of the pages 1 to n, one query after the other, each with its own order; a query that fails
-- gives none.
abbrev rows_of : Result DbError (List Job) → List Job
rows_of (ok rows) = rows
rows_of (err e) = []

abbrev pub joined_pages : (ℕ → RowOrder) → Uuid → ℕ → Time → Uuid → Db → ℕ → List Job
joined_pages orders user_id per_page now uuid db zero = []
joined_pages orders user_id per_page now uuid db (suc n) =
    joined_pages orders user_id per_page now uuid db n
    ++ rows_of (list_jobs_by_user (orders n) (page_params user_id (suc n) per_page) now uuid db).1

module _ (order : RowOrder) (orders : ℕ → RowOrder) (user_id : Uuid) (now : Time) (uuid : Uuid)
    (db : Db) where
  -- The user's jobs, the newest first.
  abbrev pub listed : List Job
  listed = order.newest_first (filter (owned_by user_id) db.jobs)
