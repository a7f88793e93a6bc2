-- ===== src/Database/Unique.antt =====
-- Where no two jobs have one created_at, ORDER BY leaves the server no choice of their order.
use mathlib.Core.List.{Permᴰ}
use mathlib.Core.List.Perm
use mathlib.Core.Path.{subst}
use mathlib.Core.Logic.{∥∥₁_elim}
use ping_goat.Common.{
  All, IsOrdered, List, Perm, [], ap, arith, inl, inr, length, refl, suc, sym, ◌<◌, ◌∙◌, ◌∷◌, ◌≡◌,
}
use ping_goat.Database.{Job}
use ping_goat.Database.Jobs.{IsNewer, RowOrder}

-- A job is younger than another.
abbrev pub IsYounger : Job → Job → Type 0
IsYounger i j = j.created_at.time < i.created_at.time

jobs_set : IsSet (List Job)
jobs_set = hlevel

All-permᴰ : (P : Job → Type 0) {xs ys : List Job} → Permᴰ xs ys → All P xs → All P ys
All-permᴰ P Permᴰ.nil h = tt
All-permᴰ P (Permᴰ.cons e p) (x, h) = (subst P e x, All-permᴰ P p h)
All-permᴰ P (Permᴰ.swap e f) (x, (y, h)) = (subst P f y, (subst P e x, h))
All-permᴰ P (Permᴰ.trans p q) h = All-permᴰ P q (All-permᴰ P p h)

pub length-permᴰ : {xs ys : List Job} → Permᴰ xs ys → length xs ≡ length ys
length-permᴰ Permᴰ.nil = refl
length-permᴰ (Permᴰ.cons a p) = ap suc (length-permᴰ p)
length-permᴰ (Permᴰ.swap a b) = refl
length-permᴰ (Permᴰ.trans p q) = length-permᴰ p ∙ length-permᴰ q

-- No job is both younger and not younger than another.
crossed :
    (x y : Job) (xs ys cs : List Job)
    → All (IsYounger x) xs
    → All (IsNewer y) ys
    → Perm xs (y ∷ cs)
    → Perm ys (x ∷ cs)
    → ⊥
crossed x y xs ys cs hx hy p q = ∥∥₁_elim p (hlevel) (λ d. ∥∥₁_elim q (hlevel) (λ e.
    let a = (All-permᴰ (IsYounger x) d hx).0 in
    let b = (All-permᴰ (IsNewer y) e hy).0 in omega arith))

sorted_unique :
    (xs ys : List Job) → IsOrdered IsYounger xs → IsOrdered IsNewer ys → Perm xs ys → xs ≡ ys
sorted_unique [] [] hx hy p = refl
sorted_unique [] (y ∷ ys) hx hy p =
    absurd (∥∥₁_elim p (hlevel) (λ d. let e = length-permᴰ d in omega arith))
sorted_unique (x ∷ xs) [] hx hy p =
    absurd (∥∥₁_elim p (hlevel) (λ d. let e = length-permᴰ d in omega arith))
sorted_unique (x ∷ xs) (y ∷ ys) hx hy p =
    ∥∥₁_elim (Perm.cons-cons_cases p) (jobs_set (x ∷ xs) (y ∷ ys)) (λ c. elim c [
      | inl (e, q) ↦ ap (λ j. j ∷ xs) e ∙ ap (λ l. y ∷ l) (sorted_unique xs ys hx.1 hy.1 q)
      | inr (cs, q, r) ↦ absurd (crossed x y xs ys cs hx.0 hy.0 q r)
    ])

-- Rows of which no two have one created_at come in one order, whichever query asks for them.
pub newest_first_unique :
    (order order' : RowOrder) (rows : List Job)
    → IsOrdered IsYounger (order.newest_first rows)
    → order'.newest_first rows ≡ order.newest_first rows
newest_first_unique order order' rows apart = sym (
    sorted_unique (order.newest_first rows) (order'.newest_first rows) apart
      (order'.newest_first-sorted rows)
      (Perm.trans (order.newest_first-perm rows) (Perm.symm (order'.newest_first-perm rows))))
