-- ===== src/Session/Guards.antt =====
-- How an early return runs.
use ping_goat.Common.{Bool, ap, err, false, ok, true, ◌≡◌}
use ping_goat.Session.{◌>>=◌, ◌>>◌, Exec, World, or_else, require}

module _ {E B : Type 0} (test : Bool) (e : E) (k : Exec E B) (w : World) where
  pub require_passes : test ≡ true → (require test e >> k) w ≡ k w
  require_passes h = ap (λ b. (require b e >> k) w) h

  pub require_stops : test ≡ false → (require test e >> k) w ≡ (err e, w)
  require_stops h = ap (λ b. (require b e >> k) w) h

-- What follows an action that has run.
module _ {E A B : Type 0} (m : Exec E A) (f : A → Exec E B) (w v : World) where
  pub bind_ok : (a : A) → m w ≡ (ok a, v) → (m >>= f) w ≡ f a v
  bind_ok a h = ap (λ r. ((λ _. r) >>= f) w) h

  pub bind_err : (e : E) → m w ≡ (err e, v) → (m >>= f) w ≡ (err e, v)
  bind_err e h = ap (λ r. ((λ _. r) >>= f) w) h

module _ {E F A : Type 0} (m : Exec F A) (f : F → E) (w v : World) where
  pub else_ok : (a : A) → m w ≡ (ok a, v) → or_else m f w ≡ (ok a, v)
  else_ok a h = ap (λ r. or_else (λ _. r) f w) h

  pub else_err : (e : F) → m w ≡ (err e, v) → or_else m f w ≡ (err (f e), v)
  else_err e h = ap (λ r. or_else (λ _. r) f w) h

pub else_first :
    {E F A : Type 0} (m : Exec F A) (f : F → E) (w : World) (a : A)
    → (m w).0 ≡ ok a
    → or_else m f w ≡ (ok a, (m w).1)
else_first m f w a e = ap (λ r. or_else (λ v. (r, (m v).1)) f w) e
